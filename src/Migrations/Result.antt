-- ===== src/Migrations/Result.antt =====
-- What reading the migrations of a repository returns.
use pgproof.Common.{
  String, Option, some, List, [], ◌≡◌, ◌⊎◌, map, Distinct, All, Result, ok, raise, text_equality,
  ◌++◌,
}
use pgproof.Common.Dict.{Dict, keys}
use pgproof.Ir.{ColumnIr, ConstraintIr, IndexIr, TableIr, SchemaIr, UnsupportedConstruct}
use pgproof.Migrations.Defs.{
  RevisionInfo, RevisionGraphReport, AlembicStaticResult, TableState, Replay, ReplayError,
}

-- Each table, each column of a table, each constraint and each index has a name of its own.
pub record IsNamedSchema (schema : SchemaIr) : Type 0 where
  pub tables : Distinct (map (λ (t : TableIr). t.name) schema.tables)
  pub columns :
      All (λ (t : TableIr). Distinct (map (λ (c : ColumnIr). c.name) t.columns)) schema.tables
  pub constraints : Distinct (map (λ (c : ConstraintIr). c.name) schema.constraints)
  pub indexes : Distinct (map (λ (i : IndexIr). i.name) schema.indexes)

-- The tables that a dictionary of good tables becomes.
record AreTables (d : Dict String TableState) (tables : List TableIr) : Type 0 where
  names : map (λ (t : TableIr). t.name) tables ≡ keys d
  columns : All (λ (t : TableIr). Distinct (map (λ (c : ColumnIr). c.name) t.columns)) tables

abbrev Outcome : Type 0
Outcome = SchemaIr × List UnsupportedConstruct

abbrev NamesAll : Outcome → Type 0
NamesAll both = IsNamedSchema both.0

-- A program that raises, or returns with the property and without a lack of fuel.
abbrev pub Settles : {A : Type 0} → (A → Type 0) → Result ReplayError (Option A) → Type 0
Settles {A = A} P run =
    ((error : ReplayError) × (run ≡ raise error)) ⊎ ((a : A) × (run ≡ ok (some a)) × P a)

nothing_replayed : List UnsupportedConstruct → Replay
nothing_replayed unsupported = record {
  tables = [];
  constraints = [];
  indexes = [];
  unsupported = unsupported;
}

abbrev with_files :
    List RevisionInfo
    → RevisionGraphReport
    → List UnsupportedConstruct
    → Outcome
    → AlembicStaticResult
with_files revisions graph file_level both = record {
  revisions = revisions;
  graph = graph;
  schema = record both.0 { unsupported = both.0.unsupported ++ file_level ++ both.1 };
}
