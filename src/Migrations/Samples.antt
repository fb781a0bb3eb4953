-- ===== src/Migrations/Samples.antt =====
-- A small history of migrations, and what reading it returns.
use pgproof.Common.{
  String, Bool, true, false, none, some, List, [], ◌∷◌, ◌≡◌, ◌↔◌, refl, ok, raise, In, inl,
  text_dec, number_dec,
}
use pgproof.Common.Dict.{Dict, get, put, delete}
use pgproof.Common.Sets.{unique}
use pgproof.Common.Sorting.{sort_by, text_le}
use pgproof.Ir.{SourceRef, TableIr, ColumnIr, ConstraintIr, SchemaIr}
use pgproof.Migrations.Defs.{
  RevisionInfo, RevisionGraphReport, Value, text_value, column_value, Operation, key_error,
}
use pgproof.Migrations.Graph.{build_graph, find_cycle, revision_order, parents_of}
use pgproof.Identifiers.{table_id, column_id}
use pgproof.Migrations.Apply.{truthy}
use pgproof.Migrations.Replay.{parsed_migrations}
use pgproof.Migrations.Cycles.{IsAbove, find_cycle-IsAcyclic}
use pgproof.Migrations.Order.{IsOrder}
use pgproof.Migrations.Total.{revision_order-IsOrder}

abbrev file : SourceRef
file = record {
  path = "versions/a.py";
  line = none;
  end_line = none;
  content_hash = "sha256:0";
  symbol = none;
}

abbrev revision : String → List String → RevisionInfo
revision id down = record {
  revision = id;
  down_revisions = down;
  branch_labels = [];
  depends_on = [];
  message = none;
  source = file;
}

abbrev diamond : List RevisionInfo
diamond =
    revision "c" ("a" ∷ "b" ∷ [])
    ∷ revision "b" ("base" ∷ [])
    ∷ revision "a" ("base" ∷ [])
    ∷ revision "base" []
    ∷ []

abbrev loop : List RevisionInfo
loop = revision "x" ("y" ∷ []) ∷ revision "y" ("x" ∷ []) ∷ []

abbrev diamond_report : RevisionGraphReport
diamond_report = record {
  revisions = "a" ∷ "b" ∷ "base" ∷ "c" ∷ [];
  roots = "base" ∷ [];
  heads = "c" ∷ [];
  merge_revisions = "c" ∷ [];
  missing_predecessors = [];
  cycle = [];
}

program : Unit {0}
unfolding build_graph revision_order parsed_migrations text_dec number_dec get put delete sort_by
    text_le unique table_id column_id truthy
program = tt

diamond_graph : build_graph diamond ≡ some diamond_report
unfolding program
diamond_graph = refl

diamond_order : revision_order diamond "c" ≡ ok (some ("base" ∷ "a" ∷ "b" ∷ "c" ∷ []))
unfolding program
diamond_order = refl

loop_found : find_cycle loop ≡ some ("x" ∷ "y" ∷ [])
unfolding program
loop_found = refl

revision_order-IsOrder_example :
    (order : List String) × (revision_order diamond "c" ≡ ok (some order))
    × In "c" order
    × IsOrder (parents_of diamond) order
revision_order-IsOrder_example =
    revision_order-IsOrder diamond diamond_report "c" diamond_graph refl refl (inl refl)

find_cycle-IsAcyclic_example :
    (found : List String) × (find_cycle loop ≡ some found)
    × ((found ≡ []) ↔ ((x : String) → ¬ (IsAbove (parents_of loop) x x)))
find_cycle-IsAcyclic_example = find_cycle-IsAcyclic loop

abbrev column : String → Bool → Value
column name key = column_value (record {
  name = name;
  type_text = "Integer()";
  nullable = false;
  primary_key = key;
  server_default = none;
})

abbrev operation : String → Dict String Value → Operation
operation kind args = record { kind = kind; args = args; source = file }

abbrev same : String → String
same s = s

abbrev shown : Value → String
shown v = ""

abbrev one : List RevisionInfo
one = revision "base" [] ∷ []

abbrev operations : Dict String (List Operation)
operations =
    (
      "base",
      operation "create_table"
            (("_0", text_value "t") ∷ ("_1", column "a" true) ∷ ("_2", column "b" true) ∷ [])
          ∷ operation "rename_table" (("_0", text_value "t") ∷ ("_1", text_value "u") ∷ [])
          ∷ operation "create_index"
              (("_0", text_value "ix") ∷ ("_1", text_value "u") ∷ ("_2", text_value "a") ∷ [])
          ∷ [],
    )
    ∷ []

-- What a test reads of a result: the column ids of the tables, and the columns of the keys.
abbrev column_ids_of : List ColumnIr → List String
column_ids_of [] = []
column_ids_of (c ∷ cs) = c.id ∷ column_ids_of cs

abbrev ids_of : List TableIr → List String
ids_of [] = []
ids_of (t ∷ ts) = t.id ∷ column_ids_of t.columns

abbrev first_key_columns : List ConstraintIr → List String
first_key_columns [] = []
first_key_columns (c ∷ cs) = c.columns

abbrev read : (SchemaIr → List String) → List String
read view = elim (parsed_migrations same same shown one operations []) [
  | raise e ↦ "raised" ∷ []
  | ok none ↦ []
  | ok (some r) ↦ view r.schema
]

-- The columns of a renamed table keep the ids of the old one.
renamed_columns : read (λ s. ids_of s.tables) ≡ "public.u" ∷ "public.t.a" ∷ "public.t.b" ∷ []
unfolding program
renamed_columns = refl

-- A composite primary key keeps its last column alone.
composite_key : read (λ s. first_key_columns s.constraints) ≡ "public.t.b" ∷ []
unfolding program
composite_key = refl

missing_argument :
    parsed_migrations same same shown one
      (("base", operation "drop_table" (("table_name", text_value "t") ∷ []) ∷ []) ∷ [])
      []
    ≡ raise (key_error "_0")
unfolding program
missing_argument = refl
