-- ===== src/Migrations/Replay.antt =====
-- alembic_static.py: `_replay`, and what `parse_migrations` makes of the modules that it has read.
use Prim.Native.String.{◌++◌}
use pgproof.Common.{
  String, Bool, not, ◌||◌, Option, none, some, List, [], ◌∷◌, ◌++◌ as followed_by, Result, ok,
  ◌>>=◌, eqn, length, push, ◌==◌, text_equality, if◌then◌else◌,
}
use pgproof.Common.Dict.{Dict, get_or, values}
use pgproof.Common.Sorting.{text_le, sort_by}
use pgproof.Identifiers.{digits_onto}
use pgproof.Ir.{TableIr, SchemaIr, static_migration, UnsupportedConstruct}
use pgproof.Migrations.Defs.{
  RevisionInfo, RevisionGraphReport, AlembicStaticResult, Value, Operation, TableState, Replay,
  ReplayError,
}
use pgproof.Migrations.Graph.{revision_ids, build_graph, revision_order, is_nil}
use pgproof.Migrations.Apply.{text_argument, public_table, apply}

abbrev pub is_unsupported : Operation → Bool
is_unsupported op = op.kind == "unsupported"

-- The first loop: what the extraction could not read.
unfoldable pub noted_of : List Operation → Result ReplayError (List UnsupportedConstruct)
unfolding text_argument
noted_of [] = ok []
noted_of (op ∷ ops) = do
  rest ← noted_of ops
  elim (is_unsupported op) [
    | Bool.false ↦ ok rest
    | Bool.true ↦ (do
      reason ← text_argument "reason" op.args
      ok (
          (record { kind = "migration_operation"; reason = reason; source = some op.source })
          ∷ rest))
  ]

unfoldable pub noted :
    Dict String (List Operation)
    → List RevisionInfo
    → Result ReplayError (List UnsupportedConstruct)
unfolding noted_of
noted operations [] = ok []
noted operations (info ∷ infos) = do
  first ← noted_of (get_or [] info.revision operations)
  rest ← noted operations infos
  ok (followed_by first rest)

-- A schema of which only these fields are given.
abbrev pub schema_of : List String → SchemaIr
schema_of revisions = record {
  provenance = static_migration;
  tables = [];
  constraints = [];
  indexes = [];
  extensions = [];
  extension_versions = [];
  server_version = none;
  settings = [];
  migration_head = none;
  migration_revisions = revisions;
  unsupported = [];
}

abbrev pub is_ambiguous : RevisionGraphReport → Bool
is_ambiguous graph =
    not (is_nil graph.cycle)
    || not (is_nil graph.missing_predecessors)
    || not (eqn (length graph.heads) 1)

unfoldable pub ambiguity : RevisionGraphReport → UnsupportedConstruct
unfolding digits_onto
ambiguity graph = record {
  kind = "ambiguous_revision_graph";
  reason =
      "schema not replayed: the revision graph has "
      ++ (if not (is_nil graph.cycle)
          then "a revision cycle"
          else if not (is_nil graph.missing_predecessors)
          then "a missing predecessor"
          else digits_onto (length graph.heads) (length graph.heads) " heads");
  source = none;
}

unfoldable pub table_irs : List TableState → Result ReplayError (List TableIr)
table_irs [] = ok []
table_irs (state ∷ states) = do
  id ← public_table state.name
  rest ← table_irs states
  ok (
      (record {
        id = id;
        schema_name = "public";
        name = state.name;
        columns = values state.columns;
        provenance = static_migration;
        source = none;
        comment = none;
      })
      ∷ rest)

module _ (repr upper : String → String) (show : Value → String) where
  unfoldable pub apply_all : String → List Operation → Replay → Result ReplayError Replay
  unfolding apply
  apply_all revision [] state = ok state
  apply_all revision (op ∷ ops) state = do
    next ← elim (is_unsupported op) [
      | Bool.true ↦ ok state
      | Bool.false ↦ apply repr upper show revision op state
    ]
    apply_all revision ops next

  unfoldable pub replay_order :
      Dict String (List Operation) → List String → Replay → Result ReplayError Replay
  unfolding apply_all
  replay_order operations [] state = ok state
  replay_order operations (revision ∷ order) state = do
    next ← apply_all revision (get_or [] revision operations) state
    replay_order operations order next

  -- The schema after the operations, with the head that the order ends in.
  unfoldable pub replayed :
      List RevisionInfo
      → Dict String (List Operation)
      → String
      → List String
      → List UnsupportedConstruct
      → Result ReplayError (SchemaIr × List UnsupportedConstruct)
  unfolding replay_order table_irs sort_by
  replayed revisions operations head order unsupported = do
    state ←
        replay_order operations order
          (record { tables = []; constraints = []; indexes = []; unsupported = unsupported })
    tables ← table_irs (values state.tables)
    ok (
      record (schema_of (sort_by text_le (revision_ids revisions))) {
        tables = tables;
        constraints = values state.constraints;
        indexes = values state.indexes;
        migration_head = some head;
      },
      state.unsupported,
    )

  -- None is a lack of fuel in the order.
  unfoldable pub replay_head :
      List RevisionInfo
      → Dict String (List Operation)
      → List String
      → List UnsupportedConstruct
      → Result ReplayError (Option (SchemaIr × List UnsupportedConstruct))
  unfolding revision_order replayed
  replay_head revisions operations [] unsupported = ok none
  replay_head revisions operations (head ∷ heads) unsupported = do
    order ← revision_order revisions head
    elim order [
      | none ↦ ok none
      | some found ↦ (do
        both ← replayed revisions operations head found unsupported
        ok (some both))
    ]

  unfoldable pub replay_graph :
      List RevisionInfo
      → Dict String (List Operation)
      → RevisionGraphReport
      → Result ReplayError (Option (SchemaIr × List UnsupportedConstruct))
  unfolding noted ambiguity replay_head
  replay_graph revisions operations graph = do
    unsupported ← noted operations revisions
    (if is_nil revisions
        then ok (some (schema_of [], unsupported))
        else if is_ambiguous graph
        then ok (
            some (
              schema_of (sort_by text_le (revision_ids revisions)),
              push unsupported (ambiguity graph),
            ))
        else replay_head revisions operations graph.heads unsupported)

  -- `parse_migrations` behind its loop over the files.
  unfoldable pub parsed_migrations :
      List RevisionInfo
      → Dict String (List Operation)
      → List UnsupportedConstruct
      → Result ReplayError (Option AlembicStaticResult)
  unfolding build_graph replay_graph
  parsed_migrations revisions operations file_level = elim (build_graph revisions) [
    | none ↦ ok none
    | some graph ↦ (do
      done ← replay_graph revisions operations graph
      ok (elim done [
        | none ↦ none
        | some both ↦ some (record {
          revisions = revisions;
          graph = graph;
          schema = record both.0 {
            unsupported = followed_by (followed_by both.0.unsupported file_level) both.1;
          };
        })
      ]))
  ]
