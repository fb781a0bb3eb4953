-- ===== src/Migrations/Apply/Constraints.antt =====
-- alembic_static.py: the operations of `_apply` on constraints and indexes.
use pgproof.Common.{
  String, false, Option, none, some, List, [], map, ok, raise, ◌>>=◌, text_equality, if◌then◌else◌,
}
use pgproof.Common.Dict.{Dict, put, get, delete}
use pgproof.Common.Integers.{integer_equality}
use pgproof.Ir.{
  ConstraintIr, ConstraintKind, foreign_key, check, IndexKeyIr, btree, asc, ReferentialAction,
  static_migration,
}
use pgproof.Migrations.Defs.{Value, text_value, Replay, not_a_table_name}
use pgproof.Migrations.Apply.Arguments.{
  Reading, public_table, value_argument, text_argument, truthy, iterated, column_ids, on_actions,
  constraint,
}
use pgproof.Migrations.Apply.Tables.{truth_or}

-- `repr`, `str.upper` and `str` of a value that is no text are the interpreter's.
module _ (repr upper : String → String) (show : Value → String) where
  abbrev pub str : Value → String
  str (text_value s) = s
  str value = show value

  abbrev pub put_constraint : ConstraintIr → Replay → Replay
  put_constraint c state = record state { constraints = put c.name c state.constraints }

  -- create_primary_key and create_unique_constraint
  unfoldable pub create_key : ConstraintKind → String → Dict String Value → Replay → Reading Replay
  unfolding text_argument
  create_key kind revision args state = do
    name ← text_argument "_0" args
    table ← text_argument "_1" args
    id ← public_table table
    value ← value_argument "_2" args
    names ← iterated value
    columns ← column_ids table names
    ok (put_constraint (constraint name kind id columns revision) state)

  abbrev pub on_action : String → Dict String Value → Option ReferentialAction
  on_action key args =
      get (upper (elim (get key args) [ none ↦ "" | some value ↦ str value ])) on_actions

  unfoldable pub create_foreign_key : String → Dict String Value → Replay → Reading Replay
  unfolding text_argument
  create_foreign_key revision args state = do
    name ← text_argument "_0" args
    table ← text_argument "_1" args
    id ← public_table table
    value ← value_argument "_3" args
    names ← iterated value
    columns ← column_ids table names
    referenced ← text_argument "_2" args
    referenced_id ← public_table referenced
    referenced_value ← value_argument "_4" args
    referenced_names ← iterated referenced_value
    referenced_columns ← column_ids referenced referenced_names
    ok (
        put_constraint
          (record (constraint name foreign_key id columns revision) {
            referenced_table = some referenced_id;
            referenced_columns = referenced_columns;
            on_delete = on_action "ondelete" args;
            on_update = on_action "onupdate" args;
          })
          state)

  unfoldable pub create_check_constraint : String → Dict String Value → Replay → Reading Replay
  unfolding text_argument
  create_check_constraint revision args state = do
    name ← text_argument "_0" args
    table ← text_argument "_1" args
    id ← public_table table
    value ← value_argument "_2" args
    ok (
        put_constraint
          (record (constraint name check id [] revision) { expression = some (str value) }) state)

  unfoldable pub drop_constraint : Dict String Value → Replay → Reading Replay
  unfolding text_argument delete
  drop_constraint args state = do
    name ← text_argument "_0" args
    ok (record state { constraints = delete name state.constraints })

  -- `args.get(first) or args.get(second)`
  abbrev pub either_of : String → String → Dict String Value → Option Value
  either_of first second args = elim (get first args) [
    | none ↦ get second args
    | some value ↦ if truthy value then some value else get second args
  ]

  abbrev pub index_keys : List String → List IndexKeyIr
  index_keys ids = map (λ id. record { column = some id; expression = none; direction = asc }) ids

  -- `assert isinstance(table_name, str)`
  abbrev named_table : Value → Reading String
  named_table (text_value s) = ok s
  named_table _ = raise not_a_table_name

  abbrev pub index_table : Dict String Value → Reading String
  index_table args = elim (either_of "_1" "table_name" args) [
    | none ↦ raise not_a_table_name
    | some value ↦ named_table value
  ]

  abbrev pub index_columns : Dict String Value → Reading (List String)
  index_columns args = elim (either_of "_2" "columns" args) [
    | none ↦ ok []
    | some value ↦ iterated value
  ]

  unfoldable pub create_index : String → Dict String Value → Replay → Reading Replay
  unfolding text_argument
  create_index revision args state = do
    table ← index_table args
    names ← index_columns args
    name ← text_argument "_0" args
    id ← public_table table
    columns ← column_ids table names
    ok (record state {
      indexes =
          put name
            (record {
              name = name;
              table = id;
              method = btree;
              keys = index_keys columns;
              included_columns = [];
              is_unique = truth_or repr upper show "unique" false args;
              predicate = none;
              provenance = static_migration;
              introduced_by = some revision;
            })
            state.indexes;
    })

  unfoldable pub drop_index : Dict String Value → Replay → Reading Replay
  unfolding text_argument delete
  drop_index args state = do
    name ← text_argument "_0" args
    ok (record state { indexes = delete name state.indexes })
