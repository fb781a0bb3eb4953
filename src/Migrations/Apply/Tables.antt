-- ===== src/Migrations/Apply/Tables.antt =====
-- alembic_static.py: the operations of `_apply` on tables and columns.
use Prim.Native.String.{◌++◌}
use pgproof.Common.{
  String, Bool, true, false, Option, none, some, [], ◌∷◌, ok, raise, ◌>>=◌, push, ◌==◌,
  text_equality, if◌then◌else◌,
}
use pgproof.Common.Dict.{Dict, put, get, delete}
use pgproof.Common.Integers.{integer_equality}
use pgproof.Identifiers.{column_id}
use pgproof.Ir.{ConstraintIr, primary_key, IndexIr}
use pgproof.Migrations.Defs.{
  ColumnSpec, Value, none_value, text_value, column_value, Operation, TableState, Replay,
  wrong_type,
}
use pgproof.Migrations.Apply.Arguments.{
  Reading, public_table, public_column, as_text, value_argument, text_argument, truthy, column_ir,
  constraint,
}

-- `constraints[f"pk_{name}"] = …` where the column is a primary key: one key for each table.
unfoldable pub add_primary_key : String → String → ColumnSpec → Replay → Reading Replay
add_primary_key revision name spec state = elim spec.primary_key [
  | false ↦ ok state
  | true ↦ (do
    id ← public_table name
    column_id ← public_column name spec.name
    ok (record state {
      constraints =
          put ("pk_" ++ name) (constraint ("pk_" ++ name) primary_key id (column_id ∷ []) revision)
            state.constraints;
    }))
]

-- The loop of `create_table` over its arguments.
unfoldable pub create_columns :
    String → String → Dict String Value → TableState → Replay → Reading (TableState × Replay)
unfolding column_ir add_primary_key
create_columns revision name [] table state = ok (table, state)
create_columns revision name ((key, column_value spec) ∷ args) table state =
    let rest = create_columns revision name args in
    let added = (do
      column ← column_ir name spec
      state' ← add_primary_key revision name spec state
      rest (record table { columns = put spec.name column table.columns }) state') in
    if key == "_0" then rest table state else added
create_columns revision name ((key, _) ∷ args) table state =
    create_columns revision name args table state

unfoldable pub create_table : String → Dict String Value → Replay → Reading Replay
unfolding text_argument create_columns
create_table revision args state = do
  name ← text_argument "_0" args
  done ← create_columns revision name args (record { columns = []; name = name }) state
  ok (record done.1 { tables = put name done.0 done.1.tables })

-- The entries of another table: the loops of `drop_table` delete those of this one.
unfoldable pub without_table {ℓ} :
    {V : Type ℓ} → (V → String) → String → Dict String V → Dict String V
without_table table_of table [] = []
without_table table_of table ((name, v) ∷ d) =
    let rest = without_table table_of table d in
    if table_of v == table then rest else (name, v) ∷ rest

-- The identity of the table is asked for once here, and by the source once for each entry.
unfoldable pub drop_table : Dict String Value → Replay → Reading Replay
unfolding text_argument delete without_table
drop_table args state = do
  name ← text_argument "_0" args
  id ← public_table name
  ok (record state {
    tables = delete name state.tables;
    constraints = without_table (λ (c : ConstraintIr). c.table) id state.constraints;
    indexes = without_table (λ (i : IndexIr). i.table) id state.indexes;
  })

unfoldable pub rename_table : Dict String Value → Replay → Reading Replay
unfolding text_argument delete
rename_table args state = do
  old ← text_argument "_0" args
  new ← text_argument "_1" args
  ok (elim (get old state.tables) [
    | none ↦ state
    | some renamed ↦ record state {
      tables = put new (record renamed { name = new }) (delete old state.tables);
    }
  ])

abbrev pub as_column : Value → Reading ColumnSpec
as_column (column_value spec) = ok spec
as_column _ = raise wrong_type

-- `repr`, `str.upper` and `str` of a value that is no text are the interpreter's.
module _ (repr upper : String → String) (show : Value → String) where
  unfoldable pub add_column : Operation → Replay → Reading Replay
  unfolding text_argument column_ir
  add_column op state = do
    name ← text_argument "_0" op.args
    elim (get name state.tables) [
      | none ↦ ok (record state {
        unsupported = push state.unsupported (record {
          kind = "migration_operation";
          reason = "add_column on unknown table " ++ repr name;
          source = some op.source;
        });
      })
      | some target ↦ (do
        value ← value_argument "_1" op.args
        spec ← as_column value
        column ← column_ir name spec
        ok (record state {
          tables =
              put name (record target { columns = put spec.name column target.columns })
                state.tables;
        }))
    ]

  unfoldable pub drop_column : Dict String Value → Replay → Reading Replay
  unfolding text_argument delete
  drop_column args state = do
    name ← text_argument "_0" args
    elim (get name state.tables) [
      | none ↦ ok state
      | some existing ↦ (do
        column ← text_argument "_1" args
        ok (record state {
          tables =
              put name (record existing { columns = delete column existing.columns }) state.tables;
        }))
    ]

  -- `args.get(key, current)` for a text, and for a text or None
  abbrev pub text_or : String → String → Dict String Value → Reading String
  text_or key current args = elim (get key args) [ none ↦ ok current | some value ↦ as_text value ]

  abbrev pub as_optional_text : Value → Reading (Option String)
  as_optional_text none_value = ok none
  as_optional_text (text_value s) = ok (some s)
  as_optional_text _ = raise wrong_type

  abbrev pub optional_text_or : String → Option String → Dict String Value → Reading (Option String)
  optional_text_or key current args = elim (get key args) [
    | none ↦ ok current
    | some value ↦ as_optional_text value
  ]

  abbrev pub truth_or : String → Bool → Dict String Value → Bool
  truth_or key current args = elim (get key args) [ none ↦ current | some value ↦ truthy value ]

  unfoldable pub alter_column : Dict String Value → Replay → Reading Replay
  unfolding text_argument delete
  alter_column args state = do
    name ← text_argument "_0" args
    column_name ← text_argument "_1" args
    elim (get name state.tables) [
      | none ↦ ok state
      | some table ↦ elim (get column_name table.columns) [
        | none ↦ ok state
        | some current ↦ (do
          new_name ← text_or "new_column_name" current.name args
          type_text ← text_or "type_" current.data_type args
          server_default ← optional_text_or "server_default" current.default_expression args
          id ← public_column name new_name
          ok (record state {
            tables =
                put name
                  (record table {
                    columns =
                        put new_name
                          (record current {
                            id = id;
                            name = new_name;
                            nullable = truth_or "nullable" current.nullable args;
                            data_type = type_text;
                            default_expression = server_default;
                          })
                          (delete column_name table.columns);
                  })
                  state.tables;
          }))
      ]
    ]
