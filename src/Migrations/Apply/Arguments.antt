-- ===== src/Migrations/Apply/Arguments.antt =====
-- alembic_static.py: what `_apply` reads of an operation's arguments.
use pgproof.Common.{
  String, Bool, true, false, not, none, some, List, [], ◌∷◌, Result, ok, raise, ◌>>=◌, ◌==◌,
  text_equality,
}
use pgproof.Common.Dict.{Dict, get}
use pgproof.Common.Integers.{pos, integer_equality}
use pgproof.Identifiers.{IdentityError, table_id, column_id}
use pgproof.Ir.{
  ColumnIr, ConstraintIr, ConstraintKind, ReferentialAction, cascade, restrict, set_null,
  set_default, no_action, static_migration,
}
use pgproof.Migrations.Defs.{
  ColumnSpec, Value, Values, none_value, other_value, bool_value, int_value, text_value, sequence,
  column_value, no_values, value_and, ReplayError, key_error, wrong_type, identity,
}

abbrev pub Reading : Type 0 → Type 0
Reading A = Result ReplayError A

abbrev pub identified : Result IdentityError String → Reading String
identified (ok id) = ok id
identified (raise error) = raise (identity error)

abbrev pub public_table : String → Reading String
public_table name = identified (table_id "public" name)

abbrev pub public_column : String → String → Reading String
public_column table column = do id ← public_table table; identified (column_id id column)

-- `args[key]`, where it is a text
abbrev pub as_text : Value → Reading String
as_text (text_value s) = ok s
as_text _ = raise wrong_type

unfoldable pub value_argument : String → Dict String Value → Reading Value
value_argument key args = elim (get key args) [
  | none ↦ raise (key_error key)
  | some value ↦ ok value
]

unfoldable pub text_argument : String → Dict String Value → Reading String
unfolding value_argument
text_argument key args = do value ← value_argument key args; as_text value

-- `bool(value)`, which is not asked of a value of another type
unfoldable pub truthy : Value → Bool
truthy none_value = false
truthy other_value = true
truthy (bool_value b) = b
truthy (int_value n) = not (n == pos 0)
truthy (text_value s) = not (s == "")
truthy (sequence no_values) = false
truthy (sequence (value_and v vs)) = true
truthy (column_value c) = true

-- The characters of a text that is iterated
abbrev pub characters : String → List String
characters String.[] = []
characters (String.◌∷◌ c s) = String.◌∷◌ c "" ∷ characters s

abbrev pub values_texts : Values → Reading (List String)
values_texts no_values = ok []
values_texts (value_and v vs) = do text ← as_text v; rest ← values_texts vs; ok (text ∷ rest)

-- `for c in value`
abbrev pub iterated : Value → Reading (List String)
iterated (sequence vs) = values_texts vs
iterated (text_value s) = ok (characters s)
iterated (column_value c) =
    ok ("name" ∷ "type_text" ∷ "nullable" ∷ "primary_key" ∷ "server_default" ∷ [])
iterated _ = raise wrong_type

abbrev pub column_ids : String → List String → Reading (List String)
column_ids table [] = ok []
column_ids table (name ∷ names) = do
  id ← public_column table name
  rest ← column_ids table names
  ok (id ∷ rest)

unfoldable pub column_ir : String → ColumnSpec → Reading ColumnIr
column_ir table spec = do
  id ← public_column table spec.name
  ok (record {
    id = id;
    name = spec.name;
    data_type = spec.type_text;
    nullable = spec.nullable;
    default_expression = spec.server_default;
    is_generated = false;
    is_identity = false;
    provenance = static_migration;
    source = none;
  })

abbrev pub on_actions : Dict String ReferentialAction
on_actions =
    ("CASCADE", cascade)
    ∷ ("RESTRICT", restrict)
    ∷ ("SET NULL", set_null)
    ∷ ("SET DEFAULT", set_default)
    ∷ ("NO ACTION", no_action)
    ∷ []

-- The fields that each constraint is built with; the others have their defaults.
abbrev pub constraint : String → ConstraintKind → String → List String → String → ConstraintIr
constraint name kind table columns revision = record {
  name = name;
  kind = kind;
  table = table;
  columns = columns;
  referenced_table = none;
  referenced_columns = [];
  on_delete = none;
  on_update = none;
  expression = none;
  provenance = static_migration;
  introduced_by = some revision;
}
