-- ===== src/Migrations/Apply.antt =====
-- alembic_static.py: `_apply`, one operation on the state of the replay.
mod Arguments
mod Tables
mod Constraints
unfoldable pub use Arguments.*
unfoldable pub use Tables.*
unfoldable pub use Constraints.*
use Prim.Native.String.{◌++◌}
use pgproof.Common.{
  String, Bool, true, false, not, Option, none, some, List, [], ◌∷◌, map, Result, ok, raise, ◌>>=◌,
  push, ◌==◌, text_equality, if◌then◌else◌,
}
use pgproof.Common.Dict.{Dict, put, get, delete}
use pgproof.Common.Integers.{pos, integer_equality}
use pgproof.Identifiers.{IdentityError, table_id, column_id}
use pgproof.Ir.{
  ColumnIr, ConstraintIr, ConstraintKind, primary_key, foreign_key, unique, check, IndexIr,
  IndexKeyIr, btree, asc, ReferentialAction, cascade, restrict, set_null, set_default, no_action,
  static_migration,
}
use pgproof.Migrations.Defs.{
  ColumnSpec, Value, Values, none_value, other_value, bool_value, int_value, text_value, sequence,
  column_value, no_values, value_and, Operation, TableState, Replay, ReplayError, key_error,
  wrong_type, not_a_table_name, identity,
}
use pgproof.Migrations.Apply.Arguments.{
  Reading, public_table, public_column, as_text, value_argument, text_argument, truthy, iterated,
  column_ids, column_ir, on_actions, constraint,
}
use pgproof.Migrations.Apply.Tables.{
  create_table, drop_table, rename_table, as_column, add_column, drop_column, truth_or,
  alter_column,
}
use pgproof.Migrations.Apply.Constraints.{
  create_key, create_foreign_key, create_check_constraint, drop_constraint, create_index,
  drop_index,
}

-- `repr`, `str.upper` and `str` of a value that is no text are the interpreter's.
module _ (repr upper : String → String) (show : Value → String) where
  -- The branches of `_apply` from create_primary_key on.
  unfoldable pub apply_constraint : String → Operation → Replay → Reading Replay
  unfolding create_key create_foreign_key create_check_constraint drop_constraint create_index
      drop_index
  apply_constraint revision op state =
      if op.kind == "create_primary_key"
      then create_key repr upper show primary_key revision op.args state
      else if op.kind == "create_foreign_key"
      then create_foreign_key repr upper show revision op.args state
      else if op.kind == "create_unique_constraint"
      then create_key repr upper show unique revision op.args state
      else if op.kind == "create_check_constraint"
      then create_check_constraint repr upper show revision op.args state
      else if op.kind == "drop_constraint"
      then drop_constraint repr upper show op.args state
      else if op.kind == "create_index"
      then create_index repr upper show revision op.args state
      else if op.kind == "drop_index"
      then drop_index repr upper show op.args state
      else ok state

  unfoldable pub apply : String → Operation → Replay → Reading Replay
  unfolding create_table drop_table rename_table add_column drop_column alter_column
      apply_constraint
  apply revision op state =
      if op.kind == "create_table"
      then create_table revision op.args state
      else if op.kind == "drop_table"
      then drop_table op.args state
      else if op.kind == "rename_table"
      then rename_table op.args state
      else if op.kind == "add_column"
      then add_column repr upper show op state
      else if op.kind == "drop_column"
      then drop_column repr upper show op.args state
      else if op.kind == "alter_column"
      then alter_column repr upper show op.args state
      else apply_constraint revision op state
