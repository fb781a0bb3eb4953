-- ===== src/Migrations/Defs.antt =====
-- alembic_static.py: revisions, operations and the state of a replay.
use pgproof.Common.{String, Bool, Option, List}
use pgproof.Common.Dict.{Dict}
use pgproof.Common.Integers.{ℤ}
use pgproof.Identifiers.{IdentityError}
use pgproof.Ir.{SourceRef, ColumnIr, ConstraintIr, IndexIr, SchemaIr, UnsupportedConstruct}

pub record RevisionInfo : Type 0 where
  pub revision : String
  pub down_revisions : List String
  pub branch_labels : List String
  pub depends_on : List String
  pub message : Option String
  pub source : SourceRef

pub record RevisionGraphReport : Type 0 where
  pub revisions : List String
  pub roots : List String
  pub heads : List String
  pub merge_revisions : List String
  pub missing_predecessors : List String
  pub cycle : List String

pub record AlembicStaticResult : Type 0 where
  pub revisions : List RevisionInfo
  pub graph : RevisionGraphReport
  pub schema : SchemaIr

-- The dictionary that `_resolve_column` returns.
pub record ColumnSpec : Type 0 where
  pub name : String
  pub type_text : String
  pub nullable : Bool
  pub primary_key : Bool
  pub server_default : Option String

-- What a literal argument of an operation is; `other_value` is a literal of another type.
mutual
  pub data Value : Type 0 where
    none_value other_value : Value
    bool_value : Bool → Value
    int_value : ℤ → Value
    text_value : String → Value
    sequence : Values → Value
    column_value : ColumnSpec → Value

  pub data Values : Type 0 where
    no_values : Values
    value_and : Value → Values → Values

pub record Operation : Type 0 where
  pub kind : String
  pub args : Dict String Value
  pub source : SourceRef

pub record TableState : Type 0 where
  pub columns : Dict String ColumnIr
  pub name : String

-- The four collections that `_apply` changes.
pub record Replay : Type 0 where
  pub tables : Dict String TableState
  pub constraints : Dict String ConstraintIr
  pub indexes : Dict String IndexIr
  pub unsupported : List UnsupportedConstruct

-- What reading and replaying raise. A name argument that is no text raises `wrong_type` where the
-- argument is read; the source raises where it first builds an identity of it.
pub data ReplayError : Type 0 where
  key_error : String → ReplayError
  wrong_type not_a_table_name : ReplayError
  identity : IdentityError → ReplayError
