-- ===== src/Ir/Code.antt =====
-- domain/ir/code.py: the design that the application code declares.
use pgproof.Common.{String, Bool, Option, List, Eq, ◌≡◌}
use pgproof.Ir.Schema.{SourceRef, UnsupportedConstruct}

pub data LoadingStrategy : Type 0 where
  select joined subquery selectin immediate noload raiseload dynamic unresolved_loading :
      LoadingStrategy

pub data Cardinality : Type 0 where
  one_to_one one_to_many many_to_one many_to_many unresolved_cardinality : Cardinality

unfoldable pub cardinality_dec : (x y : Cardinality) → Dec (x ≡ y)
cardinality_dec = hlevel

instance abbrev pub cardinality_equality : Eq Cardinality
cardinality_equality = record { dec = cardinality_dec }

pub record ModelIr : Type 0 where
  pub class_name : String
  pub table : String
  pub module_path : String
  pub source : SourceRef
  pub mapped_columns : List String

pub record RelationshipIr : Type 0 where
  pub name : String
  pub source_table : String
  pub target_table : String
  pub cardinality : Cardinality
  pub loading_strategy : LoadingStrategy
  pub back_populates : Option String
  pub secondary_table : Option String
  pub cascade : List String
  pub passive_deletes : Bool
  pub physical_constraint : Option String
  pub source : SourceRef

pub record RepositoryOperation : Type 0 where
  pub name : String
  pub qualified_name : String
  pub source : SourceRef

pub record CodeIr : Type 0 where
  pub orm : String
  pub models : List ModelIr
  pub relationships : List RelationshipIr
  pub operations : List RepositoryOperation
  pub unsupported : List UnsupportedConstruct
