-- ===== src/Ir/Workload.antt =====
-- domain/ir/workload.py: captured database activity. A count or a position is a natural number.
use pgproof.Common.{ℕ, String, Bool, Option, List, Eq, ◌≡◌}
use pgproof.Common.Dict.{Dict}
use pgproof.Ir.Schema.{SourceRef}

pub data StatementClass : Type 0 where
  read write schema transaction control unsupported_statement : StatementClass

pub data OperationPhase : Type 0 where
  setup call_phase teardown : OperationPhase

pub data AmplificationClass : Type 0 where
  repeated_query possible_amplification observed_n_plus_one verified_treatment : AmplificationClass

pub data WorkloadCoverage : Type 0 where
  complete_for_selection partial_coverage not_captured : WorkloadCoverage

unfoldable pub statement_class_dec : (x y : StatementClass) → Dec (x ≡ y)
statement_class_dec = hlevel

instance abbrev pub statement_class_equality : Eq StatementClass
statement_class_equality = record { dec = statement_class_dec }

pub record ParameterDescriptor : Type 0 where
  pub position : ℕ
  pub data_type : String
  pub value_hash : Option String
  pub is_redacted : Bool

pub record QueryIr : Type 0 where
  pub id : String
  pub statement_class : StatementClass
  pub normalized_sql : String
  pub relations : List String
  pub parameters : List ParameterDescriptor
  pub call_sites : List SourceRef
  pub parse_error : Option String

pub record TransactionIr : Type 0 where
  pub correlation_id : String
  pub queries : List String
  pub committed : Bool

pub record AmplificationIr : Type 0 where
  pub classification : AmplificationClass
  pub parent_query : String
  pub child_query : String
  pub repetitions : ℕ
  pub relationship_name : Option String
  pub call_site : Option SourceRef

pub record OperationIr : Type 0 where
  pub id : String
  pub phase : OperationPhase
  pub transactions : List TransactionIr
  pub query_counts : Dict String ℕ
  pub tables_read : List String
  pub tables_written : List String
  pub amplifications : List AmplificationIr
  pub observed_executions : ℕ
  pub observed_duration_us : Option ℕ
  pub entry_point : Option SourceRef

pub record WorkloadIr : Type 0 where
  pub coverage : WorkloadCoverage
  pub boundary_note : String
  pub queries : List QueryIr
  pub operations : List OperationIr
  pub selected_tests : ℕ
  pub passed_tests : ℕ
  pub failed_tests : ℕ
