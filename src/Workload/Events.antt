-- ===== src/Workload/Events.antt =====
-- domain/capture_event.py: what the capture plugin writes for a query, and its once-per-session summary.
use pgproof.Common.{ℕ, String, Bool, Option, List}
use pgproof.Common.Dict.{Dict}
use pgproof.Ir.{SourceRef, OperationPhase}

-- `int | NonEmptyText`
pub data Position : Type 0 where
  numbered : ℕ → Position
  named : String → Position

pub record CapturedParameter : Type 0 where
  pub position : Position
  pub python_type : String
  pub value_hash : Option String
  pub is_redacted : Bool
  pub redacted_value : Option String

-- Numbers are natural: a driver's negative row count, which stands for no count, is `none`.
pub record CapturedQueryEvent : Type 0 where
  pub sequence : ℕ
  pub duration_us : ℕ
  pub statement : String
  pub dialect : String
  pub parameters : List CapturedParameter
  pub executemany : Bool
  pub batch_size : Option ℕ
  pub rowcount : Option ℕ
  pub transaction_id : Option String
  pub node_id : String
  pub phase : OperationPhase
  pub call_sites : List SourceRef
  pub error_class : Option String
  pub process_id : ℕ
  pub thread_id : ℕ
  pub task_id : Option String

pub record CaptureSummary : Type 0 where
  pub selected_tests : ℕ
  pub passed_tests : ℕ
  pub failed_tests : ℕ
  pub transaction_outcomes : Dict String Bool
