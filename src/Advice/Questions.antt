-- ===== src/Advice/Questions.antt =====
-- domain/ir/context.py and the data of domain/questions.py.
use pgproof.Common.{String, Bool, true, Option, List, [], ◌∷◌, Eq, ◌≡◌}
use pgproof.Common.Integers.{ℤ}
use pgproof.Reconciliation.{EvidenceKind, user_confirmed}

pub data AnswerState : Type 0 where
  answered unknown not_asked : AnswerState

unfoldable pub answer_state_dec : (x y : AnswerState) → Dec (x ≡ y)
answer_state_dec = hlevel

instance abbrev pub answer_state_equality : Eq AnswerState
answer_state_equality = record { dec = answer_state_dec }

pub data TenantModel : Type 0 where
  single_tenant shared_schema_tenant_id schema_per_tenant database_per_tenant unknown_model :
      TenantModel

pub record ContextAnswer : Type 0 where
  pub question : String
  pub state : AnswerState
  pub value : Option String
  pub note : Option String

pub record TableScale : Type 0 where
  pub table : String
  pub current_rows : Option String
  pub rows_in_twelve_months : Option String

pub record ConsistencyRequirement : Type 0 where
  pub operation_label : String
  pub requires_read_after_write : Bool
  pub lag_tolerance_seconds : Option ℤ

pub record ContextIr : Type 0 where
  pub answers : List ContextAnswer
  pub critical_operations : List String
  pub table_scales : List TableScale
  pub read_write_ratio : Option String
  pub peak_requests_per_second : Option ℤ
  pub tenant_model : TenantModel
  pub consistency_requirements : List ConsistencyRequirement
  pub rpo : Option String
  pub rto : Option String
  pub retention_constraints : List String

pub data AnswerSchema : Type 0 where
  free_text integer decimal boolean duration single_choice multiple_choice table_scale :
      AnswerSchema

pub record MaterialQuestion : Type 0 where
  pub id : String
  pub prompt : String
  pub answer_schema : AnswerSchema
  pub choices : List String
  pub why_it_matters : String
  pub affected_recommendations : List String
  pub derived_from : EvidenceKind
  pub unknown_is_acceptable : Bool

abbrev pub core_critical_operations : String
core_critical_operations = "core_critical_operations"

abbrev pub core_table_scale : String
core_table_scale = "core_table_scale"

abbrev pub core_read_write_mix : String
core_read_write_mix = "core_read_write_mix"

abbrev pub core_tenant_model : String
core_tenant_model = "core_tenant_model"

abbrev pub core_read_after_write : String
core_read_after_write = "core_read_after_write"

abbrev pub core_rpo_rto : String
core_rpo_rto = "core_rpo_rto"

abbrev pub core_retention : String
core_retention = "core_retention"

-- The arguments that the core questions give; the other fields have their defaults.
abbrev core_question : String → String → AnswerSchema → List String → String → MaterialQuestion
core_question id prompt schema choices why = record {
  id = id;
  prompt = prompt;
  answer_schema = schema;
  choices = choices;
  why_it_matters = why;
  affected_recommendations = [];
  derived_from = user_confirmed;
  unknown_is_acceptable = true;
}

abbrev pub core_questions : List MaterialQuestion
core_questions =
    core_question core_critical_operations
      "Which operations are latency-critical? (comma-separated)" free_text []
      "Latency-sensitive operations get priority for index and query rules."
    ∷ core_question core_table_scale
        "What are the present and 12-month row counts for the largest tables?" table_scale []
        "Growth rules depend on where a table is headed, not just where it is."
    ∷ core_question core_read_write_mix
        "What is the approximate read/write ratio and peak requests per second? (format: 'ratio, peak', e.g. '80:20, 100')"
        free_text [] "A write-heavy workload changes which index trade-offs are worth it."
    ∷ core_question core_tenant_model "What is the tenant and isolation model?" single_choice
        ("single_tenant" ∷ "shared_schema_tenant_id" ∷ "schema_per_tenant" ∷ "database_per_tenant"
          ∷ [])
        "Tenant isolation rules only apply once the model is known."
    ∷ core_question core_read_after_write
        "Which flows need immediate read-after-write consistency? (comma-separated)" free_text []
        "A flow that must see its own write cannot tolerate replica lag."
    ∷ core_question core_rpo_rto "What RPO and RTO matter? (format: 'RPO, RTO', e.g. '5m, 30m')"
        free_text [] "Backup and failover recommendations depend on the recovery targets."
    ∷ core_question core_retention
        "What retention, deletion, audit, or regulatory constraints apply? (comma-separated)"
        free_text [] "A retention obligation can outrank an otherwise-sound cleanup rule."
    ∷ []
