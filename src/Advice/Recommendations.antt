-- ===== src/Advice/Recommendations.antt =====
-- domain/recommendations.py: recommendations and the validator that runs when one is built.
use pgproof.Common.{
  String, Bool, true, false, not, ◌&&◌, Option, none, some, List, [], ◌∷◌, Eq, ◌≡◌, Result, ok,
  ◌>>◌, raise_if, ◌==◌,
}
use pgproof.Common.Integers.{ℤ}
use pgproof.Advice.Questions.{MaterialQuestion}

pub data RecommendationPriority : Type 0 where
  required_for_correctness required_by_confirmed_requirements : RecommendationPriority
  verified_improvement worth_evaluating optional_hardening : RecommendationPriority

pub data RecommendationCategory : Type 0 where
  schema query tenancy procedure topology migration : RecommendationCategory

pub data VerificationState : Type 0 where
  not_eligible eligible blocked queued verified_in_fixture : VerificationState
  rejected inconclusive unsupported : VerificationState

pub data ChangeKind : Type 0 where
  add_index add_constraint alter_column alter_query alter_loading_strategy : ChangeKind
  add_procedure change_topology no_change : ChangeKind

unfoldable pub priority_dec : (x y : RecommendationPriority) → Dec (x ≡ y)
priority_dec = hlevel

instance abbrev pub priority_equality : Eq RecommendationPriority
priority_equality = record { dec = priority_dec }

unfoldable pub verification_dec : (x y : VerificationState) → Dec (x ≡ y)
verification_dec = hlevel

instance abbrev pub verification_equality : Eq VerificationState
verification_equality = record { dec = verification_dec }

pub record Assumption : Type 0 where
  pub statement : String
  pub falsified_by : Option String

pub record TradeOff : Type 0 where
  pub statement : String
  pub affects : Option String

pub record InvalidatingContext : Type 0 where
  pub question : String
  pub condition : String

pub record Alternative : Type 0 where
  pub summary : String
  pub selected_by : Option String
  pub reversibility : Option String

pub record ProposedChange : Type 0 where
  pub kind : ChangeKind
  pub summary : String
  pub sql_sketch : Option String
  pub migration_sketch : Option String
  pub application_sketch : Option String
  pub rollback_note : Option String
  pub test_sketch : Option String

pub record FixtureMeasurement : Type 0 where
  pub fixture_scale : String
  pub control_median_us : ℤ
  pub treatment_median_us : ℤ
  pub absolute_saving_us : ℤ
  pub proof : Option String

pub record Recommendation : Type 0 where
  pub id : String
  pub rule : String
  pub rule_version : ℤ
  pub title : String
  pub priority : RecommendationPriority
  pub category : RecommendationCategory
  pub statement : String
  pub affected_objects : List String
  pub evidence_refs : List String
  pub assumptions : List Assumption
  pub trade_offs : List TradeOff
  pub invalidating_context : List InvalidatingContext
  pub alternatives : List Alternative
  pub verification_state : VerificationState
  pub measurement : Option FixtureMeasurement
  pub proposed_change : Option ProposedChange
  pub blocking_question : Option String

pub record RecommendationSet : Type 0 where
  pub recommendations : List Recommendation
  pub questions : List MaterialQuestion
  pub unsupported_reasons : List String

-- The messages of the validator's `ValueError`.
pub data ContractError : Type 0 where
  no_affected_object no_change_or_question unmeasured unverified_measurement : ContractError
  unverified_improvement : ContractError

abbrev pub is_some {ℓ} : {A : Type ℓ} → Option A → Bool
is_some none = false
is_some (some a) = true

abbrev pub is_empty {ℓ} : {A : Type ℓ} → List A → Bool
is_empty [] = true
is_empty (x ∷ xs) = false

abbrev pub verified : Recommendation → Bool
verified r = r.verification_state == verified_in_fixture

-- `Recommendation(…)`: the validator runs on construction.
unfoldable pub validate_contract : Recommendation → Result ContractError Recommendation
validate_contract r = do
  raise_if (is_empty r.affected_objects) no_affected_object
  raise_if (not (is_some r.proposed_change) && not (is_some r.blocking_question))
      no_change_or_question
  raise_if (verified r && not (is_some r.measurement)) unmeasured
  raise_if (is_some r.measurement && not (verified r)) unverified_measurement
  raise_if (r.priority == verified_improvement && not (verified r)) unverified_improvement
  ok r
