-- ===== src/Treatment/Compare.antt =====
-- compare.py: a captured baseline against a captured treatment of the same operation.
use pgproof.Common.{
  ℕ, ◌+◌, ◌<◌, String, Bool, false, ◌&&◌, not, Option, none, some, List, [], ◌∷◌, ◌≡◌, eqn, ltb,
  ◌==◌, text_equality, if◌then◌else◌,
}
use pgproof.Common.Dict.{values}
use pgproof.Ir.{OperationIr, WorkloadIr}

-- The four texts of `unsupported_reason`.
pub data Unsupported : Type 0 where
  absent_from_baseline absent_from_treatment baseline_failed different_test_set : Unsupported

pub record TreatmentComparison : Type 0 where
  pub operation_id : String
  pub baseline_query_count : ℕ
  pub treatment_query_count : ℕ
  pub baseline_duration_us : Option ℕ
  pub treatment_duration_us : Option ℕ
  pub amplification_reduced : Option Bool
  pub results_equivalent : Bool
  pub unsupported_reason : Option Unsupported
  pub verified : Bool

unfoldable pub find_operation : List OperationIr → String → Option OperationIr
find_operation [] operation_id = none
find_operation (o ∷ os) operation_id =
    let rest = find_operation os operation_id in if o.id == operation_id then some o else rest

unfoldable pub sum : List ℕ → ℕ
sum [] = 0
sum (n ∷ ns) = n + sum ns

unfoldable pub query_count : OperationIr → ℕ
unfolding sum
query_count o = sum (values o.query_counts)

unfoldable pub unsupported_reason :
    WorkloadIr → WorkloadIr → Option OperationIr → Option OperationIr → Option Unsupported
unsupported_reason baseline treatment none t = some absent_from_baseline
unsupported_reason baseline treatment (some b) none = some absent_from_treatment
unsupported_reason baseline treatment (some b) (some t) =
    if ltb 0 baseline.failed_tests
    then some baseline_failed
    else if not (eqn baseline.selected_tests treatment.selected_tests)
    then some different_test_set
    else none

-- `_query_count(operation) if operation is not None else 0`
unfoldable pub count_of : Option OperationIr → ℕ
unfolding query_count
count_of none = 0
count_of (some o) = query_count o

unfoldable pub duration_of : Option OperationIr → Option ℕ
duration_of none = none
duration_of (some o) = o.observed_duration_us

unfoldable pub reduced : Option OperationIr → Option OperationIr → Option Bool
unfolding query_count
reduced none t = none
reduced (some b) none = none
reduced (some b) (some t) = some (ltb (query_count t) (query_count b))

-- `bool(amplification_reduced)`
unfoldable pub truth : Option Bool → Bool
truth none = false
truth (some b) = b

unfoldable pub equivalent : Option Unsupported → ℕ → Bool
equivalent none failed_tests = eqn failed_tests 0
equivalent (some reason) failed_tests = false

unfoldable pub compare_treatment : WorkloadIr → WorkloadIr → String → TreatmentComparison
unfolding find_operation unsupported_reason count_of duration_of reduced truth equivalent
compare_treatment baseline treatment operation_id =
    let b = find_operation baseline.operations operation_id in
    let t = find_operation treatment.operations operation_id in
    let reason = unsupported_reason baseline treatment b t in
    let results_equivalent = equivalent reason treatment.failed_tests in
    record {
      operation_id = operation_id;
      baseline_query_count = count_of b;
      treatment_query_count = count_of t;
      baseline_duration_us = duration_of b;
      treatment_duration_us = duration_of t;
      amplification_reduced = reduced b t;
      results_equivalent = results_equivalent;
      unsupported_reason = reason;
      verified = truth (reduced b t) && results_equivalent;
    }

-- What a verified treatment stands for.
abbrev pub IsImprovement : WorkloadIr → WorkloadIr → String → Type 0
IsImprovement baseline treatment operation_id =
    (b : OperationIr) × (t : OperationIr) × (find_operation baseline.operations operation_id
      ≡ some b)
    × (find_operation treatment.operations operation_id ≡ some t)
    × (query_count t < query_count b)
    × (baseline.selected_tests ≡ treatment.selected_tests)
    × (baseline.failed_tests ≡ 0)
    × (treatment.failed_tests ≡ 0)
