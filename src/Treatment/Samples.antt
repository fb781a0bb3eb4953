-- ===== src/Treatment/Samples.antt =====
-- A treatment that batches the queries of an operation.
use pgproof.Common.{[], ◌∷◌, ◌≡◌, refl, true, none, some, ℕ, text_dec}
use pgproof.Ir.{WorkloadIr, OperationIr, complete_for_selection, call_phase}
use pgproof.Treatment.Compare.{
  different_test_set, find_operation, sum, query_count, unsupported_reason, count_of, duration_of,
  reduced, truth, equivalent, compare_treatment,
}

program : Unit {0}
unfolding text_dec find_operation sum query_count unsupported_reason count_of duration_of reduced
    truth equivalent compare_treatment
program = tt

abbrev operation : ℕ → OperationIr
operation n = record {
  id = "test:list";
  phase = call_phase;
  transactions = [];
  query_counts = ("q1", 1) ∷ ("q2", n) ∷ [];
  tables_read = [];
  tables_written = [];
  amplifications = [];
  observed_executions = 1;
  observed_duration_us = none;
  entry_point = none;
}

abbrev workload : ℕ → ℕ → WorkloadIr
workload n selected = record {
  coverage = complete_for_selection;
  boundary_note = "one test";
  queries = [];
  operations = operation n ∷ [];
  selected_tests = selected;
  passed_tests = selected;
  failed_tests = 0;
}

batched : (compare_treatment (workload 20 1) (workload 1 1) "test:list").verified ≡ true
unfolding program
batched = refl

other_tests :
    (compare_treatment (workload 20 2) (workload 1 1) "test:list").unsupported_reason
    ≡ some different_test_set
unfolding program
other_tests = refl
