-- ===== src/Workload/Samples.antt =====
-- Three captured events of one test: a list query and two look-ups.
use Prim.Native.String.{◌++◌}
use pgproof.Common.{
  String, List, [], ◌∷◌, ◌≡◌, refl, false, none, some, ℕ, Option, text_dec, list_dec, option_dec,
}
use pgproof.Common.Dict.{get, put}
use pgproof.Common.Sorting.{sort_by, place, text_le}
use pgproof.Ir.{
  SourceRef, QueryIr, OperationPhase, setup, call_phase, teardown, read, complete_for_selection,
  WorkloadIr, OperationIr, SchemaIr, physical_catalog, constraint_kind_dec, repeated_query,
  source_ref_dec, statement_class_dec,
}
use pgproof.Workload.Events.{CapturedQueryEvent}
use pgproof.Workload.Reconstruct.{
  update, first_site, add_to_transaction, add, transactions, build, merge_query, observe,
  observe_all, build_all, reconstruct_workload,
}
use pgproof.Workload.Amplification.{
  Occurrence, occurrence, classify, foreign_key_names, only, relationship_name, positions_from,
  at_position, children_at, parent_before, amplified, amplified_all, amplifications,
}

program : Unit {0}
unfolding text_dec list_dec option_dec get put sort_by place text_le source_ref_dec
    statement_class_dec update first_site add_to_transaction add transactions build merge_query
    observe observe_all build_all reconstruct_workload
program = tt

-- A parser for the samples: the statement is its own fingerprint, and reads one table.
abbrev parse : String → List SourceRef → QueryIr
parse statement sites = record {
  id = statement;
  statement_class = read;
  normalized_sql = statement;
  relations = "public.orders" ∷ [];
  parameters = [];
  call_sites = sites;
  parse_error = none;
}

abbrev phase_name : OperationPhase → String
phase_name setup = "setup"
phase_name call_phase = "call"
phase_name teardown = "teardown"

abbrev name : String → OperationPhase → String
name node phase = node ++ "#" ++ phase_name phase

abbrev event : ℕ → String → CapturedQueryEvent
event n statement = record {
  sequence = n;
  duration_us = 5;
  statement = statement;
  dialect = "postgresql";
  parameters = [];
  executemany = false;
  batch_size = none;
  rowcount = none;
  transaction_id = some "t1";
  node_id = "test_list";
  phase = call_phase;
  call_sites = [];
  error_class = none;
  process_id = 1;
  thread_id = 1;
  task_id = none;
}

abbrev events : List CapturedQueryEvent
events = event 2 "lookup" ∷ event 1 "list" ∷ event 3 "lookup" ∷ []

abbrev counts_of : Option WorkloadIr → List (String × List (String × ℕ))
counts_of none = []
counts_of (some w) = each w.operations
  where
    each : List OperationIr → List (String × List (String × ℕ))
    each [] = []
    each (o ∷ os) = (o.id, o.query_counts) ∷ each os

events_counted :
    counts_of (reconstruct_workload parse name events [] complete_for_selection "one test" 1 1 0)
    ≡ ("test_list#call", ("list", 1) ∷ ("lookup", 2) ∷ []) ∷ []
unfolding program
events_counted = refl

abbrev no_schema : SchemaIr
no_schema = record {
  provenance = physical_catalog;
  tables = [];
  constraints = [];
  indexes = [];
  extensions = [];
  extension_versions = [];
  server_version = none;
  settings = [];
  migration_head = none;
  migration_revisions = [];
  unsupported = [];
}

repetition_program : Unit {0}
unfolding program constraint_kind_dec classify foreign_key_names only relationship_name
    positions_from at_position children_at parent_before amplified amplified_all amplifications
repetition_program = tt

abbrev happened : String → Occurrence
happened statement = occurrence (event 1 statement) (parse statement [])

abbrev repeated : List Occurrence
repeated =
    happened "lookup" ∷ happened "list" ∷ happened "lookup" ∷ happened "item" ∷ happened "item" ∷ []

-- A repetition that nothing precedes is dropped.
items_repeated :
    amplifications no_schema 2 repeated
    ≡ some (
        record {
          classification = repeated_query;
          parent_query = "lookup";
          child_query = "item";
          repetitions = 2;
          relationship_name = none;
          call_site = none;
        }
        ∷ [])
unfolding repetition_program
items_repeated = refl

abbrev parse_alone : String → QueryIr
parse_alone statement = parse statement []

abbrev one_operation : WorkloadIr
one_operation = record {
  coverage = complete_for_selection;
  boundary_note = "one test";
  queries = [];
  operations =
      record {
        id = "test_list#call";
        phase = call_phase;
        transactions = [];
        query_counts = ("list", 1) ∷ ("lookup", 2) ∷ [];
        tables_read = [];
        tables_written = [];
        amplifications = [];
        observed_executions = 1;
        observed_duration_us = none;
        entry_point = none;
      }
      ∷ [];
  selected_tests = 1;
  passed_tests = 1;
  failed_tests = 0;
}
