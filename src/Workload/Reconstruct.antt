-- ===== src/Workload/Reconstruct.antt =====
-- reconstruct.py: one operation for each pytest node id and phase. The SQL parser of
-- adapters/sql/parser.py (which is pglast's) and the operation id are parameters. A set of table ids is a list that
-- holds each id once. None stands for the KeyError of a missing operation.
use pgproof.Common.{
  ℕ, ◌+◌, Eq, String, Bool, false, not, Option, none, some, List, [], ◌∷◌, ◌++◌, push, contains,
  leb, ◌==◌, eqn, text_equality, list_equality, if◌then◌else◌,
}
use pgproof.Common.Dict.{Dict, get, get_or, put, values}
use pgproof.Common.Sorting.{sort_by, text_le}
use pgproof.Ir.{
  SourceRef, source_ref_equality, QueryIr, OperationPhase, read, write, statement_class_equality,
  TransactionIr, OperationIr, WorkloadIr, WorkloadCoverage,
}
use pgproof.Workload.Events.{CapturedQueryEvent}

-- _OperationBuilder
pub record OperationBuilder : Type 0 where
  pub phase : OperationPhase
  pub entry_point : Option SourceRef
  pub query_counts : Dict String ℕ
  pub tables_read : List String
  pub tables_written : List String
  pub observed_duration_us : ℕ
  pub transaction_order : List String
  pub transaction_queries : Dict String (List String)

abbrev pub new_builder : OperationPhase → OperationBuilder
new_builder phase = record {
  phase = phase;
  entry_point = none;
  query_counts = [];
  tables_read = [];
  tables_written = [];
  observed_duration_us = 0;
  transaction_order = [];
  transaction_queries = [];
}

-- `seen.update(added)`, and the keys of `dict.fromkeys`
unfoldable pub update {ℓ} : {A : Type ℓ} ⦃e : Eq A⦄ → List A → List A → List A
update seen [] = seen
update seen (x ∷ added) = if contains x seen then update seen added else update (push seen x) added

unfoldable pub first_site : Option SourceRef → List SourceRef → Option SourceRef
first_site (some site) sites = some site
first_site none [] = none
first_site none (site ∷ sites) = some site

-- The last five lines of `add`.
unfoldable pub add_to_transaction : Option String → String → OperationBuilder → OperationBuilder
add_to_transaction none query b = b
add_to_transaction (some id) query b = elim (get id b.transaction_queries) [
  | none ↦ record b {
    transaction_order = push b.transaction_order id;
    transaction_queries = put id (query ∷ []) b.transaction_queries;
  }
  | some queries ↦ record b {
    transaction_queries = put id (push queries query) b.transaction_queries;
  }
]

-- _OperationBuilder.add
unfoldable pub add : CapturedQueryEvent → QueryIr → OperationBuilder → OperationBuilder
unfolding update first_site add_to_transaction
add event query b = add_to_transaction event.transaction_id query.id (record b {
  entry_point = first_site b.entry_point query.call_sites;
  query_counts = put query.id (get_or 0 query.id b.query_counts + 1) b.query_counts;
  tables_read =
      if query.statement_class == read then update b.tables_read query.relations else b.tables_read;
  tables_written =
      if query.statement_class == write
      then update b.tables_written query.relations
      else b.tables_written;
  observed_duration_us = b.observed_duration_us + event.duration_us;
})

-- The transactions of `build`; `self.transaction_queries[correlation_id]` of a missing id is none.
unfoldable pub transactions :
    Dict String Bool → Dict String (List String) → List String → Option (List TransactionIr)
transactions outcomes queries [] = some []
transactions outcomes queries (id ∷ ids) = elim (get id queries) [
  | none ↦ none
  | some qs ↦ elim (transactions outcomes queries ids) [
    | none ↦ none
    | some rest ↦
        some (
          record { correlation_id = id; queries = qs; committed = get_or false id outcomes } ∷ rest)
  ]
]

-- The value that `build` returns.
abbrev pub operation_of : String → List TransactionIr → OperationBuilder → OperationIr
operation_of id transactions b = record {
  id = id;
  phase = b.phase;
  transactions = transactions;
  query_counts = b.query_counts;
  tables_read = sort_by text_le b.tables_read;
  tables_written = sort_by text_le b.tables_written;
  amplifications = [];
  observed_executions = 1;
  observed_duration_us = if eqn b.observed_duration_us 0 then none else some b.observed_duration_us;
  entry_point = b.entry_point;
}

-- _OperationBuilder.build
unfoldable pub build : String → Dict String Bool → OperationBuilder → Option OperationIr
unfolding transactions
build id outcomes b = elim (transactions outcomes b.transaction_queries b.transaction_order) [
  | none ↦ none
  | some ts ↦ some (operation_of id ts b)
]

-- The variables of the loop.
pub record Reconstruction : Type 0 where
  pub queries : Dict String QueryIr
  pub operations : Dict String OperationBuilder
  pub operation_order : List String

module _ (parse_query : String → List SourceRef → QueryIr)
    (operation_id : String → OperationPhase → String) where
  abbrev pub parsed : CapturedQueryEvent → QueryIr
  parsed event = parse_query event.statement event.call_sites

  abbrev pub key : CapturedQueryEvent → String
  key event = operation_id event.node_id event.phase

  unfoldable pub merge_query : QueryIr → Dict String QueryIr → Dict String QueryIr
  unfolding update
  merge_query query queries = elim (get query.id queries) [
    | none ↦ put query.id query queries
    | some existing ↦
        let merged_sites = update [] (existing.call_sites ++ query.call_sites) in
        if not (merged_sites == existing.call_sites)
        then put query.id (record existing { call_sites = merged_sites }) queries
        else queries
  ]

  -- The builder is shared with the dictionary, so what `add` does to it is put back.
  unfoldable pub observe : CapturedQueryEvent → Reconstruction → Reconstruction
  unfolding merge_query add
  observe event r =
      let query = parsed event in
      let op_key = key event in
      elim (get op_key r.operations) [
        | none ↦ record {
          queries = merge_query query r.queries;
          operations = put op_key (add event query (new_builder event.phase)) r.operations;
          operation_order = push r.operation_order op_key;
        }
        | some builder ↦ record r {
          queries = merge_query query r.queries;
          operations = put op_key (add event query builder) r.operations;
        }
      ]

  unfoldable pub observe_all : List CapturedQueryEvent → Reconstruction → Reconstruction
  unfolding observe
  observe_all [] r = r
  observe_all (event ∷ events) r = observe_all events (observe event r)

abbrev pub by_sequence : CapturedQueryEvent → CapturedQueryEvent → Bool
by_sequence x y = leb x.sequence y.sequence

unfoldable pub build_all :
    Dict String Bool → Dict String OperationBuilder → List String → Option (List OperationIr)
unfolding build
build_all outcomes operations [] = some []
build_all outcomes operations (op_key ∷ order) = elim (get op_key operations) [
  | none ↦ none
  | some builder ↦ elim (build op_key outcomes builder) [
    | none ↦ none
    | some operation ↦ elim (build_all outcomes operations order) [
      | none ↦ none
      | some rest ↦ some (operation ∷ rest)
    ]
  ]
]

module _ (parse_query : String → List SourceRef → QueryIr)
    (operation_id : String → OperationPhase → String) where
  unfoldable pub reconstruct_workload :
      List CapturedQueryEvent
      → Dict String Bool
      → WorkloadCoverage
      → String
      → ℕ
      → ℕ
      → ℕ
      → Option WorkloadIr
  unfolding observe_all build_all sort_by
  reconstruct_workload events outcomes coverage boundary_note selected passed failed =
      let r =
        observe_all parse_query operation_id (sort_by by_sequence events)
          (record { queries = []; operations = []; operation_order = [] }) in
      elim (build_all outcomes r.operations r.operation_order) [
        | none ↦ none
        | some operations ↦ some (record {
          coverage = coverage;
          boundary_note = boundary_note;
          queries = values r.queries;
          operations = operations;
          selected_tests = selected;
          passed_tests = passed;
          failed_tests = failed;
        })
      ]
