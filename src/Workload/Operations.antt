-- ===== src/Workload/Operations.antt =====
-- The operations of a reconstructed workload against the events they come from.
use pgproof.Common.{String, some, List, [], ◌∷◌, ◌≡◌, In, All, Distinct, text_equality}
use pgproof.Common.Dict.{Dict, get, get_or}
use pgproof.Ir.{SourceRef, QueryIr, OperationPhase, OperationIr}
use pgproof.Workload.Events.{CapturedQueryEvent}
use pgproof.Workload.Reconstruct.{OperationBuilder, Reconstruction, key}
use pgproof.Workload.Counts.{executions}

abbrev pub operation_ids : List OperationIr → List String
operation_ids [] = []
operation_ids (o ∷ os) = o.id ∷ operation_ids os

-- What `build` makes of the operations in their order.
abbrev IsBuilt : Dict String OperationBuilder → List String → List OperationIr → Type 0
IsBuilt operations order os =
    (operation_ids os ≡ order)
    × All
        (λ (o : OperationIr).
          (b : OperationBuilder) × (get o.id operations ≡ some b)
          × (o.query_counts ≡ b.query_counts))
        os

module _ (parse_query : String → List SourceRef → QueryIr)
    (operation_id : String → OperationPhase → String) where
  abbrev empty : Reconstruction
  empty = record { queries = []; operations = []; operation_order = [] }

  -- The workload's operations are those of the events, and count every execution.
  abbrev pub IsAccountOf : List CapturedQueryEvent → List OperationIr → Type 0
  IsAccountOf events operations =
      Distinct (operation_ids operations)
      × ((e : CapturedQueryEvent)
          → In e events
          → In (key parse_query operation_id e) (operation_ids operations))
      × ((o : OperationIr) (query : String)
          → In o operations
          → get_or 0 query o.query_counts ≡ executions parse_query operation_id o.id query events)
