-- ===== src/Workload/Annotate.antt =====
-- amplification.py: `annotate_amplifications`. A statement is parsed once; the cache is a dictionary.
use pgproof.Common.{ℕ, String, Option, none, some, List, [], ◌∷◌, push, All, ◌≡◌, text_equality}
use pgproof.Common.Dict.{Dict, get, get_or, put}
use pgproof.Common.Sorting.{sort_by}
use pgproof.Ir.{SchemaIr, QueryIr, OperationPhase, OperationIr, WorkloadIr}
use pgproof.Workload.Events.{CapturedQueryEvent}
use pgproof.Workload.Reconstruct.{by_sequence}
use pgproof.Workload.Amplification.{Occurrence, occurrence, amplifications}
use pgproof.Workload.Repetitions.{IsRepetition}

-- The variables of the loop over the events.
pub record Grouping : Type 0 where
  pub parsed : Dict String QueryIr
  pub by_operation : Dict String (List Occurrence)

module _ (parse_query : String → QueryIr) (operation_id : String → OperationPhase → String) where
  unfoldable pub cached : Dict String QueryIr → String → QueryIr
  cached parsed statement = elim (get statement parsed) [
    | none ↦ parse_query statement
    | some query ↦ query
  ]

  unfoldable pub remember : Dict String QueryIr → String → Dict String QueryIr
  remember parsed statement = elim (get statement parsed) [
    | none ↦ put statement (parse_query statement) parsed
    | some query ↦ parsed
  ]

  unfoldable pub group_events : List CapturedQueryEvent → Grouping → Grouping
  unfolding cached remember
  group_events [] g = g
  group_events (event ∷ events) g =
      let key = operation_id event.node_id event.phase in
      let query = cached g.parsed event.statement in
      group_events events (record {
        parsed = remember g.parsed event.statement;
        by_operation =
            put key (push (get_or [] key g.by_operation) (occurrence event query)) g.by_operation;
      })

module _ (schema : SchemaIr) (min_repetitions : ℕ) where
  unfoldable pub annotate_all :
      Dict String (List Occurrence) → List OperationIr → Option (List OperationIr)
  annotate_all by_operation [] = some []
  annotate_all by_operation (operation ∷ operations) =
      elim (amplifications schema min_repetitions (get_or [] operation.id by_operation)) [
        | none ↦ none
        | some found ↦ elim (annotate_all by_operation operations) [
          | none ↦ none
          | some rest ↦ some (record operation { amplifications = found } ∷ rest)
        ]
      ]

  unfoldable pub annotate_amplifications :
      (String → QueryIr)
      → (String → OperationPhase → String)
      → List CapturedQueryEvent
      → WorkloadIr
      → Option WorkloadIr
  unfolding group_events annotate_all sort_by
  annotate_amplifications parse_query operation_id events workload =
      let groups =
        group_events parse_query operation_id (sort_by by_sequence events)
          (record { parsed = []; by_operation = [] }) in
      elim (annotate_all groups.by_operation workload.operations) [
        | none ↦ none
        | some operations ↦ some (record workload { operations = operations })
      ]

  -- The operation is the same but for its amplifications, and those are repetitions.
  abbrev pub IsAnnotated : OperationIr → OperationIr → Type 0
  IsAnnotated old new =
      (record new { amplifications = old.amplifications } ≡ old)
      × All (IsRepetition schema min_repetitions) new.amplifications

  -- One annotated operation for each operation, in order.
  abbrev pub IsAnnotation : List OperationIr → List OperationIr → Type 0
  IsAnnotation [] [] = Unit
  IsAnnotation (old ∷ olds) (new ∷ news) = IsAnnotated old new × IsAnnotation olds news
  IsAnnotation _ _ = ⊥
