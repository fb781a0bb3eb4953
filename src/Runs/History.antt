-- ===== src/Runs/History.antt =====
-- What every history of calls on a run session leaves behind: events.ndjson and the stored stages agree.
use pgproof.Common.{
  ℕ, true, Option, none, some, List, ok, raise, if◌then◌else◌, ◌≡◌, refl, inl, inr, push, ◌==◌,
  Bool-cases, Result-cases, ◌⊎◌,
}
use pgproof.Common.Dict.{Dict, get, put}
use pgproof.Runs.Stages.{
  StageName, StageStatus, pending, running, complete, partial, failed, cancelled, stage_equality,
  StageEventKind, stage_started, stage_completed, stage_partial, stage_failed, stage_cancelled,
  StageEvent, RunError, invalid_transition, invalid_summary, is_run_id, allowed,
  validate_stage_transition, summary_holds,
}
use pgproof.Runs.Session.{
  Session, event_kind, Details, status_of, started, ended, duration, first_of_two, summary, emit,
  store, transition,
}

-- The status that an event reports.
abbrev pub reported : StageEventKind → StageStatus
reported stage_started = running
reported stage_completed = complete
reported stage_partial = partial
reported stage_failed = failed
reported stage_cancelled = cancelled

-- What a reader of the event log makes of one stage: none where a transition is not a legal one.
abbrev pub replay : StageName → StageStatus → List StageEvent → Option StageStatus
replay stage current List.[] = some current
replay stage current (List.◌∷◌ e es) =
    let here = replay stage (reported e.kind) es in
    let later = replay stage current es in
    if e.stage == stage then (if allowed current (reported e.kind) then here else none) else later

-- A status that may follow another has an event that reports it.
pub allowed-event_kind :
    (current target : StageStatus)
    → allowed current target ≡ true
    → (k : StageEventKind) × (event_kind target ≡ ok k) × (reported k ≡ target)
unfolding event_kind allowed
allowed-event_kind current running h = (stage_started, refl, refl)
allowed-event_kind current complete h = (stage_completed, refl, refl)
allowed-event_kind current partial h = (stage_partial, refl, refl)
allowed-event_kind current failed h = (stage_failed, refl, refl)
allowed-event_kind current cancelled h = (stage_cancelled, refl, refl)
allowed-event_kind pending pending h = cc h
allowed-event_kind running pending h = cc h
allowed-event_kind complete pending h = cc h
allowed-event_kind partial pending h = cc h
allowed-event_kind failed pending h = cc h
allowed-event_kind cancelled pending h = cc h

-- The log replays to the stored statuses.
abbrev pub IsFaithful : Session → Type 0
IsFaithful s =
    (is_run_id s.run_id ≡ true)
    × ((stage : StageName) → replay stage pending s.events ≡ some (status_of (get stage s.stages)))

-- The event of a legal transition is written.
pub emit-eq :
    (stage : StageName) (status : StageStatus) (now : ℕ) (d : Details) (s : Session)
    (k : StageEventKind)
    → event_kind status ≡ ok k
    → is_run_id s.run_id ≡ true
    → emit stage status now d s ≡ (
      ok tt,
      record s {
        events = push s.events (record {
          run_id = s.run_id;
          stage = stage;
          kind = k;
          at = now;
          detail = first_of_two d.failure_reason d.boundary_note;
        });
      },
    )
unfolding emit
emit-eq stage status now d s k written valid = rw (emit, written) (rw valid refl)

-- A transition raises and changes nothing, or it is legal and comes down to its event.
pub transition-cases :
    (stage : StageName) (status : StageStatus) (now : ℕ) (d : Details) (s : Session)
    → ((e : RunError) × (transition stage status now d s ≡ (raise e, s)))
      ⊎ ((lasted : Option ℕ) × (allowed (status_of (get stage s.stages)) status ≡ true)
          × (summary_holds (summary stage status (get stage s.stages) now lasted d) ≡ true)
          × (transition stage status now d s
              ≡ emit stage status now d (record s {
                stages =
                    put stage (summary stage status (get stage s.stages) now lasted d) s.stages;
              })))
unfolding transition store validate_stage_transition
transition-cases stage status now d s =
    elim (Bool-cases (allowed (status_of (get stage s.stages)) status)) [
      | inr f ↦
          inl (invalid_transition (status_of (get stage s.stages)) status, rw (transition, f) refl)
      | inl t ↦
          elim (Result-cases (duration (started (get stage s.stages) now) (ended status now))) [
            | inr (e, r) ↦ inl (e, rw (transition, t) (rw (transition, r) refl))
            | inl (lasted, r) ↦
                elim (Bool-cases
                  (summary_holds (summary stage status (get stage s.stages) now lasted d))) [
                    | inr f ↦ inl (
                      invalid_summary,
                      rw (transition, t) (rw (transition, r) (rw (store, f) refl)),
                    )
                    | inl v ↦
                        inr (
                          lasted,
                          t,
                          v,
                          rw (transition, t) (rw (transition, r) (rw (store, v) refl)),
                        )
                  ]
          ]
    ]
