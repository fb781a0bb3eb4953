-- ===== src/Runs/Session.antt =====
-- store/run.py: `RunSession`. An exception leaves the object as it was when it was raised, so a method
-- gives the session beside its result. `events` is what `append_line_durable` has put into
-- events.ndjson; the write itself is taken to succeed, and the clock's reading is an argument.
use pgproof.Common.{
  ℕ, ◌-◌, String, not, Option, none, some, List, [], Result, ok, raise, if◌then◌else◌, ltb, push,
}
use pgproof.Common.Dict.{Dict, get, put}
use pgproof.Runs.Stages.{
  StageName, StageStatus, pending, running, complete, partial, failed, cancelled, stage_equality,
  StageSummary, StageEventKind, stage_started, stage_completed, stage_partial, stage_failed,
  stage_cancelled, StageEvent, RunError, invalid_summary, invalid_event, no_event_kind, is_run_id,
  summary_holds, validate_stage_transition,
}

pub record Session : Type 0 where
  pub run_id : String
  pub stages : Dict StageName StageSummary
  pub events : List StageEvent

abbrev pub new_session : String → Session
new_session run_id = record { run_id = run_id; stages = []; events = [] }

-- _EVENT_KIND_FOR_STATUS, which has no entry for `pending`
unfoldable pub event_kind : StageStatus → Result RunError StageEventKind
event_kind running = ok stage_started
event_kind complete = ok stage_completed
event_kind partial = ok stage_partial
event_kind failed = ok stage_failed
event_kind cancelled = ok stage_cancelled
event_kind pending = raise no_event_kind

-- The keyword arguments of `_transition`.
pub record Details : Type 0 where
  pub cache_key : Option String
  pub input_hashes : Dict String String
  pub warnings : List String
  pub failure_reason : Option String
  pub boundary_note : Option String

abbrev pub no_details : Details
no_details = record {
  cache_key = none;
  input_hashes = [];
  warnings = [];
  failure_reason = none;
  boundary_note = none;
}

unfoldable pub status_of : Option StageSummary → StageStatus
status_of none = pending
status_of (some s) = s.status

-- `current.started_at if current is not None else format_rfc3339(now)`
unfoldable pub started : Option StageSummary → ℕ → Option ℕ
started none now = some now
started (some s) now = s.started_at

unfoldable pub ended : StageStatus → ℕ → Option ℕ
ended running now = none
ended _ now = some now

-- `(now - started_at) // microsecond`, where both ends are there. `Microseconds` refuses what is negative.
unfoldable pub duration : Option ℕ → Option ℕ → Result RunError (Option ℕ)
duration (some s) (some e) = if ltb e s then raise invalid_summary else ok (some (e - s))
duration none _ = ok none
duration (some s) none = ok none

-- `failure_reason or boundary_note`: an empty reason does not get as far as this.
unfoldable pub first_of_two : Option String → Option String → Option String
first_of_two none b = b
first_of_two (some a) b = some a

unfoldable pub summary :
    StageName → StageStatus → Option StageSummary → ℕ → Option ℕ → Details → StageSummary
unfolding started ended
summary stage status current now lasted d = record {
  stage = stage;
  status = status;
  started_at = started current now;
  ended_at = ended status now;
  duration_us = lasted;
  cache_key = d.cache_key;
  input_hashes = d.input_hashes;
  warnings = d.warnings;
  failure_reason = d.failure_reason;
  boundary_note = d.boundary_note;
}

-- The event of a transition, and the line that it adds.
unfoldable pub emit :
    StageName → StageStatus → ℕ → Details → Session → Result RunError (Unit {0}) × Session
unfolding event_kind first_of_two
emit stage status now d s = elim (event_kind status) [
  | raise e ↦ (raise e, s)
  | ok kind ↦ if not (is_run_id s.run_id) then (raise invalid_event, s) else (
    ok tt,
    record s {
      events = push s.events (record {
        run_id = s.run_id;
        stage = stage;
        kind = kind;
        at = now;
        detail = first_of_two d.failure_reason d.boundary_note;
      });
    },
  )
]

-- `self._stages[stage] = StageSummary(…)`, then the event
unfoldable pub store :
    StageName
    → StageStatus
    → ℕ
    → Details
    → Option ℕ
    → Session
    → Result RunError (Unit {0}) × Session
unfolding summary emit
store stage status now d lasted s =
    let next = summary stage status (get stage s.stages) now lasted d in
    if summary_holds next
    then emit stage status now d (record s { stages = put stage next s.stages })
    else (raise invalid_summary, s)

unfoldable pub transition :
    StageName → StageStatus → ℕ → Details → Session → Result RunError (Unit {0}) × Session
unfolding store duration status_of
transition stage status now d s =
    let current = get stage s.stages in
    elim (validate_stage_transition (status_of current) status) [
      | raise e ↦ (raise e, s)
      | ok _ ↦ elim (duration (started current now) (ended status now)) [
        | raise e ↦ (raise e, s)
        | ok lasted ↦ store stage status now d lasted s
      ]
    ]

-- The public methods.
pub data Call : Type 0 where
  start_stage : Call
  complete_stage :
      (cache_key : Option String) (input_hashes : Dict String String) (warnings : List String)
      → Call
  partial_stage :
      (boundary_note : String) (cache_key : Option String) (input_hashes : Dict String String)
      (warnings : List String)
      → Call
  fail_stage :
      (failure_reason : String) (cache_key : Option String) (input_hashes : Dict String String)
      → Call
  cancel_stage : Call

unfoldable pub call : Call → StageName → ℕ → Session → Result RunError (Unit {0}) × Session
unfolding transition
call start_stage stage now s = transition stage running now no_details s
call (complete_stage key hashes warnings) stage now s =
    transition stage complete now
      (record {
        cache_key = key;
        input_hashes = hashes;
        warnings = warnings;
        failure_reason = none;
        boundary_note = none;
      })
      s
call (partial_stage note key hashes warnings) stage now s =
    transition stage partial now
      (record {
        cache_key = key;
        input_hashes = hashes;
        warnings = warnings;
        failure_reason = none;
        boundary_note = some note;
      })
      s
call (fail_stage reason key hashes) stage now s =
    transition stage failed now
      (record {
        cache_key = key;
        input_hashes = hashes;
        warnings = [];
        failure_reason = some reason;
        boundary_note = none;
      })
      s
call cancel_stage stage now s = transition stage cancelled now no_details s

-- A caller's sequence of calls, going on after an exception.
unfoldable pub calls : List (Call × StageName × ℕ) → Session → Session
unfolding call
calls List.[] s = s
calls (List.◌∷◌ (c, stage, now) rest) s = calls rest (call c stage now s).1
