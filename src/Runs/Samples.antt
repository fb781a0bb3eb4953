-- ===== src/Runs/Samples.antt =====
-- Runs of a session on concrete calls.
use pgproof.Common.{String, List, [], ◌∷◌, ◌≡◌, refl, false, none, ℕ, length, text_dec}
use pgproof.Common.Dict.{get, put}
use pgproof.Runs.Stages.{
  stage_dec, stage_equality, StageName, complete, query_capture, dataset_build, is_run_id, allowed,
  validate_stage_transition, summary_holds, is_sha256, is_run, after_prefix,
}
use pgproof.Runs.Session.{
  Session, new_session, status_of, Call, start_stage, complete_stage, fail_stage, call, calls,
  event_kind, started, ended, duration, first_of_two, summary, emit, store, transition,
}

program : Unit {0}
unfolding stage_dec text_dec get put is_run_id is_run after_prefix is_sha256 summary_holds allowed
    validate_stage_transition event_kind status_of started ended duration first_of_two summary emit
    store transition call calls
program = tt

abbrev ulid : String
ulid = "01ARZ3NDEKTSV4RRFFQ69G5FAV"

lower_case_ulid : is_run_id "01arz3ndektsv4rrffq69g5fav" ≡ false
unfolding program
lower_case_ulid = refl

abbrev history : List (Call × StageName × ℕ)
history =
    (start_stage, query_capture, 10)
    ∷ (fail_stage "" none [], query_capture, 15)
    ∷ (complete_stage none [] [], query_capture, 20)
    ∷ (start_stage, query_capture, 30)
    ∷ (start_stage, dataset_build, 31)
    ∷ []

history_ends : status_of (get query_capture (calls history (new_session ulid)).stages) ≡ complete
unfolding program
history_ends = refl

history_events : length (calls history (new_session ulid)).events ≡ 3
unfolding program
history_events = refl

-- An invalid run id is noticed when the event is built, behind the store of the summary.
stored_without_event :
    length (call start_stage query_capture 1 (new_session "no ulid")).1.stages ≡ 1
unfolding program
stored_without_event = refl

-- The clock went back.
abbrev late : Session
late = calls ((start_stage, query_capture, 10) ∷ []) (new_session ulid)
