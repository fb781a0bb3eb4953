-- ===== src/Runs/Stages.antt =====
-- domain/stages.py and domain/events.py: stages, their summaries, and the legal transitions.
-- A moment is the number of microseconds that its RFC 3339 text stands for.
use Prim.Native.Char.{Char, code}
use pgproof.Common.{
  ℕ, zero, suc, String, Bool, true, false, not, ◌&&◌, ◌||◌, Option, none, some, List, Result,
  raise_if, Eq, ◌==◌, text_equality, if◌then◌else◌, leb, eqn, all, ◌≡◌,
}
use pgproof.Common.Dict.{Dict, values}

pub data StageName : Type 0 where
  repository_inventory schema_reconstruction context_resolution migration_sandbox : StageName
  query_capture dataset_build candidate_screening physical_verification report_generation :
      StageName

pub data StageStatus : Type 0 where
  pending running complete partial failed cancelled : StageStatus

unfoldable pub stage_dec : (x y : StageName) → Dec (x ≡ y)
stage_dec = hlevel

instance abbrev pub stage_equality : Eq StageName
stage_equality = record { dec = stage_dec }

pub record StageSummary : Type 0 where
  pub stage : StageName
  pub status : StageStatus
  pub started_at : Option ℕ
  pub ended_at : Option ℕ
  pub duration_us : Option ℕ
  pub cache_key : Option String
  pub input_hashes : Dict String String
  pub warnings : List String
  pub failure_reason : Option String
  pub boundary_note : Option String

pub data StageEventKind : Type 0 where
  stage_started stage_completed stage_partial stage_failed stage_cancelled : StageEventKind

pub record StageEvent : Type 0 where
  pub run_id : String
  pub stage : StageName
  pub kind : StageEventKind
  pub at : ℕ
  pub detail : Option String

pub data RunError : Type 0 where
  invalid_transition : StageStatus → StageStatus → RunError
  invalid_summary invalid_event no_event_kind : RunError

-- NonEmptyText
abbrev pub non_empty : String → Bool
non_empty text = not (text == "")

abbrev pub absent_or : (String → Bool) → Option String → Bool
absent_or p none = true
absent_or p (some text) = p text

abbrev pub is_none : Option String → Bool
is_none none = true
is_none (some _) = false

-- SHA256_PATTERN and RUN_ID_PATTERN, as pydantic's matcher reads them: `$` is the end of the text.
abbrev pub is_hex : Char → Bool
is_hex c = leb b'0' (code c) && leb (code c) b'9' || leb b'a' (code c) && leb (code c) b'f'

unfoldable pub is_run : (Char → Bool) → ℕ → String → Bool
is_run p zero String.[] = true
is_run p zero (String.◌∷◌ c s) = false
is_run p (suc n) String.[] = false
is_run p (suc n) (String.◌∷◌ c s) = p c && is_run p n s

unfoldable pub after_prefix : String → String → Option String
after_prefix String.[] s = some s
after_prefix (String.◌∷◌ c p) String.[] = none
after_prefix (String.◌∷◌ c p) (String.◌∷◌ d s) =
    let rest = after_prefix p s in if eqn (code c) (code d) then rest else none

unfoldable pub is_sha256 : String → Bool
unfolding is_run after_prefix
is_sha256 text = elim (after_prefix "sha256:" text) [
  | none ↦ false
  | some digest ↦ is_run is_hex 64 digest
]

-- The ULID alphabet: Crockford base32 without I, L, O and U.
abbrev pub is_crockford : Char → Bool
is_crockford c =
    let k = code c in
    leb b'0' k && leb k b'9'
    || leb b'A' k && leb k b'H'
    || leb b'J' k && leb k b'K'
    || leb b'M' k && leb k b'N'
    || leb b'P' k && leb k b'T'
    || leb b'V' k && leb k b'Z'

unfoldable pub is_run_id : String → Bool
unfolding is_run
is_run_id text = is_run is_crockford 26 text

-- The field types of `StageSummary`, the sign of its duration apart, and its model validator.
unfoldable pub summary_holds : StageSummary → Bool
unfolding is_sha256
summary_holds s =
    absent_or is_sha256 s.cache_key
    && all is_sha256 (values s.input_hashes)
    && all non_empty s.warnings
    && absent_or non_empty s.failure_reason
    && absent_or non_empty s.boundary_note
    && elim s.status [
      | failed ↦ not (is_none s.failure_reason)
      | partial ↦ not (is_none s.boundary_note)
      | _ ↦ true
    ]

-- ALLOWED_STAGE_TRANSITIONS
unfoldable pub allowed : StageStatus → StageStatus → Bool
allowed pending running = true
allowed pending cancelled = true
allowed running complete = true
allowed running partial = true
allowed running failed = true
allowed running cancelled = true
allowed _ _ = false

unfoldable pub validate_stage_transition : StageStatus → StageStatus → Result RunError (Unit {0})
unfolding allowed
validate_stage_transition current target =
    raise_if (not (allowed current target)) (invalid_transition current target)
