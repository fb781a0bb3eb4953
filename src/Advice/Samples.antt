-- ===== src/Advice/Samples.antt =====
-- Small answers, rule runs and reference checks.
use Prim.Native.Char.{Char, code}
use pgproof.Common.{
  String, none, some, List, [], ◌∷◌, ◌≡◌, ◌↔◌, refl, ok, raise, text_dec, leb, eqn, ◌&&◌, ◌-◌,
  if◌then◌else◌, In, list_dec, option_dec, pair_dec, record_dec, number_dec,
}
use pgproof.Common.Integers.{pos, integer_dec}
use pgproof.Common.Dict.{get, put}
use pgproof.Common.Sorting.{sort_by, text_le}
use pgproof.Reconciliation.{observed}
use pgproof.Advice.Questions.{
  ContextIr, ContextAnswer, answered, unknown_model, core_read_write_mix, answer_state_dec,
}
use pgproof.Advice.Recommendations.{
  Recommendation, RecommendationSet, worth_evaluating, verified_improvement, schema, not_eligible,
  validate_contract, unverified_improvement, priority_dec, verification_dec,
}
use pgproof.Advice.Equality.{recommendation_dec, category_dec, change_kind_dec}
use pgproof.Advice.Answers.{
  DigitClass, decimal_digit, other_digit, no_digit, apply_core_answer, split_list,
}
use pgproof.Advice.Scenarios.{
  unresolved_blockers_for, diff_recommendations, ScenarioDelta, delta, DeltaKind, added, removed,
  changed, sole_changed_answer,
}
use pgproof.Advice.Integrity.{
  EvidenceGraph, dangling_evidence_refs, dangling_question_refs, dangling_scenario_refs,
}
use pgproof.Advice.Contract.{IsContract, validate_contract-IsContract}
use pgproof.Advice.Diffs.{Differs, last_with, diff_recommendations-Differs}

-- The ASCII digits, and the superscript two.
abbrev ascii_classify : Char → DigitClass
ascii_classify c =
    if leb 48 (code c) && leb (code c) 57
    then decimal_digit (code c - 48)
    else if eqn (code c) 0xb2
    then other_digit
    else no_digit

abbrev nothing_known : ContextIr
nothing_known = record {
  answers = [];
  critical_operations = [];
  table_scales = [];
  read_write_ratio = none;
  peak_requests_per_second = none;
  tenant_model = unknown_model;
  consistency_requirements = [];
  rpo = none;
  rto = none;
  retention_constraints = [];
}

abbrev answer_of : String → String → ContextAnswer
answer_of question value = record {
  question = question;
  state = answered;
  value = some value;
  note = none;
}

program : Unit {0}
unfolding number_dec apply_core_answer unresolved_blockers_for diff_recommendations
    dangling_evidence_refs dangling_question_refs dangling_scenario_refs text_dec answer_state_dec
    get put sort_by text_le recommendation_dec record_dec list_dec option_dec pair_dec integer_dec
    priority_dec verification_dec category_dec change_kind_dec validate_contract last_with
program = tt

abbrev mixed : ContextIr
mixed = record nothing_known {
  answers = answer_of core_read_write_mix " 80:20 , 120 " ∷ [];
  read_write_ratio = some "80:20";
  peak_requests_per_second = some (pos 120);
}

listed : split_list " a, ,b " ≡ "a" ∷ "b" ∷ []
unfolding program
listed = refl

abbrev item : String → String → Recommendation
item id statement = record {
  id = id;
  rule = "schema.missing_index";
  rule_version = pos 1;
  title = "An index";
  priority = worth_evaluating;
  category = schema;
  statement = statement;
  affected_objects = "table:public.a" ∷ [];
  evidence_refs = "e1" ∷ "e9" ∷ [];
  assumptions = [];
  trade_offs = [];
  invalidating_context = [];
  alternatives = [];
  verification_state = not_eligible;
  measurement = none;
  proposed_change = none;
  blocking_question = some "q";
}

valid_item : validate_contract (item "IDX-001" "s") ≡ ok (item "IDX-001" "s")
unfolding program
valid_item = refl

unverified_item :
    validate_contract (record (item "IDX-001" "s") { priority = verified_improvement })
    ≡ raise unverified_improvement
unfolding program
unverified_item = refl

abbrev run : List Recommendation → RecommendationSet
run items = record { recommendations = items; questions = []; unsupported_reasons = [] }

abbrev before : RecommendationSet
before = run (item "IDX-001" "a" ∷ item "IDX-002" "b" ∷ item "IDX-003" "c" ∷ [])

abbrev after : RecommendationSet
after = run (item "IDX-004" "d" ∷ item "IDX-003" "c" ∷ item "IDX-001" "other" ∷ [])

cause : sole_changed_answer nothing_known mixed ≡ some core_read_write_mix
unfolding program
cause = refl

three_deltas :
    diff_recommendations before after nothing_known mixed
    ≡ delta (some core_read_write_mix) added "IDX-004"
      ∷ delta (some core_read_write_mix) removed "IDX-002"
      ∷ delta (some core_read_write_mix) changed "IDX-001"
      ∷ []
unfolding program
three_deltas = refl

abbrev added_four : ScenarioDelta
added_four = delta (some core_read_write_mix) added "IDX-004"

diff_recommendations-Differs_example :
    In added_four (diff_recommendations before after nothing_known mixed) ↔ (
      (kind : DeltaKind) × (id : String) × (added_four
        ≡ delta (sole_changed_answer nothing_known mixed) kind id)
      × Differs kind (last_with id before.recommendations) (last_with id after.recommendations))
diff_recommendations-Differs_example =
    diff_recommendations-Differs before after nothing_known mixed added_four

abbrev one_ref : EvidenceGraph
one_ref = record {
  refs =
      (record {
        id = "e1";
        kind = observed;
        summary = "s";
        source = none;
        content_hash = none;
        fixture_scale = none;
      })
      ∷ [];
}

dangling_evidence : dangling_evidence_refs before one_ref ≡ "e9" ∷ []
unfolding program
dangling_evidence = refl

dangling_questions : dangling_question_refs before ≡ "q" ∷ []
unfolding program
dangling_questions = refl

validate_contract-IsContract_example :
    (validate_contract (item "IDX-001" "s") ≡ ok (item "IDX-001" "s"))
    ↔ IsContract (item "IDX-001" "s")
validate_contract-IsContract_example = validate_contract-IsContract (item "IDX-001" "s")
