-- ===== src/Advice/Scenarios.antt =====
-- domain/scenarios.py: the projections of one rule run and the differences between two.
use Prim.Native.String.{◌++◌}
use pgproof.Common.{
  String, not, Option, none, some, List, [], ◌∷◌, ◌++◌ as followed_by, map, ◌==◌, text_equality,
  option_equality, pair_equality, contains, keep,
}
use pgproof.Common.Dict.{Dict, put, get, keys}
use pgproof.Common.Sets.{unique}
use pgproof.Common.Sorting.{text_le, sort_by}
use pgproof.Advice.Questions.{
  AnswerState, answered, ContextAnswer, ContextIr, core_table_scale, core_rpo_rto,
  core_read_after_write, answer_state_equality,
}
use pgproof.Advice.Recommendations.{Recommendation, RecommendationSet}
use pgproof.Advice.Equality.{recommendation_equality}

pub data ScenarioKind : Type 0 where
  launch_minimal growth_ready availability_ready : ScenarioKind

pub data OperationalComplexity : Type 0 where
  unchanged slightly_higher higher substantially_higher : OperationalComplexity

pub data DeltaKind : Type 0 where
  added removed changed : DeltaKind

pub data RoutingEligibility : Type 0 where
  primary_required replica_eligible either unknown_routing blocked_routing : RoutingEligibility

pub record Scenario : Type 0 where
  pub kind : ScenarioKind
  pub title : String
  pub summary : String
  pub recommendations : List String
  pub requirements_satisfied : List String
  pub unresolved_blockers : List String
  pub operational_complexity : OperationalComplexity

pub record ScenarioDelta : Type 0 where
  pub kind : DeltaKind
  pub recommendation : String
  pub caused_by : Option String
  pub explanation : String

pub record ScenarioDiff : Type 0 where
  pub base : ScenarioKind
  pub target : ScenarioKind
  pub deltas : List ScenarioDelta

pub record ScenarioSet : Type 0 where
  pub scenarios : List Scenario
  pub diffs : List ScenarioDiff

abbrev pub required_questions : ScenarioKind → List String
required_questions launch_minimal = []
required_questions growth_ready = core_table_scale ∷ []
required_questions availability_ready = core_rpo_rto ∷ core_read_after_write ∷ []

abbrev pub titles : ScenarioKind → String
titles launch_minimal = "Launch-minimal"
titles growth_ready = "Growth-ready"
titles availability_ready = "Availability-ready"

abbrev pub summaries : ScenarioKind → String
summaries launch_minimal = "The simplest design satisfying confirmed launch scale."
summaries growth_ready =
    "The design needed for the confirmed 12-month scale and its critical paths."
summaries availability_ready = "Adds the confirmed recovery targets and consistency requirements."

abbrev pub answered_questions : List ContextAnswer → List String
answered_questions answers =
    map (λ (a : ContextAnswer). a.question)
      (keep (λ (a : ContextAnswer). a.state == answered) answers)

unfoldable pub unresolved_blockers_for : ScenarioKind → ContextIr → List String
unresolved_blockers_for kind context =
    keep (λ question. not (contains question (answered_questions context.answers)))
      (required_questions kind)

unfoldable pub build_scenario : ScenarioKind → RecommendationSet → ContextIr → Scenario
unfolding unresolved_blockers_for
build_scenario kind recommendations context = record {
  kind = kind;
  title = titles kind;
  summary = summaries kind;
  recommendations = map (λ (r : Recommendation). r.id) recommendations.recommendations;
  requirements_satisfied = [];
  unresolved_blockers = unresolved_blockers_for kind context;
  operational_complexity = unchanged;
}

-- `{answer.question: (answer.state, answer.value) for answer in answers}`
unfoldable pub answers_by_question :
    List ContextAnswer
    → Dict String (AnswerState × Option String)
    → Dict String (AnswerState × Option String)
answers_by_question [] d = d
answers_by_question (a ∷ answers) d =
    answers_by_question answers (put a.question (a.state, a.value) d)

abbrev pub sole : List String → Option String
sole (x ∷ []) = some x
sole _ = none

unfoldable pub sole_changed_answer : ContextIr → ContextIr → Option String
unfolding answers_by_question unique
sole_changed_answer base_context target_context =
    let base_answers = answers_by_question base_context.answers [] in
    let target_answers = answers_by_question target_context.answers [] in
    sole (
      keep (λ question. not (get question base_answers == get question target_answers))
        (unique (followed_by (keys base_answers) (keys target_answers))))

-- `{item.id: item for item in recommendations}`
unfoldable pub recommendations_by_id :
    List Recommendation → Dict String Recommendation → Dict String Recommendation
recommendations_by_id [] d = d
recommendations_by_id (item ∷ items) d = recommendations_by_id items (put item.id item d)

abbrev pub explanations : DeltaKind → String → String
explanations added id = id ++ " is newly reported."
explanations removed id = id ++ " is no longer reported."
explanations changed id = id ++ " is reported differently."

abbrev pub delta : Option String → DeltaKind → String → ScenarioDelta
delta caused_by kind id = record {
  kind = kind;
  recommendation = id;
  caused_by = caused_by;
  explanation = explanations kind id;
}

-- `sorted(set(a) - set(b))` and `sorted(set(a) & set(b))`
unfoldable pub minus : List String → List String → List String
unfolding unique sort_by
minus a b = sort_by text_le (keep (λ id. not (contains id b)) (unique a))

unfoldable pub common : List String → List String → List String
unfolding unique sort_by
common a b = sort_by text_le (keep (λ id. contains id b) (unique a))

unfoldable pub diff_recommendations :
    RecommendationSet → RecommendationSet → ContextIr → ContextIr → List ScenarioDelta
unfolding sole_changed_answer recommendations_by_id minus common
diff_recommendations base target base_context target_context =
    let caused_by = sole_changed_answer base_context target_context in
    let base_by_id = recommendations_by_id base.recommendations [] in
    let target_by_id = recommendations_by_id target.recommendations [] in
    followed_by
      (followed_by (map (delta caused_by added) (minus (keys target_by_id) (keys base_by_id)))
        (map (delta caused_by removed) (minus (keys base_by_id) (keys target_by_id))))
      (map (delta caused_by changed) (
        keep (λ id. not (get id base_by_id == get id target_by_id))
          (common (keys base_by_id) (keys target_by_id))))

unfoldable pub build_scenario_diff :
    ScenarioKind
    → ScenarioKind
    → RecommendationSet
    → RecommendationSet
    → ContextIr
    → ContextIr
    → ScenarioDiff
unfolding diff_recommendations
build_scenario_diff base_kind target_kind base target base_context target_context = record {
  base = base_kind;
  target = target_kind;
  deltas = diff_recommendations base target base_context target_context;
}
