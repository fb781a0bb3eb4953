-- ===== src/Advice/Integrity.antt =====
-- domain/integrity.py and the evidence graph of domain/evidence.py.
use pgproof.Common.{
  String, not, none, some, List, [], ◌∷◌, ◌++◌, map, concat_map, text_equality, contains, any, keep,
}
use pgproof.Common.Sets.{unique}
use pgproof.Common.Sorting.{text_le, sort_by}
use pgproof.Reconciliation.{EvidenceRef}
use pgproof.Advice.Questions.{MaterialQuestion}
use pgproof.Advice.Recommendations.{Recommendation, RecommendationSet}
use pgproof.Advice.Scenarios.{Scenario, ScenarioDelta, ScenarioDiff, ScenarioSet}

pub record EvidenceGraph : Type 0 where
  pub refs : List EvidenceRef

abbrev pub evidence_ids : EvidenceGraph → List String
evidence_ids graph = map (λ (ref : EvidenceRef). ref.id) graph.refs

abbrev pub recommendation_ids : RecommendationSet → List String
recommendation_ids set = map (λ (r : Recommendation). r.id) set.recommendations

abbrev pub unknown_to : List String → List String → List String
unknown_to known refs = keep (λ ref. not (contains ref known)) refs

-- `tuple(sorted(set))`
abbrev pub sorted_set : List String → List String
sorted_set xs = sort_by text_le (unique xs)

unfoldable pub dangling_evidence_refs : RecommendationSet → EvidenceGraph → List String
unfolding unique sort_by
dangling_evidence_refs set evidence = sorted_set (
    concat_map (λ (r : Recommendation). unknown_to (evidence_ids evidence) r.evidence_refs)
      set.recommendations)

unfoldable pub untraceable_recommendations : RecommendationSet → EvidenceGraph → List String
unfolding sort_by
untraceable_recommendations set evidence = sort_by text_le (
    map (λ (r : Recommendation). r.id)
      (keep
        (λ (r : Recommendation).
          not (any (λ ref. contains ref (evidence_ids evidence)) r.evidence_refs))
        set.recommendations))

abbrev pub blocking : Recommendation → List String
blocking r = elim r.blocking_question [ none ↦ [] | some question ↦ question ∷ [] ]

unfoldable pub dangling_question_refs : RecommendationSet → List String
unfolding unique sort_by
dangling_question_refs set =
    let question_ids = map (λ (q : MaterialQuestion). q.id) set.questions in
    sorted_set (
      concat_map (λ (r : Recommendation). unknown_to question_ids (blocking r)) set.recommendations
      ++ concat_map
          (λ (q : MaterialQuestion). unknown_to (recommendation_ids set) q.affected_recommendations)
          set.questions)

abbrev pub cited : ScenarioSet → List String
cited set =
    concat_map (λ (s : Scenario). s.recommendations) set.scenarios
    ++ concat_map (λ (d : ScenarioDiff). map (λ (x : ScenarioDelta). x.recommendation) d.deltas)
        set.diffs

unfoldable pub dangling_scenario_refs : ScenarioSet → RecommendationSet → List String
unfolding unique sort_by
dangling_scenario_refs scenarios recommendations =
    sort_by text_le (unknown_to (recommendation_ids recommendations) (unique (cited scenarios)))
