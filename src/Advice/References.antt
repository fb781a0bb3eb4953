-- ===== src/Advice/References.antt =====
-- The checks of references report exactly what does not resolve.
use pgproof.Common.{
  String, not, List, ◌↔◌, ◌⊎◌, inl, inr, ap, map, concat_map, In, text_equality, keep-In, In-keep,
  Bool-cases, contains, contains→In, In→contains, In-concat_map, concat_map-In, In-append_cases,
  In-append_left, In-append_right,
}
use pgproof.Common.Sets.{unique, In-unique, unique-In}
use pgproof.Common.Sorting.{text_le, In-sort_by, sort_by-In}
use pgproof.Advice.Questions.{MaterialQuestion}
use pgproof.Advice.Recommendations.{Recommendation, RecommendationSet}
use pgproof.Advice.Scenarios.{ScenarioSet}
use pgproof.Advice.Integrity.{
  EvidenceGraph, evidence_ids, recommendation_ids, unknown_to, sorted_set, dangling_evidence_refs,
  blocking, dangling_question_refs, cited, dangling_scenario_refs,
}

unknown_to-In :
    (x : String) (known refs : List String)
    → In x (unknown_to known refs)
    → In x refs × (¬ (In x known))
unknown_to-In x known refs m =
    let (k, t) = keep-In (λ ref. not (contains ref known)) x refs m in
    (k, λ n. cc (In→contains x known n, t))

In-unknown_to :
    (x : String) (known refs : List String)
    → In x refs
    → (¬ (In x known))
    → In x (unknown_to known refs)
In-unknown_to x known refs m n =
    In-keep (λ ref. not (contains ref known)) x refs m
      (elim (Bool-cases (contains x known)) [
        | inl t ↦ absurd (n (contains→In x known t))
        | inr f ↦ ap not f
      ])

sorted_set-In : (x : String) (xs : List String) → In x (sorted_set xs) → In x xs
sorted_set-In x xs m = unique-In x xs (sort_by-In text_le x (unique xs) m)

In-sorted_set : (x : String) (xs : List String) → In x xs → In x (sorted_set xs)
In-sorted_set x xs m = In-sort_by text_le x (unique xs) (In-unique x xs m)

-- A reference of one of the recommendations that the known ids do not hold.
module _ (refs_of : Recommendation → List String) (known : List String)
    (items : List Recommendation) (x : String) where
  abbrev pub IsDangling : Type 0
  IsDangling = ((r : Recommendation) × In r items × In x (refs_of r)) × (¬ (In x known))

  dangling-IsDangling : In x (concat_map (λ r. unknown_to known (refs_of r)) items) → IsDangling
  dangling-IsDangling m =
      let (r, given, k) = concat_map-In (λ r. unknown_to known (refs_of r)) x items m in
      let (cited, n) = unknown_to-In x known (refs_of r) k in ((r, given, cited), n)

  IsDangling-dangling : IsDangling → In x (concat_map (λ r. unknown_to known (refs_of r)) items)
  IsDangling-dangling ((r, given, cited), n) =
      In-concat_map (λ z. unknown_to known (refs_of z)) r x items given
        (In-unknown_to x known (refs_of r) cited n)

-- What each of the three checks has to report.
abbrev pub question_ids : RecommendationSet → List String
question_ids set = map (λ (q : MaterialQuestion). q.id) set.questions

abbrev pub IsUnresolved : RecommendationSet → String → Type 0
IsUnresolved set x =
    IsDangling blocking (question_ids set) set.recommendations x
    ⊎ (((q : MaterialQuestion) × In q set.questions × In x q.affected_recommendations)
        × (¬ (In x (recommendation_ids set))))

module _ (set : RecommendationSet) (x : String) where
  pub evidence_refs_lem :
      (evidence : EvidenceGraph)
      → In x (dangling_evidence_refs set evidence)
        ↔ IsDangling (λ r. r.evidence_refs) (evidence_ids evidence) set.recommendations x
  unfolding dangling_evidence_refs
  evidence_refs_lem evidence = (
    λ m.
        dangling-IsDangling (λ r. r.evidence_refs) (evidence_ids evidence) set.recommendations x
          (sorted_set-In x _ m),
    λ d. In-sorted_set x _ (
        IsDangling-dangling (λ r. r.evidence_refs) (evidence_ids evidence) set.recommendations x d),
  )

  pub scenario_refs_lem :
      (scenarios : ScenarioSet)
      → In x (dangling_scenario_refs scenarios set)
        ↔ (In x (cited scenarios) × (¬ (In x (recommendation_ids set))))
  unfolding dangling_scenario_refs
  scenario_refs_lem scenarios = (
    λ m.
        let (k, n) =
          unknown_to-In x (recommendation_ids set) (unique (cited scenarios))
            (sort_by-In text_le x _ m) in
        (unique-In x (cited scenarios) k, n),
    λ (m, n). In-sort_by text_le x _ (
        In-unknown_to x (recommendation_ids set) (unique (cited scenarios))
          (In-unique x (cited scenarios) m) n),
  )

  pub question_refs_lem : In x (dangling_question_refs set) ↔ IsUnresolved set x
  unfolding dangling_question_refs
  question_refs_lem =
      let blocked =
        concat_map (λ r. unknown_to (question_ids set) (blocking r)) set.recommendations in
      let affected =
        concat_map
          (λ (q : MaterialQuestion). unknown_to (recommendation_ids set) q.affected_recommendations)
          set.questions in
      (
        λ m. elim (In-append_cases x blocked affected (sorted_set-In x _ m)) [
          | inl k ↦ inl (dangling-IsDangling blocking (question_ids set) set.recommendations x k)
          | inr k ↦
              let (q, given, l) =
                concat_map-In
                  (λ (z : MaterialQuestion).
                    unknown_to (recommendation_ids set) z.affected_recommendations)
                  x set.questions k in
              let (there, n) =
                unknown_to-In x (recommendation_ids set) q.affected_recommendations l in
              inr ((q, given, there), n)
        ],
        λ u. In-sorted_set x _ (elim u [
          | inl d ↦
              In-append_left x blocked affected
                (IsDangling-dangling blocking (question_ids set) set.recommendations x d)
          | inr ((q, given, there), n) ↦ In-append_right x blocked affected (
              In-concat_map
                (λ (z : MaterialQuestion).
                  unknown_to (recommendation_ids set) z.affected_recommendations)
                q x set.questions given
                (In-unknown_to x (recommendation_ids set) q.affected_recommendations there n))
        ]),
      )
