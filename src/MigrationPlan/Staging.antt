-- ===== src/MigrationPlan/Staging.antt =====
-- A plan that is built from recommendations with different ids is accepted and can be ordered.
use pgproof.Common.{
  ℕ, ◌<◌, String, Option, none, some, true, List, [], ◌∷◌, ◌++◌, ◌≡◌, ◌≢◌, refl, sym, ap, ◌∙◌,
  subst, inl, inr, ◌⊎◌, arith, map, In, Distinct, Distinct-append, All-In, In-map, map-In,
  concat_map, ok, contains, In→contains, contains→In, text_equality, if◌then◌else◌, Bool-cases,
  In-concat_map, concat_map-In,
}
use pgproof.Identifiers.Framing.{text, number}
use pgproof.Identifiers.Framing.Injective.{frame_components-injective}
use pgproof.Advice.{
  ScenarioKind, Recommendation, ProposedChange, ChangeKind, add_constraint, add_index, alter_column,
  alter_query, alter_loading_strategy, add_procedure, change_topology, no_change,
}
use pgproof.MigrationPlan.Defs.{PlanStep, MigrationPlan, ids, topological_order, placed}
use pgproof.MigrationPlan.Expansion.{
  step_id, expand_proposed, expand_change, build_migration_plan, staged,
}
use pgproof.MigrationPlan.Validation.{IsWellFormed, IsWellFormed-validate_references}
use pgproof.MigrationPlan.Order.{
  IsRanked, IsTopological, topological_order-IsTopological, topological_order-acyclic,
}

step_id-injective : (a b : String) (m n : ℕ) → step_id a m ≡ step_id b n → (a ≡ b) × (m ≡ n)
unfolding step_id
step_id-injective a b m n e =
    let same : (text a ∷ number m ∷ []) ≡ (text b ∷ number n ∷ []) =
      frame_components-injective (text a ∷ number m ∷ []) (text b ∷ number n ∷ []) e in
    (cc same, cc same)

ids-append : (xs ys : List PlanStep) → ids (xs ++ ys) ≡ ids xs ++ ids ys
ids-append [] ys = refl
ids-append (x ∷ xs) ys = ap (λ r. x.id ∷ r) (ids-append xs ys)

ids-In :
    (x : String) (steps : List PlanStep)
    → In x (ids steps)
    → (s : PlanStep) × In s steps × (s.id ≡ x)
ids-In x [] m = elim m [ ]
ids-In x (s ∷ steps) (inl p) = (s, inl refl, sym p)
ids-In x (s ∷ steps) (inr m) = let (t, k, q) = ids-In x steps m in (t, inr k, q)

In-ids : (s : PlanStep) (steps : List PlanStep) → In s steps → In s.id (ids steps)
In-ids s [] m = elim m [ ]
In-ids s (t ∷ steps) (inl p) = inl (ap (λ (z : PlanStep). z.id) p)
In-ids s (t ∷ steps) (inr m) = inr (In-ids s steps m)

module _ (scenario : ScenarioKind) where
  -- What the steps of one recommendation look like.
  abbrev IsStepOf : Recommendation → PlanStep → Type 0
  IsStepOf r s =
      ((s.id ≡ step_id r.id 0) × (s.dependency_ids ≡ []))
      ⊎ ((s.id ≡ step_id r.id 1) × (s.dependency_ids ≡ step_id r.id 0 ∷ []))

  record Expands (r : Recommendation) (steps : List PlanStep) : Type 0 where
    shaped : (s : PlanStep) → In s steps → IsStepOf r s
    based : (s : PlanStep) (d : String) → In s steps → In d s.dependency_ids → In d (ids steps)
    once : Distinct (ids steps)

  one_step :
      (r : Recommendation) (s : PlanStep)
      → s.id ≡ step_id r.id 0
      → s.dependency_ids ≡ []
      → Expands r (s ∷ [])
  one_step r s e f = record {
    shaped = λ z m. elim m [ inl p ↦ rw p (inl (e, f)) | inr n ↦ elim n [ ] ];
    based = λ z d m k. elim m [
      | inl p ↦ elim (let n : In d [] = subst (λ (l : List String). In d l) f (rw p at k) in n) [ ]
      | inr n ↦ elim n [ ]
    ];
    once = (tt, tt);
  }

  two_steps :
      (r : Recommendation) (s t : PlanStep)
      → s.id ≡ step_id r.id 0
      → s.dependency_ids ≡ []
      → t.id ≡ step_id r.id 1
      → t.dependency_ids ≡ step_id r.id 0 ∷ []
      → Expands r (s ∷ t ∷ [])
  two_steps r s t e f g h = record {
    shaped = λ z m. elim m [
      | inl p ↦ rw p (inl (e, f))
      | inr (inl p) ↦ rw p (inr (g, h))
      | inr (inr n) ↦ elim n [ ]
    ];
    based = λ z d m k. elim m [
      | inl p ↦ elim (let n : In d [] = subst (λ (l : List String). In d l) f (rw p at k) in n) [ ]
      | inr (inl p) ↦
          elim (let n : In d (step_id r.id 0 ∷ []) =
              subst (λ (l : List String). In d l) h (rw p at k) in
            n) [ inl q ↦ inl (q ∙ sym e) | inr n ↦ elim n [ ] ]
      | inr (inr n) ↦ elim n [ ]
    ];
    once = (
      (
        λ p.
            let clash : 0 ≡ 1 = (step_id-injective r.id r.id 0 1 (sym e ∙ p ∙ g)).1 in
            absurd (omega (arith, clash)),
        tt,
      ),
      (tt, tt),
    );
  }

  staged-Expands :
      (r : Recommendation) (change : ProposedChange) (kind : ChangeKind)
      → Expands r (staged scenario r change kind)
  staged-Expands r change add_constraint = two_steps r _ _ refl refl refl refl
  staged-Expands r change add_index = one_step r _ refl refl
  staged-Expands r change alter_column = one_step r _ refl refl
  staged-Expands r change alter_query = one_step r _ refl refl
  staged-Expands r change alter_loading_strategy = one_step r _ refl refl
  staged-Expands r change add_procedure = one_step r _ refl refl
  staged-Expands r change change_topology = one_step r _ refl refl
  staged-Expands r change no_change = one_step r _ refl refl

  expand_proposed-Expands :
      (r : Recommendation) (proposed : Option ProposedChange)
      → Expands r (expand_proposed scenario r proposed)
  expand_proposed-Expands r none = record {
    shaped = λ s m. elim m [ ];
    based = λ s d m. elim m [ ];
    once = tt;
  }
  expand_proposed-Expands r (some change) = staged-Expands r change change.kind

  expand_change-Expands : (r : Recommendation) → Expands r (expand_change scenario r)
  unfolding expand_change
  expand_change-Expands r = expand_proposed-Expands r r.proposed_change

  abbrev all_steps : List Recommendation → List PlanStep
  all_steps rs = concat_map (expand_change scenario) rs

  -- A step belongs to a recommendation.
  owner :
      (rs : List Recommendation) (s : PlanStep)
      → In s (all_steps rs)
      → (r : Recommendation) × In r rs × In s (expand_change scenario r) × IsStepOf r s
  owner rs s m =
      let (r, given, here) = concat_map-In (expand_change scenario) s rs m in
      (r, given, here, (expand_change-Expands r).shaped s here)

  numbered : (r : Recommendation) (s : PlanStep) → IsStepOf r s → (n : ℕ) × (s.id ≡ step_id r.id n)
  numbered r s (inl (e, f)) = (0, e)
  numbered r s (inr (e, f)) = (1, e)

  Distinct-ids :
      (rs : List Recommendation) → Distinct (map (λ r. r.id) rs) → Distinct (ids (all_steps rs))
  Distinct-ids [] d = tt
  Distinct-ids (r ∷ rs) (fresh, d) = rw (ids-append (expand_change scenario r) (all_steps rs)) (
      Distinct-append (ids (expand_change scenario r)) (ids (all_steps rs))
        (expand_change-Expands r).once (Distinct-ids rs d)
        (λ x m y n same.
          let (s, here, p) = ids-In x (expand_change scenario r) m in
          let (t, there, q) = ids-In y (all_steps rs) n in
          let (other, given, _, shape) = owner rs t there in
          let (i, a) = numbered r s ((expand_change-Expands r).shaped s here) in
          let (j, b) = numbered other t shape in
          let named : r.id ≡ other.id =
            (step_id-injective r.id other.id i j (sym a ∙ p ∙ same ∙ sym q ∙ b)).0 in
          All-In (λ z. r.id ≢ z) other.id (map (λ z. z.id) rs) fresh
            (In-map (λ z. z.id) other rs given) named))

  all_steps-IsWellFormed :
      (rs : List Recommendation) → Distinct (map (λ r. r.id) rs) → IsWellFormed (all_steps rs)
  all_steps-IsWellFormed rs d = record {
    ids_once = Distinct-ids rs d;
    closed = λ s dep m k.
        let (r, given, here, _) = owner rs s m in
        let (t, base, p) =
          ids-In dep (expand_change scenario r) ((expand_change-Expands r).based s dep here k) in
        subst (λ (x : String). In x (ids (all_steps rs))) p
          (In-ids t (all_steps rs) (In-concat_map (expand_change scenario) r t rs given base));
  }

  -- The second step of a constraint has rank one, any other step rank zero.
  abbrev seconds : List Recommendation → List String
  seconds rs = map (λ r. step_id r.id 1) rs

  abbrev rank : List Recommendation → String → ℕ
  rank rs id = if contains id (seconds rs) then 1 else 0

  first_rank : (rs : List Recommendation) (r : Recommendation) → rank rs (step_id r.id 0) ≡ 0
  first_rank rs r = elim (Bool-cases (contains (step_id r.id 0) (seconds rs))) [
    | inl t ↦
        let (other, given, e) =
          map-In (λ z. step_id z.id 1) (step_id r.id 0) rs
            (contains→In (step_id r.id 0) (seconds rs) t) in
        let clash : 0 ≡ 1 = (step_id-injective r.id other.id 0 1 e).1 in
        absurd (omega (arith, clash))
    | inr f ↦ rw f refl
  ]

  second_rank :
      (rs : List Recommendation) (r : Recommendation) → In r rs → rank rs (step_id r.id 1) ≡ 1
  second_rank rs r m =
      let t : contains (step_id r.id 1) (seconds rs) ≡ true =
        In→contains (step_id r.id 1) (seconds rs) (In-map (λ z. step_id z.id 1) r rs m) in
      rw t refl

  descends :
      (rs : List Recommendation) (r : Recommendation) (s : PlanStep) (d : String)
      → In r rs
      → IsStepOf r s
      → In d s.dependency_ids
      → rank rs d < rank rs s.id
  descends rs r s d m (inl (e, f)) k =
      elim (let n : In d [] = subst (λ (l : List String). In d l) f k in n) [ ]
  descends rs r s d m (inr (e, f)) k =
      elim (let n : In d (step_id r.id 0 ∷ []) = subst (λ (l : List String). In d l) f k in n) [
        | inl p ↦
            omega (arith, ap (rank rs) p ∙ first_rank rs r, ap (rank rs) e ∙ second_rank rs r m)
        | inr n ↦ elim n [ ]
      ]

  all_steps-IsRanked : (rs : List Recommendation) → IsRanked (rank rs) (all_steps rs)
  all_steps-IsRanked rs s d m k =
      let (r, given, _, shape) = owner rs s m in descends rs r s d given shape k

-- Recommendations with different ids always build a plan that the validator accepts; it has an
-- order, in which each step stands behind what it depends on.
pub build_migration_plan-orders :
    (scenario : ScenarioKind) (rs : List Recommendation)
    → Distinct (map (λ r. r.id) rs)
    → (plan : MigrationPlan) × (order : List String) × (build_migration_plan scenario rs ≡ ok plan)
      × (topological_order plan ≡ ok order)
      × IsTopological (concat_map (expand_change scenario) rs) order
unfolding build_migration_plan
build_migration_plan-orders scenario rs d =
    let steps = all_steps scenario rs in
    let plan : MigrationPlan = record { steps = steps } in
    let valid = IsWellFormed-validate_references steps (all_steps-IsWellFormed scenario rs d) in
    let ordered =
      topological_order-acyclic steps plan (rank scenario rs) valid
        (all_steps-IsRanked scenario rs) in
    (
      plan,
      placed steps,
      valid,
      ordered,
      topological_order-IsTopological steps plan (placed steps) valid ordered,
    )
