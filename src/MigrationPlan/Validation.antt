-- ===== src/MigrationPlan/Validation.antt =====
-- What a plan that the validator accepts satisfies.
use pgproof.Common.{
  suc, String, false, not, List, [], ◌∷◌, ◌≡◌, refl, sym, ap, ◌∙◌, ◌≢◌, inl, inr, arith,
  text_equality, contains, contains→In, In→contains, In, Distinct, Bool-cases, length, keep,
  In-keep, keep-nil, In-append_left, In-append_right, ok,
}
use pgproof.Common.Sets.{unique, In-unique, unique-Distinct, Distinct-of_length}
use pgproof.Common.Sorting.{sort_by, text_le, In-sort_by}
use pgproof.MigrationPlan.Defs.{PlanStep, MigrationPlan, ids, dangling_of, validate_references}

In-dangling_of :
    (known : List String) (steps : List PlanStep) (step : PlanStep) (dep : String)
    → In step steps
    → In dep step.dependency_ids
    → contains dep known ≡ false
    → In dep (dangling_of known steps)
unfolding dangling_of
In-dangling_of known [] step dep m n h = elim m [ ]
In-dangling_of known (s ∷ steps) step dep (inl p) n h =
    In-append_left dep (keep (λ d. not (contains d known)) s.dependency_ids)
      (dangling_of known steps)
      (rw (← p) (In-keep (λ d. not (contains d known)) dep step.dependency_ids n (rw h)))
In-dangling_of known (s ∷ steps) step dep (inr m) n h =
    In-append_right dep (keep (λ d. not (contains d known)) s.dependency_ids)
      (dangling_of known steps) (In-dangling_of known steps step dep m n h)

length-of_In : (x : String) (xs : List String) → In x xs → length xs ≢ 0
length-of_In x [] m = elim m [ ]
length-of_In x (y ∷ ys) m = omega arith

-- The ids are unique, and every dependency is a step.
pub record IsWellFormed (steps : List PlanStep) : Type 0 where
  pub ids_once : Distinct (ids steps)
  pub closed :
      (step : PlanStep) (dep : String)
      → In step steps
      → In dep step.dependency_ids
      → In dep (ids steps)

pub length-ids : (steps : List PlanStep) → length (ids steps) ≡ length steps
length-ids [] = refl
length-ids (step ∷ steps) = ap suc (length-ids steps)

dangling_set : List PlanStep → List String
dangling_set steps = sort_by text_le (unique (dangling_of (ids steps) steps))

pub validate_references-IsWellFormed :
    (steps : List PlanStep) {plan : MigrationPlan}
    → validate_references steps ≡ ok plan
    → IsWellFormed steps × (plan ≡ record { steps = steps })
unfolding validate_references
validate_references-IsWellFormed steps {plan} h =
    let same : length (unique (ids steps)) ≡ length steps = ground arith in
    let nothing : length (sort_by text_le (unique (dangling_of (ids steps) steps))) ≡ 0 =
      ground arith in
    (
      record {
        ids_once = Distinct-of_length (ids steps) (same ∙ sym (length-ids steps));
        closed = λ step dep m n. elim (Bool-cases (contains dep (ids steps))) [
          | inl t ↦ contains→In dep (ids steps) t
          | inr f ↦
              let found = In-dangling_of (ids steps) steps step dep m n f in
              absurd (
                length-of_In dep (sort_by text_le (unique (dangling_of (ids steps) steps)))
                  (In-sort_by text_le dep (unique (dangling_of (ids steps) steps))
                    (In-unique dep (dangling_of (ids steps) steps) found))
                  nothing)
        ];
      },
      ground arith,
    )

dangling_of-nil :
    (known : List String) (steps : List PlanStep)
    → ((step : PlanStep) (dep : String) → In step steps → In dep step.dependency_ids → In dep known)
    → dangling_of known steps ≡ []
unfolding dangling_of
dangling_of-nil known [] closed = refl
dangling_of-nil known (step ∷ steps) closed =
    rw
      (
        keep-nil (λ dep. not (contains dep known)) step.dependency_ids
            (λ dep m. ap not (In→contains dep known (closed step dep (inl refl) m))),
        dangling_of-nil known steps (λ other dep m. closed other dep (inr m)),
      )
      refl

-- The validator accepts every plan that satisfies that.
pub IsWellFormed-validate_references :
    (steps : List PlanStep)
    → IsWellFormed steps
    → validate_references steps ≡ ok (record { steps = steps })
unfolding validate_references unique sort_by
IsWellFormed-validate_references steps well =
    rw
      (
        unique-Distinct (ids steps) well.ids_once,
        length-ids steps,
        dangling_of-nil (ids steps) steps well.closed,
      )
      (ground arith)
