-- ===== src/MigrationPlan/Order.antt =====
-- `topological_order` places every step after its dependencies, and fails only on a cycle.
use pgproof.Common.{
  ℕ, zero, suc, ◌+◌, ◌≤◌, ◌<◌, String, Bool, true, false, not, List, [], ◌∷◌, ◌≡◌, refl, sym, ap,
  ◌∙◌, inl, inr, arith, eqn, text_equality, if◌then◌else◌, push, contains, contains→In, In→contains,
  In, Distinct, Bool-cases, length, length-append, ok, raise,
}
use pgproof.Common.Dict.{Dict, get_or}
use pgproof.Common.Sorting.{sort_by, text_le, sort_by-In, sort_by-nil}
use pgproof.Common.Pigeonhole.{length-le_of_In, In-of_full}
use pgproof.MigrationPlan.Defs.{
  PlanStep, MigrationPlan, PlanError, ids, validate_references, lower, free, kahn, counters, placed,
  topological_order,
}
use pgproof.MigrationPlan.Edges.{Edges, all_edges, In-all_edges, all_edges-In}
use pgproof.MigrationPlan.Degrees.{counters-Agree, keys-counters}
use pgproof.MigrationPlan.Loop.{Loop, Reads, IsOrdered, IsFree-free, all_placed-zero, Loop-round}
use pgproof.MigrationPlan.Validation.{IsWellFormed, length-ids, validate_references-IsWellFormed}

-- What the loop leaves when it ends by its own test: nothing is free any more.
record Ends (known : List String) (es : Edges) (out : List String) : Type 0 where
  degrees : Dict String ℕ
  state : Loop known es out degrees
  done : free out degrees ≡ []

module _ {known : List String} {es : Edges} {dependents : Dict String (List String)}
    (reads : Reads known es dependents) where
  kahn-Ends :
      (fuel : ℕ) (order : List String) (degrees : Dict String ℕ) (ready : List String)
      → ready ≡ sort_by text_le (free order degrees)
      → length known ≤ fuel + length order
      → Loop known es order degrees
      → Ends known es (kahn fuel dependents degrees ready order)
  unfolding kahn
  kahn-Ends fuel order degrees [] e enough h = record {
    degrees = degrees;
    state = h;
    done = sort_by-nil text_le (free order degrees) (sym e);
  }
  kahn-Ends zero order degrees (current ∷ ready) e enough h =
      let next =
        Loop-round reads order degrees current h
          (sort_by-In text_le current (free order degrees) (rw (← e) (inl refl))) in
      absurd (
        omega (
          arith,
          length-le_of_In (push order current) known next.once next.named,
          length-append order (current ∷ []),
        ))
  kahn-Ends (suc fuel) order degrees (current ∷ ready) e enough h =
      let next =
        Loop-round reads order degrees current h
          (sort_by-In text_le current (free order degrees) (rw (← e) (inl refl))) in
      kahn-Ends fuel (push order current) (lower (get_or [] current dependents) degrees)
        (sort_by text_le (free (push order current) (lower (get_or [] current dependents) degrees)))
        refl (omega (arith, length-append order (current ∷ []))) next

placed-Ends : (steps : List PlanStep) → Ends (ids steps) (all_edges steps []) (placed steps)
unfolding placed
placed-Ends steps =
    let c = counters steps in
    let a = counters-Agree steps in
    let reads : Reads (ids steps) (all_edges steps []) c.dependents = record {
      counted = a.dependents;
      steps = a.named;
    } in
    kahn-Ends reads (length steps) [] c.indegree (sort_by text_le (free [] c.indegree)) refl
      (omega (arith, length-ids steps))
      (record {
        degree = a.degree;
        keys_once = a.keys_once;
        keys_named = a.keys_named;
        keys_all = keys-counters steps;
        once = tt;
        named = λ s m. elim m [ ];
        ordered = tt;
      })

-- Each step of `order` stands behind `seen` and the steps before it, which hold its dependencies.
abbrev pub Follows : List PlanStep → List String → List String → Type 0
Follows steps seen [] = Unit
Follows steps seen (x ∷ xs) =
    ((step : PlanStep)
      → In step steps
      → x ≡ step.id
      → (d : String) → In d step.dependency_ids
      → In d seen)
    × Follows steps (x ∷ seen) xs

IsOrdered-Follows :
    (steps : List PlanStep) (seen order : List String)
    → IsOrdered (all_edges steps []) seen order
    → Follows steps seen order
IsOrdered-Follows steps seen [] h = tt
IsOrdered-Follows steps seen (x ∷ xs) h = (
  λ step m p d n. h.0 d (rw p (In-all_edges steps [] step d m n)),
  IsOrdered-Follows steps (x ∷ seen) xs h.1,
)

-- What a caller is promised of an order of the plan's steps.
pub record IsTopological (steps : List PlanStep) (order : List String) : Type 0 where
  pub once : Distinct order
  pub complete : (s : String) → In s (ids steps) → In s order
  pub sound : (s : String) → In s order → In s (ids steps)
  pub follows : Follows steps [] order

taken :
    (b : Bool) (e : PlanError) (o order : List String)
    → (if not b then raise e else ok o) ≡ ok order
    → (b ≡ true) × (order ≡ o)
taken true e o order h = (refl, cc)
taken false e o order h = (cc, cc)

topological_order-eq-ok :
    (plan : MigrationPlan) (order : List String)
    → topological_order plan ≡ ok order
    → (order ≡ placed plan.steps) × (length order ≡ length plan.steps)
unfolding topological_order
topological_order-eq-ok plan order h =
    let (full, same) = taken (eqn (length (placed plan.steps)) (length plan.steps)) _ _ order h in
    (
      same,
      ap (λ (o : List String). length o) same
          ∙ same_length (length (placed plan.steps)) (length plan.steps) full,
    )
  where
    same_length : (m n : ℕ) → eqn m n ≡ true → m ≡ n
    same_length m n h = ground arith

-- An order that the function returns for a plan that the validator accepted has each step once,
-- and each step behind all of its dependencies.
pub topological_order-IsTopological :
    (steps : List PlanStep) (plan : MigrationPlan) (order : List String)
    → validate_references steps ≡ ok plan
    → topological_order plan ≡ ok order
    → IsTopological steps order
topological_order-IsTopological steps plan order valid h =
    let v = validate_references-IsWellFormed steps valid in
    let (is_placed, full) =
      topological_order-eq-ok (record { steps = steps }) order (rw v.1 at h) in
    let e = (placed-Ends steps).state in
    rw is_placed (record {
      once = e.once;
      complete =
          In-of_full (placed steps) (ids steps) e.once e.named
            (omega (arith, length-ids steps, ap (λ (o : List String). length o) is_placed, full));
      sound = e.named;
      follows = IsOrdered-Follows steps [] (placed steps) e.ordered;
    })

-- Every dependency has a lower rank than the step that needs it: there is no cycle.
abbrev pub IsRanked : (String → ℕ) → List PlanStep → Type 0
IsRanked rank steps =
    (step : PlanStep) (d : String)
    → In step steps
    → In d step.dependency_ids
    → rank d < rank step.id

module _ (steps : List PlanStep) (well : IsWellFormed steps) (rank : String → ℕ)
    (ranked : IsRanked rank steps) where
  all_placed : (n : ℕ) (s : String) → rank s < n → In s (ids steps) → In s (placed steps)
  all_placed zero s lt m = elim lt [ ]
  all_placed (suc n) s lt m =
      let e = placed-Ends steps in
      elim (Bool-cases (contains s (placed steps))) [
        | inl t ↦ contains→In s (placed steps) t
        | inr f ↦
            let closed : (d : String)
                → In (s, d) (all_edges steps [])
                → contains d (placed steps) ≡ true =
              λ d k. elim (all_edges-In steps [] s d k) [
                | inl edge ↦ In→contains d (placed steps) (
                    all_placed n d
                      (let r : rank d < rank edge.step.id =
                          ranked edge.step d edge.given edge.depends in
                        let q : rank s ≡ rank edge.step.id = ap rank edge.name in omega arith)
                      (well.closed edge.step d edge.given edge.depends))
                | inr none_left ↦ elim none_left [ ]
              ] in
            let there = IsFree-free (placed steps) e.degrees s e.state.keys_once (record {
              key = e.state.keys_all s m;
              closed =
                  e.state.degree s ∙ all_placed-zero (placed steps) s (all_edges steps []) closed;
              unplaced = f;
            }) in
            let nowhere : In s [] = rw e.done at there in elim nowhere [ ]
      ]

  placed-length : length (placed steps) ≡ length steps
  placed-length =
      let e = placed-Ends steps in
      omega (
        arith,
        length-ids steps,
        length-le_of_In (placed steps) (ids steps) e.state.once e.state.named,
        length-le_of_In (ids steps) (placed steps) well.ids_once
            (λ s m. all_placed (suc (rank s)) s (omega arith) m),
      )

-- A plan that the validator accepts and whose dependencies descend in some rank is ordered: the
-- loop places every step, and no cycle is reported.
pub topological_order-acyclic :
    (steps : List PlanStep) (plan : MigrationPlan) (rank : String → ℕ)
    → validate_references steps ≡ ok plan
    → IsRanked rank steps
    → topological_order plan ≡ ok (placed steps)
unfolding topological_order
topological_order-acyclic steps plan rank valid ranked =
    let v = validate_references-IsWellFormed steps valid in
    rw v.1 (ground (arith, placed-length steps v.0 rank ranked))
