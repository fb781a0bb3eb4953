-- ===== src/Migrations/Cycles.antt =====
-- The search for a cycle always ends, and it finds none exactly where no revision precedes itself.
use pgproof.Common.{
  ℕ, zero, suc, ◌+◌, ◌≤◌, String, true, false, Option, none, some, List, [], ◌∷◌, ◌≡◌, ◌≢◌, ◌↔◌,
  inl, inr, refl, sym, ap, ◌∙◌, subst, arith, In, Distinct, All-of_In, Distinct-push, In-push_cases,
  ◌==◌, text_equality, length, length-append, push, contains, contains→In, In→contains, Bool-cases,
  Option-cases, eq_of_test,
}
use pgproof.Common.Dict.{Dict, get, get_or, keys}
use pgproof.Common.Pigeonhole.{length-le_of_In}
use pgproof.Migrations.Defs.{RevisionInfo}
use pgproof.Migrations.Graph.{parents_of, from_node, first_found, walk, find_cycle}
use pgproof.Migrations.Search.{
  from_node-ne, first_found-none_found, first_found-found, first_found-returns,
}

-- `q` precedes `x`, over one predecessor or more.
pub data IsAbove (parents : Dict String (List String)) : String → String → Type 0 where
  parent : {q x : String} → In q (get_or [] x parents) → IsAbove parents q x
  further :
      {q p x : String} → In p (get_or [] x parents) → IsAbove parents q p → IsAbove parents q x

-- No chain of predecessors goes on for ever.
pub data IsGrounded (parents : Dict String (List String)) : String → Type 0 where
  grounded :
      {x : String}
      → ((p : String) → In p (get_or [] x parents) → IsGrounded parents p)
      → IsGrounded parents x

pub keys-get_text {ℓ} :
    {V : Type ℓ} (id : String) (d : Dict String V) (v : V) → get id d ≡ some v → In id (keys d)
unfolding get
keys-get_text id [] v h = cc h
keys-get_text id ((k, w) ∷ d) v h = elim (Bool-cases (k == id)) [
  | inl t ↦ inl (sym (eq_of_test k id t))
  | inr f ↦ inr (keys-get_text id d v (rw f at h))
]

pub get_or-some {ℓ} :
    {V : Type ℓ} (fallback : V) (id : String) (d : Dict String V) (v : V)
    → get id d ≡ some v
    → get_or fallback id d ≡ v
get_or-some fallback id d v e = rw (e, get_or) refl

pub get_or-none {ℓ} :
    {V : Type ℓ} (fallback : V) (id : String) (d : Dict String V)
    → get id d ≡ none
    → get_or fallback id d ≡ fallback
get_or-none fallback id d e = rw (e, get_or) refl

module _ (parents : Dict String (List String)) where
  pub IsAbove-last :
      (q p x : String) → IsAbove parents p x → In q (get_or [] p parents) → IsAbove parents q x
  IsAbove-last q p x (parent m) k = further m (parent k)
  IsAbove-last q p x (further m above) k = further m (IsAbove-last q _ _ above k)

  pub IsGrounded-no_loop : (x : String) → IsGrounded parents x → ¬ (IsAbove parents x x)
  IsGrounded-no_loop x (grounded below) (parent m) = IsGrounded-no_loop x (below x m) (parent m)
  IsGrounded-no_loop x (grounded below) (further {p = p} m above) =
      IsGrounded-no_loop p (below p m) (IsAbove-last p x p above m)

  module _ (fuel : ℕ) (node : String) (stack : List String) where
    walk-out : walk parents zero node stack ≡ none
    unfolding walk
    walk-out = refl

    walk-seen :
        contains node stack ≡ true
        → walk parents (suc fuel) node stack ≡ some (from_node node stack)
    unfolding walk
    walk-seen t = rw t refl

    walk-unknown :
        contains node stack ≡ false
        → get node parents ≡ none
        → walk parents (suc fuel) node stack ≡ some []
    unfolding walk
    walk-unknown f n = rw (f, n) refl

    walk-known :
        (ps : List String)
        → contains node stack ≡ false
        → get node parents ≡ some ps
        → walk parents (suc fuel) node stack
          ≡ first_found (λ p. walk parents fuel p (push stack node)) ps
    unfolding walk
    walk-known ps f e = rw (f, e) refl

  unknown-IsGrounded : (x : String) → get x parents ≡ none → IsGrounded parents x
  unknown-IsGrounded x n =
      grounded
        (λ p m. elim (subst (λ (l : List String). In p l) (get_or-none [] x parents n) m) [ ])

  -- Where the walk finds nothing, no chain of predecessors goes on for ever.
  walk-IsGrounded :
      (fuel : ℕ) (node : String) (stack : List String)
      → walk parents fuel node stack ≡ some []
      → IsGrounded parents node
  walk-IsGrounded zero node stack h = cc (walk-out zero node stack, h)
  walk-IsGrounded (suc fuel) node stack h = elim (Bool-cases (contains node stack)) [
    | inl t ↦
        let k : some (from_node node stack) ≡ some [] = sym (walk-seen fuel node stack t) ∙ h in
        absurd (from_node-ne node stack t (cc k))
    | inr f ↦ elim (Option-cases (get node parents)) [
      | inl n ↦ unknown-IsGrounded node n
      | inr (ps, e) ↦ grounded (λ p m. walk-IsGrounded fuel p (push stack node) (
          first_found-none_found (λ x. walk parents fuel x (push stack node)) ps
            (sym (walk-known fuel node stack ps f e) ∙ h) p
            (subst (λ (l : List String). In p l) (get_or-some [] node parents ps e) m)))
    ]
  ]

  -- A cycle that is found goes through a revision that precedes itself.
  walk-loop :
      (fuel : ℕ) (node : String) (stack : List String) (y : String) (ys : List String)
      → ((s : String) → In s stack → IsAbove parents node s)
      → walk parents fuel node stack ≡ some (y ∷ ys)
      → (x : String) × IsAbove parents x x
  walk-loop zero node stack y ys chain h = cc (walk-out zero node stack, h)
  walk-loop (suc fuel) node stack y ys chain h = elim (Bool-cases (contains node stack)) [
    | inl t ↦ (node, chain node (contains→In node stack t))
    | inr f ↦ elim (Option-cases (get node parents)) [
      | inl n ↦ cc (walk-unknown fuel node stack f n, h)
      | inr (ps, e) ↦
          let (p, m, found) =
            first_found-found (λ x. walk parents fuel x (push stack node)) ps y ys
              (sym (walk-known fuel node stack ps f e) ∙ h) in
          let l : In p (get_or [] node parents) =
            subst (λ (r : List String). In p r) (sym (get_or-some [] node parents ps e)) m in
          walk-loop fuel p (push stack node) y ys
            (λ s n. elim (In-push_cases s node stack n) [
              | inl old ↦ IsAbove-last p node s (chain s old) l
              | inr same ↦ subst (λ (z : String). IsAbove parents p z) (sym same) (parent l)
            ])
            found
    ]
  ]

  -- A stack of known revisions, each once.
  abbrev IsStack : List String → Type 0
  IsStack stack = Distinct stack × ((s : String) → In s stack → In s (keys parents))

  push-IsStack :
      (node : String) (stack ps : List String)
      → IsStack stack
      → contains node stack ≡ false
      → get node parents ≡ some ps
      → IsStack (push stack node)
  push-IsStack node stack ps (once, known) f e = (
    Distinct-push stack node once (
        All-of_In (λ y. y ≢ node) stack
          (λ y m same. cc (In→contains node stack (subst (λ (z : String). In z stack) same m), f))),
    λ s n. elim (In-push_cases s node stack n) [
      | inl old ↦ known s old
      | inr same ↦
          subst (λ (z : String). In z (keys parents)) (sym same) (keys-get_text node parents ps e)
    ],
  )

  walk-returns_by :
      (fuel : ℕ) (node : String) (stack : List String)
      → ((ps : List String)
          → contains node stack ≡ false
          → get node parents ≡ some ps
          → (r : List String) × (first_found (λ p. walk parents fuel p (push stack node)) ps
              ≡ some r))
      → (r : List String) × (walk parents (suc fuel) node stack ≡ some r)
  walk-returns_by fuel node stack above = elim (Bool-cases (contains node stack)) [
    | inl t ↦ (from_node node stack, walk-seen fuel node stack t)
    | inr f ↦ elim (Option-cases (get node parents)) [
      | inl n ↦ ([], walk-unknown fuel node stack f n)
      | inr (ps, e) ↦ let (r, k) = above ps f e in (r, walk-known fuel node stack ps f e ∙ k)
    ]
  ]

  walk-returns :
      (fuel : ℕ) (node : String) (stack : List String)
      → IsStack stack
      → length (keys parents) ≤ fuel + length stack
      → (r : List String) × (walk parents (suc fuel) node stack ≡ some r)
  walk-returns zero node stack good enough = walk-returns_by zero node stack (λ ps f e.
      let next = push-IsStack node stack ps good f e in
      absurd (
        omega (
          arith,
          length-le_of_In (push stack node) (keys parents) next.0 next.1,
          length-append stack (node ∷ []),
          enough,
        )))
  walk-returns (suc fuel) node stack good enough = walk-returns_by (suc fuel) node stack (λ ps f e.
      first_found-returns (λ p. walk parents (suc fuel) p (push stack node)) ps
        (λ p m.
          walk-returns fuel p (push stack node) (push-IsStack node stack ps good f e)
            (omega (arith, length-append stack (node ∷ []), enough))))

  walk_all-IsGrounded :
      (fuel : ℕ)
      → ((x : String) → In x (keys parents) → walk parents fuel x [] ≡ some [])
      → (x : String) → IsGrounded parents x
  walk_all-IsGrounded fuel h x = elim (Option-cases (get x parents)) [
    | inl n ↦ unknown-IsGrounded x n
    | inr (ps, e) ↦ walk-IsGrounded fuel x [] (h x (keys-get_text x parents ps e))
  ]

  no_walk_found :
      (fuel : ℕ) (starts found : List String)
      → first_found (λ start. walk parents fuel start []) starts ≡ some found
      → ((x : String) → ¬ (IsAbove parents x x))
      → found ≡ []
  no_walk_found fuel starts [] e acyclic = refl
  no_walk_found fuel starts (y ∷ ys) e acyclic =
      let (p, m, k) = first_found-found (λ start. walk parents fuel start []) starts y ys e in
      let (x, loop) = walk-loop fuel p [] y ys (λ s n. elim n [ ]) k in absurd (acyclic x loop)

-- The search for a cycle always ends; it reports none exactly where no revision precedes itself.
pub find_cycle-IsAcyclic :
    (revisions : List RevisionInfo)
    → (found : List String) × (find_cycle revisions ≡ some found)
      × ((found ≡ []) ↔ ((x : String) → ¬ (IsAbove (parents_of revisions) x x)))
unfolding find_cycle
find_cycle-IsAcyclic revisions =
    let parents = parents_of revisions in
    let fuel = suc (length (keys parents)) in
    let search : String → Option (List String) = λ start. walk parents fuel start [] in
    let (found, e) = first_found-returns search (keys parents) (λ x m.
      walk-returns parents (length (keys parents)) x [] (tt, λ s n. elim n [ ]) (omega arith)) in
    (
      found,
      e,
      (
        λ empty x. IsGrounded-no_loop parents x (
            walk_all-IsGrounded parents fuel
              (λ y m. first_found-none_found search (keys parents) (e ∙ ap some empty) y m) x),
        λ acyclic. no_walk_found parents fuel (keys parents) found e acyclic,
      ),
    )
