-- ===== src/Migrations/Order.antt =====
-- The order of the replay: every revision once, each behind its predecessors.
use pgproof.Common.{
  ℕ, zero, suc, String, true, false, Option, none, some, List, [], ◌∷◌, ◌≡◌, ◌≢◌, ◌⊎◌, inl, inr,
  refl, sym, subst, arith, In, Distinct, All-of_In, Distinct-push, In-push, In-push_cases,
  In-push_last, text_equality, push, contains, contains→In, In→contains, Bool-cases, Option-cases,
  Result, ok, >>=-eq-ok, ◌>>=◌,
}
use pgproof.Common.Dict.{Dict, get, get_or}
use pgproof.Migrations.Defs.{ReplayError}
use pgproof.Migrations.Graph.{Visit, visit_all, visit}
use pgproof.Migrations.Cycles.{IsAbove, parent, IsAbove-last, get_or-some}

-- `a` stands before `b`.
abbrev pub IsBefore : String → String → List String → Type 0
IsBefore a b [] = ⊥
IsBefore a b (x ∷ xs) = ((x ≡ a) × In b xs) ⊎ IsBefore a b xs

IsBefore-push : (a b y : String) (xs : List String) → IsBefore a b xs → IsBefore a b (push xs y)
IsBefore-push a b y [] h = elim h [ ]
IsBefore-push a b y (x ∷ xs) (inl (e, m)) = inl (e, In-push b y xs m)
IsBefore-push a b y (x ∷ xs) (inr h) = inr (IsBefore-push a b y xs h)

IsBefore-last : (a b : String) (xs : List String) → In a xs → IsBefore a b (push xs b)
IsBefore-last a b [] m = elim m [ ]
IsBefore-last a b (x ∷ xs) (inl e) = inl (sym e, In-push_last b xs)
IsBefore-last a b (x ∷ xs) (inr m) = inr (IsBefore-last a b xs m)

module _ (parents : Dict String (List String)) where
  -- Each ordered revision stands once, behind its predecessors.
  pub record IsOrder (order : List String) : Type 0 where
    pub once : Distinct order
    pub follows : (x p : String) → In x order → In p (get_or [] x parents) → IsBefore p x order

  pub record Sound (s : Visit) : Type 0 where
    pub order : IsOrder s.ordered
    pub within : (x : String) → In x s.ordered → In x s.seen

  pub record Steps (s t : Visit) : Type 0 where
    pub sound : Sound t
    seen_more : (x : String) → In x s.seen → In x t.seen
    kept : (x : String) → In x s.ordered → In x t.ordered
    fresh : (x : String) → In x t.ordered → In x s.ordered ⊎ (¬ (In x s.seen))
    open_less :
        (x : String) → In x t.seen → (¬ (In x t.ordered)) → In x s.seen × (¬ (In x s.ordered))

  refl-Steps : (s : Visit) → Sound s → Steps s s
  refl-Steps s h = record {
    sound = h;
    seen_more = λ x m. m;
    kept = λ x m. m;
    fresh = λ x m. inl m;
    open_less = λ x m n. (m, n);
  }

  trans-Steps : (s t u : Visit) → Steps s t → Steps t u → Steps s u
  trans-Steps s t u a b = record {
    sound = b.sound;
    seen_more = λ x m. b.seen_more x (a.seen_more x m);
    kept = λ x m. b.kept x (a.kept x m);
    fresh =
        λ x m. elim (b.fresh x m) [ inl k ↦ a.fresh x k | inr n ↦ inr (λ k. n (a.seen_more x k)) ];
    open_less = λ x m n. let (k, l) = b.open_less x m n in a.open_less x k l;
  }

  -- Every revision whose visit has begun and not ended comes before none but is above `p`.
  abbrev pub Chain : String → Visit → Type 0
  Chain p s = (x : String) → In x s.seen → (¬ (In x s.ordered)) → IsAbove parents p x

  abbrev pub Does : (String → Visit → Result ReplayError (Option Visit)) → Type 0
  Does step =
      (p : String) (s t : Visit)
      → Sound s
      → Chain p s
      → step p s ≡ ok (some t)
      → Steps s t × In p t.ordered

  visit_all-cases :
      (step : String → Visit → Result ReplayError (Option Visit)) (p : String) (ps : List String)
      (s t : Visit)
      → visit_all step (p ∷ ps) s ≡ ok (some t)
      → (u : Visit) × (step p s ≡ ok (some u)) × (visit_all step ps u ≡ ok (some t))
  unfolding visit_all
  visit_all-cases step p ps s t e =
      let (next, first, later) = >>=-eq-ok (step p s) _ e in by_next next first later
    where
      by_next :
          (next : Option Visit)
          → step p s ≡ ok next
          → (elim next [ none ↦ ok none | some u ↦ visit_all step ps u ]) ≡ ok (some t)
          → (u : Visit) × (step p s ≡ ok (some u)) × (visit_all step ps u ≡ ok (some t))
      by_next none first later = cc later
      by_next (some u) first later = (u, first, later)

  abbrev pub entered : String → Visit → Visit
  entered id s = record s { seen = id ∷ s.seen }

  abbrev pub left : String → Visit → Visit
  left id s = record s { ordered = push s.ordered id }

  record Entry (fuel : ℕ) (id : String) (s t : Visit) : Type 0 where
    new : contains id s.seen ≡ false
    above : List String
    known : get id parents ≡ some above
    last : Visit
    visited : visit_all (visit parents fuel) above (entered id s) ≡ ok (some last)
    after : left id last ≡ t

  visit-cases :
      (fuel : ℕ) (id : String) (s t : Visit)
      → visit parents (suc fuel) id s ≡ ok (some t)
      → ((contains id s.seen ≡ true) × (s ≡ t)) ⊎ Entry fuel id s t
  unfolding visit
  visit-cases fuel id s t e = elim (Bool-cases (contains id s.seen)) [
    | inl seen ↦ inl (seen, ground (arith, seen, e))
    | inr f ↦ elim (Option-cases (get id parents)) [
      | inl n ↦ ground (arith, f, n, e)
      | inr (ps, k) ↦
          let run : (visit_all (visit parents fuel) ps (entered id s)
                >>= (λ last. ok (elim last [ none ↦ none | some u ↦ some (left id u) ])))
              ≡ ok (some t) =
            ground (arith, f, k, e) in
          let (last, first, later) =
            >>=-eq-ok (visit_all (visit parents fuel) ps (entered id s)) _ run in
          inr (by_last f ps k last first (cc later))
    ]
  ]
    where
      by_last :
          contains id s.seen ≡ false
          → (ps : List String) → get id parents ≡ some ps
          → (last : Option Visit) → visit_all (visit parents fuel) ps (entered id s) ≡ ok last
          → (elim last [ none ↦ none | some u ↦ some (left id u) ]) ≡ some t
          → Entry fuel id s t
      by_last f ps k none first later = cc later
      by_last f ps k (some u) first later = record {
        new = f;
        above = ps;
        known = k;
        last = u;
        visited = first;
        after = cc later;
      }

  visit_all-Steps :
      (step : String → Visit → Result ReplayError (Option Visit))
      → Does step
      → (ps : List String) (s t : Visit) → Sound s
      → ((p : String) → In p ps → Chain p s)
      → visit_all step ps s ≡ ok (some t)
      → Steps s t × ((p : String) → In p ps → In p t.ordered)
  unfolding visit_all
  visit_all-Steps step does [] s t h chain e =
      let same : s ≡ t = cc e in
      (subst (λ (z : Visit). Steps s z) same (refl-Steps s h), λ p m. elim m [ ])
  visit_all-Steps step does (p ∷ ps) s t h chain e =
      let (u, first, later) = visit_all-cases step p ps s t e in
      let (a, here) = does p s u h (chain p (inl refl)) first in
      let (b, rest) =
        visit_all-Steps step does ps u t a.sound
          (λ q m x seen n.
            let (old, unordered) = a.open_less x seen n in chain q (inr m) x old unordered)
          later in
      (
        trans-Steps s u t a b,
        λ q m. elim m [
          | inl same ↦ b.kept q (subst (λ (z : String). In z u.ordered) (sym same) here)
          | inr k ↦ rest q k
        ],
      )

  -- A visit that has entered `id` and seen to its predecessors ends by ordering it.
  leave :
      (id : String) (s u : Visit) (above : List String)
      → (¬ (In id s.seen))
      → Sound s
      → get id parents ≡ some above
      → Steps (entered id s) u
      → ((p : String) → In p above → In p u.ordered)
      → Steps s (left id u)
  leave id s u above new h known a below =
      let unordered : ¬ (In id u.ordered) =
        λ m. elim (a.fresh id m) [ inl old ↦ new (h.within id old) | inr n ↦ n (inl refl) ] in
      record {
        sound = record {
          order = record {
            once = Distinct-push u.ordered id a.sound.order.once (
                All-of_In (λ y. y ≢ id) u.ordered
                  (λ y m same. unordered (subst (λ (z : String). In z u.ordered) same m)));
            follows = λ x p m k. elim (In-push_cases x id u.ordered m) [
              | inl old ↦ IsBefore-push p x id u.ordered (a.sound.order.follows x p old k)
              | inr same ↦
                  subst (λ (z : String). IsBefore p z (push u.ordered id)) (sym same)
                    (IsBefore-last p id u.ordered (
                      below p (
                        subst (λ (l : List String). In p l) (get_or-some [] id parents above known)
                          (subst (λ (z : String). In p (get_or [] z parents)) same k))))
            ];
          };
          within = λ x m. elim (In-push_cases x id u.ordered m) [
            | inl old ↦ a.sound.within x old
            | inr same ↦ subst (λ (z : String). In z u.seen) (sym same) (a.seen_more id (inl refl))
          ];
        };
        seen_more = λ x m. a.seen_more x (inr m);
        kept = λ x m. In-push x id u.ordered (a.kept x m);
        fresh = λ x m. elim (In-push_cases x id u.ordered m) [
          | inl k ↦ elim (a.fresh x k) [ inl old ↦ inl old | inr n ↦ inr (λ old. n (inr old)) ]
          | inr same ↦ inr (λ old. new (subst (λ (z : String). In z s.seen) same old))
        ];
        open_less = λ x m n.
            let (k, l) = a.open_less x m (λ o. n (In-push x id u.ordered o)) in
            (
              elim k [
                | inl same ↦ absurd (
                    n (
                      subst (λ (z : String). In z (push u.ordered id)) (sym same)
                        (In-push_last id u.ordered)))
                | inr old ↦ old
              ],
              l,
            );
      }

  module _ (acyclic : (x : String) → ¬ (IsAbove parents x x)) where
    in_order : (id : String) (s : Visit) → Chain id s → In id s.seen → In id s.ordered
    in_order id s chain m = elim (Bool-cases (contains id s.ordered)) [
      | inl t ↦ contains→In id s.ordered t
      | inr f ↦ absurd (acyclic id (chain id m (λ k. cc (In→contains id s.ordered k, f))))
    ]

    entered-Sound : (id : String) (s : Visit) → Sound s → Sound (entered id s)
    entered-Sound id s h = record { order = h.order; within = λ x m. inr (h.within x m) }

    pub visit-Does : (fuel : ℕ) → Does (visit parents fuel)
    unfolding visit
    visit-Does zero id s t h chain e = cc e
    visit-Does (suc fuel) id s t h chain e = elim (visit-cases fuel id s t e) [
      | inl (seen, same) ↦
          subst (λ (z : Visit). Steps s z × In id z.ordered) same
            (refl-Steps s h, in_order id s chain (contains→In id s.seen seen))
      | inr entry ↦
          let (a, below) =
            visit_all-Steps (visit parents fuel) (visit-Does fuel) entry.above (entered id s)
              entry.last (entered-Sound id s h)
              (λ p m x seen n. elim seen [
                | inl same ↦
                    subst (λ (z : String). IsAbove parents p z) (sym same)
                      (parent (in_above id p entry.above entry.known m))
                | inr old ↦
                    IsAbove-last parents p id x (chain x old n)
                      (in_above id p entry.above entry.known m)
              ])
              entry.visited in
          subst (λ (z : Visit). Steps s z × In id z.ordered) entry.after
            (
              leave id s entry.last entry.above (λ m. cc (In→contains id s.seen m, entry.new)) h
                  entry.known a below,
              In-push_last id entry.last.ordered,
            )
    ]
      where
        in_above :
            (id p : String) (above : List String)
            → get id parents ≡ some above
            → In p above
            → In p (get_or [] id parents)
        in_above id p above known m =
            subst (λ (l : List String). In p l) (sym (get_or-some [] id parents above known)) m
