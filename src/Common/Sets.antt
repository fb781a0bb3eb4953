-- ===== src/Common/Sets.antt =====
-- Python's `set` built from a sequence, as the list of its members.
use mathlib.Core.Path.{◌≡◌, refl, sym, ap, subst}
use pgproof.Common.Pigeonhole.{not_in_fresh}
use mathlib.Core.Logic.{◌≢◌, inl, inr}
use mathlib.Core.Bool.{false}
use mathlib.Core.List.{List, [], ◌∷◌}
use native.Mathlib.Omega.{arith}
use pgproof.Common.Tests.{Eq, if◌then◌else◌, Bool-cases}
use Prim.Native.Nat.{suc, ◌≤◌}
use pgproof.Common.Lists.{
  length, All-In, In, Distinct, contains, contains→In, In→contains, All-of_In,
}

module _ {ℓ} {A : Type ℓ} ⦃e : Eq A⦄ where
  -- The elements of a set built from a sequence: each value once.
  unfoldable pub unique : List A → List A
  unique [] = []
  unique (x ∷ xs) = let rest = unique xs in if contains x rest then rest else x ∷ rest

  pub In-unique : (x : A) (xs : List A) → In x xs → In x (unique xs)
  unfolding unique
  In-unique x [] m = m
  In-unique x (y ∷ ys) m = elim (Bool-cases (contains y (unique ys))) [
    | inl t ↦ rw t (elim m [
      | inl p ↦ subst (λ (z : A). In z (unique ys)) (sym p) (contains→In y (unique ys) t)
      | inr later ↦ In-unique x ys later
    ])
    | inr f ↦ rw f (elim m [ inl p ↦ inl p | inr later ↦ inr (In-unique x ys later) ])
  ]

  pub unique-In : (x : A) (xs : List A) → In x (unique xs) → In x xs
  unfolding unique
  unique-In x [] m = m
  unique-In x (y ∷ ys) m = elim (Bool-cases (contains y (unique ys))) [
    | inl t ↦ inr (unique-In x ys (rw t at m))
    | inr f ↦ elim (rw f at m) [ inl p ↦ inl p | inr later ↦ inr (unique-In x ys later) ]
  ]

  pub Distinct-unique : (xs : List A) → Distinct (unique xs)
  unfolding unique
  Distinct-unique [] = tt
  Distinct-unique (y ∷ ys) = elim (Bool-cases (contains y (unique ys))) [
    | inl t ↦ rw t (Distinct-unique ys)
    | inr f ↦ rw f (
      All-of_In (λ z. y ≢ z) (unique ys)
          (λ z m p.
            cc (In→contains y (unique ys) (subst (λ (w : A). In w (unique ys)) (sym p) m), f)),
      Distinct-unique ys,
    )
  ]

  length-unique-le : (xs : List A) → length (unique xs) ≤ length xs
  unfolding unique
  length-unique-le [] = omega arith
  length-unique-le (x ∷ xs) = ground (arith, length-unique-le xs)

  absent : (x : A) (xs : List A) → contains x (unique xs) ≡ false → contains x xs ≡ false
  absent x xs f = elim (Bool-cases (contains x xs)) [
    | inl t ↦ cc (f, In→contains x (unique xs) (In-unique x xs (contains→In x xs t)))
    | inr g ↦ g
  ]

  -- A sequence as long as the set of its elements repeats nothing.
  pub Distinct-of_length : (xs : List A) → length (unique xs) ≡ length xs → Distinct xs
  unfolding unique
  Distinct-of_length [] h = tt
  Distinct-of_length (x ∷ xs) h = elim (Bool-cases (contains x (unique xs))) [
    | inl t ↦
        let k : length (unique xs) ≡ suc (length xs) = rw t at h in
        absurd (omega (arith, length-unique-le xs))
    | inr f ↦
        let k : suc (length (unique xs)) ≡ suc (length xs) = rw f at h in
        (not_in_fresh x xs (absent x xs f), Distinct-of_length xs (omega arith))
  ]

  -- The set of a sequence without repetition is the sequence.
  pub unique-Distinct : (xs : List A) → Distinct xs → unique xs ≡ xs
  unfolding unique
  unique-Distinct [] d = refl
  unique-Distinct (x ∷ xs) (fresh, d) = elim (Bool-cases (contains x (unique xs))) [
    | inl t ↦
        absurd (All-In (λ y. x ≢ y) x xs fresh (unique-In x xs (contains→In x (unique xs) t)) refl)
    | inr f ↦ rw f (ap (λ r. x ∷ r) (unique-Distinct xs d))
  ]
