-- ===== src/Common/Sorting/Unique.antt =====
-- A set has one ascending sequence.
use mathlib.Core.Path.{◌≡◌, refl, sym, ap, ◌∙◌, subst}
use mathlib.Core.Logic.{◌≢◌, inl, inr}
use mathlib.Core.Bool.{Bool, true}
use mathlib.Core.List.{List, [], ◌∷◌}
use pgproof.Common.Lists.{All, All-In, In, Distinct}
use pgproof.Common.Sorting.Texts.{IsOrder}
use pgproof.Common.Sorting.Laws.{IsAscending}

module _ {ℓ} {A : Type ℓ} {le : A → A → Bool} (order : IsOrder le) where
  heads_equal :
      (x y : A) (xs ys : List A)
      → All (λ z. le x z ≡ true) xs
      → All (λ z. le y z ≡ true) ys
      → In x (y ∷ ys)
      → In y (x ∷ xs)
      → x ≡ y
  heads_equal x y xs ys h k (inl p) n = p
  heads_equal x y xs ys h k (inr m) (inl p) = sym p
  heads_equal x y xs ys h k (inr m) (inr n) =
      order.antisymm x y (All-In (λ z. le x z ≡ true) y xs h n)
        (All-In (λ z. le y z ≡ true) x ys k m)

  -- What stands behind equal heads that are not repeated.
  tail_In :
      (x y : A) (xs ys : List A)
      → x ≡ y
      → All (λ z. x ≢ z) xs
      → ((z : A) → In z (x ∷ xs) → In z (y ∷ ys))
      → (z : A) → In z xs
      → In z ys
  tail_In x y xs ys same fresh into z m = elim (into z (inr m)) [
    | inl p ↦ absurd (All-In (λ w. x ≢ w) z xs fresh m (same ∙ sym p))
    | inr k ↦ k
  ]

  pub ascending_unique :
      (xs ys : List A)
      → IsAscending le xs
      → IsAscending le ys
      → Distinct xs
      → Distinct ys
      → ((z : A) → In z xs → In z ys)
      → ((z : A) → In z ys → In z xs)
      → xs ≡ ys
  ascending_unique [] [] a b d e into onto = refl
  ascending_unique [] (y ∷ ys) a b d e into onto = elim (onto y (inl refl)) [ ]
  ascending_unique (x ∷ xs) [] a b d e into onto = elim (into x (inl refl)) [ ]
  ascending_unique (x ∷ xs) (y ∷ ys) a b d e into onto =
      let same = heads_equal x y xs ys a.0 b.0 (into x (inl refl)) (onto y (inl refl)) in
      let rest =
        ascending_unique xs ys a.1 b.1 d.1 e.1 (tail_In x y xs ys same d.0 into)
          (tail_In y x ys xs (sym same) e.0 onto) in
      subst (λ (z : A). x ∷ xs ≡ z ∷ ys) same (ap (λ r. x ∷ r) rest)
