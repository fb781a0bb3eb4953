-- ===== src/Common/Sorting/Laws.antt =====
-- A stable insertion sort, and what every client of `sorted` relies on.
use Prim.Native.Nat.{suc}
use mathlib.Core.Path.{◌≡◌, refl, ap, ◌∙◌, sym}
use mathlib.Core.Logic.{◌≢◌, inl, inr}
use mathlib.Core.Bool.{Bool, true}
use mathlib.Core.List.Perm
use mathlib.Core.List.{List, [], ◌∷◌, Perm}
use native.Mathlib.Omega.{arith}
use pgproof.Common.Tests.{Bool-cases, if◌then◌else◌}
use pgproof.Common.Lists.{length, In, count, All, All-In, All-of_In, Distinct}
use pgproof.Common.Sorting.Texts.{IsOrder}

module _ {ℓ} {A : Type ℓ} (le : A → A → Bool) where
  -- Before the first element that is not smaller, so equal elements keep their order.
  unfoldable pub place : A → List A → List A
  place x [] = x ∷ []
  place x (y ∷ ys) = if le x y then x ∷ y ∷ ys else y ∷ place x ys

  unfoldable pub sort_by : List A → List A
  unfolding place
  sort_by [] = []
  sort_by (x ∷ xs) = place x (sort_by xs)

  -- Each element is at most every later one.
  abbrev pub IsAscending : List A → Type ℓ
  IsAscending [] = Unit
  IsAscending (x ∷ xs) = All (λ y. le x y ≡ true) xs × IsAscending xs

module _ {ℓ} {A : Type ℓ} (le : A → A → Bool) where
  pub length-place : (x : A) (ys : List A) → length (place le x ys) ≡ suc (length ys)
  unfolding place
  length-place x [] = refl
  length-place x (y ∷ ys) = ground (arith, length-place x ys)

  pub length-sort_by : (xs : List A) → length (sort_by le xs) ≡ length xs
  unfolding sort_by
  length-sort_by [] = refl
  length-sort_by (x ∷ xs) = length-place x (sort_by le xs) ∙ ap suc (length-sort_by xs)

  pub sort_by-nil : (xs : List A) → sort_by le xs ≡ [] → xs ≡ []
  sort_by-nil [] h = refl
  sort_by-nil (x ∷ xs) h = absurd (omega (arith, length-sort_by (x ∷ xs), ap length h))

  -- A property of all the elements passes through, both ways.
  module _ {κ} (P : A → Type κ) where
    All-place : (x : A) (ys : List A) → P x → All P ys → All P (place le x ys)
    unfolding place
    All-place x [] p h = (p, tt)
    All-place x (y ∷ ys) p h = elim (Bool-cases (le x y)) [
      | inl t ↦ rw t (p, h)
      | inr f ↦ rw f (h.0, All-place x ys p h.1)
    ]

    place-All : (x : A) (ys : List A) → All P (place le x ys) → P x × All P ys
    unfolding place
    place-All x [] h = h
    place-All x (y ∷ ys) h = elim (Bool-cases (le x y)) [
      | inl t ↦ rw t at h
      | inr f ↦
          let k : P y × All P (place le x ys) = rw f at h in
          ((place-All x ys k.1).0, (k.0, (place-All x ys k.1).1))
    ]

    pub All-sort_by : (xs : List A) → All P xs → All P (sort_by le xs)
    unfolding sort_by
    All-sort_by [] h = h
    All-sort_by (x ∷ xs) h = All-place x (sort_by le xs) h.0 (All-sort_by xs h.1)

    pub sort_by-All : (xs : List A) → All P (sort_by le xs) → All P xs
    unfolding sort_by
    sort_by-All [] h = h
    sort_by-All (x ∷ xs) h = let k = place-All x (sort_by le xs) h in (k.0, sort_by-All xs k.1)

  place-perm : (x : A) (ys : List A) → Perm (place le x ys) (x ∷ ys)
  unfolding place
  place-perm x [] = Perm.refl (x ∷ [])
  place-perm x (y ∷ ys) = elim (Bool-cases (le x y)) [
    | inl t ↦ rw t (Perm.refl (x ∷ y ∷ ys))
    | inr f ↦ rw f (Perm.trans (Perm.cons y (place-perm x ys)) (Perm.swap x y ys))
  ]

  -- Sorting rearranges: each element as often as it was given.
  pub sort_by-perm : (xs : List A) → Perm (sort_by le xs) xs
  unfolding sort_by
  sort_by-perm [] = Perm.refl []
  sort_by-perm (x ∷ xs) = Perm.trans (place-perm x (sort_by le xs)) (Perm.cons x (sort_by-perm xs))

  count-place : (p : A → Bool) (x : A) (ys : List A) → count p (place le x ys) ≡ count p (x ∷ ys)
  unfolding place
  count-place p x [] = refl
  count-place p x (y ∷ ys) = ground (arith, count-place p x ys)

  pub count-sort_by : (p : A → Bool) (xs : List A) → count p (sort_by le xs) ≡ count p xs
  unfolding sort_by
  count-sort_by p [] = refl
  count-sort_by p (x ∷ xs) = count-place p x (sort_by le xs) ∙ rw (count-sort_by p xs) refl

  Distinct-place :
      (x : A) (ys : List A) → All (λ y. x ≢ y) ys → Distinct ys → Distinct (place le x ys)
  unfolding place
  Distinct-place x [] h k = (tt, tt)
  Distinct-place x (y ∷ ys) h k = elim (Bool-cases (le x y)) [
    | inl t ↦ rw t (h, k)
    | inr f ↦ rw f (All-place (λ z. y ≢ z) x ys (λ p. h.0 (sym p)) k.0, Distinct-place x ys h.1 k.1)
  ]

  pub Distinct-sort_by : (xs : List A) → Distinct xs → Distinct (sort_by le xs)
  unfolding sort_by
  Distinct-sort_by [] h = tt
  Distinct-sort_by (x ∷ xs) h =
      Distinct-place x (sort_by le xs) (All-sort_by (λ y. x ≢ y) xs h.0) (Distinct-sort_by xs h.1)

module _ {ℓ} {A : Type ℓ} (le : A → A → Bool) where
  pub In-place_self : (x : A) (ys : List A) → In x (place le x ys)
  unfolding place
  In-place_self x [] = inl refl
  In-place_self x (y ∷ ys) = elim (Bool-cases (le x y)) [
    | inl t ↦ rw t (inl refl)
    | inr f ↦ rw f (inr (In-place_self x ys))
  ]

  In-place : (z x : A) (ys : List A) → In z ys → In z (place le x ys)
  unfolding place
  In-place z x [] m = elim m [ ]
  In-place z x (y ∷ ys) (inl p) = elim (Bool-cases (le x y)) [
    | inl t ↦ rw t (inr (inl p))
    | inr f ↦ rw f (inl p)
  ]
  In-place z x (y ∷ ys) (inr m) = elim (Bool-cases (le x y)) [
    | inl t ↦ rw t (inr (inr m))
    | inr f ↦ rw f (inr (In-place z x ys m))
  ]

  pub In-sort_by : (z : A) (xs : List A) → In z xs → In z (sort_by le xs)
  unfolding sort_by
  In-sort_by z [] m = m
  In-sort_by z (x ∷ xs) (inl p) = rw p (In-place_self x (sort_by le xs))
  In-sort_by z (x ∷ xs) (inr m) = In-place z x (sort_by le xs) (In-sort_by z xs m)

  pub sort_by-In : (z : A) (xs : List A) → In z (sort_by le xs) → In z xs
  sort_by-In z xs m =
      All-In (λ y. In y xs) z (sort_by le xs)
        (All-sort_by le (λ y. In y xs) xs (All-of_In (λ y. In y xs) xs (λ y k. k))) m

module _ {ℓ} {A : Type ℓ} {le : A → A → Bool} (order : IsOrder le) where
  le_of_All :
      (x y : A) (ys : List A)
      → le x y ≡ true
      → All (λ z. le y z ≡ true) ys
      → All (λ z. le x z ≡ true) ys
  le_of_All x y [] h k = tt
  le_of_All x y (z ∷ zs) h k = (order.trans x y z h k.0, le_of_All x y zs h k.1)

  IsAscending-place : (x : A) (ys : List A) → IsAscending le ys → IsAscending le (place le x ys)
  unfolding place
  IsAscending-place x [] h = (tt, tt)
  IsAscending-place x (y ∷ ys) h = elim (Bool-cases (le x y)) [
    | inl t ↦ rw t ((t, le_of_All x y ys t h.0), h)
    | inr f ↦
        rw f (
          All-place le (λ z. le y z ≡ true) x ys (order.total x y f) h.0,
          IsAscending-place x ys h.1,
        )
  ]

  pub IsAscending-sort_by : (xs : List A) → IsAscending le (sort_by le xs)
  unfolding sort_by
  IsAscending-sort_by [] = tt
  IsAscending-sort_by (x ∷ xs) = IsAscending-place x (sort_by le xs) (IsAscending-sort_by xs)
