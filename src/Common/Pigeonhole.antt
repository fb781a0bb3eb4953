-- ===== src/Common/Pigeonhole.antt =====
-- A list without repetitions is no longer than a list that has all its elements.
use Prim.Native.Nat.{suc, ◌≤◌}
use mathlib.Core.Path.{◌≡◌, refl}
use mathlib.Core.Logic.{◌≢◌, inl, inr}
use mathlib.Core.Bool.{false}
use mathlib.Core.List.{List, [], ◌∷◌}
use native.Mathlib.Omega.{arith}
use pgproof.Common.Tests.{Eq, ◌==◌, if◌then◌else◌, Bool-cases}
use pgproof.Common.Lists.{length, In, All, All-In, Distinct, contains, contains→In}

module _ {ℓ} {A : Type ℓ} ⦃e : Eq A⦄ where
  remove : A → List A → List A
  remove x [] = []
  remove x (y ∷ ys) = if y == x then ys else y ∷ remove x ys

  length-remove : (x : A) (ys : List A) → In x ys → suc (length (remove x ys)) ≡ length ys
  unfolding remove
  length-remove x [] m = elim m [ ]
  length-remove x (y ∷ ys) m = ground (arith, length-remove x ys)

  In-remove : (z x : A) (ys : List A) → x ≢ z → In z ys → In z (remove x ys)
  unfolding remove
  In-remove z x [] other m = elim m [ ]
  In-remove z x (y ∷ ys) other (inl p) = ground arith
  In-remove z x (y ∷ ys) other (inr m) = ground (arith, In-remove z x ys other m)

  pub length-le_of_In :
      (xs ys : List A) → Distinct xs → ((x : A) → In x xs → In x ys) → length xs ≤ length ys
  length-le_of_In [] ys h f = omega arith
  length-le_of_In (x ∷ xs) ys h f =
      let inside : (z : A) → In z xs → In z (remove x ys) =
        λ z m. In-remove z x ys (All-In (λ w. x ≢ w) z xs h.0 m) (f z (inr m)) in
      omega
        (arith, length-le_of_In xs (remove x ys) h.1 inside, length-remove x ys (f x (inl refl)))

  pub not_in_fresh : (x : A) (xs : List A) → contains x xs ≡ false → All (λ y. x ≢ y) xs
  not_in_fresh x [] h = tt
  not_in_fresh x (y ∷ ys) h = (ground arith, not_in_fresh x ys (ground arith))

  -- As many distinct elements as there are fill the list.
  pub In-of_full :
      (xs ys : List A)
      → Distinct xs
      → ((x : A) → In x xs → In x ys)
      → length ys ≤ length xs
      → (y : A) → In y ys
      → In y xs
  In-of_full xs ys h f full y m = elim (Bool-cases (contains y xs)) [
    | inl t ↦ contains→In y xs t
    | inr g ↦
        absurd (omega (arith, length-le_of_In (y ∷ xs) ys (not_in_fresh y xs g, h) (one_more y m)))
  ]
    where
      one_more : (y : A) → In y ys → (x : A) → In x (y ∷ xs) → In x ys
      one_more y m x (inl p) = rw p m
      one_more y m x (inr k) = f x k
