-- ===== src/Common/Results.antt =====
-- A Python function that may raise returns a `Result`; `E` is the data type of what it raises.
use mathlib.Core.Path.{◌≡◌, refl}
use mathlib.Core.Logic.{◌⊎◌, inl, inr}
use mathlib.Core.Bool.{Bool, true, false}

pub data Result {ℓ κ} (E : Type ℓ) (A : Type κ) : Type (ℓ ⊔ κ) where
  ok : A → Result E A
  raise : E → Result E A

module _ {ℓ} {E : Type ℓ} where
  -- `if test: raise error`
  abbrev pub raise_if : Bool → E → Result E (Unit {0})
  raise_if false error = ok tt
  raise_if true error = raise error

  infixl 5 ◌>>=◌
  abbrev pub ◌>>=◌ {κ μ} : {A : Type κ} {B : Type μ} → Result E A → (A → Result E B) → Result E B
  raise error >>= next = raise error
  ok value >>= next = next value

  -- A statement whose value is not used.
  infixl 5 ◌>>◌
  abbrev pub ◌>>◌ {μ} : {B : Type μ} → Result E (Unit {0}) → Result E B → Result E B
  raise error >> rest = raise error
  ok done >> rest = rest

  pub Result-cases {κ} :
      {A : Type κ} (r : Result E A) → ((a : A) × (r ≡ ok a)) ⊎ ((error : E) × (r ≡ raise error))
  Result-cases (raise error) = inr (error, refl)
  Result-cases (ok a) = inl (a, refl)

  -- What went before a result that was returned.
  pub >>=-eq-ok {κ μ} :
      {A : Type κ} {B : Type μ} (first : Result E A) (next : A → Result E B) {last : B}
      → (first >>= next) ≡ ok last
      → (value : A) × (first ≡ ok value) × (next value ≡ ok last)
  >>=-eq-ok (raise error) next returned = cc
  >>=-eq-ok (ok value) next returned = (value, refl, returned)
