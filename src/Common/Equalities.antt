-- ===== src/Common/Equalities.antt =====
-- Python's `==` on tuples, lists and optional values, from that of the parts.
use mathlib.Core.Path.{◌≡◌, refl, sym, ap, ◌∙◌}
use mathlib.Core.Option.{Option, none, some}
use mathlib.Core.List.{List, [], ◌∷◌}
use pgproof.Common.Tests.{Eq}

module _ {ℓ} {A : Type ℓ} ⦃e : Eq A⦄ where
  unfoldable pub list_dec : (xs ys : List A) → Dec (xs ≡ ys)
  list_dec [] [] = yes refl
  list_dec [] (y ∷ ys) = no (λ p. cc p)
  list_dec (x ∷ xs) [] = no (λ p. cc p)
  list_dec (x ∷ xs) (y ∷ ys) = elim (e.dec x y) [
    | no n ↦ no (λ p. n (cc p))
    | yes p ↦ elim (list_dec xs ys) [ no n ↦ no (λ q. n (cc q)) | yes q ↦ yes (cc (p, q)) ]
  ]

  instance abbrev pub list_equality : Eq (List A)
  list_equality = record { dec = list_dec }

  unfoldable pub option_dec : (x y : Option A) → Dec (x ≡ y)
  option_dec none none = yes refl
  option_dec none (some y) = no (λ p. cc p)
  option_dec (some x) none = no (λ p. cc p)
  option_dec (some x) (some y) = elim (e.dec x y) [
    | yes p ↦ yes (ap some p)
    | no n ↦ no (λ p. n (cc p))
  ]

  instance abbrev pub option_equality : Eq (Option A)
  option_equality = record { dec = option_dec }

module _ {ℓ κ} {A : Type ℓ} {B : Type κ} ⦃e : Eq A⦄ ⦃f : Eq B⦄ where
  unfoldable pub pair_dec : (x y : A × B) → Dec (x ≡ y)
  pair_dec (a, b) (c, d) = elim (e.dec a c) [
    | no n ↦ no (λ p. n (ap (λ q. q.0) p))
    | yes p ↦ elim (f.dec b d) [
      | no n ↦ no (λ q. n (ap (λ r. r.1) q))
      | yes q ↦ yes (λ i. (p i, q i))
    ]
  ]

  instance abbrev pub pair_equality : Eq (A × B)
  pair_equality = record { dec = pair_dec }

-- Equality of a record is that of the tuple of its fields.
module _ {ℓ κ} {A : Type ℓ} {B : Type κ} (fields : A → B) (make : B → A)
    (same : (a : A) → make (fields a) ≡ a) where
  unfoldable pub record_dec : Eq B → (x y : A) → Dec (x ≡ y)
  record_dec equality x y = elim (equality.dec (fields x) (fields y)) [
    | yes p ↦ yes (sym (same x) ∙ ap make p ∙ same y)
    | no n ↦ no (λ p. n (ap fields p))
  ]
