-- ===== src/Common/Tests.antt =====
-- Boolean tests, the conditional, and decidable equality as an interface.
use Prim.Native.Nat.{ℕ, compare, Ordering}
use Prim.Native.String.{String}
use mathlib.Core.Path.{◌≡◌, refl}
use mathlib.Core.Logic.{◌⊎◌, inl, inr}
use mathlib.Core.Bool.{Bool, true, false}
use mathlib.Core.Option.{Option, none, some}
use native.Mathlib.Decide.{ℕ_discrete}
use text.Mathlib.Text.{◌==◌ as text_eq}
use text.Mathlib.TextEquality.{eq_iff}

abbrev pub ltb : ℕ → ℕ → Bool
ltb a b = elim (compare a b) [ Ordering.lt ↦ true | _ ↦ false ]

abbrev pub leb : ℕ → ℕ → Bool
leb a b = elim (compare a b) [ Ordering.gt ↦ false | _ ↦ true ]

-- Equality of numbers, which `ground` reads with no lemma listed.
abbrev pub eqn : ℕ → ℕ → Bool
eqn a b = elim (compare a b) [ Ordering.eq ↦ true | _ ↦ false ]

infix 1 if◌then◌else◌
abbrev pub if◌then◌else◌ {ℓ} : {A : Type ℓ} → Bool → A → A → A
if true then x else y = x
if false then x else y = y

-- Equality as Python's `==` on the modelled values; tactics split on the decision.
pub record Eq {ℓ} (A : Type ℓ) : Type ℓ where
  pub dec : (x y : A) → Dec (x ≡ y)

abbrev pub holds {ℓ} : {P : Type ℓ} → Dec P → Bool
holds (yes _) = true
holds (no _) = false

module _ {ℓ} {A : Type ℓ} ⦃equality : Eq A⦄ where
  infix 50 ◌==◌
  abbrev pub ◌==◌ : A → A → Bool
  left == right = holds (equality.dec left right)

text_dec_by : (s t : String) (b : Bool) → (b ≡ true → s ≡ t) → (s ≡ t → b ≡ true) → Dec (s ≡ t)
text_dec_by s t true sound complete = yes (sound refl)
text_dec_by s t false sound complete = no (λ p. cc (complete p))

unfoldable pub text_dec : (s t : String) → Dec (s ≡ t)
unfolding text_dec_by
text_dec s t = text_dec_by s t (text_eq s t) (eq_iff s t).0 (eq_iff s t).1

instance abbrev pub text_equality : Eq String
text_equality = record { dec = text_dec }

unfoldable pub number_dec : (m n : ℕ) → Dec (m ≡ n)
unfolding ℕ_discrete
number_dec = ℕ_discrete

instance abbrev pub number_equality : Eq ℕ
number_equality = record { dec = number_dec }

-- To split on a computed value and keep the equation.
pub Bool-cases : (b : Bool) → (b ≡ true) ⊎ (b ≡ false)
Bool-cases true = inl refl
Bool-cases false = inr refl

pub Option-cases {ℓ} : {A : Type ℓ} (o : Option A) → (o ≡ none) ⊎ ((a : A) × (o ≡ some a))
Option-cases none = inl refl
Option-cases (some a) = inr (a, refl)
