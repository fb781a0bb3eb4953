-- ===== src/Common/Sorting/Texts.antt =====
-- Texts in the order of their code points, and numbers, as total orders.
use Prim.Native.Char.{code}
use Prim.Native.String.{String, [], ◌∷◌}
use Prim.Native.Nat.{ℕ}
use mathlib.Core.Path.{◌≡◌, refl}
use mathlib.Core.Bool.{Bool, true, false}
use native.Mathlib.Omega.{arith}
use text.Mathlib.TextEquality.{Char-path}
use pgproof.Common.Tests.{ltb, leb, if◌then◌else◌}

-- A Boolean total order.
pub record IsOrder {ℓ} {A : Type ℓ} (le : A → A → Bool) : Type ℓ where
  pub total : (x y : A) → le x y ≡ false → le y x ≡ true
  pub trans : (x y z : A) → le x y ≡ true → le y z ≡ true → le x z ≡ true
  pub antisymm : (x y : A) → le x y ≡ true → le y x ≡ true → x ≡ y

unfoldable pub text_le : String → String → Bool
text_le [] t = true
text_le (c ∷ s) [] = false
text_le (c ∷ s) (d ∷ t) =
    if ltb (code c) (code d) then true else if ltb (code d) (code c) then false else text_le s t

text_total : (s t : String) → text_le s t ≡ false → text_le t s ≡ true
unfolding text_le
text_total [] t h = cc
text_total (c ∷ s) [] h = refl
text_total (c ∷ s) (d ∷ t) h = ground (arith, text_total s t)

text_trans : (s t u : String) → text_le s t ≡ true → text_le t u ≡ true → text_le s u ≡ true
unfolding text_le
text_trans [] t u h k = refl
text_trans (c ∷ s) [] u h k = cc
text_trans (c ∷ s) (d ∷ t) [] h k = cc
text_trans (c ∷ s) (d ∷ t) (e ∷ u) h k = ground (arith, text_trans s t u)

text_antisymm : (s t : String) → text_le s t ≡ true → text_le t s ≡ true → s ≡ t
unfolding text_le
text_antisymm [] [] h k = refl
text_antisymm [] (d ∷ t) h k = cc
text_antisymm (c ∷ s) [] h k = cc
text_antisymm (c ∷ s) (d ∷ t) h k = ground (arith, Char-path c d, text_antisymm s t)

pub text_le-IsOrder : IsOrder text_le
text_le-IsOrder = record { total = text_total; trans = text_trans; antisymm = text_antisymm }

leb_total : (x y : ℕ) → leb x y ≡ false → leb y x ≡ true
leb_total x y h = ground arith

leb_trans : (x y z : ℕ) → leb x y ≡ true → leb y z ≡ true → leb x z ≡ true
leb_trans x y z h k = ground arith

leb_antisymm : (x y : ℕ) → leb x y ≡ true → leb y x ≡ true → x ≡ y
leb_antisymm x y h k = ground arith

pub leb-IsOrder : IsOrder leb
leb-IsOrder = record { total = leb_total; trans = leb_trans; antisymm = leb_antisymm }
