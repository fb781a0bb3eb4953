-- ===== src/Identifiers/Framing/Injective.antt =====
-- Framing is injective: a rest that starts with a delimiter tells where each component ends.
use Prim.Native.Char.{Char, code}
use Prim.Native.String.{◌∷◌}
use package.text.Mathlib.TextEquality.{Char-path}
use pgproof.Common.{
  ℕ, String, false, ◌≡◌, ◌≢◌, refl, sym, ap, ◌∙◌, List, eqn, if◌then◌else◌, none, some, arith,
}
use pgproof.Identifiers.Framing.{
  Component, null, text, number, texts, char_onto, chars_onto, text_onto, digits_onto, items_onto,
  list_onto, component_onto, frame_components,
}
use pgproof.Identifiers.Framing.Readers.{
  head_code, behind, read_char, read_char-char_onto, read_char-quote, read_number,
  read_number-digits_onto, Ends, digit_head,
}

clash : {A : Type 0} (m n : ℕ) → eqn m n ≡ false → m ≡ n → A
clash m n h e = absurd (ground (arith, h, e))

some-injective : {A : Type 0} {x y : A} → some x ≡ some y → x ≡ y
some-injective e = cc

char_onto-injective :
    (c d : Char) (s t : String) → char_onto c s ≡ char_onto d t → (c ≡ d) × (s ≡ t)
char_onto-injective c d s t e =
    let same : (code c, s) ≡ (code d, t) =
      some-injective (sym (read_char-char_onto c s) ∙ ap read_char e ∙ read_char-char_onto d t) in
    (Char-path c d (ap (λ (p : ℕ × String). p.0) same), ap (λ (p : ℕ × String). p.1) same)

closed_char : (c : Char) (s t : String) → char_onto c s ≢ ("\"" ∷ t)
closed_char c s t e =
    let clash : some (code c, s) ≡ none =
      sym (read_char-char_onto c s) ∙ ap read_char e ∙ read_char-quote t in
    cc clash

chars_onto-injective : (x y s t : String) → chars_onto x s ≡ chars_onto y t → (x ≡ y) × (s ≡ t)
unfolding chars_onto
chars_onto-injective String.[] String.[] s t e = (refl, ap behind e)
chars_onto-injective String.[] (String.◌∷◌ d y) s t e = absurd (closed_char d _ s (sym e))
chars_onto-injective (String.◌∷◌ c x) String.[] s t e = absurd (closed_char c _ t e)
chars_onto-injective (String.◌∷◌ c x) (String.◌∷◌ d y) s t e =
    let (first, later) = char_onto-injective c d _ _ e in
    let (rest, last) = chars_onto-injective x y s t later in (rw (first, rest) refl, last)

text_onto-injective : (x y s t : String) → text_onto x s ≡ text_onto y t → (x ≡ y) × (s ≡ t)
text_onto-injective x y s t e = chars_onto-injective x y s t (ap behind e)

digits_onto-injective :
    (m n : ℕ) (s t : String)
    → Ends s
    → Ends t
    → digits_onto m m s ≡ digits_onto n n t
    → (m ≡ n) × (s ≡ t)
digits_onto-injective m n s t h k e =
    let same : (m, s) ≡ (n, t) =
      sym (read_number-digits_onto m s h) ∙ ap read_number e ∙ read_number-digits_onto n t k in
    (ap (λ (p : ℕ × String). p.0) same, ap (λ (p : ℕ × String). p.1) same)

-- A writer whose items are told apart before any delimiter, and none of which starts like one.
module _ {A : Type 0} (onto : A → String → String)
    (opens : (x : A) (s : String) → head_code (onto x s) ≢ 0x5d)
    (injective : (x y : A) (s t : String)
      → Ends s
      → Ends t
      → onto x s ≡ onto y t
      → (x ≡ y) × (s ≡ t)) where
  items_onto-Ends : (xs : List A) (s : String) → Ends (items_onto onto xs s)
  unfolding items_onto
  items_onto-Ends List.[] s = refl
  items_onto-Ends (List.◌∷◌ x xs) s = refl

  items_onto-injective :
      (xs ys : List A) (s t : String)
      → items_onto onto xs s ≡ items_onto onto ys t
      → (xs ≡ ys) × (s ≡ t)
  unfolding items_onto
  items_onto-injective List.[] List.[] s t e = (refl, ap behind e)
  items_onto-injective List.[] (List.◌∷◌ y ys) s t e = clash 0x5d 0x2c refl (ap head_code e)
  items_onto-injective (List.◌∷◌ x xs) List.[] s t e = clash 0x2c 0x5d refl (ap head_code e)
  items_onto-injective (List.◌∷◌ x xs) (List.◌∷◌ y ys) s t e =
      let (first, later) =
        injective x y _ _ (items_onto-Ends xs s) (items_onto-Ends ys t) (ap behind e) in
      let (rest, last) = items_onto-injective xs ys s t later in (rw (first, rest) refl, last)

  list_onto-injective :
      (xs ys : List A) (s t : String)
      → list_onto onto xs s ≡ list_onto onto ys t
      → (xs ≡ ys) × (s ≡ t)
  unfolding list_onto
  list_onto-injective List.[] List.[] s t e = (refl, ap behind (ap behind e))
  list_onto-injective List.[] (List.◌∷◌ y ys) s t e =
      absurd (opens y _ (sym (ap head_code (ap behind e))))
  list_onto-injective (List.◌∷◌ x xs) List.[] s t e =
      absurd (opens x _ (ap head_code (ap behind e)))
  list_onto-injective (List.◌∷◌ x xs) (List.◌∷◌ y ys) s t e =
      let (first, later) =
        injective x y _ _ (items_onto-Ends xs s) (items_onto-Ends ys t) (ap behind e) in
      let (rest, last) = items_onto-injective xs ys s t later in (rw (first, rest) refl, last)

texts_onto-injective :
    (xs ys : List String) (s t : String)
    → list_onto text_onto xs s ≡ list_onto text_onto ys t
    → (xs ≡ ys) × (s ≡ t)
texts_onto-injective =
    list_onto-injective text_onto (λ x s. omega arith)
      (λ x y s t h k e. text_onto-injective x y s t e)

-- The first code of what is written for a component, for a number any digit's.
class_of : ℕ → ℕ
class_of n = if eqn n 0x6e then 0 else if eqn n 0x22 then 1 else if eqn n 0x5b then 2 else 3

lead : Component → ℕ
lead null = 0
lead (text s) = 1
lead (texts xs) = 2
lead (number n) = 3

class-lead : (a : Component) (s : String) → class_of (head_code (component_onto a s)) ≡ lead a
unfolding class_of lead component_onto list_onto
class-lead null s = refl
class-lead (text x) s = refl
class-lead (number n) s = ground (arith, digit_head n n s (omega arith))
class-lead (texts List.[]) s = refl
class-lead (texts (List.◌∷◌ x xs)) s = refl

component_onto-opens : (a : Component) (s : String) → head_code (component_onto a s) ≢ 0x5d
unfolding component_onto list_onto
component_onto-opens null s = omega arith
component_onto-opens (text x) s = omega arith
component_onto-opens (number n) s = ground (arith, digit_head n n s (omega arith))
component_onto-opens (texts List.[]) s = omega arith
component_onto-opens (texts (List.◌∷◌ x xs)) s = omega arith

same_lead :
    (a b : Component) (s t : String) → component_onto a s ≡ component_onto b t → lead a ≡ lead b
same_lead a b s t e = sym (class-lead a s) ∙ ap (λ r. class_of (head_code r)) e ∙ class-lead b t

component_onto-injective_by :
    (a b : Component) (s t : String)
    → Ends s
    → Ends t
    → lead a ≡ lead b
    → component_onto a s ≡ component_onto b t
    → (a ≡ b) × (s ≡ t)
unfolding lead component_onto
component_onto-injective_by null null s t h k l e =
    (refl, ap (λ r. behind (behind (behind (behind r)))) e)
component_onto-injective_by (text x) (text y) s t h k l e =
    let (p, q) = text_onto-injective x y s t e in (ap text p, q)
component_onto-injective_by (number m) (number n) s t h k l e =
    let (p, q) = digits_onto-injective m n s t h k e in (ap number p, q)
component_onto-injective_by (texts xs) (texts ys) s t h k l e =
    let (p, q) = texts_onto-injective xs ys s t e in (ap texts p, q)
component_onto-injective_by null (text y) s t h k l e = cc
component_onto-injective_by null (number y) s t h k l e = cc
component_onto-injective_by null (texts y) s t h k l e = cc
component_onto-injective_by (text x) null s t h k l e = cc
component_onto-injective_by (text x) (number y) s t h k l e = cc
component_onto-injective_by (text x) (texts y) s t h k l e = cc
component_onto-injective_by (number x) null s t h k l e = cc
component_onto-injective_by (number x) (text y) s t h k l e = cc
component_onto-injective_by (number x) (texts y) s t h k l e = cc
component_onto-injective_by (texts x) null s t h k l e = cc
component_onto-injective_by (texts x) (text y) s t h k l e = cc
component_onto-injective_by (texts x) (number y) s t h k l e = cc

-- Two lists of components are framed alike only when they are equal: a framed identity names its
-- components.
pub frame_components-injective :
    (xs ys : List Component) → frame_components xs ≡ frame_components ys → xs ≡ ys
unfolding frame_components
frame_components-injective xs ys e =
    let both =
      list_onto-injective component_onto component_onto-opens
        (λ a b s t h k p. component_onto-injective_by a b s t h k (same_lead a b s t p) p) xs ys ""
        "" e in
    both.0
