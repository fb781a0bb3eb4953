-- ===== src/Identifiers/Escape.antt =====
-- The escape of one logical name, character by character, and how the decoder undoes it.
use Prim.Native.Char.{Char, code}
use Prim.Native.String.{[], ◌∷◌, ◌++◌}
use text.Mathlib.TextEquality.{Char-path}
use text.Mathlib.TextLemmas.{nil-append, cons-append, append-nil, append_assoc}
use pgproof.Common.{
  String, Bool, false, ◌||◌, ◌≡◌, refl, ap, ◌∙◌, List, eqn, if◌then◌else◌, Bool-cases, inl, inr,
  arith,
}
use pgproof.Identifiers.Codec.{
  replace, has_nul, kind, plain, decode_loop, decode_escaped, separator, escape,
}

-- `c` is written with an escape before it.
abbrev pub needs_escape : Char → Bool
needs_escape c = eqn (code c) separator || eqn (code c) escape

unfoldable pub escaped : String → String
escaped [] = []
escaped (c ∷ s) = if needs_escape c then "\\" ++ (c ∷ escaped s) else c ∷ escaped s

-- A text of one or two characters put before another.
pub one-append : (a : Char) (s : String) → (a ∷ []) ++ s ≡ a ∷ s
one-append a s = simp (cons-append, nil-append)

pub two-append : (a b : Char) (s : String) → (a ∷ b ∷ []) ++ s ≡ a ∷ b ∷ s
two-append a b s = simp (cons-append, nil-append)

-- What the codec puts before a character.
abbrev backslash_char : Char
backslash_char = "\\"

abbrev dot_char : Char
dot_char = "."

escape_escape : (s : String) → "\\\\" ++ s ≡ backslash_char ∷ backslash_char ∷ s
escape_escape s = two-append backslash_char backslash_char s

escape_dot : (s : String) → "\\." ++ s ≡ backslash_char ∷ dot_char ∷ s
escape_dot s = two-append backslash_char dot_char s

pub escape_one : (s : String) → "\\" ++ s ≡ backslash_char ∷ s
escape_one s = one-append backslash_char s

-- The two replacements of `_encode_part` together are that escape.
pub replace-eq-escaped :
    (s : String) → replace separator "\\." (replace escape "\\\\" s) ≡ escaped s
unfolding replace escaped
replace-eq-escaped [] = refl
replace-eq-escaped (c ∷ s) = elim (Bool-cases (eqn (code c) escape)) [
  | inl t ↦
      let same : c ≡ backslash_char = Char-path c backslash_char (ground arith) in
      rw same (
        rw escape_escape
          (rw escape_one (ap (λ r. backslash_char ∷ backslash_char ∷ r) (replace-eq-escaped s))))
  | inr f ↦ elim (Bool-cases (eqn (code c) separator)) [
    | inl t ↦
        let same : c ≡ dot_char = Char-path c dot_char (ground arith) in
        rw same (
          rw escape_dot
            (rw escape_one (ap (λ r. backslash_char ∷ dot_char ∷ r) (replace-eq-escaped s))))
    | inr g ↦ rw (f, g) (ap (λ r. c ∷ r) (replace-eq-escaped s))
  ]
]

pub plain_kind : (c : Char) → needs_escape c ≡ false → eqn (code c) 0 ≡ false → kind c ≡ plain
unfolding kind
plain_kind c h k = ground arith

push-regroup :
    (current : String) (c : Char) (s : String) → (current ++ (c ∷ [])) ++ s ≡ current ++ (c ∷ s)
push-regroup current c s = append_assoc current (c ∷ []) s ∙ ap (λ r. current ++ r) (one-append c s)

-- The decoder reads an escaped name back into the part that it is collecting.
pub decode_loop-escaped :
    (parts : List String) (current name tail : String)
    → has_nul name ≡ false
    → decode_loop parts current (escaped name ++ tail) ≡ decode_loop parts (current ++ name) tail
unfolding escaped decode_loop decode_escaped has_nul
decode_loop-escaped parts current [] tail h = rw (nil-append, append-nil)
decode_loop-escaped parts current (c ∷ s) tail h = elim (Bool-cases (needs_escape c)) [
  | inl t ↦
      rw (t, escape_one, cons-append, cons-append)
        (rw t (
          decode_loop-escaped parts (current ++ (c ∷ [])) s tail (ground arith)
          ∙ ap (λ r. decode_loop parts r tail) (push-regroup current c s)))
  | inr f ↦
      let k : kind c ≡ plain = plain_kind c f (ground arith) in
      rw (f, cons-append)
        (rw (k, decode_loop)
          (decode_loop-escaped parts (current ++ (c ∷ [])) s tail (ground arith)
            ∙ ap (λ r. decode_loop parts r tail) (push-regroup current c s)))
]
