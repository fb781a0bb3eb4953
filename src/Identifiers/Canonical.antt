-- ===== src/Identifiers/Canonical.antt =====
-- Every identity that decodes is the encoding of what it decodes to: identities are canonical.
use Prim.Native.Char.{Char, code}
use Prim.Native.String.{◌++◌}
use text.Mathlib.TextEquality.{Char-path}
use text.Mathlib.TextLemmas.{append-nil, nil-append, append_assoc, cons-append}
use pgproof.Common.{
  String, Bool, true, false, ◌||◌, ◌≡◌, refl, sym, ap, ◌∙◌, List, [], ◌∷◌, ◌++◌ as ◌+++◌, push, ok,
  raise, ◌==◌, text_equality, any, any-push, any-append, push-append, eqn, Bool-cases, inl, inr,
  arith,
}
use pgproof.Identifiers.Codec.{
  invalid_escape, has_nul, encode_part, join_parts, encode_identity, close_parts, decode_loop,
  decode_escaped, decode_identity, Kind, kind, nul, backslash, dot, plain,
}
use pgproof.Identifiers.Escape.{escaped, needs_escape, one-append, escape_one, replace-eq-escaped}

abbrev is_empty : String → Bool
is_empty part = part == ""

escaped-append : (s t : String) → escaped (s ++ t) ≡ escaped s ++ escaped t
unfolding escaped
escaped-append String.[] t = simp nil-append
escaped-append (String.◌∷◌ c s) t = elim (Bool-cases (needs_escape c)) [
  | inl h ↦
      rw (cons-append, h, escape_one, escape_one, cons-append, cons-append)
        (ap (λ r. String.◌∷◌ "\\" (String.◌∷◌ c r)) (escaped-append s t))
  | inr h ↦ rw (cons-append, h, cons-append) (ap (λ r. String.◌∷◌ c r) (escaped-append s t))
]

has_nul-append : (s t : String) → has_nul (s ++ t) ≡ (has_nul s || has_nul t)
unfolding has_nul
has_nul-append String.[] t = ap has_nul (nil-append t)
has_nul-append (String.◌∷◌ c s) t = rw cons-append (ground (arith, has_nul-append s t))

encode_part_of :
    (name : String)
    → is_empty name ≡ false
    → has_nul name ≡ false
    → encode_part name ≡ ok (escaped name)
unfolding encode_part
encode_part_of name h k = rw (h, k) (ap ok (replace-eq-escaped name))

-- `out` is `parts` and then names whose joined encodings are `text`.
record Continues (parts : List String) (text : String) (out : List String) : Type 0 where
  name : String
  names : List String
  split : out ≡ ◌+++◌ parts (name ∷ names)
  full : any is_empty out ≡ false
  joined : join_parts name names ≡ ok text

close_parts-eq-ok :
    (parts : List String) (current : String) (out : List String)
    → close_parts parts current ≡ ok out
    → (out ≡ push parts current) × (is_empty current ≡ false) × (any is_empty out ≡ false)
unfolding close_parts
close_parts-eq-ok parts current out h = ground (arith, any-push is_empty parts current)

dot_char : (c : Char) → kind c ≡ dot → c ≡ "."
unfolding kind
dot_char c h = Char-path c "." (ground arith)

backslash_char : (c : Char) → kind c ≡ backslash → c ≡ "\\"
unfolding kind
backslash_char c h = Char-path c "\\" (ground arith)

plain_char : (c : Char) → kind c ≡ plain → (needs_escape c ≡ false) × (eqn (code c) 0 ≡ false)
unfolding kind
plain_char c h = (ground arith, ground arith)

not_nul : (c : Char) → needs_escape c ≡ true → eqn (code c) 0 ≡ false
not_nul c h = ground arith

has_nul-push :
    (s : String) (c : Char)
    → has_nul s ≡ false
    → eqn (code c) 0 ≡ false
    → has_nul (s ++ (String.◌∷◌ c "")) ≡ false
unfolding has_nul
has_nul-push s c h k = has_nul-append s (String.◌∷◌ c "") ∙ rw (h, k)

escaped-plain : (c : Char) → needs_escape c ≡ false → escaped (String.◌∷◌ c "") ≡ String.◌∷◌ c ""
unfolding escaped
escaped-plain c h = rw h

escaped-special :
    (c : Char)
    → needs_escape c ≡ true
    → escaped (String.◌∷◌ c "") ≡ String.◌∷◌ "\\" (String.◌∷◌ c "")
unfolding escaped
escaped-special c h = rw (h, escape_one)

-- One more plain or escaped character in the current part is that much more text.
plain-regroup :
    (current : String) (c : Char) (rest : String)
    → needs_escape c ≡ false
    → escaped (current ++ (String.◌∷◌ c "")) ++ rest ≡ escaped current ++ (String.◌∷◌ c rest)
plain-regroup current c rest h = rw (escaped-append, escaped-plain c h, append_assoc, one-append)

special-regroup :
    (current : String) (c : Char) (rest : String)
    → needs_escape c ≡ true
    → escaped (current ++ (String.◌∷◌ c "")) ++ rest
      ≡ escaped current ++ (String.◌∷◌ "\\" (String.◌∷◌ c rest))
special-regroup current c rest h =
    rw (escaped-append, escaped-special c h, append_assoc, cons-append, one-append)

join-dot :
    (parts : List String) (current rest : String) (out : List String)
    → has_nul current ≡ false
    → Continues (push parts current) (escaped "" ++ rest) out
    → Continues parts (escaped current ++ (String.◌∷◌ "." rest)) out
unfolding escaped join_parts
join-dot parts current rest out h c =
    let split : out ≡ ◌+++◌ parts (current ∷ c.name ∷ c.names) =
      c.split ∙ push-append parts current (c.name ∷ c.names) in
    let filled : is_empty current ≡ false = ground (
      arith,
      ap (any is_empty) split,
      any-append is_empty parts (current ∷ c.name ∷ c.names),
      c.full,
    ) in
    record {
      name = current;
      names = c.name ∷ c.names;
      split = split;
      full = c.full;
      joined = rw (encode_part_of current filled h, c.joined) (ap ok (rw (nil-append, one-append)));
    }

re_text :
    {parts : List String} {text text' : String} {out : List String}
    → text ≡ text'
    → Continues parts text out
    → Continues parts text' out
re_text e c = record {
  name = c.name;
  names = c.names;
  split = c.split;
  full = c.full;
  joined = rw (sym e) c.joined;
}

close_parts-Continues :
    (parts : List String) (current : String) (out : List String)
    → has_nul current ≡ false
    → close_parts parts current ≡ ok out
    → Continues parts (escaped current ++ "") out
unfolding join_parts
close_parts-Continues parts current out clean h =
    let c = close_parts-eq-ok parts current out h in
    record {
      name = current;
      names = [];
      split = c.0;
      full = c.2;
      joined = encode_part_of current c.1 clean ∙ ap ok (sym (append-nil (escaped current)));
    }

-- One character, whatever the decoder makes of the rest.
module _ (parts : List String) (current : String) (c : Char) (rest : String) (out : List String)
    (clean : has_nul current ≡ false) where
  kind_step :
      (k : Kind)
      → kind c ≡ k
      → decode_loop parts current (String.◌∷◌ c rest) ≡ ok out
      → ((p : List String) (q : String)
          → has_nul q ≡ false
          → decode_loop p q rest ≡ ok out
          → Continues p (escaped q ++ rest) out)
      → (decode_escaped parts current rest ≡ ok out
          → Continues parts (escaped current ++ (String.◌∷◌ "\\" rest)) out)
      → Continues parts (escaped current ++ (String.◌∷◌ c rest)) out
  unfolding decode_loop has_nul
  kind_step nul e h loop skip = cc (e, h)
  kind_step backslash e h loop skip = rw (backslash_char c e) (skip (rw (e, decode_loop) at h))
  kind_step dot e h loop skip = rw (dot_char c e) (
      join-dot parts current rest out clean
        (loop (push parts current) "" refl (rw (e, decode_loop) at h)))
  kind_step plain e h loop skip =
      let p = plain_char c e in
      re_text (plain-regroup current c rest p.0) (
        loop parts (current ++ (String.◌∷◌ c "")) (has_nul-push current c clean p.1)
          (rw (e, decode_loop) at h))

  escaped_step :
      decode_escaped parts current (String.◌∷◌ c rest) ≡ ok out
      → ((q : String)
          → has_nul q ≡ false
          → decode_loop parts q rest ≡ ok out
          → Continues parts (escaped q ++ rest) out)
      → Continues parts (escaped current ++ (String.◌∷◌ "\\" (String.◌∷◌ c rest))) out
  unfolding decode_escaped
  escaped_step h loop = elim (Bool-cases (needs_escape c)) [
    | inl t ↦ re_text (special-regroup current c rest t) (
        loop (current ++ (String.◌∷◌ c "")) (has_nul-push current c clean (not_nul c t))
          (rw t at h))
    | inr f ↦ cc (let k : raise invalid_escape ≡ ok out = rw f at h in k)
  ]

mutual
  unfolding decode_loop decode_escaped has_nul

  decode_loop-Continues :
      (s : String) (parts : List String) (current : String) (out : List String)
      → has_nul current ≡ false
      → decode_loop parts current s ≡ ok out
      → Continues parts (escaped current ++ s) out
  decode_loop-Continues String.[] parts current out clean h =
      close_parts-Continues parts current out clean h
  decode_loop-Continues (String.◌∷◌ c rest) parts current out clean h =
      kind_step parts current c rest out clean (kind c) refl h
        (λ p q. decode_loop-Continues rest p q out)
        (decode_escaped-Continues rest parts current out clean)

  decode_escaped-Continues :
      (s : String) (parts : List String) (current : String) (out : List String)
      → has_nul current ≡ false
      → decode_escaped parts current s ≡ ok out
      → Continues parts (escaped current ++ (String.◌∷◌ "\\" s)) out
  decode_escaped-Continues String.[] parts current out clean h = cc
  decode_escaped-Continues (String.◌∷◌ c rest) parts current out clean h =
      escaped_step parts current c rest out clean h (λ q. decode_loop-Continues rest parts q out)

-- A text that decodes is the encoding of the names that it decodes to.
pub encode-decode_identity :
    (s : String) (names : List String) → decode_identity s ≡ ok names → encode_identity names ≡ ok s
unfolding decode_identity encode_identity has_nul escaped
encode-decode_identity s names h =
    let c = decode_loop-Continues s [] "" names refl h in
    rw c.split (c.joined ∙ ap ok (nil-append s))
