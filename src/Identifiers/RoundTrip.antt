-- ===== src/Identifiers/RoundTrip.antt =====
-- Encoding and decoding identities undo one another.
use Prim.Native.String.{◌++◌}
use text.Mathlib.TextLemmas.{append-nil, nil-append}
use pgproof.Common.{
  String, Bool, false, ◌≡◌, refl, sym, ap, ◌∙◌, List, [], ◌∷◌, ◌++◌ as ◌+++◌, push, ok, ◌==◌,
  text_equality, any, any-push, push-append, arith, >>=-eq-ok,
}
use pgproof.Identifiers.Codec.{
  has_nul, encode_part, join_parts, encode_identity, close_parts, decode_loop, decode_identity,
}
use pgproof.Identifiers.Escape.{one-append, escaped, replace-eq-escaped, decode_loop-escaped}

abbrev is_empty : String → Bool
is_empty part = part == ""

record Encodes (name s : String) : Type 0 where
  filled : is_empty name ≡ false
  clean : has_nul name ≡ false
  text : s ≡ escaped name

encode_part-Encodes : (name s : String) → encode_part name ≡ ok s → Encodes name s
unfolding encode_part
encode_part-Encodes name s h = ground (arith, replace-eq-escaped name)

close_parts-push :
    (parts : List String) (name : String)
    → any is_empty parts ≡ false
    → is_empty name ≡ false
    → close_parts parts name ≡ ok (push parts name)
unfolding close_parts
close_parts-push parts name h k = rw (any-push is_empty parts name, h, k)

join_parts-decode_loop :
    (name : String) (names parts : List String) (s : String)
    → any is_empty parts ≡ false
    → join_parts name names ≡ ok s
    → decode_loop parts "" s ≡ ok (◌+++◌ parts (name ∷ names))
unfolding join_parts decode_loop
join_parts-decode_loop name [] parts s full h =
    let e = encode_part-Encodes name s h in
    ap (decode_loop parts "") (e.text ∙ sym (append-nil (escaped name)))
    ∙ decode_loop-escaped parts "" name "" e.clean
    ∙ ap (λ current. decode_loop parts current "") (nil-append name)
    ∙ close_parts-push parts name full e.filled
join_parts-decode_loop name (next ∷ names) parts s full h =
    let (part, first, after) = >>=-eq-ok (encode_part name) _ h in
    let (rest, joined, last) = >>=-eq-ok (join_parts next names) _ after in
    let e = encode_part-Encodes name part first in
    let shape : s ≡ escaped name ++ ("." ++ rest) = cc (last, e.text) in
    ap (decode_loop parts "") shape
    ∙ decode_loop-escaped parts "" name ("." ++ rest) e.clean
    ∙ ap (λ current. decode_loop parts current ("." ++ rest)) (nil-append name)
    ∙ ap (decode_loop parts name) (one-append "." rest)
    ∙ join_parts-decode_loop next names (push parts name) rest
        (any-push is_empty parts name ∙ rw full e.filled) joined
    ∙ ap ok (push-append parts name (next ∷ names))

-- What `encode_identity` produces decodes to the names that it was given.
pub decode-encode_identity :
    (names : List String) (s : String) → encode_identity names ≡ ok s → decode_identity s ≡ ok names
unfolding encode_identity decode_identity
decode-encode_identity [] s h = cc
decode-encode_identity (name ∷ names) s h = join_parts-decode_loop name names [] s refl h
