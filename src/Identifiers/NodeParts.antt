-- ===== src/Identifiers/NodeParts.antt =====
-- A node id splits back into the kind and the key that it was made of.
use Prim.Native.String.{[], ◌∷◌, ◌++◌}
use text.Mathlib.TextLemmas.{nil-append, cons-append}
use pgproof.Common.{
  String, Bool, true, false, ◌≡◌, refl, ok, some, if◌then◌else◌, Bool-cases, inl, inr, arith,
  text_equality,
}
use pgproof.Identifiers.Escape.{one-append}
use pgproof.Identifiers.Nodes.{
  word_tail, is_node_kind, is_colon, is_word, partition, node_id, node_parts,
}

-- No character is a colon.
plain_of_colons : String → Bool
plain_of_colons [] = true
plain_of_colons (c ∷ s) = if is_colon c then false else plain_of_colons s

plain_of_empty : (s : String) → s ≡ "" → plain_of_colons s ≡ true
unfolding plain_of_colons
plain_of_empty [] h = refl
plain_of_empty (c ∷ s) h = cc

word_tail-plain : (s : String) → word_tail s ≡ true → plain_of_colons s ≡ true
unfolding word_tail plain_of_colons
word_tail-plain [] h = refl
word_tail-plain (c ∷ s) h = elim (Bool-cases (is_word c)) [
  | inl t ↦ ground (arith, word_tail-plain s)
  | inr f ↦ ground (arith, plain_of_empty s)
]

is_node_kind-plain : (s : String) → is_node_kind s ≡ true → plain_of_colons s ≡ true
unfolding is_node_kind plain_of_colons
is_node_kind-plain [] h = cc
is_node_kind-plain (c ∷ s) h = ground (arith, word_tail-plain s)

partition-append :
    (kind key : String)
    → plain_of_colons kind ≡ true
    → partition (kind ++ (":" ++ key)) ≡ some (kind, key)
unfolding partition plain_of_colons
partition-append [] key h = rw (nil-append, one-append)
partition-append (c ∷ s) key h = rw cons-append (ground (arith, partition-append s key))

-- `node_parts` recovers the kind and the key of any id that `node_id` accepts.
pub node_parts-node_id :
    (kind key value : String) → node_id kind key ≡ ok value → node_parts value ≡ ok (kind, key)
unfolding node_id node_parts
node_parts-node_id kind key value h =
    ground (arith, is_node_kind-plain kind, partition-append kind key)
