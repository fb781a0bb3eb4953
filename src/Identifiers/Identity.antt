-- ===== src/Identifiers/Identity.antt =====
-- identifiers.py: the canonical identity of a recommendation. The pattern is the source's regular
-- expression as `re.match` reads it: `$` also matches before a newline that ends the text.
use Prim.Native.Char.{code}
use pgproof.Common.{
  String, Bool, true, false, not, ◌&&◌, List, [], ◌∷◌, Result, ok, ◌>>◌, raise_if, eqn, ◌==◌,
  text_equality, if◌then◌else◌,
}
use pgproof.Common.Sets.{unique}
use pgproof.Common.Sorting.{text_le, sort_by}
use pgproof.Identifiers.Framing.{text, texts, frame_components}
use pgproof.Identifiers.Nodes.{is_lower, is_word}

-- What follows the first letter of a word of RULE_ID_PATTERN; `dotted` says that a dot has come
-- before the word.
unfoldable mutual
  pub rule_tail : Bool → String → Bool
  rule_tail dotted String.[] = dotted
  rule_tail dotted (String.◌∷◌ c s) =
      let word = rule_tail dotted s in
      let next = rule_word s in
      if is_word c
      then word
      else if eqn (code c) 0x2e
      then next
      else dotted && (eqn (code c) 10 && s == "")

  -- A word behind a dot.
  pub rule_word : String → Bool
  rule_word String.[] = false
  rule_word (String.◌∷◌ c s) = let rest = rule_tail true s in is_lower c && rest

-- RULE_ID_PATTERN
unfoldable pub is_rule_id : String → Bool
unfolding rule_tail rule_word
is_rule_id String.[] = false
is_rule_id (String.◌∷◌ c s) = is_lower c && rule_tail false s

pub data CanonicalError : Type 0 where
  not_rule_id no_objects : CanonicalError

abbrev is_nothing : List String → Bool
is_nothing [] = true
is_nothing (x ∷ xs) = false

unfoldable pub canonical_recommendation_identity :
    String → List String → Result CanonicalError String
unfolding is_rule_id unique sort_by frame_components
canonical_recommendation_identity rule affected_objects = do
  raise_if (not (is_rule_id rule)) not_rule_id
  raise_if (is_nothing affected_objects) no_objects
  ok (frame_components (text rule ∷ texts (sort_by text_le (unique affected_objects)) ∷ []))
