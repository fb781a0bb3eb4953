-- ===== src/Identifiers/Nodes.antt =====
-- identifiers.py: graph node identities, `kind:key`. The two patterns are the source's regular
-- expressions as `re.match` reads them: `$` also matches before a newline that ends the text.
use Prim.Native.Char.{Char, code}
use Prim.Native.String.{[], ◌∷◌, ◌++◌}
use pgproof.Common.{
  ℕ, zero, suc, String, Bool, true, false, not, ◌&&◌, ◌||◌, Option, none, some, Result, ok, raise,
  ◌>>◌, raise_if, leb, eqn, ◌==◌, text_equality, if◌then◌else◌,
}

pub data NodeError : Type 0 where
  not_node_kind empty_key not_node_id : NodeError

-- `[a-z]` and `[a-z0-9_]`
abbrev pub is_lower : Char → Bool
is_lower c = leb b'a' (code c) && leb (code c) b'z'

abbrev pub is_word : Char → Bool
is_word c = is_lower c || leb b'0' (code c) && leb (code c) b'9' || eqn (code c) b'_'

abbrev pub is_colon : Char → Bool
is_colon c = eqn (code c) 0x3a

-- `[a-z0-9_]*$`
unfoldable pub word_tail : String → Bool
word_tail [] = true
word_tail (c ∷ s) = let rest = word_tail s in if is_word c then rest else eqn (code c) 10 && s == ""

-- NODE_KIND_PATTERN
unfoldable pub is_node_kind : String → Bool
unfolding word_tail
is_node_kind [] = false
is_node_kind (c ∷ s) = is_lower c && word_tail s

-- what follows `[a-z0-9_]*:`
unfoldable pub after_word : String → Option String
after_word [] = none
after_word (c ∷ s) =
    let rest = after_word s in if is_word c then rest else if is_colon c then some s else none

-- `[^\x00]{0,n}$`
unfoldable pub key_within : ℕ → String → Bool
key_within n [] = true
key_within zero (c ∷ s) = eqn (code c) 10 && s == ""
key_within (suc n) (c ∷ s) = not (eqn (code c) 0) && key_within n s

-- NODE_ID_PATTERN
unfoldable pub is_node_id : String → Bool
unfolding after_word key_within
is_node_id [] = false
is_node_id (c ∷ s) =
    is_lower c
    && elim (after_word s) [ none ↦ false | some key ↦ not (key == "") && key_within 512 key ]

unfoldable pub node_id : String → String → Result NodeError String
unfolding is_node_kind is_node_id
node_id kind key = do
  raise_if (not (is_node_kind kind)) not_node_kind
  raise_if (key == "") empty_key
  let value = kind ++ (":" ++ key)
  raise_if (not (is_node_id value)) not_node_id
  ok value

-- `value.partition(":")`, and `none` where there is no colon
unfoldable pub partition : String → Option (String × String)
partition [] = none
partition (c ∷ s) =
    let rest : Option (String × String) = elim (partition s) [
      | none ↦ none
      | some (before, after) ↦ some (c ∷ before, after)
    ] in
    if is_colon c then some ([], s) else rest

unfoldable pub node_parts : String → Result NodeError (String × String)
unfolding partition
node_parts value = elim (partition value) [
  | none ↦ raise not_node_id
  | some (kind, key) ↦ if key == "" then raise not_node_id else ok (kind, key)
]
