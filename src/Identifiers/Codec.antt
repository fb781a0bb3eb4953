-- ===== src/Identifiers/Codec.antt =====
-- identifiers.py: the reversible escape of logical names, and the table and column identities.
-- A text is the sequence of its code points. An error keeps its kind and drops its message.
use Prim.Native.Char.{Char, code}
use Prim.Native.String.{[], ◌∷◌, ◌++◌}
use pgproof.Common.{
  ℕ, String, Bool, false, ◌||◌, List, push, Result, ok, raise, ◌>>=◌, ◌>>◌, raise_if, length, any,
  eqn, ◌==◌, text_equality, if◌then◌else◌,
}

pub data IdentityError : Type 0 where
  no_names empty_name name_with_nul : IdentityError
  identity_with_nul dangling_escape invalid_escape empty_part wrong_count : IdentityError

-- SEPARATOR and ESCAPE
abbrev pub separator : ℕ
separator = 0x2e

abbrev pub escape : ℕ
escape = 0x5c

-- `value.replace(old, new)` for a single character `old`
unfoldable pub replace : ℕ → String → String → String
replace old new [] = []
replace old new (c ∷ s) =
    let rest = replace old new s in if eqn (code c) old then new ++ rest else c ∷ rest

-- `"\x00" in name`
unfoldable pub has_nul : String → Bool
has_nul [] = false
has_nul (c ∷ s) = eqn (code c) 0 || has_nul s

unfoldable pub encode_part : String → Result IdentityError String
unfolding replace has_nul
encode_part name = do
  raise_if (name == "") empty_name
  raise_if (has_nul name) name_with_nul
  ok (replace separator "\\." (replace escape "\\\\" name))

-- `SEPARATOR.join(_encode_part(name) for name in names)` over at least one name
unfoldable pub join_parts : String → List String → Result IdentityError String
unfolding encode_part
join_parts name List.[] = encode_part name
join_parts name (List.◌∷◌ next names) = do
  part ← encode_part name
  rest ← join_parts next names
  ok (part ++ "." ++ rest)

unfoldable pub encode_identity : List String → Result IdentityError String
unfolding join_parts
encode_identity List.[] = raise no_names
encode_identity (List.◌∷◌ name names) = join_parts name names

-- What the loop of `decode_identity` does with a character.
pub data Kind : Type 0 where
  nul backslash dot plain : Kind

unfoldable pub kind : Char → Kind
kind c =
    if eqn (code c) 0
    then nul
    else if eqn (code c) escape
    then backslash
    else if eqn (code c) separator
    then dot
    else plain

-- after the loop: the last part is closed, and no part may be empty
unfoldable pub close_parts : List String → String → Result IdentityError (List String)
close_parts parts current = do
  let all_parts = push parts current
  raise_if (any (λ part. part == "") all_parts) empty_part
  ok all_parts

unfoldable mutual
  unfolding kind close_parts

  -- The `while` loop, over the characters that are left.
  pub decode_loop : List String → String → String → Result IdentityError (List String)
  decode_loop parts current [] = close_parts parts current
  decode_loop parts current (c ∷ rest) = elim (kind c) [
    | nul ↦ raise identity_with_nul
    | backslash ↦ decode_escaped parts current rest
    | dot ↦ decode_loop (push parts current) [] rest
    | plain ↦ decode_loop parts (current ++ (c ∷ [])) rest
  ]

  pub decode_escaped : List String → String → String → Result IdentityError (List String)
  decode_escaped parts current [] = raise dangling_escape
  decode_escaped parts current (c ∷ rest) =
      let taken = decode_loop parts (current ++ (c ∷ [])) rest in
      if eqn (code c) separator || eqn (code c) escape then taken else raise invalid_escape

unfoldable pub decode_identity : String → Result IdentityError (List String)
unfolding decode_loop decode_escaped
decode_identity value = decode_loop List.[] [] value

unfoldable pub validate_parts : String → ℕ → Result IdentityError String
unfolding decode_identity
validate_parts value expected = do
  parts ← decode_identity value
  if eqn (length parts) expected then ok value else raise wrong_count

unfoldable pub validate_table_id : String → Result IdentityError String
unfolding validate_parts
validate_table_id value = validate_parts value 2

unfoldable pub validate_column_id : String → Result IdentityError String
unfolding validate_parts
validate_column_id value = validate_parts value 3

unfoldable pub table_id : String → String → Result IdentityError String
unfolding encode_identity validate_table_id
table_id schema table = do
  value ← encode_identity (List.◌∷◌ schema (List.◌∷◌ table List.[]))
  validate_table_id value

-- `schema_name, table_name = parts`: unpacking raises on another number of parts
unfoldable pub unpack_two : List String → Result IdentityError (String × String)
unpack_two (List.◌∷◌ a (List.◌∷◌ b List.[])) = ok (a, b)
unpack_two _ = raise wrong_count

unfoldable pub unpack_three : List String → Result IdentityError (String × String × String)
unpack_three (List.◌∷◌ a (List.◌∷◌ b (List.◌∷◌ c List.[]))) = ok (a, b, c)
unpack_three _ = raise wrong_count

unfoldable pub table_names : String → Result IdentityError (String × String)
unfolding decode_identity unpack_two
table_names value = do parts ← decode_identity value; unpack_two parts

unfoldable pub column_names : String → Result IdentityError (String × String × String)
unfolding decode_identity unpack_three
column_names value = do parts ← decode_identity value; unpack_three parts

unfoldable pub column_id : String → String → Result IdentityError String
unfolding encode_identity validate_column_id table_names
column_id table column = do
  names ← table_names table
  value ← encode_identity (List.◌∷◌ names.0 (List.◌∷◌ names.1 (List.◌∷◌ column List.[])))
  validate_column_id value
