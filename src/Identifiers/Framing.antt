-- ===== src/Identifiers/Framing.antt =====
-- identifiers.py: `frame_components`, the compact JSON of a list of components. `json.dumps` is
-- written out for the values that the source frames; each writer puts its text before a given rest.
pub mod Readers
pub mod Injective
mod Samples
use Prim.Native.Char.{Char, code}
use Prim.Native.String.{◌∷◌}
use pgproof.Common.{ℕ, zero, suc, ◌/◌, ◌%◌, String, List, ltb, eqn, if◌then◌else◌}

-- None, a text, a natural number, or a list of texts
pub data Component : Type 0 where
  null : Component
  text : String → Component
  number : ℕ → Component
  texts : List String → Component

unfoldable pub pick : ℕ → String → Char
pick n String.[] = "0"
pick zero (String.◌∷◌ c s) = c
pick (suc n) (String.◌∷◌ c s) = pick n s

-- A hexadecimal digit, which below ten is a decimal one
unfoldable pub digit : ℕ → Char
unfolding pick
digit n = pick n "0123456789abcdef"

-- `\` and one letter
abbrev pub short : Char → String → String
short letter rest = "\\" ∷ letter ∷ rest

-- A character inside of a JSON text, under `ensure_ascii=False`.
unfoldable pub char_onto : Char → String → String
unfolding digit
char_onto c rest =
    if eqn (code c) 0x22
    then short "\"" rest
    else if eqn (code c) 0x5c
    then short "\\" rest
    else if eqn (code c) 10
    then short "n" rest
    else if eqn (code c) 13
    then short "r" rest
    else if eqn (code c) 9
    then short "t" rest
    else if eqn (code c) 12
    then short "f" rest
    else if eqn (code c) 8
    then short "b" rest
    else if ltb (code c) 32
    then short "u" ("0" ∷ "0" ∷ digit (code c / 16) ∷ digit (code c % 16) ∷ rest)
    else c ∷ rest

unfoldable pub chars_onto : String → String → String
unfolding char_onto
chars_onto String.[] rest = "\"" ∷ rest
chars_onto (String.◌∷◌ c s) rest = char_onto c (chars_onto s rest)

abbrev pub text_onto : String → String → String
text_onto s rest = "\"" ∷ chars_onto s rest

-- The decimal digits of a number; a number has at most as many digits as `fuel = n` gives rounds.
unfoldable pub digits_onto : ℕ → ℕ → String → String
unfolding digit
digits_onto zero n rest = digit n ∷ rest
digits_onto (suc fuel) n rest =
    let more = digits_onto fuel (n / 10) (digit (n % 10) ∷ rest) in
    if ltb n 10 then digit n ∷ rest else more

module _ {ℓ} {A : Type ℓ} (onto : A → String → String) where
  unfoldable pub items_onto : List A → String → String
  items_onto List.[] rest = "]" ∷ rest
  items_onto (List.◌∷◌ x xs) rest = "," ∷ onto x (items_onto xs rest)

  unfoldable pub list_onto : List A → String → String
  unfolding items_onto
  list_onto List.[] rest = "[" ∷ "]" ∷ rest
  list_onto (List.◌∷◌ x xs) rest = "[" ∷ onto x (items_onto xs rest)

unfoldable pub component_onto : Component → String → String
unfolding chars_onto digits_onto list_onto
component_onto null rest = "n" ∷ "u" ∷ "l" ∷ "l" ∷ rest
component_onto (text s) rest = text_onto s rest
component_onto (number n) rest = digits_onto n n rest
component_onto (texts xs) rest = list_onto text_onto xs rest

unfoldable pub frame_components : List Component → String
unfolding list_onto component_onto
frame_components components = list_onto component_onto components ""
