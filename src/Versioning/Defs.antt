-- ===== src/Versioning/Defs.antt =====
-- domain/versioning.py: reading a version, and refusing another major one.
use Prim.Native.Char.{Char, code}
use Prim.Native.String.{[], ◌∷◌}
use pgproof.Common.{
  ℕ, ◌+◌, ◌-◌, ◌*◌, String, Bool, true, false, not, ◌&&◌, ◌||◌, Option, none, some, Result, ok,
  raise, ◌>>=◌, leb, eqn, if◌then◌else◌, ◌==◌, text_equality,
}
use pgproof.Identifiers.Framing.{digits_onto}

abbrev pub supported_major : ℕ
supported_major = 1

-- SchemaVersion; an unbounded number stands for an `int`, without Python's limit on its digits.
pub record SchemaVersion : Type 0 where
  pub major : ℕ
  pub minor : ℕ

-- SchemaVersion.text
unfoldable pub text : SchemaVersion → String
unfolding digits_onto
text version =
    digits_onto version.major version.major ("." ∷ digits_onto version.minor version.minor [])

-- ValueError, and its subclass IncompatibleSchemaVersionError
pub data VersionError : Type 0 where
  not_a_version incompatible : VersionError

-- `[0-9]`
abbrev pub is_decimal : Char → Bool
is_decimal c = leb 48 (code c) && leb (code c) 57

-- `[0-9]*`, read by `int` onto the digits before it, and what stands behind.
unfoldable pub digits_from : ℕ → String → ℕ × String
digits_from n [] = (n, [])
digits_from n (c ∷ s) =
    let more = digits_from (n * 10 + (code c - 48)) s in if is_decimal c then more else (n, c ∷ s)

-- `(0|[1-9][0-9]*)`: no text that fits the pattern goes on with a digit behind the group, so that
-- the longest match is the only one.
unfoldable pub group : String → Option (ℕ × String)
unfolding digits_from
group [] = none
group (c ∷ s) =
    if eqn (code c) 48
    then some (0, s)
    else if is_decimal c
    then some (digits_from (code c - 48) s)
    else none

-- `\.`
unfoldable pub behind_dot : String → Option String
behind_dot [] = none
behind_dot (c ∷ s) = if eqn (code c) 46 then some s else none

-- `$`, which holds at the end and before a newline that ends the text.
abbrev pub at_end : String → Bool
at_end s = s == "" || s == "\n"

-- `_VERSION.match(value)`, with both groups read
unfoldable pub match_version : String → Option SchemaVersion
unfolding group behind_dot
match_version value = elim (group value) [
  | none ↦ none
  | some (major, dotted) ↦ elim (behind_dot dotted) [
    | none ↦ none
    | some rest ↦ elim (group rest) [
      | none ↦ none
      | some (minor, last) ↦
          if at_end last then some (record { major = major; minor = minor }) else none
    ]
  ]
]

unfoldable pub parse_schema_version : String → Result VersionError SchemaVersion
unfolding match_version
parse_schema_version value = elim (match_version value) [
  | none ↦ raise not_a_version
  | some version ↦ ok version
]

unfoldable pub require_supported : String → Result VersionError SchemaVersion
unfolding parse_schema_version
require_supported value = do
  version ← parse_schema_version value
  if not (eqn version.major supported_major) then raise incompatible else ok version

unfoldable pub is_compatible : String → Bool
unfolding require_supported
is_compatible value = elim (require_supported value) [ ok version ↦ true | raise error ↦ false ]
