-- ===== src/Versioning/RoundTrip.antt =====
-- A version that is written out is read back, and taken by a reader of its major version.
use Prim.Native.Char.{code}
use Prim.Native.String.{[], ◌∷◌}
use pgproof.Common.{
  ℕ, zero, suc, ◌+◌, ◌*◌, ◌/◌, ◌%◌, ◌<◌, ◌≤◌, String, Bool, true, false, some, not, Result, ok,
  raise, ◌≡◌, refl, ap, ◌∙◌, ltb, leb, eqn, Bool-cases, inl, inr, arith, if◌then◌else◌, ◌↔◌,
}
use pgproof.Identifiers.Framing.{digit, digits_onto}
use pgproof.Identifiers.Framing.Readers.{value-digit, digit-is_digit}
use pgproof.Versioning.Defs.{
  SchemaVersion, text, digits_from, group, behind_dot, match_version, parse_schema_version,
  require_supported, is_compatible, supported_major, incompatible, is_decimal, at_end,
}

pub code-digit : (d : ℕ) → d < 10 → code (digit d) ≡ 48 + d
code-digit d h = ground (arith, h, digit-is_digit d h, value-digit d (omega (arith, h)))

digit-is_decimal : (d : ℕ) → d < 10 → is_decimal (digit d) ≡ true
digit-is_decimal d h = ground (arith, h, code-digit d h)

digits_from-digit :
    (n d : ℕ) (rest : String)
    → d < 10
    → digits_from n (digit d ∷ rest) ≡ digits_from (n * 10 + d) rest
unfolding digits_from
digits_from-digit n d rest h =
    rw (digit-is_decimal d h)
      (ap (λ m. digits_from (n * 10 + m) rest) (omega (arith, code-digit d h)))

group-digit :
    (d : ℕ) (rest : String) → 0 < d → d < 10 → group (digit d ∷ rest) ≡ some (digits_from d rest)
unfolding group
group-digit d rest h k =
    let positive : eqn (code (digit d)) 48 ≡ false = ground (arith, h, code-digit d k) in
    rw (positive, digit-is_decimal d k)
      (ap (λ m. some (digits_from m rest)) (omega (arith, code-digit d k)))

group-digits_onto :
    (fuel n : ℕ) (rest : String)
    → 0 < n
    → n ≤ fuel
    → group (digits_onto fuel n rest) ≡ some (digits_from n rest)
unfolding digits_onto
group-digits_onto zero n rest h k = absurd (omega (arith, h, k))
group-digits_onto (suc fuel) n rest h k = elim (Bool-cases (ltb n 10)) [
  | inl t ↦ rw t (group-digit n rest h (ground (arith, t)))
  | inr f ↦ rw f (
      group-digits_onto fuel (n / 10) (digit (n % 10) ∷ rest) (ground (arith, f))
        (ground (arith, f, k))
      ∙ ap some (digits_from-digit (n / 10) (n % 10) rest (omega arith))
      ∙ ap (λ m. some (digits_from m rest)) (omega arith))
]

-- A rest that no digit stands at the head of.
unfoldable pub Ends : String → Type 0
Ends rest = (n : ℕ) → digits_from n rest ≡ (n, rest)

pub dot-Ends : (s : String) → Ends ("." ∷ s)
unfolding Ends digits_from
dot-Ends s n = refl

pub end-Ends : Ends []
unfolding Ends digits_from
end-Ends n = refl

pub group-number :
    (n : ℕ) (rest : String) → Ends rest → group (digits_onto n n rest) ≡ some (n, rest)
unfolding Ends digits_onto group
group-number zero rest h = refl
group-number (suc n) rest h =
    group-digits_onto (suc n) (suc n) rest (omega arith) (omega arith) ∙ ap some (h (suc n))

pub match_version-group :
    (value rest last : String) (major minor : ℕ)
    → group value ≡ some (major, "." ∷ rest)
    → group rest ≡ some (minor, last)
    → at_end last ≡ true
    → match_version value ≡ some (record { major = major; minor = minor })
unfolding match_version behind_dot
match_version-group value rest last major minor h k t = rw (match_version, h, k, t) refl

match_version-text : (v : SchemaVersion) → match_version (text v) ≡ some v
unfolding text pgproof.Common.text_dec
match_version-text v =
    let minor = digits_onto v.minor v.minor [] in
    match_version-group (text v) minor [] v.major v.minor
      (group-number v.major ("." ∷ minor) (dot-Ends minor)) (group-number v.minor [] end-Ends) refl

module _ (value : String) (v : SchemaVersion) (h : match_version value ≡ some v) where
  pub parse-matched : parse_schema_version value ≡ ok v
  unfolding parse_schema_version
  parse-matched = rw (parse_schema_version, h) refl

  require-matched :
      require_supported value
      ≡ (if not (eqn v.major supported_major) then raise incompatible else ok v)
  unfolding require_supported
  require-matched = rw (require_supported, parse-matched) refl

-- A version that is written out is read back as it was, and a reader takes it exactly where its
-- major version is the one that is supported, whatever its minor one.
pub parse_schema_version-text :
    (v : SchemaVersion)
    → (parse_schema_version (text v) ≡ ok v)
      × ((require_supported (text v) ≡ ok v) ↔ (v.major ≡ supported_major))
      × ((is_compatible (text v) ≡ true) ↔ (v.major ≡ supported_major))
unfolding is_compatible
parse_schema_version-text v =
    let required = require-matched (text v) v (match_version-text v) in
    (
      parse-matched (text v) v (match_version-text v),
      (λ h. ground (arith, h, required), λ h. ground (arith, h, required)),
      (λ h. ground (arith, h, required), λ h. ground (arith, h, required)),
    )
