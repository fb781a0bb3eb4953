-- ===== src/Versioning/Canonical.antt =====
-- The texts that are read as a version.
use Prim.Native.Char.{Char, code}
use Prim.Native.String.{[], ◌∷◌}
use package.text.Mathlib.TextEquality.{Char-path}
use pgproof.Common.{
  ℕ, zero, suc, ◌+◌, ◌-◌, ◌*◌, ◌/◌, ◌%◌, ◌<◌, ◌≤◌, String, Bool, true, false, some, none, not,
  Result, ok, raise, ◌≡◌, refl, ap, sym, ◌∙◌, ltb, leb, eqn, Bool-cases, Option-cases, ◌==◌,
  text_equality, inl, inr, arith, if◌then◌else◌, ◌↔◌, ◌⊎◌,
}
use pgproof.Identifiers.Framing.{digit, digits_onto}
use pgproof.Versioning.RoundTrip.{
  code-digit, Ends, dot-Ends, end-Ends, group-number, match_version-group, parse-matched,
}
use pgproof.Versioning.Defs.{
  SchemaVersion, text, digits_from, group, behind_dot, match_version, parse_schema_version,
  is_decimal, at_end,
}

digits_onto-fuel : (f g n : ℕ) (s : String) → n ≤ f → n ≤ g → digits_onto f n s ≡ digits_onto g n s
unfolding digits_onto
digits_onto-fuel zero zero n s h k = refl
digits_onto-fuel zero (suc g) n s h k =
    let small : ltb n 10 ≡ true = ground (arith, h) in rw small refl
digits_onto-fuel (suc f) zero n s h k =
    let small : ltb n 10 ≡ true = ground (arith, k) in rw small refl
digits_onto-fuel (suc f) (suc g) n s h k = elim (Bool-cases (ltb n 10)) [
  | inl t ↦ rw t refl
  | inr e ↦ rw e (
      digits_onto-fuel f g (n / 10) (digit (n % 10) ∷ s) (ground (arith, e, h))
        (ground (arith, e, k)))
]

digits_onto-more :
    (f n d : ℕ) (s : String)
    → 0 < n
    → d < 10
    → f ≡ n * 10 + d
    → digits_onto (suc f) (n * 10 + d) s ≡ digits_onto f n (digit d ∷ s)
unfolding digits_onto
digits_onto-more f n d s h k e =
    let large : ltb (n * 10 + d) 10 ≡ false = ground (arith, h) in
    let top : (n * 10 + d) / 10 ≡ n = omega (arith, k) in
    let low : (n * 10 + d) % 10 ≡ d = omega (arith, k) in
    rw large (
      ap (λ m. digits_onto f m (digit ((n * 10 + d) % 10) ∷ s)) top
      ∙ ap (λ m. digits_onto f n (digit m ∷ s)) low)

-- One more digit behind a number.
digits_onto-digit :
    (n d : ℕ) (s : String)
    → 0 < n
    → d < 10
    → digits_onto (n * 10 + d) (n * 10 + d) s ≡ digits_onto n n (digit d ∷ s)
digits_onto-digit zero d s h k = absurd (omega (arith, h))
digits_onto-digit (suc n) d s h k =
    digits_onto-fuel (suc n * 10 + d) (suc (suc n * 10 + d)) (suc n * 10 + d) s (omega arith)
      (omega arith)
    ∙ digits_onto-more (suc n * 10 + d) (suc n) d s (omega (arith)) k refl
    ∙ digits_onto-fuel (suc n * 10 + d) (suc n) (suc n) (digit d ∷ s) (omega arith) (omega arith)

digit-code : (c : Char) → is_decimal c ≡ true → digit (code c - 48) ≡ c
digit-code c h =
    Char-path (digit (code c - 48)) c
      (ground (arith, h, code-digit (code c - 48) (ground (arith, h))))

-- What is read onto a number, and what is left, are the digits that were there.
digits_from-digits_onto :
    (n m : ℕ) (s r : String)
    → 0 < n
    → digits_from n s ≡ (m, r)
    → digits_onto n n s ≡ digits_onto m m r
unfolding digits_from
digits_from-digits_onto n m [] r h e = ap (λ (p : ℕ × String). digits_onto p.0 p.0 p.1) e
digits_from-digits_onto n m (c ∷ s) r h e = elim (Bool-cases (is_decimal c)) [
  | inl t ↦
      ap (λ d. digits_onto n n (d ∷ s)) (sym (digit-code c t))
      ∙ sym (digits_onto-digit n (code c - 48) s h (ground (arith, t)))
      ∙ digits_from-digits_onto (n * 10 + (code c - 48)) m s r (omega (arith, h)) (rw t at e)
  | inr f ↦
      let same : (n, c ∷ s) ≡ (m, r) = rw f at e in
      ap (λ (p : ℕ × String). digits_onto p.0 p.0 p.1) same
]

digits_onto-small : (f n : ℕ) (s : String) → n < 10 → digits_onto f n s ≡ (digit n ∷ s)
unfolding digits_onto
digits_onto-small zero n s h = refl
digits_onto-small (suc f) n s h = let small : ltb n 10 ≡ true = ground (arith, h) in rw small refl

first-digit :
    (c : Char) (s : String)
    → is_decimal c ≡ true
    → (c ∷ s) ≡ digits_onto (code c - 48) (code c - 48) s
first-digit c s t =
    ap (λ d. d ∷ s) (sym (digit-code c t))
    ∙ sym (digits_onto-small (code c - 48) (code c - 48) s (ground (arith, t)))

-- What the group reads is what it writes.
group-digits :
    (value : String) (n : ℕ) (rest : String)
    → group value ≡ some (n, rest)
    → value ≡ digits_onto n n rest
unfolding group
group-digits [] n rest h = cc h
group-digits (c ∷ s) n rest h = elim (Bool-cases (eqn (code c) 48)) [
  | inl t ↦
      let read : some (0, s) ≡ some (n, rest) = rw t at h in
      let none_less : code c - 48 ≡ 0 = ground (arith, t) in
      let same : (0, s) ≡ (n, rest) = cc read in
      first-digit c s (ground (arith, t))
      ∙ ap (λ m. digits_onto m m s) none_less
      ∙ ap (λ (p : ℕ × String). digits_onto p.0 p.0 p.1) same
  | inr f ↦ elim (Bool-cases (is_decimal c)) [
    | inl t ↦
        let read : some (digits_from (code c - 48) s) ≡ some (n, rest) = rw (f, t) at h in
        let same : digits_from (code c - 48) s ≡ (n, rest) = cc read in
        first-digit c s t
        ∙ digits_from-digits_onto (code c - 48) n s rest (ground (arith, f, t)) same
    | inr g ↦ let clash : none ≡ some (n, rest) = rw (f, g) at h in cc clash
  ]
]

behind_dot-dot : (s rest : String) → behind_dot s ≡ some rest → s ≡ ("." ∷ rest)
unfolding behind_dot
behind_dot-dot [] rest h = cc h
behind_dot-dot (c ∷ s) rest h = elim (Bool-cases (eqn (code c) 46)) [
  | inl t ↦
      let same : s ≡ rest = ground (arith, t, h) in
      ap (λ d. d ∷ s) (Char-path c "." (ground (arith, t))) ∙ ap (λ r. "." ∷ r) same
  | inr f ↦ ground (arith, f, h)
]

-- A version with a text behind it.
abbrev pub followed : SchemaVersion → String → String
followed v last = digits_onto v.major v.major ("." ∷ digits_onto v.minor v.minor last)

record Matched (value : String) (v : SchemaVersion) : Type 0 where
  last : String
  ends : at_end last ≡ true
  whole : value ≡ followed v last

match_version-Matched :
    (value : String) (v : SchemaVersion) → match_version value ≡ some v → Matched value v
unfolding match_version
match_version-Matched value v h = elim (Option-cases (group value)) [
  | inl n ↦ ground (arith, n, h)
  | inr ((major, dotted), e) ↦ elim (Option-cases (behind_dot dotted)) [
    | inl n ↦ ground (arith, e, n, h)
    | inr (rest, d) ↦ elim (Option-cases (group rest)) [
      | inl n ↦ ground (arith, e, d, n, h)
      | inr ((minor, last), k) ↦ elim (Bool-cases (at_end last)) [
        | inr f ↦ ground (arith, e, d, k, f, h)
        | inl t ↦
            let same : record { major = major; minor = minor } ≡ v =
              ground (arith, e, d, k, t, h) in
            record {
              last = last;
              ends = t;
              whole =
                  group-digits value major dotted e
                  ∙ ap (digits_onto major major) (
                      behind_dot-dot dotted rest d
                      ∙ ap (λ r. "." ∷ r) (group-digits rest minor last k))
                  ∙ ap (λ w. followed w last) same;
            }
      ]
    ]
  ]
]

at_end-cases : (s : String) → at_end s ≡ true → (s ≡ "") ⊎ (s ≡ "\n")
at_end-cases s h = ground (arith, h)

newline-Ends : Ends "\n"
unfolding Ends digits_from
newline-Ends n = refl

followed-match_version :
    (v : SchemaVersion) (last : String)
    → Ends last
    → at_end last ≡ true
    → match_version (followed v last) ≡ some v
followed-match_version v last e t =
    let minor = digits_onto v.minor v.minor last in
    match_version-group (followed v last) minor last v.major v.minor
      (group-number v.major ("." ∷ minor) (dot-Ends minor)) (group-number v.minor last e) t

-- A text is read as a version exactly where it is the text of that version, or that text with a
-- newline at its end.
pub parse_schema_version-cases :
    (value : String) (v : SchemaVersion)
    → (parse_schema_version value ≡ ok v) ↔ ((value ≡ text v) ⊎ (value ≡ followed v "\n"))
unfolding text pgproof.Common.text_dec parse_schema_version
parse_schema_version-cases value v = (
  λ h.
      let matched : match_version value ≡ some v = ground (arith, h) in
      let m = match_version-Matched value v matched in
      elim (at_end-cases m.last m.ends) [
        | inl e ↦ inl (m.whole ∙ ap (followed v) e)
        | inr e ↦ inr (m.whole ∙ ap (followed v) e)
      ],
  λ h. elim h [
    | inl e ↦
        ap parse_schema_version e
        ∙ parse-matched (text v) v (followed-match_version v "" end-Ends refl)
    | inr e ↦
        ap parse_schema_version e
        ∙ parse-matched (followed v "\n") v (followed-match_version v "\n" newline-Ends refl)
  ],
)
