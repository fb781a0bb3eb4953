-- ===== src/Identifiers/Framing/Readers.antt =====
-- Readers that undo the framing of one character and of one number.
use Prim.Native.Char.{Char, code}
use Prim.Native.String.{[], ◌∷◌}
use pgproof.Common.{
  ℕ, zero, suc, ◌+◌, ◌-◌, ◌*◌, ◌/◌, ◌%◌, ◌<◌, ◌≤◌, String, Bool, true, false, ◌&&◌, Option, none,
  some, ◌≡◌, refl, ap, ◌∙◌, ltb, leb, eqn, if◌then◌else◌, Bool-cases, inl, inr, arith,
}
use pgproof.Identifiers.Framing.{pick, digit, char_onto, digits_onto}

eqn-eq : (m n : ℕ) → eqn m n ≡ true → m ≡ n
eqn-eq m n h = ground (arith, h)

abbrev pub head_code : String → ℕ
head_code [] = 0
head_code (c ∷ s) = code c

abbrev pub behind : String → String
behind [] = []
behind (c ∷ s) = s

-- The value of a digit's code.
abbrev pub value : ℕ → ℕ
value n = if ltb n 58 then n - 48 else n - 87

-- A test that holds of each number below a bound.
all_below : (ℕ → Bool) → ℕ → Bool
all_below p zero = true
all_below p (suc n) = p n && all_below p n

at_below : (p : ℕ → Bool) (bound n : ℕ) → all_below p bound ≡ true → n < bound → p n ≡ true
unfolding all_below
at_below p zero n h k = absurd (omega (arith, k))
at_below p (suc bound) n h k = elim (Bool-cases (eqn n bound)) [
  | inl t ↦ rw (eqn-eq n bound t) (ground (arith, h))
  | inr f ↦ at_below p bound n (ground (arith, h)) (ground (arith, f, k))
]

pub value-digit : (n : ℕ) → n < 16 → value (code (digit n)) ≡ n
unfolding digit all_below pick
value-digit n h = eqn-eq _ n (at_below (λ m. eqn (value (code (digit m))) m) 16 n refl h)

abbrev pub is_digit : ℕ → Bool
is_digit n = leb 48 n && ltb n 58

pub digit-is_digit : (n : ℕ) → n < 10 → is_digit (code (digit n)) ≡ true
unfolding digit all_below pick
digit-is_digit n h = at_below (λ m. is_digit (code (digit m))) 10 n refl h

-- What a letter behind a backslash stands for.
abbrev letter : ℕ → ℕ
letter n =
    if eqn n 0x6e
    then 10
    else if eqn n 0x72
    then 13
    else if eqn n 0x74
    then 9
    else if eqn n 0x66
    then 12
    else if eqn n 0x62
    then 8
    else n

read_hex : String → Option (ℕ × String)
read_hex (a ∷ b ∷ c ∷ d ∷ s) = some (value (code c) * 16 + value (code d), s)
read_hex _ = none

read_escape : String → Option (ℕ × String)
unfolding read_hex
read_escape [] = none
read_escape (c ∷ s) = if eqn (code c) 0x75 then read_hex s else some (letter (code c), s)

-- The next character of a JSON text, or none at its closing quote.
pub read_char : String → Option (ℕ × String)
unfolding read_escape
read_char [] = none
read_char (c ∷ s) =
    if eqn (code c) 0x22
    then none
    else if eqn (code c) 0x5c
    then read_escape s
    else some (code c, s)

hex-value :
    (n : ℕ) → n < 32 → value (code (digit (n / 16))) * 16 + value (code (digit (n % 16))) ≡ n
hex-value n h =
    omega (arith, value-digit (n / 16) (omega (arith, h)), value-digit (n % 16) (omega arith), h)

pub read_char-char_onto :
    (c : Char) (rest : String) → read_char (char_onto c rest) ≡ some (code c, rest)
unfolding read_char char_onto read_escape read_hex
read_char-char_onto c rest = ground (arith, hex-value (code c))

read_digits : ℕ → String → ℕ × String
read_digits n [] = (n, [])
read_digits n (c ∷ s) =
    let more = read_digits (n * 10 + value (code c)) s in
    if is_digit (code c) then more else (n, c ∷ s)

pub read_number : String → ℕ × String
unfolding read_digits
read_number s = read_digits 0 s

next_digit :
    (n d : ℕ) (rest : String)
    → d < 10
    → read_digits n (digit d ∷ rest) ≡ read_digits (n * 10 + d) rest
unfolding read_digits
next_digit n d rest h =
    rw (digit-is_digit d h)
      (ap (λ m. read_digits (n * 10 + m) rest) (value-digit d (omega (arith, h))))

last_digit : (n : ℕ) (rest : String) → n < 10 → read_digits 0 (digit n ∷ rest) ≡ read_digits n rest
last_digit n rest h = next_digit 0 n rest h ∙ ap (λ m. read_digits m rest) (omega arith)

digits_onto-read :
    (fuel n : ℕ) (rest : String)
    → n ≤ fuel
    → read_digits 0 (digits_onto fuel n rest) ≡ read_digits n rest
unfolding digits_onto read_digits
digits_onto-read zero n rest h = last_digit n rest (omega (arith, h))
digits_onto-read (suc fuel) n rest h = elim (Bool-cases (ltb n 10)) [
  | inl t ↦ rw t (last_digit n rest (ground (arith, t)))
  | inr f ↦ rw f (
      digits_onto-read fuel (n / 10) (digit (n % 10) ∷ rest) (ground (arith, f, h))
      ∙ next_digit (n / 10) (n % 10) rest (omega arith)
      ∙ ap (λ m. read_digits m rest) (omega arith))
]

-- A rest that no digit stands at the head of.
abbrev pub Ends : String → Type 0
Ends s = is_digit (head_code s) ≡ false

read_digits-Ends : (n : ℕ) (rest : String) → Ends rest → read_digits n rest ≡ (n, rest)
unfolding read_digits
read_digits-Ends n [] h = refl
read_digits-Ends n (c ∷ s) h = rw h refl

pub read_number-digits_onto :
    (n : ℕ) (rest : String) → Ends rest → read_number (digits_onto n n rest) ≡ (n, rest)
unfolding read_number
read_number-digits_onto n rest h =
    digits_onto-read n n rest (omega arith) ∙ read_digits-Ends n rest h

-- The text of a number starts with a digit.
pub digit_head :
    (fuel n : ℕ) (rest : String) → n ≤ fuel → is_digit (head_code (digits_onto fuel n rest)) ≡ true
unfolding digits_onto
digit_head zero n rest h = digit-is_digit n (omega (arith, h))
digit_head (suc fuel) n rest h = elim (Bool-cases (ltb n 10)) [
  | inl t ↦ rw t (digit-is_digit n (ground (arith, t)))
  | inr f ↦ rw f (digit_head fuel (n / 10) (digit (n % 10) ∷ rest) (ground (arith, f, h)))
]

pub read_char-quote : (rest : String) → read_char ("\"" ∷ rest) ≡ none
unfolding read_char
read_char-quote rest = refl
