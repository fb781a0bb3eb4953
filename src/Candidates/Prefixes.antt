-- ===== src/Candidates/Prefixes.antt =====
-- When an existing key sequence serves a candidate: its columns are a prefix of the sequence.
use pgproof.Common.{
  String, none, some, List, [], ◌∷◌, ◌++◌, ◌≡◌, ◌≢◌, refl, ap, sym, ◌∙◌, inl, inr, length, In,
  Bool-cases, ◌==◌, list_equality, text_equality, eq_of_test, ne_of_test,
}
use pgproof.Candidates.Defs.{take, duplicate_of}

-- An index or key of the name has the columns as a prefix of its own.
abbrev pub IsServed : List (String × List String) → List String → String → Type 0
IsServed existing columns name =
    (sequence : List String) × (rest : List String) × In (name, sequence) existing
    × (sequence ≡ columns ++ rest)

abbrev pub IsUnserved : List (String × List String) → List String → Type 0
IsUnserved existing columns =
    (name : String) (sequence rest : List String)
    → In (name, sequence) existing
    → sequence ≢ columns ++ rest

take-append : {A : Type 0} (xs ys : List A) → take (length xs) (xs ++ ys) ≡ xs
unfolding take
take-append [] ys = refl
take-append (x ∷ xs) ys = ap (λ r. x ∷ r) (take-append xs ys)

take-split :
    (columns sequence : List String)
    → take (length columns) sequence ≡ columns
    → (rest : List String) × (sequence ≡ columns ++ rest)
unfolding take
take-split [] sequence h = (sequence, refl)
take-split (c ∷ cs) [] h = cc h
take-split (c ∷ cs) (x ∷ xs) h = let (rest, p) = take-split cs xs (cc h) in (rest, cc (h, p))

pub duplicate_of-IsServed :
    (columns : List String) (existing : List (String × List String)) (name : String)
    → duplicate_of columns existing ≡ some name
    → IsServed existing columns name
unfolding duplicate_of
duplicate_of-IsServed columns [] name h = cc h
duplicate_of-IsServed columns ((other, sequence) ∷ existing) name h =
    elim (Bool-cases (take (length columns) sequence == columns)) [
      | inl t ↦
          let (rest, p) =
            take-split columns sequence (eq_of_test (take (length columns) sequence) columns t) in
          (sequence, rest, inl (ap (λ n. (n, sequence)) (sym (cc (rw t at h)))), p)
      | inr f ↦
          let (s, rest, m, p) = duplicate_of-IsServed columns existing name (rw f at h) in
          (s, rest, inr m, p)
    ]

pub duplicate_of-IsUnserved :
    (columns : List String) (existing : List (String × List String))
    → duplicate_of columns existing ≡ none
    → IsUnserved existing columns
unfolding duplicate_of
duplicate_of-IsUnserved columns [] h name sequence rest m p = elim m [ ]
duplicate_of-IsUnserved columns ((other, first) ∷ existing) h name sequence rest m p =
    elim (Bool-cases (take (length columns) first == columns)) [
      | inl t ↦ cc (rw t at h)
      | inr f ↦ elim m [
        | inl q ↦ ne_of_test (take (length columns) first) columns f (
            ap (λ r. take (length columns) r) (sym (ap (λ r. r.1) q) ∙ p)
            ∙ take-append columns rest)
        | inr k ↦ duplicate_of-IsUnserved columns existing (rw f at h) name sequence rest k p
      ]
    ]
