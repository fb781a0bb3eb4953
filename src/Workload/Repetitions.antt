-- ===== src/Workload/Repetitions.antt =====
-- What the amplifications of an operation say, and that they are always found.
use pgproof.Common.{
  ℕ, zero, suc, ◌+◌, ◌≤◌, ◌<◌, String, false, some, List, [], ◌∷◌, ◌++◌, ◌≡◌, ◌≢◌, refl, ap, ◌∙◌,
  subst, inl, inr, arith, length, ltb, All, All-append, Bool-cases, Option-cases, ◌==◌,
  text_equality, ne_of_test,
}
use pgproof.Common.Dict.{Dict, get, get_or, put}
use pgproof.Ir.{SchemaIr, AmplificationIr}
use pgproof.Workload.Amplification.{
  Occurrence, positions_from, at_position, children_at, parent_before, amplification, amplified,
  amplified_all, amplifications,
}

parent_before-ne :
    (query : String) (os : List Occurrence) (n : ℕ) (p : Occurrence)
    → parent_before query os n ≡ some p
    → p.query_id ≢ query
unfolding parent_before
parent_before-ne query [] n p h = cc h
parent_before-ne query (o ∷ os) zero p h = cc h
parent_before-ne query (o ∷ os) (suc n) p h = elim (Option-cases (parent_before query os n)) [
  | inr (q, s) ↦ parent_before-ne query os n p (s ∙ rw s at h)
  | inl t ↦ elim (Bool-cases (o.query_id == query)) [
    | inl y ↦ cc (rw y at (rw t at h))
    | inr f ↦
        subst (λ (x : Occurrence). x.query_id ≢ query)
          (let e : o ≡ p = cc (rw f at (rw t at h)) in e) (ne_of_test o.query_id query f)
  ]
]

-- Positions that stand in a list of a length.
abbrev IsWithin : ℕ → List ℕ → Type 0
IsWithin n indexes = All (λ i. i < n) indexes

at_position-total :
    (os : List Occurrence) (i : ℕ) → i < length os → (o : Occurrence) × (at_position os i ≡ some o)
unfolding at_position
at_position-total [] i h = absurd (omega (arith, h))
at_position-total (o ∷ os) zero h = (o, refl)
at_position-total (o ∷ os) (suc i) h = at_position-total os i (omega (arith, h))

children_at-total :
    (os : List Occurrence) (indexes : List ℕ)
    → IsWithin (length os) indexes
    → (cs : List Occurrence) × (children_at os indexes ≡ some cs) × (length cs ≡ length indexes)
unfolding children_at
children_at-total os [] h = ([], refl, refl)
children_at-total os (i ∷ is) h =
    let (o, found) = at_position-total os i h.0 in
    let (cs, rest, same) = children_at-total os is h.1 in
    (o ∷ cs, rw (children_at, found) (rw (children_at, rest) refl), ap suc same)

abbrev IsWithinAll : ℕ → Dict String (List ℕ) → Type 0
IsWithinAll n d = All (λ (e : String × List ℕ). IsWithin n e.1) d

IsWithinAll-put :
    (n : ℕ) (k : String) (v : List ℕ) (d : Dict String (List ℕ))
    → IsWithin n v
    → IsWithinAll n d
    → IsWithinAll n (put k v d)
unfolding put
IsWithinAll-put n k v [] good h = (good, tt)
IsWithinAll-put n k v ((j, is) ∷ d) good h = elim (Bool-cases (j == k)) [
  | inl t ↦ rw t (good, h.1)
  | inr f ↦ rw f (h.0, IsWithinAll-put n k v d good h.1)
]

get_or-IsWithin :
    (n : ℕ) (k : String) (d : Dict String (List ℕ)) → IsWithinAll n d → IsWithin n (get_or [] k d)
unfolding get
get_or-IsWithin n k [] h = tt
get_or-IsWithin n k ((j, is) ∷ d) h = elim (Bool-cases (j == k)) [
  | inl t ↦ rw (get_or, t) h.0
  | inr f ↦ rw (get_or, f) (get_or-IsWithin n k d h.1)
]

positions_from-IsWithinAll :
    (index n : ℕ) (os : List Occurrence) (d : Dict String (List ℕ))
    → index + length os ≤ n
    → IsWithinAll n d
    → IsWithinAll n (positions_from index os d)
unfolding positions_from
positions_from-IsWithinAll index n [] d room h = h
positions_from-IsWithinAll index n (o ∷ os) d room h =
    positions_from-IsWithinAll (suc index) n os _ (omega (arith, room)) (
      IsWithinAll-put n o.query_id _ d
        (All-append (λ x. x < n) (get_or [] o.query_id d) (index ∷ [])
          (get_or-IsWithin n o.query_id d h) (omega (arith, room), tt))
        h)

module _ (schema : SchemaIr) (min_repetitions : ℕ) where
  -- Another query came first, and the child was executed often enough.
  abbrev pub IsRepetition : AmplificationIr → Type 0
  IsRepetition a = (a.parent_query ≢ a.child_query) × (min_repetitions ≤ a.repetitions)

  amplified-IsRepetition :
      (os : List Occurrence) (query : String) (indexes : List ℕ)
      → IsWithin (length os) indexes
      → (found : List AmplificationIr) × (amplified schema min_repetitions os query indexes
          ≡ some found)
        × All IsRepetition found
  unfolding amplified
  amplified-IsRepetition os query [] h = ([], refl, tt)
  amplified-IsRepetition os query (i ∷ is) h =
      elim (Bool-cases (ltb (length (i ∷ is)) min_repetitions)) [
        | inl few ↦ ([], rw few refl, tt)
        | inr enough ↦ elim (Option-cases (parent_before query os i)) [
          | inl n ↦ ([], rw enough (rw (amplified, n) refl), tt)
          | inr (p, s) ↦ several enough p s (children_at-total os (i ∷ is) h)
        ]
      ]
    where
      several :
          ltb (length (i ∷ is)) min_repetitions ≡ false
          → (p : Occurrence) → parent_before query os i ≡ some p
          → (cs : List Occurrence) × (children_at os (i ∷ is) ≡ some cs)
            × (length cs ≡ length (i ∷ is))
          → (found : List AmplificationIr) × (amplified schema min_repetitions os query (i ∷ is)
              ≡ some found)
            × All IsRepetition found
      several enough p s ([], c, same) = absurd (omega (arith, same))
      several enough p s (x ∷ xs, c, same) = (
        amplification schema min_repetitions query p x (x ∷ xs) ∷ [],
        rw enough (rw (amplified, s) (rw (amplified, c) refl)),
        ((parent_before-ne query os i p s, ground arith), tt),
      )

  amplified_all-IsRepetition :
      (os : List Occurrence) (d : Dict String (List ℕ))
      → IsWithinAll (length os) d
      → (found : List AmplificationIr) × (amplified_all schema min_repetitions os d ≡ some found)
        × All IsRepetition found
  unfolding amplified_all
  amplified_all-IsRepetition os [] h = ([], refl, tt)
  amplified_all-IsRepetition os ((query, indexes) ∷ d) h =
      let (first, a, good) = amplified-IsRepetition os query indexes h.0 in
      let (rest, b, fine) = amplified_all-IsRepetition os d h.1 in
      (
        first ++ rest,
        rw (amplified_all, a) (rw (amplified_all, b) refl),
        All-append IsRepetition first rest good fine,
      )

  -- For the occurrences of an operation, whatever they are, the amplifications are found (no position
  -- is outside the occurrences), and each names a parent of another query and counts at least the
  -- required number of repetitions of its child.
  pub amplifications-IsRepetition :
      (occurrences : List Occurrence)
      → (found : List AmplificationIr) × (amplifications schema min_repetitions occurrences
          ≡ some found)
        × All IsRepetition found
  unfolding amplifications
  amplifications-IsRepetition occurrences =
      amplified_all-IsRepetition occurrences (positions_from 0 occurrences [])
        (positions_from-IsWithinAll 0 (length occurrences) occurrences [] (omega arith) tt)
