-- ===== src/Candidates/Generation.antt =====
-- generate_candidates as a whole: what its result promises of the predicates it was given.
use pgproof.Common.{
  String, some, List, [], ◌∷◌, ◌≡◌, refl, ap, sym, ◌∙◌, subst, ◌⊎◌, inl, inr, arith, In, push,
  Bool-cases, ◌==◌, ok, >>=-eq-ok, text_equality, eq_of_test, test_of_eq, In-push_last,
  In-append_left,
}
use pgproof.Common.Dict.{Dict, get, get_or, put, get-put}
use pgproof.Ir.{SchemaIr}
use pgproof.Candidates.Defs.{
  ExtractedPredicate, CandidateGenerationResult, Progress, consider_tables, group_by_table,
  generate_candidates,
}
use pgproof.Candidates.Selection.{IsSoundProgress, candidate_keys, discarded_keys}
use pgproof.Candidates.Coverage.{consider_tables-IsSoundProgress, consider_tables-seen}

get-In : {V : Type 0} (k : String) (d : Dict String V) (v : V) → get k d ≡ some v → In (k, v) d
unfolding get
get-In k [] v h = cc h
get-In k ((j, w) ∷ d) v h = elim (Bool-cases (j == k)) [
  | inl t ↦ let same : w ≡ v = cc (rw t at h) in inl (λ i. (sym (eq_of_test j k t) i, sym same i))
  | inr f ↦ inr (get-In k d v (rw f at h))
]

abbrev IsGrouped : ExtractedPredicate → Dict String (List ExtractedPredicate) → Type 0
IsGrouped p d = (ps : List ExtractedPredicate) × (get p.table d ≡ some ps) × In p ps

insert-IsGrouped :
    (p q : ExtractedPredicate) (d : Dict String (List ExtractedPredicate))
    → (p ≡ q) ⊎ IsGrouped p d
    → IsGrouped p (put q.table (push (get_or [] q.table d) q) d)
insert-IsGrouped p q d (inl e) = (
  push (get_or [] q.table d) q,
  get-put q.table p.table (push (get_or [] q.table d) q) d
      ∙ rw (test_of_eq q.table p.table (ap (λ (r : ExtractedPredicate). r.table) (sym e))) refl,
  rw e (In-push_last q (get_or [] q.table d)),
)
insert-IsGrouped p q d (inr (ps, found, m)) = elim (Bool-cases (q.table == p.table)) [
  | inr f ↦ (ps, get-put q.table p.table (push (get_or [] q.table d) q) d ∙ rw f found, m)
  | inl t ↦ (
    push (get_or [] q.table d) q,
    get-put q.table p.table (push (get_or [] q.table d) q) d ∙ rw t refl,
    In-append_left p (get_or [] q.table d) (q ∷ [])
        (rw (eq_of_test q.table p.table t) (rw (get_or, found) m)),
  )
]

group_by_table-IsGrouped :
    (ps : List ExtractedPredicate) (d : Dict String (List ExtractedPredicate))
    (p : ExtractedPredicate)
    → In p ps ⊎ IsGrouped p d
    → IsGrouped p (group_by_table d ps)
unfolding group_by_table
group_by_table-IsGrouped [] d p (inl m) = elim m [ ]
group_by_table-IsGrouped [] d p (inr g) = g
group_by_table-IsGrouped (q ∷ qs) d p m =
    group_by_table-IsGrouped qs (put q.table (push (get_or [] q.table d) q) d) p (elim m [
      | inl (inl e) ↦ inr (insert-IsGrouped p q d (inl e))
      | inl (inr later) ↦ inl later
      | inr g ↦ inr (insert-IsGrouped p q d (inr g))
    ])

abbrev start : Progress
start = record { candidates = []; discarded = []; seen = [] }

start-IsSoundProgress : (schema : SchemaIr) → IsSoundProgress schema start
start-IsSoundProgress schema = record {
  sound = record { budget = omega arith; useful = tt; distinct = tt; justified = tt };
  recorded = tt;
  accounted = λ k m. elim m [ ];
}

-- Where generate_candidates returns, the single-column shape of each predicate is the shape of a
-- candidate or of a discarded one.
pub generate_candidates-covers :
    (schema : SchemaIr) (predicates : List ExtractedPredicate) (r : CandidateGenerationResult)
    (p : ExtractedPredicate)
    → generate_candidates schema predicates ≡ ok r
    → In p predicates
    → In (p.table, p.column ∷ []) (candidate_keys r.candidates)
      ⊎ In (p.table, p.column ∷ []) (discarded_keys r.discarded)
unfolding generate_candidates
generate_candidates-covers schema predicates r p h m =
    let tables = group_by_table [] predicates in
    let (g, run, e) = >>=-eq-ok (consider_tables schema tables start) _ h in
    let (ps, found, inside) = group_by_table-IsGrouped predicates [] p (inl m) in
    let seen =
      consider_tables-seen schema tables start g (p.table, p.column ∷ []) run
        (inr (p, p.table, ps, get-In p.table tables ps found, inside, refl)) in
    subst
      (λ (x : CandidateGenerationResult).
        In (p.table, p.column ∷ []) (candidate_keys x.candidates)
        ⊎ In (p.table, p.column ∷ []) (discarded_keys x.discarded))
      (cc e)
      ((consider_tables-IsSoundProgress schema tables start g run
          (start-IsSoundProgress schema)).accounted
        (p.table, p.column ∷ []) seen)
