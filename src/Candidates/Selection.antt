-- ===== src/Candidates/Selection.antt =====
-- What the selection loop keeps true of the candidates and the discarded shapes.
use pgproof.Common.{
  ℕ, ◌≤◌, String, false, List, [], ◌∷◌, ◌≡◌, refl, ap, subst, ◌⊎◌, inl, inr, arith, length,
  length-append, In, All, All-append, All-map, Distinct, Distinct-push, In-append_left,
  In-append_right, contains, In→contains, push, Bool-cases, Option-cases, leb, ok, >>=-eq-ok,
  list_equality, text_equality, pair_equality,
}
use pgproof.Ir.{SchemaIr}
use pgproof.Candidates.Defs.{
  IndexCandidate, DiscardedCandidate, DiscardReason, duplicate_of_existing_index,
  over_candidate_budget, Shape, Progress, existing_key_sequences, duplicate_of, consider,
  max_candidates,
}
use pgproof.Candidates.Naming.{ddl}
use pgproof.Candidates.Prefixes.{
  IsServed, IsUnserved, duplicate_of-IsServed, duplicate_of-IsUnserved,
}

abbrev pub Key : Type 0
Key = String × List String

abbrev pub candidate_keys : List IndexCandidate → List Key
candidate_keys [] = []
candidate_keys (c ∷ cs) = (c.table, c.columns) ∷ candidate_keys cs

abbrev pub discarded_keys : List DiscardedCandidate → List Key
discarded_keys [] = []
discarded_keys (d ∷ ds) = (d.table, d.columns) ∷ discarded_keys ds

-- A discarded shape is served by the index that its reason names, or the budget is used up.
abbrev pub IsJustified : SchemaIr → ℕ → String → List String → DiscardReason → Type 0
IsJustified schema found table columns (duplicate_of_existing_index name) =
    IsServed (existing_key_sequences schema table) columns name
IsJustified schema found table columns over_candidate_budget = found ≡ 5

pub record IsSound (schema : SchemaIr) (candidates : List IndexCandidate)
    (discarded : List DiscardedCandidate) : Type 0 where
  pub budget : length candidates ≤ 5
  pub useful : All (λ c. IsUnserved (existing_key_sequences schema c.table) c.columns) candidates
  pub distinct : Distinct (candidate_keys candidates)
  pub justified :
      All (λ d. IsJustified schema (length candidates) d.table d.columns d.reason) discarded

pub record IsSoundProgress (schema : SchemaIr) (g : Progress) : Type 0 where
  pub sound : IsSound schema g.candidates g.discarded
  pub recorded : All (λ k. In k g.seen) (candidate_keys g.candidates)
  pub accounted :
      (k : Key)
      → In k g.seen
      → In k (candidate_keys g.candidates) ⊎ In k (discarded_keys g.discarded)

candidate_keys-push :
    (cs : List IndexCandidate) (c : IndexCandidate)
    → candidate_keys (push cs c) ≡ push (candidate_keys cs) (c.table, c.columns)
candidate_keys-push [] c = refl
candidate_keys-push (x ∷ xs) c = ap (λ r. (x.table, x.columns) ∷ r) (candidate_keys-push xs c)

discarded_keys-push :
    (ds : List DiscardedCandidate) (d : DiscardedCandidate)
    → discarded_keys (push ds d) ≡ push (discarded_keys ds) (d.table, d.columns)
discarded_keys-push [] d = refl
discarded_keys-push (x ∷ xs) d = ap (λ r. (x.table, x.columns) ∷ r) (discarded_keys-push xs d)

-- A shape goes to the discarded ones.
discard-IsSoundProgress :
    (schema : SchemaIr) (g : Progress) (d : DiscardedCandidate)
    → IsJustified schema (length g.candidates) d.table d.columns d.reason
    → IsSoundProgress schema g
    → IsSoundProgress schema
        (record g { seen = (d.table, d.columns) ∷ g.seen; discarded = push g.discarded d })
discard-IsSoundProgress schema g d why s = record {
  sound = record {
    budget = s.sound.budget;
    useful = s.sound.useful;
    distinct = s.sound.distinct;
    justified = All-append _ g.discarded (d ∷ []) s.sound.justified (why, tt);
  };
  recorded = All-map _ _ (candidate_keys g.candidates) (λ k m seen. inr seen) s.recorded;
  accounted = λ k m. rw (discarded_keys-push g.discarded d) (elim m [
    | inl p ↦ inr (In-append_right k (discarded_keys g.discarded) _ (inl p))
    | inr old ↦ elim (s.accounted k old) [
      | inl a ↦ inl a
      | inr b ↦ inr (In-append_left k (discarded_keys g.discarded) _ b)
    ]
  ]);
}

-- With the budget not used up, no shape was discarded for it.
IsJustified-grow :
    (schema : SchemaIr) (n m : ℕ) (ds : List DiscardedCandidate)
    → leb 5 n ≡ false
    → All (λ d. IsJustified schema n d.table d.columns d.reason) ds
    → All (λ d. IsJustified schema m d.table d.columns d.reason) ds
IsJustified-grow schema n m ds room h =
    All-map _ _ ds (λ d k why. grow d.table d.columns d.reason why) h
  where
    grow :
        (table : String) (columns : List String) (reason : DiscardReason)
        → IsJustified schema n table columns reason
        → IsJustified schema m table columns reason
    grow table columns (duplicate_of_existing_index name) why = why
    grow table columns over_candidate_budget why =
        cc (let k : leb 5 5 ≡ false = subst (λ x. leb 5 x ≡ false) why room in k)

-- A shape becomes a candidate.
accept-IsSoundProgress :
    (schema : SchemaIr) (g : Progress) (c : IndexCandidate)
    → leb 5 (length g.candidates) ≡ false
    → contains (c.table, c.columns) g.seen ≡ false
    → IsUnserved (existing_key_sequences schema c.table) c.columns
    → IsSoundProgress schema g
    → IsSoundProgress schema
        (record g { seen = (c.table, c.columns) ∷ g.seen; candidates = push g.candidates c })
accept-IsSoundProgress schema g c room fresh useful s = record {
  sound = record {
    budget = ground (arith, length-append g.candidates (c ∷ []));
    useful = All-append _ g.candidates (c ∷ []) s.sound.useful (useful, tt);
    distinct = rw (candidate_keys-push g.candidates c) (
        Distinct-push (candidate_keys g.candidates) (c.table, c.columns) s.sound.distinct
          (All-map _ _ (candidate_keys g.candidates)
            (λ k m seen p. cc (In→contains k g.seen seen, p, fresh)) s.recorded));
    justified = IsJustified-grow schema (length g.candidates) _ g.discarded room s.sound.justified;
  };
  recorded = rw (candidate_keys-push g.candidates c) (
      All-append _ (candidate_keys g.candidates) _
        (All-map _ _ (candidate_keys g.candidates) (λ k m seen. inr seen) s.recorded)
        (inl refl, tt));
  accounted = λ k m. rw (candidate_keys-push g.candidates c) (elim m [
    | inl p ↦ inl (In-append_right k (candidate_keys g.candidates) _ (inl p))
    | inr old ↦ elim (s.accounted k old) [
      | inl a ↦ inl (In-append_left k (candidate_keys g.candidates) _ a)
      | inr b ↦ inr b
    ]
  ]);
}

-- The body of the inner loop.
pub consider-IsSoundProgress :
    (schema : SchemaIr) (table : String) (shape : Shape) (g next : Progress)
    → consider table (existing_key_sequences schema table) shape g ≡ ok next
    → IsSoundProgress schema g
    → IsSoundProgress schema next
unfolding consider
consider-IsSoundProgress schema table (columns, supports) g next h s =
    elim (Bool-cases (contains (table, columns) g.seen)) [
      | inl t ↦ subst (IsSoundProgress schema) (cc (rw t at h)) s
      | inr fresh ↦
          elim (Option-cases (duplicate_of columns (existing_key_sequences schema table))) [
            | inr (name, q) ↦ subst (IsSoundProgress schema) (cc (rw q at (rw fresh at h))) (
                discard-IsSoundProgress schema g
                  (record {
                    table = table;
                    columns = columns;
                    reason = duplicate_of_existing_index name;
                  })
                  (duplicate_of-IsServed columns _ name q) s)
            | inl q ↦ elim (Bool-cases (leb max_candidates (length g.candidates))) [
              | inl full ↦
                  subst (IsSoundProgress schema) (cc (rw full at (rw q at (rw fresh at h)))) (
                    discard-IsSoundProgress schema g
                      (record { table = table; columns = columns; reason = over_candidate_budget })
                      (ground (arith, s.sound.budget)) s)
              | inr room ↦
                  let ((name, apply_sql, revert_sql), d, e) =
                    >>=-eq-ok (ddl table columns) _ (rw room at (rw q at (rw fresh at h))) in
                  subst (IsSoundProgress schema) (cc e) (
                    accept-IsSoundProgress schema g
                      (record {
                        table = table;
                        columns = columns;
                        name = name;
                        apply_sql = apply_sql;
                        revert_sql = revert_sql;
                        supports = supports;
                      })
                      room fresh (duplicate_of-IsUnserved columns _ q) s)
            ]
          ]
    ]
