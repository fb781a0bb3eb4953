-- ===== src/Candidates/Coverage.antt =====
-- No predicate is lost: its single-column shape ends as a candidate or as a discarded one.
use pgproof.Common.{
  String, not, keep, false, List, [], ◌∷◌, ◌++◌, ◌≡◌, ap, sym, ◌∙◌, subst, ◌⊎◌, inl, inr, length,
  In, In-append_right, contains, contains→In, Bool-cases, Option-cases, ◌==◌, leb, ok, >>=-eq-ok,
  list_equality, text_equality, pair_equality,
}
use pgproof.Common.Dict.{Dict}
use pgproof.Ir.{SchemaIr}
use pgproof.Candidates.Naming.{ddl}
use pgproof.Candidates.Defs.{
  ExtractedPredicate, equality, predicate_kind_equality, Shape, Progress, existing_key_sequences,
  duplicate_of, consider, consider_shapes, consider_tables, max_candidates, singles,
  candidate_shapes, equality_range, equality_only,
}
use pgproof.Candidates.Selection.{Key, IsSoundProgress, consider-IsSoundProgress}

-- Considering a shape adds its key, and forgets none.
consider-seen :
    (table : String) (existing : List (String × List String)) (shape : Shape) (g next : Progress)
    (k : Key)
    → consider table existing shape g ≡ ok next
    → In k g.seen ⊎ (k ≡ (table, shape.0))
    → In k next.seen
unfolding consider
consider-seen table existing (columns, supports) g next k h m =
    elim (Bool-cases (contains (table, columns) g.seen)) [
      | inl t ↦
          subst (λ (n : Progress). In k n.seen) (let e : g ≡ next = cc (rw t at h) in e)
            (elim m [ inl old ↦ old | inr p ↦ rw p (contains→In (table, columns) g.seen t) ])
      | inr fresh ↦
          subst (λ seen. In k seen) (added fresh) (elim m [ inl old ↦ inr old | inr p ↦ inl p ])
    ]
  where
    added : contains (table, columns) g.seen ≡ false → (table, columns) ∷ g.seen ≡ next.seen
    added fresh = elim (Option-cases (duplicate_of columns existing)) [
      | inr (name, q) ↦ cc (rw q at (rw fresh at h))
      | inl q ↦ elim (Bool-cases (leb max_candidates (length g.candidates))) [
        | inl full ↦ cc (rw full at (rw q at (rw fresh at h)))
        | inr room ↦
            let (names, d, e) =
              >>=-eq-ok (ddl table columns) _ (rw room at (rw q at (rw fresh at h))) in
            cc e
      ]
    ]

consider_shapes-seen :
    (table : String) (existing : List (String × List String)) (shapes : List Shape)
    (g last : Progress) (k : Key)
    → consider_shapes table existing shapes g ≡ ok last
    → In k g.seen ⊎ ((shape : Shape) × In shape shapes × (k ≡ (table, shape.0)))
    → In k last.seen
unfolding consider_shapes
consider_shapes-seen table existing [] g last k h (inl old) =
    subst (λ (n : Progress). In k n.seen) (let e : g ≡ last = cc h in e) old
consider_shapes-seen table existing [] g last k h (inr (shape, m, p)) = elim m [ ]
consider_shapes-seen table existing (s ∷ shapes) g last k h m =
    let (next, first, rest) = >>=-eq-ok (consider table existing s g) _ h in
    consider_shapes-seen table existing shapes next last k rest (elim m [
      | inl old ↦ inl (consider-seen table existing s g next k first (inl old))
      | inr (shape, inl q, p) ↦
          inl (consider-seen table existing s g next k first (inr (rw (sym q) p)))
      | inr (shape, inr later, p) ↦ inr (shape, later, p)
    ])

consider_shapes-IsSoundProgress :
    (schema : SchemaIr) (table : String) (shapes : List Shape) (g last : Progress)
    → consider_shapes table (existing_key_sequences schema table) shapes g ≡ ok last
    → IsSoundProgress schema g
    → IsSoundProgress schema last
unfolding consider_shapes
consider_shapes-IsSoundProgress schema table [] g last h s = subst (IsSoundProgress schema) (cc h) s
consider_shapes-IsSoundProgress schema table (shape ∷ shapes) g last h s =
    let (next, first, rest) =
      >>=-eq-ok (consider table (existing_key_sequences schema table) shape g) _ h in
    consider_shapes-IsSoundProgress schema table shapes next last rest
      (consider-IsSoundProgress schema table shape g next first s)

pub consider_tables-IsSoundProgress :
    (schema : SchemaIr) (tables : Dict String (List ExtractedPredicate)) (g last : Progress)
    → consider_tables schema tables g ≡ ok last
    → IsSoundProgress schema g
    → IsSoundProgress schema last
unfolding consider_tables
consider_tables-IsSoundProgress schema [] g last h s = subst (IsSoundProgress schema) (cc h) s
consider_tables-IsSoundProgress schema ((table, ps) ∷ tables) g last h s =
    let (next, first, rest) =
      >>=-eq-ok
        (consider_shapes table (existing_key_sequences schema table) (candidate_shapes ps) g) _ h in
    consider_tables-IsSoundProgress schema tables next last rest
      (consider_shapes-IsSoundProgress schema table (candidate_shapes ps) g next first s)

single-In :
    (p : ExtractedPredicate) (ps : List ExtractedPredicate)
    → In p ps
    → In (p.column ∷ [], p ∷ []) (singles ps)
unfolding singles
single-In p [] m = elim m [ ]
single-In p (q ∷ qs) (inl e) = inl (ap (λ r. (r.column ∷ [], r ∷ [])) e)
single-In p (q ∷ qs) (inr m) = inr (single-In p qs m)

candidate_shapes-single :
    (p : ExtractedPredicate) (ps : List ExtractedPredicate)
    → In p ps
    → In (p.column ∷ [], p ∷ []) (candidate_shapes ps)
unfolding candidate_shapes
candidate_shapes-single p ps m =
    let equal = keep (λ q. q.kind == equality) ps in
    let ranges = keep (λ q. not (q.kind == equality)) ps in
    In-append_right (p.column ∷ [], p ∷ []) (equality_range equal ranges ++ equality_only equal)
      (singles ps) (single-In p ps m)

pub consider_tables-seen :
    (schema : SchemaIr) (tables : Dict String (List ExtractedPredicate)) (g last : Progress)
    (k : Key)
    → consider_tables schema tables g ≡ ok last
    → In k g.seen
      ⊎ ((p : ExtractedPredicate) × (table : String) × (ps : List ExtractedPredicate) × In
            (table, ps)
            tables
          × In p ps
          × (k ≡ (table, p.column ∷ [])))
    → In k last.seen
unfolding consider_tables
consider_tables-seen schema [] g last k h (inl old) =
    subst (λ (n : Progress). In k n.seen) (let e : g ≡ last = cc h in e) old
consider_tables-seen schema [] g last k h (inr (p, table, ps, m, n, q)) = elim m [ ]
consider_tables-seen schema ((t, qs) ∷ tables) g last k h m =
    let (next, first, rest) =
      >>=-eq-ok (consider_shapes t (existing_key_sequences schema t) (candidate_shapes qs) g) _ h in
    let seen =
      consider_shapes-seen t (existing_key_sequences schema t) (candidate_shapes qs) g next k
        first in
    consider_tables-seen schema tables next last k rest (elim m [
      | inl old ↦ inl (seen (inl old))
      | inr (p, table, ps, inr later, n, q) ↦ inr (p, table, ps, later, n, q)
      | inr (p, table, ps, inl e, n, q) ↦ inl (
          seen (
            inr (
              (p.column ∷ [], p ∷ []),
              candidate_shapes-single p qs (subst (λ r. In p r) (ap (λ r. r.1) e) n),
              q ∙ ap (λ r. (r.0, p.column ∷ [])) e,
            )))
    ])
