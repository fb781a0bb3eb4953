-- ===== src/Migrations/Report.antt =====
-- The report of a revision graph: what it says of the dictionary of the predecessors.
use pgproof.Common.{
  String, not, none, some, List, [], ◌∷◌, ◌≡◌, ◌⊎◌, inl, inr, refl, sym, ap, ◌∙◌, subst, arith, In,
  keep, keep-In, In-keep, text_equality, contains, contains→In, Bool-cases, Option-cases,
  In-concat_map, ◌==◌, eq_of_test,
}
use pgproof.Common.Dict.{Dict, put, get, keys, get-put, keys-put_self, keys-put_mono}
use pgproof.Common.Sets.{unique, In-unique, unique-In}
use pgproof.Common.Sorting.{text_le, sort_by-In, sort_by-nil}
use pgproof.Migrations.Defs.{RevisionInfo, RevisionGraphReport}
use pgproof.Migrations.Graph.{
  revision_ids, parents_from, parents_of, missing, find_cycle, report_of, build_graph,
}

module _ (parents : Dict String (List String)) where
  -- Every named predecessor is a revision.
  abbrev pub IsClosed : Type 0
  IsClosed =
      (id : String) (above : List String)
      → get id parents ≡ some above
      → (p : String) → In p above
      → In p (keys parents)

get-nil : {V : Type 0} (id : String) → get {V = V} id [] ≡ none
unfolding get
get-nil id = refl

-- The dictionary of the predecessors, read back to the revisions.
get-parents_from :
    (revisions : List RevisionInfo) (d : Dict String (List String)) (id : String)
    (above : List String)
    → get id (parents_from revisions d) ≡ some above
    → ((info : RevisionInfo) × In info revisions
        × (info.revision ≡ id)
        × (info.down_revisions ≡ above))
      ⊎ (get id d ≡ some above)
unfolding parents_from
get-parents_from [] d id above e = inr e
get-parents_from (info ∷ infos) d id above e =
    elim (get-parents_from infos (put info.revision info.down_revisions d) id above e) [
      | inl (other, m, p, q) ↦ inl (other, inr m, p, q)
      | inr k ↦ elim (Bool-cases (info.revision == id)) [
        | inl t ↦
            let same : some info.down_revisions ≡ some above =
              ground (arith, t, k, get-put info.revision id info.down_revisions d) in
            inl (info, inl refl, eq_of_test info.revision id t, cc same)
        | inr f ↦ inr (ground (arith, f, k, get-put info.revision id info.down_revisions d))
      ]
    ]

keys-parents_from :
    (revisions : List RevisionInfo) (d : Dict String (List String)) (id : String)
    → (In id (revision_ids revisions) ⊎ In id (keys d))
    → In id (keys (parents_from revisions d))
unfolding parents_from
keys-parents_from [] d id (inl m) = elim m [ ]
keys-parents_from [] d id (inr m) = m
keys-parents_from (info ∷ infos) d id m =
    keys-parents_from infos (put info.revision info.down_revisions d) id (elim m [
      | inl (inl same) ↦ inr (
          subst (λ (z : String). In z (keys (put info.revision info.down_revisions d))) (sym same)
            (keys-put_self info.revision info.down_revisions d))
      | inl (inr k) ↦ inl k
      | inr k ↦ inr (keys-put_mono info.revision info.down_revisions d id k)
    ])

pub build_graph-cases :
    (revisions : List RevisionInfo) (report : RevisionGraphReport)
    → build_graph revisions ≡ some report
    → (find_cycle revisions ≡ some report.cycle) × (report_of revisions report.cycle ≡ report)
unfolding build_graph report_of
build_graph-cases revisions report e = elim (Option-cases (find_cycle revisions)) [
  | inl n ↦ ground (arith, n, e)
  | inr (cycle, k) ↦
      let same : report_of revisions cycle ≡ report = ground (arith, k, e) in
      let inner : cycle ≡ report.cycle = ap (λ (r : RevisionGraphReport). r.cycle) same in
      (k ∙ ap some inner, ap (report_of revisions) (sym inner) ∙ same)
]

module _ (revisions : List RevisionInfo) where
  no_missing-IsClosed :
      missing (unique (revision_ids revisions)) revisions ≡ [] → IsClosed (parents_of revisions)
  unfolding parents_of
  no_missing-IsClosed none_missing id above e p m =
      elim (get-parents_from revisions [] id above e) [
        | inr k ↦ cc (get-nil id, k)
        | inl (info, given, named, same) ↦
            let known = unique (revision_ids revisions) in
            elim (Bool-cases (contains p known)) [
              | inl t ↦
                  keys-parents_from revisions [] p
                    (inl (unique-In p (revision_ids revisions) (contains→In p known t)))
              | inr f ↦
                  let there : In p (missing known revisions) =
                    In-concat_map
                      (λ (z : RevisionInfo).
                        keep (λ parent. not (contains parent known)) z.down_revisions)
                      info p revisions given
                      (In-keep (λ parent. not (contains parent known)) p info.down_revisions
                        (subst (λ (l : List String). In p l) (sym same) m) (ap not f)) in
                  elim (subst (λ (l : List String). In p l) none_missing there) [ ]
            ]
      ]

  unique-nil : (xs : List String) → unique xs ≡ [] → xs ≡ []
  unique-nil [] h = refl
  unique-nil (x ∷ xs) h =
      elim (subst (λ (l : List String). In x l) h (In-unique x (x ∷ xs) (inl refl))) [ ]

  pub report_of-closed :
      (cycle : List String)
      → (report_of revisions cycle).missing_predecessors ≡ []
      → IsClosed (parents_of revisions)
  unfolding report_of
  report_of-closed cycle h = no_missing-IsClosed (
      unique-nil (missing (unique (revision_ids revisions)) revisions)
        (sort_by-nil text_le (unique (missing (unique (revision_ids revisions)) revisions)) h))

  pub report_of-head :
      (cycle : List String) (head : String)
      → In head (report_of revisions cycle).heads
      → In head (keys (parents_of revisions))
  unfolding report_of parents_of
  report_of-head cycle head m = keys-parents_from revisions [] head (
      inl (
        unique-In head (revision_ids revisions)
          ((keep-In _ head (unique (revision_ids revisions)) (sort_by-In text_le head _ m)).0)))
