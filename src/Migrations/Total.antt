-- ===== src/Migrations/Total.antt =====
-- A graph that is reported without a cycle and without a missing predecessor has an order.
use pgproof.Common.{
  ℕ, zero, suc, ◌+◌, ◌≤◌, String, true, false, Option, none, some, List, [], ◌∷◌, ◌≡◌, inl, inr,
  refl, sym, ap, ◌∙◌, subst, arith, In, Distinct, All-of_In, text_equality, length, contains,
  In→contains, Bool-cases, Result, ok, ◌>>=◌,
}
use pgproof.Common.Dict.{Dict, get, keys, get-keys}
use pgproof.Common.Pigeonhole.{length-le_of_In}
use pgproof.Migrations.Defs.{RevisionInfo, RevisionGraphReport, ReplayError}
use pgproof.Migrations.Graph.{parents_of, build_graph, Visit, visit_all, visit, revision_order}
use pgproof.Migrations.Cycles.{find_cycle-IsAcyclic}
use pgproof.Migrations.Report.{IsClosed, build_graph-cases, report_of-closed, report_of-head}
use pgproof.Migrations.Order.{IsOrder, Sound, entered, left, visit-Does}

module _ (parents : Dict String (List String)) where
  abbrev IsSeen : Visit → Type 0
  IsSeen s = Distinct s.seen × ((x : String) → In x s.seen → In x (keys parents))

  -- A visit that returns, with a count of what it has seen.
  record Returns (run : Result ReplayError (Option Visit)) (s : Visit) : Type 0 where
    out : Visit
    runs : run ≡ ok (some out)
    seen : IsSeen out
    more : length s.seen ≤ length out.seen

  visit_all-Returns :
      (fuel : ℕ)
      → ((p : String) (s : Visit)
          → IsSeen s
          → In p (keys parents)
          → length (keys parents) ≤ fuel + length s.seen
          → Returns (visit parents (suc fuel) p s) s)
      → (ps : List String) (s : Visit) → IsSeen s
      → ((p : String) → In p ps → In p (keys parents))
      → length (keys parents) ≤ fuel + length s.seen
      → Returns (visit_all (visit parents (suc fuel)) ps s) s
  unfolding visit_all
  visit_all-Returns fuel each [] s h known enough = record {
    out = s;
    runs = refl;
    seen = h;
    more = omega arith;
  }
  visit_all-Returns fuel each (p ∷ ps) s h known enough =
      let first = each p s h (known p (inl refl)) enough in
      let rest =
        visit_all-Returns fuel each ps first.out first.seen (λ q m. known q (inr m))
          (omega (arith, first.more, enough)) in
      record {
        out = rest.out;
        runs =
            ap
              (λ r. r >>= (λ next. elim next [
                | none ↦ ok none
                | some u ↦ visit_all (visit parents (suc fuel)) ps u
              ]))
              first.runs
            ∙ rest.runs;
        seen = rest.seen;
        more = omega (arith, first.more, rest.more);
      }

  entered-IsSeen :
      (id : String) (s : Visit)
      → IsSeen s
      → In id (keys parents)
      → contains id s.seen ≡ false
      → IsSeen (entered parents id s)
  entered-IsSeen id s (once, known) there f = (
    (
      All-of_In _ s.seen (λ y m same.
          cc (In→contains id s.seen (subst (λ (z : String). In z s.seen) (sym same) m), f)),
      once,
    ),
    λ x m. elim m [
      | inl same ↦ subst (λ (z : String). In z (keys parents)) (sym same) there
      | inr old ↦ known x old
    ],
  )

  module _ (fuel : ℕ) (id : String) (s : Visit) (h : IsSeen s) where
    visit-seen : contains id s.seen ≡ true → Returns (visit parents (suc fuel) id s) s
    unfolding visit
    visit-seen t = record { out = s; runs = rw t refl; seen = h; more = omega arith }

    visit-known :
        (above : List String)
        → contains id s.seen ≡ false
        → get id parents ≡ some above
        → Returns
            (visit_all (visit parents fuel) above (entered parents id s))
            (entered parents id s)
        → Returns (visit parents (suc fuel) id s) s
    unfolding visit
    visit-known above f k r = record {
      out = left parents id r.out;
      runs =
          rw (f, k)
            (ap
              (λ z.
                z >>= (λ last. ok (elim last [ none ↦ none | some u ↦ some (left parents id u) ])))
              r.runs);
      seen = r.seen;
      more = omega (arith, r.more);
    }

  -- What is left is to see to the predecessors.
  visit-Returns_by :
      (fuel : ℕ) (id : String) (s : Visit)
      → IsSeen s
      → In id (keys parents)
      → ((above : List String)
          → get id parents ≡ some above
          → IsSeen (entered parents id s)
          → Returns
              (visit_all (visit parents fuel) above (entered parents id s))
              (entered parents id s))
      → Returns (visit parents (suc fuel) id s) s
  visit-Returns_by fuel id s h there deeper = elim (Bool-cases (contains id s.seen)) [
    | inl t ↦ visit-seen fuel id s h t
    | inr f ↦
        let (above, k) = get-keys id parents there in
        visit-known fuel id s h above f k (deeper above k (entered-IsSeen id s h there f))
  ]

  module _ (closed : IsClosed parents) where
    visit-Returns :
        (fuel : ℕ) (id : String) (s : Visit)
        → IsSeen s
        → In id (keys parents)
        → length (keys parents) ≤ fuel + length s.seen
        → Returns (visit parents (suc fuel) id s) s
    visit-Returns zero id s h there enough = visit-Returns_by zero id s h there (λ above k next.
        absurd (omega (arith, length-le_of_In (id ∷ s.seen) (keys parents) next.0 next.1, enough)))
    visit-Returns (suc fuel) id s h there enough =
        visit-Returns_by (suc fuel) id s h there (λ above k next.
          visit_all-Returns fuel (visit-Returns fuel) above (entered parents id s) next
            (closed id above k) (omega (arith, enough)))

nothing_seen : Visit
nothing_seen = record { seen = []; ordered = [] }

-- Where the graph is reported without a cycle and without a missing predecessor, the order of the
-- replay is found from any head: it holds the head, each revision once, and each behind all of its
-- predecessors.
pub revision_order-IsOrder :
    (revisions : List RevisionInfo) (report : RevisionGraphReport) (head : String)
    → build_graph revisions ≡ some report
    → report.cycle ≡ []
    → report.missing_predecessors ≡ []
    → In head report.heads
    → (order : List String) × (revision_order revisions head ≡ ok (some order))
      × In head order
      × IsOrder (parents_of revisions) order
unfolding revision_order nothing_seen
revision_order-IsOrder revisions report head built no_cycle none_missing is_head =
    let parents = parents_of revisions in
    let (searched, same) = build_graph-cases revisions report built in
    let (found, e, iff) = find_cycle-IsAcyclic revisions in
    let empty : found ≡ [] = cc (e, searched, no_cycle) in
    let closed =
      report_of-closed revisions report.cycle
        (ap (λ (r : RevisionGraphReport). r.missing_predecessors) same ∙ none_missing) in
    let there =
      report_of-head revisions report.cycle head
        (subst (λ (r : RevisionGraphReport). In head r.heads) (sym same) is_head) in
    let run =
      visit-Returns parents closed (length (keys parents)) head nothing_seen (tt, λ x m. elim m [ ])
        there (omega arith) in
    let sound : Sound parents nothing_seen = record {
      order = record { once = tt; follows = λ x p m. elim m [ ] };
      within = λ x m. m;
    } in
    let (steps, here) =
      visit-Does parents (iff.0 empty) (suc (length (keys parents))) head nothing_seen run.out sound
        (λ x m. elim m [ ]) run.runs in
    (
      run.out.ordered,
      ap (λ z. z >>= (λ last. ok (elim last [ none ↦ none | some s ↦ some s.ordered ]))) run.runs,
      here,
      steps.sound.order,
    )
