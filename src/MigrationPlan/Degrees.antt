-- ===== src/MigrationPlan/Degrees.antt =====
-- What the two dictionaries of `topological_order` count, before and during the loop.
use mathlib.Core.List.{[], ◌∷◌}
use pgproof.Common.{
  ◌+◌, String, List, ◌≡◌, refl, inl, inr, arith, ◌==◌, text_equality, if◌then◌else◌, push, times,
  times-push, In, Distinct, Bool-cases, In-push_cases,
}
use pgproof.Common.Dict.{
  get, put, get_or, keys, get_or-put, keys-put, keys-put_self, keys-put_mono, Distinct-keys-put,
}
use pgproof.MigrationPlan.Defs.{
  PlanStep, Counters, ids, initial, add_edge, count_deps, count_steps, counters,
}
use pgproof.MigrationPlan.Edges.{Edges, open_edges, preds, edges_of, all_edges}

-- The dictionaries agree with the edges that were counted so far.
pub record Agree (known : List String) (es : Edges) (c : Counters) : Type 0 where
  pub degree : (s : String) → get_or 0 s c.indegree ≡ open_edges [] s es
  pub dependents : (d s : String) → times s (get_or [] d c.dependents) ≡ times s (preds d es)
  pub named : (d s : String) → In s (get_or [] d c.dependents) → In s known
  pub keys_named : (s : String) → In s (keys c.indegree) → In s known
  pub keys_once : Distinct (keys c.indegree)

module _ (id dep : String) (c : Counters) where
  abbrev grown : List String
  grown = push (get_or [] dep c.dependents) id

  grown_lem :
      (d : String)
      → get_or [] d (put dep grown c.dependents)
        ≡ (if dep == d then grown else get_or [] d c.dependents)
  grown_lem d = get_or-put [] dep d grown c.dependents

  named-grown :
      (known : List String) (d s : String)
      → In id known
      → ((d s : String) → In s (get_or [] d c.dependents) → In s known)
      → In s (if dep == d then grown else get_or [] d c.dependents)
      → In s known
  named-grown known d s m named k = elim (Bool-cases (dep == d)) [
    | inl t ↦ elim (In-push_cases s id (get_or [] dep c.dependents) (rw t at k)) [
      | inl old ↦ named dep s old
      | inr new ↦ rw new m
    ]
    | inr f ↦ named d s (rw f at k)
  ]

add_edge-Agree :
    {known : List String} {es : Edges} {c : Counters} (id dep : String)
    → In id known
    → Agree known es c
    → Agree known ((id, dep) ∷ es) (add_edge id dep c)
unfolding add_edge
add_edge-Agree {known} {es} {c} id dep m h = record {
  degree = λ s.
      ground
        (arith, get_or-put 0 id s (get_or 0 id c.indegree + 1) c.indegree, h.degree s, h.degree id);
  dependents = λ d s. ground (
    arith,
    grown_lem id dep c d,
    times-push s (get_or [] dep c.dependents) id,
    h.dependents d s,
    h.dependents dep s,
  );
  named = λ d s k. named-grown id dep c known d s m h.named (rw (grown_lem id dep c d) at k);
  keys_named = λ s k. elim (keys-put id (get_or 0 id c.indegree + 1) c.indegree s k) [
    | inl p ↦ rw p m
    | inr q ↦ h.keys_named s q
  ];
  keys_once = Distinct-keys-put id (get_or 0 id c.indegree + 1) c.indegree h.keys_once;
}

count_deps-Agree :
    {known : List String} (id : String) (deps : List String) (es : Edges) (c : Counters)
    → In id known
    → Agree known es c
    → Agree known (edges_of id deps es) (count_deps id deps c)
unfolding count_deps
count_deps-Agree id [] es c m h = h
count_deps-Agree id (dep ∷ deps) es c m h =
    count_deps-Agree id deps ((id, dep) ∷ es) (add_edge id dep c) m (add_edge-Agree id dep m h)

count_steps-Agree :
    {known : List String} (steps : List PlanStep) (es : Edges) (c : Counters)
    → ((s : String) → In s (ids steps) → In s known)
    → Agree known es c
    → Agree known (all_edges steps es) (count_steps steps c)
unfolding count_steps
count_steps-Agree [] es c m h = h
count_steps-Agree (step ∷ steps) es c m h =
    count_steps-Agree steps (edges_of step.id step.dependency_ids es)
      (count_deps step.id step.dependency_ids c) (λ s k. m s (inr k))
      (count_deps-Agree step.id step.dependency_ids es c (m step.id (inl refl)) h)

initial-Agree :
    {known : List String} (steps : List PlanStep) (c : Counters)
    → ((s : String) → In s (ids steps) → In s known)
    → Agree known [] c
    → Agree known [] (initial steps c)
unfolding initial
initial-Agree [] c m h = h
initial-Agree {known} (step ∷ steps) c m h =
    initial-Agree steps
      (record { indegree = put step.id 0 c.indegree; dependents = put step.id [] c.dependents })
      (λ s k. m s (inr k)) reset
  where
    no_one :
        (d s : String) → In s (if step.id == d then [] else get_or [] d c.dependents) → In s known
    no_one d s k = elim (Bool-cases (step.id == d)) [
      | inl t ↦ elim (rw t at k) [ ]
      | inr f ↦ h.named d s (rw f at k)
    ]

    reset :
        Agree known []
          (record { indegree = put step.id 0 c.indegree; dependents = put step.id [] c.dependents })
    reset = record {
      degree = λ s. ground (arith, get_or-put 0 step.id s 0 c.indegree, h.degree s);
      dependents = λ d s. ground (arith, get_or-put [] step.id d [] c.dependents, h.dependents d s);
      named = λ d s k. no_one d s (rw (get_or-put [] step.id d [] c.dependents) at k);
      keys_named = λ s k. elim (keys-put step.id 0 c.indegree s k) [
        | inl p ↦ rw p (m step.id (inl refl))
        | inr q ↦ h.keys_named s q
      ];
      keys_once = Distinct-keys-put step.id 0 c.indegree h.keys_once;
    }

abbrev nothing : Counters
nothing = record { indegree = []; dependents = [] }

pub counters-Agree :
    (steps : List PlanStep) → Agree (ids steps) (all_edges steps []) (counters steps)
unfolding counters get
counters-Agree steps =
    count_steps-Agree steps [] (initial steps nothing) (λ s k. k)
      (initial-Agree steps nothing (λ s k. k)
        (record {
          degree = λ s. refl;
          dependents = λ d s. refl;
          named = λ d s k. elim k [ ];
          keys_named = λ s k. elim k [ ];
          keys_once = tt;
        }))

-- Every step is a key of `indegree`.
keys-count_deps :
    (id : String) (deps : List String) (c : Counters) (s : String)
    → In s (keys c.indegree)
    → In s (keys (count_deps id deps c).indegree)
unfolding count_deps
keys-count_deps id [] c s m = m
keys-count_deps id (dep ∷ deps) c s m =
    keys-count_deps id deps (add_edge id dep c) s
      (keys-put_mono id (get_or 0 id c.indegree + 1) c.indegree s m)

keys-count_steps :
    (steps : List PlanStep) (c : Counters) (s : String)
    → In s (keys c.indegree)
    → In s (keys (count_steps steps c).indegree)
unfolding count_steps
keys-count_steps [] c s m = m
keys-count_steps (step ∷ steps) c s m =
    keys-count_steps steps (count_deps step.id step.dependency_ids c) s
      (keys-count_deps step.id step.dependency_ids c s m)

keys-initial_old :
    (steps : List PlanStep) (c : Counters) (s : String)
    → In s (keys c.indegree)
    → In s (keys (initial steps c).indegree)
unfolding initial
keys-initial_old [] c s m = m
keys-initial_old (step ∷ steps) c s m =
    keys-initial_old steps
      (record { indegree = put step.id 0 c.indegree; dependents = put step.id [] c.dependents }) s
      (keys-put_mono step.id 0 c.indegree s m)

keys-initial :
    (steps : List PlanStep) (c : Counters) (s : String)
    → In s (ids steps)
    → In s (keys (initial steps c).indegree)
unfolding initial
keys-initial [] c s m = elim m [ ]
keys-initial (step ∷ steps) c s (inl p) =
    keys-initial_old steps
      (record { indegree = put step.id 0 c.indegree; dependents = put step.id [] c.dependents }) s
      (rw p (keys-put_self step.id 0 c.indegree))
keys-initial (step ∷ steps) c s (inr m) =
    keys-initial steps
      (record { indegree = put step.id 0 c.indegree; dependents = put step.id [] c.dependents }) s m

pub keys-counters :
    (steps : List PlanStep) (s : String) → In s (ids steps) → In s (keys (counters steps).indegree)
unfolding counters
keys-counters steps s m =
    keys-count_steps steps (initial steps nothing) s (keys-initial steps nothing s m)
