-- ===== src/MigrationPlan/Edges.antt =====
-- The edges of a plan: which step waits for which.
use mathlib.Core.List.{[], ◌∷◌}
use pgproof.Common.{
  ap, ℕ, suc, String, not, ◌&&◌, List, ◌≡◌, refl, ◌⊎◌, inl, inr, ◌==◌, text_equality, if◌then◌else◌,
  contains, In,
}
use pgproof.MigrationPlan.Defs.{PlanStep}

-- `(step, dependency)` pairs
abbrev pub Edges : Type 0
Edges = List (String × String)

-- How many edges leave `s` for a step that is not placed yet.
abbrev pub open_edges : List String → String → Edges → ℕ
open_edges order s [] = 0
open_edges order s ((a, d) ∷ es) =
    let rest = open_edges order s es in if a == s && not (contains d order) then suc rest else rest

-- The steps that depend on `d`, once for each edge.
abbrev pub preds : String → Edges → List String
preds d [] = []
preds d ((a, b) ∷ es) = let rest = preds d es in if b == d then a ∷ rest else rest

abbrev pub edges_of : String → List String → Edges → Edges
edges_of id [] es = es
edges_of id (dep ∷ deps) es = edges_of id deps ((id, dep) ∷ es)

abbrev pub all_edges : List PlanStep → Edges → Edges
all_edges [] es = es
all_edges (step ∷ steps) es = all_edges steps (edges_of step.id step.dependency_ids es)

-- The edges are the dependencies of the steps.
In-edges_of_old :
    (id : String) (deps : List String) (es : Edges) (p : String × String)
    → In p es
    → In p (edges_of id deps es)
In-edges_of_old id [] es p m = m
In-edges_of_old id (dep ∷ deps) es p m = In-edges_of_old id deps ((id, dep) ∷ es) p (inr m)

In-edges_of :
    (id : String) (deps : List String) (es : Edges) (d : String)
    → In d deps
    → In (id, d) (edges_of id deps es)
In-edges_of id [] es d m = elim m [ ]
In-edges_of id (dep ∷ deps) es d (inl p) =
    In-edges_of_old id deps ((id, dep) ∷ es) (id, d) (inl (ap (λ (x : String). (id, x)) p))
In-edges_of id (dep ∷ deps) es d (inr m) = In-edges_of id deps ((id, dep) ∷ es) d m

edges_of-In :
    (id : String) (deps : List String) (es : Edges) (s d : String)
    → In (s, d) (edges_of id deps es)
    → ((s ≡ id) × In d deps) ⊎ In (s, d) es
edges_of-In id [] es s d m = inr m
edges_of-In id (dep ∷ deps) es s d m = elim (edges_of-In id deps ((id, dep) ∷ es) s d m) [
  | inl (p, k) ↦ inl (p, inr k)
  | inr n ↦ elim n [
    | inl q ↦ inl (ap (λ (x : String × String). x.0) q, inl (ap (λ (x : String × String). x.1) q))
    | inr k ↦ inr k
  ]
]

In-all_edges_old :
    (steps : List PlanStep) (es : Edges) (p : String × String) → In p es → In p (all_edges steps es)
In-all_edges_old [] es p m = m
In-all_edges_old (step ∷ steps) es p m =
    In-all_edges_old steps (edges_of step.id step.dependency_ids es) p
      (In-edges_of_old step.id step.dependency_ids es p m)

pub In-all_edges :
    (steps : List PlanStep) (es : Edges) (step : PlanStep) (d : String)
    → In step steps
    → In d step.dependency_ids
    → In (step.id, d) (all_edges steps es)
In-all_edges [] es step d m n = elim m [ ]
In-all_edges (s ∷ steps) es step d (inl p) n =
    In-all_edges_old steps (edges_of s.id s.dependency_ids es) (step.id, d)
      (rw (← p) (In-edges_of step.id step.dependency_ids es d n))
In-all_edges (s ∷ steps) es step d (inr m) n =
    In-all_edges steps (edges_of s.id s.dependency_ids es) step d m n

-- An edge comes from a step that has it.
pub record Edge (steps : List PlanStep) (s d : String) : Type 0 where
  pub step : PlanStep
  pub given : In step steps
  pub name : s ≡ step.id
  pub depends : In d step.dependency_ids

pub all_edges-In :
    (steps : List PlanStep) (es : Edges) (s d : String)
    → In (s, d) (all_edges steps es)
    → Edge steps s d ⊎ In (s, d) es
all_edges-In [] es s d m = inr m
all_edges-In (step ∷ steps) es s d m =
    elim (all_edges-In steps (edges_of step.id step.dependency_ids es) s d m) [
      | inl e ↦
          inl (record { step = e.step; given = inr e.given; name = e.name; depends = e.depends })
      | inr n ↦ elim (edges_of-In step.id step.dependency_ids es s d n) [
        | inl (p, k) ↦ inl (record { step = step; given = inl refl; name = p; depends = k })
        | inr k ↦ inr k
      ]
    ]
