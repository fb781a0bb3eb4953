-- ===== src/MigrationPlan/Defs.antt =====
-- domain/migration_plan.py: plan steps, the validation of a plan, and Kahn's algorithm.
use pgproof.Common.{
  ℕ, zero, suc, ◌+◌, ◌-◌, String, not, ◌&&◌, Option, List, [], ◌∷◌, ◌++◌, Result, ok, raise, ◌>>◌,
  raise_if, eqn, text_equality, if◌then◌else◌, length, push, contains, keep,
}
use pgproof.Common.Dict.{Dict, put, get_or, keys}
use pgproof.Common.Sets.{unique}
use pgproof.Advice.{ScenarioKind}
use pgproof.Common.Sorting.{text_le, sort_by}

pub record PlanStep : Type 0 where
  pub id : String
  pub recommendation : String
  pub scenario : ScenarioKind
  pub dependency_ids : List String
  pub schema_action : String
  pub application_action : Option String
  pub backfill_or_validation : Option String
  pub deployment_boundary : String
  pub rollback_note : String
  pub verification_requirement : String

pub record MigrationPlan : Type 0 where
  pub steps : List PlanStep

pub data PlanError : Type 0 where
  duplicate_ids : PlanError
  unknown_dependencies : List String → PlanError
  cycle : List String → PlanError

abbrev pub ids : List PlanStep → List String
ids [] = []
ids (step ∷ steps) = step.id ∷ ids steps

unfoldable pub dangling_of : List String → List PlanStep → List String
dangling_of known [] = []
dangling_of known (step ∷ steps) =
    keep (λ dep. not (contains dep known)) step.dependency_ids ++ dangling_of known steps

-- `MigrationPlan(steps=…)`: the validator runs on construction.
unfoldable pub validate_references : List PlanStep → Result PlanError MigrationPlan
unfolding unique dangling_of
validate_references steps = do
  raise_if (not (eqn (length (unique (ids steps))) (length steps))) duplicate_ids
  let dangling = sort_by text_le (unique (dangling_of (ids steps) steps))
  raise_if (not (eqn (length dangling) 0)) (unknown_dependencies dangling)
  ok (record { steps = steps })

-- The two dictionaries of `topological_order`.
pub record Counters : Type 0 where
  pub indegree : Dict String ℕ
  pub dependents : Dict String (List String)

unfoldable pub initial : List PlanStep → Counters → Counters
initial [] c = c
initial (step ∷ steps) c =
    initial steps
      (record { indegree = put step.id 0 c.indegree; dependents = put step.id [] c.dependents })

-- `indegree[step.id] += 1; dependents[dep].append(step.id)`. The validator has made sure that `dep`
-- is a step, so both keys are there.
unfoldable pub add_edge : String → String → Counters → Counters
add_edge id dep c = record {
  indegree = put id (get_or 0 id c.indegree + 1) c.indegree;
  dependents = put dep (push (get_or [] dep c.dependents) id) c.dependents;
}

unfoldable pub count_deps : String → List String → Counters → Counters
unfolding add_edge
count_deps id [] c = c
count_deps id (dep ∷ deps) c = count_deps id deps (add_edge id dep c)

unfoldable pub count_steps : List PlanStep → Counters → Counters
unfolding count_deps
count_steps [] c = c
count_steps (step ∷ steps) c = count_steps steps (count_deps step.id step.dependency_ids c)

-- `for dependent in dependents[current]: indegree[dependent] -= 1`
unfoldable pub lower : List String → Dict String ℕ → Dict String ℕ
lower [] degrees = degrees
lower (dependent ∷ rest) degrees =
    lower rest (put dependent (get_or 0 dependent degrees - 1) degrees)

-- The keys with degree 0 that are not placed yet, over `indegree.items()`.
unfoldable pub free : List String → Dict String ℕ → List String
free order [] = []
free order ((id, degree) ∷ items) =
    let rest = free order items in
    if eqn degree 0 && not (contains id order) then id ∷ rest else rest

-- The `while ready` loop. Each round places one more step, so as many rounds as there are steps
-- are enough.
unfoldable pub kahn :
    ℕ → Dict String (List String) → Dict String ℕ → List String → List String → List String
unfolding lower free
kahn fuel dependents degrees [] order = order
kahn zero dependents degrees (current ∷ ready) order = order
kahn (suc fuel) dependents degrees (current ∷ ready) order =
    let order' = push order current in
    let degrees' = lower (get_or [] current dependents) degrees in
    kahn fuel dependents degrees' (sort_by text_le (free order' degrees')) order'

unfoldable pub counters : List PlanStep → Counters
unfolding initial count_steps
counters steps = count_steps steps (initial steps (record { indegree = []; dependents = [] }))

unfoldable pub placed : List PlanStep → List String
unfolding counters kahn free
placed steps =
    let c = counters steps in
    kahn (length steps) c.dependents c.indegree (sort_by text_le (free [] c.indegree)) []

unfoldable pub topological_order : MigrationPlan → Result PlanError (List String)
unfolding placed unique
topological_order plan =
    let order = placed plan.steps in
    if not (eqn (length order) (length plan.steps))
    then raise (
        cycle (
          sort_by text_le
            (keep (λ id. not (contains id order)) (unique (keys (counters plan.steps).indegree)))))
    else ok order
