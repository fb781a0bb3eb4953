-- ===== src/MigrationPlan/Samples.antt =====
-- Small plans, and what the functions do on them.
use pgproof.Common.{
  String, List, [], ◌∷◌, ◌≡◌, refl, ok, raise, text_dec, none, some, ℕ, map, Distinct, concat_map,
  ne_of_test, ◌==◌, text_equality, if◌then◌else◌, arith, In, inl, inr,
}
use pgproof.Common.Dict.{get, put}
use pgproof.Common.Sorting.{sort_by, text_le}
use pgproof.Common.Integers.{pos}
use pgproof.Advice.{
  launch_minimal, Recommendation, ChangeKind, add_constraint, add_index, worth_evaluating, schema,
  not_eligible,
}
use pgproof.MigrationPlan.Expansion.{expand_change, build_migration_plan}
use pgproof.MigrationPlan.Staging.{build_migration_plan-orders}
use pgproof.MigrationPlan.Defs.{
  PlanStep, MigrationPlan, validate_references, topological_order, duplicate_ids,
  unknown_dependencies, cycle, placed,
}
use pgproof.MigrationPlan.Order.{
  IsTopological, IsRanked, topological_order-IsTopological, topological_order-acyclic,
}

abbrev step : String → List String → PlanStep
step id deps = record {
  id = id;
  recommendation = "FK-001";
  scenario = launch_minimal;
  dependency_ids = deps;
  schema_action = "act";
  application_action = none;
  backfill_or_validation = none;
  deployment_boundary = "any time";
  rollback_note = "drop it";
  verification_requirement = "look at it";
}

abbrev pair : List PlanStep
pair = step "validate" ("add" ∷ []) ∷ step "add" [] ∷ []

abbrev looped : List PlanStep
looped = step "a" ("b" ∷ []) ∷ step "b" ("a" ∷ []) ∷ []

program : Unit {0}
unfolding validate_references topological_order text_dec get put sort_by text_le
program = tt

pair_valid : validate_references pair ≡ ok (record { steps = pair })
unfolding program
pair_valid = refl

pair_order : topological_order (record { steps = pair }) ≡ ok ("add" ∷ "validate" ∷ [])
unfolding program
pair_order = refl

looped_order : topological_order (record { steps = looped }) ≡ raise (cycle ("a" ∷ "b" ∷ []))
unfolding program
looped_order = refl

repeated_ids : validate_references (step "a" [] ∷ step "a" [] ∷ []) ≡ raise duplicate_ids
unfolding program
repeated_ids = refl

missing_dependency :
    validate_references (step "a" ("z" ∷ "y" ∷ "z" ∷ []) ∷ [])
    ≡ raise (unknown_dependencies ("y" ∷ "z" ∷ []))
unfolding program
missing_dependency = refl

topological_order-IsTopological_example : IsTopological pair ("add" ∷ "validate" ∷ [])
topological_order-IsTopological_example =
    topological_order-IsTopological pair (record { steps = pair }) ("add" ∷ "validate" ∷ [])
      pair_valid pair_order

abbrev height : String → ℕ
height id = if id == "validate" then 1 else 0

pair-IsRanked : IsRanked height pair
unfolding text_dec
pair-IsRanked s d (inl p) q = elim (let k : In d ("add" ∷ []) = rw p at q in k) [
  | inl e ↦ rw (p, e) (omega arith)
  | inr n ↦ elim n [ ]
]
pair-IsRanked s d (inr (inl p)) q = elim (let k : In d [] = rw p at q in k) [ ]
pair-IsRanked s d (inr (inr p)) q = elim p [ ]

topological_order-acyclic_example : topological_order (record { steps = pair }) ≡ ok (placed pair)
topological_order-acyclic_example =
    topological_order-acyclic pair (record { steps = pair }) height pair_valid pair-IsRanked

abbrev proposal : String → ChangeKind → Recommendation
proposal id kind = record {
  id = id;
  rule = "schema.missing_constraint";
  rule_version = pos 1;
  title = "A change";
  priority = worth_evaluating;
  category = schema;
  statement = "Change it.";
  affected_objects = "table:public.a" ∷ [];
  evidence_refs = [];
  assumptions = [];
  trade_offs = [];
  invalidating_context = [];
  alternatives = [];
  verification_state = not_eligible;
  measurement = none;
  proposed_change = some (record {
    kind = kind;
    summary = "Change it.";
    sql_sketch = none;
    migration_sketch = none;
    application_sketch = none;
    rollback_note = none;
    test_sketch = none;
  });
  blocking_question = none;
}

abbrev proposals : List Recommendation
proposals = proposal "FK-001" add_constraint ∷ proposal "IDX-002" add_index ∷ []

proposals_once : Distinct (map (λ (r : Recommendation). r.id) proposals)
unfolding text_dec
proposals_once = ((ne_of_test "FK-001" "IDX-002" refl, tt), (tt, tt))

build_migration_plan-orders_example :
    (plan : MigrationPlan) × (order : List String) × (build_migration_plan launch_minimal proposals
      ≡ ok plan)
    × (topological_order plan ≡ ok order)
    × IsTopological (concat_map (expand_change launch_minimal) proposals) order
build_migration_plan-orders_example =
    build_migration_plan-orders launch_minimal proposals proposals_once
