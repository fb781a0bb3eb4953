-- ===== src/MigrationPlan/Expansion.antt =====
-- migration_plan.py: the steps of one recommendation's proposed change, and the plan of them all.
use Prim.Native.String.{◌++◌}
use pgproof.Common.{ℕ, String, Option, none, some, List, [], ◌∷◌, Result, concat_map}
use pgproof.Identifiers.Framing.{text, number, frame_components}
use pgproof.Advice.{
  ScenarioKind, Recommendation, ProposedChange, ChangeKind, add_constraint, add_index,
}
use pgproof.MigrationPlan.Defs.{PlanStep, MigrationPlan, PlanError, validate_references}

unfoldable pub step_id : String → ℕ → String
unfolding frame_components
step_id recommendation index = frame_components (text recommendation ∷ number index ∷ [])

module _ (scenario : ScenarioKind) where
  abbrev pub not_valid_step : Recommendation → ProposedChange → PlanStep
  not_valid_step r change = record {
    id = step_id r.id 0;
    recommendation = r.id;
    scenario = scenario;
    dependency_ids = [];
    schema_action =
        change.summary ++ " Add it NOT VALID so existing rows are not checked immediately.";
    application_action = none;
    backfill_or_validation = none;
    deployment_boundary =
        "Safe without a maintenance window: NOT VALID acquires only a brief metadata lock.";
    rollback_note = "Drop the NOT VALID constraint; no data was altered.";
    verification_requirement = "Confirm the constraint exists and is marked NOT VALID.";
  }

  abbrev pub validate_step : Recommendation → PlanStep
  validate_step r = record {
    id = step_id r.id 1;
    recommendation = r.id;
    scenario = scenario;
    dependency_ids = step_id r.id 0 ∷ [];
    schema_action =
        "Run VALIDATE CONSTRAINT to check existing rows without blocking concurrent writes.";
    application_action = none;
    backfill_or_validation =
        some "Existing rows are validated in place; a violating row must be corrected first.";
    deployment_boundary = "Run once existing data is known to satisfy the constraint.";
    rollback_note = "A failed validation leaves the constraint NOT VALID; nothing to undo.";
    verification_requirement = "Confirm the constraint is no longer marked NOT VALID.";
  }

  abbrev pub index_step : Recommendation → ProposedChange → PlanStep
  index_step r change = record {
    id = step_id r.id 0;
    recommendation = r.id;
    scenario = scenario;
    dependency_ids = [];
    schema_action = change.summary ++ " Create it CONCURRENTLY to avoid locking writes.";
    application_action = none;
    backfill_or_validation = none;
    deployment_boundary =
        "Safe against a live table: CONCURRENTLY builds without an exclusive lock.";
    rollback_note = "Drop the index; no data was altered.";
    verification_requirement = "Confirm the index exists and is not marked INVALID.";
  }

  abbrev note_or : String → Option String → String
  note_or fallback none = fallback
  note_or fallback (some note) = note

  abbrev pub unstaged_step : Recommendation → ProposedChange → PlanStep
  unstaged_step r change = record {
    id = step_id r.id 0;
    recommendation = r.id;
    scenario = scenario;
    dependency_ids = [];
    schema_action = change.summary;
    application_action = none;
    backfill_or_validation = none;
    deployment_boundary = "Not yet staged; review before deploying.";
    rollback_note = note_or "No rollback sketch is available for this change." change.rollback_note;
    verification_requirement = "Confirm the change was applied as sketched.";
  }

  abbrev pub staged : Recommendation → ProposedChange → ChangeKind → List PlanStep
  staged r change add_constraint = not_valid_step r change ∷ validate_step r ∷ []
  staged r change add_index = index_step r change ∷ []
  staged r change _ = unstaged_step r change ∷ []

  abbrev pub expand_proposed : Recommendation → Option ProposedChange → List PlanStep
  expand_proposed r none = []
  expand_proposed r (some change) = staged r change change.kind

  unfoldable pub expand_change : Recommendation → List PlanStep
  unfolding step_id
  expand_change r = expand_proposed r r.proposed_change

  unfoldable pub build_migration_plan : List Recommendation → Result PlanError MigrationPlan
  unfolding expand_change validate_references
  build_migration_plan recommendations =
      validate_references (concat_map expand_change recommendations)
