-- ===== src/Reconciliation/Defs/Types.antt =====
-- reconciliation.py and evidence.py: observations, evidence, and what `emit` is called with.
use pgproof.Common.{String, Option, List, text_equality, pair_equality}
use pgproof.Ir.{SourceRef, constraint_kind_equality, cardinality_equality}

-- domain/evidence.py
pub data EvidenceKind : Type 0 where
  observed user_confirmed inferred verified_in_fixture : EvidenceKind

pub record EvidenceRef : Type 0 where
  pub id : String
  pub kind : EvidenceKind
  pub summary : String
  pub source : Option SourceRef
  pub content_hash : Option String
  pub fixture_scale : Option String

pub data ObservationKind : Type 0 where
  orm_only_relationship physical_fk_without_orm_relationship mismatched_nullability :
      ObservationKind
  model_references_missing_physical_object physical_object_absent_from_models : ObservationKind

pub record Observation : Type 0 where
  pub kind : ObservationKind
  pub affected_objects : List String
  pub summary : String
  pub evidence_refs : List String

pub record ReconciliationReport : Type 0 where
  pub observations : List Observation
  pub evidence : List EvidenceRef

-- The arguments of `emit`.
pub record Emission : Type 0 where
  pub kind : ObservationKind
  pub affected_objects : List String
  pub summary : String
  pub source : Option SourceRef
