-- ===== src/Reconciliation/Defs/Reconcile.antt =====
-- reconciliation.py: `_Builder` and `reconcile`.
use pgproof.Common.{
  String, Option, none, some, List, [], ◌∷◌, map, text_equality, pair_equality, ◌++◌ as followed_by,
  Result, ok, ◌>>=◌,
}
use pgproof.Identifiers.{IdentityError}
use pgproof.Ir.{SourceRef, SchemaIr, constraint_kind_equality, CodeIr, cardinality_equality}
use pgproof.Reconciliation.Defs.Types.{
  ObservationKind, Observation, ReconciliationReport, Emission, observed, EvidenceRef,
}
use pgproof.Reconciliation.Defs.Tables.{reconcile_tables}
use pgproof.Reconciliation.Defs.Relationships.{reconcile_relationships}

abbrev pub hash_of : Option SourceRef → Option String
hash_of none = none
hash_of (some s) = some s.content_hash

module _ (evidence_id : ObservationKind → List String → String) where
  abbrev pub observation : Emission → Observation
  observation e = record {
    kind = e.kind;
    affected_objects = e.affected_objects;
    summary = e.summary;
    evidence_refs = evidence_id e.kind e.affected_objects ∷ [];
  }

  abbrev pub evidence_ref : Emission → EvidenceRef
  evidence_ref e = record {
    id = evidence_id e.kind e.affected_objects;
    kind = observed;
    summary = e.summary;
    source = e.source;
    content_hash = hash_of e.source;
    fixture_scale = none;
  }

  -- _Builder.build
  abbrev pub report : List Emission → ReconciliationReport
  report emissions = record {
    observations = map observation emissions;
    evidence = map evidence_ref emissions;
  }

  unfoldable pub reconcile :
      SchemaIr → SchemaIr → CodeIr → Result IdentityError ReconciliationReport
  unfolding reconcile_tables reconcile_relationships
  reconcile physical orm_schema code = do
    relations ← reconcile_relationships physical code
    ok (report (followed_by (reconcile_tables physical orm_schema) relations))
