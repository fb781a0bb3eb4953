-- ===== src/Reconciliation/Report.antt =====
-- A report and the disagreements: each of one is one of the other.
use pgproof.Common.{String, List, ◌≡◌, In, text_equality, pair_equality}
use pgproof.Reconciliation.Defs.{ObservationKind, Observation, ReconciliationReport}

abbrev pub IsReported : ReconciliationReport → ObservationKind → List String → Type 0
IsReported r kind objects =
    (o : Observation) × In o r.observations × (o.kind ≡ kind) × (o.affected_objects ≡ objects)
