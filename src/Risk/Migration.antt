-- ===== src/Risk/Migration.antt =====
-- A migration as a whole: the risks that are reported, and those that may not be left out.
use pgproof.Common.{String, false, some, List, ◌≡◌, ◌⊎◌, In, text_equality}
use pgproof.Ir.{SourceRef}
use pgproof.Risk.Syntax.{Node, OpCall, op_call}
use pgproof.Risk.Assess.{MigrationRisk, target_table, is_created}
use pgproof.Risk.Rules.{IsOf}

module _ (revision : String) (source : SourceRef) where
  -- A risk is of some call on `op`; the call drops a table, or its table is not made by the migration itself.
  abbrev pub IsExplained : List String → List Node → MigrationRisk → Type 0
  IsExplained created nodes r =
      (node : Node) × (c : OpCall) × In node nodes
      × (op_call node ≡ some c)
      × IsOf revision source c r
      × ((c.method ≡ "drop_table") ⊎ (is_created (target_table c) created ≡ false))
