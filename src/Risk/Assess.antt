-- ===== src/Risk/Assess.antt =====
-- risk.py: the rules, and the two passes over `upgrade()`.
use pgproof.Common.{
  ℕ, String, Bool, true, false, not, ◌&&◌, ◌||◌, Option, none, some, List, [], ◌∷◌, contains, ◌==◌,
  text_equality, if◌then◌else◌,
}
use pgproof.Common.Dict.{Dict, get}
use pgproof.Ir.{SourceRef}
use pgproof.Risk.Syntax.{
  Expression, call, Node, TopLevel, function, other_definition, OpCall, op_call, bool_keyword,
  has_keyword, argument, text_of,
}

pub data RiskCategory : Type 0 where
  destructive constraint type_change index : RiskCategory

-- The members of `ChangeKind` (domain/recommendations.py) that the rules name.
pub data ChangeKind : Type 0 where
  add_constraint alter_column add_index : ChangeKind

-- The texts of `reason`.
pub data RiskReason : Type 0 where
  drops_table drops_column drops_constraint validates_rows : RiskReason
  needs_full_scan changes_type blocks_writes : RiskReason

-- _LOCK_FACT_ASSUMPTION and _TYPE_CHANGE_ASSUMPTION
pub data Assumption : Type 0 where
  lock_fact type_change_rewrites : Assumption

pub record MigrationRisk : Type 0 where
  pub revision : String
  pub operation : String
  pub category : RiskCategory
  pub reason : RiskReason
  pub reversible : Bool
  pub assumption : Option Assumption
  pub expand_contract_change_kind : Option ChangeKind
  pub source : SourceRef

-- _TABLE_ARGUMENT_INDEX
abbrev pub table_argument_index : Dict String ℕ
table_argument_index =
    ("create_table", 0)
    ∷ ("drop_table", 0)
    ∷ ("add_column", 0)
    ∷ ("drop_column", 0)
    ∷ ("alter_column", 0)
    ∷ ("create_unique_constraint", 1)
    ∷ ("create_foreign_key", 1)
    ∷ ("create_check_constraint", 1)
    ∷ ("drop_constraint", 1)
    ∷ ("create_index", 1)
    ∷ ("drop_index", 1)
    ∷ []

unfoldable pub target_table : OpCall → Option String
unfolding argument text_of get
target_table c = elim (get c.method table_argument_index) [
  | none ↦ none
  | some position ↦ text_of (argument c.args position)
]

-- The table that a node creates.
unfoldable pub created_by : Option OpCall → Option String
unfolding target_table
created_by none = none
created_by (some c) = if c.method == "create_table" then target_table c else none

unfoldable pub created_tables : List Node → List String
unfolding created_by op_call
created_tables [] = []
created_tables (node ∷ nodes) = elim (created_by (op_call node)) [
  | none ↦ created_tables nodes
  | some table ↦ table ∷ created_tables nodes
]

-- `target is not None and target in created_tables`
unfoldable pub is_created : Option String → List String → Bool
is_created none created = false
is_created (some table) created = contains table created

-- What the nested `sa.Column(…)` call of `add_column` says.
unfoldable pub unfilled : Option Expression → Bool
unfolding bool_keyword has_keyword
unfilled (some (call func args keywords)) =
    not (bool_keyword keywords "nullable")
    && has_keyword keywords "nullable"
    && not (has_keyword keywords "server_default")
unfilled _ = false

module _ (revision : String) (source : SourceRef) where
  abbrev pub risk :
      String
      → RiskCategory
      → RiskReason
      → Bool
      → Option Assumption
      → Option ChangeKind
      → MigrationRisk
  risk operation category reason reversible assumption change = record {
    revision = revision;
    operation = operation;
    category = category;
    reason = reason;
    reversible = reversible;
    assumption = assumption;
    expand_contract_change_kind = change;
    source = source;
  }

  -- The chain of `if`s of `_assess_call`, behind its first return.
  unfoldable pub assess_method : OpCall → Option MigrationRisk
  unfolding unfilled bool_keyword has_keyword argument
  assess_method c =
      if c.method == "drop_table"
      then some (risk c.method destructive drops_table false none none)
      else if c.method == "drop_column"
      then some (risk c.method destructive drops_column false none none)
      else if c.method == "drop_constraint"
      then some (risk c.method constraint drops_constraint true none none)
      else if c.method == "create_unique_constraint"
          || c.method == "create_foreign_key"
          || c.method == "create_check_constraint"
      then some (risk c.method constraint validates_rows true none (some add_constraint))
      else if c.method == "add_column"
      then (if unfilled (argument c.args 1)
          then some (risk c.method constraint needs_full_scan true (some lock_fact) none)
          else none)
      else if c.method == "alter_column" && has_keyword c.keywords "type_"
      then some (
          risk c.method type_change changes_type false (some type_change_rewrites)
            (some alter_column))
      else if c.method == "create_index"
      then (if bool_keyword c.keywords "postgresql_concurrently"
          then none
          else some (risk c.method index blocks_writes true none (some add_index)))
      else none

  -- _assess_call
  unfoldable pub assess_call : List String → OpCall → Option MigrationRisk
  unfolding assess_method target_table is_created
  assess_call created c =
      if not (c.method == "drop_table") && is_created (target_table c) created
      then none
      else assess_method c

  -- The loop of `assess_migration`.
  unfoldable pub assess_nodes : List String → List Node → List MigrationRisk
  unfolding assess_call op_call
  assess_nodes created [] = []
  assess_nodes created (node ∷ nodes) = elim (op_call node) [
    | none ↦ assess_nodes created nodes
    | some c ↦ elim (assess_call created c) [
      | none ↦ assess_nodes created nodes
      | some found ↦ found ∷ assess_nodes created nodes
    ]
  ]

-- _upgrade_function: the nodes of the first function of that name
unfoldable pub upgrade_function : List TopLevel → Option (List Node)
upgrade_function [] = none
upgrade_function (function name walk ∷ body) =
    let rest = upgrade_function body in if name == "upgrade" then some walk else rest
upgrade_function (other_definition ∷ body) = upgrade_function body

-- assess_migration; `parse` is `ast.parse`, none on a SyntaxError.
unfoldable pub assess_migration :
    (String → Option (List TopLevel)) → String → String → SourceRef → List MigrationRisk
unfolding upgrade_function created_tables assess_nodes
assess_migration parse source_text revision source = elim (parse source_text) [
  | none ↦ []
  | some body ↦ elim (upgrade_function body) [
    | none ↦ []
    | some nodes ↦ assess_nodes revision source (created_tables nodes) nodes
  ]
]
