-- ===== src/Reconciliation/Completeness.antt =====
-- Every disagreement is reported: the emissions of the loops, from the disagreement to the emission.
use pgproof.Common.{
  String, some, List, ◌++◌, ◌≡◌, In, In-concat_map, In-append_left, In-append_right, concat_map,
  text_equality, pair_equality,
}
use pgproof.Common.Dict.{get}
use pgproof.Ir.{SchemaIr, TableIr, ColumnIr}
use pgproof.Reconciliation.Defs.{
  ObservationKind, Emission, primary_key_columns, declared_column, reconcile_columns,
  declared_table, reconcile_tables,
}
use pgproof.Reconciliation.Drift.{tables, columns}

-- Some emission has the kind and the objects.
abbrev pub IsEmitted : ObservationKind → List String → List Emission → Type 0
IsEmitted kind objects es =
    (e : Emission) × In e es × (e.kind ≡ kind) × (e.affected_objects ≡ objects)

pub IsEmitted-left :
    (kind : ObservationKind) (objects : List String) (xs ys : List Emission)
    → IsEmitted kind objects xs
    → IsEmitted kind objects (xs ++ ys)
IsEmitted-left kind objects xs ys (e, m, p, q) = (e, In-append_left e xs ys m, p, q)

pub IsEmitted-right :
    (kind : ObservationKind) (objects : List String) (xs ys : List Emission)
    → IsEmitted kind objects ys
    → IsEmitted kind objects (xs ++ ys)
IsEmitted-right kind objects xs ys (e, m, p, q) = (e, In-append_right e xs ys m, p, q)

pub IsEmitted-item :
    {A : Type 0} (kind : ObservationKind) (objects : List String) (f : A → List Emission) (x : A)
    (xs : List A)
    → In x xs
    → IsEmitted kind objects (f x)
    → IsEmitted kind objects (concat_map f xs)
IsEmitted-item kind objects f x xs m (e, k, p, q) = (e, In-concat_map f x e xs m k, p, q)

module _ (physical orm : SchemaIr) where
  -- What is emitted for a table that both sides have is emitted for the schemas.
  pub within_table :
      (kind : ObservationKind) (objects : List String) (name : String) (declared created : TableIr)
      → In (name, declared) (tables orm)
      → get name (tables physical) ≡ some created
      → IsEmitted kind objects (
          reconcile_columns declared created
            (primary_key_columns physical)
            (primary_key_columns orm))
      → IsEmitted kind objects (reconcile_tables physical orm)
  unfolding reconcile_tables declared_table
  within_table kind objects name declared created m s e =
      IsEmitted-left kind objects _ _
        (IsEmitted-item kind objects _ (name, declared) (tables orm) m (rw (declared_table, s) e))

  pub IsEmitted-column :
      (kind : ObservationKind) (objects : List String) (id name : String)
      (declared created : TableIr) (column : ColumnIr)
      → In (name, declared) (tables orm)
      → get name (tables physical) ≡ some created
      → In (id, column) (columns declared)
      → IsEmitted kind objects (
          declared_column declared
            (columns created)
            (primary_key_columns physical)
            (primary_key_columns orm)
            (id, column))
      → IsEmitted kind objects (reconcile_tables physical orm)
  unfolding reconcile_columns
  IsEmitted-column kind objects id name declared created column t c m e =
      within_table kind objects name declared created t c (
        IsEmitted-left kind objects _ _
          (IsEmitted-item kind objects _ (id, column) (columns declared) m e))
