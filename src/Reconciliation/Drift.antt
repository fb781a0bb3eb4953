-- ===== src/Reconciliation/Drift.antt =====
-- What each observation of a reconciliation means, independently of the loops that make it.
use pgproof.Common.{
  String, Bool, true, false, ◌||◌, none, some, List, [], ◌∷◌, ◌≡◌, inl, inr, In, All, All-append,
  All-concat_map, contains, Bool-cases, Option-cases, text_equality, pair_equality,
}
use pgproof.Common.Dict.{Dict, get, keys}
use pgproof.Ir.{SchemaIr, TableIr, ColumnIr, ConstraintIr, CodeIr, RelationshipIr}
use pgproof.Reconciliation.Defs.{
  ObservationKind, orm_only_relationship, physical_fk_without_orm_relationship,
  mismatched_nullability, model_references_missing_physical_object,
  physical_object_absent_from_models, Emission, primary_key_columns, columns_by_id, tables_by_id,
  differ, declared_column, created_column, reconcile_columns, declared_table, created_table,
  reconcile_tables, TablePair, foreign_key_pairs, fk_holding_relationships,
}

abbrev pub tables : SchemaIr → Dict String TableIr
tables schema = tables_by_id [] schema.tables

abbrev pub columns : TableIr → Dict String ColumnIr
columns table = columns_by_id [] table.columns

abbrev pub foreign_keys : SchemaIr → Dict TablePair ConstraintIr
foreign_keys schema = foreign_key_pairs [] schema.constraints

abbrev pub relationships : CodeIr → Dict TablePair RelationshipIr
relationships code = fk_holding_relationships [] code.relationships

abbrev pub is_key : SchemaIr → SchemaIr → String → Bool
is_key physical orm id =
    contains id (primary_key_columns physical) || contains id (primary_key_columns orm)

-- The disagreements of a migrated schema, the schema that the ORM declares, and the code.
pub data IsDrift (physical orm : SchemaIr) (code : CodeIr)
    : ObservationKind → List String → Type 0 where
  missing_table :
      (id : String) (table : TableIr)
      → In (id, table) (tables orm)
      → get id (tables physical) ≡ none
      → IsDrift physical orm code model_references_missing_physical_object (id ∷ [])
  missing_column :
      (id name : String) (declared created : TableIr) (column : ColumnIr)
      → In (name, declared) (tables orm)
      → get name (tables physical) ≡ some created
      → In (id, column) (columns declared)
      → get id (columns created) ≡ none
      → IsDrift physical orm code model_references_missing_physical_object (id ∷ [])
  other_nullability :
      (id name : String) (declared created : TableIr) (column physical_column : ColumnIr)
      → In (name, declared) (tables orm)
      → get name (tables physical) ≡ some created
      → In (id, column) (columns declared)
      → get id (columns created) ≡ some physical_column
      → is_key physical orm id ≡ false
      → differ column.nullable physical_column.nullable ≡ true
      → IsDrift physical orm code mismatched_nullability (id ∷ [])
  undeclared_column :
      (id name : String) (declared created : TableIr) (column : ColumnIr)
      → In (name, declared) (tables orm)
      → get name (tables physical) ≡ some created
      → In (id, column) (columns created)
      → contains id (keys (columns declared)) ≡ false
      → IsDrift physical orm code physical_object_absent_from_models (id ∷ [])
  undeclared_table :
      (id : String) (table : TableIr)
      → In (id, table) (tables physical)
      → contains id (keys (tables orm)) ≡ false
      → IsDrift physical orm code physical_object_absent_from_models (id ∷ [])
  unbacked_relationship :
      (source target : String) (relationship : RelationshipIr)
      → In ((source, target), relationship) (relationships code)
      → contains (source, target) (keys (foreign_keys physical)) ≡ false
      → IsDrift physical orm code orm_only_relationship (source ∷ target ∷ [])
  undeclared_foreign_key :
      (source target : String) (constraint : ConstraintIr)
      → In ((source, target), constraint) (foreign_keys physical)
      → contains (source, target) (keys (relationships code)) ≡ false
      → IsDrift physical orm code physical_fk_without_orm_relationship (source ∷ target ∷ [])

module _ (physical orm : SchemaIr) (code : CodeIr) where
  abbrev pub IsTrue : Emission → Type 0
  IsTrue e = IsDrift physical orm code e.kind e.affected_objects

  declared_column-IsTrue :
      (name id : String) (declared created : TableIr) (column : ColumnIr)
      → In (name, declared) (tables orm)
      → get name (tables physical) ≡ some created
      → In (id, column) (columns declared)
      → All IsTrue (
          declared_column declared
            (columns created)
            (primary_key_columns physical)
            (primary_key_columns orm)
            (id, column))
  unfolding declared_column
  declared_column-IsTrue name id declared created column t c m =
      elim (Option-cases (get id (columns created))) [
        | inl n ↦
            rw (declared_column, n) (missing_column id name declared created column t c m n, tt)
        | inr (p, s) ↦
            rw (declared_column, s)
              (elim (Bool-cases (is_key physical orm id)) [
                | inl k ↦ rw k tt
                | inr k ↦ elim (Bool-cases (differ column.nullable p.nullable)) [
                  | inl d ↦
                      rw k
                        (rw d (other_nullability id name declared created column p t c m s k d, tt))
                  | inr d ↦ rw k (rw d tt)
                ]
              ])
      ]

  created_column-IsTrue :
      (name id : String) (declared created : TableIr) (column : ColumnIr)
      → In (name, declared) (tables orm)
      → get name (tables physical) ≡ some created
      → In (id, column) (columns created)
      → All IsTrue (created_column created (columns declared) (id, column))
  unfolding created_column
  created_column-IsTrue name id declared created column t c m =
      elim (Bool-cases (contains id (keys (columns declared)))) [
        | inl k ↦ rw k tt
        | inr k ↦ rw k (undeclared_column id name declared created column t c m k, tt)
      ]

  declared_table-IsTrue :
      (id : String) (table : TableIr)
      → In (id, table) (tables orm)
      → All IsTrue (
          declared_table
            (tables physical)
            (primary_key_columns physical)
            (primary_key_columns orm)
            (id, table))
  unfolding declared_table reconcile_columns
  declared_table-IsTrue id table m = elim (Option-cases (get id (tables physical))) [
    | inl n ↦ rw (declared_table, n) (missing_table id table m n, tt)
    | inr (created, s) ↦
        rw (declared_table, s)
          (All-append IsTrue _ _
            (All-concat_map IsTrue _ (columns table)
              (λ (i, c) k. declared_column-IsTrue id i table created c m s k))
            (All-concat_map IsTrue _ (columns created)
              (λ (i, c) k. created_column-IsTrue id i table created c m s k)))
  ]

  created_table-IsTrue :
      (id : String) (table : TableIr)
      → In (id, table) (tables physical)
      → All IsTrue (created_table (tables orm) (id, table))
  unfolding created_table
  created_table-IsTrue id table m = elim (Bool-cases (contains id (keys (tables orm)))) [
    | inl k ↦ rw k tt
    | inr k ↦ rw k (undeclared_table id table m k, tt)
  ]

  pub reconcile_tables-IsTrue : All IsTrue (reconcile_tables physical orm)
  unfolding reconcile_tables
  reconcile_tables-IsTrue =
      All-append IsTrue _ _
        (All-concat_map IsTrue _ (tables orm) (λ (i, t) m. declared_table-IsTrue i t m))
        (All-concat_map IsTrue _ (tables physical) (λ (i, t) m. created_table-IsTrue i t m))
