-- ===== src/Reconciliation/Defs/Tables.antt =====
-- reconciliation.py: `_reconcile_columns` and `_reconcile_tables`.
use Prim.Native.String.{◌++◌}
use pgproof.Common.{
  String, Bool, true, false, not, ◌&&◌, ◌||◌, none, some, List, [], ◌∷◌, ◌==◌, text_equality,
  pair_equality, ◌++◌ as followed_by, contains, concat_map, if◌then◌else◌,
}
use pgproof.Common.Dict.{Dict, get, put, keys}
use pgproof.Ir.{
  SchemaIr, TableIr, ColumnIr, primary_key, constraint_kind_equality, cardinality_equality,
}
use pgproof.Reconciliation.Defs.Types.{
  mismatched_nullability, model_references_missing_physical_object,
  physical_object_absent_from_models, Emission,
}

unfoldable pub primary_key_columns : SchemaIr → List String
primary_key_columns schema =
    concat_map (λ c. if c.kind == primary_key then c.columns else []) schema.constraints

-- `{column.id: column for column in columns}`
unfoldable pub columns_by_id : Dict String ColumnIr → List ColumnIr → Dict String ColumnIr
columns_by_id d [] = d
columns_by_id d (c ∷ cs) = columns_by_id (put c.id c d) cs

unfoldable pub tables_by_id : Dict String TableIr → List TableIr → Dict String TableIr
tables_by_id d [] = d
tables_by_id d (t ∷ ts) = tables_by_id (put t.id t d) ts

abbrev pub bool_text : Bool → String
bool_text true = "True"
bool_text false = "False"

abbrev pub differ : Bool → Bool → Bool
differ true b = not b
differ false b = b

-- The body of the first loop of `_reconcile_columns`.
unfoldable pub declared_column :
    TableIr → Dict String ColumnIr → List String → List String → String × ColumnIr → List Emission
declared_column orm_table physical_columns physical_keys orm_keys (id, column) =
    elim (get id physical_columns) [
      | none ↦
          record {
            kind = model_references_missing_physical_object;
            affected_objects = id ∷ [];
            summary =
                orm_table.name ++ "." ++ column.name
                ++ ": declared by the ORM but not created by any migration";
            source = column.source;
          }
          ∷ []
      | some physical ↦
          if not (contains id physical_keys || contains id orm_keys)
            && differ column.nullable physical.nullable
          then record {
            kind = mismatched_nullability;
            affected_objects = id ∷ [];
            summary =
                orm_table.name
                ++ "."
                ++ column.name
                ++ ": the ORM declares nullable="
                ++ bool_text column.nullable
                ++ ", the migration creates nullable="
                ++ bool_text physical.nullable;
            source = column.source;
          }
            ∷ []
          else []
    ]

-- The body of its second loop.
unfoldable pub created_column : TableIr → Dict String ColumnIr → String × ColumnIr → List Emission
created_column physical_table orm_columns (id, column) =
    if not (contains id (keys orm_columns))
    then record {
      kind = physical_object_absent_from_models;
      affected_objects = id ∷ [];
      summary =
          physical_table.name ++ "." ++ column.name
          ++ ": created by a migration but not declared by any ORM model";
      source = column.source;
    }
      ∷ []
    else []

unfoldable pub reconcile_columns : TableIr → TableIr → List String → List String → List Emission
unfolding columns_by_id declared_column created_column
reconcile_columns orm_table physical_table physical_keys orm_keys =
    let orm_columns = columns_by_id [] orm_table.columns in
    let physical_columns = columns_by_id [] physical_table.columns in
    followed_by
      (concat_map (declared_column orm_table physical_columns physical_keys orm_keys) orm_columns)
      (concat_map (created_column physical_table orm_columns) physical_columns)

-- The bodies of the loops of `_reconcile_tables`.
unfoldable pub declared_table :
    Dict String TableIr → List String → List String → String × TableIr → List Emission
unfolding reconcile_columns
declared_table physical_tables physical_keys orm_keys (id, orm_table) =
    elim (get id physical_tables) [
      | none ↦
          record {
            kind = model_references_missing_physical_object;
            affected_objects = id ∷ [];
            summary = orm_table.name ++ ": declared by the ORM but not created by any migration";
            source = orm_table.source;
          }
          ∷ []
      | some physical_table ↦ reconcile_columns orm_table physical_table physical_keys orm_keys
    ]

unfoldable pub created_table : Dict String TableIr → String × TableIr → List Emission
created_table orm_tables (id, physical_table) =
    if not (contains id (keys orm_tables))
    then record {
      kind = physical_object_absent_from_models;
      affected_objects = id ∷ [];
      summary = physical_table.name ++ ": created by a migration but not declared by any ORM model";
      source = physical_table.source;
    }
      ∷ []
    else []

unfoldable pub reconcile_tables : SchemaIr → SchemaIr → List Emission
unfolding tables_by_id primary_key_columns declared_table created_table
reconcile_tables physical orm_schema =
    let physical_tables = tables_by_id [] physical.tables in
    let orm_tables = tables_by_id [] orm_schema.tables in
    followed_by
      (concat_map
        (declared_table physical_tables (primary_key_columns physical)
          (primary_key_columns orm_schema))
        orm_tables)
      (concat_map (created_table orm_tables) physical_tables)
