-- ===== src/Reconciliation/Samples.antt =====
-- An ORM that declares a column that no migration creates.
use pgproof.Common.{String, false, List, [], ◌∷◌, none, text_dec, pair_dec}
use pgproof.Common.Dict.{get, put}
use pgproof.Ir.{
  SchemaIr, ColumnIr, CodeIr, SchemaProvenance, static_migration, orm_declaration,
  constraint_kind_dec, cardinality_dec,
}
use pgproof.Reconciliation.Defs.{
  ObservationKind, model_references_missing_physical_object, ReconciliationReport, table_name,
  primary_key_columns, columns_by_id, tables_by_id, declared_column, created_column,
  reconcile_columns, declared_table, created_table, reconcile_tables, foreign_key_pairs,
  fk_holding_relationships, unbacked, undeclared, reconcile_relationships, reconcile, observed,
}

program : Unit {0}
unfolding text_dec pair_dec get put constraint_kind_dec cardinality_dec table_name
    primary_key_columns columns_by_id tables_by_id declared_column created_column reconcile_columns
    declared_table created_table reconcile_tables foreign_key_pairs fk_holding_relationships
    unbacked undeclared reconcile_relationships reconcile
program = tt

abbrev column : String → String → SchemaProvenance → ColumnIr
column id name provenance = record {
  id = id;
  name = name;
  data_type = "integer";
  nullable = false;
  default_expression = none;
  is_generated = false;
  is_identity = false;
  provenance = provenance;
  source = none;
}

abbrev schema : SchemaProvenance → List ColumnIr → SchemaIr
schema provenance columns = record {
  provenance = provenance;
  tables =
      record {
        id = "public.orders";
        schema_name = "public";
        name = "orders";
        columns = columns;
        provenance = provenance;
        source = none;
        comment = none;
      }
      ∷ [];
  constraints = [];
  indexes = [];
  extensions = [];
  extension_versions = [];
  server_version = none;
  settings = [];
  migration_head = none;
  migration_revisions = [];
  unsupported = [];
}

abbrev migrated : SchemaIr
migrated = schema static_migration (column "public.orders.id" "id" static_migration ∷ [])

abbrev declared : SchemaIr
declared = schema orm_declaration (
    column "public.orders.id" "id" orm_declaration
    ∷ column "public.orders.note" "note" orm_declaration
    ∷ [])

abbrev code : CodeIr
code = record {
  orm = "sqlalchemy";
  models = [];
  relationships = [];
  operations = [];
  unsupported = [];
}

abbrev id_of : ObservationKind → List String → String
id_of kind objects = "e1"

abbrev found : ReconciliationReport
found = record {
  observations =
      record {
        kind = model_references_missing_physical_object;
        affected_objects = "public.orders.note" ∷ [];
        summary = "orders.note: declared by the ORM but not created by any migration";
        evidence_refs = "e1" ∷ [];
      }
      ∷ [];
  evidence =
      record {
        id = "e1";
        kind = observed;
        summary = "orders.note: declared by the ORM but not created by any migration";
        source = none;
        content_hash = none;
        fixture_scale = none;
      }
      ∷ [];
}
