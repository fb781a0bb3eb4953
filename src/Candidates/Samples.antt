-- ===== src/Candidates/Samples.antt =====
-- A schema with a primary key, and predicates on its table.
use pgproof.Common.{
  String, List, [], ◌∷◌, ◌≡◌, refl, none, ok, text_dec, inl, inr, In, ◌⊎◌, list_dec, option_dec,
  pair_dec,
}
use pgproof.Common.Dict.{get, put}
use pgproof.Identifiers.{
  table_names, column_names, decode_identity, decode_loop, decode_escaped, kind, close_parts,
  unpack_two, unpack_three,
}
use pgproof.Ir.{
  SchemaIr, ConstraintIr, physical_catalog, primary_key, constraint_kind_dec, index_method_dec,
  sort_direction_dec,
}
use pgproof.Candidates.Naming.{last_names, join, index_name, ddl}
use pgproof.Candidates.Defs.{
  ExtractedPredicate, PredicateKind, equality, numeric_range, predicate_kind_dec,
  CandidateGenerationResult, duplicate_of_existing_index, key_columns, index_sequences,
  constraint_sequences, existing_key_sequences, take, duplicate_of, equality_range, equality_only,
  singles, candidate_shapes, group_by_table, consider, consider_shapes, consider_tables,
  generate_candidates,
}
use pgproof.Candidates.Selection.{candidate_keys, discarded_keys}
use pgproof.Candidates.Generation.{generate_candidates-covers}

program : Unit {0}
unfolding text_dec list_dec option_dec pair_dec get put table_names column_names decode_identity
    decode_loop decode_escaped kind close_parts unpack_two unpack_three constraint_kind_dec
    index_method_dec sort_direction_dec last_names join index_name ddl predicate_kind_dec
    key_columns index_sequences constraint_sequences existing_key_sequences take duplicate_of
    equality_range equality_only singles candidate_shapes group_by_table consider consider_shapes
    consider_tables generate_candidates
program = tt

abbrev orders_key : ConstraintIr
orders_key = record {
  name = "orders_pkey";
  kind = primary_key;
  table = "public.orders";
  columns = "public.orders.id" ∷ [];
  referenced_table = none;
  referenced_columns = [];
  on_delete = none;
  on_update = none;
  expression = none;
  provenance = physical_catalog;
  introduced_by = none;
}

abbrev shop : SchemaIr
shop = record {
  provenance = physical_catalog;
  tables = [];
  constraints = orders_key ∷ [];
  indexes = [];
  extensions = [];
  extension_versions = [];
  server_version = none;
  settings = [];
  migration_head = none;
  migration_revisions = [];
  unsupported = [];
}

abbrev on : String → PredicateKind → ExtractedPredicate
on column kind = record {
  table = "public.orders";
  column = column;
  parameter_position = 1;
  operator = "=";
  kind = kind;
}

abbrev predicates : List ExtractedPredicate
predicates = on "public.orders.total" numeric_range ∷ on "public.orders.id" equality ∷ []

abbrev result : CandidateGenerationResult
result = record {
  candidates =
      record {
        table = "public.orders";
        columns = "public.orders.id" ∷ "public.orders.total" ∷ [];
        name = "ix_orders_id_total";
        apply_sql = "CREATE INDEX ix_orders_id_total ON \"public\".\"orders\" (id, total)";
        revert_sql = "DROP INDEX \"public\".\"ix_orders_id_total\"";
        supports = on "public.orders.id" equality ∷ on "public.orders.total" numeric_range ∷ [];
      }
      ∷ record {
        table = "public.orders";
        columns = "public.orders.total" ∷ [];
        name = "ix_orders_total";
        apply_sql = "CREATE INDEX ix_orders_total ON \"public\".\"orders\" (total)";
        revert_sql = "DROP INDEX \"public\".\"ix_orders_total\"";
        supports = on "public.orders.total" numeric_range ∷ [];
      }
      ∷ [];
  discarded =
      record {
        table = "public.orders";
        columns = "public.orders.id" ∷ [];
        reason = duplicate_of_existing_index "orders_pkey";
      }
      ∷ [];
}

result_of_shop : generate_candidates shop predicates ≡ ok result
unfolding program
result_of_shop = refl

generate_candidates-covers_example :
    In ("public.orders", "public.orders.id" ∷ []) (candidate_keys result.candidates)
    ⊎ In ("public.orders", "public.orders.id" ∷ []) (discarded_keys result.discarded)
generate_candidates-covers_example =
    generate_candidates-covers shop predicates result (on "public.orders.id" equality)
      result_of_shop (inr (inl refl))
