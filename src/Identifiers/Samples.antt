-- ===== src/Identifiers/Samples.antt =====
-- Names with separators and escapes in them, encoded and decoded.
use pgproof.Common.{String, List, [], ◌∷◌, ◌≡◌, ◌↔◌, refl, ok, raise, text_dec, In}
use pgproof.Common.Sets.{unique}
use pgproof.Common.Sorting.{sort_by, text_le}
use pgproof.Identifiers.Identity.{canonical_recommendation_identity}
use pgproof.Identifiers.SameObjects.{canonical_recommendation_identity-IsSame}
use pgproof.Identifiers.Codec.{
  encode_identity, decode_identity, table_id, column_id, table_names, column_names, dangling_escape,
  empty_part,
}
use pgproof.Identifiers.Nodes.{node_id, node_parts, not_node_kind}
use pgproof.Identifiers.RoundTrip.{decode-encode_identity}
use pgproof.Identifiers.Canonical.{encode-decode_identity}
use pgproof.Identifiers.Tables.{table_names-table_id, column_names-column_id}
use pgproof.Identifiers.NodeParts.{node_parts-node_id}

program : Unit {0}
unfolding encode_identity decode_identity table_id column_id table_names column_names node_id
    node_parts text_dec canonical_recommendation_identity unique sort_by text_le
program = tt

abbrev odd_names : List String
odd_names = "a.b" ∷ "c\\d" ∷ []

encoded : encode_identity odd_names ≡ ok "a\\.b.c\\\\d"
unfolding program
encoded = refl

decoded : decode_identity "a\\.b.c\\\\d" ≡ ok odd_names
unfolding program
decoded = refl

dangling : decode_identity "a.b\\" ≡ raise dangling_escape
unfolding program
dangling = refl

empty_names : decode_identity "a..b" ≡ raise empty_part
unfolding program
empty_names = refl

table : table_id "public" "orders" ≡ ok "public.orders"
unfolding program
table = refl

names : table_names "public.orders" ≡ ok ("public", "orders")
unfolding program
names = refl

column : column_id "public.orders" "id" ≡ ok "public.orders.id"
unfolding program
column = refl

node : node_id "table" "public:orders" ≡ ok "table:public:orders"
unfolding program
node = refl

bad_node : node_id "table:x" "a" ≡ raise not_node_kind
unfolding program
bad_node = refl

decode-encode_identity_example : decode_identity "a\\.b.c\\\\d" ≡ ok odd_names
decode-encode_identity_example = decode-encode_identity odd_names "a\\.b.c\\\\d" encoded

encode-decode_identity_example : encode_identity odd_names ≡ ok "a\\.b.c\\\\d"
encode-decode_identity_example = encode-decode_identity "a\\.b.c\\\\d" odd_names decoded

table_names-table_id_example : table_names "public.orders" ≡ ok ("public", "orders")
table_names-table_id_example = table_names-table_id "public" "orders" "public.orders" table

column_names-column_id_example : column_names "public.orders.id" ≡ ok ("public", "orders", "id")
column_names-column_id_example =
    column_names-column_id "public.orders" "id" "public.orders.id" "public" "orders" names column

node_parts-node_id_example : node_parts "table:public:orders" ≡ ok ("table", "public:orders")
node_parts-node_id_example = node_parts-node_id "table" "public:orders" "table:public:orders" node

abbrev shared_identity : String
shared_identity = "[\"schema.fk\",[\"a\",\"b\"]]"

abbrev the_rule : String
the_rule = "schema.fk"

first_identity :
    canonical_recommendation_identity the_rule ("b" ∷ "a" ∷ "b" ∷ []) ≡ ok shared_identity
unfolding program
first_identity = refl

second_identity : canonical_recommendation_identity the_rule ("a" ∷ "b" ∷ []) ≡ ok shared_identity
unfolding program
second_identity = refl

canonical_recommendation_identity-IsSame_example : (shared_identity ≡ shared_identity) ↔ (
    (the_rule ≡ the_rule)
    × ((x : String) → In x ("b" ∷ "a" ∷ "b" ∷ []) → In x ("a" ∷ "b" ∷ []))
    × ((x : String) → In x ("a" ∷ "b" ∷ []) → In x ("b" ∷ "a" ∷ "b" ∷ [])))
canonical_recommendation_identity-IsSame_example =
    canonical_recommendation_identity-IsSame the_rule the_rule ("b" ∷ "a" ∷ "b" ∷ [])
      ("a" ∷ "b" ∷ []) shared_identity shared_identity first_identity second_identity
