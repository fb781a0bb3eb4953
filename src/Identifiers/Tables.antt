-- ===== src/Identifiers/Tables.antt =====
-- Table and column identities: the logical names come back out.
use pgproof.Common.{ℕ, String, ◌≡◌, refl, [], ◌∷◌, ok, arith, >>=-eq-ok}
use pgproof.Identifiers.Codec.{
  encode_identity, validate_parts, validate_table_id, validate_column_id, table_id, table_names,
  column_id, column_names, unpack_two, unpack_three,
}
use pgproof.Identifiers.RoundTrip.{decode-encode_identity}

validate_parts-eq-ok :
    (text : String) (n : ℕ) {value : String} → validate_parts text n ≡ ok value → value ≡ text
unfolding validate_parts
validate_parts-eq-ok text n h = ground arith

-- A table identity decodes to the schema and the table that it was made of.
pub table_names-table_id :
    (schema table value : String)
    → table_id schema table ≡ ok value
    → table_names value ≡ ok (schema, table)
unfolding table_id validate_table_id table_names unpack_two
table_names-table_id schema table value h =
    let (text, encoded, checked) = >>=-eq-ok (encode_identity (schema ∷ table ∷ [])) _ h in
    rw (validate_parts-eq-ok text 2 checked)
      (rw (decode-encode_identity (schema ∷ table ∷ []) text encoded) refl)

-- A column identity decodes to the names of its table's identity and the column's name.
pub column_names-column_id :
    (table column value schema_name table_name : String)
    → table_names table ≡ ok (schema_name, table_name)
    → column_id table column ≡ ok value
    → column_names value ≡ ok (schema_name, table_name, column)
unfolding column_id validate_column_id column_names unpack_three
column_names-column_id table column value schema_name table_name names h =
    let (text, encoded, checked) =
      >>=-eq-ok (encode_identity (schema_name ∷ table_name ∷ column ∷ [])) _ (rw names at h) in
    rw (validate_parts-eq-ok text 3 checked)
      (rw (decode-encode_identity (schema_name ∷ table_name ∷ column ∷ []) text encoded) refl)
