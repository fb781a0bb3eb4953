-- ===== src/Candidates/Naming.antt =====
-- generate.py: `_index_name` and `_ddl`.
use Prim.Native.String.{◌++◌}
use pgproof.Common.{String, List, [], ◌∷◌, Result, ok, ◌>>=◌}
use pgproof.Identifiers.{IdentityError, table_names, column_names}

-- `[column_names(column)[2] for column in columns]`
unfoldable pub last_names : List String → Result IdentityError (List String)
last_names [] = ok []
last_names (column ∷ columns) = do
  (schema, table, name) ← column_names column
  names ← last_names columns
  ok (name ∷ names)

-- `separator.join(names)`
unfoldable pub join : String → List String → String
join separator [] = ""
join separator (name ∷ []) = name
join separator (name ∷ next ∷ names) = name ++ separator ++ join separator (next ∷ names)

unfoldable pub index_name : String → List String → Result IdentityError String
unfolding last_names join
index_name table columns = do
  (schema, table_name) ← table_names table
  parts ← last_names columns
  ok ("ix_" ++ table_name ++ "_" ++ join "_" parts)

unfoldable pub ddl : String → List String → Result IdentityError (String × String × String)
unfolding index_name last_names join
ddl table columns = do
  (schema_name, table_name) ← table_names table
  name ← index_name table columns
  names ← last_names columns
  ok (
    name,
    "CREATE INDEX "
        ++ name
        ++ " ON \""
        ++ schema_name
        ++ "\".\""
        ++ table_name
        ++ "\" ("
        ++ join ", " names
        ++ ")",
    "DROP INDEX \"" ++ schema_name ++ "\".\"" ++ name ++ "\"",
  )
