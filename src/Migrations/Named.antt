-- ===== src/Migrations/Named.antt =====
-- Every operation keeps the collections keyed by the names of what they hold.
use Prim.Native.String.{◌++◌}
use pgproof.Common.{
  String, Option, none, some, [], ◌∷◌, ◌≡◌, refl, ok, ◌==◌, text_equality, Bool-cases, inl, inr,
  ◌≢◌, All,
}
use pgproof.Common.Dict.{Dict, get, put, delete, keys}
use pgproof.Ir.{ColumnIr, ConstraintIr, IndexIr}
use pgproof.Migrations.Defs.{
  ColumnSpec, Value, TableState, Replay, column_value, none_value, other_value, bool_value,
  int_value, text_value, sequence,
}
use pgproof.Migrations.Apply.{
  text_argument, public_table, column_ir, add_primary_key, create_columns, create_table,
  without_table, drop_table, rename_table, public_column,
}
use pgproof.Migrations.Keyed.{
  IsGood, IsGood-put, IsGood-delete, IsGood-get, Keeps, ok-Keeps, >>=-Keeps, if-Keeps, Bool-Keeps,
}

abbrev pub IsColumnAt : String → ColumnIr → Type 0
IsColumnAt key column = column.name ≡ key

abbrev pub IsConstraintAt : String → ConstraintIr → Type 0
IsConstraintAt key c = c.name ≡ key

abbrev pub IsIndexAt : String → IndexIr → Type 0
IsIndexAt key i = i.name ≡ key

abbrev pub IsTableAt : String → TableState → Type 0
IsTableAt key table = (table.name ≡ key) × IsGood IsColumnAt table.columns

-- Tables, columns, constraints and indexes stand once each, under their own names.
pub record IsNamed (state : Replay) : Type 0 where
  pub tables : IsGood IsTableAt state.tables
  pub constraints : IsGood IsConstraintAt state.constraints
  pub indexes : IsGood IsIndexAt state.indexes

pub column_ir-name :
    (table : String) (spec : ColumnSpec) (column : ColumnIr)
    → column_ir table spec ≡ ok column
    → column.name ≡ spec.name
unfolding column_ir
column_ir-name table spec column e =
    >>=-Keeps (λ (c : ColumnIr). c.name ≡ spec.name) (public_column table spec.name) _
      (λ id f. ok-Keeps (λ (c : ColumnIr). c.name ≡ spec.name) _ refl) column e

pub with_table :
    (state : Replay) (name : String) (table : TableState)
    → IsNamed state
    → IsTableAt name table
    → IsNamed (record state { tables = put name table state.tables })
with_table state name table h t = record {
  tables = IsGood-put IsTableAt name table state.tables t h.tables;
  constraints = h.constraints;
  indexes = h.indexes;
}

pub with_constraint :
    (state : Replay) (name : String) (c : ConstraintIr)
    → IsNamed state
    → IsConstraintAt name c
    → IsNamed (record state { constraints = put name c state.constraints })
with_constraint state name c h t = record {
  tables = h.tables;
  constraints = IsGood-put IsConstraintAt name c state.constraints t h.constraints;
  indexes = h.indexes;
}

add_primary_key-IsNamed :
    (revision name : String) (spec : ColumnSpec) (state : Replay)
    → IsNamed state
    → Keeps IsNamed (add_primary_key revision name spec state)
unfolding add_primary_key
add_primary_key-IsNamed revision name spec state h =
    Bool-Keeps IsNamed spec.primary_key _ _ (ok-Keeps IsNamed state h) (
      >>=-Keeps IsNamed (public_table name) _ (λ id e.
        >>=-Keeps IsNamed (public_column name spec.name) _
          (λ column f. ok-Keeps IsNamed _ (with_constraint state ("pk_" ++ name) _ h refl))))

-- The table under construction and the state beside it.
abbrev IsNamedWith : String → TableState × Replay → Type 0
IsNamedWith name (table, state) = IsTableAt name table × IsNamed state

create_columns-IsNamed :
    (revision name : String) (args : Dict String Value) (table : TableState) (state : Replay)
    → IsTableAt name table
    → IsNamed state
    → Keeps (IsNamedWith name) (create_columns revision name args table state)
unfolding create_columns
create_columns-IsNamed revision name [] table state t h =
    ok-Keeps (IsNamedWith name) (table, state) (t, h)
create_columns-IsNamed revision name ((key, column_value spec) ∷ args) table state t h =
    if-Keeps (IsNamedWith name) (key == "_0") _ _
      (create_columns-IsNamed revision name args table state t h)
      (>>=-Keeps (IsNamedWith name) (column_ir name spec) _ (λ column e.
        >>=-Keeps (IsNamedWith name) (add_primary_key revision name spec state) _ (λ state' f.
          create_columns-IsNamed revision name args
            (record table { columns = put spec.name column table.columns }) state'
            (
              t.0,
              IsGood-put IsColumnAt spec.name column table.columns
                  (column_ir-name name spec column e) t.1,
            )
            (add_primary_key-IsNamed revision name spec state h state' f))))
create_columns-IsNamed revision name ((key, none_value) ∷ args) table state t h =
    create_columns-IsNamed revision name args table state t h
create_columns-IsNamed revision name ((key, other_value) ∷ args) table state t h =
    create_columns-IsNamed revision name args table state t h
create_columns-IsNamed revision name ((key, bool_value b) ∷ args) table state t h =
    create_columns-IsNamed revision name args table state t h
create_columns-IsNamed revision name ((key, int_value n) ∷ args) table state t h =
    create_columns-IsNamed revision name args table state t h
create_columns-IsNamed revision name ((key, text_value s) ∷ args) table state t h =
    create_columns-IsNamed revision name args table state t h
create_columns-IsNamed revision name ((key, sequence vs) ∷ args) table state t h =
    create_columns-IsNamed revision name args table state t h

pub create_table-IsNamed :
    (revision : String) (args : Dict String Value) (state : Replay)
    → IsNamed state
    → Keeps IsNamed (create_table revision args state)
unfolding create_table
create_table-IsNamed revision args state h =
    >>=-Keeps IsNamed (text_argument "_0" args) _ (λ name e.
      >>=-Keeps IsNamed
        (create_columns revision name args (record { columns = []; name = name }) state) _
        (λ done f.
          let (t, k) =
            create_columns-IsNamed revision name args (record { columns = []; name = name }) state
              (refl, (tt, tt)) h done f in
          ok-Keeps IsNamed _ (with_table done.1 name done.0 k t)))

module _ {V : Type 0} (Q : String → V → Type 0) (table_of : V → String) (table : String) where
  without_table-All :
      (P : String → Type 0) (d : Dict String V)
      → All P (keys d)
      → All P (keys (without_table table_of table d))
  unfolding without_table
  without_table-All P [] h = tt
  without_table-All P ((name, v) ∷ d) h = elim (Bool-cases (table_of v == table)) [
    | inl t ↦ rw t (without_table-All P d h.1)
    | inr f ↦ rw f (h.0, without_table-All P d h.1)
  ]

  without_table-IsGood :
      (d : Dict String V) → IsGood Q d → IsGood Q (without_table table_of table d)
  unfolding without_table
  without_table-IsGood [] h = (tt, tt)
  without_table-IsGood ((name, v) ∷ d) ((fresh, once), (q, h)) =
      let (once', h') = without_table-IsGood d (once, h) in
      elim (Bool-cases (table_of v == table)) [
        | inl t ↦ rw t (once', h')
        | inr f ↦ rw f ((without_table-All (λ j. name ≢ j) d fresh, once'), (q, h'))
      ]

pub drop_table-IsNamed :
    (args : Dict String Value) (state : Replay)
    → IsNamed state
    → Keeps IsNamed (drop_table args state)
unfolding drop_table
drop_table-IsNamed args state h = >>=-Keeps IsNamed (text_argument "_0" args) _ (λ name e.
    >>=-Keeps IsNamed (public_table name) _ (λ id f. ok-Keeps IsNamed _ (record {
      tables = IsGood-delete IsTableAt name state.tables h.tables;
      constraints =
          without_table-IsGood IsConstraintAt (λ (c : ConstraintIr). c.table) id state.constraints
            h.constraints;
      indexes =
          without_table-IsGood IsIndexAt (λ (i : IndexIr). i.table) id state.indexes h.indexes;
    })))

renamed-IsNamed :
    (old new : String) (state : Replay)
    → IsNamed state
    → (found : Option TableState) → get old state.tables ≡ found
    → IsNamed (elim found [
      | none ↦ state
      | some renamed ↦ record state {
        tables = put new (record renamed { name = new }) (delete old state.tables);
      }
    ])
renamed-IsNamed old new state h none e = h
renamed-IsNamed old new state h (some renamed) e = record {
  tables =
      IsGood-put IsTableAt new (record renamed { name = new }) (delete old state.tables)
        (refl, (IsGood-get IsTableAt old state.tables renamed h.tables e).1)
        (IsGood-delete IsTableAt old state.tables h.tables);
  constraints = h.constraints;
  indexes = h.indexes;
}

pub rename_table-IsNamed :
    (args : Dict String Value) (state : Replay)
    → IsNamed state
    → Keeps IsNamed (rename_table args state)
unfolding rename_table
rename_table-IsNamed args state h = >>=-Keeps IsNamed (text_argument "_0" args) _ (λ old e.
    >>=-Keeps IsNamed (text_argument "_1" args) _
      (λ new f. ok-Keeps IsNamed _ (renamed-IsNamed old new state h (get old state.tables) refl)))
