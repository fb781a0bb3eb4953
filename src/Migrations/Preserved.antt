-- ===== src/Migrations/Preserved.antt =====
-- Every operation of a migration, and the replay of them all, keeps the names.
use pgproof.Common.{String, true, false, List, [], ◌∷◌, refl, ok, ◌==◌, text_equality}
use pgproof.Common.Dict.{Dict, get, get_or, delete}
use pgproof.Ir.{ConstraintKind, primary_key, unique}
use pgproof.Migrations.Defs.{Value, Operation, Replay}
use pgproof.Migrations.Apply.{
  text_argument, value_argument, as_column, iterated, column_ids, column_ir, public_table,
  public_column, text_or, optional_text_or, index_table, index_columns, add_column, drop_column,
  alter_column, create_key, create_foreign_key, create_check_constraint, drop_constraint,
  create_index, drop_index, apply_constraint, apply,
}
use pgproof.Migrations.Replay.{apply_all, replay_order}
use pgproof.Migrations.Keyed.{
  IsGood-put, IsGood-delete, IsGood-get, Keeps, ok-Keeps, >>=-Keeps, Option-Keeps, if-Keeps,
  Bool-Keeps,
}
use pgproof.Migrations.Named.{
  IsColumnAt, IsConstraintAt, IsIndexAt, IsTableAt, IsNamed, column_ir-name, with_table,
  with_constraint, create_table-IsNamed, drop_table-IsNamed, rename_table-IsNamed,
}

module _ (repr upper : String → String) (show : Value → String) where
  add_column-IsNamed :
      (op : Operation) (state : Replay)
      → IsNamed state
      → Keeps IsNamed (add_column repr upper show op state)
  unfolding add_column
  add_column-IsNamed op state h = >>=-Keeps IsNamed (text_argument "_0" op.args) _ (λ name e.
      Option-Keeps IsNamed (get name state.tables) _ _
        (ok-Keeps IsNamed _
          (record { tables = h.tables; constraints = h.constraints; indexes = h.indexes }))
        (λ target k. >>=-Keeps IsNamed (value_argument "_1" op.args) _ (λ value f.
          >>=-Keeps IsNamed (as_column value) _ (λ spec g.
            >>=-Keeps IsNamed (column_ir name spec) _ (λ column l.
              let t = IsGood-get IsTableAt name state.tables target h.tables k in
              ok-Keeps IsNamed _ (
                with_table state name _ h (
                  t.0,
                  IsGood-put IsColumnAt spec.name column target.columns
                      (column_ir-name name spec column l) t.1,
                )))))))

  drop_column-IsNamed :
      (args : Dict String Value) (state : Replay)
      → IsNamed state
      → Keeps IsNamed (drop_column repr upper show args state)
  unfolding drop_column
  drop_column-IsNamed args state h = >>=-Keeps IsNamed (text_argument "_0" args) _ (λ name e.
      Option-Keeps IsNamed (get name state.tables) _ _ (ok-Keeps IsNamed state h) (λ existing k.
        >>=-Keeps IsNamed (text_argument "_1" args) _ (λ column f.
          let t = IsGood-get IsTableAt name state.tables existing h.tables k in
          ok-Keeps IsNamed _ (
            with_table state name _ h
              (t.0, IsGood-delete IsColumnAt column existing.columns t.1)))))

  alter_column-IsNamed :
      (args : Dict String Value) (state : Replay)
      → IsNamed state
      → Keeps IsNamed (alter_column repr upper show args state)
  unfolding alter_column
  alter_column-IsNamed args state h = >>=-Keeps IsNamed (text_argument "_0" args) _ (λ name e.
      >>=-Keeps IsNamed (text_argument "_1" args) _ (λ column_name f.
        Option-Keeps IsNamed (get name state.tables) _ _ (ok-Keeps IsNamed state h) (λ table k.
          Option-Keeps IsNamed (get column_name table.columns) _ _ (ok-Keeps IsNamed state h)
            (λ current l.
              >>=-Keeps IsNamed (text_or repr upper show "new_column_name" current.name args) _
                (λ new_name a.
                  >>=-Keeps IsNamed (text_or repr upper show "type_" current.data_type args) _
                    (λ type_text b.
                      >>=-Keeps IsNamed
                        (optional_text_or repr upper show "server_default"
                          current.default_expression args)
                        _
                        (λ default c. >>=-Keeps IsNamed (public_column name new_name) _ (λ id d.
                          let t = IsGood-get IsTableAt name state.tables table h.tables k in
                          ok-Keeps IsNamed _ (
                            with_table state name _ h (
                              t.0,
                              IsGood-put IsColumnAt new_name _ (delete column_name table.columns)
                                  refl (IsGood-delete IsColumnAt column_name table.columns t.1),
                            ))))))))))

  create_key-IsNamed :
      (kind : ConstraintKind) (revision : String) (args : Dict String Value) (state : Replay)
      → IsNamed state
      → Keeps IsNamed (create_key repr upper show kind revision args state)
  unfolding create_key
  create_key-IsNamed kind revision args state h =
      >>=-Keeps IsNamed (text_argument "_0" args) _ (λ name e.
        >>=-Keeps IsNamed (text_argument "_1" args) _ (λ table f.
          >>=-Keeps IsNamed (public_table table) _ (λ id a.
            >>=-Keeps IsNamed (value_argument "_2" args) _ (λ value b.
              >>=-Keeps IsNamed (iterated value) _ (λ names c.
                >>=-Keeps IsNamed (column_ids table names) _
                  (λ columns d. ok-Keeps IsNamed _ (with_constraint state name _ h refl)))))))

  create_foreign_key-IsNamed :
      (revision : String) (args : Dict String Value) (state : Replay)
      → IsNamed state
      → Keeps IsNamed (create_foreign_key repr upper show revision args state)
  unfolding create_foreign_key
  create_foreign_key-IsNamed revision args state h =
      >>=-Keeps IsNamed (text_argument "_0" args) _ (λ name e.
        >>=-Keeps IsNamed (text_argument "_1" args) _ (λ table f.
          >>=-Keeps IsNamed (public_table table) _ (λ id a.
            >>=-Keeps IsNamed (value_argument "_3" args) _ (λ value b.
              >>=-Keeps IsNamed (iterated value) _ (λ names c.
                >>=-Keeps IsNamed (column_ids table names) _ (λ columns d.
                  >>=-Keeps IsNamed (text_argument "_2" args) _ (λ referenced g.
                    >>=-Keeps IsNamed (public_table referenced) _ (λ referenced_id i.
                      >>=-Keeps IsNamed (value_argument "_4" args) _ (λ other j.
                        >>=-Keeps IsNamed (iterated other) _ (λ others k.
                          >>=-Keeps IsNamed (column_ids referenced others) _ (λ ids l.
                            ok-Keeps IsNamed _ (with_constraint state name _ h refl))))))))))))

  create_check_constraint-IsNamed :
      (revision : String) (args : Dict String Value) (state : Replay)
      → IsNamed state
      → Keeps IsNamed (create_check_constraint repr upper show revision args state)
  unfolding create_check_constraint
  create_check_constraint-IsNamed revision args state h =
      >>=-Keeps IsNamed (text_argument "_0" args) _ (λ name e.
        >>=-Keeps IsNamed (text_argument "_1" args) _ (λ table f.
          >>=-Keeps IsNamed (public_table table) _ (λ id a.
            >>=-Keeps IsNamed (value_argument "_2" args) _
              (λ value b. ok-Keeps IsNamed _ (with_constraint state name _ h refl)))))

  drop_constraint-IsNamed :
      (args : Dict String Value) (state : Replay)
      → IsNamed state
      → Keeps IsNamed (drop_constraint repr upper show args state)
  unfolding drop_constraint
  drop_constraint-IsNamed args state h = >>=-Keeps IsNamed (text_argument "_0" args) _ (λ name e.
      ok-Keeps IsNamed _ (record {
        tables = h.tables;
        constraints = IsGood-delete IsConstraintAt name state.constraints h.constraints;
        indexes = h.indexes;
      }))

  create_index-IsNamed :
      (revision : String) (args : Dict String Value) (state : Replay)
      → IsNamed state
      → Keeps IsNamed (create_index repr upper show revision args state)
  unfolding create_index
  create_index-IsNamed revision args state h =
      >>=-Keeps IsNamed (index_table repr upper show args) _ (λ table e.
        >>=-Keeps IsNamed (index_columns repr upper show args) _ (λ names f.
          >>=-Keeps IsNamed (text_argument "_0" args) _ (λ name a.
            >>=-Keeps IsNamed (public_table table) _ (λ id b.
              >>=-Keeps IsNamed (column_ids table names) _ (λ columns c.
                ok-Keeps IsNamed _ (record {
                  tables = h.tables;
                  constraints = h.constraints;
                  indexes = IsGood-put IsIndexAt name _ state.indexes refl h.indexes;
                }))))))

  drop_index-IsNamed :
      (args : Dict String Value) (state : Replay)
      → IsNamed state
      → Keeps IsNamed (drop_index repr upper show args state)
  unfolding drop_index
  drop_index-IsNamed args state h = >>=-Keeps IsNamed (text_argument "_0" args) _ (λ name e.
      ok-Keeps IsNamed _ (record {
        tables = h.tables;
        constraints = h.constraints;
        indexes = IsGood-delete IsIndexAt name state.indexes h.indexes;
      }))

  apply_constraint-IsNamed :
      (revision : String) (op : Operation) (state : Replay)
      → IsNamed state
      → Keeps IsNamed (apply_constraint repr upper show revision op state)
  unfolding apply_constraint
  apply_constraint-IsNamed revision op state h =
      if-Keeps IsNamed (op.kind == "create_primary_key") _ _
        (create_key-IsNamed primary_key revision op.args state h)
        (if-Keeps IsNamed (op.kind == "create_foreign_key") _ _
          (create_foreign_key-IsNamed revision op.args state h)
          (if-Keeps IsNamed (op.kind == "create_unique_constraint") _ _
            (create_key-IsNamed unique revision op.args state h)
            (if-Keeps IsNamed (op.kind == "create_check_constraint") _ _
              (create_check_constraint-IsNamed revision op.args state h)
              (if-Keeps IsNamed (op.kind == "drop_constraint") _ _
                (drop_constraint-IsNamed op.args state h)
                (if-Keeps IsNamed (op.kind == "create_index") _ _
                  (create_index-IsNamed revision op.args state h)
                  (if-Keeps IsNamed (op.kind == "drop_index") _ _
                    (drop_index-IsNamed op.args state h) (ok-Keeps IsNamed state h)))))))

  apply-IsNamed :
      (revision : String) (op : Operation) (state : Replay)
      → IsNamed state
      → Keeps IsNamed (apply repr upper show revision op state)
  unfolding apply
  apply-IsNamed revision op state h =
      if-Keeps IsNamed (op.kind == "create_table") _ _
        (create_table-IsNamed revision op.args state h)
        (if-Keeps IsNamed (op.kind == "drop_table") _ _ (drop_table-IsNamed op.args state h) (
          if-Keeps IsNamed (op.kind == "rename_table") _ _ (rename_table-IsNamed op.args state h) (
            if-Keeps IsNamed (op.kind == "add_column") _ _ (add_column-IsNamed op state h) (
              if-Keeps IsNamed (op.kind == "drop_column") _ _ (drop_column-IsNamed op.args state h)
                (if-Keeps IsNamed (op.kind == "alter_column") _ _
                  (alter_column-IsNamed op.args state h)
                  (apply_constraint-IsNamed revision op state h))))))

  apply_all-IsNamed :
      (revision : String) (ops : List Operation) (state : Replay)
      → IsNamed state
      → Keeps IsNamed (apply_all repr upper show revision ops state)
  unfolding apply_all
  apply_all-IsNamed revision [] state h = ok-Keeps IsNamed state h
  apply_all-IsNamed revision (op ∷ ops) state h =
      >>=-Keeps IsNamed
        (elim (op.kind == "unsupported") [
          | true ↦ ok state
          | false ↦ apply repr upper show revision op state
        ])
        _
        (λ next e. apply_all-IsNamed revision ops next (
          Bool-Keeps IsNamed (op.kind == "unsupported") (apply repr upper show revision op state)
            (ok state) (apply-IsNamed revision op state h) (ok-Keeps IsNamed state h) next e))

  -- The replay of the operations of some revisions keeps the names.
  pub replay_order-IsNamed :
      (operations : Dict String (List Operation)) (order : List String) (state : Replay)
      → IsNamed state
      → Keeps IsNamed (replay_order repr upper show operations order state)
  unfolding replay_order
  replay_order-IsNamed operations [] state h = ok-Keeps IsNamed state h
  replay_order-IsNamed operations (revision ∷ order) state h =
      >>=-Keeps IsNamed (apply_all repr upper show revision (get_or [] revision operations) state) _
        (λ next e.
          replay_order-IsNamed operations order next
            (apply_all-IsNamed revision (get_or [] revision operations) state h next e))
