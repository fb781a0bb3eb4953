-- ===== src/Reconciliation/Defs/Relationships.antt =====
-- reconciliation.py: `_reconcile_relationships`, which may raise on a malformed table id.
use Prim.Native.String.{◌++◌}
use pgproof.Common.{
  String, none, some, List, [], ◌∷◌, ◌==◌, text_equality, pair_equality, ◌++◌ as followed_by,
  contains, Result, ok, ◌>>=◌, if◌then◌else◌,
}
use pgproof.Common.Dict.{Dict, keys, set_default}
use pgproof.Identifiers.{IdentityError, table_names}
use pgproof.Ir.{
  SchemaIr, ConstraintIr, foreign_key, constraint_kind_equality, CodeIr, RelationshipIr,
  many_to_one, cardinality_equality,
}
use pgproof.Reconciliation.Defs.Types.{
  orm_only_relationship, physical_fk_without_orm_relationship, Emission,
}

unfoldable pub table_name : String → Result IdentityError String
table_name table_id = do (schema, name) ← table_names table_id; ok name

abbrev pub TablePair : Type 0
TablePair = String × String

unfoldable pub foreign_key_pairs :
    Dict TablePair ConstraintIr → List ConstraintIr → Dict TablePair ConstraintIr
foreign_key_pairs pairs [] = pairs
foreign_key_pairs pairs (c ∷ cs) =
    foreign_key_pairs
      (if c.kind == foreign_key
        then elim c.referenced_table [
          | none ↦ pairs
          | some target ↦ set_default (c.table, target) c pairs
        ]
        else pairs)
      cs

unfoldable pub fk_holding_relationships :
    Dict TablePair RelationshipIr → List RelationshipIr → Dict TablePair RelationshipIr
fk_holding_relationships relationships [] = relationships
fk_holding_relationships relationships (r ∷ rs) =
    fk_holding_relationships
      (if r.cardinality == many_to_one
        then set_default (r.source_table, r.target_table) r relationships
        else relationships)
      rs

-- The arguments of `emit` in the loops of `_reconcile_relationships`.
abbrev pub unbacked_emission : String → String → String → String → RelationshipIr → Emission
unbacked_emission source_table target_table source target r = record {
  kind = orm_only_relationship;
  affected_objects = source_table ∷ target_table ∷ [];
  summary =
      r.name ++ ": the ORM declares a relationship from " ++ source ++ " to " ++ target
      ++ ", but no physical foreign key backs it";
  source = some r.source;
}

abbrev pub undeclared_emission : String → String → String → String → ConstraintIr → Emission
undeclared_emission source_table target_table source target c = record {
  kind = physical_fk_without_orm_relationship;
  affected_objects = source_table ∷ target_table ∷ [];
  summary =
      c.name ++ ": a physical foreign key exists from " ++ source ++ " to " ++ target
      ++ ", but no ORM relationship declares it";
  source = none;
}

-- The loops of `_reconcile_relationships`.
unfoldable pub unbacked :
    List TablePair → Dict TablePair RelationshipIr → Result IdentityError (List Emission)
unfolding table_name
unbacked foreign_keys [] = ok []
unbacked foreign_keys (((source_table, target_table), r) ∷ rs) =
    if contains (source_table, target_table) foreign_keys then unbacked foreign_keys rs else do
      source ← table_name source_table
      target ← table_name target_table
      rest ← unbacked foreign_keys rs
      ok (unbacked_emission source_table target_table source target r ∷ rest)

unfoldable pub undeclared :
    List TablePair → Dict TablePair ConstraintIr → Result IdentityError (List Emission)
unfolding table_name
undeclared relationships [] = ok []
undeclared relationships (((source_table, target_table), c) ∷ cs) =
    if contains (source_table, target_table) relationships then undeclared relationships cs else do
      source ← table_name source_table
      target ← table_name target_table
      rest ← undeclared relationships cs
      ok (undeclared_emission source_table target_table source target c ∷ rest)

unfoldable pub reconcile_relationships : SchemaIr → CodeIr → Result IdentityError (List Emission)
unfolding foreign_key_pairs fk_holding_relationships unbacked undeclared
reconcile_relationships physical code = do
  first ←
      unbacked (keys (foreign_key_pairs [] physical.constraints))
        (fk_holding_relationships [] code.relationships)
  second ←
      undeclared (keys (fk_holding_relationships [] code.relationships))
        (foreign_key_pairs [] physical.constraints)
  ok (followed_by first second)
