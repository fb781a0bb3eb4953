-- ===== src/Ir/Schema.antt =====
-- domain/ir/schema.py and domain/sources.py: the physical or provisional database design.
use pgproof.Common.{
  ℕ, String, Bool, Option, List, Eq, ◌≡◌, ap, option_dec, text_equality, number_equality,
}
use pgproof.Common.Dict.{Dict}

pub record SourceRef : Type 0 where
  pub path : String
  pub line : Option ℕ
  pub end_line : Option ℕ
  pub content_hash : String
  pub symbol : Option String

pub data SchemaProvenance : Type 0 where
  physical_catalog static_migration orm_declaration unresolved : SchemaProvenance

pub data ConstraintKind : Type 0 where
  primary_key foreign_key unique check not_null exclusion : ConstraintKind

pub data ReferentialAction : Type 0 where
  no_action restrict cascade set_null set_default : ReferentialAction

pub data IndexMethod : Type 0 where
  btree hash gist gin spgist brin : IndexMethod

pub data SortDirection : Type 0 where
  asc desc : SortDirection

unfoldable pub constraint_kind_dec : (x y : ConstraintKind) → Dec (x ≡ y)
constraint_kind_dec = hlevel

instance abbrev pub constraint_kind_equality : Eq ConstraintKind
constraint_kind_equality = record { dec = constraint_kind_dec }

unfoldable pub index_method_dec : (x y : IndexMethod) → Dec (x ≡ y)
index_method_dec = hlevel

instance abbrev pub index_method_equality : Eq IndexMethod
index_method_equality = record { dec = index_method_dec }

unfoldable pub sort_direction_dec : (x y : SortDirection) → Dec (x ≡ y)
sort_direction_dec = hlevel

instance abbrev pub sort_direction_equality : Eq SortDirection
sort_direction_equality = record { dec = sort_direction_dec }

pub record ColumnIr : Type 0 where
  pub id : String
  pub name : String
  pub data_type : String
  pub nullable : Bool
  pub default_expression : Option String
  pub is_generated : Bool
  pub is_identity : Bool
  pub provenance : SchemaProvenance
  pub source : Option SourceRef

pub record ConstraintIr : Type 0 where
  pub name : String
  pub kind : ConstraintKind
  pub table : String
  pub columns : List String
  pub referenced_table : Option String
  pub referenced_columns : List String
  pub on_delete : Option ReferentialAction
  pub on_update : Option ReferentialAction
  pub expression : Option String
  pub provenance : SchemaProvenance
  pub introduced_by : Option String

pub record IndexKeyIr : Type 0 where
  pub column : Option String
  pub expression : Option String
  pub direction : SortDirection

pub record IndexIr : Type 0 where
  pub name : String
  pub table : String
  pub method : IndexMethod
  pub keys : List IndexKeyIr
  pub included_columns : List String
  pub is_unique : Bool
  pub predicate : Option String
  pub provenance : SchemaProvenance
  pub introduced_by : Option String

pub record TableIr : Type 0 where
  pub id : String
  pub schema_name : String
  pub name : String
  pub columns : List ColumnIr
  pub provenance : SchemaProvenance
  pub source : Option SourceRef
  pub comment : Option String

pub record UnsupportedConstruct : Type 0 where
  pub kind : String
  pub reason : String
  pub source : Option SourceRef

pub record SchemaIr : Type 0 where
  pub provenance : SchemaProvenance
  pub tables : List TableIr
  pub constraints : List ConstraintIr
  pub indexes : List IndexIr
  pub extensions : List String
  pub extension_versions : Dict String String
  pub server_version : Option String
  pub settings : Dict String String
  pub migration_head : Option String
  pub migration_revisions : List String
  pub unsupported : List UnsupportedConstruct

unfoldable pub source_ref_dec : (x y : SourceRef) → Dec (x ≡ y)
source_ref_dec x y = elim (text_equality.dec x.path y.path) [
  | no n ↦ no (λ p. n (ap (λ (r : SourceRef). r.path) p))
  | yes a ↦ elim (option_dec x.line y.line) [
    | no n ↦ no (λ p. n (ap (λ (r : SourceRef). r.line) p))
    | yes b ↦ elim (option_dec x.end_line y.end_line) [
      | no n ↦ no (λ p. n (ap (λ (r : SourceRef). r.end_line) p))
      | yes c ↦ elim (text_equality.dec x.content_hash y.content_hash) [
        | no n ↦ no (λ p. n (ap (λ (r : SourceRef). r.content_hash) p))
        | yes d ↦ elim (option_dec x.symbol y.symbol) [
          | no n ↦ no (λ p. n (ap (λ (r : SourceRef). r.symbol) p))
          | yes e ↦ yes (λ i. record {
            path = a i;
            line = b i;
            end_line = c i;
            content_hash = d i;
            symbol = e i;
          })
        ]
      ]
    ]
  ]
]

instance abbrev pub source_ref_equality : Eq SourceRef
source_ref_equality = record { dec = source_ref_dec }
