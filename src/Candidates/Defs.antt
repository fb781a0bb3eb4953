-- ===== src/Candidates/Defs.antt =====
-- generate.py: candidate shapes, the indexes that already serve them, and the selection loop. The
-- set of seen keys is a list; the names of an id come from domain/identifiers.py and may raise.
use pgproof.Common.{
  ℕ, zero, suc, String, not, ◌||◌, Option, none, some, List, [], ◌∷◌, Result, ok, ◌>>=◌, push, keep,
  ◌++◌, option_equality, list_equality, pair_equality, length, contains, leb, Eq, ◌==◌,
  text_equality, if◌then◌else◌, ◌≡◌,
}
use pgproof.Common.Dict.{Dict, get_or, put}
use pgproof.Identifiers.{IdentityError}
use pgproof.Candidates.Naming.{ddl}
use pgproof.Ir.{
  primary_key, unique, btree, asc, index_method_equality, constraint_kind_equality,
  sort_direction_equality, ConstraintIr, IndexKeyIr, IndexIr, SchemaIr,
}

-- adapters/parameters/extract.py: `PredicateKind` and `ExtractedPredicate`
pub data PredicateKind : Type 0 where
  equality numeric_range timestamp_range : PredicateKind

unfoldable pub predicate_kind_dec : (x y : PredicateKind) → Dec (x ≡ y)
predicate_kind_dec = hlevel

instance abbrev pub predicate_kind_equality : Eq PredicateKind
predicate_kind_equality = record { dec = predicate_kind_dec }

pub record ExtractedPredicate : Type 0 where
  pub table : String
  pub column : String
  pub parameter_position : ℕ
  pub operator : String
  pub kind : PredicateKind

pub record IndexCandidate : Type 0 where
  pub table : String
  pub columns : List String
  pub name : String
  pub apply_sql : String
  pub revert_sql : String
  pub supports : List ExtractedPredicate

-- The texts of `reason`.
pub data DiscardReason : Type 0 where
  duplicate_of_existing_index : String → DiscardReason
  over_candidate_budget : DiscardReason

pub record DiscardedCandidate : Type 0 where
  pub table : String
  pub columns : List String
  pub reason : DiscardReason

pub record CandidateGenerationResult : Type 0 where
  pub candidates : List IndexCandidate
  pub discarded : List DiscardedCandidate

abbrev pub max_candidates : ℕ
max_candidates = 5

-- The loop over an index's keys: a key that is an expression or descends empties the list and ends it.
unfoldable pub key_columns : List String → List IndexKeyIr → List String
key_columns columns [] = columns
key_columns columns (key ∷ keys) = elim key.column [
  | none ↦ []
  | some column ↦ if not (key.direction == asc) then [] else key_columns (push columns column) keys
]

unfoldable pub index_sequences : String → List IndexIr → List (String × List String)
unfolding key_columns
index_sequences table [] = []
index_sequences table (index ∷ indexes) =
    let rest = index_sequences table indexes in
    let columns = key_columns [] index.keys in
    if not (index.table == table) || not (index.method == btree)
    then rest
    else if not (index.predicate == none)
    then rest
    else if not (columns == [])
    then (index.name, columns) ∷ rest
    else rest

unfoldable pub constraint_sequences : String → List ConstraintIr → List (String × List String)
constraint_sequences table [] = []
constraint_sequences table (constraint ∷ constraints) =
    let rest = constraint_sequences table constraints in
    if not (constraint.table == table)
    then rest
    else if not (constraint.kind == primary_key || constraint.kind == unique)
    then rest
    else if not (constraint.expression == none) || constraint.columns == []
    then rest
    else (constraint.name, constraint.columns) ∷ rest

unfoldable pub existing_key_sequences : SchemaIr → String → List (String × List String)
unfolding index_sequences constraint_sequences
existing_key_sequences schema table =
    index_sequences table schema.indexes ++ constraint_sequences table schema.constraints

-- `sequence[:n]`
unfoldable pub take : {A : Type 0} → ℕ → List A → List A
take zero xs = []
take (suc n) [] = []
take (suc n) (x ∷ xs) = x ∷ take n xs

unfoldable pub duplicate_of : List String → List (String × List String) → Option String
unfolding take
duplicate_of columns [] = none
duplicate_of columns ((name, sequence) ∷ existing) =
    let rest = duplicate_of columns existing in
    if take (length columns) sequence == columns then some name else rest

abbrev pub columns_of : List ExtractedPredicate → List String
columns_of [] = []
columns_of (p ∷ ps) = p.column ∷ columns_of ps

abbrev pub Shape : Type 0
Shape = List String × List ExtractedPredicate

-- The composite of the equality columns and the first range column.
unfoldable pub equality_range : List ExtractedPredicate → List ExtractedPredicate → List Shape
equality_range [] ranges = []
equality_range (e ∷ es) [] = []
equality_range (e ∷ es) (r ∷ rs) = (push (columns_of (e ∷ es)) r.column, push (e ∷ es) r) ∷ []

unfoldable pub equality_only : List ExtractedPredicate → List Shape
equality_only equal = if leb 2 (length equal) then (columns_of equal, equal) ∷ [] else []

unfoldable pub singles : List ExtractedPredicate → List Shape
singles [] = []
singles (p ∷ ps) = (p.column ∷ [], p ∷ []) ∷ singles ps

unfoldable pub candidate_shapes : List ExtractedPredicate → List Shape
unfolding equality_range equality_only singles
candidate_shapes predicates =
    let equal = keep (λ p. p.kind == equality) predicates in
    let ranges = keep (λ p. not (p.kind == equality)) predicates in
    equality_range equal ranges ++ equality_only equal ++ singles predicates

unfoldable pub group_by_table :
    Dict String (List ExtractedPredicate)
    → List ExtractedPredicate
    → Dict String (List ExtractedPredicate)
group_by_table by_table [] = by_table
group_by_table by_table (p ∷ ps) =
    group_by_table (put p.table (push (get_or [] p.table by_table) p) by_table) ps

-- The variables that the two loops share.
pub record Progress : Type 0 where
  pub candidates : List IndexCandidate
  pub discarded : List DiscardedCandidate
  pub seen : List (String × List String)

-- The body of the inner loop.
unfoldable pub consider :
    String → List (String × List String) → Shape → Progress → Result IdentityError Progress
unfolding duplicate_of ddl
consider table existing (columns, supports) g =
    if contains (table, columns) g.seen then ok g else elim (duplicate_of columns existing) [
      | some name ↦ ok (record g {
        seen = (table, columns) ∷ g.seen;
        discarded = push g.discarded (record {
          table = table;
          columns = columns;
          reason = duplicate_of_existing_index name;
        });
      })
      | none ↦
          if leb max_candidates (length g.candidates)
          then ok (record g {
            seen = (table, columns) ∷ g.seen;
            discarded =
                push g.discarded
                  (record { table = table; columns = columns; reason = over_candidate_budget });
          })
          else (ddl table columns >>= λ (name, apply_sql, revert_sql). ok (record g {
            seen = (table, columns) ∷ g.seen;
            candidates = push g.candidates (record {
              table = table;
              columns = columns;
              name = name;
              apply_sql = apply_sql;
              revert_sql = revert_sql;
              supports = supports;
            });
          }))
    ]

unfoldable pub consider_shapes :
    String → List (String × List String) → List Shape → Progress → Result IdentityError Progress
unfolding consider
consider_shapes table existing [] g = ok g
consider_shapes table existing (shape ∷ shapes) g =
    consider table existing shape g >>= λ next. consider_shapes table existing shapes next

unfoldable pub consider_tables :
    SchemaIr → Dict String (List ExtractedPredicate) → Progress → Result IdentityError Progress
unfolding existing_key_sequences candidate_shapes consider_shapes
consider_tables schema [] g = ok g
consider_tables schema ((table, predicates) ∷ tables) g =
    consider_shapes table (existing_key_sequences schema table) (candidate_shapes predicates) g
    >>= λ next. consider_tables schema tables next

unfoldable pub generate_candidates :
    SchemaIr → List ExtractedPredicate → Result IdentityError CandidateGenerationResult
unfolding group_by_table consider_tables
generate_candidates schema predicates = do
  g ←
      consider_tables schema (group_by_table [] predicates)
        (record { candidates = []; discarded = []; seen = [] })
  ok (record { candidates = g.candidates; discarded = g.discarded })
