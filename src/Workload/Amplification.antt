-- ===== src/Workload/Amplification.antt =====
-- amplification.py: queries that an operation repeats, and what they repeat for. None stands for the
-- IndexError of a position outside the occurrences.
use pgproof.Common.{
  ℕ, zero, suc, String, Bool, false, not, ◌&&◌, Option, none, some, List, [], ◌∷◌, ◌++◌, push,
  length, eqn, ltb, ◌==◌, text_equality, list_equality, option_equality, if◌then◌else◌,
}
use pgproof.Common.Dict.{Dict, get_or, put}
use pgproof.Ir.{
  SourceRef, SchemaIr, ConstraintIr, foreign_key, constraint_kind_equality, QueryIr, StatementClass,
  read, statement_class_equality, AmplificationClass, repeated_query, possible_amplification,
  observed_n_plus_one, AmplificationIr,
}
use pgproof.Workload.Events.{CapturedParameter, CapturedQueryEvent}
use pgproof.Workload.Reconstruct.{update, first_site}

-- _Occurrence
pub record Occurrence : Type 0 where
  pub query_id : String
  pub statement_class : StatementClass
  pub relations : List String
  pub bind_signature : List (Option String)
  pub rowcount : Option ℕ
  pub call_site : Option SourceRef

abbrev pub hashes : List CapturedParameter → List (Option String)
hashes [] = []
hashes (p ∷ ps) = p.value_hash ∷ hashes ps

-- _occurrence
abbrev pub occurrence : CapturedQueryEvent → QueryIr → Occurrence
occurrence event query = record {
  query_id = query.id;
  statement_class = query.statement_class;
  relations = query.relations;
  bind_signature = hashes event.parameters;
  rowcount = event.rowcount;
  call_site = first_site none event.call_sites;
}

abbrev pub signatures : List Occurrence → List (List (Option String))
signatures [] = []
signatures (o ∷ os) = o.bind_signature ∷ signatures os

-- `parent.rowcount == len(children)`
abbrev pub counts : Option ℕ → ℕ → Bool
counts none n = false
counts (some rows) n = eqn rows n

unfoldable pub classify : Occurrence → List Occurrence → AmplificationClass
unfolding update
classify parent children =
    if eqn (length (update [] (signatures children))) 1
    then repeated_query
    else if parent.statement_class == read && counts parent.rowcount (length children)
    then observed_n_plus_one
    else possible_amplification

unfoldable pub foreign_key_names : String → String → List ConstraintIr → List String
foreign_key_names child parent [] = []
foreign_key_names child parent (c ∷ cs) =
    let rest = foreign_key_names child parent cs in
    if c.kind == foreign_key && c.table == child && c.referenced_table == some parent
    then c.name ∷ rest
    else rest

-- `xs[0] if len(xs) == 1 else None`
unfoldable pub only : List String → Option String
only (x ∷ []) = some x
only _ = none

unfoldable pub relationship_name : SchemaIr → Occurrence → Occurrence → Option String
unfolding only foreign_key_names
relationship_name schema parent child = elim (only parent.relations) [
  | none ↦ none
  | some p ↦ elim (only child.relations) [
    | none ↦ none
    | some c ↦ only (foreign_key_names c p schema.constraints)
  ]
]

-- The first loop of `_amplifications`, from a position on.
unfoldable pub positions_from : ℕ → List Occurrence → Dict String (List ℕ) → Dict String (List ℕ)
positions_from index [] d = d
positions_from index (o ∷ os) d =
    positions_from (suc index) os (put o.query_id (push (get_or [] o.query_id d) index) d)

-- `occurrences[index]`
unfoldable pub at_position : List Occurrence → ℕ → Option Occurrence
at_position [] index = none
at_position (o ∷ os) zero = some o
at_position (o ∷ os) (suc index) = at_position os index

unfoldable pub children_at : List Occurrence → List ℕ → Option (List Occurrence)
unfolding at_position
children_at occurrences [] = some []
children_at occurrences (index ∷ indexes) = elim (at_position occurrences index) [
  | none ↦ none
  | some o ↦ elim (children_at occurrences indexes) [ none ↦ none | some rest ↦ some (o ∷ rest) ]
]

-- The last of `occurrences[:n]` that is of another query.
unfoldable pub parent_before : String → List Occurrence → ℕ → Option Occurrence
parent_before query [] n = none
parent_before query (o ∷ os) zero = none
parent_before query (o ∷ os) (suc n) =
    let later = parent_before query os n in
    elim later [ some p ↦ some p | none ↦ if not (o.query_id == query) then some o else none ]

module _ (schema : SchemaIr) (min_repetitions : ℕ) where
  -- The body of the second loop, where it does not `continue`.
  abbrev pub amplification : String → Occurrence → Occurrence → List Occurrence → AmplificationIr
  amplification query parent first children = record {
    classification = classify parent children;
    parent_query = parent.query_id;
    child_query = query;
    repetitions = length children;
    relationship_name = relationship_name schema parent first;
    call_site = first.call_site;
  }

  unfoldable pub amplified : List Occurrence → String → List ℕ → Option (List AmplificationIr)
  unfolding parent_before children_at
  amplified occurrences query [] = some []
  amplified occurrences query (first ∷ indexes) =
      if ltb (length (first ∷ indexes)) min_repetitions
      then some []
      else elim (parent_before query occurrences first) [
        | none ↦ some []
        | some parent ↦ elim (children_at occurrences (first ∷ indexes)) [
          | some (child ∷ children) ↦
              some (amplification query parent child (child ∷ children) ∷ [])
          | _ ↦ none
        ]
      ]

  unfoldable pub amplified_all :
      List Occurrence → Dict String (List ℕ) → Option (List AmplificationIr)
  unfolding amplified
  amplified_all occurrences [] = some []
  amplified_all occurrences ((query, indexes) ∷ positions) =
      elim (amplified occurrences query indexes) [
        | none ↦ none
        | some found ↦ elim (amplified_all occurrences positions) [
          | none ↦ none
          | some rest ↦ some (found ++ rest)
        ]
      ]

  unfoldable pub amplifications : List Occurrence → Option (List AmplificationIr)
  unfolding positions_from amplified_all
  amplifications occurrences = amplified_all occurrences (positions_from 0 occurrences [])
