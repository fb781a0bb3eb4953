-- ===== src/Migrations/Graph.antt =====
-- alembic_static.py: the graph of the revisions, its cycles, and the order of the replay.
use pgproof.Common.{
  ℕ, zero, suc, String, Bool, not, Option, none, some, List, [], ◌∷◌, map, Result, ok, raise, ◌>>=◌,
  ltb, ◌==◌, text_equality, if◌then◌else◌, length, push, contains, keep, concat_map,
}
use pgproof.Common.Dict.{Dict, put, get, get_or, keys}
use pgproof.Common.Sets.{unique}
use pgproof.Common.Sorting.{text_le, sort_by}
use pgproof.Migrations.Defs.{RevisionInfo, RevisionGraphReport, ReplayError, key_error}

abbrev pub revision_ids : List RevisionInfo → List String
revision_ids revisions = map (λ (info : RevisionInfo). info.revision) revisions

-- `{info.revision: info.down_revisions for info in revisions}`
unfoldable pub parents_from :
    List RevisionInfo → Dict String (List String) → Dict String (List String)
parents_from [] d = d
parents_from (info ∷ infos) d = parents_from infos (put info.revision info.down_revisions d)

unfoldable pub parents_of : List RevisionInfo → Dict String (List String)
unfolding parents_from
parents_of revisions = parents_from revisions []

-- `children`: the revisions that name each known one as a predecessor.
unfoldable pub no_children :
    List RevisionInfo → Dict String (List String) → Dict String (List String)
no_children [] d = d
no_children (info ∷ infos) d = no_children infos (put info.revision [] d)

unfoldable pub add_children :
    List String → String → List String → Dict String (List String) → Dict String (List String)
add_children known child [] d = d
add_children known child (parent ∷ parents) d =
    let rest = add_children known child parents in
    if contains parent known then rest (put parent (push (get_or [] parent d) child) d) else rest d

unfoldable pub children_from :
    List String → List RevisionInfo → Dict String (List String) → Dict String (List String)
unfolding add_children
children_from known [] d = d
children_from known (info ∷ infos) d =
    children_from known infos (add_children known info.revision info.down_revisions d)

abbrev pub missing : List String → List RevisionInfo → List String
missing known revisions =
    concat_map
      (λ (info : RevisionInfo). keep (λ parent. not (contains parent known)) info.down_revisions)
      revisions

-- `stack[in_stack[node]:]`
unfoldable pub from_node : String → List String → List String
from_node node [] = []
from_node node (x ∷ stack) =
    let rest = from_node node stack in if x == node then x ∷ stack else rest

unfoldable pub first_found : (String → Option (List String)) → List String → Option (List String)
first_found walk [] = some []
first_found walk (parent ∷ parents) =
    let rest = first_found walk parents in
    elim (walk parent) [ none ↦ none | some [] ↦ rest | some (x ∷ found) ↦ some (x ∷ found) ]

-- `_walk`; a stack holds each known revision at most once, so one round more than there are
-- revisions is enough. None is a lack of fuel.
unfoldable pub walk : Dict String (List String) → ℕ → String → List String → Option (List String)
unfolding from_node first_found
walk parents zero node stack = none
walk parents (suc fuel) node stack =
    let go = first_found (λ parent. walk parents fuel parent (push stack node)) in
    if contains node stack
    then some (from_node node stack)
    else elim (get node parents) [ none ↦ some [] | some above ↦ go above ]

-- The order in which the source's set yields the starts is not specified: here the first insertions'.
unfoldable pub find_cycle : List RevisionInfo → Option (List String)
unfolding parents_of walk
find_cycle revisions =
    let parents = parents_of revisions in
    first_found (λ start. walk parents (suc (length (keys parents))) start []) (keys parents)

abbrev pub is_nil {ℓ} : {A : Type ℓ} → List A → Bool
is_nil [] = Bool.true
is_nil (x ∷ xs) = Bool.false

unfoldable pub report_of : List RevisionInfo → List String → RevisionGraphReport
unfolding no_children children_from unique sort_by
report_of revisions cycle =
    let known = unique (revision_ids revisions) in
    let children = children_from known revisions (no_children revisions []) in
    record {
      revisions = sort_by text_le known;
      roots =
          sort_by text_le
            (revision_ids (keep (λ (info : RevisionInfo). is_nil info.down_revisions) revisions));
      heads = sort_by text_le (keep (λ rev. is_nil (get_or [] rev children)) known);
      merge_revisions = sort_by text_le (
          revision_ids
            (keep (λ (info : RevisionInfo). ltb 1 (length info.down_revisions)) revisions));
      missing_predecessors = sort_by text_le (unique (missing known revisions));
      cycle = cycle;
    }

unfoldable pub build_graph : List RevisionInfo → Option RevisionGraphReport
unfolding find_cycle report_of
build_graph revisions = elim (find_cycle revisions) [
  | none ↦ none
  | some cycle ↦ some (report_of revisions cycle)
]

-- The two collections of `_topological_order`.
pub record Visit : Type 0 where
  pub seen : List String
  pub ordered : List String

unfoldable pub visit_all :
    (String → Visit → Result ReplayError (Option Visit))
    → List String
    → Visit
    → Result ReplayError (Option Visit)
visit_all visit [] state = ok (some state)
visit_all visit (parent ∷ parents) state = do
  next ← visit parent state
  elim next [ none ↦ ok none | some state' ↦ visit_all visit parents state' ]

-- `_visit`, of which each call below another has one more revision in `seen`; `ok none` is a lack of
-- fuel. `by_id[revision_id]` raises on an unknown revision.
unfoldable pub visit :
    Dict String (List String) → ℕ → String → Visit → Result ReplayError (Option Visit)
unfolding visit_all
visit parents zero id state = ok none
visit parents (suc fuel) id state =
    let above = visit_all (visit parents fuel) in
    if contains id state.seen then ok (some state) else elim (get id parents) [
      | none ↦ raise (key_error id)
      | some ps ↦ (do
        last ← above ps (record state { seen = id ∷ state.seen })
        ok (elim last [ none ↦ none | some s ↦ some (record s { ordered = push s.ordered id }) ]))
    ]

unfoldable pub revision_order :
    List RevisionInfo → String → Result ReplayError (Option (List String))
unfolding parents_of visit
revision_order revisions head = do
  last ←
      visit (parents_of revisions) (suc (length (keys (parents_of revisions)))) head
        (record { seen = []; ordered = [] })
  ok (elim last [ none ↦ none | some s ↦ some s.ordered ])
