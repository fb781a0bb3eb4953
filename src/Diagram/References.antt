-- ===== src/Diagram/References.antt =====
-- The validator accepts exactly the graphs whose ids are unique and whose edges join their nodes.
use pgproof.Common.{
  String, true, false, not, List, [], ◌∷◌, ◌≡◌, ◌↔◌, inl, inr, refl, sym, ap, subst, arith, In,
  Distinct, keep, keep-nil, In-keep, contains, contains→In, In→contains, Bool-cases, length, eqn,
  ok, text_equality, In-concat_map, concat_map-In,
}
use pgproof.Common.Sets.{unique, In-unique, unique-Distinct, Distinct-of_length}
use pgproof.Common.Sorting.{text_le, sort_by, In-sort_by}
use pgproof.Diagram.Defs.{
  GraphEdge, GraphIr, node_ids, edge_ids, endpoints, dangling_endpoints, repeats, validate_graph,
}

pub record IsGraph (graph : GraphIr) : Type 0 where
  pub nodes_once : Distinct (node_ids graph)
  pub edges_once : Distinct (edge_ids graph)
  pub joined :
      (edge : GraphEdge)
      → In edge graph.edges
      → In edge.source (node_ids graph) × In edge.target (node_ids graph)

repeats-Distinct : (ids : List String) → repeats ids ≡ false → Distinct ids
repeats-Distinct ids h = Distinct-of_length ids (ground (arith, h))

Distinct-repeats : (ids : List String) → Distinct ids → repeats ids ≡ false
Distinct-repeats ids d =
    let same : length (unique ids) ≡ length ids =
      ap (λ (l : List String). length l) (unique-Distinct ids d) in
    ground (arith, same)

length-nil : (xs : List String) → eqn (length xs) 0 ≡ true → (x : String) → ¬ (In x xs)
length-nil [] h x m = elim m [ ]
length-nil (y ∷ ys) h x m = ground (arith, h)

module _ (graph : GraphIr) where
  endpoint_known :
      eqn (length (dangling_endpoints graph)) 0 ≡ true
      → (x : String) → In x (endpoints graph)
      → In x (node_ids graph)
  endpoint_known h x m = elim (Bool-cases (contains x (node_ids graph))) [
    | inl t ↦ contains→In x (node_ids graph) t
    | inr f ↦
        let strange = keep (λ e. not (contains e (node_ids graph))) (endpoints graph) in
        absurd (
          length-nil (dangling_endpoints graph) h x (
            In-sort_by text_le x (unique strange) (
              In-unique x strange (
                In-keep (λ e. not (contains e (node_ids graph))) x (endpoints graph) m
                  (ap not f)))))
  ]

  no_dangling :
      ((x : String) → In x (endpoints graph) → In x (node_ids graph))
      → dangling_endpoints graph ≡ []
  unfolding unique sort_by
  no_dangling h =
      ap (λ l. sort_by text_le (unique l))
        (keep-nil (λ e. not (contains e (node_ids graph))) (endpoints graph)
          (λ x m. ap not (In→contains x (node_ids graph) (h x m))))

  IsGraph-intro :
      repeats (node_ids graph) ≡ false
      → eqn (length (dangling_endpoints graph)) 0 ≡ true
      → repeats (edge_ids graph) ≡ false
      → IsGraph graph
  IsGraph-intro nodes none_strange edges =
      let ends : GraphEdge → List String = λ edge. edge.source ∷ edge.target ∷ [] in
      record {
        nodes_once = repeats-Distinct (node_ids graph) nodes;
        edges_once = repeats-Distinct (edge_ids graph) edges;
        joined = λ edge m. (
          endpoint_known none_strange edge.source
              (In-concat_map ends edge edge.source graph.edges m (inl refl)),
          endpoint_known none_strange edge.target
              (In-concat_map ends edge edge.target graph.edges m (inr (inl refl))),
        );
      }

  accepted-IsGraph : validate_graph graph ≡ ok graph → IsGraph graph
  unfolding validate_graph
  accepted-IsGraph h = IsGraph-intro (ground (arith, h)) (ground (arith, h)) (ground (arith, h))

  IsGraph-accepted : IsGraph graph → validate_graph graph ≡ ok graph
  unfolding validate_graph
  IsGraph-accepted g =
      let clean : dangling_endpoints graph ≡ [] = no_dangling (λ x m.
        let (edge, given, here) =
          concat_map-In (λ (e : GraphEdge). e.source ∷ e.target ∷ []) x graph.edges m in
        elim here [
          | inl p ↦ subst (λ (z : String). In z (node_ids graph)) (sym p) (g.joined edge given).0
          | inr (inl p) ↦
              subst (λ (z : String). In z (node_ids graph)) (sym p) (g.joined edge given).1
          | inr (inr n) ↦ elim n [ ]
        ]) in
      let empty : length (dangling_endpoints graph) ≡ 0 =
        ap (λ (l : List String). length l) clean in
      ground (
        arith,
        Distinct-repeats (node_ids graph) g.nodes_once,
        Distinct-repeats (edge_ids graph) g.edges_once,
        empty,
      )

  -- A graph is accepted exactly where its node ids and its edge ids are unique and each edge joins
  -- two of its nodes.
  pub validate_graph-IsGraph : (validate_graph graph ≡ ok graph) ↔ IsGraph graph
  validate_graph-IsGraph = (accepted-IsGraph, IsGraph-accepted)
