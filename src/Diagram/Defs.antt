-- ===== src/Diagram/Defs.antt =====
-- domain/graph.py: nodes, edges and the validator that runs when a graph is built.
use pgproof.Common.{
  String, Bool, not, Option, List, [], ◌∷◌, map, concat_map, Result, ok, ◌>>◌, raise_if, eqn,
  length, keep, contains, text_equality,
}
use pgproof.Common.Dict.{Dict}
use pgproof.Common.Sets.{unique}
use pgproof.Common.Sorting.{text_le, sort_by}

pub data NodeKind : Type 0 where
  schema_node table_node column_node index_node operation_node : NodeKind
  transaction_node query_node procedure_node topology_component : NodeKind

pub data EdgeKind : Type 0 where
  physical_foreign_key orm_only_relationship contains_edge reads_edge : EdgeKind
  writes_edge calls_edge routes_to owns_edge proposed_edge : EdgeKind

pub data GraphStatus : Type 0 where
  current proposed_addition proposed_removal : GraphStatus

pub record GraphNode : Type 0 where
  pub id : String
  pub kind : NodeKind
  pub label : String
  pub status : GraphStatus
  pub attributes : Dict String String

pub record GraphEdge : Type 0 where
  pub id : String
  pub kind : EdgeKind
  pub source : String
  pub target : String
  pub label : Option String
  pub status : GraphStatus

pub record GraphIr : Type 0 where
  pub view : String
  pub nodes : List GraphNode
  pub edges : List GraphEdge

-- The messages of the validator's `ValueError`.
pub data GraphError : Type 0 where
  repeated_node_ids repeated_edge_ids : GraphError
  unknown_nodes : List String → GraphError

abbrev pub node_ids : GraphIr → List String
node_ids graph = map (λ (node : GraphNode). node.id) graph.nodes

abbrev pub edge_ids : GraphIr → List String
edge_ids graph = map (λ (edge : GraphEdge). edge.id) graph.edges

abbrev pub endpoints : GraphIr → List String
endpoints graph = concat_map (λ (edge : GraphEdge). edge.source ∷ edge.target ∷ []) graph.edges

abbrev pub dangling_endpoints : GraphIr → List String
dangling_endpoints graph =
    sort_by text_le
      (unique (keep (λ endpoint. not (contains endpoint (node_ids graph))) (endpoints graph)))

abbrev pub repeats : List String → Bool
repeats ids = not (eqn (length (unique ids)) (length ids))

-- `GraphIR(…)`: the validator runs on construction.
unfoldable pub validate_graph : GraphIr → Result GraphError GraphIr
unfolding unique sort_by
validate_graph graph = do
  raise_if (repeats (node_ids graph)) repeated_node_ids
  raise_if (not (eqn (length (dangling_endpoints graph)) 0))
      (unknown_nodes (dangling_endpoints graph))
  raise_if (repeats (edge_ids graph)) repeated_edge_ids
  ok graph
