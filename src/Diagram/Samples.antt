-- ===== src/Diagram/Samples.antt =====
-- A graph of two tables.
use pgproof.Common.{String, none, [], ◌∷◌, ◌≡◌, ◌↔◌, refl, ok, raise, text_dec}
use pgproof.Common.Sorting.{sort_by, text_le}
use pgproof.Common.Sets.{unique}
use pgproof.Diagram.Defs.{
  GraphNode, GraphEdge, GraphIr, table_node, physical_foreign_key, current, validate_graph,
  unknown_nodes,
}
use pgproof.Diagram.References.{IsGraph, validate_graph-IsGraph}

abbrev node : String → GraphNode
node id = record { id = id; kind = table_node; label = id; status = current; attributes = [] }

abbrev edge : String → GraphEdge
edge target = record {
  id = "e";
  kind = physical_foreign_key;
  source = "table:a";
  target = target;
  label = none;
  status = current;
}

abbrev two_tables : String → GraphIr
two_tables target = record {
  view = "er";
  nodes = node "table:a" ∷ node "table:b" ∷ [];
  edges = edge target ∷ [];
}

program : Unit {0}
unfolding validate_graph text_dec sort_by text_le unique
program = tt

joined : validate_graph (two_tables "table:b") ≡ ok (two_tables "table:b")
unfolding program
joined = refl

strange : validate_graph (two_tables "table:z") ≡ raise (unknown_nodes ("table:z" ∷ []))
unfolding program
strange = refl

validate_graph-IsGraph_example :
    (validate_graph (two_tables "table:b") ≡ ok (two_tables "table:b"))
    ↔ IsGraph (two_tables "table:b")
validate_graph-IsGraph_example = validate_graph-IsGraph (two_tables "table:b")
