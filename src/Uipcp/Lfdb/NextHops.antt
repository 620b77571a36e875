-- ===== src/Uipcp/Lfdb/NextHops.antt =====
-- The routing table of user/uipcps/uipcp-normal-lfdb.cpp: `find`, and `compute_next_hops` with the graph
-- that it builds from the database, and the loop free alternates.
use rlite.Base.{
  ◌+◌, ◌%◌, ◌^◌, Bool, false, not, ◌&&◌, ◌||◌, Option, none, some, List, [], ◌∷◌, ◌++◌, ltb, ◌==◌,
  if◌then◌else◌, same_bytes,
}
use rlite.Uipcp.Lfdb.{
  NodeId, Edge, LowerFlow, Graph, Infos, dist_max, map_find, map_set, map_get, edges_of, info_of,
  compute_shortest_paths,
}
use rlite.Uipcp.Lfdb.Maps.{has_node}

abbrev pub FlowDb : Type 0
FlowDb = List (NodeId × List (NodeId × LowerFlow))

-- `LFDB::find`, `none` for a null pointer.
unfoldable pub lfdb_find : FlowDb → NodeId → NodeId → Option LowerFlow
lfdb_find db local_node remote_node = elim (map_find local_node db) [
  | none ↦ none
  | some flows ↦ map_find remote_node flows
]

-- `graph[node]` for a node that may not be there.
unfoldable pub with_node : NodeId → Graph → Graph
with_node node graph = if has_node graph node then graph else map_set node [] graph

-- What the loop that builds the graph does with a flow.
unfoldable pub add_flow : FlowDb → LowerFlow → Graph → Graph
add_flow db lf graph =
    let edge : Edge = record { to = lf.remote_node; cost = lf.cost } in
    let linked = map_set lf.local_node (edges_of graph lf.local_node ++ edge ∷ []) graph in
    elim (lfdb_find db lf.local_node lf.remote_node) [
      | none ↦ graph
      | some revlf ↦ if revlf.cost == lf.cost then with_node lf.remote_node linked else graph
    ]

unfoldable pub add_flows : FlowDb → List (NodeId × LowerFlow) → Graph → Graph
add_flows db [] graph = graph
add_flows db ((n, lf) ∷ rest) graph = add_flows db rest (add_flow db lf graph)

unfoldable pub add_nodes : FlowDb → FlowDb → Graph → Graph
add_nodes db [] graph = graph
add_nodes db ((n, flows) ∷ rest) graph = add_nodes db rest (add_flows db flows graph)

unfoldable pub build_graph : NodeId → FlowDb → Graph
build_graph local_node db = add_nodes db db ((local_node, []) ∷ [])

abbrev pub NextHops : Type 0
NextHops = List (NodeId × List NodeId)

-- `next_hops[node].push_back(hop)`.
unfoldable pub push_hop : NodeId → NodeId → NextHops → NextHops
push_hop node hop next_hops = map_set node (map_get [] node next_hops ++ hop ∷ []) next_hops

unfoldable pub fill_next_hops : NodeId → Infos → NextHops → NextHops
fill_next_hops local_node [] next_hops = next_hops
fill_next_hops local_node ((node, inf) ∷ rest) next_hops = fill_next_hops local_node rest (
    if same_bytes node local_node || inf.dist == dist_max
    then next_hops
    else push_hop node inf.nhop next_hops)

-- The shortest paths from each neighbor.
unfoldable pub neighbor_infos :
    Graph → List Edge → List (NodeId × Infos) → Option (List (NodeId × Infos))
neighbor_infos graph [] neigh_infos = some neigh_infos
neighbor_infos graph (edge ∷ edges) neigh_infos = elim (compute_shortest_paths edge.to graph) [
  | none ↦ none
  | some info ↦ neighbor_infos graph edges (map_set edge.to info neigh_infos)
]

unfoldable pub has_hop : NodeId → List NodeId → Bool
has_hop node [] = false
has_hop node (lfa ∷ rest) = same_bytes lfa node || has_hop node rest

-- The neighbors `u` that are a loop free alternate for the node `v`.
unfoldable pub add_alternates :
    NodeId → Infos → NodeId → List (NodeId × Infos) → NextHops → NextHops
add_alternates local_node info v [] next_hops = next_hops
add_alternates local_node info v ((u, neigh) ∷ rest) next_hops =
    let bound = ((info_of neigh local_node).dist + (info_of info v).dist) % 2 ^ 32 in
    let is_free = ltb (info_of neigh v).dist bound in
    let dupl = has_hop u (map_get [] v next_hops) in
    add_alternates local_node info v rest
      (if not (same_bytes u v) && is_free && not dupl then push_hop v u next_hops else next_hops)

unfoldable pub alternates_for : NodeId → Infos → List (NodeId × Infos) → Graph → NextHops → NextHops
alternates_for local_node info neigh_infos [] next_hops = next_hops
alternates_for local_node info neigh_infos ((v, es) ∷ rest) next_hops =
    alternates_for local_node info neigh_infos rest (
      if same_bytes v local_node
      then next_hops
      else add_alternates local_node info v neigh_infos next_hops)

-- `none` if a search has not enough fuel.
unfoldable pub compute_next_hops : Bool → FlowDb → NodeId → Option NextHops
compute_next_hops lfa_enabled db local_node =
    let graph = build_graph local_node db in
    elim (compute_shortest_paths local_node graph) [
      | none ↦ none
      | some info ↦
          let next_hops = fill_next_hops local_node info [] in
          if not lfa_enabled
          then some next_hops
          else elim (neighbor_infos graph (edges_of graph local_node) []) [
            | none ↦ none
            | some neigh_infos ↦ some (alternates_for local_node info neigh_infos graph next_hops)
          ]
    ]
