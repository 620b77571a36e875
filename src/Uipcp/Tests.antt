-- ===== src/Uipcp/Tests.antt =====
-- Routing of user/uipcps at concrete inputs: three nodes, where the way over `c` costs less.
use rlite.Base.{
  ℕ, ◌+◌, ◌≤◌, ◌<◌, ◌≡◌, ◌≢◌, refl, inl, inr, true, false, none, some, [], ◌∷◌, arith, same_bytes,
}
use rlite.Uipcp.Lfdb.{
  NodeId, Edge, LowerFlow, Graph, map_find, map_set, map_get, edges_of, info_of, pq_push, init_info,
  relax, search_paths, size_of, compute_shortest_paths, dist_max,
}
use rlite.Uipcp.Lfdb.Maps.{has_node}
use rlite.Uipcp.Lfdb.Walks.{IsEdge, IsEdge-All, Walk, Least, IsClosed, IsSmall}
use rlite.Uipcp.Lfdb.Paths.{Reaches, compute_shortest_paths-Reaches}
use rlite.Uipcp.Lfdb.NextHops.{
  FlowDb, lfdb_find, with_node, add_flow, add_flows, add_nodes, build_graph, push_hop,
  fill_next_hops, compute_next_hops,
}
use rlite.Uipcp.Lfdb.Links.{edge_of, build_graph-one_way}
use rlite.Uipcp.LinkState.{Node, Routing}
use rlite.Uipcp.LinkState.Entries.{is_between}
use rlite.Uipcp.LinkState.Newest.{add_all, Agree, add_all-Agree}

abbrev node_a : NodeId
node_a = 97 ∷ []

abbrev node_b : NodeId
node_b = 98 ∷ []

abbrev node_c : NodeId
node_c = 99 ∷ []

abbrev edge_to : NodeId → ℕ → Edge
edge_to to cost = record { to = to; cost = cost }

abbrev triangle : Graph
triangle =
    (node_a, edge_to node_b 10 ∷ edge_to node_c 1 ∷ [])
    ∷ (node_b, [])
    ∷ (node_c, edge_to node_b 1 ∷ [])
    ∷ []

triangle-IsClosed : IsClosed triangle
unfolding has_node same_bytes
triangle-IsClosed u e edge =
    IsEdge-All (λ f. has_node triangle f.to ≡ true) triangle u e
      ((refl, (refl, tt)), (tt, ((refl, tt), tt))) edge

triangle_has_a : has_node triangle node_a ≡ true
unfolding has_node same_bytes
triangle_has_a = refl

a_to_b : IsEdge triangle node_a (edge_to node_b 10)
unfolding edges_of map_get same_bytes
a_to_b = inl refl

a_to_c : IsEdge triangle node_a (edge_to node_c 1)
unfolding edges_of map_get same_bytes
a_to_c = inr (inl refl)

-- A walk of little cost to the node of each edge.
abbrev IsNear : Edge → Type 0
IsNear e = (c : ℕ) × Walk triangle node_a e.to c × (c ≤ 10)

Walk-to_b : Walk triangle node_a node_b 10
Walk-to_b = Walk.onward node_a 0 (edge_to node_b 10) Walk.stay a_to_b

Walk-to_c : Walk triangle node_a node_c 1
Walk-to_c = Walk.onward node_a 0 (edge_to node_c 1) Walk.stay a_to_c

Least-small :
    (u : NodeId) (d : ℕ)
    → Walk triangle node_a u d
    → Least triangle node_a u d
    → d + 10 + 10 < dist_max
Least-small u d Walk.stay least = omega arith
Least-small u d (Walk.onward v c e w edge) least =
    let (k, near, few) =
      IsEdge-All IsNear triangle v e
        (
          ((10, Walk-to_b, omega arith), ((1, Walk-to_c, omega arith), tt)),
          (tt, (((10, Walk-to_b, omega arith), tt), tt)),
        )
        edge in
    let bound = least k near in omega arith

triangle-IsSmall : IsSmall triangle node_a 10
triangle-IsSmall = record {
  edges = λ u e edge.
      IsEdge-All (λ f. f.cost ≤ 10) triangle u e
        ((omega arith, (omega arith, tt)), (tt, ((omega arith, tt), tt))) edge;
  walks = Least-small;
}

b_is_not_a : node_b ≢ node_a
b_is_not_a e = ground (arith, e)

compute_shortest_paths-Reaches_example :
    Reaches triangle node_a node_b 10 (compute_shortest_paths node_a triangle)
compute_shortest_paths-Reaches_example =
    compute_shortest_paths-Reaches triangle node_a 10 node_b 10 triangle-IsClosed triangle-IsSmall
      triangle_has_a b_is_not_a Walk-to_b

-- The next hop to `b` is right, but the entry of the queue that is out of date sets its distance.
stale_distance :
    compute_shortest_paths node_a triangle
    ≡ some (
        (node_a, record { dist = 0; nhop = [] })
        ∷ (node_b, record { dist = 10; nhop = node_c })
        ∷ (node_c, record { dist = 1; nhop = node_c })
        ∷ [])
unfolding compute_shortest_paths search_paths relax info_of edges_of map_set map_get pq_push
    init_info size_of same_bytes
stale_distance = refl

abbrev flow_of : NodeId → NodeId → ℕ → LowerFlow
flow_of from to seqnum = record {
  local_node = from;
  remote_node = to;
  cost = 1;
  seqnum = seqnum;
  state = true;
  age = 5;
}

-- Only `a` declares the flow between `a` and `b`.
abbrev one_way : FlowDb
one_way = (node_a, (node_b, flow_of node_a node_b 1) ∷ []) ∷ []

one_way-found : lfdb_find one_way node_a node_b ≡ some (flow_of node_a node_b 1)
unfolding lfdb_find map_find same_bytes
one_way-found = refl

build_graph-one_way_example :
    IsEdge (build_graph node_c one_way) node_a (edge_of (flow_of node_a node_b 1))
build_graph-one_way_example =
    build_graph-one_way node_c one_way node_a node_b ((node_b, flow_of node_a node_b 1) ∷ [])
      (flow_of node_a node_b 1) one_way-found (inl refl) (inl refl)

-- The node `a` routes to `b`, which has not declared the flow.
one_way_hops : compute_next_hops false one_way node_a ≡ some ((node_b, node_b ∷ []) ∷ [])
unfolding compute_next_hops build_graph add_nodes add_flows add_flow with_node lfdb_find map_find
    has_node fill_next_hops push_hop compute_shortest_paths search_paths relax info_of edges_of
    map_set map_get pq_push init_info size_of same_bytes
one_way_hops = refl

abbrev node_of : NodeId → Node
node_of myname = record {
  myname = myname;
  is_neighbor = λ name. true;
  age_incr_intval = 10000;
  age_max = 900000;
}

abbrev no_routing : Routing
no_routing = record { db = []; recompute = false }

no_routing-find : lfdb_find no_routing.db node_a node_b ≡ none
unfolding lfdb_find map_find
no_routing-find = refl

abbrev flow_one : LowerFlow
flow_one = flow_of node_a node_b 1

abbrev flow_two : LowerFlow
flow_two = flow_of node_a node_b 2

a_is_not_b : node_a ≢ node_b
a_is_not_b e = ground (arith, e)

a_is_not_c : node_a ≢ node_c
a_is_not_c e = ground (arith, e)

between_a_b : is_between node_a node_b flow_one ≡ true
unfolding same_bytes
between_a_b = refl

add_all-Agree_example :
    Agree node_a node_b
      (add_all (node_of node_b) (flow_one ∷ flow_two ∷ []) no_routing)
      (add_all (node_of node_c) (flow_two ∷ flow_one ∷ []) no_routing)
add_all-Agree_example =
    add_all-Agree (node_of node_b) (node_of node_c) (flow_one ∷ flow_two ∷ [])
      (flow_two ∷ flow_one ∷ []) no_routing no_routing node_a node_b flow_one a_is_not_b a_is_not_c
      no_routing-find no_routing-find (inr (inl refl), (inl refl, tt))
      (inr (inl refl), (inl refl, tt)) (inl refl) between_a_b
