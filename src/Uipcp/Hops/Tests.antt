-- ===== src/Uipcp/Hops/Tests.antt =====
-- The routing table of user/uipcps/uipcp-normal-lfdb.cpp at a concrete database.
use rlite.Base.{
  ℕ, ◌≤◌, ◌≡◌, ◌≢◌, refl, sym, ap, ◌∙◌, subst, inl, inr, Bool-cases, true, same_bytes-cases, [],
  ◌∷◌, arith, IsIn, same_bytes,
}
use rlite.Uipcp.Lfdb.{NodeId, Edge, LowerFlow, Graph, map_find, map_set, map_get, edges_of}
use rlite.Uipcp.Lfdb.Maps.{has_node}
use rlite.Uipcp.Lfdb.Walks.{IsEdge, IsEdge-All, Walk, IsSmall}
use rlite.Uipcp.Lfdb.NextHops.{
  FlowDb, lfdb_find, with_node, add_flow, add_flows, add_nodes, build_graph, compute_next_hops,
}
use rlite.Uipcp.Hops.Table.{RoutesTo, compute_next_hops-RoutesTo}

abbrev node_a : NodeId
node_a = 97 ∷ []

abbrev node_b : NodeId
node_b = 98 ∷ []

abbrev flow_a_b : LowerFlow
flow_a_b = record {
  local_node = node_a;
  remote_node = node_b;
  cost = 3;
  seqnum = 1;
  state = true;
  age = 0;
}

abbrev one_flow : FlowDb
one_flow = (node_a, (node_b, flow_a_b) ∷ []) ∷ []

abbrev to_b : Edge
to_b = record { to = node_b; cost = 3 }

abbrev one_edge : Graph
one_edge = (node_a, to_b ∷ []) ∷ (node_b, []) ∷ []

one_flow-graph : build_graph node_a one_flow ≡ one_edge
unfolding build_graph add_nodes add_flows add_flow with_node lfdb_find map_find map_set map_get
    edges_of has_node same_bytes
one_flow-graph = refl

a_to_b : IsEdge one_edge node_a to_b
unfolding edges_of map_get same_bytes
a_to_b = inl refl

Walk-a_b : Walk one_edge node_a node_b 3
Walk-a_b = Walk.onward node_a 0 to_b Walk.stay a_to_b

edges_cost : (u : NodeId) (e : Edge) → IsEdge one_edge u e → e.cost ≤ 3
edges_cost u e edge = IsEdge-All (λ f. f.cost ≤ 3) one_edge u e ((omega arith, tt), (tt, tt)) edge

-- Edges start at `a` only, and lead to `b`.
edge_ends : (u : NodeId) (e : Edge) → IsEdge one_edge u e → (u ≡ node_a) × (e ≡ to_b)
unfolding edges_of map_get
edge_ends u e edge = elim (same_bytes-cases node_a u) [
  | inl (same, this) ↦
      let here : edges_of one_edge u ≡ to_b ∷ [] = ground arith in
      elim (subst (IsIn e) here edge) [
        | inl first ↦ (sym this, sym first)
        | inr no_place ↦ absurd no_place
      ]
  | inr (differ, apart) ↦ elim (Bool-cases (same_bytes node_b u)) [
    | inl is_b ↦
        let empty : edges_of one_edge u ≡ [] = ground arith in absurd (subst (IsIn e) empty edge)
    | inr not_b ↦
        let empty : edges_of one_edge u ≡ [] = ground arith in absurd (subst (IsIn e) empty edge)
  ]
]

b_is_not_a : node_b ≢ node_a
b_is_not_a e = ground (arith, e)

-- A walk costs 3 at most: it ends at `b` after one edge.
Walk-cost : (source u : NodeId) (d : ℕ) → Walk one_edge source u d → (d ≤ 3) × (u ≡ node_a → d ≡ 0)
Walk-cost source u d Walk.stay = (omega arith, λ e. refl)
Walk-cost source u d (Walk.onward v c e w edge) =
    let (at_a, this) = edge_ends v e edge in
    let before = (Walk-cost source v c w).1 at_a in
    let cost = ap Edge.cost this in
    (omega arith, λ is_a. absurd (b_is_not_a (sym (ap Edge.to this) ∙ is_a)))

one_edge-IsSmall : (source : NodeId) → IsSmall one_edge source 3
one_edge-IsSmall source = record {
  edges = edges_cost;
  walks = λ u d w least. omega (arith, (Walk-cost source u d w).0);
}

compute_next_hops-RoutesTo_example :
    RoutesTo (build_graph node_a one_flow) node_a node_b 3 (compute_next_hops true one_flow node_a)
compute_next_hops-RoutesTo_example =
    compute_next_hops-RoutesTo true one_flow node_a node_b 3 3
      (subst (λ g. IsSmall g node_a 3) (sym one_flow-graph) (one_edge-IsSmall node_a))
      (λ e edge. subst (λ g. IsSmall g e.to 3) (sym one_flow-graph) (one_edge-IsSmall e.to))
      b_is_not_a (subst (λ g. Walk g node_a node_b 3) (sym one_flow-graph) Walk-a_b)
