-- ===== src/Uipcp/Hops/Graphs.antt =====
-- The graph that user/uipcps/uipcp-normal-lfdb.cpp builds has all nodes that its edges lead to.
use rlite.Base.{
  ◌≡◌, ◌⊎◌, sym, subst, inl, inr, true, false, Option-cases, List, [], ◌∷◌, ◌++◌, arith, IsIn,
  Bool-cases, same_bytes, same_bytes-cases, same_bytes_refl, ◌==◌,
}
use rlite.Uipcp.Lfdb.{NodeId, Edge, LowerFlow, Graph, map_set, map_get, edges_of}
use rlite.Uipcp.Lfdb.Maps.{has_node, map_get-set_same, map_get-set_other}
use rlite.Uipcp.Lfdb.Walks.{IsEdge, IsClosed}
use rlite.Uipcp.Lfdb.NextHops.{
  FlowDb, lfdb_find, with_node, add_flow, add_flows, add_nodes, build_graph,
}

has_node-set_same : (k : NodeId) (es : List Edge) (g : Graph) → has_node (map_set k es g) k ≡ true
unfolding has_node map_set
has_node-set_same k es [] = ground (arith, same_bytes_refl k)
has_node-set_same k es ((n, fs) ∷ rest) = elim (Bool-cases (same_bytes n k)) [
  | inl same ↦ ground arith
  | inr other ↦ ground (arith, has_node-set_same k es rest)
]

has_node-set :
    (k v : NodeId) (es : List Edge) (g : Graph)
    → has_node g v ≡ true
    → has_node (map_set k es g) v ≡ true
unfolding has_node map_set
has_node-set k v es [] h = absurd (ground (arith, h))
has_node-set k v es ((n, fs) ∷ rest) h = elim (Bool-cases (same_bytes n k)) [
  | inl same ↦ ground arith
  | inr other ↦ elim (Bool-cases (same_bytes n v)) [
    | inl here ↦ ground arith
    | inr later ↦ ground (arith, has_node-set k v es rest (ground arith))
  ]
]

IsIn-last : {A : Type 0} (x y : A) (xs : List A) → IsIn x (xs ++ y ∷ []) → IsIn x xs ⊎ (y ≡ x)
IsIn-last x y [] (inl here) = inr here
IsIn-last x y [] (inr no_place) = absurd no_place
IsIn-last x y (z ∷ xs) (inl here) = inl (inl here)
IsIn-last x y (z ∷ xs) (inr later) = elim (IsIn-last x y xs later) [
  | inl old ↦ inl (inr old)
  | inr new ↦ inr new
]

-- The source of the search is in the graph, and so are all nodes that edges lead to.
pub record IsWhole (local_node : NodeId) (g : Graph) : Type 0 where
  pub closed : IsClosed g
  pub here : has_node g local_node ≡ true

set-edges :
    (node u : NodeId) (g : Graph)
    → has_node g node ≡ false
    → (e : Edge) → IsEdge (map_set node [] g) u e
    → IsEdge g u e
unfolding edges_of
set-edges node u g missing e edge = elim (same_bytes-cases node u) [
  | inl (same, this) ↦ absurd (
      subst (IsIn e) (map_get-set_same [] [] node g)
        (subst (λ w. IsIn e (map_get [] w (map_set node [] g))) (sym this) edge))
  | inr (differ, apart) ↦ subst (IsIn e) (map_get-set_other [] [] node u g apart) edge
]

-- An edge to a node, and the node.
link-IsWhole :
    (local_node u : NodeId) (edge : Edge) (g : Graph)
    → IsWhole local_node g
    → IsWhole local_node (with_node edge.to (map_set u (edges_of g u ++ edge ∷ []) g))
unfolding with_node edges_of
link-IsWhole local_node u edge g h =
    let linked = map_set u (map_get [] u g ++ edge ∷ []) g in
    let old : (v : NodeId) → has_node g v ≡ true → has_node linked v ≡ true =
      λ v there. has_node-set u v (map_get [] u g ++ edge ∷ []) g there in
    let ends : (w : NodeId) (e : Edge) → IsEdge linked w e → (has_node g e.to ≡ true) ⊎ (edge ≡ e) =
      λ w e inside. elim (same_bytes-cases u w) [
        | inl (same, this) ↦
            let at = subst (λ x. IsIn e (map_get [] x linked)) (sym this) inside in
            let in_es = subst (IsIn e) (map_get-set_same (map_get [] u g ++ edge ∷ []) [] u g) at in
            elim (IsIn-last e edge (map_get [] u g) in_es) [
              | inl before ↦ inl (h.closed u e before)
              | inr new ↦ inr new
            ]
        | inr (differ, apart) ↦ inl (
            h.closed w e (
              subst (IsIn e) (map_get-set_other (map_get [] u g ++ edge ∷ []) [] u w g apart)
                inside))
      ] in
    elim (Bool-cases (has_node linked edge.to)) [
      | inl there ↦
          let step : with_node edge.to linked ≡ linked = ground arith in
          subst (IsWhole local_node) (sym step) (record {
            closed = λ w e inside. elim (ends w e inside) [
              | inl before ↦ old e.to before
              | inr new ↦ subst (λ (x : Edge). has_node linked x.to ≡ true) new there
            ];
            here = old local_node h.here;
          })
      | inr missing ↦
          let full = map_set edge.to [] linked in
          let step : with_node edge.to linked ≡ full = ground arith in
          subst (IsWhole local_node) (sym step) (record {
            closed = λ w e inside. elim (ends w e (set-edges edge.to w linked missing e inside)) [
              | inl before ↦ has_node-set edge.to e.to [] linked (old e.to before)
              | inr new ↦
                  subst (λ (x : Edge). has_node full x.to ≡ true) new
                    (has_node-set_same edge.to [] linked)
            ];
            here = has_node-set edge.to local_node [] linked (old local_node h.here);
          })
    ]

add_flow-IsWhole :
    (local_node : NodeId) (db : FlowDb) (lf : LowerFlow) (g : Graph)
    → IsWhole local_node g
    → IsWhole local_node (add_flow db lf g)
unfolding add_flow
add_flow-IsWhole local_node db lf g h =
    let edge : Edge = record { to = lf.remote_node; cost = lf.cost } in
    let linked = map_set lf.local_node (edges_of g lf.local_node ++ edge ∷ []) g in
    elim (Option-cases (lfdb_find db lf.local_node lf.remote_node)) [
      | inl missing ↦
          let step : add_flow db lf g ≡ g = ground arith in subst (IsWhole local_node) (sym step) h
      | inr (revlf, found) ↦ elim (Bool-cases (revlf.cost == lf.cost)) [
        | inl same ↦
            let step : add_flow db lf g ≡ with_node lf.remote_node linked = ground arith in
            subst (IsWhole local_node) (sym step) (link-IsWhole local_node lf.local_node edge g h)
        | inr other ↦
            let step : add_flow db lf g ≡ g = ground arith in
            subst (IsWhole local_node) (sym step) h
      ]
    ]

add_flows-IsWhole :
    (local_node : NodeId) (db : FlowDb) (flows : List (NodeId × LowerFlow)) (g : Graph)
    → IsWhole local_node g
    → IsWhole local_node (add_flows db flows g)
unfolding add_flows
add_flows-IsWhole local_node db [] g h = h
add_flows-IsWhole local_node db ((n, lf) ∷ rest) g h =
    add_flows-IsWhole local_node db rest (add_flow db lf g) (add_flow-IsWhole local_node db lf g h)

add_nodes-IsWhole :
    (local_node : NodeId) (db rest : FlowDb) (g : Graph)
    → IsWhole local_node g
    → IsWhole local_node (add_nodes db rest g)
unfolding add_nodes
add_nodes-IsWhole local_node db [] g h = h
add_nodes-IsWhole local_node db ((n, flows) ∷ rest) g h =
    add_nodes-IsWhole local_node db rest (add_flows db flows g)
      (add_flows-IsWhole local_node db flows g h)

start-IsWhole : (local_node : NodeId) → IsWhole local_node ((local_node, []) ∷ [])
unfolding edges_of map_get has_node
start-IsWhole local_node = record {
  closed = λ u e edge. elim (Bool-cases (same_bytes local_node u)) [
    | inl same ↦
        let none_here : edges_of ((local_node, []) ∷ []) u ≡ [] = ground arith in
        absurd (subst (IsIn e) none_here edge)
    | inr other ↦
        let none_there : edges_of ((local_node, []) ∷ []) u ≡ [] = ground arith in
        absurd (subst (IsIn e) none_there edge)
  ];
  here = ground (arith, same_bytes_refl local_node);
}

pub build_graph-IsWhole :
    (local_node : NodeId) (db : FlowDb) → IsWhole local_node (build_graph local_node db)
unfolding build_graph
build_graph-IsWhole local_node db =
    add_nodes-IsWhole local_node db db ((local_node, []) ∷ []) (start-IsWhole local_node)
