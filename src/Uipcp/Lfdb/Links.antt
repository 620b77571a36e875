-- ===== src/Uipcp/Lfdb/Links.antt =====
-- The edges of the graph that user/uipcps/uipcp-normal-lfdb.cpp builds from the database.
use rlite.Base.{
  ◌≡◌, refl, sym, ap, ◌∙◌, subst, inl, inr, false, some, List, [], ◌∷◌, ◌++◌, arith, IsIn,
  Bool-cases, Option-cases, same_bytes, same_bytes-cases, ◌==◌, true-false,
}
use rlite.Uipcp.Lfdb.{NodeId, Edge, LowerFlow, Graph, map_set, map_get, edges_of}
use rlite.Uipcp.Lfdb.Maps.{has_node, map_get-set_same, map_get-set_other}
use rlite.Uipcp.Lfdb.Walks.{IsEdge}
use rlite.Uipcp.Lfdb.NextHops.{
  FlowDb, lfdb_find, with_node, add_flow, add_flows, add_nodes, build_graph,
}

abbrev pub edge_of : LowerFlow → Edge
edge_of lf = record { to = lf.remote_node; cost = lf.cost }

IsIn-append_left : {A : Type 0} (x : A) (xs ys : List A) → IsIn x xs → IsIn x (xs ++ ys)
IsIn-append_left x [] ys h = elim h [ ]
IsIn-append_left x (z ∷ xs) ys (inl here) = inl here
IsIn-append_left x (z ∷ xs) ys (inr later) = inr (IsIn-append_left x xs ys later)

IsIn-append_last : {A : Type 0} (x : A) (xs : List A) → IsIn x (xs ++ x ∷ [])
IsIn-append_last x [] = inl refl
IsIn-append_last x (z ∷ xs) = inr (IsIn-append_last x xs)

no_node-edges :
    (graph : Graph) (node : NodeId) → has_node graph node ≡ false → map_get [] node graph ≡ []
unfolding has_node map_get
no_node-edges [] node h = refl
no_node-edges ((n, es) ∷ rest) node h = elim (Bool-cases (same_bytes n node)) [
  | inl same ↦ absurd (true-false (ground arith))
  | inr other ↦ ground (arith, no_node-edges rest node (ground arith))
]

-- A node without edges is no source of an edge.
with_node-IsEdge :
    (node : NodeId) (graph : Graph) (u : NodeId) (e : Edge)
    → IsEdge graph u e
    → IsEdge (with_node node graph) u e
unfolding with_node edges_of
with_node-IsEdge node graph u e edge = elim (Bool-cases (has_node graph node)) [
  | inl there ↦
      let step : with_node node graph ≡ graph = ground arith in
      subst (λ g. IsEdge g u e) (sym step) edge
  | inr missing ↦
      let step : with_node node graph ≡ map_set node [] graph = ground arith in
      elim (same_bytes-cases node u) [
        | inl (same, this) ↦
            let empty = no_node-edges graph node missing in
            absurd (subst (IsIn e) (ap (λ v. map_get [] v graph) (sym this) ∙ empty) edge)
        | inr (differ, apart) ↦
            subst (λ g. IsEdge g u e) (sym step)
              (subst (IsIn e) (sym (map_get-set_other [] [] node u graph apart)) edge)
      ]
]

linked-IsEdge :
    (lf : LowerFlow) (graph : Graph) (u : NodeId) (e : Edge)
    → IsEdge graph u e
    → IsEdge (map_set lf.local_node (edges_of graph lf.local_node ++ edge_of lf ∷ []) graph) u e
unfolding edges_of
linked-IsEdge lf graph u e edge =
    let es = map_get [] lf.local_node graph in
    elim (same_bytes-cases lf.local_node u) [
      | inr (differ, apart) ↦
          subst (IsIn e)
            (sym (map_get-set_other (es ++ edge_of lf ∷ []) [] lf.local_node u graph apart)) edge
      | inl (same, this) ↦
          let old : IsIn e es = subst (λ v. IsIn e (map_get [] v graph)) (sym this) edge in
          subst (λ v. IsIn e (map_get [] v (map_set lf.local_node (es ++ edge_of lf ∷ []) graph)))
            this
            (subst (IsIn e) (sym (map_get-set_same (es ++ edge_of lf ∷ []) [] lf.local_node graph))
              (IsIn-append_left e es (edge_of lf ∷ []) old))
    ]

-- No edge goes away.
add_flow-IsEdge :
    (db : FlowDb) (lf : LowerFlow) (graph : Graph) (u : NodeId) (e : Edge)
    → IsEdge graph u e
    → IsEdge (add_flow db lf graph) u e
unfolding add_flow
add_flow-IsEdge db lf graph u e edge =
    let linked = map_set lf.local_node (edges_of graph lf.local_node ++ edge_of lf ∷ []) graph in
    let more = with_node-IsEdge lf.remote_node linked u e (linked-IsEdge lf graph u e edge) in
    elim (Option-cases (lfdb_find db lf.local_node lf.remote_node)) [
      | inl missing ↦
          let step : add_flow db lf graph ≡ graph = ground arith in
          subst (λ g. IsEdge g u e) (sym step) edge
      | inr (revlf, found) ↦ elim (Bool-cases (revlf.cost == lf.cost)) [
        | inl same ↦
            let step : add_flow db lf graph ≡ with_node lf.remote_node linked = ground arith in
            subst (λ g. IsEdge g u e) (sym step) more
        | inr other ↦
            let step : add_flow db lf graph ≡ graph = ground arith in
            subst (λ g. IsEdge g u e) (sym step) edge
      ]
    ]

linked-edge_of :
    (lf : LowerFlow) (graph : Graph)
    → IsEdge
        (map_set lf.local_node (edges_of graph lf.local_node ++ edge_of lf ∷ []) graph)
        lf.local_node
        (edge_of lf)
unfolding edges_of
linked-edge_of lf graph =
    let es = map_get [] lf.local_node graph in
    subst (IsIn (edge_of lf))
      (sym (map_get-set_same (es ++ edge_of lf ∷ []) [] lf.local_node graph))
      (IsIn-append_last (edge_of lf) es)

-- A flow that is found under its own nodes gets its edge.
add_flow-edge_of :
    (db : FlowDb) (lf : LowerFlow) (graph : Graph)
    → lfdb_find db lf.local_node lf.remote_node ≡ some lf
    → IsEdge (add_flow db lf graph) lf.local_node (edge_of lf)
unfolding add_flow
add_flow-edge_of db lf graph found =
    let es = edges_of graph lf.local_node in
    let linked = map_set lf.local_node (es ++ edge_of lf ∷ []) graph in
    let step : add_flow db lf graph ≡ with_node lf.remote_node linked = ground arith in
    let new : IsEdge linked lf.local_node (edge_of lf) = linked-edge_of lf graph in
    subst (λ g. IsEdge g lf.local_node (edge_of lf)) (sym step)
      (with_node-IsEdge lf.remote_node linked lf.local_node (edge_of lf) new)

add_flows-IsEdge :
    (db : FlowDb) (flows : List (NodeId × LowerFlow)) (graph : Graph) (u : NodeId) (e : Edge)
    → IsEdge graph u e
    → IsEdge (add_flows db flows graph) u e
unfolding add_flows
add_flows-IsEdge db [] graph u e edge = edge
add_flows-IsEdge db ((n, lf) ∷ rest) graph u e edge =
    add_flows-IsEdge db rest (add_flow db lf graph) u e (add_flow-IsEdge db lf graph u e edge)

add_flows-edge_of :
    (db : FlowDb) (flows : List (NodeId × LowerFlow)) (graph : Graph) (n : NodeId) (lf : LowerFlow)
    → lfdb_find db lf.local_node lf.remote_node ≡ some lf
    → IsIn (n, lf) flows
    → IsEdge (add_flows db flows graph) lf.local_node (edge_of lf)
unfolding add_flows
add_flows-edge_of db [] graph n lf found no_place = absurd no_place
add_flows-edge_of db ((m, lf') ∷ rest) graph n lf found (inl this) =
    let same : lf' ≡ lf = ap (λ (p : NodeId × LowerFlow). p.1) this in
    let new = add_flow-edge_of db lf graph found in
    subst (λ f. IsEdge (add_flows db rest (add_flow db f graph)) lf.local_node (edge_of lf))
      (sym same) (add_flows-IsEdge db rest (add_flow db lf graph) lf.local_node (edge_of lf) new)
add_flows-edge_of db ((m, lf') ∷ rest) graph n lf found (inr later) =
    add_flows-edge_of db rest (add_flow db lf' graph) n lf found later

add_nodes-IsEdge :
    (db rest : FlowDb) (graph : Graph) (u : NodeId) (e : Edge)
    → IsEdge graph u e
    → IsEdge (add_nodes db rest graph) u e
unfolding add_nodes
add_nodes-IsEdge db [] graph u e edge = edge
add_nodes-IsEdge db ((n, flows) ∷ rest) graph u e edge =
    add_nodes-IsEdge db rest (add_flows db flows graph) u e
      (add_flows-IsEdge db flows graph u e edge)

add_nodes-edge_of :
    (db rest : FlowDb) (graph : Graph) (m n : NodeId) (flows : List (NodeId × LowerFlow))
    (lf : LowerFlow)
    → lfdb_find db lf.local_node lf.remote_node ≡ some lf
    → IsIn (m, flows) rest
    → IsIn (n, lf) flows
    → IsEdge (add_nodes db rest graph) lf.local_node (edge_of lf)
unfolding add_nodes
add_nodes-edge_of db [] graph m n flows lf found no_place there = absurd no_place
add_nodes-edge_of db ((k, flows') ∷ rest) graph m n flows lf found (inl this) there =
    let same : flows' ≡ flows = ap (λ (p : NodeId × List (NodeId × LowerFlow)). p.1) this in
    let new = add_flows-edge_of db flows graph n lf found there in
    subst (λ fs. IsEdge (add_nodes db rest (add_flows db fs graph)) lf.local_node (edge_of lf))
      (sym same)
      (add_nodes-IsEdge db rest (add_flows db flows graph) lf.local_node (edge_of lf) new)
add_nodes-edge_of db ((k, flows') ∷ rest) graph m n flows lf found (inr later) there =
    add_nodes-edge_of db rest (add_flows db flows' graph) m n flows lf found later there

-- A flow in the database that is found under its own nodes gets an edge of its cost in the graph,
-- whether or not the database has the flow of the opposite direction.
pub build_graph-one_way :
    (local_node : NodeId) (db : FlowDb) (m n : NodeId) (flows : List (NodeId × LowerFlow))
    (lf : LowerFlow)
    → lfdb_find db lf.local_node lf.remote_node ≡ some lf
    → IsIn (m, flows) db
    → IsIn (n, lf) flows
    → IsEdge (build_graph local_node db) lf.local_node (edge_of lf)
unfolding build_graph
build_graph-one_way local_node db m n flows lf found there in_flows =
    add_nodes-edge_of db db ((local_node, []) ∷ []) m n flows lf found there in_flows
