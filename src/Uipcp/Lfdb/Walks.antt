-- ===== src/Uipcp/Lfdb/Walks.antt =====
-- Walks in the graph of user/uipcps/uipcp-normal-lfdb.cpp, with the sum of their costs.
use rlite.Base.{
  ◌∷◌, [], All, All-IsIn, Bool-cases, inl, inr, same_bytes, subst, arith, true, ℕ, ◌+◌, ◌≤◌, ◌<◌,
  ◌≡◌, List, IsIn,
}
use rlite.Uipcp.Lfdb.{NodeId, Edge, Graph, edges_of, map_get, dist_max}
use rlite.Uipcp.Lfdb.Maps.{has_node}

abbrev pub IsEdge : Graph → NodeId → Edge → Type 0
IsEdge graph node edge = IsIn edge (edges_of graph node)

-- A walk from one node to another, and its cost.
pub data Walk (graph : Graph) (source : NodeId) : NodeId → ℕ → Type 0 where
  stay : Walk graph source source 0
  onward :
      (u : NodeId) (d : ℕ) (e : Edge)
      → Walk graph source u d
      → IsEdge graph u e
      → Walk graph source e.to (d + e.cost)

-- A walk whose first edge leads to the third argument.
pub data WalkVia (graph : Graph) (source : NodeId) : NodeId → NodeId → ℕ → Type 0 where
  first : (e : Edge) → IsEdge graph source e → WalkVia graph source e.to e.to (0 + e.cost)
  further :
      (h u : NodeId) (d : ℕ) (e : Edge)
      → WalkVia graph source h u d
      → IsEdge graph u e
      → WalkVia graph source h e.to (d + e.cost)

-- No walk to the node costs less.
abbrev pub Least : Graph → NodeId → NodeId → ℕ → Type 0
Least graph source v d = (c : ℕ) → Walk graph source v c → d ≤ c

-- What holds of all edges that a graph lists holds of each edge of a node.
pub IsEdge-All :
    (P : Edge → Type 0) (graph : Graph) (u : NodeId) (e : Edge)
    → All (λ (n : NodeId × List Edge). All P n.1) graph
    → IsEdge graph u e
    → P e
unfolding edges_of map_get
IsEdge-All P [] u e all no_place = absurd no_place
IsEdge-All P ((n, es) ∷ rest) u e all edge = elim (Bool-cases (same_bytes n u)) [
  | inl same ↦
      let here : edges_of ((n, es) ∷ rest) u ≡ es = ground arith in
      All-IsIn P e es all.0 (subst (IsIn e) here edge)
  | inr other ↦
      let later : edges_of ((n, es) ∷ rest) u ≡ edges_of rest u = ground arith in
      IsEdge-All P rest u e all.1 (subst (IsIn e) later edge)
]

-- All edges lead to nodes of the graph.
abbrev pub IsClosed : Graph → Type 0
IsClosed graph = (u : NodeId) (e : Edge) → IsEdge graph u e → has_node graph e.to ≡ true

-- No edge costs more than `most`, and least costs with two such edges are no more than an
-- `unsigned int` holds.
pub record IsSmall (graph : Graph) (source : NodeId) (most : ℕ) : Type 0 where
  pub edges : (u : NodeId) (e : Edge) → IsEdge graph u e → e.cost ≤ most
  pub walks :
      (u : NodeId) (d : ℕ)
      → Walk graph source u d
      → Least graph source u d
      → d + most + most < dist_max

pub WalkVia-Walk :
    (graph : Graph) (source h v : NodeId) (d : ℕ)
    → WalkVia graph source h v d
    → Walk graph source v d
WalkVia-Walk graph source h v d (WalkVia.first e edge) = Walk.onward source 0 e Walk.stay edge
WalkVia-Walk graph source h v d (WalkVia.further k u c e w edge) =
    Walk.onward u c e (WalkVia-Walk graph source k u c w) edge

pub Walk-has_node :
    (graph : Graph) (source v : NodeId) (d : ℕ)
    → IsClosed graph
    → has_node graph source ≡ true
    → Walk graph source v d
    → has_node graph v ≡ true
Walk-has_node graph source v d closed here Walk.stay = here
Walk-has_node graph source v d closed here (Walk.onward u c e w edge) = closed u e edge
