-- ===== src/Uipcp/Hops/Table.antt =====
-- `compute_next_hops` of user/uipcps/uipcp-normal-lfdb.cpp as a whole: the routing table is made, and its
-- first hops begin walks of least cost.
use rlite.Base.{
  ℕ, suc, ◌+◌, ◌%◌, ◌^◌, ◌≤◌, ◌≡◌, ◌≢◌, refl, sym, subst, inl, inr, Bool, true, false, not, ◌&&◌,
  Option, some, List, [], ◌∷◌, arith, IsIn, All, Bool-cases, same_bytes, same_bytes-cases, ltb,
  ◌==◌,
}
use rlite.Uipcp.Lfdb.{
  NodeId, Edge, DijkstraInfo, Graph, Infos, dist_max, map_find, map_set, map_get, edges_of, info_of,
  size_of, init_info, compute_shortest_paths,
}
use rlite.Uipcp.Lfdb.Maps.{has_node}
use rlite.Uipcp.Lfdb.Walks.{IsEdge, Walk, WalkVia, IsClosed, IsSmall, Walk-has_node}
use rlite.Uipcp.Lfdb.Paths.{compute_shortest_paths-Ends, compute_shortest_paths-Reaches}
use rlite.Uipcp.Lfdb.NextHops.{
  FlowDb, NextHops, build_graph, push_hop, fill_next_hops, neighbor_infos, has_hop, add_alternates,
  alternates_for, compute_next_hops,
}
use rlite.Uipcp.Hops.Graphs.{build_graph-IsWhole}
use rlite.Uipcp.Hops.Filling.{
  StartsWith, init-IsPresent, search-IsPresent, push-StartsWith, fill-first,
}

module _ (h w local_node : NodeId) (info : Infos) where
  add_alternates-StartsWith :
      (v : NodeId) (neighs : List (NodeId × Infos)) (nh : NextHops)
      → StartsWith h w nh
      → StartsWith h w (add_alternates local_node info v neighs nh)
  unfolding add_alternates
  add_alternates-StartsWith v [] nh start = start
  add_alternates-StartsWith v ((u, neigh) ∷ rest) nh start =
      let bound = ((info_of neigh local_node).dist + (info_of info v).dist) % 2 ^ 32 in
      let takes =
        not (same_bytes u v)
        && ltb (info_of neigh v).dist bound
        && not (has_hop u (map_get [] v nh)) in
      elim (Bool-cases takes) [
        | inl taken ↦
            let step : add_alternates local_node info v ((u, neigh) ∷ rest) nh
                ≡ add_alternates local_node info v rest (push_hop v u nh) =
              ground arith in
            subst (StartsWith h w) (sym step) (
              add_alternates-StartsWith v rest (push_hop v u nh) (push-StartsWith h w v u nh start))
        | inr left ↦
            let step : add_alternates local_node info v ((u, neigh) ∷ rest) nh
                ≡ add_alternates local_node info v rest nh =
              ground arith in
            subst (StartsWith h w) (sym step) (add_alternates-StartsWith v rest nh start)
      ]

  alternates_for-StartsWith :
      (neighs : List (NodeId × Infos)) (graph : Graph) (nh : NextHops)
      → StartsWith h w nh
      → StartsWith h w (alternates_for local_node info neighs graph nh)
  unfolding alternates_for
  alternates_for-StartsWith neighs [] nh start = start
  alternates_for-StartsWith neighs ((v, es) ∷ rest) nh start =
      elim (Bool-cases (same_bytes v local_node)) [
        | inl same ↦
            let step : alternates_for local_node info neighs ((v, es) ∷ rest) nh
                ≡ alternates_for local_node info neighs rest nh =
              ground arith in
            subst (StartsWith h w) (sym step) (alternates_for-StartsWith neighs rest nh start)
        | inr other ↦
            let step : alternates_for local_node info neighs ((v, es) ∷ rest) nh
                ≡ alternates_for local_node info neighs rest
                    (add_alternates local_node info v neighs nh) =
              ground arith in
            subst (StartsWith h w) (sym step) (
              alternates_for-StartsWith neighs rest (add_alternates local_node info v neighs nh)
                (add_alternates-StartsWith v neighs nh start))
      ]

-- The searches from the neighbors end.
neighbor_infos-some :
    (graph : Graph) (most : ℕ) (es : List Edge) (ni : List (NodeId × Infos))
    → IsClosed graph
    → All (λ (e : Edge). (has_node graph e.to ≡ true) × IsSmall graph e.to most) es
    → (result : List (NodeId × Infos)) × (neighbor_infos graph es ni ≡ some result)
unfolding neighbor_infos
neighbor_infos-some graph most [] ni closed all = (ni, refl)
neighbor_infos-some graph most (e ∷ es) ni closed ((here, small), all) =
    let ends = compute_shortest_paths-Ends graph e.to most closed small here in
    let search = ends.ends in
    let (result, made) = neighbor_infos-some graph most es (map_set e.to ends.info ni) closed all in
    (result, ground arith)

info_of-found :
    (v : NodeId) (inf : DijkstraInfo) (info : Infos)
    → map_find v info ≡ some inf
    → info_of info v ≡ inf
unfolding info_of map_find map_get
info_of-found v inf [] found = absurd (ground (arith, found))
info_of-found v inf ((n, i) ∷ rest) found = elim (Bool-cases (same_bytes n v)) [
  | inl same ↦ ground arith
  | inr other ↦ ground (arith, info_of-found v inf rest (ground arith))
]

-- A routing table, and the first hop to a node in it.
pub record RoutesTo (graph : Graph) (local_node v : NodeId) (c : ℕ) (result : Option NextHops)
    : Type 0 where
  pub next_hops : NextHops
  pub made : result ≡ some next_hops
  pub hop : NodeId
  pub first : StartsWith hop v next_hops
  pub best : ℕ
  pub via : WalkVia graph local_node hop v best
  pub least : best ≤ c

all-edges : (P : Edge → Type 0) (es : List Edge) → ((e : Edge) → IsIn e es → P e) → All P es
all-edges P [] h = tt
all-edges P (e ∷ es) h = (h e (inl refl), all-edges P es (λ f inside. h f (inr inside)))

-- On the graph that is built from a database, no edge costs more than a bound, and least costs from
-- the local node and from its neighbors with two more such edges stay below the greatest unsigned
-- int. Then `compute_next_hops` makes a routing table within the fuel of its searches, with loop
-- free alternates or without. For any node other than the local one, and any walk to it, the first
-- of its next hops in the table begins a walk to it that costs no more.
pub compute_next_hops-RoutesTo :
    (lfa_enabled : Bool) (db : FlowDb) (local_node v : NodeId) (most c : ℕ)
    → IsSmall (build_graph local_node db) local_node most
    → ((e : Edge)
        → IsEdge (build_graph local_node db) local_node e
        → IsSmall (build_graph local_node db) e.to most)
    → v ≢ local_node
    → Walk (build_graph local_node db) local_node v c
    → RoutesTo
        (build_graph local_node db)
        local_node
        v
        c
        (compute_next_hops lfa_enabled db local_node)
unfolding compute_next_hops compute_shortest_paths map_get
compute_next_hops-RoutesTo lfa_enabled db local_node v most c small smalls apart walk =
    let graph = build_graph local_node db in
    let whole = build_graph-IsWhole local_node db in
    let r =
      compute_shortest_paths-Reaches graph local_node most v c whole.closed small whole.here apart
        walk in
    let ends = r.ends in
    let remote : same_bytes v local_node ≡ false = elim (same_bytes-cases v local_node) [
      | inl (same, this) ↦ absurd (apart this)
      | inr (differ, e) ↦ differ
    ] in
    let inside = Walk-has_node graph local_node v c whole.closed whole.here walk in
    let (inf, found) =
      search-IsPresent v (suc (size_of graph)) local_node graph (init_info graph)
        (record { node = local_node; dist = 0 } ∷ []) r.info ends (init-IsPresent v graph inside) in
    let same : info_of r.info v ≡ inf = info_of-found v inf r.info found in
    let below = r.known in
    let known : (inf.dist == dist_max) ≡ false =
      subst (λ (x : DijkstraInfo). (x.dist == dist_max) ≡ false) same (ground (arith, below)) in
    let nh = fill_next_hops local_node r.info [] in
    let start : StartsWith (info_of r.info v).nhop v nh =
      subst (λ (x : DijkstraInfo). StartsWith x.nhop v nh) (sym same)
        (fill-first v local_node r.info [] inf found remote known refl) in
    let (ni, searched) =
      neighbor_infos-some graph most (edges_of graph local_node) [] whole.closed (
        all-edges (λ (e : Edge). (has_node graph e.to ≡ true) × IsSmall graph e.to most)
          (edges_of graph local_node)
          (λ e edge. (whole.closed local_node e edge, smalls e edge))) in
    elim (Bool-cases lfa_enabled) [
      | inr plain ↦ record {
        next_hops = nh;
        made = ground arith;
        hop = (info_of r.info v).nhop;
        first = start;
        best = r.best;
        via = r.via;
        least = r.least;
      }
      | inl with_lfa ↦ record {
        next_hops = alternates_for local_node r.info ni graph nh;
        made = ground arith;
        hop = (info_of r.info v).nhop;
        first =
            alternates_for-StartsWith (info_of r.info v).nhop v local_node r.info ni graph nh start;
        best = r.best;
        via = r.via;
        least = r.least;
      }
    ]
