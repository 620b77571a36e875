-- ===== src/Uipcp/Lfdb/Paths.antt =====
-- The search of user/uipcps/uipcp-normal-lfdb.cpp as a whole: it ends, and its next hops begin walks of
-- least cost.
use rlite.Base.{
  ℕ, zero, suc, ◌+◌, ◌≤◌, ◌<◌, ◌≡◌, ◌≢◌, refl, sym, ap, ◌∙◌, subst, inl, inr, true, false, List, [],
  ◌∷◌, arith, IsIn, All, if◌then◌else◌, Bool-cases, same_bytes-cases, same_bytes_refl, true-false,
  length, Option, some,
}
use rlite.Uipcp.Lfdb.{
  NodeId, Edge, Graph, DijkstraInfo, Infos, PqInfo, edges_of, info_of, dist_max, map_get, relax,
  search_paths, size_of, init_info, compute_shortest_paths,
}
use rlite.Uipcp.Lfdb.Maps.{has_node, info_of-init}
use rlite.Uipcp.Lfdb.Walks.{IsEdge, Walk, WalkVia, Least, IsClosed, IsSmall}
use rlite.Uipcp.Lfdb.Settled.{Found, IsSettled, IsSearch, all_settled}
use rlite.Uipcp.Lfdb.Relaxing.{relax-stale}
use rlite.Uipcp.Lfdb.Rounds.{relax-Relaxes}
use rlite.Uipcp.Lfdb.Popping.{taken, settle, taken-node, taken-other, pop-stale}
use rlite.Uipcp.Lfdb.Settling.{pop-fresh}

-- The edges of the nodes that are not settled.
unfoldable open_edges : Found → Graph → ℕ
open_edges g [] = 0
open_edges g ((n, es) ∷ rest) = (if g.settled n then 0 else length es) + open_edges g rest

open_edges-less :
    (x : PqInfo) (g : Found) (graph : Graph) → open_edges (settle x g) graph ≤ open_edges g graph
unfolding open_edges
open_edges-less x g [] = omega arith
open_edges-less x g ((n, es) ∷ rest) = ground (arith, open_edges-less x g rest)

open_edges-settle :
    (x : PqInfo) (g : Found) (graph : Graph)
    → g.settled x.node ≡ false
    → length (edges_of graph x.node) + open_edges (settle x g) graph ≤ open_edges g graph
unfolding open_edges edges_of map_get
open_edges-settle x g [] other = omega arith
open_edges-settle x g ((n, es) ∷ rest) other = elim (same_bytes-cases n x.node) [
  | inl (same, this) ↦
      let before : g.settled n ≡ false = ap g.settled this ∙ other in
      let less = open_edges-less x g rest in ground arith
  | inr (differ, apart) ↦ let later = open_edges-settle x g rest other in ground arith
]

all-IsIn : (es : List Edge) → All (λ e. IsIn e es) es
all-IsIn [] = tt
all-IsIn (e ∷ es) = (inl refl, more e es es (all-IsIn es))
  where
    more : (e : Edge) (fs es : List Edge) → All (λ f. IsIn f es) fs → All (λ f. IsIn f (e ∷ es)) fs
    more e [] es h = tt
    more e (f ∷ fs) es h = (inr h.0, more e fs es h.1)

-- The end of a search.
pub record Ends (graph : Graph) (source : NodeId) (most : ℕ) (result : Option Infos) : Type 0 where
  pub info : Infos
  pub ends : result ≡ some info
  pub g : Found
  pub d : ℕ
  pub closer : NodeId
  pub search : IsSearch graph source most g d closer [] info []

module _ (graph : Graph) (source : NodeId) (most : ℕ) (closed : IsClosed graph)
    (few : IsSmall graph source most) (here : has_node graph source ≡ true) where
  -- A round for each entry of the queue, and for each edge that may still put one there, is enough.
  search_paths-Ends :
      (fuel : ℕ) (g : Found) (d : ℕ) (closer : NodeId) (info : Infos) (frontier : List PqInfo)
      → IsSearch graph source most g d closer [] info frontier
      → length frontier + open_edges g graph ≤ fuel
      → Ends graph source most (search_paths fuel source graph info frontier)
  unfolding search_paths
  search_paths-Ends fuel g d closer info [] s enough = record {
    info = info;
    ends = refl;
    g = g;
    d = d;
    closer = closer;
    search = s;
  }
  search_paths-Ends zero g d closer info (x ∷ frontier) s enough = absurd (omega arith)
  search_paths-Ends (suc fuel) g d closer info (x ∷ frontier) s enough =
      let room = s.small x (inl refl) in
      let edges = all-IsIn (edges_of graph x.node) in
      let r = relax source x.node (edges_of graph x.node) (taken x info) frontier in
      let step : search_paths (suc fuel) source graph info (x ∷ frontier)
          ≡ search_paths fuel source graph r.0 r.1 =
        ground arith in
      subst (Ends graph source most) (sym step) (elim (Bool-cases (g.settled x.node)) [
        | inl settled ↦
            let t = pop-stale graph source most g d closer info x frontier s settled in
            let dist = ap DijkstraInfo.dist (taken-node x info) in
            let same =
              relax-stale graph source most closed few g x.dist x.node (edges_of graph x.node)
                (taken x info) frontier t settled dist edges in
            subst
              (λ (y : Infos × List PqInfo).
                Ends graph source most (search_paths fuel source graph y.0 y.1))
              (sym same)
              (search_paths-Ends fuel g x.dist x.node (taken x info) frontier t (omega arith))
        | inr open_ ↦
            let t = pop-fresh graph source most closed here g d closer info x frontier s open_ in
            let settled : (settle x g).settled x.node ≡ true =
              ground (arith, same_bytes_refl x.node) in
            let best : (settle x g).best x.node ≡ x.dist = ground (arith, same_bytes_refl x.node) in
            let u =
              relax-Relaxes graph source most closed few (settle x g) x.dist x.node
                (edges_of graph x.node) (taken x info) frontier t settled best edges in
            let fewer = open_edges-settle x g graph open_ in
            search_paths-Ends fuel (settle x g) x.dist x.node r.0 r.1 u.search
              (omega (arith, u.few, fewer))
      ])

  abbrev no_found : Found
  no_found = record { settled = λ v. false; best = λ v. 0 }

  open_edges-all : (gr : Graph) → open_edges no_found gr ≡ size_of gr
  unfolding open_edges size_of
  open_edges-all [] = refl
  open_edges-all ((n, es) ∷ rest) = omega (arith, open_edges-all rest)

  abbrev start : PqInfo
  start = record { node = source; dist = 0 }

  -- The state after the source was taken from the queue.
  start-IsSearch :
      IsSearch graph source most
        (settle start no_found)
        0
        source
        (edges_of graph source)
        (taken start (init_info graph))
        []
  start-IsSearch =
      let least : Least graph source source 0 = λ c w. omega arith in
      let room = few.walks source 0 Walk.stay least in
      let now = ap DijkstraInfo.dist (taken-node start (init_info graph)) in
      record {
        started = ground (arith, same_bytes_refl source);
        order = tt;
        bound = omega arith;
        found = λ v found.
            let this : v ≡ source = elim (same_bytes-cases v source) [
              | inl (same, e) ↦ e
              | inr (differ, apart) ↦ absurd (true-false (sym found ∙ ground arith))
            ] in
            let best : (settle start no_found).best v ≡ 0 = ground arith in
            subst (λ b. IsSettled graph source (taken start (init_info graph)) 0 b v) (sym best)
              (subst (IsSettled graph source (taken start (init_info graph)) 0 0) (sym this)
                (record {
                  low = omega arith;
                  high = omega (arith, now);
                  walk = Walk.stay;
                  least = least;
                  via = inl refl;
                }));
        relaxed = λ u e found edge. elim (same_bytes-cases u source) [
          | inl (same, this) ↦ inl (this, subst (λ v. IsEdge graph v e) this edge)
          | inr (differ, apart) ↦ absurd (true-false (sym found ∙ ground arith))
        ];
        waiting = λ v inside other. elim (same_bytes-cases v source) [
          | inl (same, this) ↦ absurd (true-false (ground arith))
          | inr (differ, apart) ↦ inl (
              ap DijkstraInfo.dist (taken-other start (init_info graph) v (λ e. apart (sym e)))
              ∙ info_of-init graph v inside)
        ];
        small = λ x no_place. absurd no_place;
        inside = λ x no_place. absurd no_place;
        below = λ x no_place other. absurd no_place;
      }

  pub compute_shortest_paths-Ends : Ends graph source most (compute_shortest_paths source graph)
  unfolding compute_shortest_paths search_paths
  compute_shortest_paths-Ends =
      let info = taken start (init_info graph) in
      let g = settle start no_found in
      let settled : g.settled source ≡ true = ground (arith, same_bytes_refl source) in
      let best : g.best source ≡ 0 = ground (arith, same_bytes_refl source) in
      let edges = all-IsIn (edges_of graph source) in
      let r = relax source source (edges_of graph source) info [] in
      let u =
        relax-Relaxes graph source most closed few g 0 source (edges_of graph source) info []
          start-IsSearch settled best edges in
      let fewer = open_edges-settle start no_found graph refl in
      let all = open_edges-all graph in
      let step : compute_shortest_paths source graph
          ≡ search_paths (size_of graph) source graph r.0 r.1 =
        ground arith in
      subst (Ends graph source most) (sym step) (
        search_paths-Ends (size_of graph) g 0 source r.0 r.1 u.search
          (omega (arith, u.few, fewer, all)))

-- A next hop to a node, and the cost of a walk over it.
pub record Reaches (graph : Graph) (source v : NodeId) (c : ℕ) (result : Option Infos)
    : Type 0 where
  pub info : Infos
  pub ends : result ≡ some info
  pub best : ℕ
  pub via : WalkVia graph source (info_of info v).nhop v best
  pub least : best ≤ c
  pub dist : best ≤ (info_of info v).dist
  pub known : (info_of info v).dist < dist_max

-- On a graph that has the source and all nodes that edges lead to, where no edge costs more than a
-- bound and least costs and two more such edges stay below the greatest unsigned int: the search
-- ends within its fuel. For any node other than the source, and any walk from the source to it, the
-- node has a distance, and its next hop begins a walk to it that costs no more than the given one,
-- and no more than the distance.
pub compute_shortest_paths-Reaches :
    (graph : Graph) (source : NodeId) (most : ℕ) (v : NodeId) (c : ℕ)
    → IsClosed graph
    → IsSmall graph source most
    → has_node graph source ≡ true
    → v ≢ source
    → Walk graph source v c
    → Reaches graph source v c (compute_shortest_paths source graph)
compute_shortest_paths-Reaches graph source most v c closed few here apart walk =
    let e = compute_shortest_paths-Ends graph source most closed few here in
    let settled =
      all_settled graph source most closed here e.g e.d e.closer e.info few e.search v c walk in
    let f = e.search.found v settled in
    record {
      info = e.info;
      ends = e.ends;
      best = e.g.best v;
      via = elim f.via [ inl is_source ↦ absurd (apart is_source) | inr w ↦ w ];
      least = f.least c walk;
      dist = f.low;
      known = omega (arith, f.high, e.search.bound);
    }
