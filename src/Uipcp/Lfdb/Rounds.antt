-- ===== src/Uipcp/Lfdb/Rounds.antt =====
-- One round of the search of user/uipcps/uipcp-normal-lfdb.cpp: all edges of the closest node.
use rlite.Base.{
  ℕ, ◌+◌, ◌%◌, ◌^◌, ◌≤◌, ◌≡◌, sym, ap, subst, inl, inr, true, List, [], ◌∷◌, arith, All,
  if◌then◌else◌, same_bytes, same_bytes-cases, length,
}
use native.Mathlib.Decide.{dec_lt}
use rlite.Uipcp.Lfdb.{NodeId, Edge, Graph, Infos, PqInfo, info_of, map_set, relax, pq_push}
use rlite.Uipcp.Lfdb.Walks.{IsEdge, Walk, WalkVia, IsClosed, IsSmall}
use rlite.Uipcp.Lfdb.Queue.{length-pq_push}
use rlite.Uipcp.Lfdb.Settled.{Found, IsSearch}
use rlite.Uipcp.Lfdb.Relaxing.{relax-worse}
use rlite.Uipcp.Lfdb.Improving.{relax-better}

-- What a round leaves: the state of the search with no edge pending, and no more entries than edges.
pub record Relaxes (graph : Graph) (source : NodeId) (most : ℕ) (g : Found) (d : ℕ)
    (closer : NodeId) (es : List Edge) (frontier : List PqInfo) (r : Infos × List PqInfo)
    : Type 0 where
  pub search : IsSearch graph source most g d closer [] r.0 r.1
  pub few : length r.1 ≤ length frontier + length es

module _ (graph : Graph) (source : NodeId) (most : ℕ) (closed : IsClosed graph)
    (few : IsSmall graph source most) where
  -- The next hop that an edge of the closest node gets makes a walk.
  next_hop-WalkVia :
      (g : Found) (d : ℕ) (closer : NodeId) (e : Edge) (es : List Edge) (info : Infos)
      (frontier : List PqInfo)
      → IsSearch graph source most g d closer (e ∷ es) info frontier
      → g.settled closer ≡ true
      → g.best closer ≡ d
      → IsEdge graph closer e
      → WalkVia graph source
          (if same_bytes closer source then e.to else (info_of info closer).nhop)
          e.to
          (d + e.cost)
  next_hop-WalkVia g d closer e es info frontier s settled best edge =
      let f = s.found closer settled in
      elim (same_bytes-cases closer source) [
        | inl (same, is_source) ↦
            let none_before =
              f.least 0 (subst (λ v. Walk graph source v 0) (sym is_source) Walk.stay) in
            let from : IsEdge graph source e = subst (λ v. IsEdge graph v e) is_source edge in
            let cost : 0 + e.cost ≡ d + e.cost = omega (arith, best) in
            let hop : e.to
                ≡ (if same_bytes closer source then e.to else (info_of info closer).nhop) =
              ground arith in
            subst (λ h. WalkVia graph source h e.to (d + e.cost)) hop
              (subst (WalkVia graph source e.to e.to) cost (WalkVia.first e from))
        | inr (other, apart) ↦ elim f.via [
          | inl is_source ↦ absurd (apart is_source)
          | inr w ↦
              let hop : (info_of info closer).nhop
                  ≡ (if same_bytes closer source then e.to else (info_of info closer).nhop) =
                ground arith in
              let cost : g.best closer + e.cost ≡ d + e.cost = ap (λ k. k + e.cost) best in
              subst (λ h. WalkVia graph source h e.to (d + e.cost)) hop
                (subst (WalkVia graph source (info_of info closer).nhop e.to) cost
                  (WalkVia.further (info_of info closer).nhop closer (g.best closer) e w edge))
        ]
      ]

  pub relax-Relaxes :
      (g : Found) (d : ℕ) (closer : NodeId) (es : List Edge) (info : Infos) (frontier : List PqInfo)
      → IsSearch graph source most g d closer es info frontier
      → g.settled closer ≡ true
      → g.best closer ≡ d
      → All (IsEdge graph closer) es
      → Relaxes graph source most g d closer es frontier (relax source closer es info frontier)
  unfolding relax
  relax-Relaxes g d closer [] info frontier s settled best edges = record {
    search = s;
    few = omega arith;
  }
  relax-Relaxes g d closer (e ∷ es) info frontier s settled best (edge, edges) =
      let f = s.found closer settled in
      let cost = few.edges closer e edge in
      let at : (info_of info closer).dist ≡ d = omega (arith, f.low, f.high, best) in
      let dist : ((info_of info closer).dist + e.cost) % 2 ^ 32 ≡ d + e.cost =
        omega (arith, s.bound) in
      let n = if same_bytes closer source then e.to else (info_of info closer).nhop in
      elim (dec_lt (d + e.cost) (info_of info e.to).dist) [
        | no worse ↦
            let t =
              relax-worse graph source most closed few g d closer e es info frontier s best
                (omega arith) in
            let step : relax source closer (e ∷ es) info frontier
                ≡ relax source closer es info frontier =
              ground (arith, dist) in
            let r = relax-Relaxes g d closer es info frontier t settled best edges in
            subst (Relaxes graph source most g d closer (e ∷ es) frontier) (sym step)
              (record { search = r.search; few = omega (arith, r.few) })
        | yes better ↦
            let via = next_hop-WalkVia g d closer e es info frontier s settled best edge in
            let t =
              relax-better graph source most closed few g d closer e es info frontier n s settled
                best edge better via in
            let info' = map_set e.to (record { dist = d + e.cost; nhop = n }) info in
            let frontier' = pq_push (record { node = e.to; dist = d + e.cost }) frontier in
            let step : relax source closer (e ∷ es) info frontier
                ≡ relax source closer es info' frontier' =
              ground (arith, dist) in
            let r = relax-Relaxes g d closer es info' frontier' t settled best edges in
            let longer = length-pq_push (record { node = e.to; dist = d + e.cost }) frontier in
            subst (Relaxes graph source most g d closer (e ∷ es) frontier) (sym step)
              (record { search = r.search; few = omega (arith, r.few, longer) })
      ]
