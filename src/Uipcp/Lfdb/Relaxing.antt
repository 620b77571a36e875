-- ===== src/Uipcp/Lfdb/Relaxing.antt =====
-- The relaxation rule of user/uipcps/uipcp-normal-lfdb.cpp keeps the state of the search.
use rlite.Base.{
  ℕ, ◌+◌, ◌%◌, ◌^◌, ◌≤◌, ◌≡◌, refl, ap, inl, inr, true, List, [], ◌∷◌, arith, All, Bool-cases,
}
use rlite.Uipcp.Lfdb.{NodeId, Edge, Graph, Infos, PqInfo, info_of, relax}
use rlite.Uipcp.Lfdb.Walks.{IsEdge, IsClosed, IsSmall}
use rlite.Uipcp.Lfdb.Settled.{Found, known, IsSearch}

module _ (graph : Graph) (source : NodeId) (most : ℕ) (closed : IsClosed graph)
    (few : IsSmall graph source most) where
  -- An entry that is out of date changes no distance.
  pub relax-stale :
      (g : Found) (d : ℕ) (closer : NodeId) (es : List Edge) (info : Infos) (frontier : List PqInfo)
      → IsSearch graph source most g d closer [] info frontier
      → g.settled closer ≡ true
      → (info_of info closer).dist ≡ d
      → All (IsEdge graph closer) es
      → relax source closer es info frontier ≡ (info, frontier)
  unfolding relax
  relax-stale g d closer [] info frontier s settled same edges = refl
  relax-stale g d closer (e ∷ es) info frontier s settled same (edge, edges) =
      let rest = relax-stale g d closer es info frontier s settled same edges in
      let f = s.found closer settled in
      let cost = few.edges closer e edge in
      let dist : ((info_of info closer).dist + e.cost) % 2 ^ 32 ≡ d + e.cost =
        omega (arith, s.bound) in
      let no_better : (info_of info e.to).dist ≤ d + e.cost = elim (Bool-cases (g.settled e.to)) [
        | inl found ↦ omega (arith, (s.found e.to found).high)
        | inr open_ ↦ elim (s.relaxed closer e settled edge) [
          | inl (this, no_place) ↦ absurd no_place
          | inr low ↦
              let is : known g info e.to ≡ (info_of info e.to).dist = ground (arith, open_) in
              omega (arith, low, is, f.low)
        ]
      ] in
      ground (arith, rest, dist, no_better)

  -- The edge does not better the distance of its node.
  pub relax-worse :
      (g : Found) (d : ℕ) (closer : NodeId) (e : Edge) (es : List Edge) (info : Infos)
      (frontier : List PqInfo)
      → IsSearch graph source most g d closer (e ∷ es) info frontier
      → g.best closer ≡ d
      → (info_of info e.to).dist ≤ d + e.cost
      → IsSearch graph source most g d closer es info frontier
  relax-worse g d closer e es info frontier s best worse = record {
    started = s.started;
    order = s.order;
    bound = s.bound;
    found = s.found;
    relaxed = λ u f settled edge. elim (s.relaxed u f settled edge) [
      | inr low ↦ inr low
      | inl (same, inr later) ↦ inl (same, later)
      | inl (same, inl this) ↦
          let target = ap Edge.to this in
          let cost = ap Edge.cost this in
          let at = ap g.best same in
          inr (elim (Bool-cases (g.settled e.to)) [
            | inl found ↦
                let low = (s.found e.to found).low in
                let is : known g info e.to ≡ g.best e.to = ground (arith, found) in
                let moved = ap (known g info) target in omega (arith, low, is, moved)
            | inr open_ ↦
                let is : known g info e.to ≡ (info_of info e.to).dist = ground (arith, open_) in
                let moved = ap (known g info) target in omega (arith, is, moved)
          ])
    ];
    waiting = s.waiting;
    small = s.small;
    inside = s.inside;
    below = s.below;
  }
