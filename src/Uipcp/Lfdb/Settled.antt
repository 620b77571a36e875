-- ===== src/Uipcp/Lfdb/Settled.antt =====
-- The state of a search for shortest paths in user/uipcps/uipcp-normal-lfdb.cpp: the nodes whose
-- least cost is found, and those that wait in the queue.
use rlite.Base.{
  ℕ, ◌+◌, ◌≤◌, ◌<◌, ◌≡◌, ◌⊎◌, refl, sym, ◌∙◌, inl, inr, Bool, true, false, List, [], ◌∷◌, arith,
  IsIn, if◌then◌else◌, Bool-cases, true-false,
}
use rlite.Uipcp.Lfdb.{NodeId, Edge, Graph, Infos, PqInfo, info_of, dist_max}
use rlite.Uipcp.Lfdb.Maps.{has_node}
use rlite.Uipcp.Lfdb.Walks.{IsEdge, Walk, WalkVia, Least, IsClosed, IsSmall}
use rlite.Uipcp.Lfdb.Queue.{Sorted, Sorted-IsIn}

-- The nodes whose least cost is found, with this cost.
pub record Found : Type 0 where
  pub settled : NodeId → Bool
  pub best : NodeId → ℕ

-- The least cost that is known so far.
abbrev pub known : Found → Infos → NodeId → ℕ
known g info v = if g.settled v then g.best v else (info_of info v).dist

-- A node with a distance waits in the queue.
pub record IsLabelled (graph : Graph) (source : NodeId) (info : Infos) (frontier : List PqInfo)
    (v : NodeId) : Type 0 where
  pub queued : IsIn (record { node = v; dist = (info_of info v).dist }) frontier
  pub via : WalkVia graph source (info_of info v).nhop v (info_of info v).dist

-- What is known of a node whose least cost is found: the distance is between this cost and that of
-- the last entry that was taken from the queue.
pub record IsSettled (graph : Graph) (source : NodeId) (info : Infos) (d best : ℕ) (v : NodeId)
    : Type 0 where
  pub low : best ≤ (info_of info v).dist
  pub high : (info_of info v).dist ≤ d
  pub walk : Walk graph source v best
  pub least : Least graph source v best
  pub via : (v ≡ source) ⊎ WalkVia graph source (info_of info v).nhop v best

-- The state of the loop, when the last entry taken had the distance `d`, and the edges `pending` of
-- the node `closer` are not relaxed yet.
pub record IsSearch (graph : Graph) (source : NodeId) (most : ℕ) (g : Found) (d : ℕ)
    (closer : NodeId) (pending : List Edge) (info : Infos) (frontier : List PqInfo) : Type 0 where
  pub started : g.settled source ≡ true
  pub order : Sorted d frontier
  pub bound : d + most < dist_max
  pub found : (v : NodeId) → g.settled v ≡ true → IsSettled graph source info d (g.best v) v
  pub relaxed :
      (u : NodeId) (e : Edge)
      → g.settled u ≡ true
      → IsEdge graph u e
      → ((u ≡ closer) × IsIn e pending) ⊎ (known g info e.to ≤ g.best u + e.cost)
  pub waiting :
      (v : NodeId)
      → has_node graph v ≡ true
      → g.settled v ≡ false
      → ((info_of info v).dist ≡ dist_max) ⊎ IsLabelled graph source info frontier v
  pub small : (x : PqInfo) → IsIn x frontier → x.dist + most < dist_max
  pub inside : (x : PqInfo) → IsIn x frontier → has_node graph x.node ≡ true
  pub below :
      (x : PqInfo)
      → IsIn x frontier
      → g.settled x.node ≡ false
      → (info_of info x.node).dist ≤ x.dist

module _ (graph : Graph) (source : NodeId) (most : ℕ) (closed : IsClosed graph)
    (here : has_node graph source ≡ true) where
  -- A walk to a node that is not settled costs no less than the first entry of the queue.
  pub Walk-bound :
      (g : Found) (d : ℕ) (closer : NodeId) (info : Infos) (x : PqInfo) (frontier : List PqInfo)
      → IsSearch graph source most g d closer [] info (x ∷ frontier)
      → (v : NodeId) (c : ℕ) → Walk graph source v c
      → g.settled v ≡ false
      → x.dist ≤ c
  Walk-bound g d closer info x frontier s v c Walk.stay open_ =
      absurd (true-false (sym s.started ∙ open_))
  Walk-bound g d closer info x frontier s v c (Walk.onward u b e w edge) open_ =
      elim (Bool-cases (g.settled u)) [
        | inr outside ↦
            let before = Walk-bound g d closer info x frontier s u b w outside in omega arith
        | inl settled ↦ elim (s.relaxed u e settled edge) [
          | inl (same, no_place) ↦ absurd no_place
          | inr low ↦
              let least = (s.found u settled).least b w in
              let dist : known g info e.to ≡ (info_of info e.to).dist = ground (arith, open_) in
              elim (s.waiting e.to (closed u e edge) open_) [
                | inl unknown ↦ let first = s.small x (inl refl) in omega (arith, dist, unknown)
                | inr labelled ↦
                    let first =
                      Sorted-IsIn x.dist (record { node = e.to; dist = (info_of info e.to).dist })
                        (x ∷ frontier) (omega arith, s.order.1) labelled.queued in
                    omega (arith, dist, first)
              ]
        ]
      ]

  -- When the queue is empty, every node that a walk leads to is settled.
  pub all_settled :
      (g : Found) (d : ℕ) (closer : NodeId) (info : Infos)
      → IsSmall graph source most
      → IsSearch graph source most g d closer [] info []
      → (v : NodeId) (c : ℕ) → Walk graph source v c
      → g.settled v ≡ true
  all_settled g d closer info few s v c Walk.stay = s.started
  all_settled g d closer info few s v c (Walk.onward u b e w edge) =
      elim (Bool-cases (g.settled e.to)) [
        | inl settled ↦ settled
        | inr outside ↦
            let before = all_settled g d closer info few s u b w in
            elim (s.relaxed u e before edge) [
              | inl (same, no_place) ↦ absurd no_place
              | inr low ↦
                  let f = s.found u before in
                  let room = few.walks u (g.best u) f.walk f.least in
                  let cost = few.edges u e edge in
                  let dist : known g info e.to ≡ (info_of info e.to).dist =
                    ground (arith, outside) in
                  elim (s.waiting e.to (closed u e edge) outside) [
                    | inl unknown ↦ absurd (omega (arith, dist, unknown))
                    | inr labelled ↦ absurd labelled.queued
                  ]
            ]
      ]
