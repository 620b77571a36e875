-- ===== src/Uipcp/Lfdb/Settling.antt =====
-- The closest node of the queue in user/uipcps/uipcp-normal-lfdb.cpp, when it was not settled before.
use rlite.Base.{
  ℕ, ◌≤◌, ◌≡◌, ◌≢◌, refl, sym, ap, subst, inl, inr, true, false, List, [], ◌∷◌, arith, Bool-cases,
  same_bytes-cases, true-false,
}
use rlite.Uipcp.Lfdb.{NodeId, Graph, DijkstraInfo, Infos, PqInfo, edges_of, info_of}
use rlite.Uipcp.Lfdb.Maps.{has_node}
use rlite.Uipcp.Lfdb.Walks.{IsEdge, WalkVia, IsClosed, WalkVia-Walk}
use rlite.Uipcp.Lfdb.Queue.{Sorted-IsIn}
use rlite.Uipcp.Lfdb.Settled.{Found, known, IsSettled, IsSearch, Walk-bound}
use rlite.Uipcp.Lfdb.Popping.{
  taken, settle, taken-node, taken-other, still_waiting, still-IsSettled,
}

module _ (graph : Graph) (source : NodeId) (most : ℕ) (closed : IsClosed graph)
    (here : has_node graph source ≡ true) (g : Found) (d : ℕ) (closer : NodeId) (info : Infos)
    (x : PqInfo) (frontier : List PqInfo)
    (s : IsSearch graph source most g d closer [] info (x ∷ frontier))
    (open_ : g.settled x.node ≡ false) where
  -- The first entry of a node that is not settled has its distance.
  first_labelled :
      ((info_of info x.node).dist ≡ x.dist)
      × WalkVia graph source (info_of info x.node).nhop x.node (info_of info x.node).dist
  first_labelled =
      let low = s.below x (inl refl) open_ in
      let room = s.small x (inl refl) in
      elim (s.waiting x.node (s.inside x (inl refl)) open_) [
        | inl unknown ↦ absurd (omega (arith, unknown))
        | inr l ↦
            let first =
              Sorted-IsIn x.dist (record { node = x.node; dist = (info_of info x.node).dist })
                (x ∷ frontier) (omega arith, s.order.1) l.queued in
            (omega arith, l.via)
      ]

  settled_before :
      (v : NodeId) → (settle x g).settled v ≡ false → (x.node ≢ v) × (g.settled v ≡ false)
  settled_before v other = elim (same_bytes-cases v x.node) [
    | inl (same, this) ↦ absurd (true-false (ground arith))
    | inr (differ, apart) ↦ (λ e. apart (sym e), ground arith)
  ]

  known-settle : (v : NodeId) → known (settle x g) (taken x info) v ≤ known g info v
  known-settle v = elim (same_bytes-cases v x.node) [
    | inl (same, this) ↦
        let is : known (settle x g) (taken x info) v ≡ x.dist = ground arith in
        let was : known g info x.node ≡ (info_of info x.node).dist = ground (arith, open_) in
        omega (arith, is, was, first_labelled.0, ap (known g info) this)
    | inr (differ, apart) ↦
        let dist = ap DijkstraInfo.dist (taken-other x info v (λ e. apart (sym e))) in
        elim (Bool-cases (g.settled v)) [
          | inl found ↦
              let is : known (settle x g) (taken x info) v ≡ g.best v = ground (arith, found) in
              let was : known g info v ≡ g.best v = ground (arith, found) in omega (arith, is, was)
          | inr other ↦
              let is : known (settle x g) (taken x info) v ≡ (info_of (taken x info) v).dist =
                ground (arith, other) in
              let was : known g info v ≡ (info_of info v).dist = ground (arith, other) in
              omega (arith, is, was, dist)
        ]
  ]

  newly-IsSettled : IsSettled graph source (taken x info) x.dist x.dist x.node
  newly-IsSettled =
      let now = taken-node x info in
      let (same, via) = first_labelled in
      let w = subst (WalkVia graph source (info_of info x.node).nhop x.node) same via in
      record {
        low = omega (arith, ap DijkstraInfo.dist now);
        high = omega (arith, ap DijkstraInfo.dist now);
        walk = WalkVia-Walk graph source (info_of info x.node).nhop x.node x.dist w;
        least = λ c walk.
            Walk-bound graph source most closed here g d closer info x frontier s x.node c walk
              open_;
        via =
            inr (
              subst (λ h. WalkVia graph source h x.node x.dist) (sym (ap DijkstraInfo.nhop now)) w);
      }

  pub pop-fresh :
      IsSearch graph source most
        (settle x g)
        x.dist
        x.node
        (edges_of graph x.node)
        (taken x info)
        frontier
  pop-fresh = record {
    started = ground (arith, s.started);
    order = s.order.1;
    bound = s.small x (inl refl);
    found = λ v found. elim (same_bytes-cases v x.node) [
      | inl (same, this) ↦
          let best : x.dist ≡ (settle x g).best v = ground arith in
          subst (λ b. IsSettled graph source (taken x info) x.dist b v) best
            (subst (IsSettled graph source (taken x info) x.dist x.dist) (sym this) newly-IsSettled)
      | inr (differ, apart) ↦
          let before : g.settled v ≡ true = ground arith in
          let best : g.best v ≡ (settle x g).best v = ground arith in
          subst (λ b. IsSettled graph source (taken x info) x.dist b v) best
            (still-IsSettled graph source most g d closer info x frontier s v (λ e. apart (sym e))
              (s.found v before))
    ];
    relaxed = λ u e found edge. elim (same_bytes-cases u x.node) [
      | inl (same, this) ↦ inl (this, subst (λ v. IsEdge graph v e) this edge)
      | inr (differ, apart) ↦
          let before : g.settled u ≡ true = ground arith in
          let best : (settle x g).best u ≡ g.best u = ground arith in
          elim (s.relaxed u e before edge) [
            | inl (same, no_place) ↦ absurd no_place
            | inr low ↦ inr (omega (arith, low, best, known-settle e.to))
          ]
    ];
    waiting = λ v inside other.
        let (apart, before) = settled_before v other in
        still_waiting graph source most g d closer info x frontier s v apart
          (s.waiting v inside before);
    small = λ y there. s.small y (inr there);
    inside = λ y there. s.inside y (inr there);
    below = λ y there other.
        let (apart, before) = settled_before y.node other in
        omega (
          arith,
          s.below y (inr there) before,
          ap DijkstraInfo.dist (taken-other x info y.node apart),
        );
  }
