-- ===== src/Uipcp/Lfdb/Popping.antt =====
-- What taking the closest node from the queue does in user/uipcps/uipcp-normal-lfdb.cpp: the node is
-- settled, or its entry is out of date.
use rlite.Base.{
  ℕ, ◌≡◌, ◌≢◌, ◌⊎◌, refl, sym, ap, ◌∙◌, subst, inl, inr, true, false, List, [], ◌∷◌, arith, IsIn,
  if◌then◌else◌, Bool-cases, same_bytes, same_bytes-cases, true-false,
}
use rlite.Uipcp.Lfdb.{NodeId, Graph, DijkstraInfo, Infos, PqInfo, info_of, dist_max, map_set}
use rlite.Uipcp.Lfdb.Maps.{info_of-set_same, info_of-set_other}
use rlite.Uipcp.Lfdb.Walks.{WalkVia}
use rlite.Uipcp.Lfdb.Settled.{Found, known, IsLabelled, IsSettled, IsSearch}

-- The nodes' information with the distance of an entry that is taken.
abbrev pub taken : PqInfo → Infos → Infos
taken x info = map_set x.node (record (info_of info x.node) { dist = x.dist }) info

-- One more node is settled.
abbrev pub settle : PqInfo → Found → Found
settle x g = record {
  settled = λ v. if same_bytes v x.node then true else g.settled v;
  best = λ v. if same_bytes v x.node then x.dist else g.best v;
}

pub taken-node :
    (x : PqInfo) (info : Infos)
    → info_of (taken x info) x.node ≡ record (info_of info x.node) { dist = x.dist }
taken-node x info = info_of-set_same (record (info_of info x.node) { dist = x.dist }) x.node info

pub taken-other :
    (x : PqInfo) (info : Infos) (v : NodeId)
    → x.node ≢ v
    → info_of (taken x info) v ≡ info_of info v
taken-other x info v apart =
    info_of-set_other (record (info_of info x.node) { dist = x.dist }) x.node v info apart

module _ (graph : Graph) (source : NodeId) (most : ℕ) (g : Found) (d : ℕ) (closer : NodeId)
    (info : Infos) (x : PqInfo) (frontier : List PqInfo)
    (s : IsSearch graph source most g d closer [] info (x ∷ frontier)) where
  -- A node that is not settled stays in the queue, unless it is the one that is taken.
  pub still_waiting :
      (v : NodeId)
      → x.node ≢ v
      → ((info_of info v).dist ≡ dist_max) ⊎ IsLabelled graph source info (x ∷ frontier) v
      → ((info_of (taken x info) v).dist ≡ dist_max)
        ⊎ IsLabelled graph source (taken x info) frontier v
  still_waiting v apart (inl unknown) =
      inl (ap DijkstraInfo.dist (taken-other x info v apart) ∙ unknown)
  still_waiting v apart (inr l) =
      let same = sym (taken-other x info v apart) in
      let queued : IsIn (record { node = v; dist = (info_of info v).dist }) frontier =
        elim l.queued [ inl this ↦ absurd (apart (ap PqInfo.node this)) | inr there ↦ there ] in
      inr (record {
        queued =
            subst (λ (i : DijkstraInfo). IsIn (record { node = v; dist = i.dist }) frontier) same
              queued;
        via = subst (λ (i : DijkstraInfo). WalkVia graph source i.nhop v i.dist) same l.via;
      })

  -- A settled node other than the one that is taken.
  pub still-IsSettled :
      (v : NodeId)
      → x.node ≢ v
      → IsSettled graph source info d (g.best v) v
      → IsSettled graph source (taken x info) x.dist (g.best v) v
  still-IsSettled v apart old =
      let same = sym (taken-other x info v apart) in
      let dist = ap DijkstraInfo.dist same in
      record {
        low = omega (arith, old.low, dist);
        high = omega (arith, old.high, dist, s.order.0);
        walk = old.walk;
        least = old.least;
        via = elim old.via [
          | inl is_source ↦ inl is_source
          | inr w ↦
              inr (subst (λ (i : DijkstraInfo). WalkVia graph source i.nhop v (g.best v)) same w)
        ];
      }

  pub pop-stale :
      g.settled x.node ≡ true
      → IsSearch graph source most g x.dist x.node [] (taken x info) frontier
  pop-stale settled =
      let now = taken-node x info in
      let apart = λ (v : NodeId) (other : g.settled v ≡ false) (same : x.node ≡ v).
        true-false (sym settled ∙ ap g.settled same ∙ other) in
      record {
        started = s.started;
        order = s.order.1;
        bound = s.small x (inl refl);
        found = λ v found. elim (same_bytes-cases x.node v) [
          | inr (other, differ) ↦ still-IsSettled v differ (s.found v found)
          | inl (same, this) ↦
              let old = s.found x.node settled in
              subst (λ u. IsSettled graph source (taken x info) x.dist (g.best u) u) this
                (record {
                  low = omega (arith, old.low, old.high, s.order.0, ap DijkstraInfo.dist now);
                  high = omega (arith, ap DijkstraInfo.dist now);
                  walk = old.walk;
                  least = old.least;
                  via = elim old.via [
                    | inl is_source ↦ inl is_source
                    | inr w ↦ inr (
                        subst (λ h. WalkVia graph source h x.node (g.best x.node))
                          (sym (ap DijkstraInfo.nhop now)) w)
                  ];
                })
        ];
        relaxed = λ u e found edge. elim (s.relaxed u e found edge) [
          | inl (same, no_place) ↦ absurd no_place
          | inr low ↦ inr (elim (Bool-cases (g.settled e.to)) [
            | inl target ↦
                let is : known g (taken x info) e.to ≡ g.best e.to = ground (arith, target) in
                let was : known g info e.to ≡ g.best e.to = ground (arith, target) in
                omega (arith, low, is, was)
            | inr other ↦
                let is : known g (taken x info) e.to ≡ (info_of (taken x info) e.to).dist =
                  ground (arith, other) in
                let was : known g info e.to ≡ (info_of info e.to).dist = ground (arith, other) in
                let same = taken-other x info e.to (apart e.to other) in
                omega (arith, low, is, was, ap DijkstraInfo.dist same)
          ])
        ];
        waiting = λ v inside other. still_waiting v (apart v other) (s.waiting v inside other);
        small = λ y there. s.small y (inr there);
        inside = λ y there. s.inside y (inr there);
        below = λ y there other. omega (
          arith,
          s.below y (inr there) other,
          ap DijkstraInfo.dist (taken-other x info y.node (apart y.node other)),
        );
      }
