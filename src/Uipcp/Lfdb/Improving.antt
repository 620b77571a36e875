-- ===== src/Uipcp/Lfdb/Improving.antt =====
-- An edge that betters the distance of its node, in user/uipcps/uipcp-normal-lfdb.cpp.
use rlite.Base.{
  ℕ, ◌+◌, ◌≤◌, ◌<◌, ◌≡◌, ◌≢◌, ◌⊎◌, sym, ap, ◌∙◌, subst, inl, inr, true, false, List, ◌∷◌, arith,
  IsIn, Bool-cases, same_bytes-cases, true-false,
}
use rlite.Uipcp.Lfdb.{
  NodeId, Edge, Graph, DijkstraInfo, Infos, PqInfo, info_of, dist_max, map_set, pq_push,
}
use rlite.Uipcp.Lfdb.Maps.{has_node, info_of-set_same, info_of-set_other}
use rlite.Uipcp.Lfdb.Walks.{IsEdge, WalkVia, IsClosed, IsSmall}
use rlite.Uipcp.Lfdb.Queue.{pq_push-Sorted, pq_push-IsIn, IsIn-pq_push}
use rlite.Uipcp.Lfdb.Settled.{Found, known, IsLabelled, IsSearch}

module _ (graph : Graph) (source : NodeId) (most : ℕ) (closed : IsClosed graph)
    (few : IsSmall graph source most) where
  -- The edge betters the distance of its node, which is not settled.
  module _ (g : Found) (d : ℕ) (closer : NodeId) (e : Edge) (es : List Edge) (info : Infos)
      (frontier : List PqInfo) (n : NodeId)
      (s : IsSearch graph source most g d closer (e ∷ es) info frontier)
      (settled : g.settled closer ≡ true) (best : g.best closer ≡ d) (edge : IsEdge graph closer e)
      (better : d + e.cost < (info_of info e.to).dist)
      (via : WalkVia graph source n e.to (d + e.cost)) where
    abbrev pub changed : Infos
    changed = map_set e.to (record { dist = d + e.cost; nhop = n }) info

    open_ : g.settled e.to ≡ false
    open_ = elim (Bool-cases (g.settled e.to)) [
      | inr other ↦ other
      | inl found ↦ absurd (omega (arith, (s.found e.to found).high))
    ]

    settled_apart : (v : NodeId) → g.settled v ≡ true → e.to ≢ v
    settled_apart v found same = true-false (sym found ∙ ap g.settled (sym same) ∙ open_)

    changed-target : info_of changed e.to ≡ record { dist = d + e.cost; nhop = n }
    changed-target = info_of-set_same (record { dist = d + e.cost; nhop = n }) e.to info

    changed-other : (v : NodeId) → e.to ≢ v → info_of changed v ≡ info_of info v
    changed-other v apart =
        info_of-set_other (record { dist = d + e.cost; nhop = n }) e.to v info apart

    -- No distance grows.
    changed-less : (v : NodeId) → (info_of changed v).dist ≤ (info_of info v).dist
    changed-less v = elim (same_bytes-cases e.to v) [
      | inl (same, this) ↦
          let now = ap DijkstraInfo.dist changed-target in
          let moved = ap (λ x. (info_of changed x).dist) this in
          let was = ap (λ x. (info_of info x).dist) this in omega (arith, now, moved, was)
      | inr (other, apart) ↦ omega (arith, ap DijkstraInfo.dist (changed-other v apart))
    ]

    known-less : (v : NodeId) → known g changed v ≤ known g info v
    known-less v = elim (Bool-cases (g.settled v)) [
      | inl found ↦
          let is : known g changed v ≡ g.best v = ground (arith, found) in
          let was : known g info v ≡ g.best v = ground (arith, found) in omega (arith, is, was)
      | inr other ↦
          let is : known g changed v ≡ (info_of changed v).dist = ground (arith, other) in
          let was : known g info v ≡ (info_of info v).dist = ground (arith, other) in
          omega (arith, is, was, changed-less v)
    ]

    abbrev pub entry : PqInfo
    entry = record { node = e.to; dist = d + e.cost }

    changed-waiting :
        (v : NodeId)
        → has_node graph v ≡ true
        → g.settled v ≡ false
        → ((info_of changed v).dist ≡ dist_max)
          ⊎ IsLabelled graph source changed (pq_push entry frontier) v
    changed-waiting v inside other = elim (same_bytes-cases e.to v) [
      | inl (same, this) ↦
          let labelled : IsLabelled graph source changed (pq_push entry frontier) e.to = record {
            queued =
                pq_push-IsIn entry (record { node = e.to; dist = (info_of changed e.to).dist })
                  frontier
                  (inl (
                    ap (λ i. record { node = e.to; dist = DijkstraInfo.dist i })
                      (sym changed-target)));
            via =
                subst (λ (i : DijkstraInfo). WalkVia graph source i.nhop e.to i.dist)
                  (sym changed-target) via;
          } in
          inr (subst (IsLabelled graph source changed (pq_push entry frontier)) this labelled)
      | inr (differ, apart) ↦
          let same = changed-other v apart in
          elim (s.waiting v inside other) [
            | inl unknown ↦ inl (ap DijkstraInfo.dist same ∙ unknown)
            | inr l ↦ inr (record {
              queued =
                  pq_push-IsIn entry (record { node = v; dist = (info_of changed v).dist }) frontier
                    (inr (
                      subst
                        (λ (i : DijkstraInfo). IsIn (record { node = v; dist = i.dist }) frontier)
                        (sym same) l.queued));
              via =
                  subst (λ (i : DijkstraInfo). WalkVia graph source i.nhop v i.dist) (sym same)
                    l.via;
            })
          ]
    ]

    -- The entry of the edge's node, or one that was there.
    pushed-cases :
        (P : PqInfo → Type 0)
        → P entry
        → ((x : PqInfo) → IsIn x frontier → P x)
        → (x : PqInfo) → IsIn x (pq_push entry frontier)
        → P x
    pushed-cases P new old x is_in = elim (IsIn-pq_push entry x frontier is_in) [
      | inl this ↦ subst P this new
      | inr there ↦ old x there
    ]

    pub relax-better : IsSearch graph source most g d closer es changed (pq_push entry frontier)
    relax-better =
        let f = s.found closer settled in
        let room = few.walks closer (g.best closer) f.walk f.least in
        let cost = few.edges closer e edge in
        record {
          started = s.started;
          order = pq_push-Sorted d entry frontier (omega arith) s.order;
          bound = s.bound;
          found = λ v found.
              let same = sym (changed-other v (settled_apart v found)) in
              let old = s.found v found in
              record {
                low = omega (arith, old.low, ap DijkstraInfo.dist same);
                high = omega (arith, old.high, ap DijkstraInfo.dist same);
                walk = old.walk;
                least = old.least;
                via = elim old.via [
                  | inl is_source ↦ inl is_source
                  | inr w ↦ inr (
                      subst (λ (i : DijkstraInfo). WalkVia graph source i.nhop v (g.best v)) same w)
                ];
              };
          relaxed = λ u f found edge_u. elim (s.relaxed u f found edge_u) [
            | inr low ↦ inr (omega (arith, low, known-less f.to))
            | inl (same, inr later) ↦ inl (same, later)
            | inl (same, inl this) ↦
                let is : known g changed e.to ≡ (info_of changed e.to).dist =
                  ground (arith, open_) in
                let moved = ap (known g changed) (ap Edge.to this) in
                let at = ap g.best same in
                inr (
                  omega
                    (arith, is, moved, ap DijkstraInfo.dist changed-target, ap Edge.cost this, at))
          ];
          waiting = changed-waiting;
          small = pushed-cases (λ x. x.dist + most < dist_max) (omega arith) s.small;
          inside = pushed-cases (λ x. has_node graph x.node ≡ true) (closed closer e edge) s.inside;
          below =
              pushed-cases (λ x. g.settled x.node ≡ false → (info_of changed x.node).dist ≤ x.dist)
                (λ other. omega (arith, ap DijkstraInfo.dist changed-target))
                (λ x there other. omega (arith, s.below x there other, changed-less x.node));
        }
