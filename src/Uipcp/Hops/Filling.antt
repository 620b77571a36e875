-- ===== src/Uipcp/Hops/Filling.antt =====
-- The next hops that `compute_next_hops` of user/uipcps/uipcp-normal-lfdb.cpp takes from a search: which
-- nodes the search has an entry for, and the first hop to each.
use rlite.Base.{
  ℕ, zero, suc, ◌+◌, ◌%◌, ◌^◌, ◌≡◌, sym, ap, ◌∙◌, subst, inl, inr, true, false, ◌||◌, some, List,
  [], ◌∷◌, ◌++◌, arith, Bool-cases, same_bytes, same_bytes-cases, ltb, ◌==◌, if◌then◌else◌,
}
use rlite.Uipcp.Lfdb.{
  NodeId, Edge, DijkstraInfo, Graph, Infos, PqInfo, dist_max, map_find, map_set, map_get, edges_of,
  info_of, init_info, relax, search_paths,
}
use rlite.Uipcp.Lfdb.Maps.{has_node, map_get-set_same, map_get-set_other}
use rlite.Uipcp.Lfdb.NextHops.{NextHops, push_hop, fill_next_hops}
use rlite.Uipcp.LinkState.Entries.{map_find-set_same, map_find-set_other}

-- The node has an entry.
abbrev pub IsPresent : NodeId → Infos → Type 0
IsPresent v info = (inf : DijkstraInfo) × (map_find v info ≡ some inf)

pub set-IsPresent :
    (v k : NodeId) (a : DijkstraInfo) (info : Infos)
    → IsPresent v info
    → IsPresent v (map_set k a info)
set-IsPresent v k a info (inf, found) = elim (same_bytes-cases k v) [
  | inl (same, this) ↦
      subst (λ w. IsPresent w (map_set k a info)) this (a, map_find-set_same a k info)
  | inr (differ, apart) ↦ (inf, map_find-set_other a k v info apart ∙ found)
]

pub init-IsPresent :
    (v : NodeId) (graph : Graph) → has_node graph v ≡ true → IsPresent v (init_info graph)
unfolding has_node init_info map_find
init-IsPresent v [] h = absurd (ground (arith, h))
init-IsPresent v ((n, es) ∷ rest) h = elim (Bool-cases (same_bytes n v)) [
  | inl same ↦ (record { dist = dist_max; nhop = [] }, ground arith)
  | inr other ↦ let (inf, found) = init-IsPresent v rest (ground arith) in (inf, ground arith)
]

relax-IsPresent :
    (v source closer : NodeId) (es : List Edge) (info : Infos) (frontier : List PqInfo)
    → IsPresent v info
    → IsPresent v (relax source closer es info frontier).0
unfolding relax
relax-IsPresent v source closer [] info frontier h = h
relax-IsPresent v source closer (edge ∷ es) info frontier h =
    let info_min = info_of info closer in
    let dist = (info_min.dist + edge.cost) % 2 ^ 32 in
    let nhop = if same_bytes closer source then edge.to else info_min.nhop in
    let better = ltb dist (info_of info edge.to).dist in
    let new : DijkstraInfo = record { dist = dist; nhop = nhop } in
    let next = if better then map_set edge.to new info else info in
    let still : IsPresent v next = elim (Bool-cases better) [
      | inl yes' ↦
          let step : next ≡ map_set edge.to new info = ground arith in
          subst (IsPresent v) (sym step) (set-IsPresent v edge.to new info h)
      | inr no' ↦ let step : next ≡ info = ground arith in subst (IsPresent v) (sym step) h
    ] in
    relax-IsPresent v source closer es next _ still

pub search-IsPresent :
    (v : NodeId) (fuel : ℕ) (source : NodeId) (graph : Graph) (info : Infos)
    (frontier : List PqInfo) (result : Infos)
    → search_paths fuel source graph info frontier ≡ some result
    → IsPresent v info
    → IsPresent v result
unfolding search_paths
search-IsPresent v fuel source graph info [] result ends h =
    let same : info ≡ result = ground arith in subst (IsPresent v) same h
search-IsPresent v zero source graph info (x ∷ frontier) result ends h =
    absurd (ground (arith, ends))
search-IsPresent v (suc fuel) source graph info (x ∷ frontier) result ends h =
    let info_min = record (info_of info x.node) { dist = x.dist } in
    let taken = map_set x.node info_min info in
    let r = relax source x.node (edges_of graph x.node) taken frontier in
    let still =
      relax-IsPresent v source x.node (edges_of graph x.node) taken frontier
        (set-IsPresent v x.node info_min info h) in
    elim (Bool-cases (x.dist == dist_max)) [
      | inl stop ↦ let same : info ≡ result = ground arith in subst (IsPresent v) same h
      | inr go ↦ search-IsPresent v fuel source graph r.0 r.1 result (ground arith) still
    ]

-- The first hop to the node.
abbrev pub StartsWith : NodeId → NodeId → NextHops → Type 0
StartsWith h v next_hops = (more : List NodeId) × (map_get [] v next_hops ≡ h ∷ more)

pub push-StartsWith :
    (h v n x : NodeId) (nh : NextHops) → StartsWith h v nh → StartsWith h v (push_hop n x nh)
unfolding push_hop
push-StartsWith h v n x nh (more, start) = elim (same_bytes-cases n v) [
  | inl (same, this) ↦
      subst
        (λ w.
          (map_get [] w nh ≡ h ∷ more) → StartsWith h w (map_set n (map_get [] n nh ++ x ∷ []) nh))
        this
        (λ at. (
          more ++ x ∷ [],
          map_get-set_same (map_get [] n nh ++ x ∷ []) [] n nh ∙ ap (λ l. l ++ x ∷ []) at,
        ))
        start
  | inr (differ, apart) ↦
      (more, map_get-set_other (map_get [] n nh ++ x ∷ []) [] n v nh apart ∙ start)
]

fill-StartsWith :
    (h v local_node : NodeId) (info : Infos) (nh : NextHops)
    → StartsWith h v nh
    → StartsWith h v (fill_next_hops local_node info nh)
unfolding fill_next_hops
fill-StartsWith h v local_node [] nh start = start
fill-StartsWith h v local_node ((n, inf) ∷ rest) nh start =
    elim (Bool-cases (same_bytes n local_node || inf.dist == dist_max)) [
      | inl skip ↦
          let step : fill_next_hops local_node ((n, inf) ∷ rest) nh
              ≡ fill_next_hops local_node rest nh =
            ground arith in
          subst (StartsWith h v) (sym step) (fill-StartsWith h v local_node rest nh start)
      | inr push ↦
          let step : fill_next_hops local_node ((n, inf) ∷ rest) nh
              ≡ fill_next_hops local_node rest (push_hop n inf.nhop nh) =
            ground arith in
          subst (StartsWith h v) (sym step) (
            fill-StartsWith h v local_node rest (push_hop n inf.nhop nh)
              (push-StartsWith h v n inf.nhop nh start))
    ]

pub fill-first :
    (v local_node : NodeId) (info : Infos) (nh : NextHops) (inf : DijkstraInfo)
    → map_find v info ≡ some inf
    → same_bytes v local_node ≡ false
    → (inf.dist == dist_max) ≡ false
    → map_get [] v nh ≡ []
    → StartsWith inf.nhop v (fill_next_hops local_node info nh)
unfolding fill_next_hops map_find push_hop
fill-first v local_node [] nh inf found remote known none_yet = absurd (ground (arith, found))
fill-first v local_node ((n, i) ∷ rest) nh inf found remote known none_yet =
    elim (same_bytes-cases n v) [
      | inl (same, this) ↦
          let value : i ≡ inf = ground arith in
          let far : same_bytes n local_node ≡ false =
            ap (λ w. same_bytes w local_node) this ∙ remote in
          let near : (i.dist == dist_max) ≡ false =
            ap (λ (x : DijkstraInfo). x.dist == dist_max) value ∙ known in
          let step : fill_next_hops local_node ((n, i) ∷ rest) nh
              ≡ fill_next_hops local_node rest (push_hop n i.nhop nh) =
            ground arith in
          let empty : map_get [] n nh ≡ [] = ap (λ w. map_get [] w nh) this ∙ none_yet in
          let now : StartsWith i.nhop n (push_hop n i.nhop nh) = (
            [],
            map_get-set_same (map_get [] n nh ++ i.nhop ∷ []) [] n nh
                ∙ ap (λ l. l ++ i.nhop ∷ []) empty,
          ) in
          subst
            (λ (x : DijkstraInfo).
              StartsWith x.nhop v (fill_next_hops local_node ((n, i) ∷ rest) nh))
            value
            (subst (StartsWith i.nhop v) (sym step) (
              fill-StartsWith i.nhop v local_node rest (push_hop n i.nhop nh)
                (subst (λ w. StartsWith i.nhop w (push_hop n i.nhop nh)) this now)))
      | inr (differ, apart) ↦ elim (Bool-cases (same_bytes n local_node || i.dist == dist_max)) [
        | inl skip ↦
            let step : fill_next_hops local_node ((n, i) ∷ rest) nh
                ≡ fill_next_hops local_node rest nh =
              ground arith in
            subst (StartsWith inf.nhop v) (sym step)
              (fill-first v local_node rest nh inf (ground arith) remote known none_yet)
        | inr push ↦
            let step : fill_next_hops local_node ((n, i) ∷ rest) nh
                ≡ fill_next_hops local_node rest (push_hop n i.nhop nh) =
              ground arith in
            subst (StartsWith inf.nhop v) (sym step) (
              fill-first v local_node rest (push_hop n i.nhop nh) inf (ground arith) remote known
                (map_get-set_other (map_get [] n nh ++ i.nhop ∷ []) [] n v nh apart ∙ none_yet))
      ]
    ]
