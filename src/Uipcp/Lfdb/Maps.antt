-- ===== src/Uipcp/Lfdb/Maps.antt =====
-- Maps as lists of pairs, user/uipcps/uipcp-normal-lfdb.cpp: what is found after a change.
use rlite.Base.{
  ◌≡◌, ◌≢◌, sym, ◌∙◌, inl, inr, Bool, true, false, List, [], ◌∷◌, arith, Bool-cases, same_bytes,
  same_bytes_refl, same_bytes-cases, if◌then◌else◌,
}
use rlite.Uipcp.Lfdb.{
  NodeId, DijkstraInfo, Infos, map_set, map_get, info_of, init_info, dist_max, Graph,
}

module _ {A : Type 0} where
  pub map_get-set_same :
      (a b : A) (k : NodeId) (m : List (NodeId × A)) → map_get b k (map_set k a m) ≡ a
  unfolding map_get map_set
  map_get-set_same a b k [] = ground (arith, same_bytes_refl k)
  map_get-set_same a b k ((n, c) ∷ rest) = elim (Bool-cases (same_bytes n k)) [
    | inl same ↦ ground arith
    | inr other ↦ ground (arith, map_get-set_same a b k rest)
  ]

  pub map_get-set_other :
      (a b : A) (k v : NodeId) (m : List (NodeId × A))
      → k ≢ v
      → map_get b v (map_set k a m) ≡ map_get b v m
  unfolding map_get map_set
  map_get-set_other a b k v [] differ = elim (same_bytes-cases k v) [
    | inl (same, e) ↦ absurd (differ e)
    | inr (other, e) ↦ ground arith
  ]
  map_get-set_other a b k v ((n, c) ∷ rest) differ = elim (same_bytes-cases n k) [
    | inl (same, e) ↦ elim (same_bytes-cases n v) [
      | inl (same_v, f) ↦ absurd (differ (sym e ∙ f))
      | inr (other_v, f) ↦ ground arith
    ]
    | inr (other, e) ↦ elim (Bool-cases (same_bytes n v)) [
      | inl same_v ↦ ground arith
      | inr other_v ↦ ground (arith, map_get-set_other a b k v rest differ)
    ]
  ]

-- The graph has the node.
unfoldable pub has_node : Graph → NodeId → Bool
has_node [] node = false
has_node ((n, es) ∷ rest) node = if same_bytes n node then true else has_node rest node

pub info_of-init :
    (graph : Graph) (v : NodeId)
    → has_node graph v ≡ true
    → (info_of (init_info graph) v).dist ≡ dist_max
unfolding info_of init_info map_get has_node
info_of-init [] v h = ground arith
info_of-init ((n, es) ∷ rest) v h = elim (Bool-cases (same_bytes n v)) [
  | inl same ↦ ground arith
  | inr other ↦ ground (arith, info_of-init rest v (ground arith))
]

pub info_of-set_same :
    (a : DijkstraInfo) (k : NodeId) (info : Infos) → info_of (map_set k a info) k ≡ a
unfolding info_of
info_of-set_same a k info = map_get-set_same a (record { dist = 0; nhop = [] }) k info

pub info_of-set_other :
    (a : DijkstraInfo) (k v : NodeId) (info : Infos)
    → k ≢ v
    → info_of (map_set k a info) v ≡ info_of info v
unfolding info_of
info_of-set_other a k v info = map_get-set_other a (record { dist = 0; nhop = [] }) k v info
