-- ===== src/Uipcp/LinkState/Entries.antt =====
-- What is found in the lower flow database of user/uipcps/uipcp-normal-lower-flows.cpp after an `add`.
use rlite.Base.{
  ◌≡◌, ◌≢◌, ◌⊎◌, refl, sym, ap, ◌∙◌, subst, inl, inr, Bool, not, ◌&&◌, ◌||◌, Option, none, some,
  List, [], ◌∷◌, arith, Bool-cases, Option-cases, same_bytes, same_bytes-cases, same_bytes_refl,
  ltb, if◌then◌else◌,
}
use rlite.Uipcp.Lfdb.{NodeId, LowerFlow, map_find, map_set, map_get}
use rlite.Uipcp.Lfdb.NextHops.{FlowDb, lfdb_find}
use rlite.Uipcp.LinkState.{Node, Routing, same_flow, db_set, add}

module _ {A : Type 0} where
  pub map_find-set_same :
      (a : A) (k : NodeId) (m : List (NodeId × A)) → map_find k (map_set k a m) ≡ some a
  unfolding map_find map_set
  map_find-set_same a k [] = ground (arith, same_bytes_refl k)
  map_find-set_same a k ((n, c) ∷ rest) = elim (Bool-cases (same_bytes n k)) [
    | inl same ↦ ground arith
    | inr other ↦ ground (arith, map_find-set_same a k rest)
  ]

  pub map_find-set_other :
      (a : A) (k v : NodeId) (m : List (NodeId × A))
      → k ≢ v
      → map_find v (map_set k a m) ≡ map_find v m
  unfolding map_find map_set
  map_find-set_other a k v [] differ = elim (same_bytes-cases k v) [
    | inl (same, e) ↦ absurd (differ e)
    | inr (other, e) ↦ ground arith
  ]
  map_find-set_other a k v ((n, c) ∷ rest) differ = elim (same_bytes-cases n k) [
    | inl (same, e) ↦ elim (same_bytes-cases n v) [
      | inl (same_v, f) ↦ absurd (differ (sym e ∙ f))
      | inr (other_v, f) ↦ ground arith
    ]
    | inr (other, e) ↦ elim (Bool-cases (same_bytes n v)) [
      | inl same_v ↦ ground arith
      | inr other_v ↦ ground (arith, map_find-set_other a k v rest differ)
    ]
  ]

  map_get-find :
      (b : A) (k : NodeId) (m : List (NodeId × A))
      → (map_find k m ≡ none) × (map_get b k m ≡ b) ⊎ (map_find k m ≡ some (map_get b k m))
  unfolding map_find map_get
  map_get-find b k [] = inl (refl, refl)
  map_get-find b k ((n, c) ∷ rest) = elim (Bool-cases (same_bytes n k)) [
    | inl same ↦ inr (ground arith)
    | inr other ↦ elim (map_get-find b k rest) [
      | inl (missing, default) ↦ inl (ground arith, ground arith)
      | inr found ↦ inr (ground arith)
    ]
  ]

map_find-nil : (v : NodeId) → map_find {A = LowerFlow} v [] ≡ none
unfolding map_find
map_find-nil v = refl

lfdb_find-set_same :
    (lf : LowerFlow) (db : FlowDb) → lfdb_find (db_set lf db) lf.local_node lf.remote_node ≡ some lf
unfolding lfdb_find db_set
lfdb_find-set_same lf db =
    let flows = map_set lf.remote_node lf (map_get [] lf.local_node db) in
    let outer = map_find-set_same flows lf.local_node db in
    let inner = map_find-set_same lf lf.remote_node (map_get [] lf.local_node db) in
    ground (arith, outer, inner)

lfdb_find-set_other :
    (lf : LowerFlow) (db : FlowDb) (u v : NodeId)
    → (lf.local_node ≢ u) ⊎ (lf.remote_node ≢ v)
    → lfdb_find (db_set lf db) u v ≡ lfdb_find db u v
unfolding lfdb_find db_set
lfdb_find-set_other lf db u v apart =
    let flows = map_set lf.remote_node lf (map_get [] lf.local_node db) in
    elim (same_bytes-cases lf.local_node u) [
      | inr (differ, other) ↦
          let outer = map_find-set_other flows lf.local_node u db other in ground (arith, outer)
      | inl (same, this) ↦ elim apart [
        | inl other ↦ absurd (other this)
        | inr other ↦
            let outer = map_find-set_same flows lf.local_node db in
            let inner =
              map_find-set_other lf lf.remote_node v (map_get [] lf.local_node db) other in
            subst (λ w. lfdb_find (db_set lf db) w v ≡ lfdb_find db w v) this
              (elim (map_get-find [] lf.local_node db) [
                | inl (missing, default) ↦
                    let nothing : map_find v (map_get [] lf.local_node db) ≡ none =
                      ap (map_find v) default ∙ map_find-nil v in
                    ground (arith, outer, inner, missing, nothing)
                | inr found ↦ ground (arith, outer, inner, found)
              ])
      ]
    ]

-- Whether a flow is from `u` to `v`.
abbrev pub is_between : NodeId → NodeId → LowerFlow → Bool
is_between u v lf = same_bytes lf.local_node u && same_bytes lf.remote_node v

-- The entry of two nodes after one more flow between them: the newer one, with no age.
abbrev pub newest : Option LowerFlow → LowerFlow → Option LowerFlow
newest none lf = some (record lf { age = 0 })
newest (some old) lf = if ltb old.seqnum lf.seqnum then some (record lf { age = 0 }) else some old

pub add-find_same :
    (node : Node) (lf : LowerFlow) (s : Routing)
    → lf.local_node ≢ node.myname
    → lfdb_find (add node lf s).1.db lf.local_node lf.remote_node
      ≡ newest (lfdb_find s.db lf.local_node lf.remote_node) lf
unfolding add
add-find_same node lf s remote =
    let lfz = record lf { age = 0 } in
    let set = lfdb_find-set_same lfz s.db in
    elim (same_bytes-cases lf.local_node node.myname) [
      | inl (same, this) ↦ absurd (remote this)
      | inr (differ, apart) ↦ elim (Option-cases (lfdb_find s.db lf.local_node lf.remote_node)) [
        | inl missing ↦
            let db : (add node lf s).1.db ≡ db_set lfz s.db = ground (arith, missing, differ) in
            ap (λ d. lfdb_find d lf.local_node lf.remote_node) db
            ∙ set
            ∙ ap (λ o. newest o lf) (sym missing)
        | inr (old, found) ↦ elim (Bool-cases (ltb old.seqnum lf.seqnum)) [
          | inl newer ↦
              let db : (add node lf s).1.db ≡ db_set lfz s.db =
                ground (arith, found, differ, newer) in
              let result : newest (some old) lf ≡ some lfz = ground (arith, newer) in
              ap (λ d. lfdb_find d lf.local_node lf.remote_node) db
              ∙ set
              ∙ sym result
              ∙ ap (λ o. newest o lf) (sym found)
          | inr stale ↦
              let db : (add node lf s).1.db ≡ s.db = ground (arith, found, differ, stale) in
              let result : newest (some old) lf ≡ some old = ground (arith, stale) in
              ap (λ d. lfdb_find d lf.local_node lf.remote_node) db
              ∙ found
              ∙ sym result
              ∙ ap (λ o. newest o lf) (sym found)
        ]
      ]
    ]

add-db :
    (node : Node) (lf : LowerFlow) (s : Routing)
    → ((add node lf s).1.db ≡ s.db) ⊎ ((add node lf s).1.db ≡ db_set (record lf { age = 0 }) s.db)
unfolding add
add-db node lf s = elim (Option-cases (lfdb_find s.db lf.local_node lf.remote_node)) [
  | inl missing ↦
      elim (Bool-cases
        (same_bytes lf.local_node node.myname && not (node.is_neighbor lf.remote_node))) [
          | inl refused ↦ inl (ground arith)
          | inr taken ↦ inr (ground arith)
        ]
  | inr (old, found) ↦
      let lfz : LowerFlow = record lf { age = 0 } in
      let local_entry = same_bytes lf.local_node node.myname in
      elim (Bool-cases
        (not local_entry && ltb old.seqnum lf.seqnum || local_entry && not (same_flow lfz old))) [
          | inl changed ↦ inr (ground arith)
          | inr kept ↦ inl (ground arith)
        ]
]

pub add-find_other :
    (node : Node) (lf : LowerFlow) (s : Routing) (u v : NodeId)
    → (lf.local_node ≢ u) ⊎ (lf.remote_node ≢ v)
    → lfdb_find (add node lf s).1.db u v ≡ lfdb_find s.db u v
add-find_other node lf s u v apart = elim (add-db node lf s) [
  | inl same ↦ ap (λ d. lfdb_find d u v) same
  | inr set ↦
      ap (λ d. lfdb_find d u v) set ∙ lfdb_find-set_other (record lf { age = 0 }) s.db u v apart
]
