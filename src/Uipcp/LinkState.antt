-- ===== src/Uipcp/LinkState.antt =====
-- Link state routing, user/uipcps/uipcp-normal-lower-flows.cpp: how the lower flow database changes.
pub mod Entries
pub mod Newest
pub mod Flooding
mod Tests
use rlite.Base.{
  ℕ, suc, ◌+◌, ◌*◌, ◌/◌, ◌%◌, ◌^◌, Bool, true, false, not, ◌&&◌, ◌||◌, Option, none, some, List, [],
  ◌∷◌, ◌++◌, ltb, leb, ◌==◌, if◌then◌else◌, same_bytes,
}
use rlite.Uipcp.Lfdb.{NodeId, LowerFlow, map_find, map_set, map_get}
use rlite.Uipcp.Lfdb.NextHops.{FlowDb, lfdb_find}

-- The name of the IPC process and its neighbors, and the parameters of the routing in milliseconds.
pub record Node : Type 0 where
  pub myname : NodeId
  pub is_neighbor : NodeId → Bool
  pub age_incr_intval : ℕ
  pub age_max : ℕ

-- The database, and whether the routing table is to be computed again.
pub record Routing : Type 0 where
  pub db : FlowDb
  pub recompute : Bool

-- `operator==` of lower flows, which leaves out the sequence number and the age.
unfoldable pub same_flow : LowerFlow → LowerFlow → Bool
same_flow a o =
    same_bytes a.local_node o.local_node
    && same_bytes a.remote_node o.remote_node
    && a.cost == o.cost

-- `db[local_node][remote_node] = lf`.
unfoldable pub db_set : LowerFlow → FlowDb → FlowDb
db_set lf db = map_set lf.local_node (map_set lf.remote_node lf (map_get [] lf.local_node db)) db

-- `LinkStateRouting::add`, which answers whether something changed.
unfoldable pub add : Node → LowerFlow → Routing → Bool × Routing
add node lf s =
    let lfz = record lf { age = 0 } in
    elim (lfdb_find s.db lf.local_node lf.remote_node) [
      | none ↦
          if same_bytes lf.local_node node.myname && not (node.is_neighbor lf.remote_node)
          then (false, s)
          else (true, record s { db = db_set lfz s.db; recompute = true })
      | some old ↦
          let local_entry = same_bytes lfz.local_node node.myname in
          let newer = ltb old.seqnum lfz.seqnum in
          let equal = same_flow lfz old in
          if not local_entry && newer || local_entry && not equal
          then (
            true,
            record s { db = db_set lfz s.db; recompute = if equal then s.recompute else true },
          )
          else (false, s)
    ]

module _ {A : Type 0} where
  -- `map.erase(key)`.
  unfoldable pub map_erase : NodeId → List (NodeId × A) → List (NodeId × A)
  map_erase k [] = []
  map_erase k ((n, a) ∷ rest) = if same_bytes n k then rest else (n, a) ∷ map_erase k rest

-- `LinkStateRouting::del`.
unfoldable pub del : NodeId → NodeId → Routing → Bool × Routing
del local_node remote_node s = elim (lfdb_find s.db local_node remote_node) [
  | none ↦ (false, s)
  | some lf ↦ (
    true,
    record s { db = map_set local_node (map_erase remote_node (map_get [] local_node s.db)) s.db },
  )
]

-- The loop of `LinkStateRouting::rib_handler`: what is sent on to the other neighbors, and the state.
unfoldable pub handle_flows : Node → Bool → List LowerFlow → Routing → List LowerFlow × Routing
handle_flows node add_f [] s = ([], s)
handle_flows node add_f (f ∷ fs) s =
    let (changed, t) = if add_f then add node f s else del f.local_node f.remote_node s in
    let (prop_lfl, u) = handle_flows node add_f fs t in
    (if changed then f ∷ prop_lfl else prop_lfl, u)

-- The flows that a test discards, and those that stay.
pub record Sifted : Type 0 where
  pub discarded : List LowerFlow
  pub stay : List (NodeId × LowerFlow)

-- The age in seconds that a flow gets.
unfoldable pub next_age : Node → LowerFlow → ℕ
next_age node lf = lf.age + node.age_incr_intval / 1000

unfoldable pub age_flows : Node → NodeId → List (NodeId × LowerFlow) → Sifted
age_flows node owner [] = record { discarded = []; stay = [] }
age_flows node owner ((n, lf) ∷ rest) =
    let r = age_flows node owner rest in
    let older = record lf { age = next_age node lf % 2 ^ 32 } in
    if not (same_bytes owner node.myname) && ltb node.age_max (next_age node lf * 1000)
    then record r { discarded = older ∷ r.discarded }
    else record r { stay = (n, older) ∷ r.stay }

unfoldable pub age_db : Node → FlowDb → List LowerFlow × FlowDb
age_db node [] = ([], [])
age_db node ((owner, flows) ∷ rest) =
    let r = age_flows node owner flows in
    let (prop_lfl, db) = age_db node rest in (r.discarded ++ prop_lfl, (owner, r.stay) ∷ db)

abbrev no_flows : List LowerFlow → Bool
no_flows [] = true
no_flows (lf ∷ rest) = false

-- `LinkStateRouting::age_incr`: the flows that the neighbors are told to delete, and the state.
unfoldable pub age_incr : Node → Routing → List LowerFlow × Routing
age_incr node s =
    let (prop_lfl, db) = age_db node s.db in
    (prop_lfl, record s { db = db; recompute = s.recompute || not (no_flows prop_lfl) })

unfoldable pub disconnect_flows : Node → NodeId → NodeId → List (NodeId × LowerFlow) → Sifted
disconnect_flows node neigh_name owner [] = record { discarded = []; stay = [] }
disconnect_flows node neigh_name owner ((n, lf) ∷ rest) =
    let r = disconnect_flows node neigh_name owner rest in
    if same_bytes owner node.myname && same_bytes n neigh_name
      || same_bytes owner neigh_name && same_bytes n node.myname
    then record r { discarded = lf ∷ r.discarded }
    else record r { stay = (n, lf) ∷ r.stay }

unfoldable pub disconnect_db : Node → NodeId → FlowDb → List LowerFlow × FlowDb
disconnect_db node neigh_name [] = ([], [])
disconnect_db node neigh_name ((owner, flows) ∷ rest) =
    let r = disconnect_flows node neigh_name owner flows in
    let (prop_lfl, db) = disconnect_db node neigh_name rest in
    (r.discarded ++ prop_lfl, (owner, r.stay) ∷ db)

-- `LinkStateRouting::neigh_disconnected`.
unfoldable pub neigh_disconnected : Node → NodeId → Routing → List LowerFlow × Routing
neigh_disconnected node neigh_name s =
    let (prop_lfl, db) = disconnect_db node neigh_name s.db in
    (prop_lfl, record s { db = db; recompute = s.recompute || not (no_flows prop_lfl) })
