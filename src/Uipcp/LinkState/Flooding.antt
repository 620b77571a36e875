-- ===== src/Uipcp/LinkState/Flooding.antt =====
-- Link state routing, user/uipcps/uipcp-normal-lower-flows.cpp: how the database is sent to the neighbors, a
-- limited number of flows at a time, and how the own flows are renewed.
pub mod Chunks
pub mod Renewal
use rlite.Base.{
  ℕ, zero, suc, ◌+◌, ◌*◌, ◌/◌, ◌%◌, ◌^◌, Bool, true, false, ◌||◌, Option, none, some, List, [], ◌∷◌,
  ◌++◌, leb, if◌then◌else◌, length,
}
use rlite.Uipcp.Lfdb.{NodeId, LowerFlow, map_find, map_set}
use rlite.Uipcp.Lfdb.NextHops.{FlowDb}
use rlite.Uipcp.LinkState.{Node, Routing, no_flows}

-- The list that is filled, the lists that were sent, and whether one of them was not sent with success.
pub record Sync : Type 0 where
  pub lfl : List LowerFlow
  pub sent : List (List LowerFlow)
  pub ret : Bool

-- `NeighFlow::sync_obj` for the list, where `fails` says what it answers.
unfoldable pub sync_obj : (List LowerFlow → Bool) → Sync → Sync
sync_obj fails s = record { lfl = []; sent = s.sent ++ s.lfl ∷ []; ret = s.ret || fails s.lfl }

unfoldable pub sync_flows : (List LowerFlow → Bool) → ℕ → List (NodeId × LowerFlow) → Sync → Sync
sync_flows fails limit [] s = s
sync_flows fails limit ((n, flow) ∷ rest) s =
    let t = record s { lfl = s.lfl ++ flow ∷ [] } in
    sync_flows fails limit rest (if leb limit (length t.lfl) then sync_obj fails t else t)

unfoldable pub sync_db : (List LowerFlow → Bool) → ℕ → FlowDb → Sync → Sync
sync_db fails limit [] s = s
sync_db fails limit ((n, flows) ∷ rest) s =
    sync_db fails limit rest (sync_flows fails limit flows s)

-- `LinkStateRouting::sync_neigh`.
unfoldable pub sync_neigh : (List LowerFlow → Bool) → ℕ → FlowDb → Sync
sync_neigh fails limit db =
    let s = sync_db fails limit db (record { lfl = []; sent = []; ret = false }) in
    if no_flows s.lfl then s else sync_obj fails s

-- An own flow, renewed if it has a third of the greatest age.
unfoldable pub renew : Node → LowerFlow → LowerFlow
renew node lf =
    if leb (node.age_max * 30 / 100) (lf.age * 1000)
    then record lf { seqnum = (lf.seqnum + 1) % 2 ^ 32; age = 0 }
    else lf

-- The inner loop of `neighs_refresh`: the flows of one message, and those that are left. `limit` is
-- below 2 ^ 31, as for all callers: the source compares with it as an `int`.
unfoldable pub refresh_some :
    Node → ℕ → List (NodeId × LowerFlow) → List (NodeId × LowerFlow) × List (NodeId × LowerFlow)
refresh_some node zero flows = ([], flows)
refresh_some node (suc limit) [] = ([], [])
refresh_some node (suc limit) ((n, lf) ∷ flows) =
    let (some_flows, left) = refresh_some node limit flows in
    ((n, renew node lf) ∷ some_flows, left)

-- The flows of a map.
unfoldable pub values : List (NodeId × LowerFlow) → List LowerFlow
values [] = []
values ((n, lf) ∷ rest) = lf ∷ values rest

-- The messages, and the map after them.
pub record Refreshed : Type 0 where
  pub sent : List (List LowerFlow)
  pub flows : List (NodeId × LowerFlow)

-- The outer loop, on fuel; `none` if that is not enough.
unfoldable pub refresh_flows : ℕ → Node → ℕ → List (NodeId × LowerFlow) → Option Refreshed
refresh_flows fuel node limit [] = some (record { sent = []; flows = [] })
refresh_flows zero node limit (f ∷ flows) = none
refresh_flows (suc fuel) node limit (f ∷ flows) =
    let (some_flows, left) = refresh_some node limit (f ∷ flows) in
    elim (refresh_flows fuel node limit left) [
      | none ↦ none
      | some r ↦ some (record { sent = values some_flows ∷ r.sent; flows = some_flows ++ r.flows })
    ]

-- `LinkStateRouting::neighs_refresh`; `none` too if the database is not empty and lacks the local node,
-- where the source stops at an assertion.
unfoldable pub neighs_refresh : Node → ℕ → Routing → Option (List (List LowerFlow) × Routing)
neighs_refresh node limit s = elim s.db [
  | [] ↦ some ([], s)
  | (entry ∷ rest) ↦ elim (map_find node.myname s.db) [
    | none ↦ none
    | some flows ↦ elim (refresh_flows (length flows) node limit flows) [
      | none ↦ none
      | some r ↦ some (r.sent, record s { db = map_set node.myname r.flows s.db })
    ]
  ]
]
