-- ===== src/Uipcp/LinkState/Flooding/Renewal.antt =====
-- `neighs_refresh` of user/uipcps/uipcp-normal-lower-flows.cpp and its receivers: an old flow gets young
-- again in the databases of the neighbors.
use rlite.Base.{
  ℕ, ◌+◌, ◌*◌, ◌/◌, ◌^◌, ◌≤◌, ◌<◌, ◌≡◌, ◌≢◌, refl, sym, ap, ◌∙◌, subst, ◌⊎◌, inl, inr, true, Option,
  some, List, [], ◌∷◌, arith, length, IsIn, same_bytes_refl,
}
use rlite.Uipcp.Lfdb.{NodeId, LowerFlow, map_find, map_set}
use rlite.Uipcp.Lfdb.NextHops.{FlowDb, lfdb_find}
use rlite.Uipcp.LinkState.{Node, Routing}
use rlite.Uipcp.LinkState.Entries.{is_between, map_find-set_same}
use rlite.Uipcp.LinkState.Newest.{add_all, add_all-newest_of, newest_of-new, newest_of-CameFrom}
use rlite.Uipcp.LinkState.Flooding.{renew, values, neighs_refresh}
use rlite.Uipcp.LinkState.Flooding.Chunks.{flat, Sends, renew_all, refresh_flows-Refreshes}

renew_all-IsIn :
    (node : Node) (k : NodeId) (lf : LowerFlow) (flows : List (NodeId × LowerFlow))
    → IsIn (k, lf) flows
    → IsIn (renew node lf) (values (renew_all node flows))
unfolding renew_all values
renew_all-IsIn node k lf [] no_place = absurd no_place
renew_all-IsIn node k lf ((n, f) ∷ flows) (inl here) =
    inl (ap (λ (x : NodeId × LowerFlow). renew node x.1) here)
renew_all-IsIn node k lf ((n, f) ∷ flows) (inr later) = inr (renew_all-IsIn node k lf flows later)

db-cases :
    (db : FlowDb)
    → (db ≡ [])
      ⊎ ((entry : NodeId × List (NodeId × LowerFlow)) × (rest : FlowDb) × (db ≡ entry ∷ rest))
db-cases [] = inl refl
db-cases (entry ∷ rest) = inr (entry, rest, refl)

is_between-own : (lf : LowerFlow) → is_between lf.local_node lf.remote_node lf ≡ true
is_between-own lf = ground (arith, same_bytes_refl lf.local_node, same_bytes_refl lf.remote_node)

-- What `neighs_refresh` did: the messages, and the own flows in the database.
pub record RefreshDone (node : Node) (limit : ℕ) (flows : List (NodeId × LowerFlow))
    (result : Option (List (List LowerFlow) × Routing)) : Type 0 where
  pub sent : List (List LowerFlow)
  pub after : Routing
  pub ends : result ≡ some (sent, after)
  pub own : map_find node.myname after.db ≡ some (renew_all node flows)
  pub sends : Sends limit (values (renew_all node flows)) sent

pub neighs_refresh-RefreshDone :
    (node : Node) (limit : ℕ) (s : Routing) (flows : List (NodeId × LowerFlow))
    → 1 ≤ limit
    → map_find node.myname s.db ≡ some flows
    → RefreshDone node limit flows (neighs_refresh node limit s)
unfolding neighs_refresh map_find
neighs_refresh-RefreshDone node limit s flows positive found = elim (db-cases s.db) [
  | inl empty ↦ absurd (ground (arith, found))
  | inr (entry, rest, full) ↦
      let h = refresh_flows-Refreshes node limit (length flows) flows positive (omega arith) in
      let ends = h.ends in
      record {
        sent = h.r.sent;
        after = record s { db = map_set node.myname h.r.flows s.db };
        ends = ground arith;
        own = map_find-set_same h.r.flows node.myname s.db ∙ ap some h.map;
        sends = h.sends;
      }
]

-- The entry of two nodes in a database is one that was made as new, with a number above the given one.
pub record IsYoung (u v : NodeId) (seqnum : ℕ) (t : Routing) : Type 0 where
  pub entry : LowerFlow
  pub found : lfdb_find t.db u v ≡ some entry
  pub young : entry.age ≡ 0
  pub newer : seqnum < entry.seqnum

-- A node has a flow of its own that has reached the age to be renewed, and whose sequence number
-- does not wrap around. Another node, which is not the flow's local node, has an entry for it that
-- is no newer. With room for a flow in a message, `neighs_refresh` ends, and when the other node
-- has added all flows of its messages, its entry for the flow has the age 0 and a greater sequence
-- number.
pub neighs_refresh-IsYoung :
    (node : Node) (limit : ℕ) (s : Routing) (flows : List (NodeId × LowerFlow)) (k : NodeId)
    (lf : LowerFlow) (m : Node) (t : Routing) (old : LowerFlow)
    → 1 ≤ limit
    → map_find node.myname s.db ≡ some flows
    → IsIn (k, lf) flows
    → node.age_max * 30 / 100 ≤ lf.age * 1000
    → lf.seqnum + 1 < 2 ^ 32
    → lf.local_node ≢ m.myname
    → lfdb_find t.db lf.local_node lf.remote_node ≡ some old
    → old.seqnum ≤ lf.seqnum
    → (sent : List (List LowerFlow)) × (after : Routing) × (neighs_refresh node limit s
        ≡ some (sent, after))
      × IsYoung lf.local_node lf.remote_node lf.seqnum (add_all m (flat sent) t)
unfolding renew
neighs_refresh-IsYoung node limit s flows k lf m t old positive own inside aged small remote known
      before =
    let done = neighs_refresh-RefreshDone node limit s flows positive own in
    let u = lf.local_node in
    let v = lf.remote_node in
    let fs = flat done.sent in
    let new = renew node lf in
    let made : new ≡ record lf { seqnum = lf.seqnum + 1; age = 0 } = ground arith in
    let in_fs : IsIn new fs =
      subst (IsIn new) (sym done.sends.all) (renew_all-IsIn node k lf flows inside) in
    let between : is_between u v new ≡ true =
      subst (λ f. is_between u v f ≡ true) (sym made) (is_between-own lf) in
    let (entry, found, le) = newest_of-new u v fs (lfdb_find t.db u v) new in_fs between in
    let newer : lf.seqnum < entry.seqnum = omega (arith, ap LowerFlow.seqnum made) in
    (
      done.sent,
      done.after,
      done.ends,
      record {
        entry = entry;
        found = add_all-newest_of m fs t u v remote ∙ found;
        young = elim (newest_of-CameFrom u v fs (lfdb_find t.db u v) entry found) [
          | inl still ↦
              let same : old ≡ entry = ground arith in
              absurd (omega (arith, ap LowerFlow.seqnum same))
          | inr (f, in_f, between_f, made_f) ↦ ap LowerFlow.age made_f
        ];
        newer = newer;
      },
    )
