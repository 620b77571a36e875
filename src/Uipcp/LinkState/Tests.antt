-- ===== src/Uipcp/LinkState/Tests.antt =====
-- Messages of user/uipcps/uipcp-normal-lower-flows.cpp at concrete inputs.
use rlite.Base.{◌≡◌, ◌≢◌, refl, inl, true, false, some, List, [], ◌∷◌, arith, same_bytes}
use rlite.Uipcp.Lfdb.{NodeId, LowerFlow, map_find}
use rlite.Uipcp.Lfdb.NextHops.{FlowDb, lfdb_find}
use rlite.Uipcp.LinkState.{Node, Routing}
use rlite.Uipcp.LinkState.Newest.{add_all}
use rlite.Uipcp.LinkState.Flooding.{sync_obj, sync_flows, sync_db, sync_neigh, neighs_refresh}
use rlite.Uipcp.LinkState.Flooding.Chunks.{flat, flows_of, Sends, sync_neigh-Sends}
use rlite.Uipcp.LinkState.Flooding.Renewal.{IsYoung, neighs_refresh-IsYoung}

abbrev node_a : NodeId
node_a = 97 ∷ []

abbrev node_b : NodeId
node_b = 98 ∷ []

abbrev node_c : NodeId
node_c = 99 ∷ []

abbrev node_of : NodeId → Node
node_of name = record {
  myname = name;
  is_neighbor = λ other. true;
  age_incr_intval = 10000;
  age_max = 900000;
}

abbrev old_flow : NodeId → NodeId → LowerFlow
old_flow from to = record {
  local_node = from;
  remote_node = to;
  cost = 1;
  seqnum = 4;
  state = true;
  age = 300;
}

abbrev own_flows : List (NodeId × LowerFlow)
own_flows = (node_b, old_flow node_a node_b) ∷ (node_c, old_flow node_a node_c) ∷ []

abbrev full_db : FlowDb
full_db = (node_a, own_flows) ∷ (node_b, (node_a, old_flow node_b node_a) ∷ []) ∷ []

-- Three flows go out in two messages.
three_flows :
    (sync_neigh (λ c. false) 2 full_db).sent
    ≡ (old_flow node_a node_b ∷ old_flow node_a node_c ∷ []) ∷ (old_flow node_b node_a ∷ []) ∷ []
unfolding sync_neigh sync_db sync_flows sync_obj
three_flows = refl

sync_neigh-Sends_example : Sends 2 (flows_of full_db) (sync_neigh (λ c. false) 2 full_db).sent
sync_neigh-Sends_example = sync_neigh-Sends (λ c. false) 2 full_db

abbrev routing : Routing
routing = record { db = full_db; recompute = false }

own_found : map_find node_a full_db ≡ some own_flows
unfolding map_find same_bytes
own_found = refl

a_is_not_b : node_a ≢ node_b
a_is_not_b e = ground (arith, e)

found_before : lfdb_find full_db node_a node_b ≡ some (old_flow node_a node_b)
unfolding lfdb_find map_find same_bytes
found_before = refl

neighs_refresh-IsYoung_example :
    (sent : List (List LowerFlow)) × (after : Routing) × (neighs_refresh (node_of node_a) 1 routing
      ≡ some (sent, after))
    × IsYoung node_a node_b 4 (add_all (node_of node_b) (flat sent) routing)
neighs_refresh-IsYoung_example =
    neighs_refresh-IsYoung (node_of node_a) 1 routing own_flows node_b (old_flow node_a node_b)
      (node_of node_b) routing (old_flow node_a node_b) (omega arith) own_found (inl refl)
      (omega arith) (omega arith) a_is_not_b found_before (omega arith)
