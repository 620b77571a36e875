-- ===== src/Uipcp/Forwarding/Tests.antt =====
-- The forwarding table of user/uipcps/uipcp-normal-lower-flows.cpp at concrete inputs.
use rlite.Base.{
  ◌≡◌, refl, ap, ◌∙◌, inl, inr, false, List, [], ◌∷◌, arith, Bool-cases, Option, none, some, ◌==◌,
  if◌then◌else◌, same_bytes,
}
use rlite.Uipcp.Lfdb.{NodeId, map_find, map_set}
use rlite.Uipcp.Forwarding.{
  Addr, Port, Rib, Engine, Pick, PduftOp, addr_find, addr_set, has_port, neigh_port, pick_hop,
  pick_hops, count_pick, prune, default_table, in_place, del_old, set_new, compute_fwd_table,
}
use rlite.Uipcp.Forwarding.Tables.{IsMap}
use rlite.Uipcp.Forwarding.Mirroring.{Mirrors, after_ops, port_of}
use rlite.Uipcp.Forwarding.Picking.{HasNeighborPorts, AllOn}
use rlite.Uipcp.Forwarding.Routes.{
  Follows, forward, compute_fwd_table-Follows, compute_fwd_table-forward,
}

abbrev node_b : NodeId
node_b = 98 ∷ []

abbrev node_c : NodeId
node_c = 99 ∷ []

abbrev node_d : NodeId
node_d = 100 ∷ []

-- The flow to `b` has the port 7, that to `c` has the port 8. A node's address is its letter.
abbrev rib : Rib
rib = record {
  neighbors = (node_b, 7 ∷ []) ∷ (node_c, 8 ∷ []) ∷ [];
  lookup_node_address = λ node. elim node [ [] ↦ 0 | (letter ∷ more) ↦ letter ];
}

-- The node `d` was reached through `b` before, and is now reached through `c`.
abbrev engine : Engine
engine = record {
  next_hops = (node_b, node_b ∷ []) ∷ (node_c, node_c ∷ []) ∷ (node_d, node_c ∷ node_b ∷ []) ∷ [];
  dflt_nhop = [];
  next_ports = (100, (node_d, 7)) ∷ [];
  ports_down = [];
}

abbrev kernel : Addr → Option Port
kernel a = if 100 == a then some 7 else none

rib-HasNeighborPorts : HasNeighborPorts rib []
unfolding neigh_port map_find has_port
rib-HasNeighborPorts lfa p found = elim (Bool-cases (same_bytes node_b lfa)) [
  | inl is_b ↦ ground (arith, found)
  | inr not_b ↦ elim (Bool-cases (same_bytes node_c lfa)) [
    | inl is_c ↦ ground (arith, found)
    | inr not_c ↦ absurd (ground (arith, found))
  ]
]

engine-IsMap : IsMap engine.next_ports
unfolding IsMap addr_find
engine-IsMap = (refl, tt)

engine-Mirrors : Mirrors engine.next_ports kernel
unfolding port_of addr_find
engine-Mirrors b = elim (Bool-cases (100 == b)) [
  | inl same ↦ ground arith
  | inr other ↦ ground arith
]

-- The new table has the port 8 as its default, and an entry for `b` alone.
engine_calls :
    (compute_fwd_table rib (λ a. false) engine).0
    ≡ PduftOp.pduft_del 100 7 ∷ PduftOp.pduft_set 98 7 ∷ PduftOp.pduft_set 0 8 ∷ []
unfolding compute_fwd_table pick_hops pick_hop neigh_port map_find map_set has_port count_pick
    addr_find addr_set default_table prune del_old set_new in_place same_bytes
engine_calls = refl

compute_fwd_table-Follows_example :
    Follows rib (λ a. a == 98) engine kernel (compute_fwd_table rib (λ a. a == 98) engine)
compute_fwd_table-Follows_example =
    compute_fwd_table-Follows rib (λ a. a == 98) engine kernel rib-HasNeighborPorts engine-IsMap
      engine-Mirrors

abbrev pick_d : Pick
pick_d = record { dst_addr = 100; port_id = 8; lfa = node_c }

pick_d-found : pick_hop rib [] node_d (node_c ∷ node_b ∷ []) ≡ some pick_d
unfolding pick_hop neigh_port map_find has_port same_bytes
pick_d-found = refl

engine-AllOn : AllOn rib [] 100 8 engine.next_hops
unfolding pick_hop neigh_port map_find has_port same_bytes
engine-AllOn node lfas p inside found same = elim inside [
  | inl is_b ↦
      let hop = ap (λ (x : NodeId × List NodeId). pick_hop rib [] x.0 x.1) is_b ∙ found in
      absurd (ground (arith, hop, same))
  | inr (inl is_c) ↦
      let hop = ap (λ (x : NodeId × List NodeId). pick_hop rib [] x.0 x.1) is_c ∙ found in
      absurd (ground (arith, hop, same))
  | inr (inr (inl is_d)) ↦
      let hop = ap (λ (x : NodeId × List NodeId). pick_hop rib [] x.0 x.1) is_d ∙ found in
      ground (arith, hop)
  | inr (inr (inr no_place)) ↦ absurd no_place
]

compute_fwd_table-forward_example :
    forward
      (λ b. after_ops (λ a. false) b (compute_fwd_table rib (λ a. false) engine).0 (kernel b))
      100
    ≡ some 8
compute_fwd_table-forward_example =
    compute_fwd_table-forward rib engine kernel node_d (node_c ∷ node_b ∷ []) pick_d
      rib-HasNeighborPorts engine-IsMap engine-Mirrors (inr (inr (inl refl))) pick_d-found
      engine-AllOn
