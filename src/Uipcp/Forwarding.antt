-- ===== src/Uipcp/Forwarding.antt =====
-- The forwarding table, `RoutingEngine` of user/uipcps/uipcp-normal-lower-flows.cpp: how it follows from
-- the next hops, and what the kernel is asked to change. A map is the list of its pairs, in the order of
-- its iteration.
pub mod Tables
pub mod Mirroring
pub mod Picking
pub mod Routes
mod Tests
use rlite.Base.{
  ℕ, zero, suc, ◌+◌, ◌<◌, Bool, true, false, not, ◌&&◌, ◌||◌, Option, none, some, List, [], ◌∷◌,
  ◌++◌, ltb, ◌==◌, if◌then◌else◌,
}
use rlite.Uipcp.Lfdb.{NodeId, map_find, map_set}
use rlite.Uipcp.Lfdb.NextHops.{NextHops}

-- An address and a port, and what an address is mapped to: the node that has it, and the port towards it.
abbrev pub Addr : Type 0
Addr = ℕ

abbrev pub Port : Type 0
Port = ℕ

abbrev pub NextPorts : Type 0
NextPorts = List (Addr × (NodeId × Port))

module _ {A : Type 0} where
  unfoldable pub addr_find : Addr → List (Addr × A) → Option A
  addr_find k [] = none
  addr_find k ((n, a) ∷ rest) = if n == k then some a else addr_find k rest

  -- `map[k] = a`.
  unfoldable pub addr_set : Addr → A → List (Addr × A) → List (Addr × A)
  addr_set k a [] = (k, a) ∷ []
  addr_set k a ((n, b) ∷ rest) = if n == k then (n, a) ∷ rest else (n, b) ∷ addr_set k a rest

-- What the engine asks of the rest of the process: the ports of the flows to a neighbor, and the
-- address of a node, 0 if it is not known.
pub record Rib : Type 0 where
  pub neighbors : List (NodeId × List Port)
  pub lookup_node_address : NodeId → Addr

pub record Engine : Type 0 where
  pub next_hops : NextHops
  pub dflt_nhop : NodeId
  pub next_ports : NextPorts
  pub ports_down : List Port

unfoldable pub has_port : Port → List Port → Bool
has_port p [] = false
has_port p (q ∷ qs) = q == p || has_port p qs

-- The port of a neighbor, if it has flows and the port is not down.
unfoldable pub neigh_port : Rib → List Port → NodeId → Option Port
neigh_port rib ports_down lfa = elim (map_find lfa rib.neighbors) [
  | none ↦ none
  | some [] ↦ none
  | some (port_id ∷ more) ↦ if has_port port_id ports_down then none else some port_id
]

-- A destination's address, the port towards it, and the neighbor there.
pub record Pick : Type 0 where
  pub dst_addr : Addr
  pub port_id : Port
  pub lfa : NodeId

-- The loop over the next hops of a node, up to the first that will do.
unfoldable pub pick_hop : Rib → List Port → NodeId → List NodeId → Option Pick
pick_hop rib ports_down node [] = none
pick_hop rib ports_down node (lfa ∷ lfas) =
    let rest = pick_hop rib ports_down node lfas in
    let dst_addr = rib.lookup_node_address node in
    elim (neigh_port rib ports_down lfa) [
      | none ↦ rest
      | some port_id ↦
          if dst_addr == 0
          then rest
          else some (record { dst_addr = dst_addr; port_id = port_id; lfa = lfa })
    ]

-- The variables of the loop over all nodes.
pub record Picks : Type 0 where
  pub next_ports_new : NextPorts
  pub port_hits : List (Port × ℕ)
  pub dflt_hits : ℕ
  pub dflt_port : Port
  pub dflt_nhop : NodeId

abbrev pub no_picks : NodeId → Picks
no_picks dflt_nhop = record {
  next_ports_new = [];
  port_hits = [];
  dflt_hits = 0;
  dflt_port = 0;
  dflt_nhop = dflt_nhop;
}

abbrev pub hits_of : Option ℕ → ℕ
hits_of none = 0
hits_of (some hits) = hits

-- A port is found for a node.
unfoldable pub count_pick : NodeId → Pick → Picks → Picks
count_pick node p s =
    let hits = suc (hits_of (addr_find p.port_id s.port_hits)) in
    let t = record s {
      next_ports_new = addr_set p.dst_addr (node, p.port_id) s.next_ports_new;
      port_hits = addr_set p.port_id hits s.port_hits;
    } in
    if ltb s.dflt_hits hits
    then record t { dflt_hits = hits; dflt_port = p.port_id; dflt_nhop = p.lfa }
    else t

unfoldable pub pick_hops : Rib → List Port → NextHops → Picks → Picks
pick_hops rib ports_down [] s = s
pick_hops rib ports_down ((node, lfas) ∷ rest) s =
    pick_hops rib ports_down rest
      (elim (pick_hop rib ports_down node lfas) [ none ↦ s | some p ↦ count_pick node p s ])

-- The entries that do not go through the default port.
unfoldable pub prune : Port → NextPorts → NextPorts
prune dflt_port [] = []
prune dflt_port ((addr, (node, port_id)) ∷ rest) =
    if port_id == dflt_port
    then prune dflt_port rest
    else (addr, (node, port_id)) ∷ prune dflt_port rest

-- The table with its default entry, which has the address 0.
unfoldable pub default_table : Picks → NextPorts
default_table s =
    if ltb 0 s.dflt_hits
    then addr_set 0 ([], s.dflt_port) (prune s.dflt_port s.next_ports_new)
    else []

-- A call to the kernel.
pub data PduftOp : Type 0 where
  pduft_del : Addr → Port → PduftOp
  pduft_set : Addr → Port → PduftOp

-- The table has the address on this port.
unfoldable pub in_place : Addr → Port → NextPorts → Bool
in_place addr port_id table = elim (addr_find addr table) [
  | none ↦ false
  | some (node, p) ↦ p == port_id
]

-- The loop that removes old entries.
unfoldable pub del_old : NextPorts → NextPorts → List PduftOp
del_old next_ports_new [] = []
del_old next_ports_new ((addr, (node, port_id)) ∷ rest) =
    let ops = del_old next_ports_new rest in
    if in_place addr port_id next_ports_new then ops else PduftOp.pduft_del addr port_id ∷ ops

-- The loop that sets new entries; those that the kernel refuses are marked by the port 0.
unfoldable pub set_new : (Addr → Bool) → NextPorts → NextPorts → List PduftOp × NextPorts
set_new fails next_ports [] = ([], [])
set_new fails next_ports ((addr, (node, port_id)) ∷ rest) =
    let (ops, table) = set_new fails next_ports rest in
    if in_place addr port_id next_ports then (ops, (addr, (node, port_id)) ∷ table) else (
      PduftOp.pduft_set addr port_id ∷ ops,
      (addr, (if fails addr then ([], 0) else (node, port_id))) ∷ table,
    )

-- `RoutingEngine::compute_fwd_table`, with the kernel's answers to a `pduft_set`: the calls to the
-- kernel, and the state.
unfoldable pub compute_fwd_table : Rib → (Addr → Bool) → Engine → List PduftOp × Engine
compute_fwd_table rib fails s =
    let picks = pick_hops rib s.ports_down s.next_hops (no_picks s.dflt_nhop) in
    let next_ports_new = default_table picks in
    let (ops, table) = set_new fails s.next_ports next_ports_new in
    (
      del_old next_ports_new s.next_ports ++ ops,
      record s {
        next_ports = table;
        dflt_nhop = picks.dflt_nhop;
        next_hops =
            if ltb 0 picks.dflt_hits
            then map_set [] (picks.dflt_nhop ∷ []) s.next_hops
            else s.next_hops;
      },
    )

unfoldable pub erase_port : Port → List Port → List Port
erase_port p [] = []
erase_port p (q ∷ qs) = if q == p then qs else q ∷ erase_port p qs

-- `RoutingEngine::flow_state_update` for a port that goes up or down.
unfoldable pub flow_state_update :
    Rib → (Addr → Bool) → Bool → Port → Engine → List PduftOp × Engine
flow_state_update rib fails up local_port s =
    let ports_down =
      if up
      then erase_port local_port s.ports_down
      else (if has_port local_port s.ports_down then s.ports_down else local_port ∷ s.ports_down) in
    compute_fwd_table rib fails (record s { ports_down = ports_down })
