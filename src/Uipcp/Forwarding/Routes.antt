-- ===== src/Uipcp/Forwarding/Routes.antt =====
-- `compute_fwd_table` of user/uipcps/uipcp-normal-lower-flows.cpp as a whole: the kernel's table follows the
-- engine's, and forwards to the next hops.
use rlite.Base.{
  ◌≡◌, sym, ap, ◌∙◌, subst, inl, inr, Bool, false, List, [], arith, IsIn, Bool-cases, Option,
  Option-cases, none, some, ltb, ◌==◌, if◌then◌else◌, true-false,
}
use rlite.Uipcp.Lfdb.{NodeId}
use rlite.Uipcp.Forwarding.{
  Addr, Port, Rib, no_picks, Engine, Pick, Picks, PduftOp, addr_find, addr_set, pick_hop, pick_hops,
  prune, default_table, compute_fwd_table,
}
use rlite.Uipcp.Forwarding.Tables.{
  IsMap, addr_set-IsMap, prune-IsMap, addr_find-set_same, addr_find-set_other, addr_find-prune,
  prune-addr_find,
}
use rlite.Uipcp.Forwarding.Mirroring.{
  HasPorts, Mirrors, after_ops, port_of, set_new-IsMap, update-Mirrors, set_new-accepted,
}
use rlite.Uipcp.Forwarding.Picking.{
  no_picks-IsPicked, HasNeighborPorts, IsPicked, IsOn, AllOn, pick_hops-IsPicked, pick_hops-IsOn,
  pick_hop-IsUsable,
}

-- The kernel's lookup: the entry of the address, or the default entry.
unfoldable pub forward : (Addr → Option Port) → Addr → Option Port
forward kernel a = elim (kernel a) [ none ↦ kernel 0 | some p ↦ some p ]

forward-same :
    (f g : Addr → Option Port) → ((b : Addr) → f b ≡ g b) → (a : Addr) → forward f a ≡ forward g a
unfolding forward
forward-same f g same a =
    let here = same a in
    let default = same 0 in
    elim (Option-cases (f a)) [ inl missing ↦ ground arith | inr (p, found) ↦ ground arith ]

module _ (rib : Rib) (ports_down : List Port) where
  default_table-IsMap : (s : Picks) → IsPicked rib ports_down s → IsMap (default_table s)
  unfolding default_table IsMap
  default_table-IsMap s h = elim (Bool-cases (ltb 0 s.dflt_hits)) [
    | inl some_hits ↦
        let table = prune s.dflt_port s.next_ports_new in
        let step : default_table s ≡ addr_set 0 ([], s.dflt_port) table = ground arith in
        subst IsMap (sym step) (
          addr_set-IsMap 0 ([], s.dflt_port) table (prune-IsMap s.dflt_port s.next_ports_new h.map))
    | inr no_hits ↦ let step : default_table s ≡ [] = ground arith in subst IsMap (sym step) tt
  ]

  default_table-HasPorts : (s : Picks) → IsPicked rib ports_down s → HasPorts (default_table s)
  unfolding default_table addr_find
  default_table-HasPorts s h b node p found = elim (Bool-cases (ltb 0 s.dflt_hits)) [
    | inl some_hits ↦
        let table = prune s.dflt_port s.next_ports_new in
        let dflt = h.dflt some_hits in
        let step : default_table s ≡ addr_set 0 ([], s.dflt_port) table = ground arith in
        elim (Bool-cases (0 == b)) [
          | inl this ↦
              let same : 0 ≡ b = ground arith in
              let set = addr_find-set_same 0 ([], s.dflt_port) table in
              let here =
                subst
                  (λ c. addr_find c (addr_set 0 ([], s.dflt_port) table) ≡ some ([], s.dflt_port))
                  same set in
              let there : addr_find b (addr_set 0 ([], s.dflt_port) table) ≡ some (node, p) =
                ap (addr_find b) (sym step) ∙ found in
              let value : p ≡ s.dflt_port = ground arith in ground arith
          | inr other ↦
              let set = addr_find-set_other 0 b ([], s.dflt_port) table other in
              let there = sym set ∙ ap (addr_find b) (sym step) ∙ found in
              h.ports b node p (prune-addr_find b s.dflt_port s.next_ports_new node p h.map there)
        ]
    | inr no_hits ↦
        let step : default_table s ≡ [] = ground arith in
        absurd (ground (arith, ap (addr_find b) step))
  ]

  -- The default entry stands for the entries that it replaces.
  default_table-forward :
      (s : Picks) (a : Addr) (p : Port)
      → IsPicked rib ports_down s
      → (a == 0) ≡ false
      → IsOn a p s.next_ports_new
      → forward (λ b. port_of (addr_find b (default_table s))) a ≡ some p
  unfolding default_table forward port_of addr_find
  default_table-forward s a p h known (name, found) = elim (Bool-cases (ltb 0 s.dflt_hits)) [
    | inl some_hits ↦
        let table = prune s.dflt_port s.next_ports_new in
        let dflt = h.dflt some_hits in
        let port = h.ports a name p found in
        let full = addr_set 0 ([], s.dflt_port) table in
        let step : default_table s ≡ full = ground arith in
        let set = ap (addr_find 0) step ∙ addr_find-set_same 0 ([], s.dflt_port) table in
        let entry : addr_find a (default_table s)
            ≡ (if p == s.dflt_port then none else some (name, p)) =
          ap (addr_find a) step
          ∙ addr_find-set_other 0 a ([], s.dflt_port) table (ground arith)
          ∙ addr_find-prune a s.dflt_port s.next_ports_new name p h.map found in
        elim (Bool-cases (p == s.dflt_port)) [ inl same ↦ ground arith | inr other ↦ ground arith ]
    | inr no_hits ↦ elim h.counted [
      | inl positive ↦ absurd (true-false (sym positive ∙ no_hits))
      | inr empty ↦ absurd (ground (arith, ap (addr_find a) (sym empty) ∙ found))
    ]
  ]

module _ (rib : Rib) (s : Engine) where
  -- The picks, and the table that they make.
  abbrev picks_of : Picks
  picks_of = pick_hops rib s.ports_down s.next_hops (no_picks s.dflt_nhop)

  picks_of-IsPicked : HasNeighborPorts rib s.ports_down → IsPicked rib s.ports_down picks_of
  picks_of-IsPicked ports =
      pick_hops-IsPicked rib s.ports_down s.next_hops (no_picks s.dflt_nhop) ports
        (no_picks-IsPicked rib s.ports_down s.dflt_nhop)

module _ (rib : Rib) (fails : Addr → Bool) (s : Engine) where
  -- The engine's table has one entry for an address, and the kernel's has the same ports.
  pub record Follows (kernel : Addr → Option Port) (r : List PduftOp × Engine) : Type 0 where
    pub map : IsMap r.1.next_ports
    pub mirrors : Mirrors r.1.next_ports (λ b. after_ops fails b r.0 (kernel b))

  -- If the table of the engine has one entry for an address, the kernel's table has the same ports,
  -- and no neighbor has the port 0, then this holds after `compute_fwd_table` too, whichever new
  -- entries the kernel refuses, where a refused entry is one that the kernel does not have. The
  -- kernel refuses no deletion.
  pub compute_fwd_table-Follows :
      (kernel : Addr → Option Port)
      → HasNeighborPorts rib s.ports_down
      → IsMap s.next_ports
      → Mirrors s.next_ports kernel
      → Follows kernel (compute_fwd_table rib fails s)
  unfolding compute_fwd_table
  compute_fwd_table-Follows kernel ports map mirrors =
      let picked = picks_of-IsPicked rib s ports in
      let new = default_table (picks_of rib s) in
      let map_new = default_table-IsMap rib s.ports_down (picks_of rib s) picked in
      record {
        map = set_new-IsMap fails s.next_ports new map_new;
        mirrors =
            update-Mirrors fails s.next_ports new kernel map map_new
              (default_table-HasPorts rib s.ports_down (picks_of rib s) picked) mirrors;
      }

-- A node is in the routing table with next hops of which one will do: it is a neighbor with a flow
-- whose port is not down, and the node's address is known. All else that is picked for that address
-- has the same port, no neighbor has the port 0, and the table of the kernel has the ports of the
-- engine's. If the kernel refuses no call, its lookup of the node's address after
-- `compute_fwd_table` gives the port of the first next hop that will do, in an entry of its own or
-- the default entry.
pub compute_fwd_table-forward :
    (rib : Rib) (s : Engine) (kernel : Addr → Option Port) (node : NodeId) (lfas : List NodeId)
    (p : Pick)
    → HasNeighborPorts rib s.ports_down
    → IsMap s.next_ports
    → Mirrors s.next_ports kernel
    → IsIn (node, lfas) s.next_hops
    → pick_hop rib s.ports_down node lfas ≡ some p
    → AllOn rib s.ports_down p.dst_addr p.port_id s.next_hops
    → forward
        (λ b. after_ops (λ a. false) b (compute_fwd_table rib (λ a. false) s).0 (kernel b))
        p.dst_addr
      ≡ some p.port_id
unfolding compute_fwd_table forward
compute_fwd_table-forward rib s kernel node lfas p ports map mirrors inside found all =
    let fails : Addr → Bool = λ a. false in
    let picks = picks_of rib s in
    let picked = picks_of-IsPicked rib s ports in
    let new = default_table picks in
    let map_new = default_table-IsMap rib s.ports_down picks picked in
    let ports_new = default_table-HasPorts rib s.ports_down picks picked in
    let table = set_new-accepted s.next_ports new in
    let after : Addr → Option Port =
      λ b. after_ops fails b (compute_fwd_table rib fails s).0 (kernel b) in
    let same : (b : Addr) → after b ≡ port_of (addr_find b new) = λ b.
      update-Mirrors fails s.next_ports new kernel map map_new ports_new mirrors b
      ∙ ap (λ t. port_of (addr_find b t)) table in
    let on =
      pick_hops-IsOn rib s.ports_down s.next_hops (no_picks s.dflt_nhop) node lfas p inside found
        all in
    let usable = pick_hop-IsUsable rib s.ports_down node lfas p found in
    forward-same after (λ b. port_of (addr_find b new)) same p.dst_addr
    ∙ default_table-forward rib s.ports_down picks p.dst_addr p.port_id picked usable.known on
