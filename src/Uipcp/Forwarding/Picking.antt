-- ===== src/Uipcp/Forwarding/Picking.antt =====
-- The loop of `compute_fwd_table` in user/uipcps/uipcp-normal-lower-flows.cpp over the next hops: what it
-- picks, and what its table and its default port keep.
use rlite.Base.{
  suc, ◌≡◌, ◌⊎◌, refl, sym, ap, ◌∙◌, subst, inl, inr, true, false, List, [], ◌∷◌, arith, IsIn,
  Bool-cases, Option-cases, none, some, ltb, ◌==◌,
}
use rlite.Uipcp.Lfdb.{NodeId}
use rlite.Uipcp.Lfdb.NextHops.{NextHops}
use rlite.Uipcp.Forwarding.{
  Addr, Port, NextPorts, Rib, Pick, Picks, no_picks, addr_find, addr_set, neigh_port, pick_hop,
  hits_of, count_pick, pick_hops,
}
use rlite.Uipcp.Forwarding.Tables.{IsMap, addr_set-IsMap, addr_find-set_same, addr_find-set_other}
use rlite.Uipcp.Forwarding.Mirroring.{HasPorts}

-- No neighbor is reached through the port 0.
abbrev pub HasNeighborPorts : Rib → List Port → Type 0
HasNeighborPorts rib ports_down =
    (lfa : NodeId) (p : Port) → neigh_port rib ports_down lfa ≡ some p → (p == 0) ≡ false

-- The table has the address on the port.
abbrev pub IsOn : Addr → Port → NextPorts → Type 0
IsOn a port table = (name : NodeId) × (addr_find a table ≡ some (name, port))

module _ (rib : Rib) (ports_down : List Port) where
  -- What is picked is the address of the node, and the port of a neighbor.
  pub record IsUsable (node : NodeId) (p : Pick) : Type 0 where
    pub addr : p.dst_addr ≡ rib.lookup_node_address node
    pub known : (p.dst_addr == 0) ≡ false
    pub port : neigh_port rib ports_down p.lfa ≡ some p.port_id

  pub pick_hop-IsUsable :
      (node : NodeId) (lfas : List NodeId) (p : Pick)
      → pick_hop rib ports_down node lfas ≡ some p
      → IsUsable node p
  unfolding pick_hop
  pick_hop-IsUsable node [] p found = absurd (ground arith)
  pick_hop-IsUsable node (lfa ∷ lfas) p found =
      elim (Option-cases (neigh_port rib ports_down lfa)) [
        | inl down ↦ pick_hop-IsUsable node lfas p (ground arith)
        | inr (port_id, up) ↦ elim (Bool-cases (rib.lookup_node_address node == 0)) [
          | inl null ↦ pick_hop-IsUsable node lfas p (ground arith)
          | inr known ↦
              let here : Pick = record {
                dst_addr = rib.lookup_node_address node;
                port_id = port_id;
                lfa = lfa;
              } in
              let same : here ≡ p = ground arith in
              subst (IsUsable node) same (record { addr = refl; known = known; port = up })
        ]
      ]

  -- What the variables of the loop keep.
  pub record IsPicked (s : Picks) : Type 0 where
    pub map : IsMap s.next_ports_new
    pub ports : HasPorts s.next_ports_new
    pub addrs : addr_find 0 s.next_ports_new ≡ none
    pub counted : (ltb 0 s.dflt_hits ≡ true) ⊎ (s.next_ports_new ≡ [])
    pub dflt : ltb 0 s.dflt_hits ≡ true → (s.dflt_port == 0) ≡ false

  pub no_picks-IsPicked : (dflt_nhop : NodeId) → IsPicked (no_picks dflt_nhop)
  unfolding IsMap addr_find
  no_picks-IsPicked dflt_nhop = record {
    map = tt;
    ports = λ b node p found. absurd (ground (arith, found));
    addrs = refl;
    counted = inr refl;
    dflt = λ positive. absurd (ground (arith, positive));
  }

  count_pick-IsPicked :
      (node : NodeId) (p : Pick) (s : Picks)
      → (p.dst_addr == 0) ≡ false
      → (p.port_id == 0) ≡ false
      → IsPicked s
      → IsPicked (count_pick node p s)
  unfolding count_pick
  count_pick-IsPicked node p s known port h =
      let hits = suc (hits_of (addr_find p.port_id s.port_hits)) in
      let table : (count_pick node p s).next_ports_new
          ≡ addr_set p.dst_addr (node, p.port_id) s.next_ports_new =
        elim (Bool-cases (ltb s.dflt_hits hits)) [
          | inl more ↦ ground arith
          | inr less ↦ ground arith
        ] in
      record {
        map =
            subst IsMap (sym table)
              (addr_set-IsMap p.dst_addr (node, p.port_id) s.next_ports_new h.map);
        ports = λ b name q found. elim (Bool-cases (p.dst_addr == b)) [
          | inl this ↦
              let same : p.dst_addr ≡ b = ground arith in
              let set = addr_find-set_same p.dst_addr (node, p.port_id) s.next_ports_new in
              let here =
                subst
                  (λ c.
                    addr_find c (addr_set p.dst_addr (node, p.port_id) s.next_ports_new)
                    ≡ some (node, p.port_id))
                  same set in
              let value : q ≡ p.port_id = ground arith in ground arith
          | inr other ↦
              let old = addr_find-set_other p.dst_addr b (node, p.port_id) s.next_ports_new other in
              h.ports b name q (sym old ∙ ap (addr_find b) (sym table) ∙ found)
        ];
        addrs =
            ap (addr_find 0) table
            ∙ addr_find-set_other p.dst_addr 0 (node, p.port_id) s.next_ports_new known
            ∙ h.addrs;
        counted = inl (elim (Bool-cases (ltb s.dflt_hits hits)) [
          | inl more ↦ ground arith
          | inr less ↦ ground arith
        ]);
        dflt = λ positive. elim (Bool-cases (ltb s.dflt_hits hits)) [
          | inl more ↦ ground arith
          | inr less ↦ let before = h.dflt (ground arith) in ground arith
        ];
      }

  pub pick_hops-IsPicked :
      (next_hops : NextHops) (s : Picks)
      → HasNeighborPorts rib ports_down
      → IsPicked s
      → IsPicked (pick_hops rib ports_down next_hops s)
  unfolding pick_hops
  pick_hops-IsPicked [] s ports h = h
  pick_hops-IsPicked ((node, lfas) ∷ rest) s ports h =
      elim (Option-cases (pick_hop rib ports_down node lfas)) [
        | inl missing ↦
            let step : pick_hops rib ports_down ((node, lfas) ∷ rest) s
                ≡ pick_hops rib ports_down rest s =
              ground arith in
            subst IsPicked (sym step) (pick_hops-IsPicked rest s ports h)
        | inr (p, found) ↦
            let usable = pick_hop-IsUsable node lfas p found in
            let step : pick_hops rib ports_down ((node, lfas) ∷ rest) s
                ≡ pick_hops rib ports_down rest (count_pick node p s) =
              ground arith in
            subst IsPicked (sym step) (
              pick_hops-IsPicked rest (count_pick node p s) ports
                (count_pick-IsPicked node p s usable.known (ports p.lfa p.port_id usable.port) h))
      ]

  -- All that is picked for an address is on the port.
  abbrev pub AllOn : Addr → Port → NextHops → Type 0
  AllOn a port next_hops =
      (node : NodeId) (lfas : List NodeId) (p : Pick)
      → IsIn (node, lfas) next_hops
      → pick_hop rib ports_down node lfas ≡ some p
      → p.dst_addr ≡ a
      → p.port_id ≡ port

  count_pick-table :
      (node : NodeId) (p : Pick) (s : Picks)
      → (count_pick node p s).next_ports_new
        ≡ addr_set p.dst_addr (node, p.port_id) s.next_ports_new
  unfolding count_pick
  count_pick-table node p s =
      elim (Bool-cases (ltb s.dflt_hits (suc (hits_of (addr_find p.port_id s.port_hits))))) [
        | inl more ↦ ground arith
        | inr less ↦ ground arith
      ]

  count_pick-set :
      (node : NodeId) (p : Pick) (s : Picks)
      → IsOn p.dst_addr p.port_id (count_pick node p s).next_ports_new
  count_pick-set node p s = (
    node,
    ap (addr_find p.dst_addr) (count_pick-table node p s)
        ∙ addr_find-set_same p.dst_addr (node, p.port_id) s.next_ports_new,
  )

  count_pick-IsOn :
      (node : NodeId) (p : Pick) (s : Picks) (a : Addr) (port : Port)
      → (p.dst_addr ≡ a → p.port_id ≡ port)
      → IsOn a port s.next_ports_new
      → IsOn a port (count_pick node p s).next_ports_new
  count_pick-IsOn node p s a port same (name, found) = elim (Bool-cases (p.dst_addr == a)) [
    | inl this ↦
        let here : p.dst_addr ≡ a = ground arith in
        let on = count_pick-set node p s in
        subst (λ b. IsOn b port (count_pick node p s).next_ports_new) here
          (subst (λ q. IsOn p.dst_addr q (count_pick node p s).next_ports_new) (same here) on)
    | inr other ↦ (
      name,
      ap (addr_find a) (count_pick-table node p s)
          ∙ addr_find-set_other p.dst_addr a (node, p.port_id) s.next_ports_new other
          ∙ found,
    )
  ]

  pick_hops-keeps :
      (next_hops : NextHops) (s : Picks) (a : Addr) (port : Port)
      → AllOn a port next_hops
      → IsOn a port s.next_ports_new
      → IsOn a port (pick_hops rib ports_down next_hops s).next_ports_new
  unfolding pick_hops
  pick_hops-keeps [] s a port all on = on
  pick_hops-keeps ((node, lfas) ∷ rest) s a port all on =
      let later : AllOn a port rest = λ n ls p inside. all n ls p (inr inside) in
      elim (Option-cases (pick_hop rib ports_down node lfas)) [
        | inl missing ↦
            let step : pick_hops rib ports_down ((node, lfas) ∷ rest) s
                ≡ pick_hops rib ports_down rest s =
              ground arith in
            subst (λ t. IsOn a port t.next_ports_new) (sym step)
              (pick_hops-keeps rest s a port later on)
        | inr (p, found) ↦
            let step : pick_hops rib ports_down ((node, lfas) ∷ rest) s
                ≡ pick_hops rib ports_down rest (count_pick node p s) =
              ground arith in
            subst (λ t. IsOn a port t.next_ports_new) (sym step)
              (pick_hops-keeps rest (count_pick node p s) a port later
                (count_pick-IsOn node p s a port (all node lfas p (inl refl) found) on))
      ]

  -- The table has each destination on the port of its first next hop that will do.
  pub pick_hops-IsOn :
      (next_hops : NextHops) (s : Picks) (node : NodeId) (lfas : List NodeId) (p : Pick)
      → IsIn (node, lfas) next_hops
      → pick_hop rib ports_down node lfas ≡ some p
      → AllOn p.dst_addr p.port_id next_hops
      → IsOn p.dst_addr p.port_id (pick_hops rib ports_down next_hops s).next_ports_new
  unfolding pick_hops
  pick_hops-IsOn [] s node lfas p no_place found all = absurd no_place
  pick_hops-IsOn ((n, ls) ∷ rest) s node lfas p (inl this) found all =
      let hop : pick_hop rib ports_down n ls ≡ some p =
        ap (λ (x : NodeId × List NodeId). pick_hop rib ports_down x.0 x.1) this ∙ found in
      let step : pick_hops rib ports_down ((n, ls) ∷ rest) s
          ≡ pick_hops rib ports_down rest (count_pick n p s) =
        ground arith in
      subst (λ t. IsOn p.dst_addr p.port_id t.next_ports_new) (sym step)
        (pick_hops-keeps rest (count_pick n p s) p.dst_addr p.port_id
          (λ m ks q inside. all m ks q (inr inside)) (count_pick-set n p s))
  pick_hops-IsOn ((n, ls) ∷ rest) s node lfas p (inr later) found all =
      pick_hops-IsOn rest
        (elim (pick_hop rib ports_down n ls) [ none ↦ s | some q ↦ count_pick n q s ]) node lfas p
        later found (λ m ks q inside. all m ks q (inr inside))
