-- ===== src/Kernel/Pduft/Destinations.antt =====
-- The routes of kernel/normal-common.c to destinations: what `rl_pduft_set` makes of the lookups.
use rlite.Base.{
  ℕ, ◌≡◌, ◌≢◌, refl, true, false, Option, none, some, List, [], ◌∷◌, arith, ◌==◌, if◌then◌else◌,
  Option-cases, inl, inr,
}
use rlite.Kernel.Pduft.{
  PciMatch, FlowEntry, PduftEntry, EntryAddress, Normal, done, find_entry, is_same_destination,
  rl_pduft_match_is_dstonly, rl_pduft_match_is_perflow, write_entry, hash_add, flow_put,
  flow_get_ref, perflow_lookup, pduft_lookup_internal, rl_pduft_lookup, link_entry, entry_for,
  rl_pduft_set,
}

abbrev pub Entries : Type 0
Entries = EntryAddress → PduftEntry

-- The flow of the first entry of a list for a destination.
abbrev pub flow_to : PciMatch → Entries → List EntryAddress → Option FlowEntry
flow_to pci at [] = none
flow_to pci at (e ∷ es) =
    if is_same_destination pci (at e) then some (at e).flow else flow_to pci at es

-- An address that is not in a list.
abbrev pub Absent : EntryAddress → List EntryAddress → Type 0
Absent a [] = Unit {0}
Absent a (e ∷ es) = (e ≢ a) × Absent a es

abbrev pub rewritten : Entries → EntryAddress → PciMatch → FlowEntry → Entries
rewritten at entry match flow =
    λ e. if e == entry then record { match = match; flow = flow } else at e

find_entry-flow_to :
    (pci : PciMatch) (at : Entries) (es : List EntryAddress)
    → flow_to pci at es ≡ elim (find_entry (is_same_destination pci) at es) [
      | none ↦ none
      | some e ↦ some (at e).flow
    ]
unfolding find_entry
find_entry-flow_to pci at [] = refl
find_entry-flow_to pci at (e ∷ es) = ground (arith, find_entry-flow_to pci at es)

find_entry_sound :
    (pci : PciMatch) (at : Entries) (es : List EntryAddress) (e : EntryAddress)
    → find_entry (is_same_destination pci) at es ≡ some e
    → (at e).match.dst_addr ≡ pci.dst_addr
unfolding find_entry
find_entry_sound pci at [] e h = ground arith
find_entry_sound pci at (x ∷ es) e h = ground (arith, find_entry_sound pci at es e)

module _ (at : Entries) (match : PciMatch) (flow : FlowEntry) (p : PciMatch) where
  flow_to-found :
      (es : List EntryAddress) (e : EntryAddress)
      → match.dst_addr ≡ p.dst_addr
      → find_entry (is_same_destination match) at es ≡ some e
      → flow_to p (rewritten at e match flow) es ≡ some flow
  unfolding find_entry
  flow_to-found [] e same h = ground arith
  flow_to-found (x ∷ es) e same h =
      ground (arith, flow_to-found es e same, find_entry_sound match at es e)

  flow_to-other :
      (es : List EntryAddress) (e : EntryAddress)
      → match.dst_addr ≢ p.dst_addr
      → (at e).match.dst_addr ≡ match.dst_addr
      → flow_to p (rewritten at e match flow) es ≡ flow_to p at es
  flow_to-other [] e other h = refl
  flow_to-other (x ∷ es) e other h = ground (arith, flow_to-other es e other h)

  flow_to-Absent :
      (es : List EntryAddress) (e : EntryAddress)
      → Absent e es
      → flow_to p (rewritten at e match flow) es ≡ flow_to p at es
  flow_to-Absent [] e h = refl
  flow_to-Absent (x ∷ es) e h = ground (arith, flow_to-Absent es e h.1)

module _ (hash_min : ℕ → ℕ) where
  -- Without routes of single flows, a lookup gives the flow to the destination, or the default.
  lookup-flow_to :
      (s : Normal) (p : PciMatch)
      → s.perflow_present ≡ false
      → rl_pduft_lookup hash_min s p
        ≡ elim (flow_to p s.entry_at (s.pdu_ft (hash_min p.dst_addr))) [
          | none ↦ s.pduft_dflt
          | some f ↦ some f
        ]
  unfolding rl_pduft_lookup pduft_lookup_internal perflow_lookup
  lookup-flow_to s p none_present =
      ground (arith, find_entry-flow_to p s.entry_at (s.pdu_ft (hash_min p.dst_addr)))

  -- The state after a route to a destination was set.
  abbrev pub Routes : Normal → PciMatch → FlowEntry → Normal → Type 0
  Routes s match flow t =
      (p : PciMatch)
      → rl_pduft_lookup hash_min t p
        ≡ (if match.dst_addr == p.dst_addr then some flow else rl_pduft_lookup hash_min s p)

  module _ (s : Normal) (match : PciMatch) (flow : FlowEntry)
      (none_present : s.perflow_present ≡ false) where
    overwriting :
        (e : EntryAddress)
        → find_entry (is_same_destination match) s.entry_at (s.pdu_ft (hash_min match.dst_addr))
          ≡ some e
        → Routes s match flow
            (flow_get_ref flow (write_entry e match flow (flow_put (s.entry_at e).flow s)))
    unfolding flow_get_ref write_entry flow_put
    overwriting e found p =
        let es = s.pdu_ft (hash_min p.dst_addr) in
        let t = flow_get_ref flow (write_entry e match flow (flow_put (s.entry_at e).flow s)) in
        ground (
          arith,
          lookup-flow_to t p none_present,
          lookup-flow_to s p none_present,
          flow_to-found s.entry_at match flow p es e,
          flow_to-other s.entry_at match flow p es e,
          find_entry_sound match s.entry_at (s.pdu_ft (hash_min match.dst_addr)) e found,
        )

    -- The entry is new.
    adding :
        (e : EntryAddress)
        → ((p : PciMatch) → Absent e (s.pdu_ft (hash_min p.dst_addr)))
        → rl_pduft_match_is_dstonly match ≡ true
        → find_entry (is_same_destination match) s.entry_at (s.pdu_ft (hash_min match.dst_addr))
          ≡ none
        → Routes s match flow
            (flow_get_ref flow (write_entry e match flow (link_entry hash_min e match s)))
    unfolding flow_get_ref write_entry link_entry hash_add
    adding e fresh dstonly missing p =
        let es = s.pdu_ft (hash_min p.dst_addr) in
        let t = flow_get_ref flow (write_entry e match flow (link_entry hash_min e match s)) in
        ground (
          arith,
          lookup-flow_to t p,
          lookup-flow_to s p none_present,
          flow_to-Absent s.entry_at match flow p es e (fresh p),
        )

  -- Where there are no routes of single flows, setting a route to a destination other than the null
  -- address works, if the allocation gives an address that is not in the table. Then all that goes
  -- to the destination is routed over the flow, and all else as before.
  pub rl_pduft_set-Routes :
      (s : Normal) (match : PciMatch) (flow : FlowEntry) (e : EntryAddress)
      → s.perflow_present ≡ false
      → rl_pduft_match_is_dstonly match ≡ true
      → match.dst_addr ≢ 0
      → ((p : PciMatch) → Absent e (s.pdu_ft (hash_min p.dst_addr)))
      → (t : Normal) × (rl_pduft_set hash_min (some e) match flow s ≡ (done, t))
        × Routes s match flow t
  unfolding rl_pduft_set entry_for pduft_lookup_internal perflow_lookup
  rl_pduft_set-Routes s match flow e none_present dstonly address fresh =
      elim (Option-cases
        (find_entry (is_same_destination match) s.entry_at (s.pdu_ft (hash_min match.dst_addr)))) [
          | inl missing ↦ (
            flow_get_ref flow (write_entry e match flow (link_entry hash_min e match s)),
            ground arith,
            adding s match flow none_present e fresh dstonly missing,
          )
          | inr (old, found) ↦ (
            flow_get_ref flow (write_entry old match flow (flow_put (s.entry_at old).flow s)),
            ground arith,
            overwriting s match flow none_present old found,
          )
        ]

  -- Where there are no routes of single flows, setting one of them to a destination that has a
  -- route takes the place of that route: all that goes to the destination is then routed over the
  -- new flow, whoever it comes from.
  pub rl_pduft_set_perflow-Routes :
      (s : Normal) (match : PciMatch) (flow : FlowEntry) (alloc : Option EntryAddress)
      (old : EntryAddress)
      → s.perflow_present ≡ false
      → rl_pduft_match_is_perflow match ≡ true
      → find_entry (is_same_destination match) s.entry_at (s.pdu_ft (hash_min match.dst_addr))
        ≡ some old
      → (t : Normal) × (rl_pduft_set hash_min alloc match flow s ≡ (done, t))
        × Routes s match flow t
  unfolding rl_pduft_set entry_for pduft_lookup_internal perflow_lookup rl_pduft_match_is_perflow
  rl_pduft_set_perflow-Routes s match flow alloc old none_present perflow found = (
    flow_get_ref flow (write_entry old match flow (flow_put (s.entry_at old).flow s)),
    ground arith,
    overwriting s match flow none_present old found,
  )
