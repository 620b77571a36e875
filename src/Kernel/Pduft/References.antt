-- ===== src/Kernel/Pduft/References.antt =====
-- The references that the table of kernel/normal-common.c holds on flows.
use rlite.Base.{
  ℕ, zero, suc, ◌+◌, ◌≡◌, ◌≢◌, refl, Bool, true, false, Option, none, some, [], arith, ◌==◌, ◌&&◌,
  if◌then◌else◌, Option-cases, inl, inr,
}
use rlite.Kernel.Pduft.{
  PciMatch, FlowEntry, EntryAddress, Normal, HashTable, done, rl_pduft_match_is_dstonly, put_count,
  flow_put, flow_get_ref, unlink_bucket, unlink_table, unlink_tables, drop_default, rl_pduft_flush,
  link_entry, write_entry, entry_for, pduft_lookup_internal, rl_pduft_set,
}

-- The flow whose reference a route drops when it takes the place of another one.
abbrev pub released : (ℕ → ℕ) → PciMatch → Normal → Option FlowEntry
released hash_min match s =
    if match.dst_addr == 0 then none else elim (pduft_lookup_internal hash_min s match) [
      | none ↦ none
      | some e ↦ some (s.entry_at e).flow
    ]

abbrev pub is_flow : Option FlowEntry → FlowEntry → Bool
is_flow none f = false
is_flow (some g) f = f == g

-- Setting a route, if it works, takes one reference on its flow, and drops one on the flow of the
-- table entry that it overwrites, if any, and on no other; a default route drops none. If the
-- reference dropped is the last one and the removal of its flow is postponed, the counter is 1
-- again before the new reference is taken.
pub rl_pduft_set-refcnt :
    (hash_min : ℕ → ℕ) (alloc : Option EntryAddress) (match : PciMatch) (flow f : FlowEntry)
    (s : Normal)
    → (rl_pduft_set hash_min alloc match flow s).0 ≡ done
    → (rl_pduft_set hash_min alloc match flow s).1.refcnt f
      ≡ (if is_flow (released hash_min match s) f
          then put_count (s.postpones f) (s.refcnt f)
          else s.refcnt f)
        + (if f == flow then 1 else 0)
unfolding rl_pduft_set entry_for flow_put flow_get_ref write_entry link_entry
rl_pduft_set-refcnt hash_min alloc match flow f s h =
    elim (Option-cases (pduft_lookup_internal hash_min s match)) [
      | inl missing ↦ elim (Option-cases alloc) [
        | inl out_of_memory ↦ ground arith
        | inr (e, given) ↦ ground arith
      ]
      | inr (e, found) ↦ ground arith
    ]

module _ (table : Normal → HashTable) (test : FlowEntry → Bool) where
  unlink_table-empty :
      (n bucket : ℕ) (s : Normal)
      → ((b : ℕ) → table s b ≡ [])
      → unlink_table table test n bucket s ≡ s
  unfolding unlink_table unlink_bucket
  unlink_table-empty zero bucket s h = refl
  unlink_table-empty (suc n) bucket s h = rw (h bucket) (unlink_table-empty n (bucket + 1) s h)

module _ (hash_min : ℕ → ℕ) (s : Normal) (match : PciMatch) (alloc : Option EntryAddress)
    (old flow : FlowEntry) (dstonly : rl_pduft_match_is_dstonly match ≡ true)
    (default_route : match.dst_addr ≡ 0) (others : old ≢ flow) (no_default : s.pduft_dflt ≡ none)
    (no_routes : (b : ℕ) → s.pdu_ft b ≡ [])
    (no_flow_routes : (b : ℕ) → s.pdu_ft_perflow b ≡ []) where
  abbrev set_twice : Normal
  set_twice = record s {
    pduft_dflt = some flow;
    refcnt = (flow_get_ref flow (flow_get_ref old s)).refcnt;
  }

  set_twice_lem :
      (rl_pduft_set hash_min alloc match flow (rl_pduft_set hash_min alloc match old s).1).1
      ≡ set_twice
  unfolding rl_pduft_set flow_get_ref
  set_twice_lem = ground arith

  set_twice-flush : rl_pduft_flush set_twice ≡ drop_default set_twice
  unfolding rl_pduft_flush unlink_tables drop_default flow_put
  set_twice-flush =
      let t = drop_default set_twice in
      rw (unlink_table-empty (λ u. u.pdu_ft) (λ _. true) 8 0 t no_routes)
        (unlink_table-empty (λ u. u.pdu_ft_perflow) (λ _. true) 8 0 t no_flow_routes)

  -- In a table with no routes, a default route that takes the place of another one leaves a
  -- reference on the old flow: after a flush of the table that flow has one reference more than
  -- before both, and the new one as many as before, or 1 if it had none and its removal is
  -- postponed.
  pub replaced_default_leaks :
      let t =
        rl_pduft_flush
          (rl_pduft_set hash_min alloc match flow (rl_pduft_set hash_min alloc match old s).1).1 in
      (t.refcnt old ≡ s.refcnt old + 1)
      × (t.refcnt flow ≡ (if s.refcnt flow == 0 && s.postpones flow then 1 else s.refcnt flow))
      × (t.pduft_dflt ≡ none)
  unfolding drop_default flow_put flow_get_ref put_count
  replaced_default_leaks = rw (set_twice_lem, set_twice-flush) (ground arith, ground arith, refl)
