-- ===== src/Kernel/Pduft.antt =====
-- The PDU forwarding table of kernel/normal-common.c: a default route, the routes to a destination
-- and the routes of single flows, the latter two in hash tables. Locks are left out: each function
-- holds the table's lock over all that it does to the table.
pub mod Destinations
pub mod Flushing
pub mod References
mod Tests
use Prim.Native.Nat.{bit_or}
use rlite.Base.{
  ℕ, zero, suc, ◌+◌, ◌-◌, ◌*◌, ◌%◌, ◌^◌, Bool, true, false, not, ◌&&◌, ◌||◌, Option, none, some,
  List, [], ◌∷◌, ◌==◌, if◌then◌else◌,
}

pub record PciMatch : Type 0 where
  pub dst_addr : ℕ
  pub src_addr : ℕ
  pub dst_cepid : ℕ
  pub src_cepid : ℕ
  pub qos_id : ℕ

-- A `struct flow_entry *`, of which the table sees only the reference counter and the flags on its
-- removal.
abbrev pub FlowEntry : Type 0
FlowEntry = ℕ

pub record PduftEntry : Type 0 where
  pub match : PciMatch
  pub flow : FlowEntry

-- A `struct pduft_entry *`.
abbrev pub EntryAddress : Type 0
EntryAddress = ℕ

-- The lists of a hash table, by the number of the bucket.
abbrev pub HashTable : Type 0
HashTable = ℕ → List EntryAddress

-- `struct rl_normal`, with the memory that its entries lie in, the flows' reference counters, and
-- whether their flags postpone a removal: the flow is allocated and bound, and its removal was not
-- postponed before.
pub record Normal : Type 0 where
  pub pduft_dflt : Option FlowEntry
  pub perflow_present : Bool
  pub pdu_ft : HashTable
  pub pdu_ft_perflow : HashTable
  pub entry_at : EntryAddress → PduftEntry
  pub refcnt : FlowEntry → ℕ
  pub postpones : FlowEntry → Bool

pub data Code : Type 0 where
  done einval enomem not_found : Code

-- The number of buckets.
abbrev pub pduft_hashtable_size : ℕ
pduft_hashtable_size = 2 ^ 3

abbrev pub rl_addr_null : ℕ
rl_addr_null = 0

-- `PDUFT_PERFLOW_KEY`: the shift is one of 32 bits.
unfoldable pub pduft_perflow_key : ℕ → ℕ → ℕ
pduft_perflow_key daddr dcep = bit_or daddr (dcep * 2 ^ 16 % 2 ^ 32)

unfoldable pub flow_get_ref : FlowEntry → Normal → Normal
flow_get_ref flow s = record s { refcnt = λ f. if f == flow then s.refcnt f + 1 else s.refcnt f }

-- A counter less one reference. If that was the last, and the removal is postponed, it is 1 again.
unfoldable pub put_count : Bool → ℕ → ℕ
put_count postpones n = if n == 1 && postpones then 1 else n - 1

-- The removal of a flow whose counter stays at 0 is not part of the table.
unfoldable pub flow_put : FlowEntry → Normal → Normal
flow_put flow s = record s {
  refcnt = λ f. if f == flow then put_count (s.postpones f) (s.refcnt f) else s.refcnt f;
  postpones = λ f. s.postpones f && not (f == flow && s.refcnt f == 1);
}

unfoldable pub hash_add : HashTable → ℕ → EntryAddress → HashTable
hash_add t bucket entry = λ b. if b == bucket then entry ∷ t b else t b

unfoldable pub without : EntryAddress → List EntryAddress → List EntryAddress
without entry [] = []
without entry (e ∷ es) = if e == entry then without entry es else e ∷ without entry es

unfoldable pub is_nil : List EntryAddress → Bool
is_nil [] = true
is_nil (e ∷ es) = false

-- Whether the first `n` buckets are empty.
unfoldable pub hash_empty : ℕ → HashTable → Bool
unfolding is_nil
hash_empty zero t = true
hash_empty (suc n) t = is_nil (t n) && hash_empty n t

-- The first entry of a list that passes a test.
unfoldable pub find_entry :
    (PduftEntry → Bool) → (EntryAddress → PduftEntry) → List EntryAddress → Option EntryAddress
find_entry test at [] = none
find_entry test at (e ∷ es) = if test (at e) then some e else find_entry test at es

unfoldable pub is_same_flow : PciMatch → PduftEntry → Bool
is_same_flow pci entry =
    entry.match.dst_addr == pci.dst_addr
    && entry.match.src_addr == pci.src_addr
    && entry.match.dst_cepid == pci.dst_cepid
    && entry.match.src_cepid == pci.src_cepid
    && entry.match.qos_id == pci.qos_id

abbrev pub is_same_destination : PciMatch → PduftEntry → Bool
is_same_destination pci entry = entry.match.dst_addr == pci.dst_addr

unfoldable pub rl_pduft_match_is_dstonly : PciMatch → Bool
rl_pduft_match_is_dstonly match =
    match.src_addr == rl_addr_null && match.dst_cepid == 0 && match.src_cepid == 0

unfoldable pub rl_pduft_match_is_perflow : PciMatch → Bool
rl_pduft_match_is_perflow match =
    not (match.dst_addr == rl_addr_null)
    && not (match.src_addr == rl_addr_null)
    && not (match.dst_cepid == 0)
    && not (match.src_cepid == 0)

unfoldable pub pduft_entry_unlink : EntryAddress → Normal → Normal
unfolding flow_put without hash_empty
pduft_entry_unlink entry s =
    let perflow = λ (b : ℕ). without entry (s.pdu_ft_perflow b) in
    flow_put (s.entry_at entry).flow (record s {
      pdu_ft = λ b. without entry (s.pdu_ft b);
      pdu_ft_perflow = perflow;
      perflow_present =
          if hash_empty pduft_hashtable_size perflow then false else s.perflow_present;
    })

-- The loop of the flush functions over the entries of one bucket.
unfoldable pub unlink_bucket : (FlowEntry → Bool) → List EntryAddress → Normal → Normal
unlink_bucket test [] s = s
unlink_bucket test (e ∷ es) s =
    unlink_bucket test es (if test (s.entry_at e).flow then pduft_entry_unlink e s else s)

-- The loop over the buckets from `bucket` on, of which there are `n`.
unfoldable pub unlink_table : (Normal → HashTable) → (FlowEntry → Bool) → ℕ → ℕ → Normal → Normal
unlink_table table test zero bucket s = s
unlink_table table test (suc n) bucket s =
    unlink_table table test n (bucket + 1) (unlink_bucket test (table s bucket) s)

unfoldable pub unlink_tables : (FlowEntry → Bool) → Normal → Normal
unlink_tables test s =
    unlink_table (λ t. t.pdu_ft_perflow) test pduft_hashtable_size 0
      (unlink_table (λ t. t.pdu_ft) test pduft_hashtable_size 0 s)

unfoldable pub drop_default : Normal → Normal
drop_default s = elim s.pduft_dflt [
  | none ↦ s
  | some flow ↦ flow_put flow (record s { pduft_dflt = none })
]

unfoldable pub rl_pduft_flush : Normal → Normal
rl_pduft_flush s = unlink_tables (λ _. true) (drop_default s)

unfoldable pub rl_pduft_flush_by_flow : FlowEntry → Normal → Normal
rl_pduft_flush_by_flow flow s = unlink_tables (λ f. f == flow) s

unfoldable pub rl_pduft_del : EntryAddress → Normal → Normal
rl_pduft_del entry s = pduft_entry_unlink entry s

-- `entry->flow = flow; entry->match = *match`.
unfoldable pub write_entry : EntryAddress → PciMatch → FlowEntry → Normal → Normal
write_entry entry match flow s = record s {
  entry_at = λ e. if e == entry then record { match = match; flow = flow } else s.entry_at e;
}

-- `hash_min` is the kernel's.
module _ (hash_min : ℕ → ℕ) where
  unfoldable pub perflow_lookup : Normal → PciMatch → Option EntryAddress
  perflow_lookup s pci =
      if s.perflow_present
      then find_entry (is_same_flow pci) s.entry_at
          (s.pdu_ft_perflow (hash_min (pduft_perflow_key pci.dst_addr pci.dst_cepid)))
      else none

  unfoldable pub pduft_lookup_internal : Normal → PciMatch → Option EntryAddress
  pduft_lookup_internal s pci = elim (perflow_lookup s pci) [
    | some e ↦ some e
    | none ↦ find_entry (is_same_destination pci) s.entry_at (s.pdu_ft (hash_min pci.dst_addr))
  ]

  unfoldable pub rl_pduft_lookup : Normal → PciMatch → Option FlowEntry
  rl_pduft_lookup s pci = elim (pduft_lookup_internal s pci) [
    | some e ↦ some (s.entry_at e).flow
    | none ↦ s.pduft_dflt
  ]

  -- A new entry, in the table that its match belongs to.
  unfoldable pub link_entry : EntryAddress → PciMatch → Normal → Normal
  link_entry entry match s =
      if rl_pduft_match_is_dstonly match
      then record s { pdu_ft = hash_add s.pdu_ft (hash_min match.dst_addr) entry }
      else record s {
        pdu_ft_perflow =
            hash_add s.pdu_ft_perflow (hash_min (pduft_perflow_key match.dst_addr match.dst_cepid))
              entry;
        perflow_present = true;
      }

  -- The entry to write: the one that the lookup finds, whose flow is let go, or a new one at the
  -- address that `rl_alloc` gives, if it gives one.
  unfoldable pub entry_for :
      Option EntryAddress → PciMatch → Normal → Option (EntryAddress × Normal)
  entry_for alloc match s = elim (pduft_lookup_internal s match) [
    | some e ↦ some (e, flow_put (s.entry_at e).flow s)
    | none ↦ elim alloc [ none ↦ none | some e ↦ some (e, link_entry e match s) ]
  ]

  unfoldable pub rl_pduft_set : Option EntryAddress → PciMatch → FlowEntry → Normal → Code × Normal
  rl_pduft_set alloc match flow s =
      if not (rl_pduft_match_is_dstonly match) && not (rl_pduft_match_is_perflow match)
      then (einval, s)
      else if match.dst_addr == rl_addr_null
      then (done, flow_get_ref flow (record s { pduft_dflt = some flow }))
      else elim (entry_for alloc match s) [
        | none ↦ (enomem, s)
        | some (e, t) ↦ (done, flow_get_ref flow (write_entry e match flow t))
      ]

  unfoldable pub rl_pduft_del_addr : PciMatch → Normal → Code × Normal
  rl_pduft_del_addr match s =
      if match.dst_addr == rl_addr_null
      then (elim s.pduft_dflt [ none ↦ (not_found, s) | some flow ↦ (done, drop_default s) ])
      else elim (pduft_lookup_internal s match) [
        | none ↦ (not_found, s)
        | some e ↦ (done, pduft_entry_unlink e s)
      ]
