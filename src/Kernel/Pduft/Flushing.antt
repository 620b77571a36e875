-- ===== src/Kernel/Pduft/Flushing.antt =====
-- The two flush functions of kernel/normal-common.c: what is left for the lookups to find.
use native.Mathlib.Decide.{dec_lt}
use rlite.Base.{
  ℕ, zero, suc, ◌+◌, ◌≡◌, ◌≤◌, ◌<◌, ◌⊎◌, inl, inr, refl, sym, subst, ◌∙◌, Bool, true, false, none,
  some, List, [], ◌∷◌, arith, ◌==◌, if◌then◌else◌, Bool-cases, Option-cases,
}
use rlite.Kernel.Pduft.{
  PciMatch, FlowEntry, PduftEntry, EntryAddress, Normal, HashTable, find_entry, without, flow_put,
  pduft_entry_unlink, unlink_bucket, unlink_table, unlink_tables, drop_default, rl_pduft_flush,
  rl_pduft_flush_by_flow, pduft_perflow_key, perflow_lookup, pduft_lookup_internal, rl_pduft_lookup,
  is_same_flow, is_same_destination,
}
use rlite.Kernel.Pduft.Destinations.{Entries}

abbrev Member : EntryAddress → List EntryAddress → Type 0
Member x [] = ⊥
Member x (e ∷ es) = (x ≡ e) ⊎ Member x es

abbrev AllMembers : List EntryAddress → List EntryAddress → Type 0
AllMembers [] ys = Unit {0}
AllMembers (x ∷ xs) ys = Member x ys × AllMembers xs ys

AllMembers-cons :
    (y : EntryAddress) (xs ys : List EntryAddress) → AllMembers xs ys → AllMembers xs (y ∷ ys)
AllMembers-cons y [] ys h = tt
AllMembers-cons y (x ∷ xs) ys h = (inr h.0, AllMembers-cons y xs ys h.1)

AllMembers-refl : (xs : List EntryAddress) → AllMembers xs xs
AllMembers-refl [] = tt
AllMembers-refl (x ∷ xs) = (inl refl, AllMembers-cons x xs xs (AllMembers-refl xs))

-- A table of a state, from whose lists an unlinked entry goes away.
record IsTable (table : Normal → HashTable) : Type 0 where
  pub unlinks :
      (e : EntryAddress) (s : Normal) (b : ℕ)
      → table (pduft_entry_unlink e s) b ≡ without e (table s b)

destinations-IsTable : IsTable (λ s. s.pdu_ft)
unfolding pduft_entry_unlink
destinations-IsTable = record { unlinks = λ e s b. refl }

flows-IsTable : IsTable (λ s. s.pdu_ft_perflow)
unfolding pduft_entry_unlink
flows-IsTable = record { unlinks = λ e s b. refl }

module _ (test : FlowEntry → Bool) where
  -- A list without entries that the test is for.
  abbrev Clean : Entries → List EntryAddress → Type 0
  Clean at [] = Unit {0}
  Clean at (x ∷ xs) = (test (at x).flow ≡ false) × Clean at xs

  -- The same, but for entries that are still to come.
  abbrev CleanBut : Entries → List EntryAddress → List EntryAddress → Type 0
  CleanBut at es [] = Unit {0}
  CleanBut at es (x ∷ xs) = ((test (at x).flow ≡ false) ⊎ Member x es) × CleanBut at es xs

  CleanBut-nil : (at : Entries) (xs : List EntryAddress) → CleanBut at [] xs → Clean at xs
  CleanBut-nil at [] h = tt
  CleanBut-nil at (x ∷ xs) (inl clean, h) = (clean, CleanBut-nil at xs h)
  CleanBut-nil at (x ∷ xs) (inr come, h) = absurd come

  AllMembers-CleanBut :
      (at : Entries) (es xs : List EntryAddress) → AllMembers xs es → CleanBut at es xs
  AllMembers-CleanBut at es [] h = tt
  AllMembers-CleanBut at es (x ∷ xs) h = (inr h.0, AllMembers-CleanBut at es xs h.1)

  without-Clean :
      (at : Entries) (e : EntryAddress) (xs : List EntryAddress)
      → Clean at xs
      → Clean at (without e xs)
  unfolding without
  without-Clean at e [] h = tt
  without-Clean at e (x ∷ xs) h = ground (arith, without-Clean at e xs h.1)

  without-CleanBut :
      (at : Entries) (e : EntryAddress) (es xs : List EntryAddress)
      → CleanBut at (e ∷ es) xs
      → CleanBut at es (without e xs)
  unfolding without
  without-CleanBut at e es [] h = tt
  without-CleanBut at e es (x ∷ xs) (inl clean, h) = ground (arith, without-CleanBut at e es xs h)
  without-CleanBut at e es (x ∷ xs) (inr (inl same), h) =
      ground (arith, without-CleanBut at e es xs h)
  without-CleanBut at e es (x ∷ xs) (inr (inr come), h) =
      ground (arith, without-CleanBut at e es xs h)

  pass-CleanBut :
      (at : Entries) (e : EntryAddress) (es xs : List EntryAddress)
      → test (at e).flow ≡ false
      → CleanBut at (e ∷ es) xs
      → CleanBut at es xs
  pass-CleanBut at e es [] spared h = tt
  pass-CleanBut at e es (x ∷ xs) spared (inl clean, h) =
      (inl clean, pass-CleanBut at e es xs spared h)
  pass-CleanBut at e es (x ∷ xs) spared (inr (inl same), h) =
      (inl (rw same spared), pass-CleanBut at e es xs spared h)
  pass-CleanBut at e es (x ∷ xs) spared (inr (inr come), h) =
      (inr come, pass-CleanBut at e es xs spared h)

  -- One step of the loop over a bucket.
  abbrev unlink_if : EntryAddress → Normal → Normal
  unlink_if e s = if test (s.entry_at e).flow then pduft_entry_unlink e s else s

  unlink_if-entry_at : (e : EntryAddress) (s : Normal) → (unlink_if e s).entry_at ≡ s.entry_at
  unfolding pduft_entry_unlink
  unlink_if-entry_at e s = ground arith

  unlink_if-dflt : (e : EntryAddress) (s : Normal) → (unlink_if e s).pduft_dflt ≡ s.pduft_dflt
  unfolding pduft_entry_unlink
  unlink_if-dflt e s = ground arith

  unlink_bucket-entry_at :
      (es : List EntryAddress) (s : Normal)
      → ((unlink_bucket test es s).entry_at ≡ s.entry_at)
        × ((unlink_bucket test es s).pduft_dflt ≡ s.pduft_dflt)
  unfolding unlink_bucket
  unlink_bucket-entry_at [] s = (refl, refl)
  unlink_bucket-entry_at (e ∷ es) s =
      let (at, dflt) = unlink_bucket-entry_at es (unlink_if e s) in
      (at ∙ unlink_if-entry_at e s, dflt ∙ unlink_if-dflt e s)

  module _ {table : Normal → HashTable} (is : IsTable table) where
    unlink_if-Clean :
        (e : EntryAddress) (s : Normal) (b : ℕ)
        → Clean s.entry_at (table s b)
        → Clean s.entry_at (table (unlink_if e s) b)
    unlink_if-Clean e s b h = elim (Bool-cases (test (s.entry_at e).flow)) [
      | inl gone ↦ rw (gone, is.unlinks e s b) (without-Clean s.entry_at e (table s b) h)
      | inr stays ↦ rw stays h
    ]

    unlink_bucket-Clean :
        (es : List EntryAddress) (s : Normal) (b : ℕ)
        → Clean s.entry_at (table s b)
        → Clean s.entry_at (table (unlink_bucket test es s) b)
    unfolding unlink_bucket
    unlink_bucket-Clean [] s b h = h
    unlink_bucket-Clean (e ∷ es) s b h =
        let t = unlink_if e s in
        let same = unlink_if-entry_at e s in
        subst (λ at. Clean at (table (unlink_bucket test es t) b)) same
          (unlink_bucket-Clean es t b
            (subst (λ at. Clean at (table t b)) (sym same) (unlink_if-Clean e s b h)))

    unlink_bucket-CleanBut :
        (es : List EntryAddress) (s : Normal) (b : ℕ)
        → CleanBut s.entry_at es (table s b)
        → Clean s.entry_at (table (unlink_bucket test es s) b)
    unfolding unlink_bucket
    unlink_bucket-CleanBut [] s b h = CleanBut-nil s.entry_at (table s b) h
    unlink_bucket-CleanBut (e ∷ es) s b h =
        let t = unlink_if e s in
        let same = unlink_if-entry_at e s in
        let next : CleanBut s.entry_at es (table t b) =
          elim (Bool-cases (test (s.entry_at e).flow)) [
            | inl gone ↦
                rw (gone, is.unlinks e s b) (without-CleanBut s.entry_at e es (table s b) h)
            | inr stays ↦ rw stays (pass-CleanBut s.entry_at e es (table s b) stays h)
          ] in
        subst (λ at. Clean at (table (unlink_bucket test es t) b)) same
          (unlink_bucket-CleanBut es t b (subst (λ at. CleanBut at es (table t b)) (sym same) next))

    -- The loop over a bucket of this table leaves it clean.
    unlink_bucket-own :
        (s : Normal) (b : ℕ) → Clean s.entry_at (table (unlink_bucket test (table s b) s) b)
    unlink_bucket-own s b =
        unlink_bucket-CleanBut (table s b) s b
          (AllMembers-CleanBut s.entry_at (table s b) (table s b) (AllMembers-refl (table s b)))

  unlink_table-entry_at :
      (own : Normal → HashTable) (n bucket : ℕ) (s : Normal)
      → ((unlink_table own test n bucket s).entry_at ≡ s.entry_at)
        × ((unlink_table own test n bucket s).pduft_dflt ≡ s.pduft_dflt)
  unfolding unlink_table
  unlink_table-entry_at own zero bucket s = (refl, refl)
  unlink_table-entry_at own (suc n) bucket s =
      let (at, dflt) = unlink_bucket-entry_at (own s bucket) s in
      let (at', dflt') =
        unlink_table-entry_at own n (bucket + 1) (unlink_bucket test (own s bucket) s) in
      (at' ∙ at, dflt' ∙ dflt)

  -- The loop over the buckets of one table keeps every list clean, also those of the other table.
  unlink_table-Clean :
      {table : Normal → HashTable} (is : IsTable table) (own : Normal → HashTable) (n bucket : ℕ)
      (s : Normal) (b : ℕ)
      → Clean s.entry_at (table s b)
      → Clean s.entry_at (table (unlink_table own test n bucket s) b)
  unfolding unlink_table
  unlink_table-Clean is own zero bucket s b h = h
  unlink_table-Clean {table} is own (suc n) bucket s b h =
      let t = unlink_bucket test (own s bucket) s in
      let same = (unlink_bucket-entry_at (own s bucket) s).0 in
      subst (λ at. Clean at (table (unlink_table own test n (bucket + 1) t) b)) same
        (unlink_table-Clean is own n (bucket + 1) t b (
          subst (λ at. Clean at (table t b)) (sym same)
            (unlink_bucket-Clean is (own s bucket) s b h)))

  -- It leaves the lists of its own table clean.
  unlink_table-own :
      {table : Normal → HashTable} (is : IsTable table) (n bucket : ℕ) (s : Normal) (b : ℕ)
      → bucket ≤ b
      → b < bucket + n
      → Clean s.entry_at (table (unlink_table table test n bucket s) b)
  unfolding unlink_table
  unlink_table-own is zero bucket s b from below = absurd (omega arith)
  unlink_table-own {table} is (suc n) bucket s b from below =
      let t = unlink_bucket test (table s bucket) s in
      let same = (unlink_bucket-entry_at (table s bucket) s).0 in
      subst (λ at. Clean at (table (unlink_table table test n (bucket + 1) t) b)) same
        (elim (dec_lt bucket b) [
          | yes later ↦ unlink_table-own is n (bucket + 1) t b (omega arith) (omega arith)
          | no here ↦
              let this : bucket ≡ b = omega arith in
              unlink_table-Clean is table n (bucket + 1) t b (
                subst (λ at. Clean at (table t b)) (sym same)
                  (subst (λ k. Clean s.entry_at (table t k)) this (unlink_bucket-own is s bucket)))
        ])

  -- Both tables, once the loops are through.
  record Swept (s t : Normal) : Type 0 where
    pub same_entries : t.entry_at ≡ s.entry_at
    pub same_default : t.pduft_dflt ≡ s.pduft_dflt
    pub destinations : (b : ℕ) → b < 8 → Clean s.entry_at (t.pdu_ft b)
    pub flows : (b : ℕ) → b < 8 → Clean s.entry_at (t.pdu_ft_perflow b)

  unlink_tables-Swept : (s : Normal) → Swept s (unlink_tables test s)
  unfolding unlink_tables
  unlink_tables-Swept s =
      let t = unlink_table (λ u. u.pdu_ft) test 8 0 s in
      let (at, dflt) = unlink_table-entry_at (λ u. u.pdu_ft) 8 0 s in
      let (at', dflt') = unlink_table-entry_at (λ u. u.pdu_ft_perflow) 8 0 t in
      let end = unlink_table (λ u. u.pdu_ft_perflow) test 8 0 t in
      record {
        same_entries = at' ∙ at;
        same_default = dflt' ∙ dflt;
        destinations = λ b below.
            subst (λ m. Clean m (end.pdu_ft b)) at
              (unlink_table-Clean destinations-IsTable (λ u. u.pdu_ft_perflow) 8 0 t b
                (subst (λ m. Clean m (t.pdu_ft b)) (sym at)
                  (unlink_table-own destinations-IsTable 8 0 s b (omega arith) (omega arith))));
        flows = λ b below.
            subst (λ m. Clean m (end.pdu_ft_perflow b)) at
              (unlink_table-own flows-IsTable 8 0 t b (omega arith) (omega arith));
      }

  find_entry-Clean :
      (wanted : PduftEntry → Bool) (at : Entries) (xs : List EntryAddress) (e : EntryAddress)
      → Clean at xs
      → find_entry wanted at xs ≡ some e
      → test (at e).flow ≡ false
  unfolding find_entry
  find_entry-Clean wanted at [] e h found = ground arith
  find_entry-Clean wanted at (x ∷ xs) e h found = elim (Bool-cases (wanted (at x))) [
    | inl this ↦ let same : x ≡ e = ground arith in subst (λ k. test (at k).flow ≡ false) same h.0
    | inr other ↦ find_entry-Clean wanted at xs e h.1 (ground arith)
  ]

-- The number of a bucket for every key.
abbrev pub InRange : (ℕ → ℕ) → Type 0
InRange hash_min = (key : ℕ) → hash_min key < 8

module _ (hash_min : ℕ → ℕ) (range : InRange hash_min) (test : FlowEntry → Bool) where
  -- Whatever the lookup finds in the tables is spared by the test.
  lookup_internal-spared :
      (s t : Normal) (p : PciMatch) (e : EntryAddress)
      → Swept test s t
      → pduft_lookup_internal hash_min t p ≡ some e
      → test (t.entry_at e).flow ≡ false
  unfolding pduft_lookup_internal perflow_lookup
  lookup_internal-spared s t p e swept found =
      let key = hash_min (pduft_perflow_key p.dst_addr p.dst_cepid) in
      let clean_flows : Clean test t.entry_at (t.pdu_ft_perflow key) =
        subst (λ m. Clean test m (t.pdu_ft_perflow key)) (sym swept.same_entries)
          (swept.flows key (range (pduft_perflow_key p.dst_addr p.dst_cepid))) in
      let clean : Clean test t.entry_at (t.pdu_ft (hash_min p.dst_addr)) =
        subst (λ m. Clean test m (t.pdu_ft (hash_min p.dst_addr))) (sym swept.same_entries)
          (swept.destinations (hash_min p.dst_addr) (range p.dst_addr)) in
      ground (
        arith,
        find_entry-Clean test (is_same_flow p) t.entry_at (t.pdu_ft_perflow key) e clean_flows,
        find_entry-Clean test (is_same_destination p) t.entry_at (t.pdu_ft (hash_min p.dst_addr)) e
            clean,
      )

module _ (hash_min : ℕ → ℕ) (range : InRange hash_min) (s : Normal) (p : PciMatch) where
  -- After a flush of the table no lookup finds a flow, if the hash of a key is always the number of
  -- a bucket.
  pub rl_pduft_lookup-flush : rl_pduft_lookup hash_min (rl_pduft_flush s) p ≡ none
  unfolding rl_pduft_lookup rl_pduft_flush drop_default flow_put
  rl_pduft_lookup-flush =
      let t = rl_pduft_flush s in
      let swept = unlink_tables-Swept (λ _. true) (drop_default s) in
      elim (Option-cases (pduft_lookup_internal hash_min t p)) [
        | inl missing ↦ ground (arith, swept.same_default)
        | inr (e, found) ↦
            let wrong : true ≡ false =
              lookup_internal-spared hash_min range (λ _. true) (drop_default s) t p e swept
                found in
            cc
      ]

  -- After a flush of the routes over one flow a lookup finds that flow only if it is the default
  -- route, if the hash of a key is always the number of a bucket.
  pub rl_pduft_lookup-flush_by_flow :
      (flow : FlowEntry)
      → rl_pduft_lookup hash_min (rl_pduft_flush_by_flow flow s) p ≡ some flow
      → s.pduft_dflt ≡ some flow
  unfolding rl_pduft_lookup rl_pduft_flush_by_flow
  rl_pduft_lookup-flush_by_flow flow h =
      let test = λ (f : FlowEntry). f == flow in
      let t = rl_pduft_flush_by_flow flow s in
      let swept = unlink_tables-Swept test s in
      elim (Option-cases (pduft_lookup_internal hash_min t p)) [
        | inl missing ↦ ground (arith, swept.same_default)
        | inr (e, found) ↦
            let spared = lookup_internal-spared hash_min range test s t p e swept found in
            ground arith
      ]
