-- ===== src/Raft/Storage/Cut.antt =====
-- `log_truncate` of user/libs/raft.cpp against the list that the log stands for.
use native.Mathlib.Decide.{dec_lt}
use rlite.Base.{
  subst, sym, take_all, ℕ, ◌+◌, ◌-◌, ◌%◌, ◌^◌, ◌≤◌, ◌<◌, ◌≡◌, refl, ap, ◌∙◌, false, some, List,
  length, take, get_elem?, arith, length-take, get_elem?-take,
}
use rlite.Raft.Types.{Entry}
use rlite.Raft.LogFile.{truncated, get_bytes-congr, u32_at-congr, get_bytes, u32_at}
use rlite.Raft.Machine.{Sm, ok, ◌>>=◌, next_fault}
use rlite.Raft.Storage.{log_truncate, cut_log, log_open}
use rlite.Raft.Storage.Stored.{IsStored, slot, slot_apart}

-- The state after the log was cut to `n` entries.
abbrev pub cut : Sm → ℕ → Sm
cut s n = record s {
  logfile = record (truncated s.logfile (slot s n)) { bad = false };
  discarded = (s.discarded + (s.last_log_index - n)) % 2 ^ 32;
  last_log_index = n;
}

module _ (s : Sm) {l : List Entry} (v : IsStored s l) (n : ℕ) (shorter : n < length l) where
  pub log_truncate_lem : log_truncate n s ≡ (ok tt, cut s n)
  unfolding log_truncate cut_log log_open ◌>>=◌ next_fault truncated
  log_truncate_lem = ground (arith, v.counted, v.small, v.open_file, v.no_faults)

  cut-bytes : (i : ℕ) → i < slot s n → (cut s n).logfile.bytes i ≡ s.logfile.bytes i
  unfolding truncated
  cut-bytes i h = ground (arith, v.whole, slot_apart n (length l) s.log_command_size)

  cut-terms :
      (i : ℕ) (e : Entry)
      → get_elem? (take n l) i ≡ some e
      → u32_at (cut s n).logfile.bytes (slot s i) ≡ e.term
  cut-terms i e h =
      let (below, old) = get_elem?-take n l i h in
      u32_at-congr (cut s n).logfile.bytes s.logfile.bytes (slot s i)
        (λ j hj. cut-bytes j (omega (arith, slot_apart i n s.log_command_size below)))
      ∙ v.terms i e old

  cut-commands :
      (i : ℕ) (e : Entry)
      → get_elem? (take n l) i ≡ some e
      → get_bytes (cut s n).logfile.bytes (slot s i + 4) s.log_command_size ≡ e.command
  cut-commands i e h =
      let (below, old) = get_elem?-take n l i h in
      get_bytes-congr (cut s n).logfile.bytes s.logfile.bytes (slot s i + 4) s.log_command_size
        (λ j lo hj. cut-bytes j (omega (arith, slot_apart i n s.log_command_size below)))
      ∙ v.commands i e old

  -- Cutting the file cuts the list.
  pub cut-IsStored : IsStored (cut s n) (take n l)
  unfolding truncated
  cut-IsStored = record {
    counted = omega (arith, length-take n l);
    small = omega (arith, length-take n l, v.small);
    open_file = refl;
    no_faults = v.no_faults;
    whole = ap (slot s) (omega (arith, length-take n l));
    terms = cut-terms;
    commands = cut-commands;
  }

pub log_truncate_all :
    (s : Sm) {l : List Entry} → IsStored s l → log_truncate (length l) s ≡ (ok tt, s)
unfolding log_truncate ◌>>=◌
log_truncate_all s v = ground (arith, v.counted)

-- While the log file works, cutting the log to `n` entries, of at least as many, leaves the file
-- with the first `n`.
pub log_truncate-IsStored :
    (s : Sm) (l : List Entry) (n : ℕ)
    → IsStored s l
    → n ≤ length l
    → (t : Sm) × (log_truncate n s ≡ (ok tt, t)) × IsStored t (take n l)
log_truncate-IsStored s l n v h = elim (dec_lt n (length l)) [
  | yes part ↦ (cut s n, log_truncate_lem s v n part, cut-IsStored s v n part)
  | no all ↦
      let same : length l ≡ n = omega arith in
      (
        s,
        subst (λ k. log_truncate k s ≡ (ok tt, s)) same (log_truncate_all s v),
        subst (IsStored s) (sym (take_all n l (omega arith))) v,
      )
]
