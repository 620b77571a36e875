-- ===== src/Raft/Storage/Stored.antt =====
-- The list of entries that the log file of a replica stands for, and what the accesses to the log
-- in user/libs/raft.cpp do to that list when the system reports no failure.
use rlite.Base.{
  ℕ, suc, ◌+◌, ◌*◌, ◌^◌, ◌≤◌, ◌<◌, ◌≡◌, ◌∙◌, inr, false, some, List, [], length, get_elem?, arith,
  get_elem?-bound,
}
use rlite.Raft.Types.{Entry}
use rlite.Raft.LogFile.{
  LogFile, Fault, written, get_bytes, u32_at, u32_at-put_bytes_apart, get_bytes-put_bytes_apart,
  k_log_entries_ofs,
}
use rlite.Raft.Machine.{Sm, ok, ◌>>=◌, next_fault}
use rlite.Raft.Storage.{
  log_entry_get_term, log_entry_get_command, log_u32_read, log_buf_read, log_read, log_buf_write,
  write_with, log_disk_flush,
}

-- The position of the entry at place `i` of the list, counted from 0, with commands of `size` bytes.
abbrev pub slot_at : ℕ → ℕ → ℕ
slot_at size i = k_log_entries_ofs + i * (4 + size)

abbrev pub slot : Sm → ℕ → ℕ
slot s i = slot_at s.log_command_size i

-- An open file, of a machine whose last index is `n`, that holds a header and just the entries of
-- `l`, and that no failure awaits.
pub record LogHolds (f : LogFile) (n size : ℕ) (faults : List Fault) (l : List Entry) : Type 0 where
  pub counted : n ≡ length l
  pub small : length l + 1 < 2 ^ 32
  pub open_file : f.bad ≡ false
  pub no_faults : faults ≡ []
  pub whole : f.size ≡ slot_at size (length l)
  pub terms :
      (i : ℕ) (e : Entry) → get_elem? l i ≡ some e → u32_at f.bytes (slot_at size i) ≡ e.term
  pub commands :
      (i : ℕ) (e : Entry)
      → get_elem? l i ≡ some e
      → get_bytes f.bytes (slot_at size i + 4) size ≡ e.command

abbrev pub IsStored : Sm → List Entry → Type 0
IsStored s l = LogHolds s.logfile s.last_log_index s.log_command_size s.faults l

pub slot_apart : (i n k : ℕ) → i < n → i * (4 + k) + (4 + k) ≤ n * (4 + k)
slot_apart i n k h = grind arith

module _ (s : Sm) {l : List Entry} (v : IsStored s l) where
  pub log_entry_get_term_lem :
      (i : ℕ) (e : Entry) → get_elem? l i ≡ some e → log_entry_get_term (suc i) s ≡ (ok e.term, s)
  unfolding log_entry_get_term log_u32_read log_read ◌>>=◌ next_fault
  log_entry_get_term_lem i e h = ground (
    arith,
    v.terms i e h,
    v.counted,
    v.small,
    v.open_file,
    v.no_faults,
    v.whole,
    get_elem?-bound l i h,
    slot_apart i (length l) s.log_command_size (get_elem?-bound l i h),
  )

  pub log_entry_get_command_lem :
      (i : ℕ) (e : Entry)
      → get_elem? l i ≡ some e
      → log_entry_get_command (suc i) s ≡ (ok e.command, s)
  unfolding log_entry_get_command log_buf_read log_read ◌>>=◌ next_fault
  log_entry_get_command_lem i e h = ground (
    arith,
    v.commands i e h,
    v.counted,
    v.small,
    v.open_file,
    v.no_faults,
    v.whole,
    get_elem?-bound l i h,
    slot_apart i (length l) s.log_command_size (get_elem?-bound l i h),
  )

-- A write to the header.
abbrev pub header_written : Sm → ℕ → List ℕ → Sm
header_written s pos buf = record s { logfile = written s.logfile pos buf }

module _ (s : Sm) {l : List Entry} (v : IsStored s l) (pos : ℕ) (buf : List ℕ)
    (in_header : pos + length buf ≤ k_log_entries_ofs) where
  pub log_buf_write_lem : log_buf_write pos buf s ≡ (ok tt, header_written s pos buf)
  unfolding log_buf_write write_with log_disk_flush ◌>>=◌ next_fault
  log_buf_write_lem = ground (arith, v.open_file, v.no_faults)

  -- It leaves the entries alone.
  pub header_written-IsStored : IsStored (header_written s pos buf) l
  unfolding written
  header_written-IsStored = record {
    counted = v.counted;
    small = v.small;
    open_file = v.open_file;
    no_faults = v.no_faults;
    whole = ground (arith, v.whole);
    terms = λ i e h.
        u32_at-put_bytes_apart s.logfile.bytes pos buf (slot s i) (inr (omega arith))
        ∙ v.terms i e h;
    commands = λ i e h.
        get_bytes-put_bytes_apart s.logfile.bytes pos buf (slot s i + 4) s.log_command_size
          (inr (omega arith))
        ∙ v.commands i e h;
  }
