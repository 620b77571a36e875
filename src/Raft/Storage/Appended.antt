-- ===== src/Raft/Storage/Appended.antt =====
-- `append_log_entry` of user/libs/raft.cpp against the list that the log stands for.
use rlite.Base.{
  ℕ, suc, ◌+◌, ◌^◌, ◌<◌, ◌≡◌, some, List, [], ◌∷◌, ◌++◌, length, take, get_elem?, arith,
  length-append, take-length, get_elem?-append_cases,
}
use rlite.Raft.Types.{Entry}
use rlite.Raft.LogFile.{
  written, put_bytes, get_bytes, u32_at, u32_bytes, length-u32_bytes, u32_at-put_bytes_self,
  u32_at-put_bytes_apart, get_bytes-put_bytes_self, get_bytes-put_bytes_apart,
}
use rlite.Raft.Machine.{Sm, ok, ◌>>=◌, next_fault}
use rlite.Raft.Storage.{
  log_entry_get_term, log_entry_get_command, append_log_entry, log_buf_write, log_u32_write,
  write_with, log_disk_flush,
}
use rlite.Raft.Storage.Stored.{
  IsStored, slot, slot_apart, log_entry_get_term_lem, log_entry_get_command_lem,
}

-- The state after a new entry.
abbrev pub appended : Sm → Entry → Sm
appended s e = record s {
  logfile =
      written (written s.logfile (slot s s.last_log_index) (u32_bytes e.term))
        (slot s s.last_log_index + 4) e.command;
  last_log_index = s.last_log_index + 1;
  last_log_term = e.term;
}

-- An entry that fits a log with commands of `size` bytes.
abbrev pub Fits : ℕ → Entry → Type 0
Fits size e = (e.term < 2 ^ 32) × (length e.command ≡ size)

abbrev pub AllFit : ℕ → List Entry → Type 0
AllFit size [] = Unit {0}
AllFit size (e ∷ es) = Fits size e × AllFit size es

module _ (s : Sm) {l : List Entry} (v : IsStored s l) (e : Entry)
    (fits : Fits s.log_command_size e) where
  take-command : take s.log_command_size e.command ≡ e.command
  take-command = rw (← fits.1) (take-length e.command)

  pub append_log_entry_lem : append_log_entry e s ≡ (ok tt, appended s e)
  unfolding append_log_entry log_u32_write log_buf_write write_with log_disk_flush ◌>>=◌ next_fault
  append_log_entry_lem =
      ground (arith, v.counted, v.small, v.open_file, v.no_faults, fits.1, take-command)

  appended-whole : (appended s e).logfile.size ≡ slot s (length l + 1)
  unfolding written
  appended-whole = ground (arith, v.counted, v.whole, fits.1, length-u32_bytes e.term)

  appended-terms :
      (i : ℕ) (x : Entry)
      → get_elem? (l ++ e ∷ []) i ≡ some x
      → u32_at (appended s e).logfile.bytes (slot s i) ≡ x.term
  unfolding written
  appended-terms i x h = ground (
    arith,
    get_elem?-append_cases l e i h,
    v.counted,
    v.terms i x,
    slot_apart i (length l) s.log_command_size,
    length-u32_bytes e.term,
    u32_at-put_bytes_self bytes end e.term fits.0,
    u32_at-put_bytes_apart bytes end (u32_bytes e.term) (slot s i),
    u32_at-put_bytes_apart (put_bytes bytes end (u32_bytes e.term)) (end + 4) e.command (slot s i),
  )
    where
      bytes : ℕ → ℕ
      bytes = s.logfile.bytes

      end : ℕ
      end = slot s s.last_log_index

  appended-commands :
      (i : ℕ) (x : Entry)
      → get_elem? (l ++ e ∷ []) i ≡ some x
      → get_bytes (appended s e).logfile.bytes (slot s i + 4) s.log_command_size ≡ x.command
  unfolding written
  appended-commands i x h = ground (
    arith,
    get_elem?-append_cases l e i h,
    v.counted,
    v.commands i x,
    slot_apart i (length l) s.log_command_size,
    length-u32_bytes e.term,
    fits.1,
    get_bytes-put_bytes_self (put_bytes bytes end (u32_bytes e.term)) (end + 4) e.command,
    get_bytes-put_bytes_apart bytes end (u32_bytes e.term) (slot s i + 4) s.log_command_size,
    get_bytes-put_bytes_apart (put_bytes bytes end (u32_bytes e.term)) (end + 4) e.command
        (slot s i + 4) s.log_command_size,
  )
    where
      bytes : ℕ → ℕ
      bytes = s.logfile.bytes

      end : ℕ
      end = slot s s.last_log_index

  -- Appending an entry to the file appends it to the list.
  pub appended-IsStored : length l + 2 < 2 ^ 32 → IsStored (appended s e) (l ++ e ∷ [])
  unfolding written
  appended-IsStored room = record {
    counted = omega (arith, v.counted, length-append l (e ∷ []));
    small = omega (arith, length-append l (e ∷ []));
    open_file = v.open_file;
    no_faults = v.no_faults;
    whole = rw (length-append l (e ∷ [])) appended-whole;
    terms = appended-terms;
    commands = appended-commands;
  }

-- A machine `t` with the entries `l`, each of which it reads back as it was written.
pub record Holds (t : Sm) (l : List Entry) : Type 0 where
  pub stored : IsStored t l
  pub reads :
      (i : ℕ) (x : Entry)
      → get_elem? l i ≡ some x
      → (log_entry_get_term (suc i) t ≡ (ok x.term, t))
        × (log_entry_get_command (suc i) t ≡ (ok x.command, t))

-- While the log file works, a new entry that fits goes to the end of the log, and it and all the
-- entries before it are read back as they were written.
pub append_log_entry-Holds :
    (s : Sm) (l : List Entry) (e : Entry)
    → IsStored s l
    → Fits s.log_command_size e
    → length l + 2 < 2 ^ 32
    → (t : Sm) × (append_log_entry e s ≡ (ok tt, t)) × Holds t (l ++ e ∷ [])
append_log_entry-Holds s l e v fits room =
    let stored = appended-IsStored s v e fits room in
    (
      appended s e,
      append_log_entry_lem s v e fits,
      record {
        stored = stored;
        reads = λ i x h. (
          log_entry_get_term_lem (appended s e) stored i x h,
          log_entry_get_command_lem (appended s e) stored i x h,
        );
      },
    )
