-- ===== src/Raft/Storage.antt =====
-- The log on disk of user/libs/raft.cpp: the accesses to the file, and the entries in it.
pub mod Stored
pub mod Cut
pub mod Appended
pub mod Terms
use rlite.Base.{
  ℕ, ◌+◌, ◌*◌, Bool, true, false, List, take, ltb, leb, ◌==◌, ◌||◌, ◌&&◌, not, if◌then◌else◌,
}
use rlite.Raft.Types.{Entry, add32, sub32, Command}
use rlite.Raft.LogFile.{
  LogFile, Fault, healthy, seek_fails, transfer_fails, flush_fails, sync_fails, written, truncated,
  u32_bytes, u32_at, get_bytes, k_log_magic_number, k_log_entries_ofs,
}
use rlite.Raft.Machine.{
  Sm, M, failed, no_entry, aborted, pure, raise, gets, modify, next_fault, ◌>>=◌, ◌>>◌, skip,
}

abbrev pub set_file : LogFile → M (Unit {0})
set_file f = modify λ s. record s { logfile = f }

-- `RaftSM::log_disk_flush` fails if the system's `fdatasync` does. It does not look at what became
-- of the stream.
unfoldable pub log_disk_flush : Fault → M (Unit {0})
log_disk_flush sync_fails = raise failed
log_disk_flush _ = skip

-- The steps of a write, seek, transfer and flush; a failure of the stream sets its fail bit.
unfoldable pub write_with : Fault → ℕ → List ℕ → LogFile → M (Unit {0})
unfolding written
write_with seek_fails pos buf f = do set_file (record f { bad = true }); raise failed
write_with (transfer_fails k) pos buf f = do
  set_file (record (written f pos (take k buf)) { bad = true })
  raise failed
write_with (flush_fails k) pos buf f = do
  set_file (record (written f pos (take k buf)) { bad = true })
  log_disk_flush (flush_fails k)
write_with fault pos buf f = do set_file (written f pos buf); log_disk_flush fault

-- `RaftSM::log_buf_write`.
unfoldable pub log_buf_write : ℕ → List ℕ → M (Unit {0})
log_buf_write pos buf = do
  fault ← next_fault
  f ← gets (λ s. s.logfile)
  if f.bad then raise failed else write_with fault pos buf f

-- `RaftSM::log_u32_write`.
unfoldable pub log_u32_write : ℕ → ℕ → M (Unit {0})
log_u32_write pos val = log_buf_write pos (u32_bytes val)

-- A read past the end of the file sets the fail bit as well.
abbrev pub can_read : Fault → ℕ → ℕ → LogFile → Bool
can_read seek_fails pos len f = false
can_read (transfer_fails k) pos len f = false
can_read _ pos len f = not f.bad && leb (pos + len) f.size

unfoldable pub log_read : {A : Type 0} → ℕ → ℕ → (LogFile → A) → M A
log_read pos len value = do
  fault ← next_fault
  f ← gets (λ s. s.logfile)
  if can_read fault pos len f
      then pure (value f)
      else do set_file (record f { bad = true }); raise failed

-- `RaftSM::log_buf_read`.
unfoldable pub log_buf_read : ℕ → ℕ → M (List ℕ)
unfolding log_read
log_buf_read pos len = log_read pos len (λ f. get_bytes f.bytes pos len)

-- `RaftSM::log_u32_read`.
unfoldable pub log_u32_read : ℕ → M ℕ
unfolding log_read
log_u32_read pos = log_read pos 4 (λ f. u32_at f.bytes pos)

-- `RaftSM::magic_check`.
unfoldable pub magic_check : M (Unit {0})
magic_check = do magic ← log_u32_read 0; if magic == k_log_magic_number then skip else raise failed

-- `log_entry_size`, and the position of entry `index`.
abbrev pub log_entry_size : Sm → ℕ
log_entry_size s = 4 + s.log_command_size

abbrev pub entry_pos : Sm → ℕ → ℕ
entry_pos s index = k_log_entries_ofs + sub32 index 1 * log_entry_size s

-- `RaftSM::log_entry_get_term`; its result 1 is the code `no_entry`.
unfoldable pub log_entry_get_term : ℕ → M ℕ
log_entry_get_term index = do
  s ← gets (λ s. s)
  if index == 0
      then pure 0
      else if ltb s.last_log_index index
      then raise no_entry
      else log_u32_read (entry_pos s index)

-- `RaftSM::log_entry_get_command`.
unfoldable pub log_entry_get_command : ℕ → M Command
log_entry_get_command index = do
  s ← gets (λ s. s)
  if index == 0 || ltb s.last_log_index index
      then raise no_entry
      else log_buf_read (entry_pos s index + 4) s.log_command_size

-- `RaftSM::append_log_entry`.
unfoldable pub append_log_entry : Entry → M (Unit {0})
append_log_entry e = do
  s ← gets (λ s. s)
  let new_index = add32 s.last_log_index 1
  log_u32_write (entry_pos s new_index) e.term
  log_buf_write (entry_pos s new_index + 4) (take s.log_command_size e.command)
  modify (λ t. record t { last_log_index = new_index; last_log_term = e.term })

abbrev pub works : Fault → Bool
works healthy = true
works _ = false

-- An open stream has no fail bit; on first boot (`ios::trunc`) the file is new and empty.
abbrev pub opened : Bool → LogFile → LogFile
opened first_boot f =
    if first_boot
    then record { present = true; bad = false; size = 0; bytes = λ _. 0 }
    else record f { bad = false }

-- `RaftSM::log_open`.
unfoldable pub log_open : Bool → M (Unit {0})
log_open first_boot = do
  fault ← next_fault
  f ← gets (λ s. s.logfile)
  if works fault
      then set_file (opened first_boot f)
      else do set_file (record f { bad = true }); raise failed

-- The rest of `RaftSM::log_truncate` once `truncate` has worked.
unfoldable pub cut_log : ℕ → M (Unit {0})
unfolding truncated
cut_log index = do
  s ← gets (λ s. s)
  set_file (truncated s.logfile (k_log_entries_ofs + log_entry_size s * index))
  modify (λ t. record t {
    discarded = add32 t.discarded (sub32 t.last_log_index index);
    last_log_index = index;
  })
  log_open false

-- `RaftSM::log_truncate`; its `assert` comes first.
unfoldable pub log_truncate : ℕ → M (Unit {0})
log_truncate index = do
  s ← gets (λ s. s)
  if ltb s.last_log_index index
      then raise aborted
      else if index == s.last_log_index
      then skip
      else do
        fault ← next_fault
        if works fault
            then cut_log index
            else do set_file (record s.logfile { bad = true }); raise failed
