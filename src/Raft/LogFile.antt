-- ===== src/Raft/LogFile.antt =====
-- The log file of user/libs/raft.cpp as its bytes: a header of 128 bytes, then the entries.
mod Bytes
unfoldable pub use Bytes.*
use rlite.Base.{
  ℕ, zero, suc, ◌+◌, ◌*◌, ◌/◌, ◌%◌, ◌^◌, max, Bool, false, List, [], ◌∷◌, length, ltb, leb, ◌==◌,
  ◌||◌, ◌&&◌, if◌then◌else◌,
}
use rlite.Raft.Types.{is_empty}

-- What lies past `size` is read as zero. `bad` is the stream's fail bit, which stays set until the
-- file is opened again.
pub record LogFile : Type 0 where
  pub present : Bool
  pub bad : Bool
  pub size : ℕ
  pub bytes : ℕ → ℕ

-- What the system does to one operation on the file. Of a write that fails when the stream is
-- flushed, some bytes get to the file.
pub data Fault : Type 0 where
  healthy : Fault
  seek_fails : Fault
  transfer_fails : ℕ → Fault
  flush_fails : ℕ → Fault
  sync_fails : Fault

abbrev pub k_log_magic_number : ℕ
k_log_magic_number = 0x89ae01ca

abbrev pub k_log_current_term_ofs : ℕ
k_log_current_term_ofs = 4

abbrev pub k_log_voted_for_ofs : ℕ
k_log_voted_for_ofs = 8

abbrev pub k_log_entries_ofs : ℕ
k_log_entries_ofs = 128

abbrev pub k_log_voted_for_size : ℕ
k_log_voted_for_size = 120

unfoldable pub written : LogFile → ℕ → List ℕ → LogFile
written f pos buf = record f {
  size = if is_empty buf then f.size else max f.size (pos + length buf);
  bytes = put_bytes f.bytes pos buf;
}

-- `truncate(2)` to a shorter or longer length; what it cuts off is gone.
unfoldable pub truncated : LogFile → ℕ → LogFile
truncated f len = record f {
  size = len;
  bytes = λ i. if ltb i len && ltb i f.size then f.bytes i else 0;
}
