-- ===== src/Raft/Boot.antt =====
-- `RaftSM::init` in user/libs/raft.cpp: a first boot, and the recovery from the log on disk.
pub mod Recovery
use rlite.Base.{
  ℕ, ◌-◌, ◌/◌, ◌%◌, Bool, true, false, List, [], ◌∷◌, replicate, ltb, ◌==◌, ◌||◌, ◌&&◌, not,
  if◌then◌else◌,
}
use rlite.Raft.Types.{ReplicaId, Server, follower, same_id, is_empty, u32_mod}
use rlite.Raft.LogFile.{
  k_log_magic_number, k_log_current_term_ofs, k_log_voted_for_ofs, k_log_voted_for_size,
  k_log_entries_ofs,
}
use rlite.Raft.Machine.{Sm, M, failed, raise, gets, modify, ◌>>=◌, ◌>>◌, skip, check_output_arg}
use rlite.Raft.Storage.{
  log_buf_write, log_u32_write, log_buf_read, log_u32_read, magic_check, log_open, log_entry_size,
}
use rlite.Raft.Election.{c_str, restart_election_timer}
use rlite.Raft.Handlers.{fresh_server}

-- The defaults of the members.
unfoldable pub reset : Sm → Sm
reset s = record s {
  current_term = 0;
  voted_for = [];
  state = follower;
  commit_index = 0;
  last_applied = 0;
  leader_id = [];
  last_log_index = 0;
  last_log_term = 0;
  votes_collected = 0;
}

-- The header of a new log.
unfoldable pub write_header : M (Unit {0})
write_header = do
  log_u32_write 0 k_log_magic_number
  log_u32_write k_log_current_term_ofs 0
  log_buf_write k_log_voted_for_ofs (replicate k_log_voted_for_size 0)
  modify (λ s. record s { last_log_index = 0 })

-- The lambda `buf_is_null_terminated`.
unfoldable pub buf_is_null_terminated : List ℕ → Bool
buf_is_null_terminated [] = false
buf_is_null_terminated (c ∷ cs) = c == 0 || buf_is_null_terminated cs

unfoldable pub is_peer : ReplicaId → List ReplicaId → Bool
is_peer id [] = false
is_peer id (p ∷ ps) = same_id id p || is_peer id ps

-- The lambda `voted_for_is_valid`.
unfoldable pub voted_for_is_valid : List ReplicaId → Sm → Bool
voted_for_is_valid peers s =
    is_empty s.voted_for || same_id s.voted_for s.local_id || is_peer s.voted_for peers

-- Whether the length of the file is that of a header and whole entries.
abbrev pub bad_size : Sm → Bool
bad_size s =
    ltb s.logfile.size k_log_entries_ofs
    || not ((s.logfile.size - k_log_entries_ofs) % log_entry_size s == 0)

unfoldable pub recover : List ReplicaId → M (Unit {0})
recover peers = do
  s ← gets (λ s. s)
  if bad_size s then raise failed else do
    modify (λ t. record t {
      last_log_index = (s.logfile.size - k_log_entries_ofs) / log_entry_size s % u32_mod;
    })
    magic_check
    term ← log_u32_read k_log_current_term_ofs
    modify (λ t. record t { current_term = term })
    id_buf ← log_buf_read k_log_voted_for_ofs k_log_voted_for_size
    if not (buf_is_null_terminated id_buf) then raise failed else do
      modify (λ t. record t { voted_for = c_str id_buf })
      u ← gets (λ u. u)
      if voted_for_is_valid peers u then skip else raise failed

-- The order of the keys of a `std::map`.
unfoldable pub precedes : ReplicaId → ReplicaId → Bool
precedes a [] = false
precedes [] (b ∷ bs) = true
precedes (a ∷ as') (b ∷ bs) = ltb a b || (a == b && precedes as' bs)

-- `servers[rid] = …`, in the order of the keys.
unfoldable pub assign_server :
    ReplicaId → Server → List (ReplicaId × Server) → List (ReplicaId × Server)
assign_server id srv [] = (id, srv) ∷ []
assign_server id srv ((k, v) ∷ rest) =
    if same_id k id
    then (k, srv) ∷ rest
    else if precedes id k
    then (id, srv) ∷ (k, v) ∷ rest
    else (k, v) ∷ assign_server id srv rest

unfoldable pub add_peers :
    List ReplicaId → Server → List (ReplicaId × Server) → List (ReplicaId × Server)
add_peers [] srv servers = servers
add_peers (p ∷ ps) srv servers = add_peers ps srv (assign_server p srv servers)

-- `RaftSM::init`. It leaves the servers of an earlier call in the map.
unfoldable pub init : List ReplicaId → M (Unit {0})
init peers = do
  check_output_arg
  first_boot ← gets (λ s. not s.logfile.present)
  log_open first_boot
  modify reset
  if first_boot then write_header else recover peers
  modify (λ s. record s { servers = add_peers peers (fresh_server s) s.servers })
  restart_election_timer
