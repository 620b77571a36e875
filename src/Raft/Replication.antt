-- ===== src/Raft/Replication.antt =====
-- How a leader of user/libs/raft.cpp sends its log, and how a replica applies what is committed.
pub mod Applying
pub mod Sending
pub mod Streams
use rlite.Base.{
  ℕ, zero, suc, ◌+◌, ◌-◌, Bool, true, false, List, [], ◌∷◌, ◌++◌, ltb, leb, ◌&&◌, if◌then◌else◌,
}
use rlite.Raft.Types.{
  ReplicaId, Server, Entry, append_entries, same_id, is_empty, heart_beat, restart, add32, sub32,
}
use rlite.Raft.Machine.{
  Sm, M, failed, out_of_fuel, Result, ok, err, pure, raise, gets, modify, ◌>>=◌, ◌>>◌, skip, send,
  set_timer,
}
use rlite.Raft.Storage.{log_entry_get_term, log_entry_get_command, log_entry_size}

abbrev pub k_max_log_chunk_bytes : ℕ
k_max_log_chunk_bytes = 1000

-- `LogReplicateStrategy`.
pub data Strategy : Type 0 where
  unacked unsent : Strategy

abbrev pub is_unacked : Strategy → Bool
is_unacked unacked = true
is_unacked unsent = false

-- An error of any kind that the caller turns into -1.
abbrev pub failed_at : {A : Type 0} → Result A × Sm → Result A × Sm
failed_at (ok a, s) = (ok a, s)
failed_at (err c, s) = (err failed, s)

unfoldable pub or_failed : {A : Type 0} → M A → M A
or_failed m s = failed_at (m s)

-- `kv.second = …`: the keys of a map are distinct.
unfoldable pub put_server :
    ReplicaId → Server → List (ReplicaId × Server) → List (ReplicaId × Server)
put_server id srv [] = []
put_server id srv ((k, v) ∷ rest) =
    if same_id k id then (k, srv) ∷ rest else (k, v) ∷ put_server id srv rest

unfoldable pub set_server : ReplicaId → Server → M (Unit {0})
set_server id srv = modify λ s. record s { servers = put_server id srv s.servers }

-- The body of the loop that fills a message: the entry `i`, and then what the `rest` gives.
unfoldable pub add_entry : ℕ → M (List Entry × ℕ) → M (List Entry × ℕ)
add_entry i rest = do
  term ← log_entry_get_term i
  command ← log_entry_get_command i
  (entries, next) ← rest
  pure (record { term = term; command = command } ∷ entries, next)

-- The loop that fills one message: the entries from `i` on, to the end of the log or until more than
-- `k_max_log_chunk_bytes` bytes are in it, and the index after the last one.
unfoldable pub get_entries : ℕ → ℕ → ℕ → M (List Entry × ℕ)
get_entries zero i chunk_bytes s = raise out_of_fuel s
get_entries (suc fuel) i chunk_bytes s =
    elim (leb i s.last_log_index && leb chunk_bytes k_max_log_chunk_bytes) [
      | false ↦ pure ([], i) s
      | true ↦ add_entry i (get_entries fuel (add32 i 1) (chunk_bytes + log_entry_size s)) s
    ]

-- An entry takes four bytes at least.
abbrev pub chunk_fuel : ℕ
chunk_fuel = 252

-- The body of the do-while loop: one message to one server.
unfoldable pub send_chunk : ReplicaId → Server → M Server
send_chunk id srv = do
  s ← gets (λ s. s)
  let prev_log_index = sub32 srv.next_index_unacked 1
  prev_log_term ← or_failed (log_entry_get_term prev_log_index)
  (entries, i) ← get_entries chunk_fuel srv.next_index_unacked 0
  let srv' = record srv {
    next_index_unacked = i;
    last_ae_time = if is_empty entries then srv.last_ae_time else s.now;
  }
  set_server id srv'
  send id (
      append_entries (record {
        term = s.current_term;
        leader_id = s.local_id;
        leader_commit = s.commit_index;
        prev_log_index = prev_log_index;
        prev_log_term = prev_log_term;
        entries = entries;
      }))
  pure srv'

-- The do-while loop: more messages while the next index is below that of the last entry.
unfoldable pub send_chunks : ℕ → ReplicaId → Server → M (Unit {0})
send_chunks zero id srv = raise out_of_fuel
send_chunks (suc fuel) id srv = do
  srv' ← send_chunk id srv
  s ← gets (λ s. s)
  elim (ltb srv'.next_index_unacked s.last_log_index) [
    | true ↦ send_chunks fuel id srv'
    | false ↦ skip
  ]

-- Whether the entries sent to a server have to be sent again.
abbrev pub must_retransmit : Strategy → Server → Sm → Bool
must_retransmit strategy srv s = is_unacked strategy && leb (srv.last_ae_time + s.rtx_timeout) s.now

abbrev pub rewound : Strategy → Server → Sm → Server
rewound strategy srv s =
    if must_retransmit strategy srv s
    then record srv { next_index_unacked = srv.next_index_acked }
    else srv

-- One round of the loop over the servers.
unfoldable pub send_log : Strategy → ReplicaId → Server → M (Unit {0})
send_log strategy id srv = do
  s ← gets (λ s. s)
  set_server id (rewound strategy srv s)
  send_chunks (suc s.last_log_index) id (rewound strategy srv s)

unfoldable pub send_logs : Strategy → List (ReplicaId × Server) → M (Unit {0})
send_logs strategy [] = skip
send_logs strategy ((id, srv) ∷ rest) = do send_log strategy id srv; send_logs strategy rest

-- `RaftSM::prepare_append_entries`.
unfoldable pub prepare_append_entries : Strategy → M (Unit {0})
prepare_append_entries strategy = do
  s ← gets (λ s. s)
  send_logs strategy s.servers
  set_timer (record { type = heart_beat; action = restart; milliseconds = s.heartbeat_timeout })

-- One round of the loop of `apply_committed_entries`.
unfoldable pub apply_next : M (Unit {0})
apply_next = do
  s ← gets (λ s. s)
  let next = add32 s.last_applied 1
  term ← or_failed (log_entry_get_term next)
  command ← log_entry_get_command next
  modify (λ t. record t {
    applied =
        t.applied
        ++ record { index = next; entry = record { term = term; command = command } } ∷ [];
    last_applied = next;
  })

unfoldable pub apply_rounds : ℕ → M (Unit {0})
apply_rounds zero = skip
apply_rounds (suc n) = do apply_next; apply_rounds n

-- `RaftSM::apply_committed_entries`: the loop runs from `last_applied` to `commit_index`.
unfoldable pub apply_committed_entries : M (Unit {0})
apply_committed_entries = do s ← gets (λ s. s); apply_rounds (s.commit_index - s.last_applied)
