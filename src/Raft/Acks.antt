-- ===== src/Raft/Acks.antt =====
-- How a leader of user/libs/raft.cpp notes an answer to AppendEntries, and moves its commit index.
use rlite.Base.{
  ℕ, zero, suc, ◌+◌, ◌-◌, min, max, Bool, true, false, Option, none, some, List, [], ◌∷◌, ltb, leb,
  ◌==◌, ◌&&◌, if◌then◌else◌,
}
use rlite.Raft.Types.{ReplicaId, Server, AppendEntriesResp, same_id, add32, sub32}
use rlite.Raft.Machine.{Sm, M, failed, raise, gets, modify, ◌>>=◌, ◌>>◌, skip, check_output_arg}
use rlite.Raft.Storage.{log_entry_get_term}
use rlite.Raft.Election.{quorum, catch_up_term}
use rlite.Raft.Replication.{set_server, apply_committed_entries}

unfoldable pub find_server : ReplicaId → List (ReplicaId × Server) → Option Server
find_server id [] = none
find_server id ((k, v) ∷ rest) = if same_id k id then some v else find_server id rest

-- The loop of the lambda `match_indices_quorum`, where `needed` is at least `quorum() - 1`.
unfoldable pub match_indices_quorum : ℕ → ℕ → List (ReplicaId × Server) → Bool
match_indices_quorum needed index [] = false
match_indices_quorum needed index ((k, v) ∷ rest) =
    if leb index v.match_index
    then (if leb needed 1 then true else match_indices_quorum (needed - 1) index rest)
    else match_indices_quorum needed index rest

-- The while loop for the next commit index: at most `rounds` steps, which the log's length bounds.
unfoldable pub advance_commit : ℕ → ℕ → Sm → ℕ
advance_commit zero next s = next
advance_commit (suc rounds) next s =
    elim (leb next s.last_log_index
      && match_indices_quorum (quorum s.servers - 1) (add32 next 1) s.servers) [
        | true ↦ advance_commit rounds (add32 next 1) s
        | false ↦ next
      ]

-- The bookkeeping of a positive answer.
abbrev pub acked : ℕ → Server → Server
acked log_index srv =
    if leb srv.next_index_acked (add32 log_index 1)
    then record srv { next_index_acked = add32 log_index 1; match_index = log_index }
    else srv

-- The bookkeeping of a negative answer.
abbrev pub backed_off : ℕ → Server → Server
backed_off log_index srv =
    let next = max 1 (min log_index (sub32 srv.next_index_acked 1)) in
    record srv { next_index_acked = next; next_index_unacked = next }

unfoldable pub update_commit : M (Unit {0})
update_commit = do
  s ← gets (λ s. s)
  let next = advance_commit (s.last_log_index + 2 - s.commit_index) s.commit_index s
  if next == s.commit_index then skip else do
    term ← log_entry_get_term next
    if term == s.current_term
        then (do modify (λ t. record t { commit_index = next }); apply_committed_entries)
        else skip

unfoldable pub note_answer : AppendEntriesResp → Option Server → M (Unit {0})
note_answer resp none = raise failed
note_answer resp (some srv) =
    if resp.success
    then (do set_server resp.follower_id (acked resp.log_index srv); update_commit)
    else set_server resp.follower_id (backed_off resp.log_index srv)

-- `RaftSM::append_entries_resp_input`.
unfoldable pub append_entries_resp_input : AppendEntriesResp → M (Unit {0})
append_entries_resp_input resp = do
  check_output_arg
  s ← gets (λ s. s)
  if ltb resp.term s.current_term then skip else do
    outdated ← catch_up_term resp.term
    t ← gets (λ t. t)
    if outdated then skip else note_answer resp (find_server resp.follower_id t.servers)
