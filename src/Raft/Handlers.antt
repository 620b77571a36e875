-- ===== src/Raft/Handlers.antt =====
-- The inputs of `RaftSM` in user/libs/raft.cpp: messages, timers and the client's requests.
pub mod Accepting
pub mod Following
pub mod Takeover
pub mod Appending
pub mod Stale
pub mod Replicating
pub mod Committing
pub mod Answers
use rlite.Base.{
  ℕ, zero, suc, ◌+◌, ◌-◌, min, max, Bool, true, false, Option, none, some, List, [], ◌∷◌, ltb, leb,
  ◌==◌, ◌||◌, ◌&&◌, not, if◌then◌else◌,
}
use rlite.Raft.Types.{
  ReplicaId, Server, State, Entry, Command, candidate, leader, RequestVoteResp, AppendEntries,
  AppendEntriesResp, append_entries_resp, request_vote, same_id, is_empty, TimerType, election,
  heart_beat, log_replication, stop, add32, sub32,
}
use rlite.Raft.LogFile.{k_log_current_term_ofs}
use rlite.Raft.Machine.{
  Sm, M, failed, no_entry, aborted, Result, ok, err, pure, raise, gets, modify, ◌>>=◌, ◌>>◌, skip,
  when, send, set_timer, check_output_arg,
}
use rlite.Raft.Storage.{log_u32_write, log_entry_get_term, append_log_entry, log_truncate}
use rlite.Raft.Election.{
  switch_state, vote_for_candidate, quorum, back_to_follower, catch_up_term, restart_election_timer,
}
use rlite.Raft.Replication.{
  unacked, unsent, set_server, prepare_append_entries, apply_committed_entries,
}

abbrev pub is_leader : State → Bool
is_leader leader = true
is_leader _ = false

-- A new leader's view of one replica.
abbrev pub fresh_server : Sm → Server
fresh_server s = record {
  next_index_acked = add32 s.last_log_index 1;
  next_index_unacked = add32 s.last_log_index 1;
  match_index = 0;
  last_ae_time = s.now;
}

unfoldable pub reset_servers : Server → List (ReplicaId × Server) → List (ReplicaId × Server)
reset_servers v [] = []
reset_servers v ((id, srv) ∷ rest) = (id, v) ∷ reset_servers v rest

-- What follows in `request_vote_resp_input` once a quorum is reached.
unfoldable pub become_leader : M (Unit {0})
become_leader = do
  switch_state leader
  modify
      (λ s. record s { leader_id = s.local_id; servers = reset_servers (fresh_server s) s.servers })
  prepare_append_entries unsent
  set_timer (record { type = election; action = stop; milliseconds = 0 })

-- What `request_vote_resp_input` does with a vote of the current term.
unfoldable pub count_vote : M (Unit {0})
count_vote = do
  modify (λ s. record s { votes_collected = add32 s.votes_collected 1 })
  s ← gets (λ s. s)
  if ltb s.votes_collected (quorum s.servers) then skip else become_leader

-- `RaftSM::request_vote_resp_input`.
unfoldable pub request_vote_resp_input : RequestVoteResp → M (Unit {0})
request_vote_resp_input resp = do
  check_output_arg
  s ← gets (λ s. s)
  if ltb resp.term s.current_term then skip else do
    outdated ← catch_up_term resp.term
    t ← gets (λ s. s)
    if outdated || is_leader t.state || not resp.vote_granted then skip else count_vote

-- The result of `log_entry_get_term` with its result 1 read as `none`.
abbrev pub entry_if_any : {A : Type 0} → Result A × Sm → Result (Option A) × Sm
entry_if_any (ok a, s) = (ok (some a), s)
entry_if_any (err no_entry, s) = (ok none, s)
entry_if_any (err c, s) = (err c, s)

unfoldable pub find_entry_term : ℕ → M (Option ℕ)
find_entry_term index s = entry_if_any (log_entry_get_term index s)

unfoldable pub append_log_entries : List Entry → M (Unit {0})
append_log_entries [] = skip
append_log_entries (e ∷ es) = do append_log_entry e; append_log_entries es

abbrev pub same_term : Option ℕ → ℕ → Bool
same_term none term = false
same_term (some t) term = term == t

-- What `append_entries_input` does with the entries of a message: whether they were accepted, and
-- the index to answer with.
unfoldable pub accept_entries : AppendEntries → M (Bool × ℕ)
accept_entries msg = do
  prev_log_term ← find_entry_term msg.prev_log_index
  s ← gets (λ s. s)
  let matches = leb msg.prev_log_index s.last_log_index && same_term prev_log_term msg.prev_log_term
  if matches
      then (do
        log_truncate msg.prev_log_index
        append_log_entries msg.entries
        t ← gets (λ t. t)
        pure (true, t.last_log_index))
      else pure (false, msg.prev_log_index)

-- The commit index that a follower takes over from the leader.
unfoldable pub follow_commit : ℕ → M (Unit {0})
follow_commit leader_commit = do
  s ← gets (λ s. s)
  if ltb s.commit_index leader_commit
      then (do
        modify (λ t. record t { commit_index = min leader_commit t.last_log_index })
        apply_committed_entries)
      else skip

unfoldable pub answer : ReplicaId → Bool → ℕ → M (Unit {0})
answer to success log_index = do
  s ← gets (λ s. s)
  send to (
      append_entries_resp (record {
        term = s.current_term;
        follower_id = s.local_id;
        log_index = log_index;
        success = success;
      }))

-- The part of `append_entries_input` for a message of the current term.
unfoldable pub follow : AppendEntries → M (Unit {0})
follow msg = do
  back_to_follower
  modify (λ s. record s { leader_id = msg.leader_id })
  (success, log_index) ←
      if is_empty msg.entries then pure (false, msg.prev_log_index) else accept_entries msg
  follow_commit msg.leader_commit
  when (not (is_empty msg.entries)) (answer msg.leader_id success log_index)

-- `RaftSM::append_entries_input`.
unfoldable pub append_entries_input : AppendEntries → M (Unit {0})
append_entries_input msg = do
  check_output_arg
  catch_up_term msg.term
  s ← gets (λ s. s)
  if ltb msg.term s.current_term then answer msg.leader_id false msg.prev_log_index else follow msg

-- The loop that asks the other replicas for their votes.
unfoldable pub ask_votes : List (ReplicaId × Server) → M (Unit {0})
ask_votes [] = skip
ask_votes ((id, srv) ∷ rest) = do
  s ← gets (λ s. s)
  send id (
      request_vote (record {
        term = s.current_term;
        candidate_id = s.local_id;
        last_log_index = s.last_log_index;
        last_log_term = s.last_log_term;
      }))
  ask_votes rest

-- The case of the election timer in `timer_expired`, for a replica that is not the leader.
unfoldable pub stand_for_election : M (Unit {0})
stand_for_election = do
  switch_state candidate
  modify (λ s. record s { current_term = add32 s.current_term 1 })
  s ← gets (λ s. s)
  log_u32_write k_log_current_term_ofs s.current_term
  vote_for_candidate s.local_id
  modify (λ t. record t { votes_collected = 1; leader_id = [] })
  restart_election_timer
  ask_votes s.servers

unfoldable pub on_timer : TimerType → M (Unit {0})
on_timer election = do s ← gets (λ s. s); if is_leader s.state then skip else stand_for_election
on_timer heart_beat = prepare_append_entries unacked
on_timer log_replication = raise aborted

-- `RaftSM::timer_expired`.
unfoldable pub timer_expired : TimerType → M (Unit {0})
unfolding on_timer
timer_expired type = do check_output_arg; on_timer type

-- `RaftSM::submit`: the index of the new entry.
unfoldable pub submit : Command → M ℕ
submit serbuf = do
  s ← gets (λ s. s)
  if not (is_leader s.state) then raise failed else do
    append_log_entry (record { term = s.current_term; command = serbuf })
    prepare_append_entries unsent
    t ← gets (λ t. t)
    pure t.last_log_index
