-- ===== src/Raft/Election.antt =====
-- Terms, votes and the way back to follower in user/libs/raft.cpp.
pub mod Demotion
pub mod Granting
pub mod Majority
use rlite.Base.{
  ℕ, ◌+◌, ◌-◌, ◌/◌, ◌%◌, Bool, true, false, List, [], ◌∷◌, ◌++◌, length, take, replicate, ltb, leb,
  ◌==◌, ◌||◌, ◌&&◌, if◌then◌else◌,
}
use rlite.Raft.Types.{
  ReplicaId, Server, State, follower, RequestVote, request_vote_resp, same_id, is_empty, election,
  heart_beat, restart, stop,
}
use rlite.Raft.LogFile.{k_log_current_term_ofs, k_log_voted_for_ofs, k_log_voted_for_size}
use rlite.Raft.Machine.{
  Sm, M, aborted, pure, raise, gets, modify, next_rand, ◌>>=◌, ◌>>◌, skip, when, send, set_timer,
  check_output_arg,
}
use rlite.Raft.Storage.{log_buf_write, log_u32_write}

-- `RaftSM::rand_time_in_range`, its `assert` first.
unfoldable pub rand_time_in_range : ℕ → ℕ → M ℕ
rand_time_in_range left right =
    if leb right left then raise aborted else do r ← next_rand; pure (left + r % (right - left))

-- `RaftSM::switch_state`, less its message.
unfoldable pub switch_state : State → M (Unit {0})
switch_state next = modify λ s. record s { state = next }

-- The text of a string as C reads it, to its first zero byte.
unfoldable pub c_str : List ℕ → List ℕ
c_str [] = []
c_str (c ∷ cs) = if c == 0 then [] else c ∷ c_str cs

-- `snprintf(buf_id, sizeof(buf_id), "%s", …)` into a buffer of zeros.
unfoldable pub id_buf : ReplicaId → List ℕ
unfolding c_str
id_buf id =
    let text = take (k_log_voted_for_size - 1) (c_str id) in
    text ++ replicate (k_log_voted_for_size - length text) 0

-- `RaftSM::vote_for_candidate`.
unfoldable pub vote_for_candidate : ReplicaId → M (Unit {0})
vote_for_candidate candidate_id = do
  s ← gets (λ s. s)
  if same_id s.voted_for candidate_id then skip else do
    modify (λ t. record t { voted_for = candidate_id })
    log_buf_write k_log_voted_for_ofs (id_buf candidate_id)

-- `RaftSM::quorum`: half of the replicas, this one included, rounded up.
unfoldable pub quorum : List (ReplicaId × Server) → ℕ
quorum servers = (length servers + 1 + 1) / 2

unfoldable pub restart_election_timer : M (Unit {0})
restart_election_timer = do
  s ← gets (λ s. s)
  t ← rand_time_in_range s.election_timeout_min s.election_timeout_max
  set_timer (record { type = election; action = restart; milliseconds = t })

-- `RaftSM::back_to_follower`.
unfoldable pub back_to_follower : M (Unit {0})
back_to_follower = do
  modify (λ s. record s { leader_id = []; votes_collected = 0 })
  vote_for_candidate []
  switch_state follower
  restart_election_timer
  set_timer (record { type = heart_beat; action = stop; milliseconds = 0 })

-- `RaftSM::catch_up_term`: whether the term was outdated (its result 1).
unfoldable pub catch_up_term : ℕ → M Bool
catch_up_term term = do
  s ← gets (λ s. s)
  if leb term s.current_term then pure false else do
    modify (λ t. record t { current_term = term })
    log_u32_write k_log_current_term_ofs term
    back_to_follower
    pure true

-- The test of `RaftSM::request_vote_input` on a state that has caught up.
unfoldable pub grants : RequestVote → Sm → Bool
grants msg s =
    if ltb msg.term s.current_term
    then false
    else (is_empty s.voted_for
        && (ltb s.last_log_term msg.last_log_term
            || (msg.last_log_term == s.last_log_term && leb s.last_log_index msg.last_log_index)))

-- `RaftSM::request_vote_input`.
unfoldable pub request_vote_input : RequestVote → M (Unit {0})
request_vote_input msg = do
  check_output_arg
  catch_up_term msg.term
  s ← gets (λ s. s)
  let vote = grants msg s
  when vote (vote_for_candidate msg.candidate_id)
  send msg.candidate_id (request_vote_resp (record { term = s.current_term; vote_granted = vote }))
