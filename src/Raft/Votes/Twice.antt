-- ===== src/Raft/Votes/Twice.antt =====
-- Two votes of one replica in one term: `append_entries_input` of user/libs/raft.cpp goes back to
-- follower, and so clears the vote, also when the message is of the current term.
use rlite.Base.{◌≡◌, ◌<◌, true, some, List, [], arith}
use rlite.Raft.Types.{Entry, RequestVote, AppendEntries, Output}
use rlite.Raft.Machine.{Sm, ok, check_output_arg, ◌>>=◌, add_timer}
use rlite.Raft.Storage.Stored.{IsStored}
use rlite.Raft.Handlers.{append_entries_input, follow}
use rlite.Raft.Handlers.Takeover.{led, committed, follow_commit_lem}
use rlite.Raft.Election.Demotion.{
  catch_up_term_older, back_to_follower_lem, demoted-IsStored, election_timer, stop_heartbeat,
}
use rlite.Raft.Election.{request_vote_input}
use rlite.Raft.Votes.Requests.{request_vote_input-Answers, is_up_to_date}

-- A replica after a heartbeat of its own term.
abbrev after_heartbeat : Sm → List Entry → AppendEntries → Sm
after_heartbeat s l msg = committed (led s msg.leader_id) l msg.leader_commit

module _ (s : Sm) (l : List Entry) (v : IsStored s l)
    (timeouts : s.election_timeout_min < s.election_timeout_max) (o : Output)
    (given : s.out ≡ some o) (msg : AppendEntries) (no_entries : msg.entries ≡ [])
    (same_term : msg.term ≡ s.current_term) where
  heartbeat_lem : append_entries_input msg s ≡ (ok tt, after_heartbeat s l msg)
  unfolding append_entries_input check_output_arg follow ◌>>=◌
  heartbeat_lem = ground (
    arith,
    catch_up_term_older s msg.term (omega arith),
    back_to_follower_lem s v timeouts,
    follow_commit_lem (led s msg.leader_id) l msg.leader_commit (demoted-IsStored s v timeouts),
  )

  -- While the log file works, after a heartbeat of its own term a replica, whether it has voted in
  -- that term or not, gives its vote in the same term to any candidate whose log is no older than
  -- its own.
  pub votes_again_after_heartbeat :
      (rv : RequestVote)
      → rv.term ≡ s.current_term
      → is_up_to_date rv s ≡ true
      → let t = (append_entries_input msg s).1 in
        (u : Sm) × (request_vote_input rv t ≡ (ok tt, u))
        × (u.current_term ≡ s.current_term)
        × (u.voted_for ≡ rv.candidate_id)
  unfolding add_timer
  votes_again_after_heartbeat rv same up_to_date =
      let t = after_heartbeat s l msg in
      let o' = add_timer stop_heartbeat (add_timer (election_timer s) o) in
      let out : t.out ≡ some o' = ground arith in
      let (u, ran, answers) =
        request_vote_input-Answers t l (demoted-IsStored s v timeouts) rv o' out timeouts in
      (u, rw heartbeat_lem ran, omega (arith, answers.term), ground (arith, answers.vote))
