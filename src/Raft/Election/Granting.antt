-- ===== src/Raft/Election/Granting.antt =====
-- `request_vote_input` of user/libs/raft.cpp while the log on disk works.
use rlite.Base.{◌≡◌, ◌≤◌, ◌<◌, some, List, arith, if◌then◌else◌}
use rlite.Raft.Types.{Entry, RequestVote, request_vote_resp, Message, Output}
use rlite.Raft.Machine.{Sm, ok, ◌>>=◌, check_output_arg, send, add_message, map_out}
use rlite.Raft.Storage.Stored.{IsStored}
use rlite.Raft.Election.{grants, request_vote_input}
use rlite.Raft.Election.Demotion.{
  voted, caught_up, caught_up-IsStored, catch_up_term_newer, catch_up_term_older,
  vote_for_candidate_lem,
}

-- The answer to a request for a vote.
abbrev pub vote_reply : Sm → RequestVote → Message
vote_reply s msg = request_vote_resp (record { term = s.current_term; vote_granted = grants msg s })

-- The state after the answer of a replica that has caught up.
abbrev pub balloted : Sm → RequestVote → Sm
balloted s msg = record (if grants msg s then voted s msg.candidate_id else s) {
  out = map_out (add_message msg.candidate_id (vote_reply s msg)) s.out;
}

module _ (s : Sm) (l : List Entry) (v : IsStored s l) (msg : RequestVote) (o : Output)
    (given : s.out ≡ some o) where
  pub request_vote_input-known :
      msg.term ≤ s.current_term → request_vote_input msg s ≡ (ok tt, balloted s msg)
  unfolding request_vote_input check_output_arg send ◌>>=◌
  request_vote_input-known h =
      ground (arith, catch_up_term_older s msg.term h, vote_for_candidate_lem s v msg.candidate_id)

  pub request_vote_input-newer :
      s.election_timeout_min < s.election_timeout_max
      → s.current_term < msg.term
      → request_vote_input msg s ≡ (ok tt, balloted (caught_up s msg.term) msg)
  unfolding request_vote_input check_output_arg send ◌>>=◌
  request_vote_input-newer timeouts h = ground (
    arith,
    catch_up_term_newer s v timeouts msg.term h,
    vote_for_candidate_lem (caught_up s msg.term) (caught_up-IsStored s v timeouts msg.term)
        msg.candidate_id,
  )
