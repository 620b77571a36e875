-- ===== src/Raft/Tests/Ballots.antt =====
-- Votes of user/libs/raft.cpp at concrete inputs.
use rlite.Base.{◌≡◌, ◌≤◌, refl, true, some, [], ◌∷◌, arith}
use rlite.Raft.Types.{RequestVote, AppendEntries}
use rlite.Raft.LogFile.{seek_fails}
use rlite.Raft.Machine.{Sm, ok}
use rlite.Raft.Election.{request_vote_input}
use rlite.Raft.Handlers.{append_entries_input}
use rlite.Raft.Inputs.{handle, timeout, vote_request}
use rlite.Raft.Types.{election}
use rlite.Raft.Votes.Demoting.{VoteKept}
use rlite.Raft.Votes.Requests.{Answers, request_vote_input_lem}
use rlite.Raft.Votes.Runs.{
  Runs, NoEntries, AnyInput, input, caller, here, next, Runs-VoteKept, Runs-term,
}
use rlite.Raft.Votes.Durable.{IsDurable, request_vote_input-IsDurable}
use rlite.Raft.Votes.Twice.{votes_again_after_heartbeat}
use rlite.Raft.Tests.Machines.{
  b, c, no_output, booted, booted-IsStored, booted-IsDurable, first, second, with_two,
  with_two-IsStored,
}

abbrev ask : RequestVote
ask = record { term = 3; candidate_id = b; last_log_index = 2; last_log_term = 2 }

request_vote_input_lem_example :
    (t : Sm) × (request_vote_input ask with_two ≡ (ok tt, t))
    × Answers true with_two t (first ∷ second ∷ []) ask
request_vote_input_lem_example =
    request_vote_input_lem with_two (first ∷ second ∷ []) with_two-IsStored ask no_output refl
      (omega arith) refl

-- The new term cannot be written.
abbrev failing : Sm
failing = record with_two { faults = seek_fails ∷ [] }

request_vote_input-IsDurable_example : IsDurable (request_vote_input ask booted).1
request_vote_input-IsDurable_example =
    request_vote_input-IsDurable booted [] booted-IsStored booted-IsDurable (omega arith) ask
      (omega arith) (omega arith) (omega arith) no_output refl

-- A replica that has voted in the term 2, and then a request, a break and its election timer.
abbrev has_voted : Sm
has_voted = record with_two { voted_for = c }

abbrev asked_again : Sm
asked_again = (handle (vote_request (record ask { term = 2 })) has_voted).1

abbrev later : Sm
later = record asked_again { out = some no_output; now = 500; rands = 3 ∷ []; faults = [] }

asked_run : Runs NoEntries has_voted later
asked_run =
    next
      (next here
        (input has_voted (vote_request (record ask { term = 2 })) (λ m e. cc) (omega arith)))
      (caller asked_again (some no_output) 500 (3 ∷ []) [])

Runs-VoteKept_example : VoteKept has_voted later
Runs-VoteKept_example = Runs-VoteKept has_voted later asked_run

abbrev timed_out : Sm
timed_out = (handle (timeout election) with_two).1

timed_run : Runs AnyInput with_two timed_out
timed_run = next here (input with_two (timeout election) tt (omega arith))

Runs-term_example : 2 ≤ timed_out.current_term
Runs-term_example = Runs-term with_two timed_out timed_run

abbrev heartbeat : AppendEntries
heartbeat = record {
  term = 2;
  leader_id = c;
  leader_commit = 0;
  prev_log_index = 2;
  prev_log_term = 2;
  entries = [];
}

votes_again_after_heartbeat_example :
    let t = (append_entries_input heartbeat has_voted).1 in
    (u : Sm) × (request_vote_input (record ask { term = 2 }) t ≡ (ok tt, u))
    × (u.current_term ≡ 2)
    × (u.voted_for ≡ b)
votes_again_after_heartbeat_example =
    votes_again_after_heartbeat has_voted (first ∷ second ∷ []) with_two-IsStored (omega arith)
      no_output refl heartbeat refl refl (record ask { term = 2 }) refl refl
