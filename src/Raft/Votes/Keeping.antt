-- ===== src/Raft/Votes/Keeping.antt =====
-- Which inputs of user/libs/raft.cpp keep the term and the vote, whatever fails on the way.
use rlite.Base.{
  ◌+◌, ◌≡◌, ◌≢◌, ◌<◌, ◌^◌, refl, ◌⊎◌, sym, subst, true, Option, none, some, List, [], ◌∷◌, arith,
  Bool-cases, Option-cases, inl, inr,
}
use rlite.Raft.Types.{
  ReplicaId, Server, RequestVote, RequestVoteResp, candidate, AppendEntries, AppendEntriesResp,
  TimerType, election, heart_beat, log_replication, Command, add32,
}
use rlite.Raft.Machine.{Sm, when, pure, ◌>>◌, modify, gets, ◌>>=◌, check_output_arg}
use rlite.Raft.LogFile.{k_log_current_term_ofs}
use rlite.Raft.Storage.{log_u32_write}
use rlite.Raft.Election.{
  restart_election_timer, switch_state, vote_for_candidate, request_vote_input, grants,
}
use rlite.Raft.Replication.{unacked}
use rlite.Raft.Handlers.{
  count_vote, become_leader, request_vote_resp_input, ask_votes, stand_for_election, on_timer,
  timer_expired, submit, is_leader,
}
use rlite.Raft.Acks.{update_commit, note_answer, append_entries_resp_input}
use rlite.Raft.Inputs.{
  Input, vote_request, vote_answer, entries, entries_answer, timeout, client_request, handle,
}
use rlite.Raft.Steps.{
  Steps, Steps-pure, Steps-raise, Steps-gets, Steps-bind, Steps-bind_at, Steps-read, Steps-if,
}
use rlite.Raft.Votes.Ballot.{
  SameBallot, same_ballot, send-SameBallot, ballot_steps, check_output_arg-SameBallot,
  log_u32_write-SameBallot, prepare_append_entries-SameBallot, apply_committed_entries-SameBallot,
  append_log_entry-SameBallot, log_entry_get_term-SameBallot,
}
use rlite.Raft.Votes.Demoting.{
  SameTerm, Steps-VoteKept, VoteKept, catch_up_term-VoteKept, term_steps,
  restart_election_timer-SameBallot, vote_for_candidate-SameTerm, vote_kept,
}

ruleset kept_steps = (
  vote_kept, Steps-pure, Steps-raise, Steps-gets, Steps-bind, Steps-if, Steps-VoteKept,
  catch_up_term-VoteKept, check_output_arg-SameBallot,
)

-- A vote is given only by a replica that has none.
grants_unvoted : (msg : RequestVote) (s : Sm) → grants msg s ≡ true → s.voted_for ≡ []
unfolding grants
grants_unvoted msg s h = ground arith

give_vote-VoteKept :
    (msg : RequestVote) (s : Sm)
    → VoteKept s (when (grants msg s) (vote_for_candidate msg.candidate_id) s).1
unfolding pure
give_vote-VoteKept msg s =
    let same = (vote_for_candidate-SameTerm msg.candidate_id).at s in
    elim (Bool-cases (grants msg s)) [
      | inl yes_vote ↦
          rw yes_vote (omega arith, λ _ ne. absurd (ne (grants_unvoted msg s yes_vote)))
      | inr no_vote ↦ rw no_vote (omega arith, λ _ _. refl)
    ]

request_vote_input-VoteKept : (msg : RequestVote) → Steps VoteKept (request_vote_input msg)
unfolding request_vote_input
request_vote_input-VoteKept msg =
    Steps-bind vote_kept _ _ (Steps-VoteKept _ check_output_arg-SameBallot) (λ _.
      Steps-bind vote_kept _ _ (catch_up_term-VoteKept msg.term) (λ _. Steps-read _ (λ s.
        Steps-bind_at vote_kept _ _ s (give_vote-VoteKept msg s)
          (λ _. Steps-VoteKept _ (send-SameBallot msg.candidate_id _)))))

become_leader-SameBallot : Steps SameBallot become_leader
unfolding become_leader switch_state
become_leader-SameBallot = search (ballot_steps, prepare_append_entries-SameBallot) depth 12

count_vote-SameBallot : Steps SameBallot count_vote
unfolding count_vote
count_vote-SameBallot = search (ballot_steps, become_leader-SameBallot) depth 12

request_vote_resp_input-VoteKept :
    (resp : RequestVoteResp) → Steps VoteKept (request_vote_resp_input resp)
unfolding request_vote_resp_input
request_vote_resp_input-VoteKept resp = search (kept_steps, count_vote-SameBallot) depth 14

update_commit-SameBallot : Steps SameBallot update_commit
unfolding update_commit
update_commit-SameBallot =
    search (ballot_steps, log_entry_get_term-SameBallot, apply_committed_entries-SameBallot) depth
      14

note_answer-SameBallot :
    (resp : AppendEntriesResp) (srv : Option Server) → Steps SameBallot (note_answer resp srv)
unfolding note_answer
note_answer-SameBallot resp none = search ballot_steps
note_answer-SameBallot resp (some srv) = search (ballot_steps, update_commit-SameBallot) depth 8

append_entries_resp_input-VoteKept :
    (resp : AppendEntriesResp) → Steps VoteKept (append_entries_resp_input resp)
unfolding append_entries_resp_input
append_entries_resp_input-VoteKept resp = search (kept_steps, note_answer-SameBallot) depth 14

submit-SameBallot : (c : Command) → Steps SameBallot (submit c)
unfolding submit
submit-SameBallot c =
    search (ballot_steps, append_log_entry-SameBallot, prepare_append_entries-SameBallot) depth 12

ask_votes-SameBallot : (servers : List (ReplicaId × Server)) → Steps SameBallot (ask_votes servers)
unfolding ask_votes
ask_votes-SameBallot [] = search ballot_steps
ask_votes-SameBallot ((id, v) ∷ rest) =
    Steps-bind same_ballot _ _ (Steps-gets same_ballot _)
      (λ s. Steps-bind same_ballot _ _ (send-SameBallot id _) (λ _. ask_votes-SameBallot rest))

after_term-SameTerm : Steps SameTerm (do
  s ← gets (λ s. s)
  log_u32_write k_log_current_term_ofs s.current_term
  vote_for_candidate s.local_id
  modify (λ t. record t { votes_collected = 1; leader_id = [] })
  restart_election_timer
  ask_votes s.servers)
after_term-SameTerm =
    search
      (
        term_steps, log_u32_write-SameBallot, vote_for_candidate-SameTerm,
        restart_election_timer-SameBallot, ask_votes-SameBallot,
      )
      depth 20

-- An election starts a new term, unless the 32-bit number wraps.
stand_for_election-VoteKept :
    (s : Sm) → s.current_term + 1 < 2 ^ 32 → VoteKept s (stand_for_election s).1
unfolding stand_for_election switch_state ◌>>=◌
stand_for_election-VoteKept s room =
    let next = record s { current_term = add32 s.current_term 1; state = candidate } in
    let kept = after_term-SameTerm.at next in
    let grown : add32 s.current_term 1 ≡ s.current_term + 1 = omega arith in
    (omega arith, λ e. absurd (omega arith))

on_timer-VoteKept :
    (type : TimerType) (s : Sm) → s.current_term + 1 < 2 ^ 32 → VoteKept s (on_timer type s).1
unfolding on_timer ◌>>=◌
on_timer-VoteKept election s room = elim (Bool-cases (is_leader s.state)) [
  | inl stays ↦ rw stays (omega arith, λ _ _. refl)
  | inr stands ↦ rw stands (stand_for_election-VoteKept s room)
]
on_timer-VoteKept heart_beat s room =
    (Steps-VoteKept _ (prepare_append_entries-SameBallot unacked)).at s
on_timer-VoteKept log_replication s room = (omega arith, λ _ _. refl)

timer_expired_cases :
    (type : TimerType) (s : Sm)
    → ((timer_expired type s).1 ≡ s) ⊎ ((timer_expired type s).1 ≡ (on_timer type s).1)
unfolding timer_expired check_output_arg ◌>>=◌
timer_expired_cases type s = elim (Option-cases s.out) [
  | inl e ↦ inl (ground arith)
  | inr (o, e) ↦ inr (ground arith)
]

timer_expired-VoteKept :
    (type : TimerType) (s : Sm) → s.current_term + 1 < 2 ^ 32 → VoteKept s (timer_expired type s).1
timer_expired-VoteKept type s room = elim (timer_expired_cases type s) [
  | inl e ↦ subst (VoteKept s) (sym e) (omega arith, λ _ _. refl)
  | inr e ↦ subst (VoteKept s) (sym e) (on_timer-VoteKept type s room)
]

client-SameBallot : (c : Command) (s : Sm) → VoteKept s (handle (client_request c) s).1
unfolding handle
client-SameBallot c s =
    (Steps-VoteKept _
        (Steps-bind same_ballot _ _ (submit-SameBallot c) (λ _. Steps-pure same_ballot tt))).at
      s

-- A vote given in a term stays through every input but AppendEntries, while the term stays: no
-- request, answer, timer or client makes the replica vote for two candidates in one term, whatever
-- the system does to the log file.
pub vote-kept :
    (i : Input) (s : Sm)
    → ((m : AppendEntries) → i ≢ entries m)
    → s.current_term + 1 < 2 ^ 32
    → VoteKept s (handle i s).1
unfolding handle
vote-kept (vote_request m) s other room = (request_vote_input-VoteKept m).at s
vote-kept (vote_answer m) s other room = (request_vote_resp_input-VoteKept m).at s
vote-kept (entries m) s other room = absurd (other m refl)
vote-kept (entries_answer m) s other room = (append_entries_resp_input-VoteKept m).at s
vote-kept (timeout t) s other room = timer_expired-VoteKept t s room
vote-kept (client_request c) s other room = (client-SameBallot c s)
