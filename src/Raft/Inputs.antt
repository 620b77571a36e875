-- ===== src/Raft/Inputs.antt =====
-- All that can happen to a replica of user/libs/raft.cpp once it has booted.
use rlite.Raft.Types.{
  RequestVote, RequestVoteResp, AppendEntries, AppendEntriesResp, TimerType, Command,
}
use rlite.Raft.Machine.{M, pure, ◌>>◌}
use rlite.Raft.Election.{request_vote_input}
use rlite.Raft.Handlers.{request_vote_resp_input, append_entries_input, timer_expired, submit}
use rlite.Raft.Acks.{append_entries_resp_input}

pub data Input : Type 0 where
  vote_request : RequestVote → Input
  vote_answer : RequestVoteResp → Input
  entries : AppendEntries → Input
  entries_answer : AppendEntriesResp → Input
  timeout : TimerType → Input
  client_request : Command → Input

unfoldable pub handle : Input → M (Unit {0})
handle (vote_request m) = request_vote_input m
handle (vote_answer m) = request_vote_resp_input m
handle (entries m) = append_entries_input m
handle (entries_answer m) = append_entries_resp_input m
handle (timeout t) = timer_expired t
handle (client_request c) = do submit c; pure tt
