-- ===== src/Raft/Tests/Leaders.antt =====
-- A leader of user/libs/raft.cpp at concrete inputs.
use rlite.Base.{refl, true, [], ◌∷◌, arith}
use rlite.Raft.Types.{AppendEntriesResp, same_id}
use rlite.Raft.Replication.{send_chunks}
use rlite.Raft.Replication.Streams.{Streams, send_chunks_lem}
use rlite.Raft.Acks.{append_entries_resp_input, advance_commit, find_server}
use rlite.Raft.Handlers.Replicating.{Replicates, send_chunk-append_entries_input}
use rlite.Raft.Handlers.Committing.{IsNext, advance_commit-IsNext}
use rlite.Raft.Handlers.Answers.{CommitsOwn, answer-CommitsOwn}
use rlite.Raft.Tests.Machines.{
  b, no_output, server, first, second, first-Fits, second-Fits, with_one, with_one-IsStored,
  with_two-IsStored, leading,
}

send_chunk-append_entries_input_example :
    Replicates leading with_one (first ∷ second ∷ []) b (server 2 1) 1
send_chunk-append_entries_input_example =
    send_chunk-append_entries_input leading (first ∷ second ∷ []) b (server 2 1) 1 with_one
      (first ∷ []) no_output with_two-IsStored (first-Fits, (second-Fits, tt)) (omega arith) refl
      with_one-IsStored (omega arith) refl (omega arith) refl refl

send_chunks_lem_example :
    Streams leading (first ∷ second ∷ []) b 0 (send_chunks 3 b (server 1 0) leading)
send_chunks_lem_example =
    send_chunks_lem 3 leading (first ∷ second ∷ []) b (server 1 0) 0 no_output with_two-IsStored
      (omega arith) refl (omega arith) refl

abbrev holds_both : AppendEntriesResp
holds_both = record { term = 2; follower_id = b; log_index = 2; success = true }

answer-CommitsOwn_example :
    CommitsOwn leading (first ∷ second ∷ []) (append_entries_resp_input holds_both leading).1
unfolding find_server same_id
answer-CommitsOwn_example =
    answer-CommitsOwn leading (first ∷ second ∷ []) holds_both no_output (server 2 1)
      with_two-IsStored refl refl refl

advance_commit-IsNext_example : IsNext leading 0 (advance_commit 4 0 leading)
advance_commit-IsNext_example = advance_commit-IsNext 4 0 leading (omega arith) (omega arith)
