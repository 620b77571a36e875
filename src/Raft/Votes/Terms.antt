-- ===== src/Raft/Votes/Terms.antt =====
-- The term of a replica of user/libs/raft.cpp through every input, whatever fails on the way.
use rlite.Base.{ℕ, ◌+◌, ◌≤◌, ◌<◌, ◌^◌, Bool, List, [], ◌∷◌, arith}
use rlite.Raft.Types.{ReplicaId, Entry, AppendEntries}
use rlite.Raft.Machine.{Sm, M}
use rlite.Raft.Handlers.{
  accept_entries, find_entry_term, append_log_entries, follow_commit, answer, follow,
  append_entries_input,
}
use rlite.Raft.Inputs.{Input, entries, handle}
use rlite.Raft.Steps.{Preorder, Steps, Steps-gets, Steps-bind, Steps-if}
use rlite.Raft.Votes.Ballot.{
  log_truncate-SameBallot, send-SameBallot, check_output_arg-SameBallot,
  apply_committed_entries-SameBallot, append_log_entry-SameBallot, log_entry_get_term-SameBallot,
}
use rlite.Raft.Votes.Keeping.{vote-kept}
use rlite.Raft.Votes.Demoting.{
  SameTerm, SameTerm-order, Steps-SameTerm, term_steps, VoteKept, back_to_follower-SameTerm,
  catch_up_term-VoteKept,
}

find_entry_term-SameTerm : (i : ℕ) → Steps SameTerm (find_entry_term i)
unfolding find_entry_term
find_entry_term-SameTerm i = record {
  at = λ s. ground (arith, (log_entry_get_term-SameBallot i).at s);
}

append_log_entries-SameTerm : (es : List Entry) → Steps SameTerm (append_log_entries es)
unfolding append_log_entries
append_log_entries-SameTerm [] = search term_steps
append_log_entries-SameTerm (e ∷ es) =
    Steps-bind SameTerm-order _ _ (Steps-SameTerm _ (append_log_entry-SameBallot e))
      (λ _. append_log_entries-SameTerm es)

accept_entries-SameTerm : (msg : AppendEntries) → Steps SameTerm (accept_entries msg)
unfolding accept_entries
accept_entries-SameTerm msg =
    search
      (term_steps, find_entry_term-SameTerm, log_truncate-SameBallot, append_log_entries-SameTerm)
      depth 14

follow_commit-SameTerm : (n : ℕ) → Steps SameTerm (follow_commit n)
unfolding follow_commit
follow_commit-SameTerm n = search (term_steps, apply_committed_entries-SameBallot) depth 10

answer-SameTerm : (to : ReplicaId) (b : Bool) (n : ℕ) → Steps SameTerm (answer to b n)
unfolding answer
answer-SameTerm to b n = search (term_steps, send-SameBallot) depth 10

follow-SameTerm : (msg : AppendEntries) → Steps SameTerm (follow msg)
unfolding follow
follow-SameTerm msg =
    search
      (
        term_steps, back_to_follower-SameTerm, accept_entries-SameTerm, follow_commit-SameTerm,
        answer-SameTerm,
      )
      depth 16

abbrev TermGrows : Sm → Sm → Type 0
TermGrows s t = s.current_term ≤ t.current_term

term_grows : Preorder TermGrows
term_grows = record { refl_at = λ s. omega arith; join = λ s t u h k. omega arith }

SameTerm-TermGrows : {A : Type 0} (m : M A) → Steps SameTerm m → Steps TermGrows m
SameTerm-TermGrows m h = record { at = λ s. omega (arith, h.at s) }

VoteKept-TermGrows : {A : Type 0} (m : M A) → Steps VoteKept m → Steps TermGrows m
VoteKept-TermGrows m h = record { at = λ s. (h.at s).0 }

append_entries_input-TermGrows : (msg : AppendEntries) → Steps TermGrows (append_entries_input msg)
unfolding append_entries_input
append_entries_input-TermGrows msg =
    search
      (
        term_grows, Steps-bind, Steps-if, Steps-gets, SameTerm-TermGrows, VoteKept-TermGrows,
        Steps-SameTerm, catch_up_term-VoteKept, check_output_arg-SameBallot, answer-SameTerm,
        follow-SameTerm,
      )
      depth 14

-- The term of a replica never falls, whatever it is sent and whatever fails.
pub term_monotone :
    (i : Input) (s : Sm)
    → s.current_term + 1 < 2 ^ 32
    → s.current_term ≤ (handle i s).1.current_term
unfolding handle
term_monotone (entries m) s room = (append_entries_input-TermGrows m).at s
term_monotone i s room = (vote-kept i s (λ m e. cc) room).0
