-- ===== src/Raft/Votes/Runs.antt =====
-- Whole runs of a replica of user/libs/raft.cpp between two boots: inputs of any kind in any order,
-- with what its caller changes in between.
use rlite.Base.{ℕ, ◌+◌, ◌^◌, ◌≢◌, ◌≤◌, ◌<◌, refl, Option, List, arith}
use rlite.Raft.Types.{AppendEntries, Output}
use rlite.Raft.LogFile.{Fault}
use rlite.Raft.Machine.{Sm}
use rlite.Raft.Inputs.{Input, entries, handle}
use rlite.Raft.Votes.Demoting.{VoteKept, vote_kept}
use rlite.Raft.Votes.Keeping.{vote-kept}
use rlite.Raft.Votes.Terms.{term_monotone}

-- One step: an allowed input, in a term that is not the last of its 32 bits; or the caller hands in
-- an empty output, lets time pass, and the random numbers and the faults to come are others.
pub data Step (Allowed : Input → Type 0) : Sm → Sm → Type 0 where
  input :
      (s : Sm) (i : Input) → Allowed i → s.current_term + 1 < 2 ^ 32 → Step Allowed s (handle i s).1
  caller :
      (s : Sm) (o : Option Output) (now : ℕ) (rands : List ℕ) (faults : List Fault)
      → Step Allowed s (record s { out = o; now = now; rands = rands; faults = faults })

pub data Runs (Allowed : Input → Type 0) (s : Sm) : Sm → Type 0 where
  here : Runs Allowed s s
  next : {t u : Sm} → Runs Allowed s t → Step Allowed t u → Runs Allowed s u

abbrev pub AnyInput : Input → Type 0
AnyInput i = Unit {0}

-- All inputs but AppendEntries.
abbrev pub NoEntries : Input → Type 0
NoEntries i = (m : AppendEntries) → i ≢ entries m

Step-VoteKept : {s t : Sm} → Step NoEntries s t → VoteKept s t
Step-VoteKept (input s i other room) = vote-kept i s other room
Step-VoteKept (caller s o now rands faults) = (omega arith, λ _ _. refl)

-- In a run of requests, answers, timers and client commands, without AppendEntries messages, and
-- while the 32-bit term does not wrap, the term does not fall, and a replica that has voted and is
-- still in the same term has voted for the same candidate, whatever the system does to the log
-- file.
pub Runs-VoteKept : (s t : Sm) → Runs NoEntries s t → VoteKept s t
Runs-VoteKept s _ here = vote_kept.refl_at s
Runs-VoteKept s _ (next {t} {u} r step) =
    vote_kept.join s t u (Runs-VoteKept s t r) (Step-VoteKept step)

Step-term : {s t : Sm} → Step AnyInput s t → s.current_term ≤ t.current_term
Step-term (input s i other room) = term_monotone i s room
Step-term (caller s o now rands faults) = omega arith

-- In a run of any inputs, in which no input meets the last of the 32-bit terms, the term of a
-- replica never falls, whatever the system does to the log file.
pub Runs-term : (s t : Sm) → Runs AnyInput s t → s.current_term ≤ t.current_term
Runs-term s _ here = omega arith
Runs-term s _ (next {t} {u} r step) = omega (arith, Runs-term s t r, Step-term step)
