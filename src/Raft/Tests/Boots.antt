-- ===== src/Raft/Tests/Boots.antt =====
-- Boots of a replica of user/libs/raft.cpp at concrete inputs, and its quorum.
use rlite.Base.{◌*◌, ◌%◌, ◌≡◌, ◌≤◌, ◌<◌, ◌↔◌, refl, ap, true, false, [], ◌∷◌, arith, inl, inr}
use rlite.Raft.Types.{RequestVote, Entry, same_id}
use rlite.Raft.LogFile.{written, put_bytes, get_bytes, u32_at, u32_bytes}
use rlite.Raft.Machine.{Sm, ok}
use rlite.Raft.Election.{grants, request_vote_input, quorum, id_buf}
use rlite.Raft.Election.Majority.{quorum_majority}
use rlite.Raft.Boot.{init, is_peer}
use rlite.Raft.Boot.Recovery.{HeaderHolds, Recovers, init-Recovers}
use rlite.Raft.Storage.Stored.{IsStored}
use rlite.Raft.Storage.Appended.{appended, appended-IsStored}
use rlite.Raft.Election.Granting.{balloted, request_vote_input-newer}
use rlite.Raft.Election.Demotion.{caught_up}
use rlite.Raft.Votes.Requests.{log_is_up_to_date}
use rlite.Raft.Votes.Restart.{vote_survives_restart, recovered_votes_for_older_log}
use rlite.Raft.Tests.Machines.{b, c, no_output, booted, booted-IsStored, booted-IsDurable, leading}

init-Recovers_example :
    (t : Sm) × (init (b ∷ c ∷ []) booted ≡ (ok tt, t)) × Recovers booted t [] 0 []
unfolding written
init-Recovers_example =
    init-Recovers booted [] 0 [] (b ∷ c ∷ []) booted-IsStored booted-IsDurable (inl refl) refl
      no_output refl (omega arith)

-- The replica votes for `b`, stops and boots again.
abbrev ask : RequestVote
ask = record { term = 3; candidate_id = b; last_log_index = 0; last_log_term = 0 }

abbrev asked : Sm
asked = (request_vote_input ask booted).1

abbrev stopped : Sm
stopped = record booted { logfile = asked.logfile; log_command_size = asked.log_command_size }

asked_lem : asked ≡ balloted (caught_up booted 3) ask
asked_lem =
    ap (λ r. r.1)
      (request_vote_input-newer booted [] booted-IsStored ask no_output refl (omega arith)
        (omega arith))

asked_present : asked.logfile.present ≡ true
unfolding written grants same_id
asked_present = rw asked_lem refl

asked_vote : is_peer asked.voted_for (b ∷ c ∷ []) ≡ true
unfolding is_peer grants same_id
asked_vote = rw asked_lem refl

vote_survives_restart_example :
    (u : Sm) × (init (b ∷ c ∷ []) stopped ≡ (ok tt, u))
    × Recovers stopped u [] asked.current_term asked.voted_for
vote_survives_restart_example =
    vote_survives_restart booted [] booted-IsStored booted-IsDurable (omega arith) ask (omega arith)
      (omega arith) (omega arith) no_output refl stopped (b ∷ c ∷ []) no_output refl asked_present
      refl refl (inr (inr asked_vote)) refl (omega arith)

abbrev late : Entry
late = record { term = 5; command = 40 ∷ 41 ∷ [] }

abbrev with_late : Sm
with_late = appended booted late

with_late-IsStored : IsStored with_late (late ∷ [])
with_late-IsStored = appended-IsStored booted booted-IsStored late (omega arith, refl) (omega arith)

with_late-header : HeaderHolds with_late.logfile 0 []
unfolding written put_bytes u32_bytes u32_at get_bytes id_buf
with_late-header = record {
  magic = refl;
  term_holds = refl;
  vote_holds = refl;
  vote_text = tt;
  vote_short = omega arith;
}

with_late-present : with_late.logfile.present ≡ true
unfolding written
with_late-present = refl

-- The last entry of the candidate is older than that.
abbrev older : RequestVote
older = record { term = 9; candidate_id = b; last_log_index = 1; last_log_term = 2 }

-- The log has one entry, whose term is 5.
recovered_votes_for_older_log_example :
    (log_is_up_to_date older (late ∷ []) ≡ false)
    × ((s : Sm) × (t : Sm) × (init (b ∷ c ∷ []) with_late ≡ (ok tt, s))
        × (request_vote_input older s ≡ (ok tt, t))
        × (t.voted_for ≡ b))
recovered_votes_for_older_log_example =
    recovered_votes_for_older_log with_late (late ∷ []) 0 [] (b ∷ c ∷ []) 0 late older no_output
      with_late-IsStored with_late-header (inl refl) with_late-present refl (omega arith) refl refl
      (omega arith) (omega arith) (omega arith)

quorum_majority_example :
    ((3 < 2 * quorum leading.servers) ↔ (2 % 2 ≡ 0)) × (3 ≤ 2 * quorum leading.servers)
quorum_majority_example = quorum_majority leading.servers
