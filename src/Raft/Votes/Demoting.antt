-- ===== src/Raft/Votes/Demoting.antt =====
-- What the way back to follower in user/libs/raft.cpp keeps of the term and the vote, whatever fails.
use rlite.Base.{ℕ, ◌≡◌, ◌≢◌, ◌≤◌, ◌<◌, refl, ◌∙◌, sym, true, [], arith, leb, Bool-cases, inl, inr}
use rlite.Raft.Types.{ReplicaId}
use rlite.Raft.Machine.{Sm, M, pure, ◌>>◌, ◌>>=◌}
use rlite.Raft.LogFile.{k_log_current_term_ofs}
use rlite.Raft.Storage.{log_u32_write}
use rlite.Raft.Election.{
  rand_time_in_range, restart_election_timer, switch_state, vote_for_candidate, back_to_follower,
  catch_up_term,
}
use rlite.Raft.Steps.{
  Preorder, Steps, Steps-pure, Steps-raise, Steps-gets, Steps-bind, Steps-bind_at, Steps-read,
  Steps-if, Steps-modify,
}
use rlite.Raft.Votes.Ballot.{
  SameBallot, set_timer-SameBallot, ballot_steps, log_u32_write-SameBallot,
  log_buf_write-SameBallot,
}

abbrev pub SameTerm : Sm → Sm → Type 0
SameTerm s t = t.current_term ≡ s.current_term

pub SameTerm-order : Preorder SameTerm
SameTerm-order = record { refl_at = λ s. refl; join = λ s t u h k. k ∙ h }

pub Steps-SameTerm : {A : Type 0} (m : M A) → Steps SameBallot m → Steps SameTerm m
Steps-SameTerm m h = record { at = λ s. (h.at s).0 }

pub ruleset term_steps = (
  SameTerm-order, Steps-pure, Steps-raise, Steps-gets, Steps-bind, Steps-if, Steps-modify,
  Steps-SameTerm,
)

-- The term does not fall, and while it stays, a vote that was given stays.
abbrev pub VoteKept : Sm → Sm → Type 0
VoteKept s t =
    (s.current_term ≤ t.current_term)
    × (s.current_term ≡ t.current_term → s.voted_for ≢ [] → t.voted_for ≡ s.voted_for)

pub vote_kept : Preorder VoteKept
vote_kept = record {
  refl_at = λ s. (omega arith, λ _ _. refl);
  join = λ s t u h k. (
    omega arith,
    λ e ne.
        let e1 : s.current_term ≡ t.current_term = omega arith in
        let e2 : t.current_term ≡ u.current_term = omega arith in
        let same = h.1 e1 ne in k.1 e2 (λ gone. ne (sym same ∙ gone)) ∙ same,
  );
}

pub Steps-VoteKept : {A : Type 0} (m : M A) → Steps SameBallot m → Steps VoteKept m
Steps-VoteKept m h = record { at = λ s. let (e, f) = h.at s in (omega arith, λ _ _. f) }

pub vote_for_candidate-SameTerm : (id : ReplicaId) → Steps SameTerm (vote_for_candidate id)
unfolding vote_for_candidate
vote_for_candidate-SameTerm id = search (term_steps, log_buf_write-SameBallot) depth 12

rand_time_in_range-SameBallot : (a b : ℕ) → Steps SameBallot (rand_time_in_range a b)
unfolding rand_time_in_range
rand_time_in_range-SameBallot a b = search ballot_steps

pub restart_election_timer-SameBallot : Steps SameBallot restart_election_timer
unfolding restart_election_timer
restart_election_timer-SameBallot = search (ballot_steps, rand_time_in_range-SameBallot) depth 8

pub back_to_follower-SameTerm : Steps SameTerm back_to_follower
unfolding back_to_follower switch_state
back_to_follower-SameTerm =
    search
      (
        term_steps, vote_for_candidate-SameTerm, restart_election_timer-SameBallot,
        set_timer-SameBallot,
      )
      depth 14

take_over-SameTerm :
    (term : ℕ)
    → Steps SameTerm (do log_u32_write k_log_current_term_ofs term; back_to_follower; pure true)
take_over-SameTerm term =
    search (term_steps, log_u32_write-SameBallot, back_to_follower-SameTerm) depth 10

pub catch_up_term-VoteKept : (term : ℕ) → Steps VoteKept (catch_up_term term)
unfolding catch_up_term ◌>>=◌
catch_up_term-VoteKept term = record {
  at = λ s. elim (Bool-cases (leb term s.current_term)) [
    | inl old ↦ rw old (omega arith, λ _ _. refl)
    | inr newer ↦
        let kept = (take_over-SameTerm term).at (record s { current_term = term }) in
        let later : s.current_term < term = ground arith in
        rw newer (omega arith, λ e. absurd (omega arith))
  ];
}
