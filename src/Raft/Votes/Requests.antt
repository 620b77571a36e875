-- ===== src/Raft/Votes/Requests.antt =====
-- The answer of a replica of user/libs/raft.cpp to a request for its vote.
use native.Mathlib.Decide.{dec_lt}
use rlite.Base.{
  ℕ, subst, length, none, max, ◌≡◌, ◌<◌, Bool, some, List, [], ◌∷◌, ◌++◌, ◌&&◌, ◌||◌, ◌==◌, arith,
  leb, ltb, ◌≤◌, if◌then◌else◌, Bool-cases, inl, inr,
}
use rlite.Raft.Types.{ReplicaId, Entry, RequestVote, request_vote_resp, Output, is_empty}
use rlite.Raft.Machine.{messages, Sm, ok, add_message, add_timer}
use rlite.Raft.Storage.Stored.{IsStored}
use rlite.Raft.Storage.Terms.{term_at}
use rlite.Raft.Election.{grants, request_vote_input}
use rlite.Raft.Election.Demotion.{caught_up, caught_up-IsStored, voted-IsStored}
use rlite.Raft.Election.Granting.{balloted, request_vote_input-known, request_vote_input-newer}

-- A candidate's log is no older than what a replica notes of its own last entry.
abbrev pub is_up_to_date : RequestVote → Sm → Bool
is_up_to_date msg s =
    ltb s.last_log_term msg.last_log_term
    || (msg.last_log_term == s.last_log_term && leb s.last_log_index msg.last_log_index)

-- The vote of a replica in the term of a request. A newer term has none yet.
abbrev pub standing_vote : RequestVote → Sm → ReplicaId
standing_vote msg s = if ltb s.current_term msg.term then [] else s.voted_for

-- The term of the last entry of a log, and Raft's order: a candidate's log is no older than `l`.
abbrev pub last_term : List Entry → ℕ
last_term l = elim (term_at l (length l)) [ none ↦ 0 | some t ↦ t ]

abbrev pub log_is_up_to_date : RequestVote → List Entry → Bool
log_is_up_to_date msg l =
    ltb (last_term l) msg.last_log_term
    || (msg.last_log_term == last_term l && leb (length l) msg.last_log_index)

abbrev pub deserves : RequestVote → Sm → Bool
deserves msg s =
    leb s.current_term msg.term && is_empty (standing_vote msg s) && is_up_to_date msg s

-- The same by the log itself.
abbrev pub deserves_by_log : RequestVote → Sm → List Entry → Bool
deserves_by_log msg s l =
    leb s.current_term msg.term && is_empty (standing_vote msg s) && log_is_up_to_date msg l

-- What a replica `t` is after a replica `s` has answered a request, whose vote it gave or not.
pub record Answers (granted : Bool) (s t : Sm) (l : List Entry) (msg : RequestVote) : Type 0 where
  pub log : IsStored t l
  pub term : t.current_term ≡ max s.current_term msg.term
  pub vote : t.voted_for ≡ (if granted then msg.candidate_id else standing_vote msg s)
  pub answered :
      messages t
      ≡ messages s
        ++ (
          msg.candidate_id,
          request_vote_resp (record { term = max s.current_term msg.term; vote_granted = granted }),
        )
          ∷ []

balloted-IsStored :
    (s : Sm) (l : List Entry) (msg : RequestVote) → IsStored s l → IsStored (balloted s msg) l
balloted-IsStored s l msg v = elim (Bool-cases (grants msg s)) [
  | inl given ↦ rw given (voted-IsStored s v msg.candidate_id)
  | inr denied ↦ rw denied v
]

module _ (s : Sm) (l : List Entry) (v : IsStored s l) (msg : RequestVote) (o : Output)
    (given : s.out ≡ some o) where
  known-Answers : msg.term ≤ s.current_term → Answers (deserves msg s) s (balloted s msg) l msg
  unfolding grants add_message
  known-Answers h = record {
    log = balloted-IsStored s l msg v;
    term = ground arith;
    vote = ground arith;
    answered = ground arith;
  }

  newer-Answers :
      s.election_timeout_min < s.election_timeout_max
      → s.current_term < msg.term
      → Answers (deserves msg s) s (balloted (caught_up s msg.term) msg) l msg
  unfolding grants add_message add_timer
  newer-Answers timeouts h = record {
    log = balloted-IsStored (caught_up s msg.term) l msg (caught_up-IsStored s v timeouts msg.term);
    term = ground arith;
    vote = ground arith;
    answered = ground arith;
  }

  -- The answer by what the replica notes of its last entry.
  pub request_vote_input-Answers :
      s.election_timeout_min < s.election_timeout_max
      → (t : Sm) × (request_vote_input msg s ≡ (ok tt, t)) × Answers (deserves msg s) s t l msg
  request_vote_input-Answers timeouts = elim (dec_lt s.current_term msg.term) [
    | yes newer ↦ (
      balloted (caught_up s msg.term) msg,
      request_vote_input-newer s l v msg o given timeouts newer,
      newer-Answers timeouts newer,
    )
    | no known ↦ (
      balloted s msg,
      request_vote_input-known s l v msg o given (omega arith),
      known-Answers (omega arith),
    )
  ]

  -- While the log file works, a replica that notes the term of its log's last entry, 0 for an empty
  -- log, answers every request for its vote. It gives the vote, and records it, exactly when the
  -- request is not of an older term, it has not voted in that term, and the candidate's log is no
  -- older than its own; its term is then the newer of the two, and its log is as before.
  pub request_vote_input_lem :
      s.election_timeout_min < s.election_timeout_max
      → s.last_log_term ≡ last_term l
      → (t : Sm) × (request_vote_input msg s ≡ (ok tt, t))
        × Answers (deserves_by_log msg s l) s t l msg
  request_vote_input_lem timeouts noted =
      let (t, ran, answers) = request_vote_input-Answers timeouts in
      let same : deserves msg s ≡ deserves_by_log msg s l = ground (arith, noted, v.counted) in
      (t, ran, subst (λ b. Answers b s t l msg) same answers)
