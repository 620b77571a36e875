-- ===== src/Raft/Votes/Durable.antt =====
-- Votes of user/libs/raft.cpp on disk: before a replica answers, its term and vote are in the header
-- of the log, where a later boot finds them.
use native.Mathlib.Decide.{dec_lt}
use rlite.Base.{ℕ, ◌^◌, ◌≡◌, ◌<◌, subst, ◌∙◌, inl, inr, some, List, [], length, arith, Bool-cases}
use rlite.Raft.Types.{ReplicaId, Entry, RequestVote, Output, same_id, same_id_sound}
use rlite.Raft.LogFile.{
  LogFile, written, u32_bytes, get_bytes, put_bytes, length-u32_bytes, u32_at-put_bytes_self,
  u32_at-put_bytes_apart, get_bytes-put_bytes_self, get_bytes-put_bytes_apart,
  k_log_current_term_ofs, k_log_voted_for_ofs,
}
use rlite.Raft.Machine.{Sm}
use rlite.Raft.Storage.Stored.{IsStored}
use rlite.Raft.Election.{grants, request_vote_input, id_buf}
use rlite.Raft.Election.Demotion.{voted, caught_up, length-id_buf}
use rlite.Raft.Election.Granting.{balloted, request_vote_input-known, request_vote_input-newer}
use rlite.Raft.Boot.Recovery.{HeaderHolds, IsText}

-- The header of a replica's log holds its term and its vote.
abbrev pub IsDurable : Sm → Type 0
IsDurable s = HeaderHolds s.logfile s.current_term s.voted_for

term-HeaderHolds :
    (f : LogFile) (old term : ℕ) (vote : ReplicaId)
    → term < 2 ^ 32
    → HeaderHolds f old vote
    → HeaderHolds (written f k_log_current_term_ofs (u32_bytes term)) term vote
unfolding written
term-HeaderHolds f old term vote fits h = record {
  magic =
      u32_at-put_bytes_apart f.bytes k_log_current_term_ofs (u32_bytes term) 0 (inl (omega arith))
      ∙ h.magic;
  term_holds = u32_at-put_bytes_self f.bytes k_log_current_term_ofs term fits;
  vote_holds =
      get_bytes-put_bytes_apart f.bytes k_log_current_term_ofs (u32_bytes term) 8 120
        (inr (omega (arith, length-u32_bytes term)))
      ∙ h.vote_holds;
  vote_text = h.vote_text;
  vote_short = h.vote_short;
}

vote-HeaderHolds :
    (f : LogFile) (term : ℕ) (old id : ReplicaId)
    → IsText id
    → length id < 120
    → HeaderHolds f term old
    → HeaderHolds (written f k_log_voted_for_ofs (id_buf id)) term id
unfolding written
vote-HeaderHolds f term old id text short h = record {
  magic =
      u32_at-put_bytes_apart f.bytes k_log_voted_for_ofs (id_buf id) 0 (inl (omega arith))
      ∙ h.magic;
  term_holds =
      u32_at-put_bytes_apart f.bytes k_log_voted_for_ofs (id_buf id) 4 (inl (omega arith))
      ∙ h.term_holds;
  vote_holds =
      subst (λ n. get_bytes (put_bytes f.bytes 8 (id_buf id)) 8 n ≡ id_buf id) (length-id_buf id)
        (get_bytes-put_bytes_self f.bytes k_log_voted_for_ofs (id_buf id));
  vote_text = text;
  vote_short = short;
}

voted-IsDurable :
    (s : Sm) (id : ReplicaId) → IsText id → length id < 120 → IsDurable s → IsDurable (voted s id)
voted-IsDurable s id text short h = elim (Bool-cases (same_id s.voted_for id)) [
  | inl same ↦
      rw same (subst (HeaderHolds s.logfile s.current_term) (same_id_sound s.voted_for id same) h)
  | inr other ↦ rw other (vote-HeaderHolds s.logfile s.current_term s.voted_for id text short h)
]

balloted-IsDurable :
    (s : Sm) (msg : RequestVote)
    → IsText msg.candidate_id
    → length msg.candidate_id < 120
    → IsDurable s
    → IsDurable (balloted s msg)
balloted-IsDurable s msg text short h = elim (Bool-cases (grants msg s)) [
  | inl given ↦ rw given (voted-IsDurable s msg.candidate_id text short h)
  | inr denied ↦ rw denied h
]

caught_up-IsDurable :
    (s : Sm) (term : ℕ) → term < 2 ^ 32 → IsDurable s → IsDurable (caught_up s term)
caught_up-IsDurable s term fits h =
    voted-IsDurable
      (record s {
        logfile = written s.logfile k_log_current_term_ofs (u32_bytes term);
        current_term = term;
      })
      [] tt (omega arith) (term-HeaderHolds s.logfile s.current_term term s.voted_for fits h)

module _ (s : Sm) (l : List Entry) (v : IsStored s l) (durable : IsDurable s)
    (timeouts : s.election_timeout_min < s.election_timeout_max) (msg : RequestVote)
    (term_fits : msg.term < 2 ^ 32) (text : IsText msg.candidate_id)
    (short : length msg.candidate_id < 120) (o : Output) (given : s.out ≡ some o) where
  -- While the log file works, and for a candidate whose name has no zero byte and fits the header,
  -- the header on disk holds the term and the vote that a replica is in after a request for its
  -- vote, if it did before.
  pub request_vote_input-IsDurable : IsDurable (request_vote_input msg s).1
  request_vote_input-IsDurable = elim (dec_lt s.current_term msg.term) [
    | yes newer ↦ rw (request_vote_input-newer s l v msg o given timeouts newer) (
        balloted-IsDurable (caught_up s msg.term) msg text short
          (caught_up-IsDurable s msg.term term_fits durable))
    | no known ↦
        rw (request_vote_input-known s l v msg o given (omega arith))
          (balloted-IsDurable s msg text short durable)
  ]
