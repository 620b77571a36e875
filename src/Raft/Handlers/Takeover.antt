-- ===== src/Raft/Handlers/Takeover.antt =====
-- How a follower of user/libs/raft.cpp takes over its leader's commit index and answers, once its
-- log is settled.
use rlite.Base.{
  ℕ, ◌+◌, ◌-◌, ◌≡◌, ap, sym, ◌∙◌, Bool, some, List, [], ◌∷◌, ◌++◌, length, min, ltb, if◌then◌else◌,
  arith, append-nil,
}
use rlite.Raft.Types.{
  Entry, AppendEntries, Message, append_entries_resp, ReplicaId, Output, follower,
}
use rlite.Raft.Machine.{messages, Sm, ok, ◌>>=◌, send, add_message, add_timer, map_out}
use rlite.Raft.Storage.Stored.{IsStored}
use rlite.Raft.Replication.Applying.{calls, apply_committed_entries_lem}
use rlite.Raft.Election.Demotion.{demoted}
use rlite.Raft.Handlers.{follow_commit, answer}

-- The state after a follower of a log `l` takes over the leader's commit index.
abbrev pub committed : Sm → List Entry → ℕ → Sm
committed s l leader_commit =
    let moves = ltb s.commit_index leader_commit in
    let next = min leader_commit (length l) in
    let count = next - s.last_applied in
    record s {
      commit_index = if moves then next else s.commit_index;
      applied = if moves then s.applied ++ calls l s.last_applied count else s.applied;
      last_applied = if moves then s.last_applied + count else s.last_applied;
    }

pub follow_commit_lem :
    (s : Sm) (l : List Entry) (leader_commit : ℕ)
    → IsStored s l
    → follow_commit leader_commit s ≡ (ok tt, committed s l leader_commit)
unfolding follow_commit ◌>>=◌
follow_commit_lem s l leader_commit v = ground (
  arith,
  v.counted,
  apply_committed_entries_lem (record s { commit_index = min leader_commit (length l) }) l v
      (omega arith),
)

abbrev pub reply : Sm → AppendEntries → Bool → ℕ → ReplicaId × Message
reply s msg success log_index = (
  msg.leader_id,
  append_entries_resp (record {
    term = s.current_term;
    follower_id = s.local_id;
    log_index = log_index;
    success = success;
  }),
)

-- A follower that has heard from its leader.
abbrev pub led : Sm → ReplicaId → Sm
led s id = record (demoted s) { leader_id = id }

messages-led : (s : Sm) (id : ReplicaId) → messages (led s id) ≡ messages s
unfolding add_timer
messages-led s id = ground arith

-- Two machines that differ in their logs at most.
abbrev pub SameButLog : Sm → Sm → Type 0
SameButLog s t = t ≡ record s {
  logfile = t.logfile;
  last_log_index = t.last_log_index;
  last_log_term = t.last_log_term;
  discarded = t.discarded;
}

-- A follower `t` that took over, from a machine `s`, the log `l` and what a message says, and that
-- answered with `answers`.
pub record Follows (s t : Sm) (l : List Entry) (msg : AppendEntries)
    (answers : List (ReplicaId × Message)) : Type 0 where
  pub log : IsStored t l
  pub role : t.state ≡ follower
  pub knows_leader : t.leader_id ≡ msg.leader_id
  pub vote : t.voted_for ≡ []
  pub term : t.current_term ≡ s.current_term
  pub commit : t.commit_index ≡ (
      if ltb s.commit_index msg.leader_commit
      then min msg.leader_commit (length l)
      else s.commit_index)
  pub applies :
      t.applied
      ≡ s.applied
        ++ (if ltb s.commit_index msg.leader_commit
            then calls l s.last_applied (t.commit_index - s.last_applied)
            else [])
  pub answered : messages t ≡ messages s ++ answers

-- The end of `follow`, from a machine whose log is settled.
module _ (s base : Sm) (l : List Entry) (msg : AppendEntries) (stored : IsStored base l)
    (framed : SameButLog (led s msg.leader_id) base) where
  tail_applies :
      (committed base l msg.leader_commit).applied
      ≡ s.applied
        ++ (if ltb s.commit_index msg.leader_commit
            then calls l s.last_applied
                ((committed base l msg.leader_commit).commit_index - s.last_applied)
            else [])
  tail_applies =
      let commit : base.commit_index ≡ s.commit_index = ap (λ t. t.commit_index) framed in
      let last : base.last_applied ≡ s.last_applied = ap (λ t. t.last_applied) framed in
      let done : base.applied ≡ s.applied = ap (λ t. t.applied) framed in
      ground (arith, append-nil s.applied)

  tail_messages : messages base ≡ messages s
  tail_messages = ap (λ t. messages t) framed ∙ messages-led s msg.leader_id

  pub heartbeat_tail : Follows s (committed base l msg.leader_commit) l msg []
  heartbeat_tail = record {
    log = stored;
    role = ap (λ t. t.state) framed;
    knows_leader = ap (λ t. t.leader_id) framed;
    vote = ap (λ t. t.voted_for) framed;
    term = ap (λ t. t.current_term) framed;
    commit = ap (λ t. (committed t l msg.leader_commit).commit_index) framed;
    applies = tail_applies;
    answered = tail_messages ∙ sym (append-nil (messages s));
  }

  -- The same with an answer.
  pub answering : Bool → ℕ → Sm
  answering success log_index = record (committed base l msg.leader_commit) {
    out = map_out (add_message msg.leader_id (reply s msg success log_index).1) base.out;
  }

  pub answer_tail :
      (o : Output) (success : Bool) (log_index : ℕ)
      → s.out ≡ some o
      → (answer msg.leader_id success log_index (committed base l msg.leader_commit)
          ≡ (ok tt, answering success log_index))
        × Follows s (answering success log_index) l msg (reply s msg success log_index ∷ [])
  unfolding answer send answering add_message add_timer ◌>>=◌
  answer_tail o success log_index given =
      let h : Follows s (committed base l msg.leader_commit) l msg [] = heartbeat_tail in
      let e : base.out ≡ (led s msg.leader_id).out = ap (λ t. t.out) framed in
      let id : base.local_id ≡ s.local_id = ap (λ t. t.local_id) framed in
      let term : base.current_term ≡ s.current_term = ap (λ t. t.current_term) framed in
      (
        ground arith,
        record {
          log = stored;
          role = h.role;
          knows_leader = h.knows_leader;
          vote = h.vote;
          term = h.term;
          commit = h.commit;
          applies = h.applies;
          answered = ground arith;
        },
      )
