-- ===== src/Raft/Handlers/Following.antt =====
-- A follower's answer to AppendEntries in user/libs/raft.cpp, from the message to the new state, the
-- log, the calls of `apply` and the answer.
use rlite.Base.{
  ℕ, ◌+◌, ◌^◌, ◌<◌, ◌≡◌, ◌≢◌, refl, ap, sym, ◌∙◌, Bool, true, false, Option, some, none, List, [],
  ◌∷◌, ◌++◌, length, take, if◌then◌else◌, arith, Bool-cases, inl, inr,
}
use rlite.Raft.Types.{Entry, AppendEntries, Message, ReplicaId, Output, is_empty}
use rlite.Raft.Machine.{Sm, ok, ◌>>=◌}
use rlite.Raft.Storage.Stored.{IsStored}
use rlite.Raft.Storage.Appended.{AllFit}
use rlite.Raft.Election.Demotion.{back_to_follower_lem, demoted-IsStored}
use rlite.Raft.Handlers.{follow, same_term}
use rlite.Raft.Storage.Terms.{term_at, term_at_bound}
use rlite.Raft.Handlers.Accepting.{
  replaced, replaced-IsStored, accept_entries_matching, accept_entries_differing,
  appended_all-frame, trimmed,
}
use rlite.Raft.Handlers.Takeover.{
  Follows, SameButLog, answer_tail, answering, committed, follow_commit_lem, heartbeat_tail, led,
  reply,
}

replaced-SameButLog : (s : Sm) (n : ℕ) (es : List Entry) → SameButLog s (replaced s n es)
replaced-SameButLog s n es =
    let frame = appended_all-frame (trimmed s n) es in
    frame
    ∙ ap
        (λ d. record s {
          logfile = (replaced s n es).logfile;
          last_log_index = (replaced s n es).last_log_index;
          last_log_term = (replaced s n es).last_log_term;
          discarded = d;
        })
        (sym (ap (λ t. t.discarded) frame))

same_term-eq : (t : Option ℕ) (term : ℕ) → same_term t term ≡ true → t ≡ some term
same_term-eq none term h = ground arith
same_term-eq (some t) term h = ground arith

same_term-ne : (t : Option ℕ) (term : ℕ) → same_term t term ≡ false → t ≢ some term
same_term-ne t term h e = ground arith

-- Whether a log holds the entry that the entries of a message follow.
abbrev pub agrees : List Entry → AppendEntries → Bool
agrees l msg = same_term (term_at l msg.prev_log_index) msg.prev_log_term

-- The log that a message of the current term leaves.
abbrev pub new_log : List Entry → AppendEntries → List Entry
new_log l msg =
    if is_empty msg.entries
    then l
    else if agrees l msg
    then take msg.prev_log_index l ++ msg.entries
    else l

-- The answer to it. A heartbeat has none.
abbrev pub answers : Sm → List Entry → AppendEntries → List (ReplicaId × Message)
answers s l msg =
    if is_empty msg.entries
    then []
    else if agrees l msg
    then reply s msg true (msg.prev_log_index + length msg.entries) ∷ []
    else reply s msg false msg.prev_log_index ∷ []

module _ (s : Sm) (l : List Entry) (v : IsStored s l)
    (timeouts : s.election_timeout_min < s.election_timeout_max) (msg : AppendEntries)
    (fits : AllFit s.log_command_size msg.entries)
    (room : msg.prev_log_index + length msg.entries + 1 < 2 ^ 32) (o : Output)
    (given : s.out ≡ some o) where
  abbrev pub Outcome : Sm → Type 0
  Outcome t = (follow msg s ≡ (ok tt, t)) × Follows s t (new_log l msg) msg (answers s l msg)

  follow_heartbeat : is_empty msg.entries ≡ true → (t : Sm) × Outcome t
  unfolding follow ◌>>=◌
  follow_heartbeat none_sent =
      let base = led s msg.leader_id in
      let stored : IsStored base l = demoted-IsStored s v timeouts in
      (
        committed base l msg.leader_commit,
        (
          ground (
            arith,
            back_to_follower_lem s v timeouts,
            follow_commit_lem base l msg.leader_commit stored,
          ),
          rw none_sent (heartbeat_tail s base l msg stored refl),
        ),
      )

  follow_agreeing : is_empty msg.entries ≡ false → agrees l msg ≡ true → (t : Sm) × Outcome t
  unfolding follow ◌>>=◌
  follow_agreeing sent agree =
      let start = led s msg.leader_id in
      let ready : IsStored start l = demoted-IsStored s v timeouts in
      let match = same_term-eq (term_at l msg.prev_log_index) msg.prev_log_term agree in
      let base = replaced start msg.prev_log_index msg.entries in
      let l' = take msg.prev_log_index l ++ msg.entries in
      let stored : IsStored base l' =
        replaced-IsStored start l ready msg fits room (term_at_bound l msg.prev_log_index match) in
      let index = msg.prev_log_index + length msg.entries in
      let (ran, kept) =
        answer_tail s base l' msg stored (replaced-SameButLog start msg.prev_log_index msg.entries)
          o true index given in
      (
        answering s base l' msg stored (replaced-SameButLog start msg.prev_log_index msg.entries)
            true index,
        (
          ground (
            arith,
            back_to_follower_lem s v timeouts,
            accept_entries_matching start l ready msg fits room match,
            follow_commit_lem base l' msg.leader_commit stored,
            ran,
          ),
          rw (sent, agree) kept,
        ),
      )

  follow_differing : is_empty msg.entries ≡ false → agrees l msg ≡ false → (t : Sm) × Outcome t
  unfolding follow ◌>>=◌
  follow_differing sent differ =
      let base = led s msg.leader_id in
      let stored : IsStored base l = demoted-IsStored s v timeouts in
      let (ran, kept) = answer_tail s base l msg stored refl o false msg.prev_log_index given in
      (
        answering s base l msg stored refl false msg.prev_log_index,
        (
          ground (
            arith,
            back_to_follower_lem s v timeouts,
            accept_entries_differing base l msg stored
                (same_term-ne (term_at l msg.prev_log_index) msg.prev_log_term differ),
            follow_commit_lem base l msg.leader_commit stored,
            ran,
          ),
          rw (sent, differ) kept,
        ),
      )

  pub follow_any : (t : Sm) × Outcome t
  follow_any = elim (Bool-cases (is_empty msg.entries)) [
    | inl none_sent ↦ follow_heartbeat none_sent
    | inr sent ↦ elim (Bool-cases (agrees l msg)) [
      | inl agree ↦ follow_agreeing sent agree
      | inr differ ↦ follow_differing sent differ
    ]
  ]
