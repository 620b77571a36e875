-- ===== src/Raft/Handlers/Appending.antt =====
-- `append_entries_input` of user/libs/raft.cpp, whole.
use rlite.Base.{ℕ, ◌+◌, ◌^◌, ◌≤◌, ◌<◌, ◌≡◌, ap, subst, ◌∙◌, ◌++◌, some, List, length, arith}
use native.Mathlib.Decide.{dec_lt}
use rlite.Raft.Types.{Entry, AppendEntries, Output}
use rlite.Raft.Machine.{messages, Sm, ok, ◌>>=◌, check_output_arg, add_timer}
use rlite.Raft.Storage.Stored.{IsStored}
use rlite.Raft.Storage.Appended.{AllFit}
use rlite.Raft.Election.Demotion.{
  election_timer, stop_heartbeat, caught_up, caught_up-IsStored, catch_up_term_newer,
  catch_up_term_older,
}
use rlite.Raft.Handlers.{append_entries_input}
use rlite.Raft.Handlers.Following.{follow_any, new_log, answers}
use rlite.Raft.Handlers.Takeover.{Follows}

messages-caught_up : (s : Sm) (term : ℕ) → messages (caught_up s term) ≡ messages s
unfolding add_timer
messages-caught_up s term = ground arith

module _ (s : Sm) (l : List Entry) (v : IsStored s l)
    (timeouts : s.election_timeout_min < s.election_timeout_max) (msg : AppendEntries)
    (fits : AllFit s.log_command_size msg.entries)
    (room : msg.prev_log_index + length msg.entries + 1 < 2 ^ 32) (o : Output)
    (given : s.out ≡ some o) where
  at_newer :
      s.current_term < msg.term
      → let s' = record s { current_term = msg.term } in
        (t : Sm) × (append_entries_input msg s ≡ (ok tt, t))
        × Follows s' t (new_log l msg) msg (answers s' l msg)
  unfolding append_entries_input check_output_arg add_timer ◌>>=◌
  at_newer h =
      let s' = caught_up s msg.term in
      let o' = add_timer stop_heartbeat (add_timer (election_timer s) o) in
      let given' : s'.out ≡ some o' = ground arith in
      let (t, (ran, kept)) =
        follow_any s' l (caught_up-IsStored s v timeouts msg.term) timeouts msg fits room o'
          given' in
      (
        t,
        ground (arith, catch_up_term_newer s v timeouts msg.term h, ran),
        record {
          log = kept.log;
          role = kept.role;
          knows_leader = kept.knows_leader;
          vote = kept.vote;
          term = kept.term;
          commit = kept.commit;
          applies = kept.applies;
          answered =
              kept.answered ∙ ap (λ m. m ++ answers s' l msg) (messages-caught_up s msg.term);
        },
      )

  at_same :
      s.current_term ≡ msg.term
      → (t : Sm) × (append_entries_input msg s ≡ (ok tt, t))
        × Follows s t (new_log l msg) msg (answers s l msg)
  unfolding append_entries_input check_output_arg ◌>>=◌
  at_same h =
      let (t, (ran, kept)) = follow_any s l v timeouts msg fits room o given in
      (t, ground (arith, catch_up_term_older s msg.term (omega arith), ran), kept)

  -- Let a replica keep its log in an open file in which every operation works, and hand it a
  -- message of its own or a newer term, whose entries fit the log and the 32-bit indices. Then
  -- `append_entries_input` returns without an error; the replica is a follower in the term of the
  -- message, knows the sender as its leader and has given no vote; if the message has entries and
  -- the log holds the one that they follow, the log is cut behind that one and ends with the
  -- entries of the message, otherwise it is as before; if the leader has committed more, the commit
  -- index is the smaller of the leader's and the log's length, and the entries up to there that
  -- were not applied are, in order; and the message is answered by its outcome, unless it has no
  -- entries.
  pub append_entries_input-current :
      s.current_term ≤ msg.term
      → let s' = record s { current_term = msg.term } in
        (t : Sm) × (append_entries_input msg s ≡ (ok tt, t))
        × Follows s' t (new_log l msg) msg (answers s' l msg)
  append_entries_input-current h = elim (dec_lt s.current_term msg.term) [
    | yes newer ↦ at_newer newer
    | no same ↦
        let e : s.current_term ≡ msg.term = omega arith in
        let whole : s ≡ record s { current_term = msg.term } =
          ap (λ k. record s { current_term = k }) e in
        let (t, ran, kept) = at_same e in
        (t, ran, subst (λ u. Follows u t (new_log l msg) msg (answers u l msg)) whole kept)
  ]
