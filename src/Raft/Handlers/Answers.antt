-- ===== src/Raft/Handlers/Answers.antt =====
-- What an answer from another replica does to the commit index of a leader of user/libs/raft.cpp.
use rlite.Base.{
  ℕ, ◌+◌, ◌-◌, ◌≡◌, ◌≢◌, ◌≤◌, ◌<◌, ◌⊎◌, inl, inr, refl, ap, some, List, arith, if◌then◌else◌,
  Bool-cases, Option-cases, ◌==◌,
}
use rlite.Raft.Types.{Server}
use rlite.Raft.Machine.{Sm, ok, ◌>>=◌, check_output_arg}
use rlite.Raft.Storage.Stored.{IsStored}
use rlite.Raft.Replication.Applying.{after_apply, apply_committed_entries_lem}
use rlite.Raft.Storage.Terms.{term_at, log_entry_get_term_any, term_at_bound}
use rlite.Raft.Types.{Entry, AppendEntriesResp, Output}
use rlite.Raft.Election.Demotion.{catch_up_term_older}
use rlite.Raft.Replication.{set_server, put_server}
use rlite.Raft.Acks.{
  advance_commit, update_commit, append_entries_resp_input, note_answer, find_server, acked,
  backed_off,
}
use rlite.Raft.Handlers.Committing.{HasQuorum, advance_commit-IsNext}

-- The next commit index of a leader.
abbrev pub candidate_index : Sm → ℕ
candidate_index s = advance_commit (s.last_log_index + 2 - s.commit_index) s.commit_index s

abbrev pub commits_to : Sm → List Entry → ℕ → Sm
commits_to s l n = after_apply (record s { commit_index = n }) l (n - s.last_applied)

module _ (s : Sm) (l : List Entry) (v : IsStored s l) where
  update_commit_cases :
      ((update_commit s).1 ≡ s)
      ⊎ ((term_at l (candidate_index s) ≡ some s.current_term)
          × (candidate_index s ≢ s.commit_index)
          × (update_commit s ≡ (ok tt, commits_to s l (candidate_index s))))
  unfolding update_commit ◌>>=◌
  update_commit_cases = elim (Option-cases (term_at l (candidate_index s))) [
    | inl e ↦ inl (ground (arith, log_entry_get_term_any s l (candidate_index s) v))
    | inr (t, e) ↦
        let read = log_entry_get_term_any s l (candidate_index s) v in
        elim (Bool-cases (candidate_index s == s.commit_index)) [
          | inl stays ↦ inl (ground arith)
          | inr moves ↦ elim (Bool-cases (t == s.current_term)) [
            | inl ours ↦ inr (
              ground arith,
              ground arith,
              ground (
                arith,
                apply_committed_entries_lem (record s { commit_index = candidate_index s }) l v
                    (term_at_bound l (candidate_index s) e),
              ),
            )
            | inr theirs ↦ inl (ground arith)
          ]
        ]
  ]

-- What a leader `s` with the log `l` may have become: its commit index stays, or moves forward to an
-- entry of its own term, and all entries up to there have a quorum.
abbrev pub CommitsOwn : Sm → List Entry → Sm → Type 0
CommitsOwn s l t =
    (t.commit_index ≡ s.commit_index)
    ⊎ ((s.commit_index < t.commit_index)
        × (term_at l t.commit_index ≡ some s.current_term)
        × ((i : ℕ) → s.commit_index < i → i ≤ t.commit_index → HasQuorum t i))

update_commit-CommitsOwn :
    (s : Sm) (l : List Entry) → IsStored s l → CommitsOwn s l (update_commit s).1
update_commit-CommitsOwn s l v = elim (update_commit_cases s l v) [
  | inl same ↦ inl (ap (λ t. t.commit_index) same)
  | inr (own, moved, ran) ↦
      let next = candidate_index s in
      let far =
        advance_commit-IsNext (s.last_log_index + 2 - s.commit_index) s.commit_index s
          (omega (arith, v.counted, v.small)) (omega arith) in
      rw ran (inr (omega (arith, far.forward), own, far.held))
]

-- The replica that answered, as the leader notes it.
abbrev pub noted : AppendEntriesResp → Server → Sm → Sm
noted resp srv s = record s {
  servers =
      put_server resp.follower_id
        (if resp.success then acked resp.log_index srv else backed_off resp.log_index srv)
        s.servers;
}

answer_step :
    (s : Sm) (resp : AppendEntriesResp) (o : Output) (srv : Server)
    → s.out ≡ some o
    → resp.term ≡ s.current_term
    → find_server resp.follower_id s.servers ≡ some srv
    → (append_entries_resp_input resp s).1
      ≡ (if resp.success then (update_commit (noted resp srv s)).1 else noted resp srv s)
unfolding append_entries_resp_input check_output_arg note_answer set_server ◌>>=◌
answer_step s resp o srv given same found =
    ground (arith, catch_up_term_older s resp.term (omega arith))

-- While the log file works, an answer of a known replica in the leader's term leaves the commit
-- index, or moves it forward to an entry of the leader's own term, such that every entry from the
-- old index up to the new one is held by a quorum.
pub answer-CommitsOwn :
    (s : Sm) (l : List Entry) (resp : AppendEntriesResp) (o : Output) (srv : Server)
    → IsStored s l
    → s.out ≡ some o
    → resp.term ≡ s.current_term
    → find_server resp.follower_id s.servers ≡ some srv
    → CommitsOwn s l (append_entries_resp_input resp s).1
answer-CommitsOwn s l resp o srv v given same found =
    rw (answer_step s resp o srv given same found) (elim (Bool-cases resp.success) [
      | inl success ↦ rw success (
          update_commit-CommitsOwn
            (record s {
              servers = put_server resp.follower_id (acked resp.log_index srv) s.servers;
            })
            l v)
      | inr failure ↦ rw failure (inl refl)
    ])
