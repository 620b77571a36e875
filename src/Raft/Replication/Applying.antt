-- ===== src/Raft/Replication/Applying.antt =====
-- `apply_committed_entries` of user/libs/raft.cpp against the list of entries in the log.
use rlite.Base.{
  ℕ, zero, suc, ◌+◌, ◌-◌, ◌≤◌, ◌<◌, ◌≡◌, ap, ◌∙◌, some, List, [], ◌∷◌, ◌++◌, length, take, drop,
  get_elem?, get_elem?-bound, drop-cons, arith, append_assoc, append-nil,
}
use rlite.Raft.Types.{Entry}
use rlite.Raft.Machine.{Sm, ok, Applied, ◌>>=◌}
use rlite.Raft.Storage.Stored.{IsStored, log_entry_get_term_lem, log_entry_get_command_lem}
use rlite.Raft.Replication.{apply_next, apply_rounds, apply_committed_entries, or_failed}

-- The entries of a list with their indices, which follow `n`.
abbrev pub numbered : ℕ → List Entry → List Applied
numbered n [] = []
numbered n (e ∷ es) = record { index = n + 1; entry = e } ∷ numbered (n + 1) es

-- The calls of `apply` for the `count` entries after the first `from`.
abbrev pub calls : List Entry → ℕ → ℕ → List Applied
calls l from count = numbered from (take count (drop from l))

abbrev pub after_apply : Sm → List Entry → ℕ → Sm
after_apply s l count = record s {
  applied = s.applied ++ calls l s.last_applied count;
  last_applied = s.last_applied + count;
}

apply_next_lem :
    (s : Sm) (l : List Entry) (e : Entry)
    → IsStored s l
    → get_elem? l s.last_applied ≡ some e
    → apply_next s ≡ (
      ok tt,
      record s {
        applied = s.applied ++ record { index = s.last_applied + 1; entry = e } ∷ [];
        last_applied = s.last_applied + 1;
      },
    )
unfolding apply_next or_failed ◌>>=◌
apply_next_lem s l e v h = ground (
  arith,
  get_elem?-bound l s.last_applied h,
  log_entry_get_term_lem s v s.last_applied e h,
  log_entry_get_command_lem s v s.last_applied e h,
)

after_apply_step :
    (s : Sm) (l : List Entry) (e : Entry) (n : ℕ)
    → drop s.last_applied l ≡ e ∷ drop (s.last_applied + 1) l
    → after_apply
        (record s {
          applied = s.applied ++ record { index = s.last_applied + 1; entry = e } ∷ [];
          last_applied = s.last_applied + 1;
        })
        l
        n
      ≡ after_apply s l (suc n)
after_apply_step s l e n h = ground (
  arith,
  append_assoc s.applied (record { index = s.last_applied + 1; entry = e } ∷ [])
      (calls l (s.last_applied + 1) n),
)

-- A loop of `n` rounds hands the next `n` entries to `apply`.
pub apply_rounds_lem :
    (n : ℕ) (s : Sm) (l : List Entry)
    → IsStored s l
    → (0 < n → s.last_applied + n ≤ length l)
    → apply_rounds n s ≡ (ok tt, after_apply s l n)
unfolding apply_rounds ◌>>=◌
apply_rounds_lem zero s l v h = ground (arith, append-nil s.applied)
apply_rounds_lem (suc n) s l v h =
    let (e, at, rest) = drop-cons s.last_applied l (omega arith) in
    rw (apply_next_lem s l e v at) (
      apply_rounds_lem n _ l v (λ _. omega arith)
      ∙ ap (λ t. (ok tt, t)) (after_apply_step s l e n rest))

-- While the log file works and holds what is committed, every entry that is committed and not yet
-- applied goes to `apply`, once and in the order of the log, and no other entry does.
pub apply_committed_entries_lem :
    (s : Sm) (l : List Entry)
    → IsStored s l
    → s.commit_index ≤ length l
    → apply_committed_entries s ≡ (ok tt, after_apply s l (s.commit_index - s.last_applied))
unfolding apply_committed_entries ◌>>=◌
apply_committed_entries_lem s l v h = apply_rounds_lem _ s l v (λ pos. omega arith)
