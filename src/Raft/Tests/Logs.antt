-- ===== src/Raft/Tests/Logs.antt =====
-- The log of user/libs/raft.cpp at concrete inputs.
use rlite.Base.{◌≡◌, refl, ◌<◌, [], ◌∷◌, arith, ltb, if◌then◌else◌}
use rlite.Raft.Types.{AppendEntries}
use rlite.Raft.Machine.{Sm, ok}
use rlite.Raft.Storage.{append_log_entry, log_truncate}
use rlite.Raft.Storage.Stored.{IsStored}
use rlite.Raft.Storage.Appended.{Holds, append_log_entry-Holds}
use rlite.Raft.Storage.Cut.{log_truncate-IsStored}
use rlite.Raft.Handlers.{append_entries_input}
use rlite.Raft.Handlers.Takeover.{Follows}
use rlite.Raft.Handlers.Following.{new_log, answers}
use rlite.Raft.Handlers.Appending.{append_entries_input-current}
use rlite.Raft.Handlers.Stale.{stale_entries_uncommit}
use rlite.Raft.Replication.{apply_committed_entries}
use rlite.Raft.Replication.Applying.{after_apply, apply_committed_entries_lem}
use rlite.Raft.Tests.Machines.{
  b, no_output, first, second, third, first-Fits, second-Fits, third-Fits, with_one,
  with_one-IsStored, with_two, with_two-IsStored,
}

append_log_entry-Holds_example :
    (t : Sm) × (append_log_entry second with_one ≡ (ok tt, t)) × Holds t (first ∷ second ∷ [])
append_log_entry-Holds_example =
    append_log_entry-Holds with_one (first ∷ []) second with_one-IsStored second-Fits (omega arith)

log_truncate-IsStored_example :
    (t : Sm) × (log_truncate 1 with_two ≡ (ok tt, t)) × IsStored t (first ∷ [])
log_truncate-IsStored_example =
    log_truncate-IsStored with_two (first ∷ second ∷ []) 1 with_two-IsStored (omega arith)

-- The third entry in place of the second.
abbrev overwrite : AppendEntries
overwrite = record {
  term = 3;
  leader_id = b;
  leader_commit = 1;
  prev_log_index = 1;
  prev_log_term = 1;
  entries = third ∷ [];
}

append_entries_input-current_example :
    let s' = record with_two { current_term = 3 } in
    (t : Sm) × (append_entries_input overwrite with_two ≡ (ok tt, t))
    × Follows s' t
        (new_log (first ∷ second ∷ []) overwrite)
        overwrite
        (answers s' (first ∷ second ∷ []) overwrite)
append_entries_input-current_example =
    append_entries_input-current with_two (first ∷ second ∷ []) with_two-IsStored (omega arith)
      overwrite (third-Fits, tt) (omega arith) no_output refl (omega arith)

overwrite-replaces : new_log (first ∷ second ∷ []) overwrite ≡ first ∷ third ∷ []
overwrite-replaces = refl

-- The first entry once more, after both were committed.
abbrev again : AppendEntries
again = record {
  term = 2;
  leader_id = b;
  leader_commit = 3;
  prev_log_index = 0;
  prev_log_term = 0;
  entries = first ∷ [];
}

abbrev both_committed : Sm
both_committed = record with_two { commit_index = 2; last_applied = 2 }

stale_entries_uncommit_example :
    (t : Sm) × (append_entries_input again both_committed ≡ (ok tt, t))
    × IsStored t (first ∷ [])
    × (t.last_log_index ≡ 1)
    × (t.last_log_index < 2)
    × (t.commit_index ≡ (if ltb 2 3 then t.last_log_index else 2))
stale_entries_uncommit_example =
    stale_entries_uncommit both_committed (first ∷ second ∷ []) with_two-IsStored (omega arith)
      again (first-Fits, tt) (omega arith) no_output refl (omega arith) (λ e. cc) refl (omega arith)

abbrev one_committed : Sm
one_committed = record with_two { commit_index = 2; last_applied = 1 }

apply_committed_entries_lem_example :
    apply_committed_entries one_committed
    ≡ (ok tt, after_apply one_committed (first ∷ second ∷ []) 1)
apply_committed_entries_lem_example =
    apply_committed_entries_lem one_committed (first ∷ second ∷ []) with_two-IsStored (omega arith)
