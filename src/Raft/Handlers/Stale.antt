-- ===== src/Raft/Handlers/Stale.antt =====
-- AppendEntries messages of user/libs/raft.cpp that reach less far than what is committed: delayed or
-- sent again.
use rlite.Base.{
  ◌+◌, ◌^◌, ◌≡◌, ◌≢◌, ◌≤◌, ◌<◌, ap, subst, ltb, if◌then◌else◌, ◌++◌, some, List, [], length, take,
  arith,
}
use rlite.Raft.Types.{Entry, AppendEntries, Output}
use rlite.Raft.Machine.{Sm, ok}
use rlite.Raft.Storage.Stored.{IsStored}
use rlite.Raft.Storage.Appended.{AllFit}
use rlite.Raft.Handlers.{append_entries_input}
use rlite.Raft.Storage.Terms.{term_at, term_at_bound}
use rlite.Raft.Handlers.Accepting.{length-after}
use rlite.Raft.Handlers.Following.{new_log}
use rlite.Raft.Handlers.Appending.{append_entries_input-current}

pub taken :
    (l : List Entry) (msg : AppendEntries)
    → msg.entries ≢ []
    → term_at l msg.prev_log_index ≡ some msg.prev_log_term
    → new_log l msg ≡ take msg.prev_log_index l ++ msg.entries
taken l msg sent match = ground arith

-- While the log file works, a message of a current term with entries that follow one of the log's,
-- but end before the last committed entry, makes the log end where they do: committed entries are
-- lost. If the commit index of the leader is higher than the replica's, the replica's goes back to
-- there; if not, it stays, beyond the end of the log.
pub stale_entries_uncommit :
    (s : Sm) (l : List Entry) (v : IsStored s l)
    (timeouts : s.election_timeout_min < s.election_timeout_max) (msg : AppendEntries)
    (fits : AllFit s.log_command_size msg.entries)
    (room : msg.prev_log_index + length msg.entries + 1 < 2 ^ 32) (o : Output)
    (given : s.out ≡ some o)
    → s.current_term ≤ msg.term
    → msg.entries ≢ []
    → term_at l msg.prev_log_index ≡ some msg.prev_log_term
    → msg.prev_log_index + length msg.entries < s.commit_index
    → (t : Sm) × (append_entries_input msg s ≡ (ok tt, t))
      × IsStored t (take msg.prev_log_index l ++ msg.entries)
      × (t.last_log_index ≡ msg.prev_log_index + length msg.entries)
      × (t.last_log_index < s.commit_index)
      × (t.commit_index
          ≡ (if ltb s.commit_index msg.leader_commit then t.last_log_index else s.commit_index))
stale_entries_uncommit s l v timeouts msg fits room o given newer sent match short =
    let (t, ran, after) = append_entries_input-current s l v timeouts msg fits room o given newer in
    let len =
      length-after l msg.entries msg.prev_log_index (term_at_bound l msg.prev_log_index match) in
    let log = taken l msg sent match in
    let ends : t.last_log_index ≡ msg.prev_log_index + length msg.entries =
      omega (arith, after.log.counted, ap length log) in
    let whole = ap length log in
    (
      t,
      ran,
      subst (IsStored t) log after.log,
      ends,
      omega (arith, ends),
      ground (arith, after.commit, whole, len, ends),
    )
