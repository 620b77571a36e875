-- ===== src/Raft/Votes/Ballot.antt =====
-- The parts of user/libs/raft.cpp that touch neither the term nor the vote.
use rlite.Base.{ℕ, zero, suc, ◌+◌, ◌≡◌, refl, ◌∙◌, List, [], ◌∷◌, arith, ltb, Bool-cases, inl, inr}
use rlite.Raft.Types.{add32, ReplicaId, Server, Entry, Message, TimerCmd}
use rlite.Raft.LogFile.{LogFile, Fault, healthy, seek_fails, transfer_fails, flush_fails}
use rlite.Raft.Machine.{
  Sm, M, pure, raise, next_fault, next_rand, send, set_timer, check_output_arg,
}
use rlite.Raft.Storage.{
  set_file, log_buf_write, log_u32_write, write_with, log_disk_flush, log_read, log_u32_read,
  log_buf_read, log_entry_get_term, log_entry_get_command, append_log_entry, log_truncate, cut_log,
  log_open, log_entry_size,
}
use rlite.Raft.Replication.{
  Strategy, or_failed, set_server, add_entry, get_entries, send_chunk, send_chunks, send_log,
  send_logs, prepare_append_entries, apply_next, apply_rounds, apply_committed_entries,
}
use rlite.Raft.Steps.{
  Preorder, Steps, Steps-pure, Steps-raise, Steps-gets, Steps-bind, Steps-read, Steps-if,
  Steps-modify,
}

abbrev pub SameBallot : Sm → Sm → Type 0
SameBallot s t = (t.current_term ≡ s.current_term) × (t.voted_for ≡ s.voted_for)

pub same_ballot : Preorder SameBallot
same_ballot = record { refl_at = λ s. (refl, refl); join = λ s t u h k. (k.0 ∙ h.0, k.1 ∙ h.1) }

pub next_fault-SameBallot : Steps SameBallot next_fault
unfolding next_fault
next_fault-SameBallot = record { at = λ s. ground arith }

pub next_rand-SameBallot : Steps SameBallot next_rand
unfolding next_rand
next_rand-SameBallot = record { at = λ s. ground arith }

pub check_output_arg-SameBallot : Steps SameBallot check_output_arg
unfolding check_output_arg
check_output_arg-SameBallot = record { at = λ s. ground arith }

pub set_file-SameBallot : (f : LogFile) → Steps SameBallot (set_file f)
set_file-SameBallot f = Steps-modify _ (λ s. (refl, refl))

pub send-SameBallot : (to : ReplicaId) (m : Message) → Steps SameBallot (send to m)
unfolding send
send-SameBallot to m = Steps-modify _ (λ s. (refl, refl))

pub set_timer-SameBallot : (c : TimerCmd) → Steps SameBallot (set_timer c)
unfolding set_timer
set_timer-SameBallot c = Steps-modify _ (λ s. (refl, refl))

pub set_server-SameBallot : (id : ReplicaId) (v : Server) → Steps SameBallot (set_server id v)
unfolding set_server
set_server-SameBallot id v = Steps-modify _ (λ s. (refl, refl))

pub ruleset ballot_steps = (
  same_ballot, Steps-pure, Steps-raise, Steps-gets, Steps-bind, Steps-if, Steps-modify,
  next_fault-SameBallot, next_rand-SameBallot, set_file-SameBallot, send-SameBallot,
  set_timer-SameBallot, set_server-SameBallot,
)

log_disk_flush-SameBallot : (f : Fault) → Steps SameBallot (log_disk_flush f)
unfolding log_disk_flush
log_disk_flush-SameBallot healthy = search ballot_steps
log_disk_flush-SameBallot _ = search ballot_steps

write_with-SameBallot :
    (f : Fault) (pos : ℕ) (buf : List ℕ) (g : LogFile) → Steps SameBallot (write_with f pos buf g)
unfolding write_with
write_with-SameBallot seek_fails pos buf g = search ballot_steps
write_with-SameBallot (transfer_fails k) pos buf g = search ballot_steps
write_with-SameBallot (flush_fails k) pos buf g = search (ballot_steps, log_disk_flush-SameBallot)
write_with-SameBallot _ pos buf g = search (ballot_steps, log_disk_flush-SameBallot)

pub log_buf_write-SameBallot : (pos : ℕ) (buf : List ℕ) → Steps SameBallot (log_buf_write pos buf)
unfolding log_buf_write
log_buf_write-SameBallot pos buf = search (ballot_steps, write_with-SameBallot)

pub log_u32_write-SameBallot : (pos val : ℕ) → Steps SameBallot (log_u32_write pos val)
unfolding log_u32_write
log_u32_write-SameBallot pos val = log_buf_write-SameBallot pos _

log_read-SameBallot :
    {A : Type 0} (pos len : ℕ) (value : LogFile → A) → Steps SameBallot (log_read pos len value)
unfolding log_read
log_read-SameBallot pos len value = search ballot_steps depth 8

pub log_entry_get_term-SameBallot : (i : ℕ) → Steps SameBallot (log_entry_get_term i)
unfolding log_entry_get_term log_u32_read
log_entry_get_term-SameBallot i = search (ballot_steps, log_read-SameBallot)

log_entry_get_command-SameBallot : (i : ℕ) → Steps SameBallot (log_entry_get_command i)
unfolding log_entry_get_command log_buf_read
log_entry_get_command-SameBallot i = search (ballot_steps, log_read-SameBallot)

or_failed-Steps : {A : Type 0} (m : M A) → Steps SameBallot m → Steps SameBallot (or_failed m)
unfolding or_failed
or_failed-Steps m h = record { at = λ s. ground (arith, h.at s) }

pub append_log_entry-SameBallot : (e : Entry) → Steps SameBallot (append_log_entry e)
unfolding append_log_entry
append_log_entry-SameBallot e =
    search (ballot_steps, log_u32_write-SameBallot, log_buf_write-SameBallot) depth 9

add_entry-SameBallot :
    (i : ℕ) (rest : M (List Entry × ℕ))
    → Steps SameBallot rest
    → Steps SameBallot (add_entry i rest)
unfolding add_entry
add_entry-SameBallot i rest h =
    search (ballot_steps, log_entry_get_term-SameBallot, log_entry_get_command-SameBallot) depth 12

get_entries-SameBallot : (n i bytes : ℕ) → Steps SameBallot (get_entries n i bytes)
unfolding get_entries raise pure
get_entries-SameBallot zero i bytes = record { at = λ s. (refl, refl) }
get_entries-SameBallot (suc n) i bytes = record {
  at = λ s.
      let rest = get_entries n (add32 i 1) (bytes + log_entry_size s) in
      ground (arith, (add_entry-SameBallot i rest (get_entries-SameBallot n _ _)).at s);
}

send_chunk-SameBallot : (id : ReplicaId) (v : Server) → Steps SameBallot (send_chunk id v)
unfolding send_chunk
send_chunk-SameBallot id v =
    search (ballot_steps, or_failed-Steps, log_entry_get_term-SameBallot, get_entries-SameBallot)
      depth 12

apply_next-SameBallot : Steps SameBallot apply_next
unfolding apply_next
apply_next-SameBallot =
    search
      (
        ballot_steps, or_failed-Steps, log_entry_get_term-SameBallot,
        log_entry_get_command-SameBallot,
      )
      depth 12

send_chunks-SameBallot :
    (n : ℕ) (id : ReplicaId) (v : Server) → Steps SameBallot (send_chunks n id v)
unfolding send_chunks pure
send_chunks-SameBallot zero id v = search ballot_steps
send_chunks-SameBallot (suc n) id v = Steps-bind same_ballot _ _ (send_chunk-SameBallot id v) (λ w.
    Steps-read _ (λ s. elim (Bool-cases (ltb w.next_index_unacked s.last_log_index)) [
      | inl more ↦ rw more ((send_chunks-SameBallot n id w).at s)
      | inr done ↦ rw done (refl, refl)
    ]))

send_log-SameBallot :
    (st : Strategy) (id : ReplicaId) (v : Server) → Steps SameBallot (send_log st id v)
unfolding send_log
send_log-SameBallot st id v = search (ballot_steps, send_chunks-SameBallot) depth 8

send_logs-SameBallot :
    (st : Strategy) (servers : List (ReplicaId × Server)) → Steps SameBallot (send_logs st servers)
unfolding send_logs
send_logs-SameBallot st [] = search ballot_steps
send_logs-SameBallot st ((id, v) ∷ rest) =
    Steps-bind same_ballot _ _ (send_log-SameBallot st id v) (λ _. send_logs-SameBallot st rest)

pub prepare_append_entries-SameBallot :
    (st : Strategy) → Steps SameBallot (prepare_append_entries st)
unfolding prepare_append_entries
prepare_append_entries-SameBallot st = search (ballot_steps, send_logs-SameBallot) depth 8

apply_rounds-SameBallot : (n : ℕ) → Steps SameBallot (apply_rounds n)
unfolding apply_rounds
apply_rounds-SameBallot zero = search ballot_steps
apply_rounds-SameBallot (suc n) =
    Steps-bind same_ballot _ _ apply_next-SameBallot (λ _. apply_rounds-SameBallot n)

pub apply_committed_entries-SameBallot : Steps SameBallot apply_committed_entries
unfolding apply_committed_entries
apply_committed_entries-SameBallot = search (ballot_steps, apply_rounds-SameBallot) depth 8

cut_log-SameBallot : (n : ℕ) → Steps SameBallot (cut_log n)
unfolding cut_log log_open
cut_log-SameBallot n = search ballot_steps depth 14

pub log_truncate-SameBallot : (n : ℕ) → Steps SameBallot (log_truncate n)
unfolding log_truncate
log_truncate-SameBallot n = search (ballot_steps, cut_log-SameBallot) depth 14
