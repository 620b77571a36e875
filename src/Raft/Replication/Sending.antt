-- ===== src/Raft/Replication/Sending.antt =====
-- What a leader of user/libs/raft.cpp puts into AppendEntries messages, against the list of entries
-- that its log stands for.
use rlite.Base.{
  ℕ, zero, suc, ◌+◌, ◌*◌, ◌≡◌, ◌≤◌, ◌<◌, refl, ap, ◌⊎◌, inl, inr, Bool, true, false, some, List, [],
  ◌∷◌, length, take, drop, drop-cons, arith, leb, ◌&&◌, if◌then◌else◌, Bool-cases,
}
use rlite.Raft.Types.{ReplicaId, Entry, Server}
use rlite.Raft.Machine.{Sm, ok, ◌>>=◌, pure}
use rlite.Raft.Storage.{log_entry_size}
use rlite.Raft.Storage.Stored.{IsStored, log_entry_get_term_lem, log_entry_get_command_lem}
use rlite.Raft.Storage.Terms.{term_at, term_at-some, log_entry_get_term_any}
use rlite.Raft.Types.{Message, append_entries, is_empty}
use rlite.Raft.Machine.{map_out, add_message, send}
use rlite.Raft.Replication.{
  or_failed, put_server, set_server, send_chunk, add_entry, get_entries, chunk_fuel,
}

-- The entries of one message: some of the log from place `start` on, up to its end or until they
-- are more than 1000 bytes, of which `bytes` were there before.
pub record IsChunk (s : Sm) (l : List Entry) (start bytes : ℕ) (chunk : List Entry) (next : ℕ)
    : Type 0 where
  pub count : ℕ
  pub taken : chunk ≡ take count (drop start l)
  pub within : start + count ≤ length l
  pub advanced : next ≡ start + 1 + count
  pub full : (start + count ≡ length l) ⊎ (1000 < bytes + count * log_entry_size s)

abbrev Chunked : Sm → List Entry → ℕ → ℕ → ℕ → Type 0
Chunked s l fuel start bytes =
    (chunk : List Entry) × (next : ℕ) × (get_entries fuel (suc start) bytes s
      ≡ (ok (chunk, next), s))
    × IsChunk s l start bytes chunk next

abbrev wants_more : Sm → ℕ → ℕ → Bool
wants_more s start bytes = leb (suc start) s.last_log_index && leb bytes 1000

chunk_end :
    (s : Sm) (l : List Entry) (fuel start bytes : ℕ)
    → IsStored s l
    → start ≤ length l
    → wants_more s start bytes ≡ false
    → Chunked s l (suc fuel) start bytes
unfolding get_entries pure
chunk_end s l fuel start bytes v within stop = (
  [],
  start + 1,
  ground arith,
  record {
    count = 0;
    taken = refl;
    within = omega (arith, within);
    advanced = omega arith;
    full = ground (arith, v.counted);
  },
)

full_step :
    (start count bytes size n : ℕ)
    → (start + 1 + count ≡ n) ⊎ (1000 < bytes + size + count * size)
    → (start + suc count ≡ n) ⊎ (1000 < bytes + suc count * size)
full_step start count bytes size n (inl h) = inl (omega arith)
full_step start count bytes size n (inr h) = inr (omega arith)

chunk_step :
    (s : Sm) (l : List Entry) (fuel start bytes : ℕ)
    → IsStored s l
    → wants_more s start bytes ≡ true
    → Chunked s l fuel (start + 1) (bytes + log_entry_size s)
    → Chunked s l (suc fuel) start bytes
unfolding get_entries add_entry ◌>>=◌
chunk_step s l fuel start bytes v more (chunk, next, ran, is) =
    let (e, at, rest) = drop-cons start l (ground (arith, v.counted)) in
    (
      e ∷ chunk,
      next,
      ground (
        arith,
        log_entry_get_term_lem s v start e at,
        log_entry_get_command_lem s v start e at,
        v.counted,
        v.small,
        ran,
      ),
      record {
        count = suc is.count;
        taken = rw rest (ap (◌∷◌ e) is.taken);
        within = omega (arith, is.within);
        advanced = omega (arith, is.advanced);
        full = full_step start is.count bytes (log_entry_size s) (length l) is.full;
      },
    )

-- 1000 bytes take fewer rounds than the loop's fuel allows for.
pub get_entries_lem :
    (fuel : ℕ) (s : Sm) (l : List Entry) (start bytes : ℕ)
    → IsStored s l
    → start ≤ length l
    → 1004 < bytes + 4 * fuel
    → 0 < fuel
    → Chunked s l fuel start bytes
get_entries_lem zero s l start bytes v within enough some_fuel = elim some_fuel [ ]
get_entries_lem (suc fuel) s l start bytes v within enough some_fuel =
    elim (Bool-cases (wants_more s start bytes)) [
      | inl more ↦ chunk_step s l fuel start bytes v more (
          get_entries_lem fuel s l (start + 1) (bytes + log_entry_size s) v
            (ground (arith, v.counted)) (ground arith) (ground arith))
      | inr stop ↦ chunk_end s l fuel start bytes v within stop
    ]

-- The message to a server and the server's record afterwards.
abbrev pub chunk_message : Sm → ℕ → ℕ → List Entry → Message
chunk_message s prev prev_term chunk = append_entries (record {
  term = s.current_term;
  leader_id = s.local_id;
  leader_commit = s.commit_index;
  prev_log_index = prev;
  prev_log_term = prev_term;
  entries = chunk;
})

abbrev pub sent_server : Sm → Server → List Entry → ℕ → Server
sent_server s srv chunk next = record srv {
  next_index_unacked = next;
  last_ae_time = if is_empty chunk then srv.last_ae_time else s.now;
}

abbrev pub sent : Sm → ReplicaId → Server → Message → Sm
sent s id srv m = record s {
  servers = put_server id srv s.servers;
  out = map_out (add_message id m) s.out;
}

-- One message to a server whose next index is `start + 1`: it names the entry before the chunk and
-- that entry's term.
pub record IsSent (s : Sm) (l : List Entry) (id : ReplicaId) (srv after : Server) (start : ℕ)
    : Type 0 where
  pub prev_term : ℕ
  pub chunk : List Entry
  pub prev_known : term_at l start ≡ some prev_term
  pub is_chunk : IsChunk s l start 0 chunk after.next_index_unacked
  pub ran :
      send_chunk id srv s ≡ (ok after, sent s id after (chunk_message s start prev_term chunk))
  pub same_acks :
      (after.next_index_acked ≡ srv.next_index_acked) × (after.match_index ≡ srv.match_index)

pub send_chunk_lem :
    (s : Sm) (l : List Entry) (id : ReplicaId) (srv : Server) (start : ℕ)
    → IsStored s l
    → start ≤ length l
    → srv.next_index_unacked ≡ start + 1
    → (after : Server) × IsSent s l id srv after start
unfolding send_chunk or_failed set_server send ◌>>=◌
send_chunk_lem s l id srv start v within next =
    let (chunk, after, ran, is) =
      get_entries_lem chunk_fuel s l start 0 v within (omega arith) (omega arith) in
    let (prev_term, known) = term_at-some l start within in
    let srv' = sent_server s srv chunk after in
    (
      srv',
      record {
        prev_term = prev_term;
        chunk = chunk;
        prev_known = known;
        is_chunk = is;
        ran = ground (arith, log_entry_get_term_any s l start v, v.small);
        same_acks = (refl, refl);
      },
    )
