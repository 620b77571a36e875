-- ===== src/Raft/Replication/Streams.antt =====
-- The do-while loop of `prepare_append_entries` in user/libs/raft.cpp: the messages that one server
-- is sent, and that they come to an end.
use rlite.Base.{
  ℕ, zero, suc, ◌+◌, ◌*◌, ◌≡◌, ◌≤◌, ◌<◌, refl, ap, sym, subst, ◌∙◌, ◌⊎◌, inl, inr, true, false,
  some, List, [], ◌∷◌, ◌++◌, length, take, drop, append_assoc, arith, ltb, Bool-cases,
}
use rlite.Raft.Types.{ReplicaId, Entry, Server, Message, Output}
use rlite.Raft.Machine.{Sm, Result, ok, ◌>>=◌, messages, add_message}
use rlite.Raft.Storage.{log_entry_size}
use rlite.Raft.Storage.Stored.{IsStored}
use rlite.Raft.Storage.Terms.{term_at}
use rlite.Raft.Replication.{send_chunks}
use rlite.Raft.Replication.Sending.{chunk_message, IsSent, sent, send_chunk_lem}

-- Messages to `id`, written by `message`, that carry the entries of `l` from place `start` to `stop`:
-- each names the index and the term of the entry that stands before its own entries.
pub data Stream (message : ℕ → ℕ → List Entry → Message) (l : List Entry) (id : ReplicaId)
    : ℕ → List (ReplicaId × Message) → ℕ → Type 0 where
  done : {start : ℕ} → Stream message l id start [] start
  more :
      {start stop : ℕ} {rest : List (ReplicaId × Message)} (prev_term count : ℕ)
      → term_at l start ≡ some prev_term
      → start + count ≤ length l
      → Stream message l id (start + count) rest stop
      → Stream message l id start
          ((id, message start prev_term (take count (drop start l))) ∷ rest)
          stop

-- What the loop does for a server whose next index is `start + 1`: it ends, it changes the output and
-- the server's record only, and its messages reach to the last entry or the one before it.
pub record Streams (s : Sm) (l : List Entry) (id : ReplicaId) (start : ℕ)
    (run : Result (Unit {0}) × Sm) : Type 0 where
  pub final : Sm
  pub ended : run ≡ (ok tt, final)
  pub frame : final ≡ record s { servers = final.servers; out = final.out }
  pub output : (o : Output) × (final.out ≡ some o)
  pub sent_messages : List (ReplicaId × Message)
  pub messages_sent : messages final ≡ messages s ++ sent_messages
  pub stop : ℕ
  pub stream : Stream (chunk_message s) l id start sent_messages stop
  pub reached : length l ≤ stop + 1

pub chunk_grows :
    (start count n size : ℕ)
    → (start + count ≡ n) ⊎ (1000 < 0 + count * size)
    → start < n
    → 0 < count
chunk_grows start zero n size (inl h) lt = omega arith
chunk_grows start zero n size (inr h) lt = omega arith
chunk_grows start (suc count) n size h lt = omega arith

sent-output :
    (s : Sm) (id : ReplicaId) (srv : Server) (m : Message) (o : Output)
    → s.out ≡ some o
    → let t = sent s id srv m in
      (t.out ≡ some (add_message id m o)) × (messages t ≡ messages s ++ (id, m) ∷ [])
unfolding add_message
sent-output s id srv m o h = (ground arith, ground arith)

-- One round of the loop, and what follows it.
module _ (s : Sm) (l : List Entry) (id : ReplicaId) (srv after : Server) (start : ℕ) (fuel : ℕ)
    (v : IsStored s l) (is : IsSent s l id srv after start) (o : Output)
    (given : s.out ≡ some o) where
  abbrev round_message : Message
  round_message = chunk_message s start is.prev_term is.chunk

  abbrev round_end : Sm
  round_end = sent s id after round_message

  longer-Stream :
      {rest : List (ReplicaId × Message)} {stop : ℕ}
      → Stream (chunk_message s) l id (start + is.is_chunk.count) rest stop
      → Stream (chunk_message s) l id start ((id, round_message) ∷ rest) stop
  longer-Stream {rest} {stop} more_stream =
      subst
        (λ c.
          Stream (chunk_message s) l id start ((id, chunk_message s start is.prev_term c) ∷ rest)
            stop)
        (sym is.is_chunk.taken)
        (more is.prev_term is.is_chunk.count is.prev_known is.is_chunk.within more_stream)

  last_round :
      ltb after.next_index_unacked s.last_log_index ≡ false
      → Streams s l id start (send_chunks (suc fuel) id srv s)
  unfolding send_chunks ◌>>=◌
  last_round stops =
      let (out, said) = sent-output s id after round_message o given in
      record {
        final = round_end;
        ended = ground (arith, is.ran);
        frame = refl;
        output = (add_message id round_message o, out);
        sent_messages = (id, round_message) ∷ [];
        messages_sent = said;
        stop = start + is.is_chunk.count;
        stream = longer-Stream done;
        reached = ground (arith, is.is_chunk.advanced, v.counted);
      }

  next_round :
      ltb after.next_index_unacked s.last_log_index ≡ true
      → Streams round_end l id (start + is.is_chunk.count) (send_chunks fuel id after round_end)
      → Streams s l id start (send_chunks (suc fuel) id srv s)
  unfolding send_chunks ◌>>=◌
  next_round goes_on rest =
      let (out, said) = sent-output s id after round_message o given in
      record {
        final = rest.final;
        ended = ground (arith, is.ran, rest.ended);
        frame = rest.frame;
        output = rest.output;
        sent_messages = (id, round_message) ∷ rest.sent_messages;
        messages_sent =
            rest.messages_sent
            ∙ ap (λ ms. ms ++ rest.sent_messages) said
            ∙ append_assoc (messages s) ((id, round_message) ∷ []) rest.sent_messages;
        stop = rest.stop;
        stream = longer-Stream rest.stream;
        reached = rest.reached;
      }

-- While the log file works, the loop that sends the log to one server from the next index `start +
-- 1` on ends without an error if it has fuel for one round more than there are entries left. It
-- changes only the output and the servers' records; its messages carry on from one another, each
-- with the term of the entry before its own, and leave out the last entry at most.
pub send_chunks_lem :
    (fuel : ℕ) (s : Sm) (l : List Entry) (id : ReplicaId) (srv : Server) (start : ℕ) (o : Output)
    → IsStored s l
    → start ≤ length l
    → srv.next_index_unacked ≡ start + 1
    → length l < start + fuel
    → s.out ≡ some o
    → Streams s l id start (send_chunks fuel id srv s)
send_chunks_lem zero s l id srv start o v within next enough given = absurd (omega arith)
send_chunks_lem (suc fuel) s l id srv start o v within next enough given =
    let (after, is) = send_chunk_lem s l id srv start v within next in
    let (out, said) =
      sent-output s id after (chunk_message s start is.prev_term is.chunk) o given in
    elim (Bool-cases (ltb after.next_index_unacked s.last_log_index)) [
      | inl goes_on ↦
          let below : start + 1 + is.is_chunk.count < length l =
            ground (arith, is.is_chunk.advanced, v.counted) in
          let grown =
            chunk_grows start is.is_chunk.count (length l) (log_entry_size s) is.is_chunk.full
              (omega arith) in
          next_round s l id srv after start fuel v is o given goes_on (
            send_chunks_lem fuel (round_end s l id srv after start fuel v is o given) l id after
              (start + is.is_chunk.count)
              (add_message id (chunk_message s start is.prev_term is.chunk) o) v (omega arith)
              (omega (arith, is.is_chunk.advanced)) (omega arith) out)
      | inr stops ↦ last_round s l id srv after start fuel v is o given stops
    ]
