-- ===== src/Raft/Handlers/Replicating.antt =====
-- A message of a leader of user/libs/raft.cpp at a follower: the two ends together.
use rlite.Base.{
  ℕ, zero, suc, ◌+◌, ◌^◌, ◌≡◌, ◌≢◌, ◌≤◌, ◌<◌, refl, ap, sym, subst, ◌∙◌, some, List, [], ◌∷◌, ◌++◌,
  length, take, drop, take-append_take, length-take, length-drop, get_elem?, get_elem?-take_lt,
  none, arith,
}
use rlite.Raft.Types.{ReplicaId, Entry, Server, AppendEntries, Output, append_entries}
use rlite.Raft.Machine.{Sm, ok}
use rlite.Raft.Storage.Stored.{IsStored}
use rlite.Raft.Storage.Appended.{AllFit}
use rlite.Raft.Storage.Terms.{term_at}
use rlite.Raft.Replication.Sending.{IsSent, send_chunk_lem, sent}
use rlite.Raft.Replication.{send_chunk}
use rlite.Raft.Storage.{log_entry_size}
use rlite.Raft.Replication.Streams.{chunk_grows}
use rlite.Raft.Handlers.Following.{new_log}
use rlite.Raft.Handlers.{append_entries_input}
use rlite.Raft.Handlers.Stale.{taken}
use rlite.Raft.Handlers.Appending.{append_entries_input-current}

AllFit-drop : (size n : ℕ) (l : List Entry) → AllFit size l → AllFit size (drop n l)
AllFit-drop size zero l h = h
AllFit-drop size (suc n) [] h = tt
AllFit-drop size (suc n) (e ∷ l) h = AllFit-drop size n l h.1

AllFit-take : (size n : ℕ) (l : List Entry) → AllFit size l → AllFit size (take n l)
AllFit-take size zero l h = tt
AllFit-take size (suc n) [] h = tt
AllFit-take size (suc n) (e ∷ l) h = (h.0, AllFit-take size n l h.1)

-- What a message of `send_chunk` says, whole.
abbrev pub message_of :
    (s : Sm) (l : List Entry) (id : ReplicaId) (srv after : Server) (start : ℕ)
    → IsSent s l id srv after start
    → AppendEntries
message_of s l id srv after start is = record {
  term = s.current_term;
  leader_id = s.local_id;
  leader_commit = s.commit_index;
  prev_log_index = start;
  prev_log_term = is.prev_term;
  entries = is.chunk;
}

module _ (s : Sm) (l : List Entry) (id : ReplicaId) (srv after : Server) (start : ℕ)
    (v : IsStored s l) (is : IsSent s l id srv after start) (fits : AllFit s.log_command_size l)
    (sent_some : is.chunk ≢ []) where
  chunk_replicates :
      (f : Sm) (l' : List Entry) (o : Output)
      → IsStored f l'
      → f.election_timeout_min < f.election_timeout_max
      → f.out ≡ some o
      → f.current_term ≤ s.current_term
      → f.log_command_size ≡ s.log_command_size
      → take start l' ≡ take start l
      → term_at l' start ≡ some is.prev_term
      → (t : Sm) × (append_entries_input (message_of s l id srv after start is) f ≡ (ok tt, t))
        × IsStored t (take (start + is.is_chunk.count) l)
  chunk_replicates f l' o vf timeouts given newer same_size same_start match =
      let msg = message_of s l id srv after start is in
      let c = is.is_chunk in
      let fits' : AllFit f.log_command_size is.chunk =
        subst (λ k. AllFit k is.chunk) (sym same_size)
          (subst (AllFit s.log_command_size) (sym c.taken) (
            AllFit-take s.log_command_size c.count (drop start l)
              (AllFit-drop s.log_command_size start l fits))) in
      let room : start + length is.chunk + 1 < 2 ^ 32 = omega (
        arith,
        ap length c.taken,
        length-take c.count (drop start l),
        length-drop start l,
        c.within,
        v.small,
      ) in
      let (t, ran, after_msg) =
        append_entries_input-current f l' vf timeouts msg fits' room o given newer in
      let log : new_log l' msg ≡ take (start + c.count) l =
        taken l' msg sent_some match
        ∙ ap (λ m. m ++ is.chunk) same_start
        ∙ ap (λ m. take start l ++ m) c.taken
        ∙ take-append_take start c.count l in
      (t, ran, subst (IsStored t) log after_msg.log)

-- Lists that begin with the same `start` entries agree on the term of the last of these.
term_at-take :
    (l l' : List Entry) (start : ℕ)
    → take start l' ≡ take start l
    → term_at l' start ≡ term_at l start
term_at-take l l' zero h = refl
term_at-take l l' (suc i) h =
    let same : get_elem? l' i ≡ get_elem? l i =
      sym (get_elem?-take_lt (suc i) l' i (omega arith))
      ∙ ap (λ m. get_elem? m i) h
      ∙ get_elem?-take_lt (suc i) l i (omega arith) in
    ap (λ e. elim e [ none ↦ none | some x ↦ some x.term ]) same

-- One message of a leader, and the follower that handles it.
pub record Replicates (s f : Sm) (l : List Entry) (id : ReplicaId) (srv : Server) (start : ℕ)
    : Type 0 where
  pub after : Server
  pub msg : AppendEntries
  pub count : ℕ
  pub some_sent : 0 < count
  pub next : after.next_index_unacked ≡ start + count + 1
  pub leader_ran : send_chunk id srv s ≡ (ok after, sent s id after (append_entries msg))
  pub follower : Sm
  pub follower_ran : append_entries_input msg f ≡ (ok tt, follower)
  pub follower_log : IsStored follower (take (start + count) l)

-- A leader `s` with the log `l` sends a message to a server whose next index is `start + 1`, and a
-- follower `f` in no newer term, whose log begins with the leader's first `start` entries, handles
-- it, while both log files work. The message carries one entry at least, and afterwards the
-- follower's log is the leader's as far as the message reaches, and no longer.
pub send_chunk-append_entries_input :
    (s : Sm) (l : List Entry) (id : ReplicaId) (srv : Server) (start : ℕ) (f : Sm) (l' : List Entry)
    (o : Output)
    → IsStored s l
    → AllFit s.log_command_size l
    → start < length l
    → srv.next_index_unacked ≡ start + 1
    → IsStored f l'
    → f.election_timeout_min < f.election_timeout_max
    → f.out ≡ some o
    → f.current_term ≤ s.current_term
    → f.log_command_size ≡ s.log_command_size
    → take start l' ≡ take start l
    → Replicates s f l id srv start
send_chunk-append_entries_input s l id srv start f l' o v fits below next vf timeouts given newer
      same_size same_start =
    let (after, is) = send_chunk_lem s l id srv start v (omega arith) next in
    let c = is.is_chunk in
    let grown : 0 < c.count =
      chunk_grows start c.count (length l) (log_entry_size s) c.full below in
    let nonempty : is.chunk ≢ [] = λ e. absurd (
      omega (
        arith,
        ap length e,
        ap length c.taken,
        length-take c.count (drop start l),
        length-drop start l,
      )) in
    let match = term_at-take l l' start same_start ∙ is.prev_known in
    let (t, ran, stored) =
      chunk_replicates s l id srv after start v is fits nonempty f l' o vf timeouts given newer
        same_size same_start match in
    record {
      after = after;
      msg = message_of s l id srv after start is;
      count = c.count;
      some_sent = grown;
      next = omega (arith, c.advanced);
      leader_ran = is.ran;
      follower = t;
      follower_ran = ran;
      follower_log = stored;
    }
