-- ===== src/Raft/Boot/Recovery.antt =====
-- What a replica of user/libs/raft.cpp finds again when it boots from the log of an earlier run.
use native.Mathlib.Nat.{mul-mod_left, mul-div_cancel, mod-lt}
use rlite.Base.{
  ℕ, suc, ◌+◌, ◌-◌, ◌*◌, ◌/◌, ◌%◌, ◌≡◌, ◌≤◌, ◌<◌, refl, ap, ◌∙◌, true, false, some, List, [], ◌∷◌,
  ◌++◌, length, take, replicate, ◌⊎◌, take_all, arith,
}
use rlite.Raft.Types.{ReplicaId, Entry, Output, election, restart, follower, same_id_refl}
use rlite.Raft.LogFile.{
  LogFile, u32_at, get_bytes, k_log_magic_number, k_log_current_term_ofs, k_log_voted_for_ofs,
  k_log_voted_for_size,
}
use rlite.Raft.Machine.{Sm, ok, add_timer, ◌>>=◌, check_output_arg, next_fault}
use rlite.Raft.Types.{u32_mod}
use rlite.Raft.LogFile.{k_log_entries_ofs}
use rlite.Raft.Storage.{log_entry_size, log_open, magic_check, log_u32_read, log_buf_read, log_read}
use rlite.Raft.Storage.Stored.{LogHolds, IsStored}
use rlite.Raft.Election.{c_str, id_buf}
use rlite.Raft.Election.Demotion.{election_timer, timer_restarted, restart_election_timer_lem}
use rlite.Raft.Handlers.{fresh_server}
use rlite.Raft.Boot.{
  bad_size, reset, recover, buf_is_null_terminated, voted_for_is_valid, is_peer, add_peers, init,
}

-- An identifier that the header can hold: no zero byte, and room for the byte that ends it.
abbrev pub IsText : ReplicaId → Type 0
IsText [] = Unit {0}
IsText (c ∷ cs) = (0 < c) × IsText cs

-- A header with the term and the vote of `s`.
pub record HeaderHolds (f : LogFile) (term : ℕ) (vote : ReplicaId) : Type 0 where
  pub magic : u32_at f.bytes 0 ≡ k_log_magic_number
  pub term_holds : u32_at f.bytes k_log_current_term_ofs ≡ term
  pub vote_holds : get_bytes f.bytes k_log_voted_for_ofs k_log_voted_for_size ≡ id_buf vote
  pub vote_text : IsText vote
  pub vote_short : length vote < k_log_voted_for_size

-- A vote that a replica may have given: none, for itself, or for a peer.
abbrev pub IsKnown : ReplicaId → ReplicaId → List ReplicaId → Type 0
IsKnown vote local_id peers = (vote ≡ []) ⊎ ((vote ≡ local_id) ⊎ (is_peer vote peers ≡ true))

c_str-text : (id : ReplicaId) → IsText id → c_str id ≡ id
unfolding c_str
c_str-text [] h = refl
c_str-text (c ∷ cs) h = ground (arith, c_str-text cs h.1)

c_str-zeros : (id zeros : List ℕ) → IsText id → c_str (id ++ 0 ∷ zeros) ≡ id
unfolding c_str
c_str-zeros [] zeros h = refl
c_str-zeros (c ∷ cs) zeros h = ground (arith, c_str-zeros cs zeros h.1)

id_buf_lem :
    (id : ReplicaId)
    → IsText id
    → length id < 120
    → id_buf id ≡ id ++ 0 ∷ replicate (119 - length id) 0
unfolding id_buf
id_buf_lem id text short =
    let whole : take 119 (c_str id) ≡ id =
      ap (take 119) (c_str-text id text) ∙ take_all 119 id (omega arith) in
    let room : 120 - length id ≡ suc (119 - length id) = omega arith in rw (whole, room)

-- The buffer on disk gives a replica's identifier back, if it has no zero byte and fewer than 120
-- bytes.
pub c_str-id_buf : (id : ReplicaId) → IsText id → length id < 120 → c_str (id_buf id) ≡ id
c_str-id_buf id text short =
    ap c_str (id_buf_lem id text short) ∙ c_str-zeros id (replicate (119 - length id) 0) text

terminated_by_zero : (xs zs : List ℕ) → buf_is_null_terminated (xs ++ 0 ∷ zs) ≡ true
unfolding buf_is_null_terminated
terminated_by_zero [] zs = refl
terminated_by_zero (x ∷ xs) zs = ground (arith, terminated_by_zero xs zs)

null_terminated-id_buf :
    (id : ReplicaId) → IsText id → length id < 120 → buf_is_null_terminated (id_buf id) ≡ true
null_terminated-id_buf id text short =
    ap buf_is_null_terminated (id_buf_lem id text short)
    ∙ terminated_by_zero id (replicate (119 - length id) 0)

-- The members that are read back; all others are the defaults.
abbrev pub reloaded : Sm → ℕ → ReplicaId → ℕ → Sm
reloaded m term vote count = record (reset m) {
  current_term = term;
  voted_for = vote;
  last_log_index = count;
}

-- Reads from an open file, inside it.
module _ (s : Sm) (pos : ℕ) (open_file : s.logfile.bad ≡ false) (no_faults : s.faults ≡ []) where
  log_u32_read_lem :
      pos + 4 ≤ s.logfile.size → log_u32_read pos s ≡ (ok (u32_at s.logfile.bytes pos), s)
  unfolding log_u32_read log_read next_fault ◌>>=◌
  log_u32_read_lem h = ground arith

log_buf_read_lem :
    (s : Sm) (pos len : ℕ)
    → s.logfile.bad ≡ false
    → s.faults ≡ []
    → pos + len ≤ s.logfile.size
    → log_buf_read pos len s ≡ (ok (get_bytes s.logfile.bytes pos len), s)
unfolding log_buf_read log_read next_fault ◌>>=◌
log_buf_read_lem s pos len open_file no_faults h = ground arith

magic_check_lem :
    (s : Sm)
    → s.logfile.bad ≡ false
    → s.faults ≡ []
    → 128 ≤ s.logfile.size
    → u32_at s.logfile.bytes 0 ≡ k_log_magic_number
    → magic_check s ≡ (ok tt, s)
unfolding magic_check ◌>>=◌
magic_check_lem s open_file no_faults h e =
    ground (arith, log_u32_read_lem s 0 open_file no_faults (omega arith))

module _ (m : Sm) (l : List Entry) (term : ℕ) (vote : ReplicaId) (peers : List ReplicaId)
    (log : LogHolds m.logfile (length l) m.log_command_size m.faults l)
    (header : HeaderHolds m.logfile term vote) (known : IsKnown vote m.local_id peers) where
  size_lem : bad_size (reset m) ≡ false
  unfolding reset
  size_lem = ground (arith, log.whole, mul-mod_left (length l) (4 + m.log_command_size))

  count_lem : (m.logfile.size - k_log_entries_ofs) / log_entry_size m % u32_mod ≡ length l
  count_lem =
      let exact : m.logfile.size - k_log_entries_ofs ≡ length l * (4 + m.log_command_size) =
        omega (arith, log.whole) in
      rw (exact, mul-div_cancel (length l) {n = 4 + m.log_command_size} (omega arith))
        (omega (arith, log.small))

  valid_lem : voted_for_is_valid peers (reloaded m term vote (length l)) ≡ true
  unfolding voted_for_is_valid reset
  valid_lem = ground (arith, same_id_refl vote)

  recover_lem : recover peers (reset m) ≡ (ok tt, reloaded m term vote (length l))
  unfolding recover reset ◌>>=◌
  recover_lem =
      let counted = record (reset m) { last_log_index = length l } in
      let termed = record counted { current_term = term } in
      let header_fits : 128 ≤ m.logfile.size = omega (arith, log.whole) in
      ground (
        arith,
        size_lem,
        count_lem,
        magic_check_lem counted log.open_file log.no_faults header_fits header.magic,
        log_u32_read_lem counted k_log_current_term_ofs log.open_file log.no_faults
            (omega (arith, header_fits)),
        header.term_holds,
        log_buf_read_lem termed k_log_voted_for_ofs k_log_voted_for_size log.open_file log.no_faults
            (omega (arith, header_fits)),
        header.vote_holds,
        null_terminated-id_buf vote header.vote_text header.vote_short,
        c_str-id_buf vote header.vote_text header.vote_short,
        valid_lem,
      )

log_open_lem : (s : Sm) → s.logfile.bad ≡ false → s.faults ≡ [] → log_open false s ≡ (ok tt, s)
unfolding log_open next_fault ◌>>=◌
log_open_lem s open_file no_faults = ground arith

-- The caller is told to start the election timer, with a time in the range, and nothing else.
pub record StartsElectionTimer (m t : Sm) : Type 0 where
  pub before : Output
  pub given : m.out ≡ some before
  pub milliseconds : ℕ
  pub least : t.election_timeout_min ≤ milliseconds
  pub most : milliseconds < t.election_timeout_max
  pub told :
      t.out
      ≡ some (record before {
        timer_commands =
            before.timer_commands
            ++ (record { type = election; action = restart; milliseconds = milliseconds }) ∷ [];
      })

-- A replica `t` that has booted, as `m`, from a log with the entries `l`.
pub record Recovers (m t : Sm) (l : List Entry) (term : ℕ) (vote : ReplicaId) : Type 0 where
  pub term_back : t.current_term ≡ term
  pub vote_back : t.voted_for ≡ vote
  pub log_back : IsStored t l
  pub role : t.state ≡ follower
  pub nothing_committed : (t.commit_index ≡ 0) × (t.last_applied ≡ 0)
  pub last_term : t.last_log_term ≡ 0
  pub timer : StartsElectionTimer m t
  pub timeouts : t.election_timeout_min < t.election_timeout_max

module _ (m : Sm) (l : List Entry) (term : ℕ) (vote : ReplicaId) (peers : List ReplicaId)
    (log : LogHolds m.logfile (length l) m.log_command_size m.faults l)
    (header : HeaderHolds m.logfile term vote) (known : IsKnown vote m.local_id peers)
    (present : m.logfile.present ≡ true) (o : Output) (given : m.out ≡ some o)
    (timeouts : m.election_timeout_min < m.election_timeout_max) where
  abbrev with_peers : Sm
  with_peers =
      let s = reloaded m term vote (length l) in
      record s { servers = add_peers peers (fresh_server s) s.servers }

  init_run : init peers m ≡ (ok tt, timer_restarted with_peers)
  unfolding init reset check_output_arg ◌>>=◌
  init_run = ground (
    arith,
    log_open_lem m log.open_file log.no_faults,
    recover_lem m l term vote peers log header known,
    restart_election_timer_lem with_peers timeouts,
  )

  -- A replica that boots from a log file in order, whose header holds a term and no vote or one for
  -- a known replica, has that term, that vote and the entries on disk. It is a follower that has
  -- committed nothing, it tells its caller to start the election timer, with a time in the range of
  -- the timeouts, and nothing else, and the term that it notes for its last entry is 0.
  pub init-Recovers : (t : Sm) × (init peers m ≡ (ok tt, t)) × Recovers m t l term vote
  unfolding reset add_timer
  init-Recovers =
      let width = m.election_timeout_max - m.election_timeout_min in
      let in_range = mod-lt (elim m.rands [ [] ↦ 0 | r ∷ rs ↦ r ]) {m = width} (omega arith) in
      (
        timer_restarted with_peers,
        init_run,
        record {
          term_back = refl;
          vote_back = refl;
          log_back = log;
          role = refl;
          nothing_committed = (refl, refl);
          last_term = refl;
          timer = record {
            before = o;
            given = given;
            milliseconds = (election_timer with_peers).milliseconds;
            least = omega arith;
            most = omega (arith, in_range);
            told = ground arith;
          };
          timeouts = timeouts;
        },
      )
