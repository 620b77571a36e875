-- ===== src/Raft/Votes/Restart.antt =====
-- A replica of user/libs/raft.cpp that stops after a vote and boots again from its log.
use rlite.Base.{
  ℕ, ◌+◌, ◌^◌, ◌≡◌, ◌<◌, refl, ap, ◌∙◌, sym, subst, true, false, some, List, [], length, get_elem?,
  arith,
}
use rlite.Raft.Types.{ReplicaId, Entry, RequestVote, Output}
use rlite.Raft.Machine.{Sm, ok}
use rlite.Raft.Storage.Stored.{LogHolds, IsStored}
use rlite.Raft.Storage.Terms.{term_at}
use rlite.Raft.Election.{request_vote_input}
use rlite.Raft.Boot.{init}
use rlite.Raft.Boot.Recovery.{HeaderHolds, IsText, IsKnown, Recovers, init-Recovers}
use rlite.Raft.Votes.Durable.{IsDurable, request_vote_input-IsDurable}
use rlite.Raft.Votes.Requests.{request_vote_input-Answers, last_term, log_is_up_to_date}

-- A machine whose file is that of a machine with the entries `l`.
same_log :
    (m t : Sm) (l : List Entry)
    → IsStored t l
    → m.logfile ≡ t.logfile
    → m.log_command_size ≡ t.log_command_size
    → m.faults ≡ []
    → LogHolds m.logfile (length l) m.log_command_size m.faults l
same_log m t l stored same_file same_size healthy =
    rw (same_file, same_size, healthy)
      (record {
        counted = refl;
        small = stored.small;
        open_file = stored.open_file;
        no_faults = refl;
        whole = stored.whole;
        terms = stored.terms;
        commands = stored.commands;
      })

module _ (s : Sm) (l : List Entry) (v : IsStored s l) (durable : IsDurable s)
    (timeouts : s.election_timeout_min < s.election_timeout_max) (msg : RequestVote)
    (term_fits : msg.term < 2 ^ 32) (text : IsText msg.candidate_id)
    (short : length msg.candidate_id < 120) (o : Output) (given : s.out ≡ some o) where
  after_request : IsStored (request_vote_input msg s).1 l
  after_request =
      let (t, ran, answers) = request_vote_input-Answers s l v msg o given timeouts in
      rw ran answers.log

  -- A replica whose header on disk is up to date answers a request for its vote while the log file
  -- works, stops, and boots again from the same file with peers that its vote is known to. It is
  -- then back in the term, with the vote and with the entries that it had when it answered.
  pub vote_survives_restart :
      (m : Sm) (peers : List ReplicaId) (o' : Output)
      → let t = (request_vote_input msg s).1 in
        m.logfile ≡ t.logfile
        → m.logfile.present ≡ true
        → m.log_command_size ≡ t.log_command_size
        → m.faults ≡ []
        → IsKnown t.voted_for m.local_id peers
        → m.out ≡ some o'
        → m.election_timeout_min < m.election_timeout_max
        → (u : Sm) × (init peers m ≡ (ok tt, u)) × Recovers m u l t.current_term t.voted_for
  vote_survives_restart m peers o' same_file present same_size healthy known out timeouts' =
      let t = (request_vote_input msg s).1 in
      let stored : IsStored t l = after_request in
      let log = same_log m t l stored same_file same_size healthy in
      let header : HeaderHolds m.logfile t.current_term t.voted_for =
        subst (λ f. HeaderHolds f t.current_term t.voted_for) (sym same_file)
          (request_vote_input-IsDurable s l v durable timeouts msg term_fits text short o given) in
      init-Recovers m l t.current_term t.voted_for peers log header known present o' out timeouts'

-- A replica boots from a log file in order that has entries, and gets a request for its vote in a
-- newer term than that on disk, of a candidate whose last entry has a term other than 0, but an
-- older one than the last entry of the log. It gives its vote, though the candidate's log is older
-- than its own.
pub recovered_votes_for_older_log :
    (m : Sm) (l : List Entry) (term : ℕ) (vote : ReplicaId) (peers : List ReplicaId) (i : ℕ)
    (e : Entry) (msg : RequestVote) (o : Output)
    → LogHolds m.logfile (length l) m.log_command_size m.faults l
    → HeaderHolds m.logfile term vote
    → IsKnown vote m.local_id peers
    → m.logfile.present ≡ true
    → m.out ≡ some o
    → m.election_timeout_min < m.election_timeout_max
    → get_elem? l i ≡ some e
    → length l ≡ i + 1
    → 0 < msg.last_log_term
    → msg.last_log_term < e.term
    → term < msg.term
    → (log_is_up_to_date msg l ≡ false)
      × ((s : Sm) × (t : Sm) × (init peers m ≡ (ok tt, s))
          × (request_vote_input msg s ≡ (ok tt, t))
          × (t.voted_for ≡ msg.candidate_id))
recovered_votes_for_older_log m l term vote peers i e msg o log header known present given timeouts
      last_entry last later older newer =
    let (s, booted, r) =
      init-Recovers m l term vote peers log header known present o given timeouts in
    let (t, ran, answers) =
      request_vote_input-Answers s l r.log_back msg _ r.timer.told r.timeouts in
    let at : term_at l (length l) ≡ some e.term =
      ap (term_at l) last ∙ ground (arith, last_entry) in
    let end : last_term l ≡ e.term = ground (arith, at) in
    (
      ground (arith, end),
      (s, t, booted, ran, ground (arith, answers.vote, r.term_back, r.last_term)),
    )
