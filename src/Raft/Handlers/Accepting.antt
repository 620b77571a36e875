-- ===== src/Raft/Handlers/Accepting.antt =====
-- The entries of an AppendEntries message in user/libs/raft.cpp against the list that the log
-- stands for: which are accepted, and what the log is afterwards.
use rlite.Base.{
  ℕ, zero, suc, ◌+◌, ◌^◌, ◌≤◌, ◌<◌, ◌≡◌, ◌≢◌, refl, sym, ap, subst, ◌∙◌, true, false, some, List,
  [], ◌∷◌, ◌++◌, length, take, get_elem?, ◌==◌, if◌then◌else◌, Bool-cases, Option-cases, inl, inr,
  arith, append_assoc, append-nil, length-append, get_elem?-none, length-take, take-length,
}
use rlite.Raft.Types.{Entry, AppendEntries}
use rlite.Raft.Machine.{Sm, ok, ◌>>=◌}
use rlite.Raft.Storage.{log_entry_get_term, log_truncate}
use rlite.Raft.Storage.Stored.{LogHolds, IsStored, log_entry_get_term_lem}
use rlite.Raft.Storage.Cut.{cut, log_truncate_lem, cut-IsStored}
use rlite.Raft.Storage.Appended.{AllFit, appended, append_log_entry_lem, appended-IsStored}
use rlite.Raft.Storage.Terms.{term_at, term_at_bound}
use rlite.Raft.Handlers.{find_entry_term, append_log_entries, accept_entries}

abbrev pub appended_all : Sm → List Entry → Sm
appended_all s [] = s
appended_all s (e ∷ es) = appended_all (appended s e) es

-- Only the log of the machine changes.
pub appended_all-frame :
    (s : Sm) (es : List Entry)
    → appended_all s es ≡ record s {
      logfile = (appended_all s es).logfile;
      last_log_index = (appended_all s es).last_log_index;
      last_log_term = (appended_all s es).last_log_term;
    }
appended_all-frame s [] = refl
appended_all-frame s (e ∷ es) = appended_all-frame (appended s e) es

pub append_log_entries_lem :
    (s : Sm) (l es : List Entry)
    → IsStored s l
    → AllFit s.log_command_size es
    → length l + length es + 1 < 2 ^ 32
    → (append_log_entries es s ≡ (ok tt, appended_all s es))
      × IsStored (appended_all s es) (l ++ es)
unfolding append_log_entries ◌>>=◌
append_log_entries_lem s l [] v fits room = (refl, rw append-nil v)
append_log_entries_lem s l (e ∷ es) v fits room =
    let (ran, stored) =
      append_log_entries_lem (appended s e) (l ++ e ∷ []) es
        (appended-IsStored s v e fits.0 (omega arith)) fits.1
        (omega (arith, length-append l (e ∷ []))) in
    (rw (append_log_entry_lem s v e fits.0) ran, rw append_assoc at stored)

pub find_entry_term_lem :
    (s : Sm) (l : List Entry) (index : ℕ)
    → IsStored s l
    → find_entry_term index s ≡ (ok (term_at l index), s)
unfolding find_entry_term log_entry_get_term ◌>>=◌
find_entry_term_lem s l zero v = refl
find_entry_term_lem s l (suc i) v = elim (Option-cases (get_elem? l i)) [
  | inl e ↦ ground (arith, v.counted, get_elem?-none l i e)
  | inr (e, at) ↦ ground (arith, log_entry_get_term_lem s v i e at)
]

-- The state after the log was cut to `n` entries, if it has more.
abbrev pub trimmed : Sm → ℕ → Sm
trimmed s n = record s {
  logfile = if n == s.last_log_index then s.logfile else (cut s n).logfile;
  discarded = if n == s.last_log_index then s.discarded else (cut s n).discarded;
  last_log_index = n;
}

pub trimmed-IsStored :
    (s : Sm) (l : List Entry) (n : ℕ)
    → IsStored s l
    → n ≤ length l
    → IsStored (trimmed s n) (take n l)
trimmed-IsStored s l n v h = elim (Bool-cases (n == s.last_log_index)) [
  | inl all ↦
      let e : n ≡ length l = ground (arith, v.counted) in
      let same : take n l ≡ l = rw e (take-length l) in
      rw (all, same)
        (subst (λ k. LogHolds s.logfile k s.log_command_size s.faults l) (v.counted ∙ sym e) v)
  | inr part ↦ rw part (cut-IsStored s v n (ground (arith, v.counted)))
]

-- Cutting the log to what it holds changes nothing.
pub log_truncate_any :
    (s : Sm) (l : List Entry) (n : ℕ)
    → IsStored s l
    → n ≤ length l
    → log_truncate n s ≡ (ok tt, trimmed s n)
unfolding log_truncate ◌>>=◌
log_truncate_any s l n v h = elim (Bool-cases (n == s.last_log_index)) [
  | inl all ↦ ground (arith, v.counted)
  | inr part ↦
      let same : cut s n ≡ trimmed s n = rw part in
      log_truncate_lem s v n (ground (arith, v.counted)) ∙ ap (λ t. (ok tt, t)) same
]

-- The state after the entries of a message took the place of all after the first `n`.
abbrev pub replaced : Sm → ℕ → List Entry → Sm
replaced s n es = appended_all (trimmed s n) es

pub length-after :
    (l es : List Entry) (n : ℕ) → n ≤ length l → length (take n l ++ es) ≡ n + length es
length-after l es n h = omega (arith, length-append (take n l) es, length-take n l)

module _ (s : Sm) (l : List Entry) (v : IsStored s l) (msg : AppendEntries)
    (fits : AllFit s.log_command_size msg.entries)
    (room : msg.prev_log_index + length msg.entries + 1 < 2 ^ 32) where
  appending :
      msg.prev_log_index ≤ length l
      → let base = trimmed s msg.prev_log_index in
        (append_log_entries msg.entries base ≡ (ok tt, appended_all base msg.entries))
        × IsStored (appended_all base msg.entries) (take msg.prev_log_index l ++ msg.entries)
  appending h =
      append_log_entries_lem (trimmed s msg.prev_log_index) (take msg.prev_log_index l) msg.entries
        (trimmed-IsStored s l msg.prev_log_index v h) fits
        (omega (arith, length-take msg.prev_log_index l))

  pub replaced-IsStored :
      msg.prev_log_index ≤ length l
      → IsStored
          (replaced s msg.prev_log_index msg.entries)
          (take msg.prev_log_index l ++ msg.entries)
  replaced-IsStored h = (appending h).1

  pub accept_entries_matching :
      term_at l msg.prev_log_index ≡ some msg.prev_log_term
      → accept_entries msg s ≡ (
        ok (true, msg.prev_log_index + length msg.entries),
        replaced s msg.prev_log_index msg.entries,
      )
  unfolding accept_entries ◌>>=◌
  accept_entries_matching h =
      let within = term_at_bound l msg.prev_log_index h in
      ground (
        arith,
        find_entry_term_lem s l msg.prev_log_index v,
        v.counted,
        log_truncate_any s l msg.prev_log_index v within,
        (appending within).0,
        (appending within).1.counted,
        length-after l msg.entries msg.prev_log_index within,
      )

pub accept_entries_differing :
    (s : Sm) (l : List Entry) (msg : AppendEntries)
    → IsStored s l
    → term_at l msg.prev_log_index ≢ some msg.prev_log_term
    → accept_entries msg s ≡ (ok (false, msg.prev_log_index), s)
unfolding accept_entries ◌>>=◌
accept_entries_differing s l msg v h = ground (arith, find_entry_term_lem s l msg.prev_log_index v)
