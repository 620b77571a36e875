-- ===== src/Raft/Storage/Terms.antt =====
-- The terms of the entries in the log of user/libs/raft.cpp, and `log_entry_get_term`.
use rlite.Base.{
  ℕ, zero, suc, ◌≡◌, ◌≤◌, refl, Option, some, none, List, length, get_elem?, get_elem?-bound,
  get_elem?-none, Option-cases, inl, inr, arith,
}
use rlite.Raft.Types.{Entry}
use rlite.Raft.Machine.{Sm, Result, ok, err, no_entry, ◌>>=◌}
use rlite.Raft.Storage.{log_entry_get_term}
use rlite.Raft.Storage.Stored.{IsStored, log_entry_get_term_lem}

-- The term of the entry with a given index, 0 for the index 0 before the log.
abbrev pub term_at : List Entry → ℕ → Option ℕ
term_at l zero = some 0
term_at l (suc i) = elim (get_elem? l i) [ none ↦ none | some e ↦ some e.term ]

abbrev pub lookup_result : Option ℕ → Result ℕ
lookup_result none = err no_entry
lookup_result (some t) = ok t

pub log_entry_get_term_any :
    (s : Sm) (l : List Entry) (index : ℕ)
    → IsStored s l
    → log_entry_get_term index s ≡ (lookup_result (term_at l index), s)
unfolding log_entry_get_term ◌>>=◌
log_entry_get_term_any s l zero v = refl
log_entry_get_term_any s l (suc i) v = elim (Option-cases (get_elem? l i)) [
  | inl e ↦ ground (arith, v.counted, get_elem?-none l i e)
  | inr (e, at) ↦ ground (arith, log_entry_get_term_lem s v i e at)
]

pub term_at_bound : (l : List Entry) (i : ℕ) {t : ℕ} → term_at l i ≡ some t → i ≤ length l
term_at_bound l zero h = omega arith
term_at_bound l (suc i) h = elim (Option-cases (get_elem? l i)) [
  | inl e ↦ ground arith
  | inr (e, at) ↦ get_elem?-bound l i at
]

pub term_at-some : (l : List Entry) (i : ℕ) → i ≤ length l → (t : ℕ) × (term_at l i ≡ some t)
term_at-some l zero h = (0, refl)
term_at-some l (suc i) h = elim (Option-cases (get_elem? l i)) [
  | inl e ↦ absurd (omega (arith, get_elem?-none l i e))
  | inr (e, at) ↦ (e.term, rw (at, term_at))
]
