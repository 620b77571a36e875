-- ===== src/Raft/Handlers/Committing.antt =====
-- How a leader of user/libs/raft.cpp moves its commit index.
use rlite.Base.{
  ℕ, zero, suc, ◌+◌, ◌-◌, ◌^◌, ◌≡◌, ◌≤◌, ◌<◌, ◌⊎◌, inl, inr, max, Bool, true, false, List, [], ◌∷◌,
  arith, leb, ◌&&◌, if◌then◌else◌, Bool-cases,
}
use rlite.Raft.Types.{ReplicaId, Server, add32}
use rlite.Raft.Machine.{Sm}
use rlite.Raft.Election.{quorum}
use rlite.Raft.Acks.{match_indices_quorum, advance_commit}

-- How many of the other replicas hold the entries up to `index`.
abbrev pub holders : ℕ → List (ReplicaId × Server) → ℕ
holders index [] = 0
holders index ((k, v) ∷ rest) = (if leb index v.match_index then 1 else 0) + holders index rest

-- The loop of the lambda `match_indices_quorum` is the test that `needed` of the other replicas,
-- and one at least, hold the entry `index`.
pub match_indices_quorum-holders :
    (needed index : ℕ) (servers : List (ReplicaId × Server))
    → match_indices_quorum needed index servers ≡ leb (max 1 needed) (holders index servers)
unfolding match_indices_quorum
match_indices_quorum-holders needed index [] = ground arith
match_indices_quorum-holders needed index ((k, v) ∷ rest) = ground (
  arith,
  match_indices_quorum-holders (needed - 1) index rest,
  match_indices_quorum-holders needed index rest,
)

abbrev pub HasQuorum : Sm → ℕ → Type 0
HasQuorum s index = max 2 (quorum s.servers) ≤ holders index s.servers + 1

-- The loop stops at the last index, from `next` on, up to which every one has a quorum, or past the
-- end of the log.
pub record IsNext (s : Sm) (from next : ℕ) : Type 0 where
  pub forward : from ≤ next
  pub held : (i : ℕ) → from < i → i ≤ next → HasQuorum s i
  pub last : (s.last_log_index < next) ⊎ (¬ HasQuorum s (next + 1))

abbrev goes_on : Sm → ℕ → Bool
goes_on s next =
    leb next s.last_log_index
    && match_indices_quorum (quorum s.servers - 1) (add32 next 1) s.servers

stop :
    (s : Sm) (next : ℕ)
    → s.last_log_index + 1 < 2 ^ 32
    → goes_on s next ≡ false
    → (s.last_log_index < next) ⊎ (¬ HasQuorum s (next + 1))
stop s next small off =
    ground (arith, match_indices_quorum-holders (quorum s.servers - 1) (add32 next 1) s.servers)

step :
    (s : Sm) (next final : ℕ)
    → s.last_log_index + 1 < 2 ^ 32
    → goes_on s next ≡ true
    → IsNext s (add32 next 1) final
    → IsNext s next final
step s next final small on rest =
    let wrap : add32 next 1 ≡ next + 1 = ground arith in
    record {
      forward = omega (arith, rest.forward);
      held = λ i a b.
          ground
            (arith, rest.held i, match_indices_quorum-holders (quorum s.servers - 1) i s.servers);
      last = rest.last;
    }

-- With rounds enough for the length of the log, and below the last 32-bit index, the loop for the
-- next commit index ends at the last index, from `next` on, up to which every one has a quorum, or
-- past the end of the log.
pub advance_commit-IsNext :
    (rounds next : ℕ) (s : Sm)
    → s.last_log_index + 1 < 2 ^ 32
    → s.last_log_index + 1 < next + rounds
    → IsNext s next (advance_commit rounds next s)
unfolding advance_commit
advance_commit-IsNext zero next s small enough = record {
  forward = omega arith;
  held = λ i a b. absurd (omega arith);
  last = inl (omega arith);
}
advance_commit-IsNext (suc rounds) next s small enough = elim (Bool-cases (goes_on s next)) [
  | inl on ↦
      rw (on, advance_commit)
        (step s next _ small on
          (advance_commit-IsNext rounds (add32 next 1) s small (ground (arith))))
  | inr off ↦
      rw (off, advance_commit)
        (record {
          forward = omega arith;
          held = λ i a b. absurd (omega arith);
          last = stop s next small off;
        })
]
