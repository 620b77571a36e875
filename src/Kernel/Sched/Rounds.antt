-- ===== src/Kernel/Sched/Rounds.antt =====
-- Weighted round robin: `sched_wrr_deq` of kernel/normal.c.
use native.Mathlib.Decide.{dec_lt}
use rlite.Base.{
  ℕ, zero, suc, ◌+◌, ◌≡◌, ◌≤◌, ◌<◌, ◌⊎◌, inl, inr, refl, ap, sym, subst, some, List, ◌∷◌, arith,
  length, get_elem?,
}
use rlite.Kernel.Sched.{
  RlBuf, Queue, RlSched, Dequeued, nothing, pdu, set, charged, as_credit, class_after, take_pdu,
  sched_next_class, wrr_from, sched_wrr_deq,
}
use rlite.Kernel.Sched.Queues.{bufs-cases, IsCounted, queue_at, get_elem?-set}
use rlite.Kernel.Sched.Priorities.{IsEmptyClass, Serves, set-Serves, front_fits}

-- Every class has credit, and its weight is one to load again.
pub record HasCredit (s : RlSched) : Type 0 where
  pub credits :
      (i : ℕ) (pq : Queue)
      → get_elem? s.queues i ≡ some pq
      → (0 < pq.credit) × (0 < as_credit pq.weight)

-- The class `i` comes before `c` in the round that starts at `from`.
abbrev pub ComesBefore : ℕ → ℕ → ℕ → Type 0
ComesBefore from c i = ((from ≤ i) × (i < c)) ⊎ (((c < from) × (from ≤ i)) ⊎ ((c < from) × (i < c)))

-- The first class of the round with a PDU, from which it is taken; or all are empty.
pub record RoundServed (s : RlSched) (result : Dequeued) : Type 0 where
  pub outcome :
      ((result ≡ nothing s) × ((i : ℕ) → i < s.num_queues → IsEmptyClass s i))
      ⊎ ((c : ℕ) × (rb : RlBuf) × (t : RlSched) × (result ≡ pdu rb t)
          × Serves s t c rb
          × HasCredit t
          × (t.cur_class < t.num_queues)
          × ((i : ℕ) → i < s.num_queues → ComesBefore s.cur_class c i → IsEmptyClass s i))

next_class-lt : (c n : ℕ) → c < n → sched_next_class c n < n
unfolding sched_next_class
next_class-lt c n h = ground arith

next_class-inner : (c n : ℕ) → c + 1 < n → sched_next_class c n ≡ c + 1
unfolding sched_next_class
next_class-inner c n h = ground arith

next_class-last : (c n : ℕ) → c + 1 ≡ n → sched_next_class c n ≡ 0
unfolding sched_next_class
next_class-last c n h = ground arith

set-HasCredit :
    (s t : RlSched) (c : ℕ) (new : Queue)
    → HasCredit s
    → c < length s.queues
    → t.queues ≡ set s.queues c new
    → 0 < new.credit
    → 0 < as_credit new.weight
    → HasCredit t
set-HasCredit s t c new h within queues credit weight = record {
  credits = λ i pq at. ground (arith, get_elem?-set s.queues c i new within, h.credits i pq);
}

module _ (s : RlSched) (v : IsCounted s) (h : HasCredit s) where
  -- A class with a PDU is served.
  take_pdu-RoundServed :
      (c : ℕ) (pq : Queue) (rb : RlBuf) (rest : List RlBuf)
      → c < s.num_queues
      → get_elem? s.queues c ≡ some pq
      → pq.q ≡ rb ∷ rest
      → ((i : ℕ) → i < s.num_queues → ComesBefore s.cur_class c i → IsEmptyClass s i)
      → RoundServed s (take_pdu pq rb rest c s)
  take_pdu-RoundServed c pq rb rest in_range at front before =
      let new = charged pq rb rest in
      let within : c < length s.queues = omega (arith, v.sized) in
      let credit = h.credits c pq at in
      let t = record s {
        queues = set s.queues c new;
        cur_class = class_after pq rb c s.num_queues;
      } in
      record {
        outcome = inr (
          c,
          rb,
          t,
          ground (arith, front_fits s c pq rb rest v at front),
          set-Serves s t c pq new rb rest v within at front refl refl refl refl,
          set-HasCredit s t c new h within refl (ground arith) (ground arith),
          ground (arith, next_class-lt c s.num_queues in_range),
          before,
        );
      }

  -- One class of the round: it is served, or the round goes on.
  wrr_step :
      (n c : ℕ)
      → c < s.num_queues
      → ((i : ℕ) → i < s.num_queues → ComesBefore s.cur_class c i → IsEmptyClass s i)
      → (IsEmptyClass s c → RoundServed s (wrr_from n (sched_next_class c s.num_queues) s))
      → RoundServed s (wrr_from (suc n) c s)
  unfolding wrr_from
  wrr_step n c in_range before later =
      let (pq, at) = queue_at s c (omega (arith, v.sized)) in
      elim (bufs-cases pq.q) [
        | inl none_here ↦
            let step : wrr_from (suc n) c s ≡ wrr_from n (sched_next_class c s.num_queues) s =
              ground arith in
            subst (RoundServed s) (sym step) (later (λ pq' at'. ground arith))
        | inr (rb, rest, front) ↦
            let credit = h.credits c pq at in
            let step : wrr_from (suc n) c s ≡ take_pdu pq rb rest c s = ground arith in
            subst (RoundServed s) (sym step)
              (take_pdu-RoundServed c pq rb rest in_range at front before)
      ]

  -- One more class that is known to be empty.
  grown : (i c : ℕ) → IsEmptyClass s c → (i < c → IsEmptyClass s i) → i < c + 1 → IsEmptyClass s i
  grown i c here below h = elim (dec_lt i c) [
    | yes lo ↦ below lo
    | no this ↦ let same : c ≡ i = omega arith in subst (IsEmptyClass s) same here
  ]

  -- The round once it has gone past the last class.
  wrapped :
      (n c : ℕ)
      → s.cur_class < s.num_queues
      → n + c ≡ s.cur_class
      → ((i : ℕ) → s.cur_class ≤ i → i < s.num_queues → IsEmptyClass s i)
      → ((i : ℕ) → i < c → IsEmptyClass s i)
      → RoundServed s (wrr_from n c s)
  unfolding wrr_from
  wrapped zero c start span above below =
      let same : c ≡ s.cur_class = omega arith in
      record {
        outcome = inl (
          ap (λ k. nothing (record s { cur_class = k })) same,
          λ i hi. elim (dec_lt i c) [ yes lo ↦ below i lo | no hi' ↦ above i (omega arith) hi ],
        );
      }
  wrapped (suc n) c start span above below =
      let next : sched_next_class c s.num_queues ≡ c + 1 =
        next_class-inner c s.num_queues (omega arith) in
      wrr_step n c (omega arith)
        (λ i hi b. elim (dec_lt i c) [ yes lo ↦ below i lo | no hi' ↦ above i (ground arith) hi ])
        (λ here.
          subst (λ k. RoundServed s (wrr_from n k s)) (sym next)
            (wrapped n (c + 1) start (omega arith) above
              (λ i hi. grown i c here (λ lo. below i lo) (omega arith))))

  unwrapped :
      (n c : ℕ)
      → n + c ≡ s.num_queues + s.cur_class
      → s.cur_class ≤ c
      → c < s.num_queues
      → ((i : ℕ) → s.cur_class ≤ i → i < c → IsEmptyClass s i)
      → RoundServed s (wrr_from n c s)
  unwrapped zero c span from below before = absurd (omega arith)
  unwrapped (suc n) c span from below before =
      wrr_step n c below (λ i hi b. before i (ground arith) (ground arith))
        (λ here. elim (dec_lt (c + 1) s.num_queues) [
          | yes more ↦
              subst (λ k. RoundServed s (wrr_from n k s))
                (sym (next_class-inner c s.num_queues more))
                (unwrapped n (c + 1) (omega arith) (omega arith) more
                  (λ i lo hi. grown i c here (λ lt. before i lo lt) (omega arith)))
          | no last ↦
              subst (λ k. RoundServed s (wrr_from n k s))
                (sym (next_class-last c s.num_queues (omega arith)))
                (wrapped n 0 (omega arith) (omega arith)
                  (λ i lo hi. grown i c here (λ lt. before i lo lt) (omega arith))
                  (λ i hi. absurd (omega arith)))
        ])

-- A weighted round robin with right lengths, whose classes all have credit and one to load again,
-- never fails its assertion. From the class whose turn it is on, round and round, it takes the
-- front of the queue of the first class that has a PDU, leaves the other queues, and is again in
-- such a state; it gives nothing, and changes nothing, only if all the queues are empty.
pub sched_wrr_deq-RoundServed :
    (s : RlSched)
    → IsCounted s
    → HasCredit s
    → s.cur_class < s.num_queues
    → RoundServed s (sched_wrr_deq s)
unfolding sched_wrr_deq
sched_wrr_deq-RoundServed s v h start =
    unwrapped s v h s.num_queues s.cur_class refl (omega arith) start
      (λ i lo hi. absurd (omega arith))
