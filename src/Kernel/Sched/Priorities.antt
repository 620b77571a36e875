-- ===== src/Kernel/Sched/Priorities.antt =====
-- Strict priorities: `sched_pfifo_deq` of kernel/normal.c.
use rlite.Base.{
  ℕ, zero, suc, ◌+◌, ◌-◌, ◌≡◌, ◌≢◌, ◌≤◌, ◌<◌, ◌⊎◌, inl, inr, refl, ap, sym, subst, false, some,
  List, [], ◌∷◌, arith, ltb, length, get_elem?,
}
use native.Mathlib.Decide.{dec_lt}
use rlite.Kernel.Sched.{
  RlBuf, Queue, RlSched, Dequeued, nothing, pdu, set, popped, pfifo_from, sched_pfifo_deq,
}
use rlite.Kernel.Sched.Queues.{total, bufs-cases, IsCounted, queue_at, get_elem?-set, set-IsCounted}

abbrev pub IsEmptyClass : RlSched → ℕ → Type 0
IsEmptyClass s i = (pq : Queue) → get_elem? s.queues i ≡ some pq → pq.q ≡ []

-- The PDU `rb` was the front of the class `c` of `s`, and `t` is what is left.
pub record Serves (s t : RlSched) (c : ℕ) (rb : RlBuf) : Type 0 where
  pub old : Queue
  pub rest : List RlBuf
  pub class_queue : get_elem? s.queues c ≡ some old
  pub front : old.q ≡ rb ∷ rest
  pub others : (j : ℕ) → j ≢ c → get_elem? t.queues j ≡ get_elem? s.queues j
  pub new : Queue
  pub new_queue : get_elem? t.queues c ≡ some new
  pub behind : new.q ≡ rest
  pub counted : IsCounted t

-- A class with a PDU, whose queue becomes another one without it.
pub set-Serves :
    (s t : RlSched) (c : ℕ) (pq new : Queue) (rb : RlBuf) (rest : List RlBuf)
    → IsCounted s
    → c < length s.queues
    → get_elem? s.queues c ≡ some pq
    → pq.q ≡ rb ∷ rest
    → new.q ≡ rest
    → new.qlen ≡ pq.qlen - rb.truesize
    → t.queues ≡ set s.queues c new
    → t.num_queues ≡ s.num_queues
    → Serves s t c rb
set-Serves s t c pq new rb rest v within at front behind shorter queues same = record {
  old = pq;
  rest = rest;
  class_queue = at;
  front = front;
  others = λ j ne. ground (arith, get_elem?-set s.queues c j new within);
  new = new;
  new_queue = ground (arith, get_elem?-set s.queues c c new within);
  behind = behind;
  counted =
      set-IsCounted s t c new v within
        (let size : total pq.q ≡ rb.truesize + total rest = ap total front in
          let size' : total new.q ≡ total rest = ap total behind in
          omega (arith, v.lengths c pq at))
        queues same;
}

-- The front of a class is no longer than the class.
pub front_fits :
    (s : RlSched) (c : ℕ) (pq : Queue) (rb : RlBuf) (rest : List RlBuf)
    → IsCounted s
    → get_elem? s.queues c ≡ some pq
    → pq.q ≡ rb ∷ rest
    → ltb pq.qlen rb.truesize ≡ false
front_fits s c pq rb rest v at front =
    let size : total pq.q ≡ rb.truesize + total rest = ap total front in
    ground (arith, v.lengths c pq at)

-- The first class with a PDU, from which it is taken; or all are empty.
pub record FirstServed (s : RlSched) (from : ℕ) (result : Dequeued) : Type 0 where
  pub outcome :
      ((result ≡ nothing s) × ((i : ℕ) → from ≤ i → i < s.num_queues → IsEmptyClass s i))
      ⊎ ((c : ℕ) × (rb : RlBuf) × (t : RlSched) × (result ≡ pdu rb t)
          × Serves s t c rb
          × (from ≤ c)
          × ((i : ℕ) → from ≤ i → i < c → IsEmptyClass s i))

-- The first queue, if it is empty, and what follows.
empty_first :
    (s : RlSched) (from : ℕ) (result : Dequeued) (pq : Queue)
    → get_elem? s.queues from ≡ some pq
    → pq.q ≡ []
    → FirstServed s (from + 1) result
    → FirstServed s from result
empty_first s from result pq at none_here later =
    let here : (i : ℕ) → from ≡ i → IsEmptyClass s i = λ i e pq' at'. ground arith in
    record {
      outcome = elim later.outcome [
        | inl (gives, all_empty) ↦ inl (
          gives,
          λ i lo hi. elim (dec_lt from i) [
            | yes above ↦ all_empty i (omega arith) hi
            | no this ↦ here i (omega arith)
          ],
        )
        | inr (c, rb, t, gives, serves, lo, below) ↦ inr (
          c,
          rb,
          t,
          gives,
          serves,
          omega arith,
          λ i from_i hi. elim (dec_lt from i) [
            | yes above ↦ below i (omega arith) hi
            | no this ↦ here i (omega arith)
          ],
        )
      ];
    }

pfifo_from-FirstServed :
    (n from : ℕ) (s : RlSched)
    → IsCounted s
    → from + n ≡ s.num_queues
    → FirstServed s from (pfifo_from n from s)
unfolding pfifo_from
pfifo_from-FirstServed zero from s v span = record {
  outcome = inl (refl, λ i lo hi. absurd (omega arith));
}
pfifo_from-FirstServed (suc n) from s v span =
    let within : from < length s.queues = omega (arith, v.sized) in
    let (pq, at) = queue_at s from within in
    elim (bufs-cases pq.q) [
      | inl none_here ↦
          let step : pfifo_from (suc n) from s ≡ pfifo_from n (from + 1) s = ground arith in
          subst (FirstServed s from) (sym step) (
            empty_first s from (pfifo_from n (from + 1) s) pq at none_here
              (pfifo_from-FirstServed n (from + 1) s v (omega arith)))
      | inr (rb, rest, front) ↦
          let new = popped pq rb rest in
          let t = record s { queues = set s.queues from new } in
          record {
            outcome = inr (
              from,
              rb,
              t,
              ground (arith, front_fits s from pq rb rest v at front),
              set-Serves s t from pq new rb rest v within at front refl refl refl refl,
              omega arith,
              λ i lo hi. absurd (omega arith),
            );
          }
    ]

-- A priority scheduler with right lengths never fails its assertion. It takes the front of the
-- queue of the first class that has a PDU, leaves the other queues, and its lengths are again
-- right; it gives nothing, and changes nothing, only if all the queues are empty.
pub sched_pfifo_deq-FirstServed : (s : RlSched) → IsCounted s → FirstServed s 0 (sched_pfifo_deq s)
unfolding sched_pfifo_deq
sched_pfifo_deq-FirstServed s v = pfifo_from-FirstServed s.num_queues 0 s v (omega arith)
