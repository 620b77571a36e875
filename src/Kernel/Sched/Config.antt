-- ===== src/Kernel/Sched/Config.antt =====
-- The configuration of the PDU schedulers of kernel/normal.c.
use native.Mathlib.Nat.{mul_comm, mul_assoc, mul-le-mul_right}
use rlite.Base.{
  ℕ, zero, suc, ◌-◌, ◌*◌, ◌/◌, ◌%◌, ◌^◌, ◌≡◌, ◌≤◌, ◌<◌, inl, inr, refl, ap, sym, subst, ◌∙◌, min,
  some, List, [], ◌∷◌, arith, length, get_elem?, replicate, length-replicate,
}
use rlite.Kernel.Sched.{
  RlBuf, Queue, RlSched, as_credit, empty_queue, min_weight, norm_weight, wrr_queues,
  sched_wrr_do_config, sched_enq, sched_wrr_enq, sched_pfifo_do_config,
}
use rlite.Kernel.Sched.Queues.{total, IsCounted, sched_enq-Enqueues}
use rlite.Kernel.Sched.Rounds.{HasCredit}

quotient_bounds :
    (w least : ℕ)
    → 0 < least
    → least ≤ w
    → (2 ^ 20 ≤ w * 2 ^ 20 / least) × (w * 2 ^ 20 / least ≤ w * 2 ^ 20)
quotient_bounds w least pos le = (grind arith, grind arith)

product_bounds :
    (a w quantum : ℕ)
    → 2 ^ 20 ≤ a
    → a ≤ w * 2 ^ 20
    → (2 ^ 20 * quantum ≤ a * quantum) × (a * quantum ≤ 2 ^ 20 * (w * quantum))
product_bounds a w quantum lo hi =
    let scaled : w * 2 ^ 20 * quantum ≡ 2 ^ 20 * (w * quantum) =
      ap (λ k. k * quantum) (mul_comm w (2 ^ 20)) ∙ mul_assoc (2 ^ 20) w quantum in
    (mul-le-mul_right quantum lo, subst (λ k. a * quantum ≤ k) scaled (mul-le-mul_right quantum hi))

le-mul_pos : (w quantum : ℕ) → 0 < quantum → w ≤ w * quantum
le-mul_pos w quantum h = grind arith

-- A weight that, times the quantum, fits a signed integer is not 0 after it was normalised, and fits
-- one as well.
norm_weight_bounds :
    (w least quantum : ℕ)
    → 0 < least
    → least ≤ w
    → 0 < quantum
    → w * quantum < 2 ^ 31
    → (0 < norm_weight w least quantum) × (norm_weight w least quantum < 2 ^ 31)
unfolding norm_weight
norm_weight_bounds w least quantum pos le q small =
    let whole : w * 2 ^ 20 % 2 ^ 64 ≡ w * 2 ^ 20 = omega (arith, le-mul_pos w quantum q) in
    let a = w * 2 ^ 20 / least in
    let (lo, hi) = quotient_bounds w least pos le in
    let (lo', hi') = product_bounds a w quantum lo hi in rw whole (omega arith, omega arith)

-- Weights that, times the quantum, fit a signed integer.
abbrev pub AllSmall : ℕ → List ℕ → Type 0
AllSmall quantum [] = Unit {0}
AllSmall quantum (w ∷ ws) = (w * quantum < 2 ^ 31) × AllSmall quantum ws

length-wrr_queues :
    (least quantum : ℕ) (ws : List ℕ) → length (wrr_queues ws least quantum) ≡ length ws
unfolding wrr_queues
length-wrr_queues least quantum [] = refl
length-wrr_queues least quantum (w ∷ ws) = ap suc (length-wrr_queues least quantum ws)

module _ (least quantum : ℕ) (pos : 0 < least) (q : 0 < quantum) where
  wrr_queues-fresh :
      (ws : List ℕ) (i : ℕ) (pq : Queue)
      → least ≤ min_weight ws
      → AllSmall quantum ws
      → get_elem? (wrr_queues ws least quantum) i ≡ some pq
      → (pq.q ≡ []) × (pq.qlen ≡ 0) × (0 < pq.credit) × (0 < as_credit pq.weight)
  unfolding wrr_queues min_weight
  wrr_queues-fresh [] i pq le small at = ground arith
  wrr_queues-fresh (w ∷ ws) zero pq le small at =
      ground (arith, norm_weight_bounds w least quantum pos (omega arith) q small.0)
  wrr_queues-fresh (w ∷ ws) (suc i) pq le small at =
      wrr_queues-fresh ws i pq (omega arith) small.1 at

-- A weighted round robin that is ready to run: right lengths, credit, and a turn.
pub record IsReady (s : RlSched) : Type 0 where
  pub counted : IsCounted s
  pub credit : HasCredit s
  pub turn : s.cur_class < s.num_queues

-- A configuration with a queue length, a quantum and weights, of at least 1, that fit a signed
-- integer times the quantum, makes a weighted round robin with right lengths and credit for all its
-- classes, one for each weight.
pub sched_wrr_do_config-IsReady :
    (max_queue_size quantum : ℕ) (ws : List ℕ) (s : RlSched)
    → 0 < max_queue_size
    → 0 < quantum
    → 0 < length ws
    → 0 < min_weight ws
    → AllSmall quantum ws
    → (t : RlSched) × (sched_wrr_do_config max_queue_size quantum ws s ≡ some t)
      × IsReady t
      × (t.num_queues ≡ length ws)
unfolding sched_wrr_do_config
sched_wrr_do_config-IsReady max_queue_size quantum ws s room q some_queue pos small =
    let least = min_weight ws in
    let fresh = wrr_queues-fresh least quantum pos q ws in
    let t = record s {
      max_queue_size = max_queue_size;
      num_queues = length ws;
      quantum = quantum;
      queues = wrr_queues ws least quantum;
      cur_class = 0;
    } in
    (
      t,
      ground arith,
      record {
        counted = record {
          sized = sym (length-wrr_queues least quantum ws);
          some_queue = some_queue;
          lengths = λ i pq at.
              let new = fresh i pq (omega arith) small at in new.1 ∙ ap total (sym new.0);
        };
        credit = record {
          credits = λ i pq at. let new = fresh i pq (omega arith) small at in (new.2, new.3);
        };
        turn = some_queue;
      },
      refl,
    )

sched_enq-turn :
    (rb : RlBuf) (s u : RlSched)
    → sched_enq rb s ≡ some u
    → (u.num_queues ≡ s.num_queues) × (u.cur_class ≡ s.cur_class)
unfolding sched_enq
sched_enq-turn rb s u h = ground arith

replicate-fresh :
    (n i : ℕ) (pq : Queue)
    → get_elem? (replicate n (empty_queue 0 0)) i ≡ some pq
    → pq.qlen ≡ total pq.q
replicate-fresh zero i pq h = ground arith
replicate-fresh (suc n) zero pq h = ground arith
replicate-fresh (suc n) (suc i) pq h = replicate-fresh n i pq h

-- A PDU that is queued leaves the right lengths, the credit of all classes and the turn of a
-- weighted round robin as they have to be.
pub sched_wrr_enq-IsReady :
    (rb : RlBuf) (s t : RlSched) → IsReady s → sched_wrr_enq rb s ≡ some t → IsReady t
unfolding sched_wrr_enq
sched_wrr_enq-IsReady rb s t r h =
    let e = sched_enq-Enqueues s rb r.counted in
    let c = min (s.num_queues - 1) rb.qos_id in
    elim e.outcome [
      | inl (full, none_left) ↦ absurd (ground arith)
      | inr (room, u, gives, counted, queues) ↦
          let same : u ≡ t = ground arith in
          let kept : (u.num_queues ≡ s.num_queues) × (u.cur_class ≡ s.cur_class) =
            sched_enq-turn rb s u gives in
          subst IsReady same (record {
            counted = counted;
            credit = record {
              credits = λ i pq at.
                  ground (
                    arith,
                    queues i,
                    r.credit.credits i pq,
                    r.credit.credits c e.old e.class_queue,
                  );
            };
            turn = omega (arith, r.turn);
          })
    ]

pub sched_pfifo_do_config-IsCounted :
    (max_queue_size num_queues : ℕ) (s : RlSched)
    → 0 < max_queue_size
    → 0 < num_queues
    → (t : RlSched) × (sched_pfifo_do_config max_queue_size num_queues s ≡ some t)
      × IsCounted t
      × (t.num_queues ≡ num_queues)
unfolding sched_pfifo_do_config
sched_pfifo_do_config-IsCounted max_queue_size num_queues s room some_queue = (
  record s {
    max_queue_size = max_queue_size;
    num_queues = num_queues;
    queues = replicate num_queues (empty_queue 0 0);
  },
  ground arith,
  record {
    sized = sym (length-replicate num_queues (empty_queue 0 0));
    some_queue = some_queue;
    lengths = λ i pq at. replicate-fresh num_queues i pq at;
  },
  refl,
)
