-- ===== src/Kernel/Sched.antt =====
-- The PDU schedulers of kernel/normal.c: strict priorities (`pfifo`) and weighted round robin (`wrr`).
pub mod Queues
pub mod Priorities
pub mod Rounds
pub mod Config
mod Tests
use rlite.Base.{
  ℕ, zero, suc, ◌+◌, ◌-◌, ◌*◌, ◌/◌, ◌%◌, ◌^◌, min, Bool, true, false, Option, none, some, List, [],
  ◌∷◌, ◌++◌, ltb, leb, ◌==◌, ◌||◌, ◌&&◌, if◌then◌else◌, length, get_elem?, replicate,
}

-- What the schedulers read of a `struct rl_buf`.
pub record RlBuf : Type 0 where
  pub qos_id : ℕ
  pub len : ℕ
  pub truesize : ℕ

-- `struct rl_sched_pfifo_queue`, and the two more fields of `struct rl_sched_wrr_queue`. A credit that
-- is not above 0 stands as 0: no operation tells it from another one.
pub record Queue : Type 0 where
  pub q : List RlBuf
  pub qlen : ℕ
  pub weight : ℕ
  pub credit : ℕ

abbrev pub empty_queue : ℕ → ℕ → Queue
empty_queue weight credit = record { q = []; qlen = 0; weight = weight; credit = credit }

-- `struct rl_sched_pfifo` and `struct rl_sched_wrr`: the array, of `num_queues` queues, as a list.
pub record RlSched : Type 0 where
  pub queues : List Queue
  pub max_queue_size : ℕ
  pub num_queues : ℕ
  pub quantum : ℕ
  pub cur_class : ℕ

-- What `deq` gives: NULL, a PDU, or a failed `BUG_ON`.
pub data Dequeued : Type 0 where
  nothing : RlSched → Dequeued
  pdu : RlBuf → RlSched → Dequeued
  bug : Dequeued

-- Writes out of the array do not happen while `num_queues` is its length.
unfoldable pub set : List Queue → ℕ → Queue → List Queue
set [] i v = []
set (x ∷ xs) zero v = v ∷ xs
set (x ∷ xs) (suc i) v = x ∷ set xs i v

-- The class of a PDU: the last one if its QoS identifier is too high.
abbrev pub qos_class_of : RlSched → RlBuf → ℕ
qos_class_of s rb = min (s.num_queues - 1) rb.qos_id

abbrev pub push : Queue → RlBuf → Queue
push pq rb = record pq { q = pq.q ++ rb ∷ []; qlen = pq.qlen + rb.truesize }

-- `sched_pfifo_enq`, and `sched_wrr_enq`, which has the same body: `none` is the result -1.
unfoldable pub sched_enq : RlBuf → RlSched → Option RlSched
unfolding set
sched_enq rb s = elim (get_elem? s.queues (qos_class_of s rb)) [
  | none ↦ none
  | some pq ↦
      if ltb s.max_queue_size pq.qlen
      then none
      else some (record s { queues = set s.queues (qos_class_of s rb) (push pq rb) })
]

-- The front of a list taken out, if the length allows it.
abbrev pub popped : Queue → RlBuf → List RlBuf → Queue
popped pq rb rest = record pq { q = rest; qlen = pq.qlen - rb.truesize }

-- The loop of `sched_pfifo_deq`, from the class `qos_class` on, over `n` classes.
unfoldable pub pfifo_from : ℕ → ℕ → RlSched → Dequeued
pfifo_from zero qos_class s = nothing s
pfifo_from (suc n) qos_class s = elim (get_elem? s.queues qos_class) [
  | none ↦ bug
  | some pq ↦ elim pq.q [
    | [] ↦ pfifo_from n (qos_class + 1) s
    | rb ∷ rest ↦
        if ltb pq.qlen rb.truesize
        then bug
        else pdu rb (record s { queues = set s.queues qos_class (popped pq rb rest) })
  ]
]

unfoldable pub sched_pfifo_deq : RlSched → Dequeued
sched_pfifo_deq s = pfifo_from s.num_queues 0 s

-- `sched_pfifo_do_config`; `fini`, which it calls, frees the old queues.
unfoldable pub sched_pfifo_do_config : ℕ → ℕ → RlSched → Option RlSched
sched_pfifo_do_config max_queue_size num_queues s =
    if num_queues == 0 || max_queue_size == 0
    then none
    else some (record s {
      max_queue_size = max_queue_size;
      num_queues = num_queues;
      queues = replicate num_queues (empty_queue 0 0);
    })

unfoldable pub sched_next_class : ℕ → ℕ → ℕ
sched_next_class qos_class num_classes = if qos_class + 1 == num_classes then 0 else qos_class + 1

-- An `unsigned int` as a credit, which is signed.
abbrev pub as_credit : ℕ → ℕ
as_credit w = if ltb w (2 ^ 31) then w else 0

-- A PDU taken out of a class with credit: the credit falls by the length of the PDU, and is loaded
-- again when it is used up.
abbrev pub charged : Queue → RlBuf → List RlBuf → Queue
charged wrrq rb rest = record (popped wrrq rb rest) {
  credit = if leb wrrq.credit rb.len then as_credit wrrq.weight else wrrq.credit - rb.len;
}

abbrev pub class_after : Queue → RlBuf → ℕ → ℕ → ℕ
class_after wrrq rb qos_class num_queues =
    if leb wrrq.credit rb.len then sched_next_class qos_class num_queues else qos_class

abbrev pub take_pdu : Queue → RlBuf → List RlBuf → ℕ → RlSched → Dequeued
take_pdu wrrq rb rest qos_class s =
    if ltb wrrq.qlen rb.truesize
    then bug
    else pdu rb (record s {
      queues = set s.queues qos_class (charged wrrq rb rest);
      cur_class = class_after wrrq rb qos_class s.num_queues;
    })

-- The loop of `sched_wrr_deq`, with `n` classes to go.
unfoldable pub wrr_from : ℕ → ℕ → RlSched → Dequeued
wrr_from zero qos_class s = nothing (record s { cur_class = qos_class })
wrr_from (suc n) qos_class s = elim (get_elem? s.queues qos_class) [
  | none ↦ bug
  | some wrrq ↦
      let next = wrr_from n (sched_next_class qos_class s.num_queues) s in
      elim wrrq.q [
        | [] ↦ next
        | rb ∷ rest ↦ if ltb 0 wrrq.credit then take_pdu wrrq rb rest qos_class s else next
      ]
]

unfoldable pub sched_wrr_deq : RlSched → Dequeued
sched_wrr_deq s = wrr_from s.num_queues s.cur_class s

unfoldable pub min_weight : List ℕ → ℕ
min_weight [] = 2 ^ 32 - 1
min_weight (w ∷ ws) = min w (min_weight ws)

-- `norm_weight`, in 64 bits, and what 32 of them hold.
unfoldable pub norm_weight : ℕ → ℕ → ℕ → ℕ
norm_weight weight least quantum =
    weight * 2 ^ 20 % 2 ^ 64 / least * quantum % 2 ^ 64 / 2 ^ 20 % 2 ^ 32

unfoldable pub wrr_queues : List ℕ → ℕ → ℕ → List Queue
wrr_queues [] least quantum = []
wrr_queues (w ∷ ws) least quantum =
    empty_queue (norm_weight w least quantum) (as_credit (norm_weight w least quantum))
    ∷ wrr_queues ws least quantum

-- `sched_wrr_do_config`, with an array of `num_queues` weights.
unfoldable pub sched_wrr_do_config : ℕ → ℕ → List ℕ → RlSched → Option RlSched
unfolding min_weight
sched_wrr_do_config max_queue_size quantum weights s =
    if quantum == 0 || length weights == 0 || max_queue_size == 0
    then none
    else if ltb (min_weight weights) 1
    then none
    else some (record s {
      max_queue_size = max_queue_size;
      num_queues = length weights;
      quantum = quantum;
      queues = wrr_queues weights (min_weight weights) quantum;
      cur_class = 0;
    })

abbrev pub rmtq_max_size : ℕ
rmtq_max_size = 2 ^ 17

unfoldable pub sched_pfifo_enq : RlBuf → RlSched → Option RlSched
sched_pfifo_enq rb s = sched_enq rb s

unfoldable pub sched_wrr_enq : RlBuf → RlSched → Option RlSched
sched_wrr_enq rb s = sched_enq rb s

unfoldable pub sched_pfifo_init : RlSched → Option RlSched
sched_pfifo_init s = sched_pfifo_do_config rmtq_max_size 1 s

unfoldable pub sched_wrr_init : RlSched → Option RlSched
sched_wrr_init s = sched_wrr_do_config rmtq_max_size 2000 (1 ∷ 4 ∷ []) s
