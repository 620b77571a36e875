-- ===== src/Kernel/Sched/Queues.antt =====
-- The queues of the PDU schedulers of kernel/normal.c: their lengths, and what `enq` adds.
use rlite.Base.{
  ℕ, zero, suc, ◌+◌, ◌-◌, ◌≡◌, ◌≤◌, ◌<◌, ◌⊎◌, inl, inr, refl, ap, ◌∙◌, min, Option, none, some,
  List, [], ◌∷◌, ◌++◌, arith, ltb, ◌==◌, if◌then◌else◌, length, get_elem?, get_elem?-none,
  Bool-cases, Option-cases,
}
use rlite.Kernel.Sched.{RlBuf, Queue, RlSched, set, qos_class_of, push, sched_enq}

abbrev pub total : List RlBuf → ℕ
total [] = 0
total (rb ∷ rest) = rb.truesize + total rest

total-append : (xs : List RlBuf) (rb : RlBuf) → total (xs ++ rb ∷ []) ≡ total xs + rb.truesize
total-append [] rb = omega arith
total-append (x ∷ xs) rb = omega (arith, total-append xs rb)

-- The array has its queues, of which there is one at least, and their lengths are right.
pub record IsCounted (s : RlSched) : Type 0 where
  pub sized : s.num_queues ≡ length s.queues
  pub some_queue : 0 < s.num_queues
  pub lengths : (i : ℕ) (pq : Queue) → get_elem? s.queues i ≡ some pq → pq.qlen ≡ total pq.q

pub get_elem?-set :
    (xs : List Queue) (i j : ℕ) (v : Queue)
    → i < length xs
    → get_elem? (set xs i v) j ≡ (if i == j then some v else get_elem? xs j)
unfolding set
get_elem?-set [] i j v h = elim h [ ]
get_elem?-set (x ∷ xs) zero zero v h = refl
get_elem?-set (x ∷ xs) zero (suc j) v h = ground arith
get_elem?-set (x ∷ xs) (suc i) zero v h = ground arith
get_elem?-set (x ∷ xs) (suc i) (suc j) v h = get_elem?-set xs i j v (omega arith) ∙ ground arith

pub length-set : (xs : List Queue) (i : ℕ) (v : Queue) → length (set xs i v) ≡ length xs
unfolding set
length-set [] i v = refl
length-set (x ∷ xs) zero v = refl
length-set (x ∷ xs) (suc i) v = ap suc (length-set xs i v)

pub bufs-cases :
    (xs : List RlBuf) → (xs ≡ []) ⊎ ((rb : RlBuf) × (rest : List RlBuf) × (xs ≡ rb ∷ rest))
bufs-cases [] = inl refl
bufs-cases (rb ∷ rest) = inr (rb, rest, refl)

pub queue_at :
    (s : RlSched) (i : ℕ) → i < length s.queues → (pq : Queue) × (get_elem? s.queues i ≡ some pq)
queue_at s i h = elim (Option-cases (get_elem? s.queues i)) [
  | inl e ↦ absurd (omega (arith, get_elem?-none s.queues i e))
  | inr found ↦ found
]

-- A state in which one queue is another one.
pub set-IsCounted :
    (s t : RlSched) (i : ℕ) (v : Queue)
    → IsCounted s
    → i < length s.queues
    → v.qlen ≡ total v.q
    → t.queues ≡ set s.queues i v
    → t.num_queues ≡ s.num_queues
    → IsCounted t
set-IsCounted s t i v c within right queues same = record {
  sized = omega (arith, c.sized, ap length queues, length-set s.queues i v);
  some_queue = omega (arith, c.some_queue);
  lengths = λ j pq at. ground (arith, get_elem?-set s.queues i j v within, c.lengths j pq);
}

-- What `enq` does with a PDU of the class `c`.
pub record Enqueues (s : RlSched) (rb : RlBuf) (c : ℕ) (result : Option RlSched) : Type 0 where
  pub old : Queue
  pub class_queue : get_elem? s.queues c ≡ some old
  pub outcome :
      ((s.max_queue_size < old.qlen) × (result ≡ none))
      ⊎ ((old.qlen ≤ s.max_queue_size)
          × (t : RlSched) × (result ≡ some t)
          × IsCounted t
          × ((j : ℕ)
              → get_elem? t.queues j
                ≡ (if c == j then some (push old rb) else get_elem? s.queues j)))

-- In a scheduler with right lengths, a PDU is refused exactly when the queue of its class is longer
-- than the limit, the class being the last one if its QoS identifier is higher; otherwise it goes
-- to the end of that queue, the other queues stay, and the lengths are again right.
pub sched_enq-Enqueues :
    (s : RlSched) (rb : RlBuf)
    → IsCounted s
    → Enqueues s rb (min (s.num_queues - 1) rb.qos_id) (sched_enq rb s)
unfolding sched_enq
sched_enq-Enqueues s rb v =
    let c = qos_class_of s rb in
    let within : c < length s.queues = omega (arith, v.sized, v.some_queue) in
    let (pq, at) = queue_at s c within in
    let t = record s { queues = set s.queues c (push pq rb) } in
    record {
      old = pq;
      class_queue = at;
      outcome = elim (Bool-cases (ltb s.max_queue_size pq.qlen)) [
        | inl full ↦ inl (ground arith, ground arith)
        | inr room ↦ inr (
          ground arith,
          t,
          ground arith,
          set-IsCounted s t c (push pq rb) v within
              (omega (arith, v.lengths c pq at, total-append pq.q rb)) refl refl,
          λ j. get_elem?-set s.queues c j (push pq rb) within,
        )
      ];
    }
