-- ===== src/Kernel/Efcp/Complete.antt =====
-- What a receiver of kernel/normal.c has got after a run: with retransmission, all that arrived.
use rlite.Base.{
  ◌%◌, none, subst, ℕ, ◌+◌, ◌-◌, ◌^◌, ◌≡◌, ◌<◌, ◌≤◌, ◌⊎◌, inl, inr, sym, Bool, true, false, List,
  [], ◌∷◌, ◌++◌, arith, length, All,
}
use native.Mathlib.Decide.{dec_lt}
use rlite.Kernel.Seqq.{Pdu, Receiver, seqq_push, seqq_pop_many}
use rlite.Kernel.Seqq.Order.{Ascends, Consecutive, Has, seqq_push-Pushes, seqq_pop_many-Delivers}
use rlite.Kernel.Efcp.Types.{Config, Dtp}
use rlite.Kernel.Efcp.Receive.{sdu_rx_data, rl_normal_sdu_rx_consumed, a_tmr_cb}
use rlite.Kernel.Efcp.Arrivals.{
  sdu_rx_sv_update-SameQueue, pdus, past, Arrival, sdu_rx_data-Arrives,
}
use rlite.Kernel.Efcp.InOrder.{IsGapped, past-IsQueue, seqq_push-next}
use rlite.Kernel.Efcp.Runs.{
  Event, receive, receive_all, IsPlain, IsReceiver, receive-InOrder, receive_all-InOrder,
}

Has-split : (n : ℕ) (xs ys : List Pdu) → Has n (xs ++ ys) → Has n xs ⊎ Has n ys
Has-split n [] ys h = inr h
Has-split n (x ∷ xs) ys (inl same) = inl (inl same)
Has-split n (x ∷ xs) ys (inr later) = elim (Has-split n xs ys later) [
  | inl front ↦ inl (inr front)
  | inr back ↦ inr back
]

Has-insert :
    (n : ℕ) (rb : Pdu) (xs ys : List Pdu)
    → (rb.seqnum ≡ n) ⊎ Has n (xs ++ ys)
    → Has n (xs ++ rb ∷ ys)
Has-insert n rb [] ys h = h
Has-insert n rb (x ∷ xs) ys (inl same) = inr (Has-insert n rb xs ys (inl same))
Has-insert n rb (x ∷ xs) ys (inr (inl here)) = inl here
Has-insert n rb (x ∷ xs) ys (inr (inr later)) = inr (Has-insert n rb xs ys (inr later))

Consecutive-Has : (n k : ℕ) (ps : List Pdu) → Consecutive n ps → Has k ps → k < n + length ps
Consecutive-Has n k [] h no_place = elim no_place [ ]
Consecutive-Has n k (p ∷ ps) h (inl same) = omega (arith, h.0)
Consecutive-Has n k (p ∷ ps) h (inr later) = omega (arith, Consecutive-Has (n + 1) k ps h.1 later)

-- Below a number.
abbrev pub Under : ℕ → Pdu → Type 0
Under m p = p.seqnum < m

Ascends-length : (n m : ℕ) (ps : List Pdu) → Ascends n ps → All (Under m) ps → length ps ≤ m - n
Ascends-length n m [] h k = omega arith
Ascends-length n m (p ∷ ps) h k =
    omega (arith, h.0, k.0, Ascends-length (p.seqnum + 1) m ps h.2 k.1)

Ascends-above : (n k : ℕ) (ps : List Pdu) → Ascends n ps → Has k ps → n ≤ k
Ascends-above n k [] h no_place = elim no_place [ ]
Ascends-above n k (p ∷ ps) h (inl same) = omega (arith, h.0)
Ascends-above n k (p ∷ ps) h (inr later) =
    omega (arith, h.0, Ascends-above (p.seqnum + 1) k ps h.2 later)

-- The number was delivered, or waits.
abbrev pub Got : ℕ → Receiver → Type 0
Got n q = (n < q.rcv_next_seq_num) ⊎ Has n q.seqq

-- Numbers that are less than 64 after the next expected one all find room.
seqq_push-Got :
    (m : ℕ) (rb : Pdu) (q : Receiver) (n : ℕ)
    → IsGapped q
    → q.rcv_next_seq_num < rb.seqnum
    → rb.seqnum + 1 < 2 ^ 32
    → All (Under m) q.seqq
    → m ≤ q.rcv_next_seq_num + 64
    → Got n q ⊎ (rb.seqnum ≡ n)
    → Got n (seqq_push rb q)
seqq_push-Got m rb q n v after small under room (inl (inl before)) =
    inl (omega (arith, seqq_push-next rb q))
seqq_push-Got m rb q n v after small under room (inl (inr waits)) =
    elim (seqq_push-Pushes rb q v.queue (omega arith) small).outcome [
      | inl ((xs, ys, old, new), counted) ↦
          inr (subst (Has n) (sym new) (Has-insert n rb xs ys (inr (subst (Has n) old waits))))
      | inr (same, counted, why) ↦ inr (subst (Has n) (sym same) waits)
    ]
seqq_push-Got m rb q n v after small under room (inr this) =
    elim (seqq_push-Pushes rb q v.queue (omega arith) small).outcome [
      | inl ((xs, ys, old, new), counted) ↦
          inr (subst (Has n) (sym new) (Has-insert n rb xs ys (inl this)))
      | inr (same, counted, inl full) ↦
          let few = Ascends-length (q.rcv_next_seq_num + 1) m q.seqq v.gap under in
          absurd (omega (arith, few, v.queue.counted))
      | inr (same, counted, inr there) ↦
          inr (subst (Has n) (sym same) (subst (λ k. Has k q.seqq) this there))
    ]

Arrival-Got :
    (m : ℕ) (rtx_ctrl : Bool) (rb : Pdu) (q : Receiver) (us : List Pdu) (t : Receiver) (n : ℕ)
    → Arrival rtx_ctrl rb q us t
    → rtx_ctrl ≡ true
    → IsGapped q
    → rb.seqnum + 1 < 2 ^ 32
    → All (Under m) q.seqq
    → m ≤ q.rcv_next_seq_num + 64
    → Got n q ⊎ (rb.seqnum ≡ n)
    → Got n t
Arrival-Got m rtx_ctrl rb q us t n (Arrival.duplicate before) reliable v small under room
      (inl got) =
    got
Arrival-Got m rtx_ctrl rb q us t n (Arrival.duplicate before) reliable v small under room
      (inr this) =
    inl (omega arith)
Arrival-Got m rtx_ctrl rb q us t n (Arrival.dropped after unreliable) reliable v small under room
      h =
    absurd (ground arith)
Arrival-Got m rtx_ctrl rb q us t n (Arrival.queued after) reliable v small under room h =
    seqq_push-Got m rb q n v after small under room h
Arrival-Got m rtx_ctrl rb q us t n (Arrival.delivered same) reliable v small under room h =
    let delivers = seqq_pop_many-Delivers (past rb q) (past-IsQueue rb q v same) in
    let popped = seqq_pop_many 0 (past rb q) in
    elim h [
      | inl (inl before) ↦ inl (omega (arith, delivers.next))
      | inl (inr waits) ↦
          elim (Has-split n popped.0 popped.1.seqq (subst (Has n) (sym delivers.all) waits)) [
            | inl up ↦
                let below = Consecutive-Has (rb.seqnum + 1) n popped.0 delivers.consecutive up in
                inl (omega (arith, delivers.next))
            | inr stays ↦ inr stays
          ]
      | inr this ↦ inl (omega (arith, delivers.next))
    ]

abbrev pub arrived : List Event → List Pdu
arrived [] = []
arrived (Event.arrives env rb ∷ es) = rb ∷ arrived es
arrived (Event.consumed env seqnum ∷ es) = arrived es
arrived (Event.a_expires env ∷ es) = arrived es
arrived (Event.inactive ∷ es) = arrived es

first_or_later :
    {A : Type 0} (e : Event) (es : List Event) (n : ℕ)
    → A ⊎ Has n (arrived (e ∷ es))
    → (A ⊎ Has n (arrived (e ∷ []))) ⊎ Has n (arrived es)
first_or_later e es n (inl a) = inl (inl a)
first_or_later (Event.arrives env rb) es n (inr (inl this)) = inl (inr (inl this))
first_or_later (Event.arrives env rb) es n (inr (inr later)) = inr later
first_or_later (Event.consumed env seqnum) es n (inr later) = inr later
first_or_later (Event.a_expires env) es n (inr later) = inr later
first_or_later Event.inactive es n (inr later) = inr later

module _ (cfg : Config) (m : ℕ) where
  receive-Got :
      (e : Event) (d : Dtp) (n : ℕ)
      → cfg.max_sdu_gap ≡ 0
      → cfg.dtcp.rtx_ctrl ≡ true
      → IsPlain (Under m) e
      → IsReceiver (Under m) d
      → m ≤ d.rcv.q.rcv_next_seq_num + 64
      → Got n d.rcv.q ⊎ Has n (arrived (e ∷ []))
      → Got n (receive cfg e d).1.rcv.q
  unfolding rl_normal_sdu_rx_consumed a_tmr_cb
  receive-Got (Event.arrives env rb) d n strict reliable (plain, small, under) v room h =
      let (arrival, begun) = sdu_rx_data-Arrives env cfg rb d strict v.begun plain small in
      Arrival-Got m cfg.dtcp.rtx_ctrl rb d.rcv.q (pdus (sdu_rx_data env cfg rb d).up)
        (sdu_rx_data env cfg rb d).dtp.rcv.q n arrival reliable v.queue small v.waiting room
        (elim h [
          | inl got ↦ inl got
          | inr (inl this) ↦ inr this
          | inr (inr nothing) ↦ absurd nothing
        ])
  receive-Got (Event.consumed env seqnum) d n strict reliable plain v room (inl got) =
      let same =
        sdu_rx_sv_update-SameQueue env cfg false
          (record d { rcv = record d.rcv { rcv_lwe = (seqnum + 1) % 2 ^ 64 } }) in
      subst (Got n) (sym same.0) got
  receive-Got (Event.a_expires env) d n strict reliable plain v room (inl got) =
      let same =
        sdu_rx_sv_update-SameQueue env cfg true
          (record d { rcv = record d.rcv { a_tmr = none } }) in
      subst (Got n) (sym same.0) got
  receive-Got (Event.consumed env seqnum) d n strict reliable plain v room (inr nothing) =
      elim nothing [ ]
  receive-Got (Event.a_expires env) d n strict reliable plain v room (inr nothing) =
      elim nothing [ ]
  receive-Got Event.inactive d n strict reliable never v room h = absurd never

  receive_all-Got :
      (es : List Event) (d : Dtp) (n : ℕ)
      → cfg.max_sdu_gap ≡ 0
      → cfg.dtcp.rtx_ctrl ≡ true
      → All (IsPlain (Under m)) es
      → IsReceiver (Under m) d
      → m ≤ d.rcv.q.rcv_next_seq_num + 64
      → Got n d.rcv.q ⊎ Has n (arrived es)
      → Got n (receive_all cfg es d).1.rcv.q
  unfolding receive_all
  receive_all-Got [] d n strict reliable plain v room (inl got) = got
  receive_all-Got [] d n strict reliable plain v room (inr nothing) = elim nothing [ ]
  receive_all-Got (e ∷ es) d n strict reliable (plain, plains) v room h =
      let first = receive-InOrder (Under m) cfg e d strict plain v in
      let after = (receive cfg e d).1 in
      receive_all-Got es after n strict reliable plains first.receiver (omega (arith, first.next))
        (elim (first_or_later e es n h) [
          | inl now ↦ inl (receive-Got e d n strict reliable plain v room now)
          | inr later ↦ inr later
        ])

-- The numbers of a list that are consecutive and below another.
Consecutive-Under :
    (n m : ℕ) (ps : List Pdu) → n ≤ m → Consecutive n ps → All (Under m) ps → n + length ps ≤ m
Consecutive-Under n m [] le h k = omega arith
Consecutive-Under n m (p ∷ ps) le h k =
    omega (arith, h.0, k.0, Consecutive-Under (n + 1) m ps (omega (arith, h.0, k.0)) h.1 k.1)

-- A receiver in a run, on a flow with retransmission and no gap tolerated, gets PDUs of the next k
-- numbers and older ones, k at most 64, without the DRF flag and with numbers below the last of 32
-- bits, in any order and with repetitions, among reads and expiries of the A timer; its inactivity
-- timer does not expire. If each of the k numbers arrives or was waiting, all k are handed to the
-- user's queue, in order.
pub receive_all-Delivered :
    (cfg : Config) (k : ℕ) (es : List Event) (d : Dtp)
    → cfg.max_sdu_gap ≡ 0
    → cfg.dtcp.rtx_ctrl ≡ true
    → k ≤ 64
    → IsReceiver (Under (d.rcv.q.rcv_next_seq_num + k)) d
    → All (IsPlain (Under (d.rcv.q.rcv_next_seq_num + k))) es
    → ((n : ℕ) → n < d.rcv.q.rcv_next_seq_num + k → Got n d.rcv.q ⊎ Has n (arrived es))
    → Consecutive d.rcv.q.rcv_next_seq_num (receive_all cfg es d).0
      × (length (receive_all cfg es d).0 ≡ k)
receive_all-Delivered cfg k es d strict reliable small v plain covered =
    let m = d.rcv.q.rcv_next_seq_num + k in
    let r = receive_all-InOrder (Under m) cfg es d strict plain v in
    let most =
      Consecutive-Under d.rcv.q.rcv_next_seq_num m (receive_all cfg es d).0 (omega arith)
        r.consecutive r.delivered in
    let next = (receive_all cfg es d).1.rcv.q.rcv_next_seq_num in
    let all : m ≤ next = elim (dec_lt next m) [
      | no reached ↦ omega arith
      | yes short ↦
          let got =
            receive_all-Got cfg m es d next strict reliable plain v (omega arith)
              (covered next short) in
          elim got [
            | inl below ↦ absurd (omega arith)
            | inr waits ↦ absurd (
                omega (
                  arith,
                  Ascends-above (next + 1) next (receive_all cfg es d).1.rcv.q.seqq
                      r.receiver.queue.gap waits,
                ))
          ]
    ] in
    (r.consecutive, omega (arith, r.next))
