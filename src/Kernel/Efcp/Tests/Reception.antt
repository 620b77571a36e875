-- ===== src/Kernel/Efcp/Tests/Reception.antt =====
-- The receiver of the flow of the example, and the acknowledgement that its sender gets.
use rlite.Base.{
  IsIn, subst, ℕ, ◌+◌, ◌≡◌, ◌<◌, refl, ap, ◌∙◌, sym, inl, inr, ◌⊎◌, true, false, List, [], ◌∷◌,
  ◌++◌, arith, All, length, take,
}
use native.Mathlib.Decide.{dec_lt}
use rlite.Kernel.Seqq.{Pdu, seqq_push, seqq_pop_many, seqq_insert, pop_from}
use rlite.Kernel.Seqq.Order.{Consecutive, Has}
use rlite.Kernel.Efcp.Types.{Dtp, Snd}
use rlite.Kernel.Efcp.Receive.{
  sdu_rx_data, start_run, rx_duplicate, rx_new, rx_deliver, sdu_rx_sv_update, ctrl_pdu_alloc,
  ack_is_due, rl_normal_sdu_rx_consumed, a_tmr_cb,
}
use rlite.Kernel.Efcp.Runs.{Event, receive_all, IsPlain, IsReceiver, InOrder, receive_all-InOrder}
use rlite.Kernel.Efcp.Complete.{Under, Got, arrived, receive_all-Delivered}
use rlite.Kernel.Efcp.Sessions.{send_all}
use rlite.Kernel.Efcp.Transfer.{sdus, IsFromNetwork, transfer-IsPrefix}
use rlite.Kernel.Efcp.Tests.{
  reliable, reliable-IsReliable, at, begun, begun-ready, pdu_of, inputs, inputs-Works, inputs_sent,
}

-- A run that has begun with the number 0.
abbrev running : Dtp
running = record begun {
  rcv = record begun.rcv {
    drf_expected = false;
    max_seq_num_rcvd = 0;
    q = record begun.rcv.q { rcv_next_seq_num = 1 };
  };
}

-- The numbers 2 and 1 arrive, with a read, a timer, and 2 once more.
abbrev events : List Event
events =
    Event.arrives (at 3000) (pdu_of 2 67 false)
    ∷ Event.consumed (at 3001) 0
    ∷ Event.arrives (at 3002) (pdu_of 1 66 false)
    ∷ Event.a_expires (at 3003)
    ∷ Event.arrives (at 3004) (pdu_of 2 67 false)
    ∷ []

running-IsReceiver : (P : Pdu → Type 0) → IsReceiver P running
running-IsReceiver P = record {
  begun = refl;
  queue = record {
    queue = record { ordered = tt; counted = refl; bounded = omega arith };
    gap = tt;
  };
  waiting = tt;
}

events-IsPlain : All (IsPlain (Under 3)) events
events-IsPlain = (
  (refl, omega arith, omega arith),
  (tt, ((refl, omega arith, omega arith), (tt, ((refl, omega arith, omega arith), tt)))),
)

receive_all-InOrder_example : InOrder (Under 3) running (receive_all reliable events running)
receive_all-InOrder_example =
    receive_all-InOrder (Under 3) reliable events running refl events-IsPlain
      (running-IsReceiver (Under 3))

-- The numbers 1 and 2 arrive.
events_cover : (n : ℕ) → n < 1 + 2 → Got n running.rcv.q ⊎ Has n (arrived events)
events_cover n below = elim (dec_lt n 1) [
  | yes old ↦ inl (inl old)
  | no new ↦ elim (dec_lt n 2) [
    | yes one ↦ inr (inr (inl (omega arith)))
    | no two ↦ inr (inl (omega arith))
  ]
]

receive_all-Delivered_example :
    Consecutive 1 (receive_all reliable events running).0
    × (length (receive_all reliable events running).0 ≡ 2)
receive_all-Delivered_example =
    receive_all-Delivered reliable 2 events running refl refl (omega arith)
      (running-IsReceiver (Under 3)) events-IsPlain events_cover

abbrev first_arrival : Pdu
first_arrival = pdu_of 0 65 true

abbrev all_pdus : List Pdu
all_pdus =
    (pdu_of 0 65 true ∷ pdu_of 1 66 false ∷ pdu_of 2 67 false ∷ [])
    ++ (pdu_of 1 66 false ∷ pdu_of 2 67 false ∷ [])

all_sent :
    (send_all reliable inputs begun).sent ++ (send_all reliable inputs begun).resent ≡ all_pdus
all_sent =
    let r = send_all reliable inputs begun in
    let (sent, resent) = inputs_sent in
    ap (λ ps. ps ++ r.resent) sent
    ∙ ap (λ ps. (pdu_of 0 65 true ∷ pdu_of 1 66 false ∷ pdu_of 2 67 false ∷ []) ++ ps) resent

events-IsFromNetwork : All (IsFromNetwork (send_all reliable inputs begun)) events
events-IsFromNetwork =
    let two = subst (IsIn (pdu_of 2 67 false)) (sym all_sent) (inr (inr (inl refl))) in
    let one = subst (IsIn (pdu_of 1 66 false)) (sym all_sent) (inr (inl refl)) in
    (
      (two, λ e. absurd (omega (arith, e))),
      (
        tt,
        ((one, λ e. absurd (omega (arith, e))), (tt, ((two, λ e. absurd (omega (arith, e))), tt))),
      ),
    )

transfer-IsPrefix_example :
    sdus (receive_all reliable (Event.arrives (at 2999) first_arrival ∷ events) begun).0
    ≡ take
        (length (receive_all reliable (Event.arrives (at 2999) first_arrival ∷ events) begun).0)
        (send_all reliable inputs begun).accepts
transfer-IsPrefix_example =
    transfer-IsPrefix reliable inputs begun begun (at 2999) first_arrival events reliable-IsReliable
      refl begun-ready.0 begun-ready.1 inputs-Works (omega arith)
      (subst (IsIn first_arrival) (sym all_sent) (inl refl)) refl events-IsFromNetwork

all_delivered :
    sdus (receive_all reliable (Event.arrives (at 2999) first_arrival ∷ events) begun).0
    ≡ (65 ∷ []) ∷ (66 ∷ []) ∷ (67 ∷ []) ∷ []
unfolding receive_all sdu_rx_data start_run rx_duplicate rx_new rx_deliver sdu_rx_sv_update
    ctrl_pdu_alloc ack_is_due rl_normal_sdu_rx_consumed a_tmr_cb seqq_push seqq_insert seqq_pop_many
    pop_from
all_delivered = refl

-- A second copy of the first PDU starts a new run: the first PDU is delivered once more.
first_again :
    sdus
      (receive_all reliable
        (Event.arrives (at 2999) first_arrival ∷ Event.arrives (at 3100) first_arrival ∷ [])
        begun).0
    ≡ (65 ∷ []) ∷ (65 ∷ []) ∷ []
unfolding receive_all sdu_rx_data start_run sdu_rx_sv_update ctrl_pdu_alloc ack_is_due
first_again = refl

-- The numbers 0 and 1 are kept for retransmission.
abbrev keeping : Snd
keeping = record begun.snd {
  rtxq =
      record { pdu = pdu_of 0 65 true; rtx_jiffies = 1102; jiffies = 1000 }
      ∷ record { pdu = pdu_of 1 66 false; rtx_jiffies = 1103; jiffies = 1001 }
      ∷ [];
  rtxq_len = 2;
}
