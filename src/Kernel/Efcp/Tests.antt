-- ===== src/Kernel/Efcp/Tests.antt =====
-- A reliable flow of kernel/normal.c at concrete inputs: three writes into a window of two PDUs.
mod Reception
use rlite.Base.{
  subst, ℕ, ◌≡◌, ◌≢◌, refl, sym, inl, inr, Bool, true, false, none, some, List, [], ◌∷◌, ◌++◌,
  arith, ltb, All, length, take, ◌<◌,
}
use rlite.Kernel.Seqq.{Pdu, Receiver, seqq_push, seqq_pop_many, seqq_insert, pop_from}
use rlite.Kernel.Seqq.Order.{Ascends, Consecutive, IsQueue}
use rlite.Kernel.Efcp.Types.{Config, DtcpConfig, FcType, Env, Rtx, Snd, Rcv, Dtp, CtrlPdu}
use rlite.Kernel.Efcp.Send.{
  Sdu, WriteResult, rtt_to_rtx, rl_rtxq_push, flow_blocked, hand_over, send_now, write_shaped,
}
use rlite.Kernel.Efcp.Control.{
  pop_one, pop_cwq, flow_control, update_rtt, ack_rtxq, acknowledge, ctrl_new, is_duplicate,
  sdu_rx_ctrl,
}
use rlite.Kernel.Efcp.Timers.{
  earliest, is_expired, postpone, scan_rtxq, rtx_tmr_cb, snd_inact_tmr_cb, dtp_snd_reset,
  is_valid_rtx, granted_bandwidth, refill_interval, rl_normal_flow_init,
}
use rlite.Kernel.Efcp.Receive.{dtp_rcv_reset}
use rlite.Kernel.Efcp.Runs.{Event, receive_all, IsPlain, IsReceiver, InOrder, receive_all-InOrder}
use rlite.Kernel.Efcp.Complete.{Under, Got, arrived, receive_all-Delivered}
use rlite.Kernel.Efcp.InOrder.{IsGapped}
use rlite.Kernel.Efcp.Opening.{kept_pdus}
use rlite.Kernel.Efcp.Acks.{Frees, acknowledge-Frees}
use rlite.Kernel.Efcp.Window.{IsReliable, IsSender}
use rlite.Kernel.Efcp.Sessions.{Input, Sends, join, send_all, Works, HasSent, send_all-HasSent}
use rlite.Kernel.Efcp.Starts.{IsEmpty, Awaits, rl_normal_flow_init-IsSender}
use rlite.Kernel.Efcp.Transfer.{sdus, IsFromNetwork, transfer-IsPrefix}

abbrev reliable : Config
reliable = record {
  in_order_delivery = true;
  max_sdu_gap = 0;
  dtcp = record {
    flow_ctrl = true;
    rtx_ctrl = true;
    shaper = false;
    fc_type = FcType.window;
    max_cwq_len = 2;
    initial_credit = 1;
    data_rxms_max = 10;
    max_rtxq_len = 8;
    initial_rtx_timeout = 100;
    initial_a = 0;
    bandwidth = 0;
  };
  upper_ipcp = false;
}

reliable-IsReliable : IsReliable reliable
reliable-IsReliable = record { rtx_ctrl = refl; window = refl }

-- A jiffy is a millisecond.
abbrev at : ℕ → Env
at jiffies = record {
  jiffies = jiffies;
  msecs_to_jiffies = λ ms. ms;
  time_before = ltb;
  memory = true;
}

abbrev no_queue : Receiver
no_queue = record {
  rcv_next_seq_num = 0;
  seqq = [];
  seqq_len = 0;
  rx_err = 0;
  rx_pkt = 0;
  rx_byte = 0;
}

abbrev blank : Dtp
blank = record {
  mpl_r_a = 0;
  snd = record {
    snd_lwe = 0;
    snd_rwe = 0;
    next_seq_num_to_use = 0;
    last_seq_num_sent = 0;
    last_ctrl_seq_num_rcvd = 0;
    cwq = [];
    cwq_len = 0;
    max_cwq_len = 0;
    snd_inact_tmr = none;
    rtxq = [];
    rtxq_len = 0;
    max_rtxq_len = 0;
    rtx_tmr = none;
    rtt = 0;
    rtt_stddev = 0;
    cgwin = 0;
    bucket_size = 0;
    intval_ms = 0;
    drf_set = false;
    tx_pkt = 0;
    tx_byte = 0;
    tx_err = 0;
    rtx_pkt = 0;
    rtx_byte = 0;
  };
  rcv = record {
    rcv_lwe = 0;
    rcv_rwe = 0;
    max_seq_num_rcvd = 0;
    last_lwe_sent = 0;
    last_seq_num_acked = 0;
    next_snd_ctl_seq = 0;
    rcv_inact_tmr = none;
    a_tmr = none;
    drf_expected = false;
    q = no_queue;
  };
}

blank-IsEmpty : IsEmpty blank
blank-IsEmpty = record {
  cwq = refl;
  cwq_len = refl;
  rtxq = refl;
  rtxq_len = refl;
  seqq = refl;
  seqq_len = refl;
}

-- The flow after `rl_normal_flow_init`.
abbrev begun : Dtp
begun = record {
  mpl_r_a = 2000;
  snd = record blank.snd {
    snd_rwe = 1;
    last_seq_num_sent = 18446744073709551615;
    max_cwq_len = 2;
    max_rtxq_len = 8;
    rtt = 100;
    rtt_stddev = 1;
    cgwin = 4;
    drf_set = true;
  };
  rcv = record blank.rcv {
    rcv_rwe = 1;
    max_seq_num_rcvd = 18446744073709551615;
    drf_expected = true;
  };
}

flow_begins : rl_normal_flow_init (at 1000) reliable none blank ≡ some (reliable, begun)
unfolding rl_normal_flow_init is_valid_rtx granted_bandwidth refill_interval dtp_snd_reset
    dtp_rcv_reset
flow_begins = refl

begun-ready : IsSender [] [] begun.snd × Awaits begun
begun-ready =
    rl_normal_flow_init-IsSender (at 1000) reliable none blank (reliable, begun) blank-IsEmpty
      flow_begins

abbrev sdu_of : ℕ → Sdu
sdu_of byte = record { bytes = byte ∷ []; headroom = 100 }

abbrev pdu_of : ℕ → ℕ → Bool → Pdu
pdu_of seqnum byte drf = record { seqnum = seqnum; drf = drf; len = 29; sdu = byte ∷ [] }

-- The first two PDUs are acknowledged, and the window moves on to 3.
abbrev ack_two : CtrlPdu
ack_two = record {
  pdu_type = 204;
  seqnum = 0;
  last_ctrl_seq_num_rcvd = 0;
  ack_nack_seq_num = 1;
  new_rwe = 3;
  new_lwe = 1;
  my_rwe = 0;
  my_lwe = 0;
}

-- A write before the flow falls idle. Then three writes, of which the third waits, an acknowledgement that opens the window, and a timeout.
abbrev inputs : List Input
inputs =
    Input.write (at 900) (λ consume. WriteResult.success) (sdu_of 64)
    ∷ Input.inactive
    ∷ Input.write (at 1000) (λ consume. WriteResult.success) (sdu_of 65)
    ∷ Input.write (at 1001) (λ consume. WriteResult.success) (sdu_of 66)
    ∷ Input.write (at 1002) (λ consume. WriteResult.success) (sdu_of 67)
    ∷ Input.control (at 1050) ack_two
    ∷ Input.rtx_expires (at 2000)
    ∷ []

inputs-Works : All Works inputs
inputs-Works =
    ((refl, refl), (tt, ((refl, refl), ((refl, refl), ((refl, refl), (refl, (tt, tt)))))))

inputs_sent :
    ((send_all reliable inputs begun).sent
      ≡ pdu_of 0 65 true ∷ pdu_of 1 66 false ∷ pdu_of 2 67 false ∷ [])
    × ((send_all reliable inputs begun).resent ≡ pdu_of 1 66 false ∷ pdu_of 2 67 false ∷ [])
unfolding send_all write_shaped flow_blocked send_now rl_rtxq_push rtt_to_rtx hand_over sdu_rx_ctrl
    ctrl_new is_duplicate flow_control pop_cwq pop_one acknowledge ack_rtxq update_rtt rtx_tmr_cb
    scan_rtxq earliest is_expired postpone join snd_inact_tmr_cb dtp_snd_reset
inputs_sent = (refl, refl)

send_all-HasSent_example : HasSent [] [] (send_all reliable inputs begun)
send_all-HasSent_example =
    send_all-HasSent reliable inputs [] [] begun reliable-IsReliable inputs-Works begun-ready.0
      (omega arith)
