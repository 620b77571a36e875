-- ===== src/Kernel/Efcp/Receive.antt =====
-- The receiver of a flow in kernel/normal.c: what a data transfer PDU does, when it is acknowledged,
-- and what follows when the user has read it or a timer expires.
use rlite.Base.{
  ℕ, ◌+◌, ◌-◌, ◌*◌, ◌/◌, ◌^◌, Bool, true, false, not, ◌&&◌, ◌||◌, Option, none, some, List, [], ◌∷◌,
  ltb, leb, ◌==◌, if◌then◌else◌, length,
}
use rlite.Kernel.Seqq.{Pdu, sub64, seqq_push, seqq_pop_many}
use rlite.Kernel.Efcp.Types.{
  Config, dtcp_present, is_window, Env, Rcv, Dtp, CtrlPdu, seq32, seq64, ctrl_type,
}

-- A control PDU of the given type, with the next control sequence number, if there is memory for it.
unfoldable pub ctrl_pdu_alloc : Env → ℕ → Dtp → Option CtrlPdu × Dtp
ctrl_pdu_alloc env pdu_type d =
    if env.memory
    then (
      some (record {
        pdu_type = pdu_type;
        seqnum = seq32 d.rcv.next_snd_ctl_seq;
        last_ctrl_seq_num_rcvd = seq32 d.snd.last_ctrl_seq_num_rcvd;
        ack_nack_seq_num = seq32 d.rcv.q.rcv_next_seq_num;
        new_rwe = seq32 d.rcv.rcv_rwe;
        new_lwe = seq32 d.rcv.rcv_lwe;
        my_rwe = seq32 d.snd.snd_rwe;
        my_lwe = seq32 d.snd.snd_lwe;
      }),
      record d {
        rcv = record d.rcv {
          next_snd_ctl_seq = seq64 (d.rcv.next_snd_ctl_seq + 1);
          last_seq_num_acked = d.rcv.q.rcv_next_seq_num;
          last_lwe_sent = d.rcv.rcv_lwe;
        };
      },
    )
    else (none, d)

abbrev start_a_tmr : Env → ℕ → Option ℕ → Option ℕ
start_a_tmr env a (some expires) = some expires
start_a_tmr env a none =
    if a == 0 then none else some (seq64 (env.jiffies + env.msecs_to_jiffies a))

-- Whether an acknowledgement is due: at once, or when half a window was consumed or delivered since
-- the last one.
unfoldable pub ack_is_due : Config → Bool → Rcv → Bool
ack_is_due cfg ack_immediate r =
    let half = seq32 cfg.dtcp.initial_credit / 2 in
    ack_immediate
    || cfg.dtcp.initial_a == 0
    || leb half (sub64 r.rcv_lwe r.last_lwe_sent)
    || leb half (sub64 r.q.rcv_next_seq_num r.last_seq_num_acked)

unfoldable pub sdu_rx_sv_update : Env → Config → Bool → Dtp → Option CtrlPdu × Dtp
sdu_rx_sv_update env cfg ack_immediate d =
    let win_size = seq32 cfg.dtcp.initial_credit in
    let ack = ack_is_due cfg ack_immediate d.rcv in
    let fc = cfg.dtcp.flow_ctrl && is_window cfg.dtcp.fc_type in
    let r = if fc then record d.rcv { rcv_rwe = seq64 (d.rcv.rcv_lwe + win_size) } else d.rcv in
    let pdu_type = ctrl_type (fc && ack) (ack && cfg.dtcp.rtx_ctrl) in
    if pdu_type == 0
    then (none, record d { rcv = record r { a_tmr = start_a_tmr env cfg.dtcp.initial_a r.a_tmr } })
    else ctrl_pdu_alloc env pdu_type (record d { rcv = record r { a_tmr = none } })

-- A PDU that goes up to the flow's user, and the number that the user will give back when it has
-- read it.
pub record Up : Type 0 where
  pub pdu : Pdu
  pub cons_seqnum : ℕ

-- What a PDU makes the receiver do: deliver to the user, send a control PDU, and change state.
pub record Received : Type 0 where
  pub up : List Up
  pub crb : Option CtrlPdu
  pub dtp : Dtp

-- The first PDU of a run.
unfoldable pub start_run : Env → Config → Pdu → Dtp → Received
start_run env cfg rb d =
    let next = seq32 (rb.seqnum + 1) in
    let (crb, e) = sdu_rx_sv_update env cfg false (record d {
      rcv = record d.rcv {
        drf_expected = false;
        last_lwe_sent = next;
        rcv_lwe = next;
        last_seq_num_acked = next;
        max_seq_num_rcvd = rb.seqnum;
        q = record d.rcv.q { rcv_next_seq_num = next };
      };
    }) in
    record {
      up = record { pdu = rb; cons_seqnum = rb.seqnum } ∷ [];
      crb = crb;
      dtp = record e {
        rcv = record e.rcv {
          next_snd_ctl_seq = if rb.drf then 0 else e.rcv.next_snd_ctl_seq;
          q = record e.rcv.q { rx_pkt = e.rcv.q.rx_pkt + 1; rx_byte = e.rcv.q.rx_byte + rb.len };
        };
      };
    }

abbrev pub count_error : Dtp → Dtp
count_error d = record d {
  rcv = record d.rcv { q = record d.rcv.q { rx_err = d.rcv.q.rx_err + 1 } };
}

unfoldable pub rx_duplicate : Env → Config → Dtp → Received
rx_duplicate env cfg d =
    let e = count_error d in
    let (crb, f) = ctrl_pdu_alloc env (ctrl_type true true) e in
    if cfg.dtcp.rtx_ctrl && leb e.rcv.last_lwe_sent e.rcv.q.rcv_next_seq_num
    then record { up = []; crb = crb; dtp = f }
    else record { up = []; crb = none; dtp = e }

-- All the PDUs that one PDU brings up carry its own number to give back.
abbrev pub ups : ℕ → List Pdu → List Up
ups seqnum [] = []
ups seqnum (qrb ∷ qrbs) = record { pdu = qrb; cons_seqnum = seqnum } ∷ ups seqnum qrbs

-- What goes up is handed to `rl_sdu_rx_flow`, which drops it if more than 2 ^ 20 bytes wait for the
-- user.
unfoldable pub rx_deliver : Env → Config → Pdu → Dtp → Received
rx_deliver env cfg rb d =
    let (qrbs, q) =
      seqq_pop_many (seq32 cfg.max_sdu_gap)
        (record d.rcv.q { rcv_next_seq_num = seq32 (rb.seqnum + 1) }) in
    let (crb, e) = sdu_rx_sv_update env cfg false (record d {
      rcv = record d.rcv {
        q = q;
        rcv_lwe = if cfg.upper_ipcp then q.rcv_next_seq_num else d.rcv.rcv_lwe;
      };
    }) in
    record {
      up = ups rb.seqnum (rb ∷ qrbs);
      crb = crb;
      dtp = record e {
        rcv = record e.rcv {
          q = record e.rcv.q { rx_pkt = e.rcv.q.rx_pkt + 1; rx_byte = e.rcv.q.rx_byte + rb.len };
        };
      };
    }

unfoldable pub rx_drop : Env → Config → Dtp → Received
rx_drop env cfg d =
    let (crb, e) = sdu_rx_sv_update env cfg false d in
    record { up = []; crb = crb; dtp = count_error e }

-- A PDU that is not a duplicate. The A timeout that the source tests here is the constant 0.
unfoldable pub rx_new : Env → Config → Pdu → Dtp → Received
rx_new env cfg rb d =
    let e =
      if ltb d.rcv.max_seq_num_rcvd rb.seqnum
      then record d { rcv = record d.rcv { max_seq_num_rcvd = rb.seqnum } }
      else d in
    let gap = seq32 (sub64 rb.seqnum d.rcv.q.rcv_next_seq_num) in
    let drop =
      (cfg.in_order_delivery || dtcp_present cfg)
      && not cfg.dtcp.rtx_ctrl
      && ltb cfg.max_sdu_gap gap in
    if not drop && leb gap cfg.max_sdu_gap
    then rx_deliver env cfg rb e
    else if drop
    then rx_drop env cfg e
    else record {
      up = [];
      crb = none;
      dtp = record e { rcv = record e.rcv { q = seqq_push rb e.rcv.q } };
    }

-- `rl_normal_sdu_rx` from where it knows that the PDU is a data transfer PDU for the flow.
unfoldable pub sdu_rx_data : Env → Config → Pdu → Dtp → Received
sdu_rx_data env cfg rb d =
    let e =
      if dtcp_present cfg
      then record d {
        rcv = record d.rcv { rcv_inact_tmr = some (seq64 (env.jiffies + 2 * d.mpl_r_a)) };
      }
      else d in
    if e.rcv.drf_expected || rb.drf
    then start_run env cfg rb e
    else if ltb rb.seqnum e.rcv.q.rcv_next_seq_num
    then rx_duplicate env cfg e
    else rx_new env cfg rb e

unfoldable pub rl_normal_sdu_rx_consumed : Env → Config → ℕ → Dtp → Option CtrlPdu × Dtp
rl_normal_sdu_rx_consumed env cfg seqnum d =
    sdu_rx_sv_update env cfg false
      (record d { rcv = record d.rcv { rcv_lwe = seq64 (seqnum + 1) } })

unfoldable pub a_tmr_cb : Env → Config → Dtp → Option CtrlPdu × Dtp
a_tmr_cb env cfg d =
    sdu_rx_sv_update env cfg true (record d { rcv = record d.rcv { a_tmr = none } })

unfoldable pub dtp_rcv_reset : Config → Rcv → Rcv
dtp_rcv_reset cfg r = record r {
  drf_expected = true;
  rcv_lwe = 0;
  rcv_rwe = if is_window cfg.dtcp.fc_type then cfg.dtcp.initial_credit else 0;
  max_seq_num_rcvd = seq64 (2 ^ 64 - 1);
  last_lwe_sent = 0;
  last_seq_num_acked = 0;
  q = record r.q { rcv_next_seq_num = 0 };
}

unfoldable pub rcv_inact_tmr_cb : Config → Dtp → Dtp
rcv_inact_tmr_cb cfg d =
    let r = dtp_rcv_reset cfg d.rcv in
    record d {
      rcv = record r {
        rcv_inact_tmr = none;
        q = record r.q {
          seqq = [];
          seqq_len = r.q.seqq_len - length r.q.seqq;
          rx_err = r.q.rx_err + length r.q.seqq;
        };
      };
    }
