-- ===== src/Kernel/Efcp/Control.antt =====
-- Control PDUs at the sender of a flow in kernel/normal.c: `sdu_rx_ctrl`, which moves the window and
-- frees what was acknowledged.
use rlite.Base.{
  ℕ, ◌+◌, ◌-◌, ◌*◌, ◌/◌, ◌%◌, ◌^◌, Bool, not, ◌&&◌, ◌||◌, Option, none, some, List, [], ◌∷◌, ltb,
  leb, ◌==◌, if◌then◌else◌,
}
use rlite.Kernel.Seqq.{Pdu}
use rlite.Kernel.Efcp.Types.{Config, Env, Rtx, Snd, Dtp, CtrlPdu, seq32, seq64, has_bit, is_ctrl}
use rlite.Kernel.Efcp.Send.{rl_rtxq_push}

abbrev pub rl_cgwin_max : ℕ
rl_cgwin_max = 65536

-- The PDUs that the loop over the closed window queue takes out, and the state after it.
pub record Opened : Type 0 where
  pub qrbs : List Pdu
  pub snd : Snd

-- A PDU that cannot be kept for retransmission is sent all the same.
abbrev keep : Option Snd → Snd → Snd
keep none s = s
keep (some t) s = t

-- What the loop does to a PDU, but for taking it out of the queue.
unfoldable pub pop_one : Env → Config → Pdu → Snd → Snd
pop_one env cfg qrb s =
    let t = record s {
      cwq_len = s.cwq_len - 1;
      last_seq_num_sent = seq64 (s.last_seq_num_sent + 1);
    } in
    let u = if cfg.dtcp.rtx_ctrl then keep (rl_rtxq_push env cfg qrb t) t else t in
    record u { tx_pkt = u.tx_pkt + 1; tx_byte = u.tx_byte + qrb.len }

-- The loop over the queue, whose PDUs are the third argument.
unfoldable pub pop_cwq : Env → Config → List Pdu → Snd → Opened
pop_cwq env cfg [] s = record { qrbs = []; snd = record s { cwq = [] } }
pop_cwq env cfg (qrb ∷ rest) s =
    let r = pop_cwq env cfg rest (pop_one env cfg qrb s) in
    if leb s.snd_rwe s.last_seq_num_sent
    then record { qrbs = []; snd = record s { cwq = qrb ∷ rest } }
    else record { qrbs = qrb ∷ r.qrbs; snd = r.snd }

unfoldable pub flow_control : Env → Config → CtrlPdu → Snd → Opened
flow_control env cfg pcic s =
    if ltb pcic.new_rwe s.snd_rwe || ltb pcic.new_lwe s.snd_lwe
    then record { qrbs = []; snd = s }
    else pop_cwq env cfg s.cwq (record s { snd_rwe = pcic.new_rwe; snd_lwe = pcic.new_lwe })

-- The size of the difference of two numbers as an `int`.
abbrev pub abs_diff : ℕ → ℕ → ℕ
abs_diff a b =
    let diff = seq32 (a + 2 ^ 32 - b) in if leb (2 ^ 31) diff then 2 ^ 32 - diff else diff

-- The estimates of the round trip time, from an acknowledged PDU that was sent once. All is in 32
-- bits; a difference of no jiffy counts as one.
unfoldable pub update_rtt : ℕ → Rtx → Snd → Snd
update_rtt now cur s =
    let measured = seq32 (now + 2 ^ 64 - cur.jiffies) in
    let cur_rtt = if measured == 0 then 1 else measured in
    let deviation = abs_diff cur_rtt s.rtt in
    let cur_rttdev = if deviation == 0 then 1 else deviation in
    if cur.jiffies == 0 then s else record s {
      rtt = seq32 (s.rtt * 112 + cur_rtt * 16) / 128;
      rtt_stddev = seq32 (s.rtt_stddev * 3 + cur_rttdev) / 4;
    }

-- The loop over the retransmission queue, whose PDUs are the third argument.
unfoldable pub ack_rtxq : ℕ → ℕ → List Rtx → Snd → Snd
ack_rtxq now ack_nack_seq_num [] s = record s { rtxq = [] }
ack_rtxq now ack_nack_seq_num (cur ∷ rest) s =
    let acked =
      ack_rtxq now ack_nack_seq_num rest
        (update_rtt now cur (record s { rtxq_len = s.rtxq_len - 1 })) in
    if ltb cur.pdu.seqnum ack_nack_seq_num
    then acked
    else record s { rtxq = cur ∷ rest; rtx_tmr = some cur.rtx_jiffies }

abbrev stop_if_empty : List Rtx → Option ℕ → Option ℕ
stop_if_empty [] tmr = none
stop_if_empty (cur ∷ rest) tmr = tmr

-- The congestion window doubles until there was a retransmission, and then grows by one.
abbrev grow_cgwin : Snd → ℕ
grow_cgwin s =
    if leb rl_cgwin_max s.cgwin
    then s.cgwin
    else if s.rtx_pkt == 0
    then s.cgwin * 2
    else s.cgwin + 1

-- PDU_T_ACK, where `pdu_type & PDU_T_ACK_MASK` is 0; the other types are not supported.
unfoldable pub acknowledge : Env → CtrlPdu → Snd → Snd
acknowledge env pcic s =
    let t = ack_rtxq env.jiffies pcic.ack_nack_seq_num s.rtxq s in
    if pcic.pdu_type % 4 == 0
    then record t { rtx_tmr = stop_if_empty t.rtxq t.rtx_tmr; cgwin = grow_cgwin t }
    else s

abbrev pub count_sent : List Pdu → Snd → Snd
count_sent [] s = s
count_sent (qrb ∷ qrbs) s =
    count_sent qrbs (record s { tx_pkt = s.tx_pkt + 1; tx_byte = s.tx_byte + qrb.len })

abbrev rx_error : Dtp → Dtp
rx_error d = record d { rcv = record d.rcv { q = record d.rcv.q { rx_err = d.rcv.q.rx_err + 1 } } }

-- What is done under the lock with a control PDU that is not a duplicate.
unfoldable pub ctrl_new : Env → Config → CtrlPdu → Snd → Opened
ctrl_new env cfg pcic s =
    let t = record s { last_ctrl_seq_num_rcvd = pcic.seqnum } in
    let r =
      if has_bit 8 pcic.pdu_type
      then flow_control env cfg pcic t
      else record { qrbs = []; snd = t } in
    if has_bit 4 pcic.pdu_type then record r { snd = acknowledge env pcic r.snd } else r

unfoldable pub is_duplicate : CtrlPdu → Snd → Bool
is_duplicate pcic s =
    leb pcic.seqnum (seq64 (s.last_ctrl_seq_num_rcvd + 1))
    && not (s.last_ctrl_seq_num_rcvd == 0)
    && leb pcic.seqnum s.last_ctrl_seq_num_rcvd

-- What comes out goes to the relaying task, in order, to stay there, and is counted once more.
unfoldable pub sdu_rx_ctrl : Env → Config → CtrlPdu → Dtp → List Pdu × Dtp
sdu_rx_ctrl env cfg pcic d =
    let r = ctrl_new env cfg pcic d.snd in
    if not (is_ctrl pcic.pdu_type)
    then ([], rx_error d)
    else if is_duplicate pcic d.snd
    then ([], d)
    else (r.qrbs, record d { snd = count_sent r.qrbs r.snd })
