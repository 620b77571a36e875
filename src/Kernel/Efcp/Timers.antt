-- ===== src/Kernel/Efcp/Timers.antt =====
-- How a flow starts in kernel/normal.c, and the timers of its sender: `dtp_snd_reset`,
-- `rl_normal_flow_init`, `snd_inact_tmr_cb`, `rtx_tmr_cb`.
use rlite.Base.{
  ℕ, ◌+◌, ◌-◌, ◌*◌, ◌/◌, ◌^◌, Bool, true, not, ◌&&◌, ◌||◌, Option, none, some, List, [], ◌∷◌, ltb,
  ◌==◌, if◌then◌else◌, length, max,
}
use rlite.Kernel.Seqq.{Pdu}
use rlite.Kernel.Efcp.Types.{Config, DtcpConfig, is_window, Env, Rtx, Snd, Dtp, seq32, seq64}
use rlite.Kernel.Efcp.Receive.{dtp_rcv_reset}
use rlite.Kernel.Efcp.Send.{rtt_to_rtx, rl_cgwin_min}

unfoldable pub dtp_snd_reset : Config → Snd → Snd
dtp_snd_reset cfg s =
    let win = is_window cfg.dtcp.fc_type in
    record s {
      drf_set = true;
      next_seq_num_to_use = 0;
      snd_lwe = 0;
      snd_rwe = if win then cfg.dtcp.initial_credit else 0;
      last_seq_num_sent = seq64 (2 ^ 64 - 1);
      last_ctrl_seq_num_rcvd = 0;
      cgwin = if win then rl_cgwin_min else s.cgwin;
    }

unfoldable pub snd_inact_tmr_cb : Config → Snd → Snd
snd_inact_tmr_cb cfg s =
    let t = dtp_snd_reset cfg s in
    record t {
      snd_inact_tmr = none;
      rtx_tmr = none;
      rtxq = [];
      rtxq_len = s.rtxq_len - length s.rtxq;
      cwq = [];
      cwq_len = s.cwq_len - length s.cwq;
      tx_err = s.tx_err + length s.cwq;
    }

-- The loop of `rtx_tmr_cb`: what it sends again, the queue with its new times, and the earliest of
-- these.
pub record Scanned : Type 0 where
  pub rrbq : List Pdu
  pub rtxq : List Rtx
  pub next_exp : Option ℕ
  pub bytes : ℕ

unfoldable pub earliest : Env → ℕ → Option ℕ → Option ℕ
earliest env t none = some t
earliest env t (some next_exp) = if env.time_before t next_exp then some t else some next_exp

-- The timeout of a PDU is over.
unfoldable pub is_expired : Env → Rtx → Bool
is_expired env rb = not (env.time_before env.jiffies rb.rtx_jiffies)

-- A PDU that is sent again has no time for the estimate of the round trip.
unfoldable pub postpone : Env → ℕ → Rtx → Rtx
postpone env timeout rb =
    if is_expired env rb
    then record rb { rtx_jiffies = seq64 (rb.rtx_jiffies + timeout); jiffies = 0 }
    else rb

-- `next_exp` is the earliest time of the PDUs before.
unfoldable pub scan_rtxq : Env → ℕ → Option ℕ → List Rtx → Scanned
scan_rtxq env timeout next_exp [] = record { rrbq = []; rtxq = []; next_exp = next_exp; bytes = 0 }
scan_rtxq env timeout next_exp (rb ∷ rest) =
    let cur = postpone env timeout rb in
    let r = scan_rtxq env timeout (earliest env cur.rtx_jiffies next_exp) rest in
    if is_expired env rb && env.memory
    then record r { rrbq = rb.pdu ∷ r.rrbq; rtxq = cur ∷ r.rtxq; bytes = rb.pdu.len + r.bytes }
    else record r { rtxq = cur ∷ r.rtxq }

-- The PDUs that are sent again go to the relaying task, in order, to stay there.
unfoldable pub rtx_tmr_cb : Env → Config → Dtp → List Pdu × Dtp
rtx_tmr_cb env cfg d =
    let s = d.snd in
    let r = scan_rtxq env (rtt_to_rtx cfg s) none s.rtxq in
    let n = length r.rrbq in
    (
      r.rrbq,
      record d {
        snd = record s {
          rtxq = r.rtxq;
          rtx_pkt = s.rtx_pkt + n;
          rtx_byte = s.rtx_byte + r.bytes;
          cgwin = if n == 0 then s.cgwin else max (s.cgwin / 2) rl_cgwin_min;
          rtx_tmr = r.next_exp;
          snd_inact_tmr = some (seq64 (env.jiffies + 3 * d.mpl_r_a));
        };
      },
    )

-- Whether the parameters of the retransmission control are accepted; if not, the result is -EINVAL.
unfoldable pub is_valid_rtx : DtcpConfig → Bool
is_valid_rtx dc =
    not dc.rtx_ctrl
    || not (dc.initial_rtx_timeout == 0)
      && not (dc.data_rxms_max == 0)
      && not (dc.max_rtxq_len == 0)

abbrev pub rl_mpl_msecs_dflt : ℕ
rl_mpl_msecs_dflt = 1000

abbrev tkbk_intval_msec : ℕ
tkbk_intval_msec = 2

-- The bandwidth that a flow gets, and the time between the refills of its token bucket.
unfoldable pub granted_bandwidth : ℕ → ℕ
granted_bandwidth bandwidth =
    if bandwidth == 0 then 0 else if ltb bandwidth 4000 then 4000 else bandwidth

unfoldable pub refill_interval : ℕ → ℕ
refill_interval bandwidth =
    if ltb bandwidth (2000000 / tkbk_intval_msec) then 2000000 / bandwidth else tkbk_intval_msec

abbrev dif_mpl : Env → Option ℕ → ℕ
dif_mpl env none = 0
dif_mpl env (some max_pdu_life) = env.msecs_to_jiffies max_pdu_life

-- The state that a flow starts with, but for its timers and queues, which are empty, and its
-- configuration with the bandwidth that it gets. `max_pdu_life` is that of the DIF, if there is one.
unfoldable pub rl_normal_flow_init : Env → Config → Option ℕ → Dtp → Option (Config × Dtp)
rl_normal_flow_init env cfg max_pdu_life d =
    let dc = cfg.dtcp in
    let from_dif = dif_mpl env max_pdu_life in
    let mpl = if from_dif == 0 then env.msecs_to_jiffies rl_mpl_msecs_dflt else from_dif in
    let r = seq64 (env.msecs_to_jiffies dc.initial_rtx_timeout * dc.data_rxms_max) in
    let bandwidth = granted_bandwidth dc.bandwidth in
    let interval = refill_interval bandwidth in
    let s = dtp_snd_reset cfg d.snd in
    if is_valid_rtx dc
    then some (
      record cfg { dtcp = record dc { bandwidth = bandwidth } },
      record d {
        mpl_r_a = seq64 (mpl + r + env.msecs_to_jiffies dc.initial_a);
        rcv = dtp_rcv_reset cfg d.rcv;
        snd = record s {
          max_rtxq_len = if dc.rtx_ctrl then dc.max_rtxq_len else s.max_rtxq_len;
          max_cwq_len = if is_window dc.fc_type then seq32 dc.max_cwq_len else s.max_cwq_len;
          rtt = seq32 (env.msecs_to_jiffies dc.initial_rtx_timeout);
          rtt_stddev = 1;
          intval_ms = if bandwidth == 0 then s.intval_ms else interval;
          bucket_size = if bandwidth == 0 then s.bucket_size else bandwidth * interval / 8000;
        };
      },
    )
    else none
