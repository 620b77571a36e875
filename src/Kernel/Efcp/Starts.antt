-- ===== src/Kernel/Efcp/Starts.antt =====
-- How a flow of kernel/normal.c starts, at both ends.
use rlite.Base.{
  ◌*◌, if◌then◌else◌, subst, ℕ, ◌+◌, ◌-◌, ◌%◌, ◌^◌, ◌≡◌, ◌<◌, refl, ap, sym, ◌∙◌, inl, true, false,
  Option, some, [], ◌∷◌, arith, length, All,
}
use rlite.Kernel.Seqq.{Pdu, Receiver}
use rlite.Kernel.Seqq.Order.{Ascends, Consecutive}
use rlite.Kernel.Efcp.Types.{Config, Env, Dtp, dtcp_present}
use rlite.Kernel.Efcp.Receive.{Received, sdu_rx_data, start_run, dtp_rcv_reset, rcv_inact_tmr_cb}
use rlite.Kernel.Efcp.Timers.{dtp_snd_reset, rl_normal_flow_init, is_valid_rtx}
use rlite.Kernel.Efcp.Arrivals.{pdus, past, count_rx, sdu_rx_sv_update-SameQueue}
use rlite.Kernel.Efcp.Opening.{kept_pdus}
use rlite.Kernel.Efcp.Runs.{IsReceiver}
use rlite.Kernel.Efcp.Window.{Carries, IsSender}

-- A flow whose queues are empty, as they are before it starts.
pub record IsEmpty (d : Dtp) : Type 0 where
  pub cwq : d.snd.cwq ≡ []
  pub cwq_len : d.snd.cwq_len ≡ 0
  pub rtxq : d.snd.rtxq ≡ []
  pub rtxq_len : d.snd.rtxq_len ≡ 0
  pub seqq : d.rcv.q.seqq ≡ []
  pub seqq_len : d.rcv.q.seqq_len ≡ 0

-- A receiver that waits for the first PDU of a run.
pub record Awaits (d : Dtp) : Type 0 where
  pub expected : d.rcv.drf_expected ≡ true
  pub seqq : d.rcv.q.seqq ≡ []
  pub seqq_len : d.rcv.q.seqq_len ≡ 0

-- A flow that starts is a sender that has sent nothing, and a receiver that waits for a first PDU.
pub rl_normal_flow_init-IsSender :
    (env : Env) (cfg : Config) (max_pdu_life : Option ℕ) (d : Dtp) (result : Config × Dtp)
    → IsEmpty d
    → rl_normal_flow_init env cfg max_pdu_life d ≡ some result
    → IsSender [] [] result.1.snd × Awaits result.1
unfolding rl_normal_flow_init dtp_snd_reset dtp_rcv_reset
rl_normal_flow_init-IsSender env cfg max_pdu_life d result empty e =
    let valid : is_valid_rtx cfg.dtcp ≡ true = ground (arith, e) in
    let s = result.1.snd in
    let q = result.1.rcv.q in
    let cwq : s.cwq ≡ [] = ground (arith, e, valid, empty.cwq) in
    let cwq_len : s.cwq_len ≡ 0 = ground (arith, e, valid, empty.cwq_len) in
    let rtxq : s.rtxq ≡ [] = ground (arith, e, valid, empty.rtxq) in
    let rtxq_len : s.rtxq_len ≡ 0 = ground (arith, e, valid, empty.rtxq_len) in
    let last : s.last_seq_num_sent ≡ 2 ^ 64 - 1 = ground (arith, e, valid) in
    (
      record {
        numbered = ground (arith, e, valid);
        order = subst (λ x. Consecutive 0 x) (sym cwq) tt;
        carried = subst (λ x. All (Carries []) x) (sym cwq) tt;
        complete = omega (arith, ap length cwq);
        first = ground (arith, e, valid);
        last = omega (arith, last);
        wide = omega (arith, last);
        in_window = omega arith;
        closed = inl cwq;
        counted = omega (arith, cwq_len, ap length cwq);
        bounded = omega (arith, cwq_len);
        acked = [];
        kept = ap kept_pdus (sym rtxq);
        kept_counted = omega (arith, rtxq_len, ap length rtxq);
      },
      record {
        expected = ground (arith, e, valid);
        seqq = ground (arith, e, valid, empty.seqq);
        seqq_len = ground (arith, e, valid, empty.seqq_len);
      },
    )

-- A receiver whose inactivity timer expires waits for a first PDU again.
pub rcv_inact_tmr_cb-Awaits :
    (P : Pdu → Type 0) (cfg : Config) (d : Dtp) → IsReceiver P d → Awaits (rcv_inact_tmr_cb cfg d)
unfolding rcv_inact_tmr_cb dtp_rcv_reset
rcv_inact_tmr_cb-Awaits P cfg d v = record {
  expected = refl;
  seqq = refl;
  seqq_len = omega (arith, v.queue.queue.counted);
}

start_run-Starts :
    (env : Env) (cfg : Config) (rb : Pdu) (d : Dtp)
    → rb.seqnum + 1 < 2 ^ 32
    → ((start_run env cfg rb d).dtp.rcv.q ≡ count_rx rb (past rb d.rcv.q))
      × ((start_run env cfg rb d).dtp.rcv.drf_expected ≡ false)
unfolding start_run
start_run-Starts env cfg rb d small =
    let next : (rb.seqnum + 1) % 2 ^ 32 ≡ rb.seqnum + 1 = omega arith in
    let f = record d {
      rcv = record d.rcv {
        drf_expected = false;
        last_lwe_sent = (rb.seqnum + 1) % 2 ^ 32;
        rcv_lwe = (rb.seqnum + 1) % 2 ^ 32;
        last_seq_num_acked = (rb.seqnum + 1) % 2 ^ 32;
        max_seq_num_rcvd = rb.seqnum;
        q = record d.rcv.q { rcv_next_seq_num = (rb.seqnum + 1) % 2 ^ 32 };
      };
    } in
    let (q, drf) = sdu_rx_sv_update-SameQueue env cfg false f in (ground (arith, q, next), drf)

start_run-up :
    (env : Env) (cfg : Config) (rb : Pdu) (d : Dtp) → pdus (start_run env cfg rb d).up ≡ rb ∷ []
unfolding start_run
start_run-up env cfg rb d = refl

-- The first PDU of a run is delivered at once, and the next one is expected after it.
pub record Starts (P : Pdu → Type 0) (rb : Pdu) (r : Received) : Type 0 where
  pub up : pdus r.up ≡ rb ∷ []
  pub receiver : IsReceiver P r.dtp
  pub next : r.dtp.rcv.q.rcv_next_seq_num ≡ rb.seqnum + 1

pub sdu_rx_data-Starts :
    (P : Pdu → Type 0) (env : Env) (cfg : Config) (rb : Pdu) (d : Dtp)
    → Awaits d
    → rb.seqnum + 1 < 2 ^ 32
    → Starts P rb (sdu_rx_data env cfg rb d)
unfolding sdu_rx_data
sdu_rx_data-Starts P env cfg rb d v small =
    let e =
      if dtcp_present cfg
      then record d {
        rcv = record d.rcv { rcv_inact_tmr = some ((env.jiffies + 2 * d.mpl_r_a) % 2 ^ 64) };
      }
      else d in
    let same : e.rcv.q ≡ d.rcv.q = ground arith in
    let expected = v.expected in
    let step : sdu_rx_data env cfg rb d ≡ start_run env cfg rb e = ground arith in
    let (q, drf) = start_run-Starts env cfg rb e small in
    let t = (start_run env cfg rb e).dtp.rcv.q in
    let seqq : t.seqq ≡ [] = ap Receiver.seqq q ∙ ap Receiver.seqq same ∙ v.seqq in
    let seqq_len : t.seqq_len ≡ 0 =
      ap Receiver.seqq_len q ∙ ap Receiver.seqq_len same ∙ v.seqq_len in
    let next : t.rcv_next_seq_num ≡ rb.seqnum + 1 = ap Receiver.rcv_next_seq_num q in
    subst (Starts P rb) (sym step) (record {
      up = start_run-up env cfg rb e;
      receiver = record {
        begun = drf;
        queue = record {
          queue = record {
            ordered = subst (Ascends t.rcv_next_seq_num) (sym seqq) tt;
            counted = omega (arith, seqq_len, ap length seqq);
            bounded = omega (arith, seqq_len);
          };
          gap = subst (Ascends (t.rcv_next_seq_num + 1)) (sym seqq) tt;
        };
        waiting = subst (All P) (sym seqq) tt;
      };
      next = next;
    })
