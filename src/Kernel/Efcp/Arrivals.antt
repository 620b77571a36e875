-- ===== src/Kernel/Efcp/Arrivals.antt =====
-- What becomes of a data transfer PDU at the receiver of kernel/normal.c, seen from its sequencing
-- queue.
use rlite.Base.{
  subst, ℕ, ◌+◌, ◌-◌, ◌*◌, ◌%◌, ◌^◌, ◌≡◌, ◌<◌, ◌≤◌, refl, ap, sym, inl, inr, Bool, true, false,
  ◌&&◌, ◌||◌, not, some, List, [], ◌∷◌, arith, Bool-cases, ltb, if◌then◌else◌,
}
use native.Mathlib.Decide.{dec_lt}
use rlite.Kernel.Seqq.{Pdu, Receiver, sub64, seqq_push, seqq_pop_many}
use rlite.Kernel.Efcp.Types.{Config, Env, Dtp, dtcp_present, ctrl_type}
use rlite.Kernel.Efcp.Receive.{
  Up, Received, ups, count_error, ctrl_pdu_alloc, sdu_rx_sv_update, rx_duplicate, rx_deliver,
  rx_drop, rx_new, sdu_rx_data,
}

-- The members that control PDUs and acknowledgements leave alone.
abbrev pub SameQueue : Dtp → Dtp → Type 0
SameQueue d e = (e.rcv.q ≡ d.rcv.q) × (e.rcv.drf_expected ≡ d.rcv.drf_expected)

pub ctrl_pdu_alloc-SameQueue :
    (env : Env) (pdu_type : ℕ) (d : Dtp) → SameQueue d (ctrl_pdu_alloc env pdu_type d).1
unfolding ctrl_pdu_alloc
ctrl_pdu_alloc-SameQueue env pdu_type d = elim (Bool-cases env.memory) [
  | inl enough ↦ ground arith
  | inr missing ↦ ground arith
]

pub sdu_rx_sv_update-SameQueue :
    (env : Env) (cfg : Config) (ack_immediate : Bool) (d : Dtp)
    → SameQueue d (sdu_rx_sv_update env cfg ack_immediate d).1
unfolding sdu_rx_sv_update ctrl_pdu_alloc
sdu_rx_sv_update-SameQueue env cfg ack_immediate d = ground arith

abbrev pub pdus : List Up → List Pdu
pdus [] = []
pdus (u ∷ us) = u.pdu ∷ pdus us

pdus-ups : (seqnum : ℕ) (ps : List Pdu) → pdus (ups seqnum ps) ≡ ps
pdus-ups seqnum [] = refl
pdus-ups seqnum (p ∷ ps) = ap (◌∷◌ p) (pdus-ups seqnum ps)

-- A queue whose next expected number has moved on past a PDU.
abbrev pub past : Pdu → Receiver → Receiver
past rb q = record q { rcv_next_seq_num = rb.seqnum + 1 }

abbrev pub count_rx : Pdu → Receiver → Receiver
count_rx rb q = record q { rx_pkt = q.rx_pkt + 1; rx_byte = q.rx_byte + rb.len }

-- What becomes of a PDU with no DRF flag, of a run that has begun, where no gap is tolerated: what
-- goes up, and the queue after it. Only a flow without retransmission drops a PDU after a gap.
pub data Arrival (rtx_ctrl : Bool) (rb : Pdu) (q : Receiver) : List Pdu → Receiver → Type 0 where
  duplicate :
      rb.seqnum < q.rcv_next_seq_num → Arrival rtx_ctrl rb q [] (record q { rx_err = q.rx_err + 1 })
  dropped :
      q.rcv_next_seq_num < rb.seqnum
      → rtx_ctrl ≡ false
      → Arrival rtx_ctrl rb q [] (record q { rx_err = q.rx_err + 1 })
  queued : q.rcv_next_seq_num < rb.seqnum → Arrival rtx_ctrl rb q [] (seqq_push rb q)
  delivered :
      rb.seqnum ≡ q.rcv_next_seq_num
      → Arrival rtx_ctrl rb q
          (rb ∷ (seqq_pop_many 0 (past rb q)).0)
          (count_rx rb (seqq_pop_many 0 (past rb q)).1)

-- The result of an operation on a flow in whose run no gap is tolerated.
abbrev pub Arrives : Config → Pdu → Receiver → Received → Type 0
Arrives cfg rb q r =
    Arrival cfg.dtcp.rtx_ctrl rb q (pdus r.up) r.dtp.rcv.q × (r.dtp.rcv.drf_expected ≡ false)

Arrival-Arrives :
    (cfg : Config) (rb : Pdu) (p : Receiver) (r : Received) (us : List Pdu) (q : Receiver)
    → Arrival cfg.dtcp.rtx_ctrl rb p us q
    → pdus r.up ≡ us
    → r.dtp.rcv.q ≡ q
    → r.dtp.rcv.drf_expected ≡ false
    → Arrives cfg rb p r
Arrival-Arrives cfg rb p r us q arrival up same begun = (
  subst (λ vs. Arrival cfg.dtcp.rtx_ctrl rb p vs r.dtp.rcv.q) (sym up)
      (subst (Arrival cfg.dtcp.rtx_ctrl rb p us) (sym same) arrival),
  begun,
)

rx_duplicate-Arrives :
    (env : Env) (cfg : Config) (rb : Pdu) (d : Dtp)
    → d.rcv.drf_expected ≡ false
    → rb.seqnum < d.rcv.q.rcv_next_seq_num
    → Arrives cfg rb d.rcv.q (rx_duplicate env cfg d)
unfolding rx_duplicate
rx_duplicate-Arrives env cfg rb d begun before =
    let e = count_error d in
    let kept = ctrl_pdu_alloc-SameQueue env (ctrl_type true true) e in
    let r = rx_duplicate env cfg d in
    let q : r.dtp.rcv.q ≡ e.rcv.q = ground (arith, kept) in
    let drf : r.dtp.rcv.drf_expected ≡ false = ground (arith, kept) in
    Arrival-Arrives cfg rb d.rcv.q r [] e.rcv.q (Arrival.duplicate before) (ground arith) q drf

rx_drop-Arrives :
    (env : Env) (cfg : Config) (rb : Pdu) (d : Dtp)
    → d.rcv.drf_expected ≡ false
    → d.rcv.q.rcv_next_seq_num < rb.seqnum
    → cfg.dtcp.rtx_ctrl ≡ false
    → Arrives cfg rb d.rcv.q (rx_drop env cfg d)
unfolding rx_drop
rx_drop-Arrives env cfg rb d begun gap unreliable =
    let kept = sdu_rx_sv_update-SameQueue env cfg false d in
    let r = rx_drop env cfg d in
    let q : r.dtp.rcv.q ≡ (count_error d).rcv.q = ground (arith, kept) in
    let drf : r.dtp.rcv.drf_expected ≡ false = ground (arith, kept) in
    Arrival-Arrives cfg rb d.rcv.q r [] (count_error d).rcv.q (Arrival.dropped gap unreliable) refl
      q drf

rx_deliver-Arrives :
    (env : Env) (cfg : Config) (rb : Pdu) (d : Dtp)
    → cfg.max_sdu_gap ≡ 0
    → d.rcv.drf_expected ≡ false
    → rb.seqnum + 1 < 2 ^ 32
    → rb.seqnum ≡ d.rcv.q.rcv_next_seq_num
    → Arrives cfg rb d.rcv.q (rx_deliver env cfg rb d)
unfolding rx_deliver
rx_deliver-Arrives env cfg rb d strict begun small next =
    let popped = seqq_pop_many 0 (past rb d.rcv.q) in
    let r = rx_deliver env cfg rb d in
    let gap : cfg.max_sdu_gap % 2 ^ 32 ≡ 0 = omega arith in
    let after : (rb.seqnum + 1) % 2 ^ 32 ≡ rb.seqnum + 1 = omega arith in
    let e = record d {
      rcv = record d.rcv {
        q = popped.1;
        rcv_lwe = if cfg.upper_ipcp then popped.1.rcv_next_seq_num else d.rcv.rcv_lwe;
      };
    } in
    let kept = sdu_rx_sv_update-SameQueue env cfg false e in
    let q : r.dtp.rcv.q ≡ count_rx rb popped.1 = ground (arith, kept, gap, after) in
    let drf : r.dtp.rcv.drf_expected ≡ false = ground (arith, kept, gap, after) in
    let up : pdus r.up ≡ rb ∷ popped.0 = ground (arith, gap, after, pdus-ups rb.seqnum popped.0) in
    Arrival-Arrives cfg rb d.rcv.q r (rb ∷ popped.0) (count_rx rb popped.1) (Arrival.delivered next)
      up q drf

rx_new-Arrives :
    (env : Env) (cfg : Config) (rb : Pdu) (d : Dtp)
    → cfg.max_sdu_gap ≡ 0
    → d.rcv.drf_expected ≡ false
    → rb.seqnum + 1 < 2 ^ 32
    → d.rcv.q.rcv_next_seq_num ≤ rb.seqnum
    → Arrives cfg rb d.rcv.q (rx_new env cfg rb d)
unfolding rx_new
rx_new-Arrives env cfg rb d strict begun small new =
    let e =
      if ltb d.rcv.max_seq_num_rcvd rb.seqnum
      then record d { rcv = record d.rcv { max_seq_num_rcvd = rb.seqnum } }
      else d in
    let gap = sub64 rb.seqnum d.rcv.q.rcv_next_seq_num % 2 ^ 32 in
    let right : gap ≡ rb.seqnum - d.rcv.q.rcv_next_seq_num = omega arith in
    let q : e.rcv.q ≡ d.rcv.q = ground arith in
    let drf : e.rcv.drf_expected ≡ false = ground arith in
    let next = ap Receiver.rcv_next_seq_num q in
    let from_d =
      λ (r : Received) (a : Arrives cfg rb e.rcv.q r). subst (λ x. Arrives cfg rb x r) q a in
    let lossy = (cfg.in_order_delivery || dtcp_present cfg) && not cfg.dtcp.rtx_ctrl in
    elim (dec_lt d.rcv.q.rcv_next_seq_num rb.seqnum) [
      | no same ↦
          let step : rx_new env cfg rb d ≡ rx_deliver env cfg rb e = ground arith in
          from_d (rx_new env cfg rb d) (
            subst (Arrives cfg rb e.rcv.q) (sym step)
              (rx_deliver-Arrives env cfg rb e strict drf small (omega (arith, next))))
      | yes after ↦ elim (Bool-cases lossy) [
        | inl strictly ↦
            let step : rx_new env cfg rb d ≡ rx_drop env cfg e = ground arith in
            from_d (rx_new env cfg rb d) (
              subst (Arrives cfg rb e.rcv.q) (sym step)
                (rx_drop-Arrives env cfg rb e drf (omega (arith, next)) (ground arith)))
        | inr loosely ↦
            let r = rx_new env cfg rb d in
            let pushed : r.dtp.rcv.q ≡ seqq_push rb d.rcv.q = ground (arith, q) in
            let kept : r.dtp.rcv.drf_expected ≡ false = ground arith in
            let up : pdus r.up ≡ [] = ground arith in
            Arrival-Arrives cfg rb d.rcv.q r [] (seqq_push rb d.rcv.q) (Arrival.queued after) up
              pushed kept
      ]
    ]

pub sdu_rx_data-Arrives :
    (env : Env) (cfg : Config) (rb : Pdu) (d : Dtp)
    → cfg.max_sdu_gap ≡ 0
    → d.rcv.drf_expected ≡ false
    → rb.drf ≡ false
    → rb.seqnum + 1 < 2 ^ 32
    → Arrives cfg rb d.rcv.q (sdu_rx_data env cfg rb d)
unfolding sdu_rx_data
sdu_rx_data-Arrives env cfg rb d strict begun plain small =
    let e =
      if dtcp_present cfg
      then record d {
        rcv = record d.rcv { rcv_inact_tmr = some ((env.jiffies + 2 * d.mpl_r_a) % 2 ^ 64) };
      }
      else d in
    let q : e.rcv.q ≡ d.rcv.q = ground arith in
    let drf : e.rcv.drf_expected ≡ false = ground arith in
    let next = ap Receiver.rcv_next_seq_num q in
    let from_e = λ (a : Arrives cfg rb e.rcv.q (sdu_rx_data env cfg rb d)).
      subst (λ x. Arrives cfg rb x (sdu_rx_data env cfg rb d)) q a in
    elim (dec_lt rb.seqnum d.rcv.q.rcv_next_seq_num) [
      | yes before ↦
          let step : sdu_rx_data env cfg rb d ≡ rx_duplicate env cfg e = ground arith in
          from_e (
            subst (Arrives cfg rb e.rcv.q) (sym step)
              (rx_duplicate-Arrives env cfg rb e drf (omega (arith, next))))
      | no new ↦
          let step : sdu_rx_data env cfg rb d ≡ rx_new env cfg rb e = ground arith in
          from_e (
            subst (Arrives cfg rb e.rcv.q) (sym step)
              (rx_new-Arrives env cfg rb e strict drf small (omega (arith, next))))
    ]
