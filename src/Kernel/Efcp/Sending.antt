-- ===== src/Kernel/Efcp/Sending.antt =====
-- Writes to a reliable flow under a window of kernel/normal.c, and the control PDUs that it gets.
use rlite.Base.{
  if◌then◌else◌, subst, ℕ, ◌+◌, ◌^◌, ◌≡◌, ◌<◌, ◌≤◌, ◌⊎◌, refl, ap, sym, ◌∙◌, inl, inr, true, List,
  [], ◌∷◌, ◌++◌, arith, length, append-nil, Bool-cases, ltb, ◌||◌, not,
}
use rlite.Kernel.Seqq.{Pdu}
use rlite.Kernel.Efcp.Types.{Config, Env, Snd, CtrlPdu, has_bit, is_ctrl, Dtp}
use rlite.Kernel.Efcp.Control.{
  sdu_rx_ctrl, is_duplicate, count_sent, Opened, flow_control, ctrl_new, acknowledge, pop_cwq,
}
use rlite.Kernel.Efcp.Opening.{kept_pdus, SameWindow, pop_cwq-Opens}
use rlite.Kernel.Efcp.Window.{
  IsReliable, IsSender, SameWindow-IsSender, acknowledge-IsSender, Opens-IsSender,
}

-- A control PDU opens a window, never closes it.
flow_control-IsSender :
    (env : Env) (cfg : Config) (pcic : CtrlPdu) (written : List (List ℕ)) (sent : List Pdu)
    (s : Snd)
    → env.memory ≡ true
    → IsReliable cfg
    → IsSender written sent s
    → length written < 2 ^ 32
    → IsSender written
        (sent ++ (flow_control env cfg pcic s).qrbs)
        (flow_control env cfg pcic s).snd
      × (s.snd_rwe ≤ (flow_control env cfg pcic s).snd.snd_rwe)
unfolding flow_control
flow_control-IsSender env cfg pcic written sent s enough reliable v small =
    let r = flow_control env cfg pcic s in
    let goal =
      λ (r : Opened). IsSender written (sent ++ r.qrbs) r.snd × (s.snd_rwe ≤ r.snd.snd_rwe) in
    elim (Bool-cases (ltb pcic.new_rwe s.snd_rwe || ltb pcic.new_lwe s.snd_lwe)) [
      | inl backward ↦
          let step : flow_control env cfg pcic s ≡ record { qrbs = []; snd = s } = ground arith in
          subst goal (sym step)
            (subst (λ ps. IsSender written ps s) (sym (append-nil sent)) v, omega arith)
      | inr forward ↦
          let t = record s { snd_rwe = pcic.new_rwe; snd_lwe = pcic.new_lwe } in
          let step : flow_control env cfg pcic s ≡ pop_cwq env cfg s.cwq t = ground arith in
          let wider : s.snd_rwe ≤ t.snd_rwe = ground arith in
          let started : (s.cwq ≡ []) ⊎ (1 ≤ length sent) = elim v.closed [
            | inl empty ↦ inl empty
            | inr full ↦ inr (omega arith)
          ] in
          let opens =
            pop_cwq-Opens env cfg (length sent) s.cwq t v.last v.wide (omega (arith, v.in_window))
              started (omega (arith, v.complete)) v.counted enough reliable.rtx_ctrl in
          let q = pop_cwq env cfg s.cwq t in
          subst goal (sym step) (
            Opens-IsSender written sent s pcic.new_rwe pcic.new_lwe q v opens,
            omega (arith, opens.numbers.0),
          )
    ]

-- A control PDU that is not a duplicate.
pub ctrl_new-IsSender :
    (env : Env) (cfg : Config) (pcic : CtrlPdu) (written : List (List ℕ)) (sent : List Pdu)
    (s : Snd)
    → env.memory ≡ true
    → IsReliable cfg
    → IsSender written sent s
    → length written < 2 ^ 32
    → IsSender written (sent ++ (ctrl_new env cfg pcic s).qrbs) (ctrl_new env cfg pcic s).snd
unfolding ctrl_new
ctrl_new-IsSender env cfg pcic written sent s enough reliable v small =
    let t = record s { last_ctrl_seq_num_rcvd = pcic.seqnum } in
    let u =
      SameWindow-IsSender written sent s t v ((refl, refl, refl, refl), refl, refl, refl) v.acked
        v.kept v.kept_counted in
    let r =
      if has_bit 8 pcic.pdu_type
      then flow_control env cfg pcic t
      else record { qrbs = []; snd = t } in
    let opened : IsSender written (sent ++ r.qrbs) r.snd =
      elim (Bool-cases (has_bit 8 pcic.pdu_type)) [
        | inl fc ↦
            let step : r ≡ flow_control env cfg pcic t = ground arith in
            subst (λ x. IsSender written (sent ++ x.qrbs) x.snd) (sym step)
              (flow_control-IsSender env cfg pcic written sent t enough reliable u small).0
        | inr other ↦
            let step : r ≡ record { qrbs = []; snd = t } = ground arith in
            subst (λ x. IsSender written (sent ++ x.qrbs) x.snd) (sym step)
              (subst (λ ps. IsSender written ps t) (sym (append-nil sent)) u)
      ] in
    elim (Bool-cases (has_bit 4 pcic.pdu_type)) [
      | inl ack ↦
          let step : ctrl_new env cfg pcic s ≡ record r { snd = acknowledge env pcic r.snd } =
            ground arith in
          subst (λ x. IsSender written (sent ++ x.qrbs) x.snd) (sym step)
            (acknowledge-IsSender env pcic written (sent ++ r.qrbs) r.snd opened small)
      | inr no_ack ↦
          let step : ctrl_new env cfg pcic s ≡ r = ground arith in
          subst (λ x. IsSender written (sent ++ x.qrbs) x.snd) (sym step) opened
    ]

count_sent-SameWindow :
    (ps : List Pdu) (s : Snd)
    → SameWindow s (count_sent ps s)
      × ((count_sent ps s).rtxq ≡ s.rtxq)
      × ((count_sent ps s).rtxq_len ≡ s.rtxq_len)
count_sent-SameWindow [] s = (((refl, refl, refl, refl), refl, refl, refl), refl, refl)
count_sent-SameWindow (p ∷ ps) s =
    count_sent-SameWindow ps (record s { tx_pkt = s.tx_pkt + 1; tx_byte = s.tx_byte + p.len })

-- The same members and PDUs as another result.
same_result :
    (written : List (List ℕ)) (sent ps qs : List Pdu) (s t : Snd)
    → ps ≡ qs
    → s ≡ t
    → IsSender written (sent ++ qs) t
    → IsSender written (sent ++ ps) s
same_result written sent ps qs s t same_pdus same v =
    subst (λ x. IsSender written (sent ++ x) s) (sym same_pdus)
      (subst (IsSender written (sent ++ qs)) (sym same) v)

pub sdu_rx_ctrl-IsSender :
    (env : Env) (cfg : Config) (pcic : CtrlPdu) (written : List (List ℕ)) (sent : List Pdu)
    (d : Dtp)
    → env.memory ≡ true
    → IsReliable cfg
    → IsSender written sent d.snd
    → length written < 2 ^ 32
    → IsSender written (sent ++ (sdu_rx_ctrl env cfg pcic d).0) (sdu_rx_ctrl env cfg pcic d).1.snd
unfolding sdu_rx_ctrl
sdu_rx_ctrl-IsSender env cfg pcic written sent d enough reliable v small =
    let (ps, e) = sdu_rx_ctrl env cfg pcic d in
    let unchanged = subst (λ xs. IsSender written xs d.snd) (sym (append-nil sent)) v in
    elim (Bool-cases (not (is_ctrl pcic.pdu_type) || is_duplicate pcic d.snd)) [
      | inl ignored ↦
          same_result written sent ps [] e.snd d.snd (ground arith) (ground arith) unchanged
      | inr new ↦
          let r = ctrl_new env cfg pcic d.snd in
          let w = ctrl_new-IsSender env cfg pcic written sent d.snd enough reliable v small in
          let (same, rtxq, rtxq_len) = count_sent-SameWindow r.qrbs r.snd in
          let t = count_sent r.qrbs r.snd in
          same_result written sent ps r.qrbs e.snd t (ground arith) (ground arith) (
            SameWindow-IsSender written (sent ++ r.qrbs) r.snd t w same w.acked
              (w.kept ∙ ap (λ q. w.acked ++ kept_pdus q) (sym rtxq))
              (rtxq_len ∙ w.kept_counted ∙ ap length (sym rtxq)))
    ]
