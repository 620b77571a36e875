-- ===== src/Kernel/Efcp/Accepted.antt =====
-- The results of a write to a reliable flow under a window of kernel/normal.c.
use rlite.Base.{
  subst, ℕ, ◌+◌, ◌*◌, ◌%◌, ◌^◌, ◌≡◌, ◌<◌, ◌≤◌, refl, ap, sym, ◌∙◌, inl, inr, Bool, true, false,
  Option, none, some, List, [], ◌∷◌, ◌++◌, arith, length, append-nil, Bool-cases,
}
use native.Mathlib.Decide.{dec_lt}
use rlite.Kernel.Seqq.{Pdu}
use rlite.Kernel.Efcp.Types.{Config, Env, Snd, is_window, dtcp_present}
use rlite.Kernel.Efcp.Send.{
  Sdu, WriteResult, Written, flow_blocked, pdu_of_sdu, write_shaped, send_now, hand_over, pci_size,
}
use rlite.Kernel.Efcp.Opening.{kept_pdus, SameWindow, rl_rtxq_push-Keeps}
use rlite.Kernel.Efcp.Window.{IsReliable, IsSender, SameWindow-IsSender}
use rlite.Kernel.Efcp.Writing.{numbered, queued_new, sent_new}

-- What the user of a flow has written, by the result of the write.
abbrev pub accepted : WriteResult → List ℕ → List (List ℕ)
accepted WriteResult.success bytes = bytes ∷ []
accepted _ bytes = []

pub accepted-length : (r : WriteResult) (bytes : List ℕ) → length (accepted r bytes) ≤ 1
accepted-length WriteResult.success bytes = omega arith
accepted-length WriteResult.again bytes = omega arith
accepted-length WriteResult.no_space bytes = omega arith
accepted-length WriteResult.no_memory bytes = omega arith
accepted-length WriteResult.interrupted bytes = omega arith

abbrev pub handed : Option Pdu → List Pdu
handed none = []
handed (some pdu) = pdu ∷ []

-- What a write leaves: the sender of what was written before, and of this if it was accepted.
abbrev pub Writes : List (List ℕ) → List Pdu → Sdu → Written → Type 0
Writes written sent rb w =
    IsSender (written ++ accepted w.ret rb.bytes) (sent ++ handed w.sent) w.snd

-- A write that is refused changes nothing that matters.
refused :
    (written : List (List ℕ)) (sent : List Pdu) (rb : Sdu) (s t : Snd) (r : WriteResult)
    → IsSender written sent s
    → accepted r rb.bytes ≡ []
    → SameWindow s t
    → t.rtxq ≡ s.rtxq
    → t.rtxq_len ≡ s.rtxq_len
    → Writes written sent rb (record { ret = r; sent = none; snd = t })
refused written sent rb s t r v nothing same rtxq len =
    let u =
      SameWindow-IsSender written sent s t v same v.acked
        (v.kept ∙ ap (λ q. v.acked ++ kept_pdus q) (sym rtxq))
        (len ∙ v.kept_counted ∙ ap length (sym rtxq)) in
    let same_written : written ≡ written ++ accepted r rb.bytes =
      sym (append-nil written) ∙ ap (λ x. written ++ x) (sym nothing) in
    subst (λ x. IsSender x (sent ++ []) t) same_written
      (subst (λ ps. IsSender written ps t) (sym (append-nil sent)) u)

flow_blocked-room :
    (cfg : Config) (s : Snd)
    → is_window cfg.dtcp.fc_type ≡ true
    → flow_blocked cfg s ≡ false
    → s.snd_rwe < s.next_seq_num_to_use
    → s.cwq_len < s.max_cwq_len
unfolding flow_blocked
flow_blocked-room cfg s window ready outside = ground arith

pub write_shaped-Writes :
    (env : Env) (cfg : Config) (rmt_tx : Bool → WriteResult) (mpl_r_a : ℕ) (rb : Sdu)
    (written : List (List ℕ)) (sent : List Pdu) (s : Snd)
    → env.memory ≡ true
    → rmt_tx true ≡ WriteResult.success
    → IsReliable cfg
    → IsSender written sent s
    → length written < 2 ^ 32
    → Writes written sent rb (write_shaped env cfg rmt_tx mpl_r_a rb s)
unfolding write_shaped send_now hand_over
write_shaped-Writes env cfg rmt_tx mpl_r_a rb written sent s enough passes reliable v small =
    let w = write_shaped env cfg rmt_tx mpl_r_a rb s in
    let pdu = pdu_of_sdu rb s in
    let windowed : is_window cfg.dtcp.fc_type ≡ true = ap is_window reliable.window in
    let present : dtcp_present cfg ≡ true = ground (arith, reliable.rtx_ctrl) in
    let next = v.numbered in
    elim (Bool-cases (flow_blocked cfg s)) [
      | inl blocked ↦
          let step : w ≡ record {
            ret = WriteResult.again;
            sent = none;
            snd = record s { snd_inact_tmr = none };
          } =
            ground arith in
          subst (Writes written sent rb) (sym step) (
            refused written sent rb s (record s { snd_inact_tmr = none }) WriteResult.again v refl
              ((refl, refl, refl, refl), refl, refl, refl) refl refl)
      | inr ready ↦ elim (dec_lt rb.headroom pci_size) [
        | yes tight ↦
            let step : w ≡ record {
              ret = WriteResult.no_space;
              sent = none;
              snd = record s { tx_err = s.tx_err + 1 };
            } =
              ground arith in
            subst (Writes written sent rb) (sym step) (
              refused written sent rb s (record s { tx_err = s.tx_err + 1 }) WriteResult.no_space v
                refl ((refl, refl, refl, refl), refl, refl, refl) refl refl)
        | no fits ↦ elim (dec_lt s.snd_rwe pdu.seqnum) [
          | yes outside ↦
              let t = record (numbered s) { cwq = s.cwq ++ pdu ∷ []; cwq_len = s.cwq_len + 1 } in
              let step : w ≡ record { ret = WriteResult.success; sent = none; snd = t } =
                ground (arith, present, windowed) in
              subst (Writes written sent rb) (sym step) (
                subst (λ ps. IsSender (written ++ rb.bytes ∷ []) ps t) (sym (append-nil sent))
                  (queued_new written sent rb s v small (omega arith)
                    (flow_blocked-room cfg s windowed ready (omega arith))))
          | no inside ↦
              let t = record (numbered s) { last_seq_num_sent = pdu.seqnum } in
              let (u, pushed, keeps, same) = rl_rtxq_push-Keeps env cfg pdu t enough in
              let started = record u {
                snd_inact_tmr = some ((env.jiffies + 3 * mpl_r_a) % 2 ^ 64);
                tx_pkt = u.tx_pkt + 1;
                tx_byte = u.tx_byte + pdu.len;
              } in
              let step : w ≡ record { ret = WriteResult.success; sent = some pdu; snd = started } =
                ground (arith, present, windowed, pushed, passes, reliable.rtx_ctrl) in
              subst (Writes written sent rb) (sym step)
                (sent_new written sent rb s v small (omega arith) started keeps same)
        ]
      ]
    ]
