-- ===== src/Kernel/Efcp/Resending.antt =====
-- What the retransmission timer of kernel/normal.c sends again.
use rlite.Base.{
  subst, ℕ, ◌≡◌, refl, ap, sym, ◌∙◌, inl, inr, ◌&&◌, Option, none, List, [], ◌∷◌, ◌++◌, arith,
  length, All, All-split, Bool-cases,
}
use rlite.Kernel.Seqq.{Pdu}
use rlite.Kernel.Efcp.Types.{Config, Env, Rtx, Dtp}
use rlite.Kernel.Efcp.Send.{rtt_to_rtx}
use rlite.Kernel.Efcp.Timers.{earliest, is_expired, postpone, scan_rtxq, rtx_tmr_cb}
use rlite.Kernel.Efcp.Opening.{kept_pdus, length-kept_pdus}
use rlite.Kernel.Efcp.Window.{Carries, IsSender, SameWindow-IsSender}

postpone-pdu : (env : Env) (timeout : ℕ) (r : Rtx) → (postpone env timeout r).pdu ≡ r.pdu
unfolding postpone
postpone-pdu env timeout r = ground arith

-- The scan for what is to be sent again takes nothing out of the queue.
scan_rtxq-kept :
    (env : Env) (timeout : ℕ) (next_exp : Option ℕ) (rs : List Rtx)
    → kept_pdus (scan_rtxq env timeout next_exp rs).rtxq ≡ kept_pdus rs
unfolding scan_rtxq
scan_rtxq-kept env timeout next_exp [] = refl
scan_rtxq-kept env timeout next_exp (r ∷ rs) =
    let cur = postpone env timeout r in
    let later = earliest env cur.rtx_jiffies next_exp in
    let rest = scan_rtxq-kept env timeout later rs in
    let rtxq : (scan_rtxq env timeout next_exp (r ∷ rs)).rtxq
        ≡ cur ∷ (scan_rtxq env timeout later rs).rtxq =
      ground arith in
    ap kept_pdus rtxq
    ∙ ap (λ p. p ∷ kept_pdus (scan_rtxq env timeout later rs).rtxq) (postpone-pdu env timeout r)
    ∙ ap (◌∷◌ r.pdu) rest

scan_rtxq-All :
    (P : Pdu → Type 0) (env : Env) (timeout : ℕ) (next_exp : Option ℕ) (rs : List Rtx)
    → All P (kept_pdus rs)
    → All P (scan_rtxq env timeout next_exp rs).rrbq
unfolding scan_rtxq
scan_rtxq-All P env timeout next_exp [] h = tt
scan_rtxq-All P env timeout next_exp (r ∷ rs) h =
    let later = earliest env (postpone env timeout r).rtx_jiffies next_exp in
    let rest = scan_rtxq-All P env timeout later rs h.1 in
    let r' = scan_rtxq env timeout later rs in
    elim (Bool-cases (is_expired env r && env.memory)) [
      | inl again ↦
          let rrbq : (scan_rtxq env timeout next_exp (r ∷ rs)).rrbq ≡ r.pdu ∷ r'.rrbq =
            ground arith in
          subst (All P) (sym rrbq) (h.0, rest)
      | inr not_yet ↦
          let rrbq : (scan_rtxq env timeout next_exp (r ∷ rs)).rrbq ≡ r'.rrbq = ground arith in
          subst (All P) (sym rrbq) rest
    ]

pub rtx_tmr_cb-IsSender :
    (env : Env) (cfg : Config) (written : List (List ℕ)) (sent : List Pdu) (d : Dtp)
    → IsSender written sent d.snd
    → IsSender written sent (rtx_tmr_cb env cfg d).1.snd
      × All (Carries written) (rtx_tmr_cb env cfg d).0
unfolding rtx_tmr_cb
rtx_tmr_cb-IsSender env cfg written sent d v =
    let s = d.snd in
    let t = (rtx_tmr_cb env cfg d).1.snd in
    let timeout = rtt_to_rtx cfg s in
    let same : kept_pdus t.rtxq ≡ kept_pdus s.rtxq = scan_rtxq-kept env timeout none s.rtxq in
    let waiting = All-split (Carries written) sent s.cwq v.carried in
    let kept =
      All-split (Carries written) v.acked (kept_pdus s.rtxq)
        (subst (All (Carries written)) v.kept waiting.0) in
    (
      SameWindow-IsSender written sent s t v ((refl, refl, refl, refl), refl, refl, refl) v.acked
          (v.kept ∙ ap (λ ps. v.acked ++ ps) (sym same))
          (omega (
            arith,
            v.kept_counted,
            ap length same,
            length-kept_pdus s.rtxq,
            length-kept_pdus t.rtxq,
          )),
      scan_rtxq-All (Carries written) env timeout none s.rtxq kept.1,
    )
