-- ===== src/Kernel/Efcp/Acks.antt =====
-- What an acknowledgement frees from the retransmission queue of kernel/normal.c.
use rlite.Base.{
  subst, ℕ, ◌+◌, ◌-◌, ◌%◌, ◌≡◌, ◌≢◌, some, ◌≤◌, refl, ap, sym, ◌∙◌, inl, inr, List, [], ◌∷◌, ◌++◌,
  arith, length, All, Bool-cases, ◌==◌,
}
use native.Mathlib.Decide.{dec_lt}
use rlite.Kernel.Seqq.{Pdu}
use rlite.Kernel.Seqq.Order.{Ascends}
use rlite.Kernel.Efcp.Types.{Env, Rtx, Snd, CtrlPdu}
use rlite.Kernel.Efcp.Control.{update_rtt, ack_rtxq, acknowledge}
use rlite.Kernel.Efcp.Opening.{kept_pdus, SameWindow}
use rlite.Kernel.Efcp.Complete.{Under}

abbrev pub AtLeast : ℕ → Pdu → Type 0
AtLeast n p = n ≤ p.seqnum

-- What is left of a queue `qs` after the acknowledgement of all numbers below `n`.
pub record Frees (n : ℕ) (qs : List Rtx) (s t : Snd) : Type 0 where
  pub acked : List Pdu
  pub all : kept_pdus qs ≡ acked ++ kept_pdus t.rtxq
  pub below : All (Under n) acked
  pub later : All (AtLeast n) (kept_pdus t.rtxq)
  pub counted : t.rtxq_len ≡ length t.rtxq
  pub window : SameWindow s t

update_rtt-SameWindow :
    (now : ℕ) (cur : Rtx) (s : Snd)
    → SameWindow s (update_rtt now cur s) × ((update_rtt now cur s).rtxq_len ≡ s.rtxq_len)
unfolding update_rtt
update_rtt-SameWindow now cur s = elim (Bool-cases (cur.jiffies == 0)) [
  | inl again ↦ ground arith
  | inr once ↦ ground arith
]

Ascends-AtLeast : (n k : ℕ) (ps : List Pdu) → n ≤ k → Ascends k ps → All (AtLeast n) ps
Ascends-AtLeast n k [] le h = tt
Ascends-AtLeast n k (p ∷ ps) le h =
    (omega (arith, h.0), Ascends-AtLeast n (p.seqnum + 1) ps (omega (arith, h.0)) h.2)

ack_rtxq-Frees :
    (now n k : ℕ) (qs : List Rtx) (s : Snd)
    → s.rtxq_len ≡ length qs
    → Ascends k (kept_pdus qs)
    → Frees n qs s (ack_rtxq now n qs s)
unfolding ack_rtxq
ack_rtxq-Frees now n k [] s counted order = record {
  acked = [];
  all = refl;
  below = tt;
  later = tt;
  counted = counted;
  window = ((refl, refl, refl, refl), refl, refl, refl);
}
ack_rtxq-Frees now n k (q ∷ qs) s counted order =
    let t = update_rtt now q (record s { rtxq_len = s.rtxq_len - 1 }) in
    let (same, shorter) = update_rtt-SameWindow now q (record s { rtxq_len = s.rtxq_len - 1 }) in
    elim (dec_lt q.pdu.seqnum n) [
      | yes acked ↦
          let rest =
            ack_rtxq-Frees now n (q.pdu.seqnum + 1) qs t (omega (arith, shorter)) order.2 in
          let step : ack_rtxq now n (q ∷ qs) s ≡ ack_rtxq now n qs t = ground arith in
          subst (Frees n (q ∷ qs) s) (sym step) (record {
            acked = q.pdu ∷ rest.acked;
            all = ap (◌∷◌ q.pdu) rest.all;
            below = (acked, rest.below);
            later = rest.later;
            counted = rest.counted;
            window = ground (arith, rest.window, same);
          })
      | no later ↦
          let u = record s { rtxq = q ∷ qs; rtx_tmr = some q.rtx_jiffies } in
          let step : ack_rtxq now n (q ∷ qs) s ≡ u = ground arith in
          subst (Frees n (q ∷ qs) s) (sym step) (record {
            acked = [];
            all = refl;
            below = tt;
            later =
                Ascends-AtLeast n q.pdu.seqnum (kept_pdus (q ∷ qs)) (omega arith)
                  (omega arith, order.1, order.2);
            counted = counted;
            window = ((refl, refl, refl, refl), refl, refl, refl);
          })
    ]

pub acknowledge-Frees :
    (env : Env) (pcic : CtrlPdu) (k : ℕ) (s : Snd)
    → pcic.pdu_type % 4 ≡ 0
    → s.rtxq_len ≡ length s.rtxq
    → Ascends k (kept_pdus s.rtxq)
    → Frees pcic.ack_nack_seq_num s.rtxq s (acknowledge env pcic s)
unfolding acknowledge
acknowledge-Frees env pcic k s ack counted order =
    let t = ack_rtxq env.jiffies pcic.ack_nack_seq_num s.rtxq s in
    let frees = ack_rtxq-Frees env.jiffies pcic.ack_nack_seq_num k s.rtxq s counted order in
    let u = acknowledge env pcic s in
    let rtxq : u.rtxq ≡ t.rtxq = ground arith in
    record {
      acked = frees.acked;
      all = frees.all ∙ ap (λ r. frees.acked ++ kept_pdus r) (sym rtxq);
      below = frees.below;
      later = subst (λ r. All (AtLeast pcic.ack_nack_seq_num) (kept_pdus r)) (sym rtxq) frees.later;
      counted = ground (arith, frees.counted);
      window = ground (arith, frees.window);
    }

-- Other types than PDU_T_ACK change nothing.
pub acknowledge-other :
    (env : Env) (pcic : CtrlPdu) (s : Snd) → pcic.pdu_type % 4 ≢ 0 → acknowledge env pcic s ≡ s
unfolding acknowledge
acknowledge-other env pcic s other = ground arith
