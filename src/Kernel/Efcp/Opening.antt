-- ===== src/Kernel/Efcp/Opening.antt =====
-- What leaves the closed window queue of kernel/normal.c when a control PDU opens the window.
use rlite.Base.{
  subst, ℕ, suc, ◌+◌, ◌-◌, ◌%◌, ◌^◌, ◌≡◌, ◌<◌, ◌≤◌, ◌⊎◌, refl, ap, sym, ◌∙◌, inl, inr, true, some,
  append_assoc, append-nil, List, [], ◌∷◌, ◌++◌, arith, length,
}
use native.Mathlib.Decide.{dec_lt}
use rlite.Kernel.Seqq.{Pdu}
use rlite.Kernel.Efcp.Types.{Config, Env, Rtx, Snd}
use rlite.Kernel.Efcp.Send.{rl_rtxq_push, rtt_to_rtx, start_tmr}
use rlite.Kernel.Efcp.Control.{Opened, pop_one, pop_cwq}

-- The PDUs of a retransmission queue.
abbrev pub kept_pdus : List Rtx → List Pdu
kept_pdus [] = []
kept_pdus (r ∷ rs) = r.pdu ∷ kept_pdus rs

kept_pdus-append : (xs ys : List Rtx) → kept_pdus (xs ++ ys) ≡ kept_pdus xs ++ kept_pdus ys
kept_pdus-append [] ys = refl
kept_pdus-append (x ∷ xs) ys = ap (◌∷◌ x.pdu) (kept_pdus-append xs ys)

pub length-kept_pdus : (rs : List Rtx) → length (kept_pdus rs) ≡ length rs
length-kept_pdus [] = refl
length-kept_pdus (r ∷ rs) = ap suc (length-kept_pdus rs)

-- More PDUs are kept for retransmission, after the old ones.
abbrev pub Keeps : List Pdu → Snd → Snd → Type 0
Keeps ps s t = (kept_pdus t.rtxq ≡ kept_pdus s.rtxq ++ ps) × (t.rtxq_len ≡ s.rtxq_len + length ps)

-- The members that say which numbers are in use.
abbrev pub SameNumbers : Snd → Snd → Type 0
SameNumbers s t =
    (t.snd_rwe ≡ s.snd_rwe)
    × (t.next_seq_num_to_use ≡ s.next_seq_num_to_use)
    × (t.drf_set ≡ s.drf_set)
    × (t.max_cwq_len ≡ s.max_cwq_len)

-- The closed window queue and its length.
abbrev pub SameWindow : Snd → Snd → Type 0
SameWindow s t =
    SameNumbers s t
    × (t.cwq ≡ s.cwq)
    × (t.cwq_len ≡ s.cwq_len)
    × (t.last_seq_num_sent ≡ s.last_seq_num_sent)

-- What leaves a queue `qs` when `n` PDUs were sent before, in order, and what the state is then.
pub record Opens (n : ℕ) (qs : List Pdu) (s : Snd) (r : Opened) : Type 0 where
  pub all : r.qrbs ++ r.snd.cwq ≡ qs
  pub last : (r.snd.last_seq_num_sent + 1) % 2 ^ 64 ≡ n + length r.qrbs
  pub wide : r.snd.last_seq_num_sent < 2 ^ 64
  pub in_window : n + length r.qrbs ≤ s.snd_rwe + 1
  pub closed : (r.snd.cwq ≡ []) ⊎ (n + length r.qrbs ≡ s.snd_rwe + 1)
  pub counted : r.snd.cwq_len ≡ length r.snd.cwq
  pub numbers : SameNumbers s r.snd
  pub kept : Keeps r.qrbs s r.snd

abbrev kept_as : Env → Config → Pdu → Snd → Rtx
kept_as env cfg rb s = record {
  pdu = rb;
  rtx_jiffies = (env.jiffies + rtt_to_rtx cfg s) % 2 ^ 64;
  jiffies = env.jiffies;
}

pub rl_rtxq_push-Keeps :
    (env : Env) (cfg : Config) (rb : Pdu) (s : Snd)
    → env.memory ≡ true
    → (t : Snd) × (rl_rtxq_push env cfg rb s ≡ some t) × Keeps (rb ∷ []) s t × SameWindow s t
unfolding rl_rtxq_push
rl_rtxq_push-Keeps env cfg rb s enough =
    let kept = kept_as env cfg rb s in
    let t = record s {
      rtxq = s.rtxq ++ kept ∷ [];
      rtxq_len = s.rtxq_len + 1;
      rtx_tmr = start_tmr kept.rtx_jiffies s.rtx_tmr;
    } in
    (t, ground arith, (kept_pdus-append s.rtxq (kept ∷ []), refl), ground arith)

-- One PDU more was sent from the closed window queue.
abbrev MovesOn : Snd → Snd → Type 0
MovesOn s t =
    SameNumbers s t
    × (t.cwq_len ≡ s.cwq_len - 1)
    × (t.last_seq_num_sent ≡ (s.last_seq_num_sent + 1) % 2 ^ 64)

pop_one-MovesOn :
    (env : Env) (cfg : Config) (qrb : Pdu) (s : Snd)
    → env.memory ≡ true
    → cfg.dtcp.rtx_ctrl ≡ true
    → Keeps (qrb ∷ []) s (pop_one env cfg qrb s) × MovesOn s (pop_one env cfg qrb s)
unfolding pop_one
pop_one-MovesOn env cfg qrb s enough reliable =
    let t = record s {
      cwq_len = s.cwq_len - 1;
      last_seq_num_sent = (s.last_seq_num_sent + 1) % 2 ^ 64;
    } in
    let (u, pushed, keeps, same) = rl_rtxq_push-Keeps env cfg qrb t enough in
    let v = record u { tx_pkt = u.tx_pkt + 1; tx_byte = u.tx_byte + qrb.len } in
    let step : pop_one env cfg qrb s ≡ v = ground arith in
    subst (λ x. Keeps (qrb ∷ []) s x × MovesOn s x) (sym step)
      (keeps, (same.0, ground (arith, same), ground (arith, same)))

pub pop_cwq-Opens :
    (env : Env) (cfg : Config) (n : ℕ) (qs : List Pdu) (s : Snd)
    → (s.last_seq_num_sent + 1) % 2 ^ 64 ≡ n
    → s.last_seq_num_sent < 2 ^ 64
    → n ≤ s.snd_rwe + 1
    → (qs ≡ []) ⊎ (1 ≤ n)
    → n + length qs < 2 ^ 32
    → s.cwq_len ≡ length qs
    → env.memory ≡ true
    → cfg.dtcp.rtx_ctrl ≡ true
    → Opens n qs s (pop_cwq env cfg qs s)
unfolding pop_cwq
pop_cwq-Opens env cfg n [] s last wide in_window started small counted enough reliable = record {
  all = refl;
  last = omega (arith, last);
  wide = wide;
  in_window = omega arith;
  closed = inl refl;
  counted = counted;
  numbers = (refl, refl, refl, refl);
  kept = (sym (append-nil (kept_pdus s.rtxq)), omega arith);
}
pop_cwq-Opens env cfg n (q ∷ qs) s last wide in_window started small counted enough reliable =
    let some_sent : 1 ≤ n = elim started [ inl empty ↦ absurd (cc) | inr sent ↦ sent ] in
    let before : s.last_seq_num_sent + 1 ≡ n = omega arith in
    let t = pop_one env cfg q s in
    let (keeps, (numbers, shorter, moved)) = pop_one-MovesOn env cfg q s enough reliable in
    let rest = pop_cwq-Opens env cfg (n + 1) qs t (omega (arith, moved)) (omega (arith, moved)) in
    let r = pop_cwq env cfg qs t in
    elim (dec_lt s.last_seq_num_sent s.snd_rwe) [
      | no full ↦
          let step : pop_cwq env cfg (q ∷ qs) s
              ≡ record { qrbs = []; snd = record s { cwq = q ∷ qs } } =
            ground arith in
          subst (Opens n (q ∷ qs) s) (sym step) (record {
            all = refl;
            last = omega (arith, last);
            wide = wide;
            in_window = omega arith;
            closed = inr (omega arith);
            counted = counted;
            numbers = (refl, refl, refl, refl);
            kept = (sym (append-nil (kept_pdus s.rtxq)), omega arith);
          })
      | yes inside ↦
          let opens =
            rest (omega (arith, numbers.0)) (inr (omega arith)) (omega arith)
              (omega (arith, shorter)) enough reliable in
          let step : pop_cwq env cfg (q ∷ qs) s ≡ record { qrbs = q ∷ r.qrbs; snd = r.snd } =
            ground arith in
          subst (Opens n (q ∷ qs) s) (sym step) (record {
            all = ap (◌∷◌ q) opens.all;
            last = omega (arith, opens.last);
            wide = opens.wide;
            in_window = omega (arith, opens.in_window, numbers.0);
            closed = elim opens.closed [
              | inl none_left ↦ inl none_left
              | inr at_edge ↦ inr (omega (arith, numbers.0))
            ];
            counted = opens.counted;
            numbers = ground (arith, opens.numbers, numbers);
            kept = (
              opens.kept.0
                  ∙ ap (λ xs. xs ++ r.qrbs) keeps.0
                  ∙ append_assoc (kept_pdus s.rtxq) (q ∷ []) r.qrbs,
              omega (arith, opens.kept.1, keeps.1),
            );
          })
    ]
