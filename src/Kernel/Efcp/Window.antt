-- ===== src/Kernel/Efcp/Window.antt =====
-- The sender of a reliable flow under a window in kernel/normal.c: what was written is acknowledged,
-- kept for retransmission, or waits for the window to open.
use rlite.Base.{
  subst, ℕ, suc, ◌+◌, ◌%◌, ◌^◌, ◌≡◌, ◌<◌, ◌≤◌, ◌⊎◌, ap, sym, ◌∙◌, inl, inr, true, some, List, [],
  ◌∷◌, ◌++◌, arith, length, length-append, append_assoc, get_elem?, All, ◌==◌,
}
use native.Mathlib.Decide.{dec_lt}
use rlite.Kernel.Seqq.{Pdu}
use rlite.Kernel.Seqq.Order.{Ascends, Consecutive}
use rlite.Kernel.Efcp.Types.{Config, FcType, Env, Snd, CtrlPdu}
use rlite.Kernel.Efcp.Control.{Opened, acknowledge}
use rlite.Kernel.Efcp.Opening.{kept_pdus, length-kept_pdus, SameWindow, Opens}
use rlite.Kernel.Efcp.Acks.{acknowledge-Frees, acknowledge-other}

-- The user's data of a PDU is what was written at its number; the first PDU alone has the DRF flag.
abbrev pub Carries : List (List ℕ) → Pdu → Type 0
Carries written p = (get_elem? written p.seqnum ≡ some p.sdu) × (p.drf ≡ (p.seqnum == 0))

-- A reliable flow under a window.
pub record IsReliable (cfg : Config) : Type 0 where
  pub rtx_ctrl : cfg.dtcp.rtx_ctrl ≡ true
  pub window : cfg.dtcp.fc_type ≡ FcType.window

-- The state of a sender that the user has written `written` to, and that has sent the PDUs `sent`.
pub record IsSender (written : List (List ℕ)) (sent : List Pdu) (s : Snd) : Type 0 where
  pub numbered : s.next_seq_num_to_use ≡ length written
  pub order : Consecutive 0 (sent ++ s.cwq)
  pub carried : All (Carries written) (sent ++ s.cwq)
  pub complete : length sent + length s.cwq ≡ length written
  pub first : s.drf_set ≡ (length written == 0)
  pub last : (s.last_seq_num_sent + 1) % 2 ^ 64 ≡ length sent
  pub wide : s.last_seq_num_sent < 2 ^ 64
  pub in_window : length sent ≤ s.snd_rwe + 1
  pub closed : (s.cwq ≡ []) ⊎ (length sent ≡ s.snd_rwe + 1)
  pub counted : s.cwq_len ≡ length s.cwq
  pub bounded : s.cwq_len ≤ s.max_cwq_len
  pub acked : List Pdu
  pub kept : sent ≡ acked ++ kept_pdus s.rtxq
  pub kept_counted : s.rtxq_len ≡ length s.rtxq

-- Consecutive numbers are in order.
pub Consecutive-Ascends :
    (n : ℕ) (ps : List Pdu) → Consecutive n ps → n + length ps < 2 ^ 32 → Ascends n ps
Consecutive-Ascends n [] h small = tt
Consecutive-Ascends n (p ∷ ps) h small =
    let rest = Consecutive-Ascends (n + 1) ps h.1 (omega arith) in
    (omega (arith, h.0), omega (arith, h.0), subst (λ m. Ascends (m + 1) ps) (sym h.0) rest)

pub Consecutive-drop :
    (n : ℕ) (xs ys : List Pdu) → Consecutive n (xs ++ ys) → Consecutive (n + length xs) ys
Consecutive-drop n [] ys h =
    let same : n ≡ n + 0 = omega arith in subst (λ m. Consecutive m ys) same h
Consecutive-drop n (x ∷ xs) ys h =
    let same : n + 1 + length xs ≡ n + suc (length xs) = omega arith in
    subst (λ m. Consecutive m ys) same (Consecutive-drop (n + 1) xs ys h.1)

pub Consecutive-take : (n : ℕ) (xs ys : List Pdu) → Consecutive n (xs ++ ys) → Consecutive n xs
Consecutive-take n [] ys h = tt
Consecutive-take n (x ∷ xs) ys h = (h.0, Consecutive-take (n + 1) xs ys h.1)

-- A state that differs in no member that the invariant speaks of.
pub SameWindow-IsSender :
    (written : List (List ℕ)) (sent : List Pdu) (s t : Snd)
    → IsSender written sent s
    → SameWindow s t
    → (acked : List Pdu) → sent ≡ acked ++ kept_pdus t.rtxq
    → t.rtxq_len ≡ length t.rtxq
    → IsSender written sent t
SameWindow-IsSender written sent s t v same acked kept kept_counted = record {
  numbered = ground (arith, v.numbered, same);
  order = subst (λ q. Consecutive 0 (sent ++ q)) (sym same.1) v.order;
  carried = subst (λ q. All (Carries written) (sent ++ q)) (sym same.1) v.carried;
  complete = omega (arith, v.complete, ap length same.1);
  first = ground (arith, v.first, same);
  last = ground (arith, v.last, same);
  wide = ground (arith, v.wide, same);
  in_window = omega (arith, v.in_window, same.0.0);
  closed = elim v.closed [
    | inl empty ↦ inl (same.1 ∙ empty)
    | inr full ↦ inr (omega (arith, same.0.0))
  ];
  counted = omega (arith, v.counted, same.2, ap length same.1);
  bounded = omega (arith, v.bounded, same.2, same.0.3);
  acked = acked;
  kept = kept;
  kept_counted = kept_counted;
}

-- What is kept for retransmission is in order.
pub IsSender-Ascends :
    (written : List (List ℕ)) (sent : List Pdu) (s : Snd)
    → IsSender written sent s
    → length written < 2 ^ 32
    → (k : ℕ) × Ascends k (kept_pdus s.rtxq)
IsSender-Ascends written sent s v small =
    let kept = kept_pdus s.rtxq in
    let order =
      Consecutive-drop 0 v.acked kept
        (subst (Consecutive 0) v.kept (Consecutive-take 0 sent s.cwq v.order)) in
    let k = 0 + length v.acked in
    let fits : k + length kept < 2 ^ 32 =
      omega (arith, v.complete, ap length v.kept, length-append v.acked kept) in
    (k, Consecutive-Ascends k kept order fits)

pub acknowledge-IsSender :
    (env : Env) (pcic : CtrlPdu) (written : List (List ℕ)) (sent : List Pdu) (s : Snd)
    → IsSender written sent s
    → length written < 2 ^ 32
    → IsSender written sent (acknowledge env pcic s)
acknowledge-IsSender env pcic written sent s v small = elim (dec_lt 0 (pcic.pdu_type % 4)) [
  | yes other ↦
      subst (IsSender written sent)
        (sym (acknowledge-other env pcic s (λ e. absurd (omega (arith, e))))) v
  | no ack ↦
      let (k, order) = IsSender-Ascends written sent s v small in
      let t = acknowledge env pcic s in
      let frees = acknowledge-Frees env pcic k s (omega arith) v.kept_counted order in
      SameWindow-IsSender written sent s t v frees.window (v.acked ++ frees.acked)
        (v.kept
          ∙ ap (λ ps. v.acked ++ ps) frees.all
          ∙ sym (append_assoc v.acked frees.acked (kept_pdus t.rtxq)))
        frees.counted
]

-- Opening the window sends some of the PDUs that waited.
pub Opens-IsSender :
    (written : List (List ℕ)) (sent : List Pdu) (s : Snd) (rwe lwe : ℕ) (r : Opened)
    → IsSender written sent s
    → Opens (length sent) s.cwq (record s { snd_rwe = rwe; snd_lwe = lwe }) r
    → IsSender written (sent ++ r.qrbs) r.snd
Opens-IsSender written sent s rwe lwe r v opens =
    let all : sent ++ s.cwq ≡ (sent ++ r.qrbs) ++ r.snd.cwq =
      ap (λ q. sent ++ q) (sym opens.all) ∙ sym (append_assoc sent r.qrbs r.snd.cwq) in
    let longer = length-append sent r.qrbs in
    let split = ap length opens.all in
    let parts = length-append r.qrbs r.snd.cwq in
    record {
      numbered = ground (arith, v.numbered, opens.numbers);
      order = subst (Consecutive 0) all v.order;
      carried = subst (All (Carries written)) all v.carried;
      complete = omega (arith, v.complete);
      first = ground (arith, v.first, opens.numbers);
      last = omega (arith, opens.last);
      wide = opens.wide;
      in_window = omega (arith, opens.in_window, opens.numbers.0);
      closed = elim opens.closed [
        | inl empty ↦ inl empty
        | inr full ↦ inr (omega (arith, opens.numbers.0))
      ];
      counted = opens.counted;
      bounded = omega (arith, v.bounded, v.counted, opens.counted, opens.numbers.3);
      acked = v.acked;
      kept =
          ap (λ ps. ps ++ r.qrbs) v.kept
          ∙ append_assoc v.acked (kept_pdus s.rtxq) r.qrbs
          ∙ ap (λ ps. v.acked ++ ps) (sym opens.kept.0);
      kept_counted = omega (
        arith,
        v.kept_counted,
        opens.kept.1,
        ap length opens.kept.0,
        length-kept_pdus s.rtxq,
        length-kept_pdus r.snd.rtxq,
        length-append (kept_pdus s.rtxq) r.qrbs,
      );
    }
