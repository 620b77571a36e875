-- ===== src/Kernel/Efcp/Writing.antt =====
-- A write to a reliable flow under a window of kernel/normal.c: the PDU that it makes is the next
-- one, and it is sent, or waits.
use rlite.Base.{
  subst, ℕ, ◌+◌, ◌%◌, ◌^◌, ◌≡◌, ◌<◌, ◌≤◌, ap, sym, ◌∙◌, inl, inr, false, List, [], ◌∷◌, ◌++◌, arith,
  length, length-append, append_assoc, append-nil, get_elem?, get_elem?-append_lt,
  get_elem?-append_last, get_elem?-bound, All, All-append, ◌==◌,
}
use rlite.Kernel.Seqq.{Pdu}
use rlite.Kernel.Seqq.Order.{Consecutive}
use rlite.Kernel.Efcp.Types.{Snd}
use rlite.Kernel.Efcp.Send.{Sdu, pdu_of_sdu}
use rlite.Kernel.Efcp.Opening.{kept_pdus, length-kept_pdus, SameWindow, Keeps}
use rlite.Kernel.Efcp.Runs.{Consecutive-append}
use rlite.Kernel.Efcp.Window.{Carries, IsSender}

pub All-Carries :
    (written more : List (List ℕ)) (ps : List Pdu)
    → All (Carries written) ps
    → All (Carries (written ++ more)) ps
All-Carries written more [] h = tt
All-Carries written more (p ∷ ps) h =
    let bound = get_elem?-bound written p.seqnum h.0.0 in
    (
      (get_elem?-append_lt written more p.seqnum bound ∙ h.0.0, h.0.1),
      All-Carries written more ps h.1,
    )

-- The state before a write, with the number of the new PDU used up.
abbrev pub numbered : Snd → Snd
numbered s = record s {
  next_seq_num_to_use = (s.next_seq_num_to_use + 1) % 2 ^ 64;
  drf_set = false;
}

module _ (written : List (List ℕ)) (sent : List Pdu) (rb : Sdu) (s : Snd)
    (v : IsSender written sent s) (small : length written < 2 ^ 32) where
  -- The new PDU is the next one.
  pdu_of_sdu-next : (pdu_of_sdu rb s).seqnum ≡ length written
  pdu_of_sdu-next = omega (arith, v.numbered)

  pdu_of_sdu-Carries : Carries (written ++ rb.bytes ∷ []) (pdu_of_sdu rb s)
  pdu_of_sdu-Carries = (
    ap (get_elem? (written ++ rb.bytes ∷ [])) pdu_of_sdu-next
        ∙ get_elem?-append_last written rb.bytes,
    v.first ∙ ap (λ n. n == 0) (sym pdu_of_sdu-next),
  )

  -- All PDUs so far, with the new one after them.
  with_new : Consecutive 0 ((sent ++ s.cwq) ++ pdu_of_sdu rb s ∷ [])
  with_new =
      let place : (pdu_of_sdu rb s).seqnum ≡ 0 + length (sent ++ s.cwq) =
        omega (arith, pdu_of_sdu-next, v.complete, length-append sent s.cwq) in
      Consecutive-append 0 (sent ++ s.cwq) (pdu_of_sdu rb s ∷ []) v.order (place, tt)

  all_carried : All (Carries (written ++ rb.bytes ∷ [])) ((sent ++ s.cwq) ++ pdu_of_sdu rb s ∷ [])
  all_carried =
      All-append (Carries (written ++ rb.bytes ∷ [])) (sent ++ s.cwq) (pdu_of_sdu rb s ∷ [])
        (All-Carries written (rb.bytes ∷ []) (sent ++ s.cwq) v.carried) (pdu_of_sdu-Carries, tt)

  longer : length (written ++ rb.bytes ∷ []) ≡ length written + 1
  longer = length-append written (rb.bytes ∷ [])

  pub queued_new :
      s.snd_rwe < length written
      → s.cwq_len < s.max_cwq_len
      → IsSender
          (written ++ rb.bytes ∷ [])
          sent
          (record (numbered s) { cwq = s.cwq ++ pdu_of_sdu rb s ∷ []; cwq_len = s.cwq_len + 1 })
  queued_new outside room =
      let all : (sent ++ s.cwq) ++ pdu_of_sdu rb s ∷ [] ≡ sent ++ (s.cwq ++ pdu_of_sdu rb s ∷ []) =
        append_assoc sent s.cwq (pdu_of_sdu rb s ∷ []) in
      let more = length-append s.cwq (pdu_of_sdu rb s ∷ []) in
      record {
        numbered = omega (arith, v.numbered, longer);
        order = subst (Consecutive 0) all with_new;
        carried = subst (All (Carries (written ++ rb.bytes ∷ []))) all all_carried;
        complete = omega (arith, v.complete, longer);
        first = ground (arith, longer);
        last = v.last;
        wide = v.wide;
        in_window = v.in_window;
        closed = elim v.closed [
          | inl empty ↦ inr (omega (arith, v.in_window, v.complete, ap length empty))
          | inr full ↦ inr full
        ];
        counted = omega (arith, v.counted);
        bounded = omega arith;
        acked = v.acked;
        kept = v.kept;
        kept_counted = v.kept_counted;
      }

  pub sent_new :
      length written ≤ s.snd_rwe
      → (t : Snd) → Keeps (pdu_of_sdu rb s ∷ []) s t
      → SameWindow (record (numbered s) { last_seq_num_sent = (pdu_of_sdu rb s).seqnum }) t
      → IsSender (written ++ rb.bytes ∷ []) (sent ++ pdu_of_sdu rb s ∷ []) t
  sent_new inside t keeps same =
      let none_waits : s.cwq ≡ [] = elim v.closed [
        | inl empty ↦ empty
        | inr full ↦ absurd (omega (arith, v.complete))
      ] in
      let nothing : t.cwq ≡ [] = same.1 ∙ none_waits in
      let pdu = pdu_of_sdu rb s in
      let all : (sent ++ s.cwq) ++ pdu ∷ [] ≡ (sent ++ pdu ∷ []) ++ t.cwq =
        ap (λ q. (sent ++ q) ++ pdu ∷ []) none_waits
        ∙ ap (λ x. x ++ pdu ∷ []) (append-nil sent)
        ∙ sym (append-nil (sent ++ pdu ∷ []))
        ∙ ap (λ q. (sent ++ pdu ∷ []) ++ q) (sym nothing) in
      let more = length-append sent (pdu ∷ []) in
      let waiting = ap length nothing in
      let waited = ap length none_waits in
      record {
        numbered = omega (arith, v.numbered, longer, same.0.1);
        order = subst (Consecutive 0) all with_new;
        carried = subst (All (Carries (written ++ rb.bytes ∷ []))) all all_carried;
        complete = omega (arith, v.complete, longer);
        first = ground (arith, longer, same);
        last = omega (arith, same.3, pdu_of_sdu-next, v.complete);
        wide = omega (arith, same.3, pdu_of_sdu-next);
        in_window = omega (arith, v.complete, same.0.0);
        closed = inl nothing;
        counted = omega (arith, v.counted, same.2);
        bounded = omega (arith, v.bounded, v.counted, same.2, same.0.3);
        acked = v.acked;
        kept =
            ap (λ ps. ps ++ pdu ∷ []) v.kept
            ∙ append_assoc v.acked (kept_pdus s.rtxq) (pdu ∷ [])
            ∙ ap (λ ps. v.acked ++ ps) (sym keeps.0);
        kept_counted = omega (
          arith,
          v.kept_counted,
          keeps.1,
          ap length keeps.0,
          length-kept_pdus s.rtxq,
          length-kept_pdus t.rtxq,
          length-append (kept_pdus s.rtxq) (pdu ∷ []),
        );
      }
