-- ===== src/Kernel/Efcp/Transfer.antt =====
-- A reliable flow under a window of kernel/normal.c from end to end: what its user writes, a network
-- that loses, repeats and reorders, and what the other user reads.
use rlite.Base.{
  IsIn, All-IsIn, subst, ℕ, suc, ◌+◌, ◌^◌, ◌≡◌, ◌≢◌, ◌<◌, ◌≤◌, refl, ap, sym, ◌∙◌, Bool, Bool-cases,
  inl, inr, false, some, List, [], ◌∷◌, ◌++◌, arith, length, length-append, get_elem?,
  get_elem?-bound, take, drop, drop-cons, All, All-append, All-split,
}
use rlite.Kernel.Seqq.{Pdu}
use rlite.Kernel.Seqq.Order.{Consecutive}
use rlite.Kernel.Efcp.Types.{Config, Env, Dtp}
use rlite.Kernel.Efcp.Receive.{sdu_rx_data}
use rlite.Kernel.Efcp.Runs.{Event, receive_all, IsPlain, receive_all-InOrder}
use rlite.Kernel.Efcp.Starts.{Awaits, sdu_rx_data-Starts}
use rlite.Kernel.Efcp.Window.{Carries, IsReliable, IsSender}
use rlite.Kernel.Efcp.Sessions.{
  Input, Sends, run_input, join, kept_if, send_all, Works, send_all-HasSent, run_input-accepts,
}

-- The users' data in PDUs.
abbrev pub sdus : List Pdu → List (List ℕ)
sdus [] = []
sdus (p ∷ ps) = p.sdu ∷ sdus ps

-- What PDUs with consecutive numbers carry is what was written from the first of them on.
sdus-take :
    (written : List (List ℕ)) (n : ℕ) (ps : List Pdu)
    → Consecutive n ps
    → All (Carries written) ps
    → sdus ps ≡ take (length ps) (drop n written)
sdus-take written n [] h k = refl
sdus-take written n (p ∷ ps) h k =
    let at : get_elem? written n ≡ some p.sdu = ap (get_elem? written) (sym h.0) ∙ k.0.0 in
    let (x, found, rest) = drop-cons n written (get_elem?-bound written n at) in
    let this : x ≡ p.sdu = cc in
    let later = sdus-take written (n + 1) ps h.1 k.1 in
    ap (◌∷◌ p.sdu) later
    ∙ ap (λ y. y ∷ take (length ps) (drop (n + 1) written)) (sym this)
    ∙ ap (take (suc (length ps))) (sym rest)

-- What the network does: each PDU that arrives is one that was sent, once or again. The first PDU of
-- the run has arrived before.
abbrev pub IsFromNetwork : Sends → Event → Type 0
IsFromNetwork r (Event.arrives env rb) = IsIn rb (r.sent ++ r.resent) × (rb.seqnum ≢ 0)
IsFromNetwork r (Event.consumed env seqnum) = Unit {0}
IsFromNetwork r (Event.a_expires env) = Unit {0}
IsFromNetwork r Event.inactive = ⊥

send_all-accepts :
    (cfg : Config) (is : List Input) (d : Dtp) → length (send_all cfg is d).accepts ≤ length is
unfolding send_all join
send_all-accepts cfg [] d = omega arith
send_all-accepts cfg (i ∷ is) d =
    let first = run_input cfg i d in
    let rest = send_all cfg is first.dtp in
    let one = run_input-accepts cfg i d in
    let others = send_all-accepts cfg is first.dtp in
    let sum = length-append first.accepts rest.accepts in
    elim (Bool-cases rest.restarts) [
      | inl fresh ↦
          let step : join first rest ≡ rest = ground arith in
          omega (arith, ap (λ (r : Sends). length r.accepts) step)
      | inr old ↦
          let step : (join first rest).accepts ≡ first.accepts ++ rest.accepts = ground arith in
          omega (arith, ap length step)
    ]

IsFromNetwork-IsPlain :
    (r : Sends) (es : List Event)
    → All (Carries r.accepts) (r.sent ++ r.resent)
    → length r.accepts < 2 ^ 32
    → All (IsFromNetwork r) es
    → All (IsPlain (Carries r.accepts)) es
IsFromNetwork-IsPlain r [] carried small h = tt
IsFromNetwork-IsPlain r (Event.arrives env rb ∷ es) carried small ((sent, later), h) =
    let carries = All-IsIn (Carries r.accepts) rb (r.sent ++ r.resent) carried sent in
    let bound = get_elem?-bound r.accepts rb.seqnum carries.0 in
    let drf : rb.drf ≡ false = ground (arith, carries.1, later) in
    ((drf, omega arith, carries), IsFromNetwork-IsPlain r es carried small h)
IsFromNetwork-IsPlain r (Event.consumed env seqnum ∷ es) carried small (u, h) =
    (tt, IsFromNetwork-IsPlain r es carried small h)
IsFromNetwork-IsPlain r (Event.a_expires env ∷ es) carried small (u, h) =
    (tt, IsFromNetwork-IsPlain r es carried small h)
IsFromNetwork-IsPlain r (Event.inactive ∷ es) carried small (never, h) = absurd never

-- The sender has nothing from before the run.
kept_if-nil : {A : Type 0} (b : Bool) (xs : List A) → kept_if b [] ++ xs ≡ xs
kept_if-nil b xs = elim (Bool-cases b) [ inl left ↦ ground arith | inr all ↦ ground arith ]

-- A reliable flow under a window, with no gap tolerated, whose sender starts afresh and gets any
-- writes, control PDUs, and expiries of its retransmission timer and of its inactivity timer, less
-- than 2 ^ 32 of them, while there is memory and the relaying task takes what it is given for good.
-- At a receiver that awaits a run, whose inactivity timer does not expire, the first PDU arrives
-- that was sent since the sender's inactivity timer expired last, if it did, and then any others of
-- those PDUs, once or again, in any order, as often as the network likes but for the first, among
-- reads and expiries of the A timer. What is handed to the user's queue is a prefix of what the
-- sender took from its user since then.
pub transfer-IsPrefix :
    (cfg : Config) (is : List Input) (s d : Dtp) (env : Env) (rb : Pdu) (es : List Event)
    → IsReliable cfg
    → cfg.max_sdu_gap ≡ 0
    → IsSender [] [] s.snd
    → Awaits d
    → All Works is
    → length is < 2 ^ 32
    → IsIn rb ((send_all cfg is s).sent ++ (send_all cfg is s).resent)
    → rb.seqnum ≡ 0
    → All (IsFromNetwork (send_all cfg is s)) es
    → sdus (receive_all cfg (Event.arrives env rb ∷ es) d).0
      ≡ take (length (receive_all cfg (Event.arrives env rb ∷ es) d).0) (send_all cfg is s).accepts
unfolding receive_all
transfer-IsPrefix cfg is s d env rb es reliable strict v w works few sent first arrivals =
    let r = send_all cfg is s in
    let (w', again') = send_all-HasSent cfg is [] [] s reliable works v (omega arith) in
    let from_run = kept_if-nil r.restarts r.accepts in
    let again = subst (λ xs. All (Carries xs) r.resent) from_run again' in
    let u =
      subst (λ xs. IsSender xs r.sent r.dtp.snd) from_run
        (subst (λ ps. IsSender (kept_if r.restarts [] ++ r.accepts) ps r.dtp.snd)
          (kept_if-nil r.restarts r.sent) w') in
    let all_sent = All-split (Carries r.accepts) r.sent r.dtp.snd.cwq u.carried in
    let carried = All-append (Carries r.accepts) r.sent r.resent all_sent.0 again in
    let small = send_all-accepts cfg is s in
    let carries = All-IsIn (Carries r.accepts) rb (r.sent ++ r.resent) carried sent in
    let starts = sdu_rx_data-Starts (Carries r.accepts) env cfg rb d w (omega arith) in
    let plain = IsFromNetwork-IsPlain r es carried (omega arith) arrivals in
    let e = (sdu_rx_data env cfg rb d).dtp in
    let rest = receive_all-InOrder (Carries r.accepts) cfg es e strict plain starts.receiver in
    let later = (receive_all cfg es e).0 in
    let up : (receive_all cfg (Event.arrives env rb ∷ es) d).0 ≡ rb ∷ later =
      ap (λ ps. ps ++ later) starts.up in
    let next : e.rcv.q.rcv_next_seq_num ≡ 1 = omega (arith, starts.next) in
    let delivered =
      sdus-take r.accepts 0 (rb ∷ later)
        (first, subst (λ n. Consecutive n later) next rest.consecutive) (carries, rest.delivered) in
    ap sdus up ∙ delivered ∙ ap (λ ps. take (length ps) r.accepts) (sym up)
