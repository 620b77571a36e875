-- ===== src/Kernel/Efcp/Sessions.antt =====
-- Runs of the sender of a reliable flow under a window of kernel/normal.c: writes, control PDUs and
-- expiries of its two timers.
use rlite.Base.{
  subst, ℕ, ◌+◌, ◌^◌, ◌≡◌, ◌<◌, ◌≤◌, refl, sym, ap, ◌∙◌, inl, inr, Bool, true, false, Bool-cases,
  if◌then◌else◌, List, [], ◌∷◌, ◌++◌, arith, length, length-append, append_assoc, append-nil, All,
  All-append,
}
use rlite.Kernel.Seqq.{Pdu}
use rlite.Kernel.Efcp.Types.{Config, Env, Snd, Dtp, CtrlPdu}
use rlite.Kernel.Efcp.Send.{Sdu, WriteResult, write_shaped}
use rlite.Kernel.Efcp.Control.{sdu_rx_ctrl}
use rlite.Kernel.Efcp.Timers.{dtp_snd_reset, rtx_tmr_cb, snd_inact_tmr_cb}
use rlite.Kernel.Efcp.Window.{Carries, IsReliable, IsSender}
use rlite.Kernel.Efcp.Writing.{All-Carries}
use rlite.Kernel.Efcp.Sending.{sdu_rx_ctrl-IsSender}
use rlite.Kernel.Efcp.Resending.{rtx_tmr_cb-IsSender}
use rlite.Kernel.Efcp.Accepted.{accepted-length, accepted, handed, write_shaped-Writes}

pub data Input : Type 0 where
  write : Env → (Bool → WriteResult) → Sdu → Input
  control : Env → CtrlPdu → Input
  rtx_expires : Env → Input
  inactive : Input

-- What inputs make the sender do since the inactivity timer expired last, if it did: take data from
-- the user, send PDUs, send them again.
pub record Sends : Type 0 where
  pub accepts : List (List ℕ)
  pub sent : List Pdu
  pub resent : List Pdu
  pub restarts : Bool
  pub dtp : Dtp

abbrev pub run_input : Config → Input → Dtp → Sends
run_input cfg (Input.write env rmt_tx rb) d =
    let w = write_shaped env cfg rmt_tx d.mpl_r_a rb d.snd in
    record {
      accepts = accepted w.ret rb.bytes;
      sent = handed w.sent;
      resent = [];
      restarts = false;
      dtp = record d { snd = w.snd };
    }
run_input cfg (Input.control env pcic) d =
    let (qrbs, e) = sdu_rx_ctrl env cfg pcic d in
    record { accepts = []; sent = qrbs; resent = []; restarts = false; dtp = e }
run_input cfg (Input.rtx_expires env) d =
    let (rrbq, e) = rtx_tmr_cb env cfg d in
    record { accepts = []; sent = []; resent = rrbq; restarts = false; dtp = e }
run_input cfg Input.inactive d = record {
  accepts = [];
  sent = [];
  resent = [];
  restarts = true;
  dtp = record d { snd = snd_inact_tmr_cb cfg d.snd };
}

-- First one thing, then another.
unfoldable pub join : Sends → Sends → Sends
join first rest = if rest.restarts then rest else record {
  accepts = first.accepts ++ rest.accepts;
  sent = first.sent ++ rest.sent;
  resent = first.resent ++ rest.resent;
  restarts = first.restarts;
  dtp = rest.dtp;
}

unfoldable pub send_all : Config → List Input → Dtp → Sends
send_all cfg [] d = record { accepts = []; sent = []; resent = []; restarts = false; dtp = d }
send_all cfg (i ∷ is) d =
    let first = run_input cfg i d in let rest = send_all cfg is first.dtp in join first rest

-- There is memory, and the relaying task takes what it is given for good.
abbrev pub Works : Input → Type 0
Works (Input.write env rmt_tx rb) = (env.memory ≡ true) × (rmt_tx true ≡ WriteResult.success)
Works (Input.control env pcic) = env.memory ≡ true
Works (Input.rtx_expires env) = Unit {0}
Works Input.inactive = Unit {0}

-- What is left of a list of things from before.
abbrev pub kept_if : {A : Type 0} → Bool → List A → List A
kept_if restarts xs = if restarts then [] else xs

-- A sender that has done this since it had `written` and `sent`, of which nothing counts once the
-- inactivity timer has expired.
abbrev pub HasSent : List (List ℕ) → List Pdu → Sends → Type 0
HasSent written sent r =
    IsSender (kept_if r.restarts written ++ r.accepts) (kept_if r.restarts sent ++ r.sent) r.dtp.snd
    × All (Carries (kept_if r.restarts written ++ r.accepts)) r.resent

-- The sender starts afresh when its inactivity timer expires.
snd_inact_tmr_cb-IsSender :
    (cfg : Config) (written : List (List ℕ)) (sent : List Pdu) (s : Snd)
    → IsReliable cfg
    → IsSender written sent s
    → IsSender [] [] (snd_inact_tmr_cb cfg s)
unfolding snd_inact_tmr_cb dtp_snd_reset
snd_inact_tmr_cb-IsSender cfg written sent s reliable v = record {
  numbered = refl;
  order = tt;
  carried = tt;
  complete = refl;
  first = refl;
  last = omega arith;
  wide = omega arith;
  in_window = omega arith;
  closed = inl refl;
  counted = omega (arith, v.counted);
  bounded = omega (arith, v.counted);
  acked = [];
  kept = refl;
  kept_counted = omega (arith, v.kept_counted);
}

nothing_accepted :
    (written : List (List ℕ)) (sent : List Pdu) (s : Snd)
    → IsSender written sent s
    → IsSender (written ++ []) sent s
nothing_accepted written sent s v = subst (λ x. IsSender x sent s) (sym (append-nil written)) v

run_input-HasSent :
    (cfg : Config) (i : Input) (written : List (List ℕ)) (sent : List Pdu) (d : Dtp)
    → IsReliable cfg
    → Works i
    → IsSender written sent d.snd
    → length written < 2 ^ 32
    → HasSent written sent (run_input cfg i d)
run_input-HasSent cfg (Input.write env rmt_tx rb) written sent d reliable (enough, passes) v small =
    (
      write_shaped-Writes env cfg rmt_tx d.mpl_r_a rb written sent d.snd enough passes reliable v
          small,
      tt,
    )
run_input-HasSent cfg (Input.control env pcic) written sent d reliable enough v small =
    let r = sdu_rx_ctrl env cfg pcic d in
    (
      nothing_accepted written (sent ++ r.0) r.1.snd
          (sdu_rx_ctrl-IsSender env cfg pcic written sent d enough reliable v small),
      tt,
    )
run_input-HasSent cfg (Input.rtx_expires env) written sent d reliable works v small =
    let r = rtx_tmr_cb env cfg d in
    let (w, again) = rtx_tmr_cb-IsSender env cfg written sent d v in
    (
      nothing_accepted written (sent ++ []) r.1.snd
          (subst (λ ps. IsSender written ps r.1.snd) (sym (append-nil sent)) w),
      All-Carries written [] r.0 again,
    )
run_input-HasSent cfg Input.inactive written sent d reliable works v small =
    (snd_inact_tmr_cb-IsSender cfg written sent d.snd reliable v, tt)

pub run_input-accepts :
    (cfg : Config) (i : Input) (d : Dtp) → length (run_input cfg i d).accepts ≤ 1
run_input-accepts cfg (Input.write env rmt_tx rb) d =
    accepted-length (write_shaped env cfg rmt_tx d.mpl_r_a rb d.snd).ret rb.bytes
run_input-accepts cfg (Input.control env pcic) d = omega arith
run_input-accepts cfg (Input.rtx_expires env) d = omega arith
run_input-accepts cfg Input.inactive d = omega arith

length-kept_if : {A : Type 0} (b : Bool) (xs : List A) → length (kept_if b xs) ≤ length xs
length-kept_if b xs = elim (Bool-cases b) [ inl left ↦ ground arith | inr all ↦ ground arith ]

join-HasSent :
    (written : List (List ℕ)) (sent : List Pdu) (first rest : Sends)
    → All (Carries (kept_if first.restarts written ++ first.accepts)) first.resent
    → HasSent
        (kept_if first.restarts written ++ first.accepts)
        (kept_if first.restarts sent ++ first.sent)
        rest
    → HasSent written sent (join first rest)
unfolding join
join-HasSent written sent first rest again (v, later) = elim (Bool-cases rest.restarts) [
  | inl fresh ↦
      let step : join first rest ≡ rest = ground arith in
      let no_data : kept_if rest.restarts (kept_if first.restarts written ++ first.accepts)
          ≡ kept_if rest.restarts written =
        ground arith in
      let no_pdus : kept_if rest.restarts (kept_if first.restarts sent ++ first.sent)
          ≡ kept_if rest.restarts sent =
        ground arith in
      subst (HasSent written sent) (sym step) (
        subst
            (λ xs.
              IsSender (xs ++ rest.accepts) (kept_if rest.restarts sent ++ rest.sent) rest.dtp.snd)
            no_data
            (subst
              (λ ps.
                IsSender
                  (kept_if rest.restarts (kept_if first.restarts written ++ first.accepts)
                    ++ rest.accepts)
                  (ps ++ rest.sent) rest.dtp.snd)
              no_pdus v),
        subst (λ xs. All (Carries (xs ++ rest.accepts)) rest.resent) no_data later,
      )
  | inr old ↦
      let base = kept_if first.restarts written in
      let pdus = kept_if first.restarts sent in
      let both : Sends = record {
        accepts = first.accepts ++ rest.accepts;
        sent = first.sent ++ rest.sent;
        resent = first.resent ++ rest.resent;
        restarts = first.restarts;
        dtp = rest.dtp;
      } in
      let step : join first rest ≡ both = ground arith in
      let all_data : kept_if rest.restarts (base ++ first.accepts) ++ rest.accepts
          ≡ base ++ (first.accepts ++ rest.accepts) =
        ap (λ b. kept_if b (base ++ first.accepts) ++ rest.accepts) old
        ∙ append_assoc base first.accepts rest.accepts in
      let all_pdus : kept_if rest.restarts (pdus ++ first.sent) ++ rest.sent
          ≡ pdus ++ (first.sent ++ rest.sent) =
        ap (λ b. kept_if b (pdus ++ first.sent) ++ rest.sent) old
        ∙ append_assoc pdus first.sent rest.sent in
      subst (HasSent written sent) (sym step) (
        subst (λ xs. IsSender xs (pdus ++ (first.sent ++ rest.sent)) rest.dtp.snd) all_data
            (subst
              (λ ps.
                IsSender (kept_if rest.restarts (base ++ first.accepts) ++ rest.accepts) ps
                  rest.dtp.snd)
              all_pdus v),
        All-append (Carries (base ++ (first.accepts ++ rest.accepts))) first.resent rest.resent
            (subst (λ xs. All (Carries xs) first.resent)
              (append_assoc base first.accepts rest.accepts)
              (All-Carries (base ++ first.accepts) rest.accepts first.resent again))
            (subst (λ xs. All (Carries xs) rest.resent) all_data later),
      )
]

-- The sender of a reliable flow under a window, over a run of any writes, control PDUs, and
-- expiries of its retransmission timer and of its inactivity timer, less than 2 ^ 32 in all with
-- what was written before, while there is memory and the relaying task takes what it is given for
-- good. Of what was written and sent since the inactivity timer expired last, or in all if it did
-- not: the PDUs sent have consecutive numbers from 0 on, none of them beyond the window; with those
-- of the closed window queue, which is not empty only if the window is full and never longer than
-- allowed, they carry all that was written, in order; what was sent is what was acknowledged and,
-- after it, what is kept for retransmission; the lengths of both queues are right, and what is sent
-- again carries what was written.
pub send_all-HasSent :
    (cfg : Config) (is : List Input) (written : List (List ℕ)) (sent : List Pdu) (d : Dtp)
    → IsReliable cfg
    → All Works is
    → IsSender written sent d.snd
    → length written + length is < 2 ^ 32
    → HasSent written sent (send_all cfg is d)
unfolding send_all
send_all-HasSent cfg [] written sent d reliable works v small = (
  nothing_accepted written (sent ++ []) d.snd
      (subst (λ ps. IsSender written ps d.snd) (sym (append-nil sent)) v),
  tt,
)
send_all-HasSent cfg (i ∷ is) written sent d reliable (works, all_work) v small =
    let first = run_input cfg i d in
    let (w, again) = run_input-HasSent cfg i written sent d reliable works v (omega arith) in
    let one = run_input-accepts cfg i d in
    let before = kept_if first.restarts written ++ first.accepts in
    let longer = length-append (kept_if first.restarts written) first.accepts in
    let fewer = length-kept_if first.restarts written in
    let rest = send_all cfg is first.dtp in
    let later =
      send_all-HasSent cfg is before (kept_if first.restarts sent ++ first.sent) first.dtp reliable
        all_work w (omega arith) in
    join-HasSent written sent first rest again later
