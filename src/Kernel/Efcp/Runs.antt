-- ===== src/Kernel/Efcp/Runs.antt =====
-- Runs of a receiver of kernel/normal.c: data transfer PDUs in any order, reads by the user and
-- expiries of the A timer, until the inactivity timer expires.
use rlite.Base.{
  ◌%◌, none, subst, ℕ, suc, ◌+◌, ◌^◌, ◌≡◌, ◌<◌, ap, sym, ◌∙◌, true, false, List, [], ◌∷◌, ◌++◌,
  arith, length, length-append, All, All-append,
}
use rlite.Kernel.Seqq.{Pdu, Receiver}
use rlite.Kernel.Seqq.Order.{Consecutive}
use rlite.Kernel.Efcp.Types.{Config, Env, Dtp}
use rlite.Kernel.Efcp.Receive.{sdu_rx_data, rl_normal_sdu_rx_consumed, a_tmr_cb, rcv_inact_tmr_cb}
use rlite.Kernel.Efcp.Arrivals.{SameQueue, sdu_rx_sv_update-SameQueue, pdus, sdu_rx_data-Arrives}
use rlite.Kernel.Efcp.InOrder.{IsGapped, Arrival-Advances}

pub data Event : Type 0 where
  arrives : Env → Pdu → Event
  consumed : Env → ℕ → Event
  a_expires : Env → Event
  inactive : Event

-- What goes up to the user, and the state after it.
abbrev pub receive : Config → Event → Dtp → List Pdu × Dtp
receive cfg (Event.arrives env rb) d = let r = sdu_rx_data env cfg rb d in (pdus r.up, r.dtp)
receive cfg (Event.consumed env seqnum) d = ([], (rl_normal_sdu_rx_consumed env cfg seqnum d).1)
receive cfg (Event.a_expires env) d = ([], (a_tmr_cb env cfg d).1)
receive cfg Event.inactive d = ([], rcv_inact_tmr_cb cfg d)

unfoldable pub receive_all : Config → List Event → Dtp → List Pdu × Dtp
receive_all cfg [] d = ([], d)
receive_all cfg (e ∷ es) d =
    let (up, after) = receive cfg e d in
    let (later, end) = receive_all cfg es after in (up ++ later, end)

-- The PDUs of a run have no DRF flag, a number below the last of 32 bits, and the property; the
-- inactivity timer, which ends a run, does not expire.
abbrev pub IsPlain : (Pdu → Type 0) → Event → Type 0
IsPlain P (Event.arrives env rb) = (rb.drf ≡ false) × (rb.seqnum + 1 < 2 ^ 32) × P rb
IsPlain P (Event.consumed env seqnum) = Unit {0}
IsPlain P (Event.a_expires env) = Unit {0}
IsPlain P Event.inactive = ⊥

-- A receiver in a run, whose waiting PDUs have the property.
pub record IsReceiver (P : Pdu → Type 0) (d : Dtp) : Type 0 where
  pub begun : d.rcv.drf_expected ≡ false
  pub queue : IsGapped d.rcv.q
  pub waiting : All P d.rcv.q.seqq

pub record InOrder (P : Pdu → Type 0) (d : Dtp) (result : List Pdu × Dtp) : Type 0 where
  pub receiver : IsReceiver P result.1
  pub consecutive : Consecutive d.rcv.q.rcv_next_seq_num result.0
  pub next : result.1.rcv.q.rcv_next_seq_num ≡ d.rcv.q.rcv_next_seq_num + length result.0
  pub delivered : All P result.0

pub Consecutive-append :
    (n : ℕ) (xs ys : List Pdu)
    → Consecutive n xs
    → Consecutive (n + length xs) ys
    → Consecutive n (xs ++ ys)
Consecutive-append n [] ys h k =
    let same : n + 0 ≡ n = omega arith in subst (λ m. Consecutive m ys) same k
Consecutive-append n (x ∷ xs) ys h k =
    let same : n + suc (length xs) ≡ n + 1 + length xs = omega arith in
    (h.0, Consecutive-append (n + 1) xs ys h.1 (subst (λ m. Consecutive m ys) same k))

module _ (P : Pdu → Type 0) (cfg : Config) where
  SameQueue-InOrder : (d e : Dtp) → IsReceiver P d → SameQueue d e → InOrder P d ([], e)
  SameQueue-InOrder d e v (q, drf) = record {
    receiver = record {
      begun = drf ∙ v.begun;
      queue = subst IsGapped (sym q) v.queue;
      waiting = subst (λ x. All P x.seqq) (sym q) v.waiting;
    };
    consecutive = tt;
    next = omega (arith, ap Receiver.rcv_next_seq_num q);
    delivered = tt;
  }

  pub receive-InOrder :
      (e : Event) (d : Dtp)
      → cfg.max_sdu_gap ≡ 0
      → IsPlain P e
      → IsReceiver P d
      → InOrder P d (receive cfg e d)
  unfolding rl_normal_sdu_rx_consumed a_tmr_cb
  receive-InOrder (Event.arrives env rb) d strict (plain, small, p) v =
      let (arrival, begun) = sdu_rx_data-Arrives env cfg rb d strict v.begun plain small in
      let a =
        Arrival-Advances P cfg.dtcp.rtx_ctrl rb d.rcv.q (pdus (sdu_rx_data env cfg rb d).up)
          (sdu_rx_data env cfg rb d).dtp.rcv.q arrival v.queue small p v.waiting in
      record {
        receiver = record { begun = begun; queue = a.queue; waiting = a.waiting };
        consecutive = a.consecutive;
        next = a.next;
        delivered = a.delivered;
      }
  receive-InOrder (Event.consumed env seqnum) d strict plain v =
      SameQueue-InOrder d (rl_normal_sdu_rx_consumed env cfg seqnum d).1 v (
        sdu_rx_sv_update-SameQueue env cfg false
          (record d { rcv = record d.rcv { rcv_lwe = (seqnum + 1) % 2 ^ 64 } }))
  receive-InOrder (Event.a_expires env) d strict plain v =
      SameQueue-InOrder d (a_tmr_cb env cfg d).1 v
        (sdu_rx_sv_update-SameQueue env cfg true (record d { rcv = record d.rcv { a_tmr = none } }))
  receive-InOrder Event.inactive d strict never v = absurd never

  -- A receiver in a run, with no gap tolerated, gets any PDUs without the DRF flag and with numbers
  -- below the last of 32 bits, among reads and expiries of the A timer; its inactivity timer does
  -- not expire. What it delivers has consecutive numbers from the next expected one on, has any
  -- property that all PDUs had that waited or arrived, and the receiver stays in order.
  pub receive_all-InOrder :
      (es : List Event) (d : Dtp)
      → cfg.max_sdu_gap ≡ 0
      → All (IsPlain P) es
      → IsReceiver P d
      → InOrder P d (receive_all cfg es d)
  unfolding receive_all
  receive_all-InOrder [] d strict plain v = record {
    receiver = v;
    consecutive = tt;
    next = omega arith;
    delivered = tt;
  }
  receive_all-InOrder (e ∷ es) d strict (plain, plains) v =
      let first = receive-InOrder e d strict plain v in
      let after = (receive cfg e d).1 in
      let rest = receive_all-InOrder es after strict plains first.receiver in
      let up = (receive cfg e d).0 in
      let later = (receive_all cfg es after).0 in
      record {
        receiver = rest.receiver;
        consecutive =
            Consecutive-append d.rcv.q.rcv_next_seq_num up later first.consecutive
              (subst (λ n. Consecutive n later) first.next rest.consecutive);
        next = omega (arith, rest.next, first.next, length-append up later);
        delivered = All-append P up later first.delivered rest.delivered;
      }
