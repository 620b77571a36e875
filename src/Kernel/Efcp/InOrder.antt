-- ===== src/Kernel/Efcp/InOrder.antt =====
-- What a receiver of kernel/normal.c delivers over a run: each number once, and in order.
use rlite.Base.{
  subst, ℕ, ◌+◌, ◌^◌, ◌≡◌, ◌<◌, ◌≤◌, sym, inl, inr, Bool, List, [], ◌∷◌, ◌++◌, arith, length, All,
  All-append, All-split,
}
use rlite.Kernel.Seqq.{Pdu, Receiver, seqq_push, seqq_pop_many}
use rlite.Kernel.Seqq.Order.{
  Ascends, Consecutive, IsQueue, seqq_push-Pushes, seqq_pop_many-Delivers,
}
use rlite.Kernel.Efcp.Arrivals.{past, Arrival}

-- A sequencing queue in order, none of whose PDUs has the number that is expected next.
pub record IsGapped (q : Receiver) : Type 0 where
  pub queue : IsQueue q
  pub gap : Ascends (q.rcv_next_seq_num + 1) q.seqq

Ascends-inserted :
    (n : ℕ) (rb : Pdu) (xs ys : List Pdu)
    → n ≤ rb.seqnum
    → Ascends n (xs ++ ys)
    → (m : ℕ) → Ascends m (xs ++ rb ∷ ys)
    → Ascends n (xs ++ rb ∷ ys)
Ascends-inserted n rb [] ys le old m new = (le, new.1, new.2)
Ascends-inserted n rb (x ∷ xs) ys le old m new = (old.0, new.1, new.2)

pub seqq_push-next :
    (rb : Pdu) (q : Receiver) → (seqq_push rb q).rcv_next_seq_num ≡ q.rcv_next_seq_num
unfolding seqq_push
seqq_push-next rb q = ground arith

seqq_push-IsGapped :
    (rb : Pdu) (q : Receiver)
    → IsGapped q
    → q.rcv_next_seq_num < rb.seqnum
    → rb.seqnum + 1 < 2 ^ 32
    → IsGapped (seqq_push rb q)
seqq_push-IsGapped rb q v after small =
    let t = seqq_push rb q in
    let pushes = seqq_push-Pushes rb q v.queue (omega arith) small in
    let next = seqq_push-next rb q in
    let gap : Ascends (q.rcv_next_seq_num + 1) t.seqq = elim pushes.outcome [
      | inl ((xs, ys, old, new), counted) ↦ subst (Ascends (q.rcv_next_seq_num + 1)) (sym new) (
          Ascends-inserted (q.rcv_next_seq_num + 1) rb xs ys (omega arith)
            (subst (Ascends (q.rcv_next_seq_num + 1)) old v.gap) t.rcv_next_seq_num
            (subst (Ascends t.rcv_next_seq_num) new pushes.queue.ordered))
      | inr (same, counted, why) ↦ subst (Ascends (q.rcv_next_seq_num + 1)) (sym same) v.gap
    ] in
    record { queue = pushes.queue; gap = subst (λ n. Ascends (n + 1) t.seqq) (sym next) gap }

pub past-IsQueue :
    (rb : Pdu) (q : Receiver) → IsGapped q → rb.seqnum ≡ q.rcv_next_seq_num → IsQueue (past rb q)
past-IsQueue rb q v same = record {
  ordered = subst (λ n. Ascends (n + 1) q.seqq) (sym same) v.gap;
  counted = v.queue.counted;
  bounded = v.queue.bounded;
}

-- What a PDU does to a queue in order whose PDUs have a property: what goes up has the expected
-- numbers, one after another, and the property.
pub record Advances (P : Pdu → Type 0) (q : Receiver) (us : List Pdu) (t : Receiver) : Type 0 where
  pub queue : IsGapped t
  pub consecutive : Consecutive q.rcv_next_seq_num us
  pub next : t.rcv_next_seq_num ≡ q.rcv_next_seq_num + length us
  pub delivered : All P us
  pub waiting : All P t.seqq

module _ (P : Pdu → Type 0) where
  seqq_push-All :
      (rb : Pdu) (q : Receiver)
      → IsGapped q
      → q.rcv_next_seq_num < rb.seqnum
      → rb.seqnum + 1 < 2 ^ 32
      → P rb
      → All P q.seqq
      → All P (seqq_push rb q).seqq
  seqq_push-All rb q v after small p ps =
      elim (seqq_push-Pushes rb q v.queue (omega arith) small).outcome [
        | inl ((xs, ys, old, new), counted) ↦
            let (front, back) = All-split P xs ys (subst (All P) old ps) in
            subst (All P) (sym new) (All-append P xs (rb ∷ ys) front (p, back))
        | inr (same, counted, why) ↦ subst (All P) (sym same) ps
      ]

  counted_only :
      (q : Receiver)
      → IsGapped q
      → All P q.seqq
      → Advances P q [] (record q { rx_err = q.rx_err + 1 })
  counted_only q v ps = record {
    queue = record {
      queue = record {
        ordered = v.queue.ordered;
        counted = v.queue.counted;
        bounded = v.queue.bounded;
      };
      gap = v.gap;
    };
    consecutive = tt;
    next = omega arith;
    delivered = tt;
    waiting = ps;
  }

  pub Arrival-Advances :
      (rtx_ctrl : Bool) (rb : Pdu) (q : Receiver) (us : List Pdu) (t : Receiver)
      → Arrival rtx_ctrl rb q us t
      → IsGapped q
      → rb.seqnum + 1 < 2 ^ 32
      → P rb
      → All P q.seqq
      → Advances P q us t
  Arrival-Advances rtx_ctrl rb q us t (Arrival.duplicate before) v small p ps = counted_only q v ps
  Arrival-Advances rtx_ctrl rb q us t (Arrival.dropped after unreliable) v small p ps =
      counted_only q v ps
  Arrival-Advances rtx_ctrl rb q us t (Arrival.queued after) v small p ps = record {
    queue = seqq_push-IsGapped rb q v after small;
    consecutive = tt;
    next = omega (arith, seqq_push-next rb q);
    delivered = tt;
    waiting = seqq_push-All rb q v after small p ps;
  }
  Arrival-Advances rtx_ctrl rb q us t (Arrival.delivered same) v small p ps =
      let delivers = seqq_pop_many-Delivers (past rb q) (past-IsQueue rb q v same) in
      let (up, left) =
        All-split P (seqq_pop_many 0 (past rb q)).0 (seqq_pop_many 0 (past rb q)).1.seqq
          (subst (All P) (sym delivers.all) ps) in
      record {
        queue = record {
          queue = record {
            ordered = delivers.queue.ordered;
            counted = delivers.queue.counted;
            bounded = delivers.queue.bounded;
          };
          gap = delivers.gap;
        };
        consecutive = (
          same,
          subst (λ n. Consecutive (n + 1) (seqq_pop_many 0 (past rb q)).0) same
              delivers.consecutive,
        );
        next = omega (arith, delivers.next);
        delivered = (p, up);
        waiting = left;
      }
