-- ===== src/Kernel/Seqq.antt =====
-- The sequencing queue of a flow's receiver in kernel/normal.c: the PDUs that wait for a gap before
-- them to be filled.
pub mod Order
mod Tests
use rlite.Base.{
  ℕ, zero, suc, ◌+◌, ◌-◌, ◌%◌, ◌^◌, Bool, true, false, Option, none, some, List, [], ◌∷◌, ltb, leb,
  ◌==◌, if◌then◌else◌,
}

-- A data transfer PDU: the sequence number and the DRF flag of its header, the length of its buffer,
-- header included, and the user's data in it.
pub record Pdu : Type 0 where
  pub seqnum : ℕ
  pub drf : Bool
  pub len : ℕ
  pub sdu : List ℕ

-- The members of `struct dtp` that the queue's functions use, and the statistics of the IPC process.
pub record Receiver : Type 0 where
  pub rcv_next_seq_num : ℕ
  pub seqq : List Pdu
  pub seqq_len : ℕ
  pub rx_err : ℕ
  pub rx_pkt : ℕ
  pub rx_byte : ℕ

abbrev pub seqq_max_len : ℕ
seqq_max_len = 64

-- `rl_seq_t` has 32 bits unless the build says otherwise; the receiver's own numbers have 64.
abbrev pub sub64 : ℕ → ℕ → ℕ
sub64 a b = (a + 2 ^ 64 - b) % 2 ^ 64

abbrev pub add32 : ℕ → ℕ → ℕ
add32 a b = (a + b) % 2 ^ 32

abbrev pub map_list : (List Pdu → List Pdu) → Option (List Pdu) → Option (List Pdu)
map_list f none = none
map_list f (some xs) = some (f xs)

-- The loop of `seqq_push` and the insertion; `none` if the number is there already.
unfoldable pub seqq_insert : Pdu → List Pdu → Option (List Pdu)
seqq_insert rb [] = some (rb ∷ [])
seqq_insert rb (cur ∷ rest) =
    let later = seqq_insert rb rest in
    if ltb rb.seqnum cur.seqnum
    then some (rb ∷ cur ∷ rest)
    else if rb.seqnum == cur.seqnum
    then none
    else map_list (λ xs. cur ∷ xs) later

unfoldable pub seqq_push : Pdu → Receiver → Receiver
seqq_push rb s =
    if leb seqq_max_len s.seqq_len
    then record s { rx_err = s.rx_err + 1 }
    else elim (seqq_insert rb s.seqq) [
      | none ↦ record s { rx_err = s.rx_err + 1 }
      | some seqq ↦ record s {
        seqq = seqq;
        seqq_len = s.seqq_len + 1;
        rx_pkt = s.rx_pkt + 1;
        rx_byte = s.rx_byte + rb.len;
      }
    ]

-- What the loop of `seqq_pop_many` has taken out and left, and the next number that it expects.
pub record Popped : Type 0 where
  pub qrbs : List Pdu
  pub left : List Pdu
  pub count : ℕ
  pub next : ℕ

unfoldable pub pop_from : ℕ → ℕ → List Pdu → Popped
pop_from max_sdu_gap next [] = record { qrbs = []; left = []; count = 0; next = next }
pop_from max_sdu_gap next (qrb ∷ rest) =
    let fits = leb (sub64 qrb.seqnum next) max_sdu_gap in
    let r = pop_from max_sdu_gap (if fits then add32 qrb.seqnum 1 else next) rest in
    if fits
    then record r { qrbs = qrb ∷ r.qrbs; count = r.count + 1 }
    else record r { left = qrb ∷ r.left }

unfoldable pub seqq_pop_many : ℕ → Receiver → List Pdu × Receiver
seqq_pop_many max_sdu_gap s =
    let r = pop_from max_sdu_gap s.rcv_next_seq_num s.seqq in
    (r.qrbs, record s { seqq = r.left; seqq_len = s.seqq_len - r.count; rcv_next_seq_num = r.next })
