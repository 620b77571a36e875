-- ===== src/Kernel/Seqq/Order.antt =====
-- The order of the sequencing queue of kernel/normal.c, and of what comes out of it.
use native.Mathlib.Decide.{dec_lt}
use rlite.Base.{
  subst, ℕ, ◌+◌, ◌^◌, ◌≡◌, ◌≤◌, ◌<◌, ◌⊎◌, refl, ap, sym, ◌∙◌, none, some, List, [], ◌∷◌, ◌++◌,
  arith, ◌==◌, length, length-append, Bool-cases, Option-cases, inl, inr,
}
use rlite.Kernel.Seqq.{Pdu, Receiver, Popped, seqq_insert, seqq_push, pop_from, seqq_pop_many}

-- Sequence numbers from `n` on, each higher than the one before, below the last of 32 bits.
abbrev pub Ascends : ℕ → List Pdu → Type 0
Ascends n [] = Unit {0}
Ascends n (p ∷ ps) = (n ≤ p.seqnum) × (p.seqnum + 1 < 2 ^ 32) × Ascends (p.seqnum + 1) ps

-- Sequence numbers from `n` on with no gap.
abbrev pub Consecutive : ℕ → List Pdu → Type 0
Consecutive n [] = Unit {0}
Consecutive n (p ∷ ps) = (p.seqnum ≡ n) × Consecutive (n + 1) ps

Ascends-le : (n m : ℕ) (ps : List Pdu) → m ≤ n → Ascends n ps → Ascends m ps
Ascends-le n m [] le h = tt
Ascends-le n m (p ∷ ps) le h = (omega arith, h.1, h.2)

seqq_insert-Ascends :
    (n : ℕ) (rb : Pdu) (ps qs : List Pdu)
    → n ≤ rb.seqnum
    → rb.seqnum + 1 < 2 ^ 32
    → Ascends n ps
    → seqq_insert rb ps ≡ some qs
    → Ascends n qs × (length qs ≡ length ps + 1)
unfolding seqq_insert
seqq_insert-Ascends n rb [] qs le small h e =
    let same : rb ∷ [] ≡ qs = cc in
    subst (λ xs. Ascends n xs × (length xs ≡ 1)) same ((le, small, tt), refl)
seqq_insert-Ascends n rb (p ∷ ps) qs le small h e =
    let goal = λ (xs : List Pdu). Ascends n xs × (length xs ≡ length (p ∷ ps) + 1) in
    elim (dec_lt rb.seqnum p.seqnum) [
      | yes before ↦
          let same : rb ∷ p ∷ ps ≡ qs = ground arith in
          subst goal same ((le, small, (omega arith, h.1, h.2)), omega arith)
      | no later ↦ elim (Option-cases (seqq_insert rb ps)) [
        | inl missing ↦ absurd (ground arith)
        | inr (rest, found) ↦
            let (ordered, longer) =
              seqq_insert-Ascends (p.seqnum + 1) rb ps rest (ground arith) small h.2 found in
            let same : p ∷ rest ≡ qs = ground arith in
            subst goal same ((h.0, h.1, ordered), omega arith)
      ]
    ]

-- The queue is in order, from the next expected number on, its length is right, and no more than 64.
pub record IsQueue (s : Receiver) : Type 0 where
  pub ordered : Ascends s.rcv_next_seq_num s.seqq
  pub counted : s.seqq_len ≡ length s.seqq
  pub bounded : s.seqq_len ≤ 64

-- What comes out of a queue, and what is left.
pub record Pops (n : ℕ) (ps : List Pdu) (r : Popped) : Type 0 where
  pub consecutive : Consecutive n r.qrbs
  pub next : r.next ≡ n + length r.qrbs
  pub all : r.qrbs ++ r.left ≡ ps
  pub gap : Ascends (r.next + 1) r.left
  pub counted : r.count ≡ length r.qrbs

pop_from-left :
    (n : ℕ) (ps : List Pdu)
    → Ascends (n + 1) ps
    → pop_from 0 n ps ≡ record { qrbs = []; left = ps; count = 0; next = n }
unfolding pop_from
pop_from-left n [] h = refl
pop_from-left n (p ∷ ps) h =
    ground (arith, pop_from-left n ps (Ascends-le (p.seqnum + 1) (n + 1) ps (omega arith) h.2))

pop_from-Pops : (n : ℕ) (ps : List Pdu) → Ascends n ps → Pops n ps (pop_from 0 n ps)
unfolding pop_from
pop_from-Pops n [] h = record {
  consecutive = tt;
  next = omega arith;
  all = refl;
  gap = tt;
  counted = refl;
}
pop_from-Pops n (p ∷ ps) h = elim (dec_lt n p.seqnum) [
  | yes gap ↦
      let stays = pop_from-left n (p ∷ ps) (omega arith, h.1, h.2) in
      subst (Pops n (p ∷ ps)) (sym stays) (record {
        consecutive = tt;
        next = omega arith;
        all = refl;
        gap = (omega arith, h.1, h.2);
        counted = refl;
      })
  | no fits ↦
      let this : p.seqnum ≡ n = omega arith in
      let r = pop_from 0 (n + 1) ps in
      let rest = pop_from-Pops (n + 1) ps (subst (λ k. Ascends (k + 1) ps) this h.2) in
      let step : pop_from 0 n (p ∷ ps) ≡ record r { qrbs = p ∷ r.qrbs; count = r.count + 1 } =
        ground arith in
      subst (Pops n (p ∷ ps)) (sym step) (record {
        consecutive = (this, rest.consecutive);
        next = omega (arith, rest.next);
        all = ap (◌∷◌ p) rest.all;
        gap = rest.gap;
        counted = omega (arith, rest.counted);
      })
]

-- A number is in a queue.
abbrev pub Has : ℕ → List Pdu → Type 0
Has n [] = ⊥
Has n (p ∷ ps) = (p.seqnum ≡ n) ⊎ Has n ps

seqq_insert-Has : (rb : Pdu) (ps : List Pdu) → seqq_insert rb ps ≡ none → Has rb.seqnum ps
unfolding seqq_insert
seqq_insert-Has rb [] e = absurd (ground arith)
seqq_insert-Has rb (p ∷ ps) e = elim (Bool-cases (rb.seqnum == p.seqnum)) [
  | inl same ↦ inl (ground arith)
  | inr other ↦ inr (
      seqq_insert-Has rb ps (elim (Option-cases (seqq_insert rb ps)) [
        | inl missing ↦ missing
        | inr (qs, found) ↦ absurd (ground arith)
      ]))
]

-- A queue `qs` that is `ps` with one more PDU somewhere.
abbrev pub IsInserted : Pdu → List Pdu → List Pdu → Type 0
IsInserted rb ps qs = (xs : List Pdu) × (ys : List Pdu) × (ps ≡ xs ++ ys) × (qs ≡ xs ++ rb ∷ ys)

seqq_insert-IsInserted :
    (rb : Pdu) (ps qs : List Pdu) → seqq_insert rb ps ≡ some qs → IsInserted rb ps qs
unfolding seqq_insert
seqq_insert-IsInserted rb [] qs e = let same : rb ∷ [] ≡ qs = cc in ([], [], refl, sym same)
seqq_insert-IsInserted rb (p ∷ ps) qs e = elim (dec_lt rb.seqnum p.seqnum) [
  | yes before ↦ let same : rb ∷ p ∷ ps ≡ qs = ground arith in ([], p ∷ ps, refl, sym same)
  | no later ↦ elim (Option-cases (seqq_insert rb ps)) [
    | inl missing ↦ absurd (ground arith)
    | inr (rest, found) ↦
        let (xs, ys, old, new) = seqq_insert-IsInserted rb ps rest found in
        let same : p ∷ rest ≡ qs = ground arith in
        (p ∷ xs, ys, ap (◌∷◌ p) old, sym same ∙ ap (◌∷◌ p) new)
  ]
]

-- What becomes of a PDU that goes to the queue.
pub record Pushes (rb : Pdu) (s t : Receiver) : Type 0 where
  pub queue : IsQueue t
  pub outcome :
      (IsInserted rb s.seqq t.seqq × (t.rx_err ≡ s.rx_err))
      ⊎ ((t.seqq ≡ s.seqq) × (t.rx_err ≡ s.rx_err + 1) × ((64 ≤ s.seqq_len) ⊎ Has rb.seqnum s.seqq))

-- A PDU with a number that is still expected, below the last of 32 bits, goes into its place in the
-- sequencing queue, or, only if the queue holds 64 or has that number already, is dropped and
-- counted as an error. Either way the queue is in order, and its length is right and no more than
-- 64.
pub seqq_push-Pushes :
    (rb : Pdu) (s : Receiver)
    → IsQueue s
    → s.rcv_next_seq_num ≤ rb.seqnum
    → rb.seqnum + 1 < 2 ^ 32
    → Pushes rb s (seqq_push rb s)
unfolding seqq_push
seqq_push-Pushes rb s v expected small = elim (dec_lt s.seqq_len 64) [
  | no full ↦ dropped (ground arith) (inl (omega arith))
  | yes room ↦ elim (Option-cases (seqq_insert rb s.seqq)) [
    | inl duplicate ↦ dropped (ground arith) (inr (seqq_insert-Has rb s.seqq duplicate))
    | inr (qs, fits) ↦
        let (ordered, longer) =
          seqq_insert-Ascends s.rcv_next_seq_num rb s.seqq qs expected small v.ordered fits in
        let t = record s {
          seqq = qs;
          seqq_len = s.seqq_len + 1;
          rx_pkt = s.rx_pkt + 1;
          rx_byte = s.rx_byte + rb.len;
        } in
        let step : seqq_push rb s ≡ t = ground arith in
        subst (Pushes rb s) (sym step) (record {
          queue = record {
            ordered = ordered;
            counted = omega (arith, v.counted);
            bounded = omega arith;
          };
          outcome = inl (seqq_insert-IsInserted rb s.seqq qs fits, refl);
        })
  ]
]
  where
    dropped :
        seqq_push rb s ≡ record s { rx_err = s.rx_err + 1 }
        → (64 ≤ s.seqq_len) ⊎ Has rb.seqnum s.seqq
        → Pushes rb s (seqq_push rb s)
    dropped step why = subst (Pushes rb s) (sym step) (record {
      queue = record { ordered = v.ordered; counted = v.counted; bounded = v.bounded };
      outcome = inr (refl, refl, why);
    })

-- Without a tolerated gap, what comes out of a queue has the expected numbers, one after another,
-- and the next number to expect moves on past them. The rest stays, behind a gap, in a queue in order.
pub record Delivers (s : Receiver) (result : List Pdu × Receiver) : Type 0 where
  pub consecutive : Consecutive s.rcv_next_seq_num result.0
  pub next : result.1.rcv_next_seq_num ≡ s.rcv_next_seq_num + length result.0
  pub all : result.0 ++ result.1.seqq ≡ s.seqq
  pub gap : Ascends (result.1.rcv_next_seq_num + 1) result.1.seqq
  pub queue : IsQueue result.1

-- From a sequencing queue in order, with no gap tolerated, the PDUs with the next expected numbers
-- come out, one after another, and the number that is expected next is the one after them. The
-- others stay, behind a gap, in a queue in order; nothing is lost.
pub seqq_pop_many-Delivers : (s : Receiver) → IsQueue s → Delivers s (seqq_pop_many 0 s)
unfolding seqq_pop_many
seqq_pop_many-Delivers s v =
    let r = pop_from 0 s.rcv_next_seq_num s.seqq in
    let p = pop_from-Pops s.rcv_next_seq_num s.seqq v.ordered in
    let split = ap length p.all in
    record {
      consecutive = p.consecutive;
      next = p.next;
      all = p.all;
      gap = p.gap;
      queue = record {
        ordered = Ascends-le (r.next + 1) r.next r.left (omega arith) p.gap;
        counted = omega (arith, p.counted, split, length-append r.qrbs r.left, v.counted);
        bounded = omega (arith, v.bounded);
      };
    }
