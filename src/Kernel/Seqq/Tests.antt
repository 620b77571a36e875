-- ===== src/Kernel/Seqq/Tests.antt =====
-- The sequencing queue of kernel/normal.c at concrete inputs.
use rlite.Base.{ℕ, false, ◌≡◌, refl, [], ◌∷◌}
use rlite.Kernel.Seqq.{Pdu, Receiver, seqq_push, seqq_pop_many, seqq_insert, pop_from}

abbrev pdu_of : ℕ → Pdu
pdu_of seqnum = record { seqnum = seqnum; drf = false; len = 100; sdu = [] }

-- The numbers 11 and 13 wait for 10 and 12.
abbrev waiting : Receiver
waiting = record {
  rcv_next_seq_num = 10;
  seqq = pdu_of 11 ∷ pdu_of 13 ∷ [];
  seqq_len = 2;
  rx_err = 0;
  rx_pkt = 2;
  rx_byte = 200;
}

-- The number 10 was delivered.
abbrev resumed : Receiver
resumed = record waiting { rcv_next_seq_num = 11 }

pops_eleven : (seqq_pop_many 0 resumed).0 ≡ pdu_of 11 ∷ []
unfolding seqq_pop_many pop_from
pops_eleven = refl

duplicate_dropped : seqq_push (pdu_of 11) waiting ≡ record waiting { rx_err = 1 }
unfolding seqq_push seqq_insert
duplicate_dropped = refl
