-- ===== src/Kernel/Sched/Tests.antt =====
-- The PDU schedulers of kernel/normal.c at concrete inputs.
use rlite.Base.{ℕ, ◌≡◌, ◌<◌, refl, some, [], ◌∷◌, get_elem?, zero, suc, arith}
use rlite.Kernel.Sched.{
  RlBuf, Queue, RlSched, sched_enq, sched_wrr_enq, sched_wrr_deq, sched_wrr_do_config, min_weight,
  as_credit,
}
use rlite.Kernel.Sched.Queues.{total, IsCounted}
use rlite.Kernel.Sched.Rounds.{HasCredit, RoundServed, sched_wrr_deq-RoundServed}
use rlite.Kernel.Sched.Config.{IsReady, sched_wrr_do_config-IsReady}

abbrev small : RlBuf
small = record { qos_id = 0; len = 100; truesize = 256 }

abbrev large : RlBuf
large = record { qos_id = 7; len = 1500; truesize = 2048 }

-- The weights of `sched_wrr_init`, with a PDU in each class, on the turn of the second one.
abbrev loaded : RlSched
loaded = record {
  queues =
      record { q = small ∷ []; qlen = 256; weight = 2000; credit = 2000 }
      ∷ record { q = large ∷ []; qlen = 2048; weight = 8000; credit = 1000 }
      ∷ [];
  max_queue_size = 4096;
  num_queues = 2;
  quantum = 2000;
  cur_class = 1;
}

loaded-IsCounted : IsCounted loaded
loaded-IsCounted = record { sized = refl; some_queue = omega arith; lengths = lengths }
  where
    lengths : (i : ℕ) (pq : Queue) → get_elem? loaded.queues i ≡ some pq → pq.qlen ≡ total pq.q
    lengths zero pq at = ground arith
    lengths (suc zero) pq at = ground arith
    lengths (suc (suc i)) pq at = ground arith

loaded-HasCredit : HasCredit loaded
loaded-HasCredit = record { credits = credits }
  where
    credits :
        (i : ℕ) (pq : Queue)
        → get_elem? loaded.queues i ≡ some pq
        → (0 < pq.credit) × (0 < as_credit pq.weight)
    credits zero pq at = ground arith
    credits (suc zero) pq at = ground arith
    credits (suc (suc i)) pq at = ground arith

loaded-IsReady : IsReady loaded
loaded-IsReady = record {
  counted = loaded-IsCounted;
  credit = loaded-HasCredit;
  turn = omega arith;
}

sched_wrr_deq-RoundServed_example : RoundServed loaded (sched_wrr_deq loaded)
sched_wrr_deq-RoundServed_example =
    sched_wrr_deq-RoundServed loaded loaded-IsCounted loaded-HasCredit (omega arith)

abbrev one_more : RlSched
one_more = record loaded {
  queues =
      record { q = small ∷ small ∷ []; qlen = 512; weight = 2000; credit = 2000 }
      ∷ record { q = large ∷ []; qlen = 2048; weight = 8000; credit = 1000 }
      ∷ [];
}

small-goes_in : sched_wrr_enq small loaded ≡ some one_more
unfolding sched_wrr_enq sched_enq
small-goes_in = refl

sched_wrr_do_config-IsReady_example :
    (t : RlSched) × (sched_wrr_do_config 4096 2000 (1 ∷ 4 ∷ []) loaded ≡ some t)
    × IsReady t
    × (t.num_queues ≡ 2)
unfolding min_weight
sched_wrr_do_config-IsReady_example =
    sched_wrr_do_config-IsReady 4096 2000 (1 ∷ 4 ∷ []) loaded (omega arith) (omega arith)
      (omega arith) (omega arith) (omega arith)
