-- ===== src/Kernel/Pduft/Tests.antt =====
-- The forwarding table of kernel/normal-common.c at concrete inputs.
use rlite.Base.{
  ℕ, ◌+◌, ◌%◌, ◌≡◌, refl, none, some, true, false, [], ◌∷◌, arith, ◌==◌, if◌then◌else◌,
}
use rlite.Kernel.Pduft.{
  put_count, PciMatch, Normal, done, find_entry, rl_pduft_match_is_dstonly,
  rl_pduft_match_is_perflow, rl_pduft_lookup, rl_pduft_set, rl_pduft_flush, rl_pduft_flush_by_flow,
  pduft_lookup_internal, perflow_lookup, unlink_tables, unlink_table, unlink_bucket,
  pduft_entry_unlink, entry_for,
}
use rlite.Kernel.Pduft.Destinations.{Routes, rl_pduft_set-Routes, rl_pduft_set_perflow-Routes}
use rlite.Kernel.Pduft.Flushing.{rl_pduft_lookup-flush, rl_pduft_lookup-flush_by_flow}
use rlite.Kernel.Pduft.References.{rl_pduft_set-refcnt, is_flow, released, replaced_default_leaks}

abbrev bucket_of : ℕ → ℕ
bucket_of key = key % 8

abbrev to_all : PciMatch
to_all = record { dst_addr = 0; src_addr = 0; dst_cepid = 0; src_cepid = 0; qos_id = 0 }

abbrev to_five : PciMatch
to_five = record to_all { dst_addr = 5 }

abbrev one_flow : PciMatch
one_flow = record { dst_addr = 5; src_addr = 6; dst_cepid = 1; src_cepid = 2; qos_id = 0 }

abbrev new_table : Normal
new_table = record {
  pduft_dflt = none;
  perflow_present = false;
  pdu_ft = λ _. [];
  pdu_ft_perflow = λ _. [];
  entry_at = λ _. record { match = to_all; flow = 0 };
  refcnt = λ _. 1;
  postpones = λ _. true;
}

-- The entry 40 routes the destination 5 over the flow 3.
abbrev with_five : Normal
with_five = record new_table {
  pdu_ft = λ b. if b == 5 then 40 ∷ [] else [];
  entry_at = λ _. record { match = to_five; flow = 3 };
}

rl_pduft_set-Routes_example :
    (t : Normal) × (rl_pduft_set bucket_of (some 40) to_five 3 new_table ≡ (done, t))
    × Routes bucket_of new_table to_five 3 t
unfolding rl_pduft_match_is_dstonly
rl_pduft_set-Routes_example =
    rl_pduft_set-Routes bucket_of new_table to_five 3 40 refl refl (omega arith) (λ p. tt)

rl_pduft_set_perflow-Routes_example :
    (t : Normal) × (rl_pduft_set bucket_of none one_flow 9 with_five ≡ (done, t))
    × Routes bucket_of with_five one_flow 9 t
unfolding rl_pduft_match_is_perflow find_entry
rl_pduft_set_perflow-Routes_example =
    rl_pduft_set_perflow-Routes bucket_of with_five one_flow 9 none 40 refl refl refl

rl_pduft_lookup-flush_example : rl_pduft_lookup bucket_of (rl_pduft_flush with_five) one_flow ≡ none
rl_pduft_lookup-flush_example =
    rl_pduft_lookup-flush bucket_of (λ key. omega arith) with_five one_flow

abbrev with_default : Normal
with_default = record with_five { pduft_dflt = some 3 }

default_stays : rl_pduft_lookup bucket_of (rl_pduft_flush_by_flow 3 with_default) to_five ≡ some 3
unfolding rl_pduft_lookup rl_pduft_flush_by_flow unlink_tables unlink_table unlink_bucket
    pduft_entry_unlink pduft_lookup_internal perflow_lookup find_entry
default_stays = refl

rl_pduft_lookup-flush_by_flow_example : with_default.pduft_dflt ≡ some 3
rl_pduft_lookup-flush_by_flow_example =
    rl_pduft_lookup-flush_by_flow bucket_of (λ key. omega arith) with_default to_five 3
      default_stays

-- The entry gives up the last reference on the flow 3, whose removal is postponed.
rl_pduft_set-refcnt_example :
    (rl_pduft_set bucket_of none to_five 9 with_five).1.refcnt 3
    ≡ (if is_flow (released bucket_of to_five with_five) 3 then put_count true 1 else 1) + 0
unfolding rl_pduft_set rl_pduft_match_is_dstonly rl_pduft_match_is_perflow entry_for
    pduft_lookup_internal perflow_lookup find_entry
rl_pduft_set-refcnt_example = rl_pduft_set-refcnt bucket_of none to_five 9 3 with_five refl

replaced_default_leaks_example :
    let t =
      rl_pduft_flush
        (rl_pduft_set bucket_of none to_all 9
          (rl_pduft_set bucket_of none to_all 3 new_table).1).1 in
    (t.refcnt 3 ≡ 2) × (t.refcnt 9 ≡ 1) × (t.pduft_dflt ≡ none)
unfolding rl_pduft_match_is_dstonly
replaced_default_leaks_example =
    replaced_default_leaks bucket_of new_table to_all none 3 9 refl refl (omega arith) refl
      (λ b. refl) (λ b. refl)
