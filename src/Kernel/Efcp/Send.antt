-- ===== src/Kernel/Efcp/Send.antt =====
-- The sender of a flow in kernel/normal.c: the token bucket, `flow_blocked`, the queues of a closed
-- window and of what may have to be sent again, and `rl_normal_sdu_write`.
use rlite.Base.{
  ℕ, ◌+◌, ◌-◌, ◌*◌, ◌/◌, ◌%◌, ◌^◌, Bool, true, false, not, ◌&&◌, ◌||◌, Option, none, some, List, [],
  ◌∷◌, ◌++◌, ltb, leb, ◌==◌, if◌then◌else◌, length, max,
}
use rlite.Kernel.Seqq.{Pdu, sub64}
use rlite.Kernel.Efcp.Types.{Config, dtcp_present, is_window, Env, Snd, seq32, seq64}

abbrev pub rl_cgwin_min : ℕ
rl_cgwin_min = 4

-- The size of `struct rina_pci` with the default sizes of its parts.
abbrev pub pci_size : ℕ
pci_size = 28

unfoldable pub rtt_to_rtx : Config → Snd → ℕ
rtt_to_rtx cfg s = max (seq32 (s.rtt + s.rtt_stddev * 2)) (cfg.dtcp.initial_a * 2 % 2 ^ 32)

abbrev pub start_tmr : ℕ → Option ℕ → Option ℕ
start_tmr expires none = some expires
start_tmr expires (some pending) = some pending

-- `none` is -ENOMEM.
unfoldable pub rl_rtxq_push : Env → Config → Pdu → Snd → Option Snd
rl_rtxq_push env cfg rb s =
    let expires = seq64 (env.jiffies + rtt_to_rtx cfg s) in
    if env.memory
    then some (record s {
      rtxq = s.rtxq ++ record { pdu = rb; rtx_jiffies = expires; jiffies = env.jiffies } ∷ [];
      rtxq_len = s.rtxq_len + 1;
      rtx_tmr = start_tmr expires s.rtx_tmr;
    })
    else none

unfoldable pub flow_blocked : Config → Snd → Bool
flow_blocked cfg s =
    is_window cfg.dtcp.fc_type && ltb s.snd_rwe s.next_seq_num_to_use && leb s.max_cwq_len s.cwq_len
    || cfg.dtcp.rtx_ctrl
      && (ltb s.cgwin (sub64 s.next_seq_num_to_use s.snd_lwe) || leb s.max_rtxq_len s.rtxq_len)

unfoldable pub rl_normal_flow_writeable : Config → Snd → Bool
rl_normal_flow_writeable cfg s = not (flow_blocked cfg s)

-- The user's data, and the room before it in its buffer.
pub record Sdu : Type 0 where
  pub bytes : List ℕ
  pub headroom : ℕ

-- 0, -EAGAIN, -ENOSPC, -ENOMEM, -EINTR.
pub data WriteResult : Type 0 where
  success : WriteResult
  again : WriteResult
  no_space : WriteResult
  no_memory : WriteResult
  interrupted : WriteResult

-- What a write gives back, the PDU that it hands to the relaying task, and the state.
pub record Written : Type 0 where
  pub ret : WriteResult
  pub sent : Option Pdu
  pub snd : Snd

abbrev is_again : WriteResult → Bool
is_again WriteResult.again = true
is_again _ = false

-- Handing over a PDU: `rmt_tx` is the answer of the relaying task, which depends on whether it is
-- given the PDU for good.
unfoldable pub hand_over : (Bool → WriteResult) → Bool → Pdu → Snd → Written
hand_over rmt_tx consume pdu s = record {
  ret = rmt_tx consume;
  sent = some pdu;
  snd =
      if is_again (rmt_tx consume)
      then s
      else record s { tx_pkt = s.tx_pkt + 1; tx_byte = s.tx_byte + pdu.len };
}

abbrev start_snd_inact : Env → ℕ → Snd → Snd
start_snd_inact env mpl_r_a s = record s {
  snd_inact_tmr = some (seq64 (env.jiffies + 3 * mpl_r_a));
}

-- A PDU that need not wait for the window: it goes to the retransmission queue too, if there is one.
unfoldable pub send_now : Env → Config → (Bool → WriteResult) → ℕ → Pdu → Snd → Written
send_now env cfg rmt_tx mpl_r_a pdu s =
    if cfg.dtcp.rtx_ctrl
    then elim (rl_rtxq_push env cfg pdu s) [
      | none ↦ record {
        ret = WriteResult.no_memory;
        sent = none;
        snd = record s { tx_err = s.tx_err + 1 };
      }
      | some t ↦ hand_over rmt_tx true pdu (start_snd_inact env mpl_r_a t)
    ]
    else hand_over rmt_tx false pdu (start_snd_inact env mpl_r_a s)

-- The PDU that an SDU becomes.
abbrev pub pdu_of_sdu : Sdu → Snd → Pdu
pdu_of_sdu rb s = record {
  seqnum = seq32 s.next_seq_num_to_use;
  drf = s.drf_set;
  len = length rb.bytes + pci_size;
  sdu = rb.bytes;
}

-- `rl_normal_sdu_write` once the token bucket lets the SDU pass.
unfoldable pub write_shaped : Env → Config → (Bool → WriteResult) → ℕ → Sdu → Snd → Written
write_shaped env cfg rmt_tx mpl_r_a rb s =
    let pdu = pdu_of_sdu rb s in
    let t = record s { next_seq_num_to_use = seq64 (s.next_seq_num_to_use + 1); drf_set = false } in
    if flow_blocked cfg s
    then record { ret = WriteResult.again; sent = none; snd = record s { snd_inact_tmr = none } }
    else if ltb rb.headroom pci_size
    then record {
      ret = WriteResult.no_space;
      sent = none;
      snd = record s { tx_err = s.tx_err + 1 };
    }
    else if not (dtcp_present cfg)
    then hand_over rmt_tx false pdu (record t { last_seq_num_sent = pdu.seqnum })
    else if is_window cfg.dtcp.fc_type
    then (if ltb t.snd_rwe pdu.seqnum
        then record {
          ret = WriteResult.success;
          sent = none;
          snd = record t { cwq = t.cwq ++ pdu ∷ []; cwq_len = t.cwq_len + 1 };
        }
        else send_now env cfg rmt_tx mpl_r_a pdu (record t { last_seq_num_sent = pdu.seqnum }))
    else send_now env cfg rmt_tx mpl_r_a pdu t

-- One round of the wait for tokens: the microseconds since the last refill are `us`.
unfoldable pub refill : Config → ℕ → ℕ → Snd → Snd
refill cfg len us s =
    if ltb s.bucket_size len && leb (s.intval_ms * 1000) us
    then record s {
      bucket_size = seq64 (s.bucket_size + seq64 (cfg.dtcp.bandwidth / 8 * us) / 1000000);
    }
    else s

-- How the wait for tokens ends: with enough of them, with -EAGAIN, or not before the `wakes` are over.
pub data Shaped : Type 0 where
  pass : Snd → Shaped
  would_block : Shaped
  asleep : Snd → Shaped

-- `wakes` are the microseconds since the last refill that each round of the wait finds.
unfoldable pub take_tokens : Config → Bool → ℕ → List ℕ → Snd → Shaped
take_tokens cfg maysleep len [] s =
    if leb len s.bucket_size
    then Shaped.pass (record s { bucket_size = s.bucket_size - len })
    else if not maysleep
    then Shaped.would_block
    else Shaped.asleep (record s { snd_inact_tmr = none })
take_tokens cfg maysleep len (us ∷ wakes) s =
    let rest =
      take_tokens cfg maysleep len wakes (refill cfg len us (record s { snd_inact_tmr = none })) in
    if leb len s.bucket_size
    then Shaped.pass (record s { bucket_size = s.bucket_size - len })
    else if not maysleep
    then Shaped.would_block
    else rest

-- A write under a token bucket; `none` if it still sleeps when the `wakes` are over. Nothing else
-- changes the flow while it sleeps.
unfoldable pub rl_normal_sdu_write :
    Env → Config → (Bool → WriteResult) → Bool → List ℕ → ℕ → Sdu → Snd → Option Written
rl_normal_sdu_write env cfg rmt_tx maysleep wakes mpl_r_a rb s =
    if cfg.dtcp.bandwidth == 0
    then some (write_shaped env cfg rmt_tx mpl_r_a rb s)
    else elim (take_tokens cfg maysleep (length rb.bytes) wakes s) [
      | pass t ↦ some (write_shaped env cfg rmt_tx mpl_r_a rb t)
      | would_block ↦ some (record { ret = WriteResult.again; sent = none; snd = s })
      | asleep t ↦ none
    ]
