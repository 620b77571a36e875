-- ===== src/Kernel/Efcp/Types.antt =====
-- The state of EFCP in kernel/normal.c: `struct dtp` of kernel/rlite-kernel.h, the part of
-- `struct rl_flow_config` of include/rlite/common.h that it reads, and the control PDUs. A timer is
-- the time that it expires at, if it runs.
use rlite.Base.{ℕ, ◌+◌, ◌/◌, ◌%◌, ◌^◌, Bool, true, false, ◌||◌, Option, List, ◌==◌, if◌then◌else◌}
use rlite.Kernel.Seqq.{Pdu, Receiver}

-- RLITE_FC_T_NONE, RLITE_FC_T_WIN, RLITE_FC_T_RATE.
pub data FcType : Type 0 where
  no_fc : FcType
  window : FcType
  rate : FcType

abbrev pub is_window : FcType → Bool
is_window FcType.window = true
is_window _ = false

-- `struct dtcp_config`: the bits of its `flags` are the Booleans.
pub record DtcpConfig : Type 0 where
  pub flow_ctrl : Bool
  pub rtx_ctrl : Bool
  pub shaper : Bool
  pub fc_type : FcType
  pub max_cwq_len : ℕ
  pub initial_credit : ℕ
  pub data_rxms_max : ℕ
  pub max_rtxq_len : ℕ
  pub initial_rtx_timeout : ℕ
  pub initial_a : ℕ
  pub bandwidth : ℕ

-- The configuration of a flow, and whether it is used by an upper IPC process.
pub record Config : Type 0 where
  pub in_order_delivery : Bool
  pub max_sdu_gap : ℕ
  pub dtcp : DtcpConfig
  pub upper_ipcp : Bool

-- DTCP_PRESENT.
abbrev pub dtcp_present : Config → Bool
dtcp_present cfg = cfg.dtcp.flow_ctrl || cfg.dtcp.rtx_ctrl || cfg.dtcp.shaper

-- What an operation finds in the kernel: the time, the kernel's functions on times, and whether
-- there is memory for a PDU.
pub record Env : Type 0 where
  pub jiffies : ℕ
  pub msecs_to_jiffies : ℕ → ℕ
  pub time_before : ℕ → ℕ → Bool
  pub memory : Bool

-- A PDU in the retransmission queue, with its `RL_BUF_RTX`.
pub record Rtx : Type 0 where
  pub pdu : Pdu
  pub rtx_jiffies : ℕ
  pub jiffies : ℕ

-- `struct dtp`, the sender's state, with the token bucket and the statistics of what is sent.
pub record Snd : Type 0 where
  pub snd_lwe : ℕ
  pub snd_rwe : ℕ
  pub next_seq_num_to_use : ℕ
  pub last_seq_num_sent : ℕ
  pub last_ctrl_seq_num_rcvd : ℕ
  pub cwq : List Pdu
  pub cwq_len : ℕ
  pub max_cwq_len : ℕ
  pub snd_inact_tmr : Option ℕ
  pub rtxq : List Rtx
  pub rtxq_len : ℕ
  pub max_rtxq_len : ℕ
  pub rtx_tmr : Option ℕ
  pub rtt : ℕ
  pub rtt_stddev : ℕ
  pub cgwin : ℕ
  pub bucket_size : ℕ
  pub intval_ms : ℕ
  pub drf_set : Bool
  pub tx_pkt : ℕ
  pub tx_byte : ℕ
  pub tx_err : ℕ
  pub rtx_pkt : ℕ
  pub rtx_byte : ℕ

-- `struct dtp`, the receiver's state. The members that the sequencing queue uses are in `q`.
pub record Rcv : Type 0 where
  pub rcv_lwe : ℕ
  pub rcv_rwe : ℕ
  pub max_seq_num_rcvd : ℕ
  pub last_lwe_sent : ℕ
  pub last_seq_num_acked : ℕ
  pub next_snd_ctl_seq : ℕ
  pub rcv_inact_tmr : Option ℕ
  pub a_tmr : Option ℕ
  pub drf_expected : Bool
  pub q : Receiver

pub record Dtp : Type 0 where
  pub mpl_r_a : ℕ
  pub snd : Snd
  pub rcv : Rcv

-- `struct rina_pci_ctrl`, without the addresses and the constants that it takes from the flow.
pub record CtrlPdu : Type 0 where
  pub pdu_type : ℕ
  pub seqnum : ℕ
  pub last_ctrl_seq_num_rcvd : ℕ
  pub ack_nack_seq_num : ℕ
  pub new_rwe : ℕ
  pub new_lwe : ℕ
  pub my_rwe : ℕ
  pub my_lwe : ℕ

-- The values of `rl_seq_t`, and those of the state's own numbers.
abbrev pub seq32 : ℕ → ℕ
seq32 n = n % 2 ^ 32

abbrev pub seq64 : ℕ → ℕ
seq64 n = n % 2 ^ 64

-- The bits of the type of a control PDU: PDU_T_CTRL is 192, PDU_T_FC_BIT 8, PDU_T_ACK_BIT 4, and
-- PDU_T_ACK is 0.
abbrev pub ctrl_type : Bool → Bool → ℕ
ctrl_type fc ack = (if fc || ack then 192 else 0) + (if fc then 8 else 0) + (if ack then 4 else 0)

-- `pdu_type & bit`, and `(pdu_type & PDU_T_CTRL) == PDU_T_CTRL`.
abbrev pub has_bit : ℕ → ℕ → Bool
has_bit bit pdu_type = pdu_type / bit % 2 == 1

abbrev pub is_ctrl : ℕ → Bool
is_ctrl pdu_type = pdu_type / 64 % 4 == 3
