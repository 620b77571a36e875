-- ===== src/Raft/Types.antt =====
-- include/rlite/raft.hpp: messages, timers, per-replica records and the state of `RaftSM`.
use rlite.Base.{◌≡◌, refl, arith}
use rlite.Base.{ℕ, ◌+◌, ◌-◌, ◌%◌, ◌^◌, Bool, true, false, List, [], ◌∷◌, ◌&&◌, ◌==◌}

-- Term and LogIndex are `uint32_t`.
abbrev pub u32_mod : ℕ
u32_mod = 2 ^ 32

abbrev pub add32 : ℕ → ℕ → ℕ
add32 a b = (a + b) % u32_mod

abbrev pub sub32 : ℕ → ℕ → ℕ
sub32 a b = (a + u32_mod - b) % u32_mod

-- `std::string`, as its bytes.
abbrev pub ReplicaId : Type 0
ReplicaId = List ℕ

unfoldable pub same_id : ReplicaId → ReplicaId → Bool
same_id [] [] = true
same_id (a ∷ as') (b ∷ bs) = a == b && same_id as' bs
same_id _ _ = false

abbrev pub is_empty {ℓ} : {A : Type ℓ} → List A → Bool
is_empty [] = true
is_empty (x ∷ xs) = false

-- The command of a log entry: `log_command_size` bytes.
abbrev pub Command : Type 0
Command = List ℕ

pub record Entry : Type 0 where
  pub term : ℕ
  pub command : Command

pub record RequestVote : Type 0 where
  pub term : ℕ
  pub candidate_id : ReplicaId
  pub last_log_index : ℕ
  pub last_log_term : ℕ

pub record RequestVoteResp : Type 0 where
  pub term : ℕ
  pub vote_granted : Bool

pub record AppendEntries : Type 0 where
  pub term : ℕ
  pub leader_id : ReplicaId
  pub leader_commit : ℕ
  pub prev_log_index : ℕ
  pub prev_log_term : ℕ
  pub entries : List Entry

pub record AppendEntriesResp : Type 0 where
  pub term : ℕ
  pub follower_id : ReplicaId
  pub log_index : ℕ
  pub success : Bool

pub data Message : Type 0 where
  request_vote : RequestVote → Message
  request_vote_resp : RequestVoteResp → Message
  append_entries : AppendEntries → Message
  append_entries_resp : AppendEntriesResp → Message

-- The source's `Invalid` values are default initialisers that no operation uses.
pub data TimerType : Type 0 where
  election heart_beat log_replication : TimerType

pub data TimerAction : Type 0 where
  restart stop : TimerAction

pub record TimerCmd : Type 0 where
  pub type : TimerType
  pub action : TimerAction
  pub milliseconds : ℕ

pub record Output : Type 0 where
  pub output_messages : List (ReplicaId × Message)
  pub timer_commands : List TimerCmd

pub data State : Type 0 where
  follower candidate leader : State

pub record Server : Type 0 where
  pub next_index_acked : ℕ
  pub next_index_unacked : ℕ
  pub match_index : ℕ
  pub last_ae_time : ℕ

pub same_id_sound : (a b : ReplicaId) → same_id a b ≡ true → a ≡ b
unfolding same_id
same_id_sound [] [] h = refl
same_id_sound [] (y ∷ b) h = ground arith
same_id_sound (x ∷ a) [] h = ground arith
same_id_sound (x ∷ a) (y ∷ b) h = ground (arith, same_id_sound a b)

pub same_id_refl : (a : ReplicaId) → same_id a a ≡ true
unfolding same_id
same_id_refl [] = refl
same_id_refl (x ∷ a) = ground (arith, same_id_refl a)
