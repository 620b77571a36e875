-- ===== src/Raft/Machine.antt =====
-- `class RaftSM` of include/rlite/raft.hpp with what its methods read and write outside it, and the
-- actions that its methods are made of. What a method wrote before it fails stays written.
use rlite.Base.{ℕ, Bool, Option, none, some, List, [], ◌∷◌, ◌++◌, if◌then◌else◌}
use rlite.Raft.Types.{ReplicaId, Entry, Server, State, Output, Message, TimerCmd}
use rlite.Raft.LogFile.{LogFile, Fault, healthy}

-- A call of the user's `apply`.
pub record Applied : Type 0 where
  pub index : ℕ
  pub entry : Entry

-- The last five fields are not members of the class: the caller's output (`none` is the null
-- pointer), the calls of `apply` so far, the time of the call, the results of `rand()` to come, and
-- what the coming operations on the file meet (no entry: they work).
pub record Sm : Type 0 where
  pub current_term : ℕ
  pub voted_for : ReplicaId
  pub servers : List (ReplicaId × Server)
  pub state : State
  pub commit_index : ℕ
  pub last_applied : ℕ
  pub local_id : ReplicaId
  pub leader_id : ReplicaId
  pub last_log_index : ℕ
  pub last_log_term : ℕ
  pub votes_collected : ℕ
  pub logfile : LogFile
  pub log_command_size : ℕ
  pub election_timeout_min : ℕ
  pub election_timeout_max : ℕ
  pub heartbeat_timeout : ℕ
  pub rtx_timeout : ℕ
  pub discarded : ℕ
  pub out : Option Output
  pub applied : List Applied
  pub now : ℕ
  pub rands : List ℕ
  pub faults : List Fault

-- A result below zero, the result 1 of the `log_entry_get_…` functions, a failed `assert`, and the
-- end of a loop's fuel, which no run meets.
pub data Code : Type 0 where
  failed no_entry aborted out_of_fuel : Code

pub data Result {ℓ} (A : Type ℓ) : Type ℓ where
  ok : A → Result A
  err : Code → Result A

abbrev pub M : Type 0 → Type 0
M A = Sm → Result A × Sm

module _ {A : Type 0} where
  unfoldable pub pure : A → M A
  pure a s = (ok a, s)

  unfoldable pub raise : Code → M A
  raise c s = (err c, s)

  unfoldable pub gets : (Sm → A) → M A
  gets f s = (ok (f s), s)

unfoldable pub modify : (Sm → Sm) → M (Unit {0})
modify f s = (ok tt, f s)

module _ {A B : Type 0} where
  abbrev pub continue : Result A → (A → M B) → M B
  continue (ok a) f s = f a s
  continue (err c) f s = (err c, s)

  infixl 10 ◌>>=◌ ◌>>◌
  -- Opening this opens the four actions above too.
  unfoldable pub ◌>>=◌ : M A → (A → M B) → M B
  unfolding pure raise gets modify
  ◌>>=◌ m f s = let (r, t) = m s in continue r f t

  abbrev pub ◌>>◌ : M A → M B → M B
  m >> n = m >>= λ _. n

abbrev pub skip : M (Unit {0})
skip = pure tt

abbrev pub when : Bool → M (Unit {0}) → M (Unit {0})
when b m = if b then m else skip

-- The fault that meets the next operation on the file.
unfoldable pub next_fault : M Fault
next_fault s = elim s.faults [ [] ↦ (ok healthy, s) | f ∷ fs ↦ (ok f, record s { faults = fs }) ]

-- `rand()`.
unfoldable pub next_rand : M ℕ
next_rand s = elim s.rands [ [] ↦ (ok 0, s) | r ∷ rs ↦ (ok r, record s { rands = rs }) ]

unfoldable pub add_message : ReplicaId → Message → Output → Output
add_message to m o = record o { output_messages = o.output_messages ++ (to, m) ∷ [] }

unfoldable pub add_timer : TimerCmd → Output → Output
add_timer c o = record o { timer_commands = o.timer_commands ++ c ∷ [] }

abbrev pub map_out : (Output → Output) → Option Output → Option Output
map_out f none = none
map_out f (some o) = some (f o)

-- `out->output_messages.push_back`.
unfoldable pub send : ReplicaId → Message → M (Unit {0})
unfolding modify
send to m = modify λ s. record s { out = map_out (add_message to m) s.out }

-- `out->timer_commands.push_back`.
unfoldable pub set_timer : TimerCmd → M (Unit {0})
unfolding modify
set_timer c = modify λ s. record s { out = map_out (add_timer c) s.out }

-- `RaftSM::check_output_arg`.
unfoldable pub check_output_arg : M (Unit {0})
check_output_arg s = elim s.out [ none ↦ (err failed, s) | some o ↦ (ok tt, s) ]

-- The messages that a machine has handed to its caller.
abbrev pub messages : Sm → List (ReplicaId × Message)
messages s = elim s.out [ none ↦ [] | some o ↦ o.output_messages ]
