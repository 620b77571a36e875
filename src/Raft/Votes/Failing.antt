-- ===== src/Raft/Votes/Failing.antt =====
-- A vote request of user/libs/raft.cpp that fails on the way: whatever the system does to the log file.
use rlite.Base.{◌≡◌, refl, ◌∙◌, arith, Option-cases, inl, inr}
use rlite.Raft.Types.{TimerCmd}
use rlite.Raft.LogFile.{LogFile}
use rlite.Raft.Machine.{
  Sm, M, Code, err, next_fault, next_rand, set_timer, add_timer, check_output_arg, messages,
}
use rlite.Raft.Storage.{set_file}
use rlite.Raft.Steps.{
  Preorder, Steps, Steps-pure, Steps-raise, Steps-gets, Steps-bind, Steps-if, Steps-modify,
}

abbrev SameMessages : Sm → Sm → Type 0
SameMessages s t = messages t ≡ messages s

same_messages : Preorder SameMessages
same_messages = record { refl_at = λ s. refl; join = λ s t u h k. k ∙ h }

next_fault-SameMessages : Steps SameMessages next_fault
unfolding next_fault
next_fault-SameMessages = record { at = λ s. ground arith }

next_rand-SameMessages : Steps SameMessages next_rand
unfolding next_rand
next_rand-SameMessages = record { at = λ s. ground arith }

check_output_arg-SameMessages : Steps SameMessages check_output_arg
unfolding check_output_arg
check_output_arg-SameMessages = record { at = λ s. ground arith }

set_file-SameMessages : (f : LogFile) → Steps SameMessages (set_file f)
set_file-SameMessages f = Steps-modify _ (λ s. refl)

set_timer-SameMessages : (c : TimerCmd) → Steps SameMessages (set_timer c)
unfolding set_timer add_timer
set_timer-SameMessages c =
    Steps-modify _ (λ s. elim (Option-cases s.out) [
      | inl missing ↦ ground arith
      | inr (o, given) ↦ ground arith
    ])

ruleset message_steps = (
  same_messages, Steps-pure, Steps-raise, Steps-gets, Steps-bind, Steps-if, Steps-modify,
  next_fault-SameMessages, next_rand-SameMessages, check_output_arg-SameMessages,
  set_file-SameMessages, set_timer-SameMessages,
)

-- An action that hands out no message if it fails.
record IsSilent {A : Type 0} (m : M A) : Type 0 where
  pub at : (s : Sm) (c : Code) → (m s).0 ≡ err c → SameMessages s (m s).1
