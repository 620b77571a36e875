-- ===== src/Raft/Tests/Machines.antt =====
-- Three replicas of user/libs/raft.cpp with commands of two bytes: one that has just booted, and
-- what it is after entries were added to its log.
use rlite.Base.{ℕ, refl, true, false, some, [], ◌∷◌, replicate, arith}
use rlite.Raft.Types.{ReplicaId, Entry, Server, Output, follower, leader}
use rlite.Raft.LogFile.{
  LogFile, written, put_bytes, u32_bytes, u32_at, get_bytes, k_log_magic_number,
  k_log_current_term_ofs, k_log_voted_for_ofs,
}
use rlite.Raft.Machine.{Sm}
use rlite.Raft.Election.{id_buf}
use rlite.Raft.Storage.Stored.{IsStored}
use rlite.Raft.Storage.Appended.{appended, appended-IsStored, Fits}
use rlite.Raft.Votes.Durable.{IsDurable}

abbrev pub a : ReplicaId
a = 97 ∷ []

abbrev pub b : ReplicaId
b = 98 ∷ []

abbrev pub c : ReplicaId
c = 99 ∷ []

abbrev pub no_output : Output
no_output = record { output_messages = []; timer_commands = [] }

-- The file that a first boot writes.
abbrev pub new_file : LogFile
new_file =
    written
      (written
        (written (record { present = true; bad = false; size = 0; bytes = λ _. 0 }) 0
          (u32_bytes k_log_magic_number))
        k_log_current_term_ofs (u32_bytes 0))
      k_log_voted_for_ofs (replicate 120 0)

abbrev pub server : ℕ → ℕ → Server
server next match = record {
  next_index_acked = next;
  next_index_unacked = next;
  match_index = match;
  last_ae_time = 0;
}

abbrev pub booted : Sm
booted = record {
  current_term = 0;
  voted_for = [];
  servers = (b, server 1 0) ∷ (c, server 1 0) ∷ [];
  state = follower;
  commit_index = 0;
  last_applied = 0;
  local_id = a;
  leader_id = [];
  last_log_index = 0;
  last_log_term = 0;
  votes_collected = 0;
  logfile = new_file;
  log_command_size = 2;
  election_timeout_min = 100;
  election_timeout_max = 200;
  heartbeat_timeout = 50;
  rtx_timeout = 80;
  discarded = 0;
  out = some no_output;
  applied = [];
  now = 0;
  rands = 7 ∷ 9 ∷ [];
  faults = [];
}

pub booted-IsStored : IsStored booted []
unfolding written u32_bytes
booted-IsStored = record {
  counted = refl;
  small = omega arith;
  open_file = refl;
  no_faults = refl;
  whole = refl;
  terms = λ i e h. ground arith;
  commands = λ i e h. ground arith;
}

pub booted-IsDurable : IsDurable booted
unfolding written put_bytes u32_bytes u32_at get_bytes id_buf
booted-IsDurable = record {
  magic = refl;
  term_holds = refl;
  vote_holds = refl;
  vote_text = tt;
  vote_short = omega arith;
}

abbrev pub first : Entry
first = record { term = 1; command = 10 ∷ 11 ∷ [] }

abbrev pub second : Entry
second = record { term = 2; command = 20 ∷ 21 ∷ [] }

abbrev pub third : Entry
third = record { term = 2; command = 30 ∷ 31 ∷ [] }

pub first-Fits : Fits 2 first
first-Fits = (omega arith, refl)

pub second-Fits : Fits 2 second
second-Fits = (omega arith, refl)

pub third-Fits : Fits 2 third
third-Fits = (omega arith, refl)

-- The booted replica with one entry, in the term of that entry, and with two.
abbrev pub with_one : Sm
with_one = record (appended booted first) { current_term = 1 }

pub with_one-IsStored : IsStored with_one (first ∷ [])
with_one-IsStored = appended-IsStored booted booted-IsStored first first-Fits (omega arith)

abbrev pub with_two : Sm
with_two = record (appended with_one second) { current_term = 2 }

pub with_two-IsStored : IsStored with_two (first ∷ second ∷ [])
with_two-IsStored = appended-IsStored with_one with_one-IsStored second second-Fits (omega arith)

-- The leader of the term 2, which its own entry started.
abbrev pub leading : Sm
leading = record with_two { state = leader; servers = (b, server 2 1) ∷ (c, server 2 0) ∷ [] }
