-- ===== src/Raft/Election/Demotion.antt =====
-- What votes, a newer term and the way back to follower do in user/libs/raft.cpp while the log on
-- disk works: the state that each leaves, field by field.
use rlite.Base.{
  ℕ, ◌+◌, ◌-◌, ◌%◌, ◌≤◌, ◌<◌, ◌≡◌, true, false, List, [], ◌∷◌, length, take, drop, replicate,
  if◌then◌else◌, Bool-cases, inl, inr, arith, length-append, length-take, length-replicate,
}
use rlite.Raft.Types.{
  ReplicaId, Entry, TimerCmd, follower, same_id, same_id_sound, election, heart_beat, restart, stop,
}
use rlite.Raft.LogFile.{
  written, u32_bytes, k_log_voted_for_ofs, k_log_current_term_ofs, length-u32_bytes,
}
use rlite.Raft.Machine.{Sm, ok, ◌>>=◌, next_rand, set_timer, add_timer, map_out}
use rlite.Raft.Storage.{log_u32_write}
use rlite.Raft.Storage.Stored.{IsStored, log_buf_write_lem, header_written-IsStored, header_written}
use rlite.Raft.Election.{
  rand_time_in_range, switch_state, c_str, id_buf, vote_for_candidate, restart_election_timer,
  back_to_follower, catch_up_term,
}

pub length-id_buf : (id : ReplicaId) → length (id_buf id) ≡ 120
unfolding id_buf
length-id_buf id =
    let text = take 119 (c_str id) in
    omega (
      arith,
      length-append text (replicate (120 - length text) 0),
      length-take 119 (c_str id),
      length-replicate {A = ℕ} (120 - length text) 0,
    )

abbrev pub voted : Sm → ReplicaId → Sm
voted s id = record s {
  voted_for = id;
  logfile =
      if same_id s.voted_for id
      then s.logfile
      else written s.logfile k_log_voted_for_ofs (id_buf id);
}

-- The timer that `back_to_follower` and `init` start.
abbrev pub election_timer : Sm → TimerCmd
election_timer s = record {
  type = election;
  action = restart;
  milliseconds =
      s.election_timeout_min
      + elim s.rands [ [] ↦ 0 | r ∷ rs ↦ r ] % (s.election_timeout_max - s.election_timeout_min);
}

abbrev pub timer_restarted : Sm → Sm
timer_restarted s = record s {
  rands = drop 1 s.rands;
  out = map_out (add_timer (election_timer s)) s.out;
}

abbrev pub stop_heartbeat : TimerCmd
stop_heartbeat = record { type = heart_beat; action = stop; milliseconds = 0 }

abbrev pub demoted : Sm → Sm
demoted s = record (voted s []) {
  leader_id = [];
  votes_collected = 0;
  state = follower;
  rands = drop 1 s.rands;
  out = map_out (add_timer stop_heartbeat) (map_out (add_timer (election_timer s)) s.out);
}

pub restart_election_timer_lem :
    (s : Sm)
    → s.election_timeout_min < s.election_timeout_max
    → restart_election_timer s ≡ (ok tt, timer_restarted s)
unfolding restart_election_timer rand_time_in_range next_rand set_timer ◌>>=◌
restart_election_timer_lem s h = ground arith

module _ (s : Sm) {l : List Entry} (v : IsStored s l) where
  pub vote_for_candidate_lem : (id : ReplicaId) → vote_for_candidate id s ≡ (ok tt, voted s id)
  unfolding vote_for_candidate ◌>>=◌
  vote_for_candidate_lem id = ground (
    arith,
    same_id_sound s.voted_for id,
    log_buf_write_lem (record s { voted_for = id }) v k_log_voted_for_ofs (id_buf id)
        (omega (arith, length-id_buf id)),
  )

  pub voted-IsStored : (id : ReplicaId) → IsStored (voted s id) l
  voted-IsStored id = elim (Bool-cases (same_id s.voted_for id)) [
    | inl same ↦ rw same v
    | inr other ↦ rw other (
        header_written-IsStored s v k_log_voted_for_ofs (id_buf id)
          (omega (arith, length-id_buf id)))
  ]

module _ (s : Sm) {l : List Entry} (v : IsStored s l)
    (timeouts : s.election_timeout_min < s.election_timeout_max) where
  pub back_to_follower_lem : back_to_follower s ≡ (ok tt, demoted s)
  unfolding back_to_follower switch_state set_timer ◌>>=◌
  back_to_follower_lem =
      let cleared = record s { leader_id = []; votes_collected = 0 } in
      let other = record (voted cleared []) { state = follower } in
      ground (arith, vote_for_candidate_lem cleared v [], restart_election_timer_lem other timeouts)

  pub demoted-IsStored : IsStored (demoted s) l
  demoted-IsStored = voted-IsStored s v []

-- The state after a newer term is taken over.
abbrev pub caught_up : Sm → ℕ → Sm
caught_up s term =
    demoted
      (record (header_written s k_log_current_term_ofs (u32_bytes term)) { current_term = term })

module _ (s : Sm) {l : List Entry} (v : IsStored s l)
    (timeouts : s.election_timeout_min < s.election_timeout_max) (term : ℕ) where
  term-IsStored : IsStored (header_written s k_log_current_term_ofs (u32_bytes term)) l
  term-IsStored =
      header_written-IsStored s v k_log_current_term_ofs (u32_bytes term)
        (omega (arith, length-u32_bytes term))

  pub catch_up_term_newer :
      s.current_term < term → catch_up_term term s ≡ (ok true, caught_up s term)
  unfolding catch_up_term log_u32_write ◌>>=◌
  catch_up_term_newer h =
      let s' = record s { current_term = term } in
      ground (
        arith,
        log_buf_write_lem s' v k_log_current_term_ofs (u32_bytes term)
            (omega (arith, length-u32_bytes term)),
        back_to_follower_lem
            (record (header_written s k_log_current_term_ofs (u32_bytes term)) {
              current_term = term;
            })
            term-IsStored timeouts,
      )

  pub caught_up-IsStored : IsStored (caught_up s term) l
  caught_up-IsStored =
      demoted-IsStored (header_written s k_log_current_term_ofs (u32_bytes term)) term-IsStored
        timeouts

pub catch_up_term_older :
    (s : Sm) (term : ℕ) → term ≤ s.current_term → catch_up_term term s ≡ (ok false, s)
unfolding catch_up_term ◌>>=◌
catch_up_term_older s term h = ground arith
