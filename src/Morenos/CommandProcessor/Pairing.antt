-- ===== src/Morenos/CommandProcessor/Pairing.antt =====
-- The checks of `validate` that look for the command that must come first.
use radar_software.Prelude.{
  ℕ, ◌+◌, ◌^◌, ◌≤◌, ◌<◌, ◌≡◌, sym, ◌∙◌, Bool, true, false, ◌&&◌, List, [], ◌∷◌, ◌++◌, ◌⊎◌, inl, inr,
  arith, ltb, ◌==◌, if◌then◌else◌, u64_mod, sub64, All, All-append, Any, Bool-cases,
}
use radar_software.Morenos.Settings.{channel_switch_delay, phase_delay}
use radar_software.Morenos.ControlCommand.{
  CommandType, ControlCommand, ct_protect_command, ct_receive_command, command, is_receive,
  is_transmit, is_protect, is_rs_rephase, is_tr_rephase,
}
use radar_software.Morenos.CommandProcessor.{
  CommandProcessor, check_protection, check_phase, follows, validate,
}

-- Commands with times in 64 bits.
abbrev pub AreWords : List ControlCommand → Type 0
AreWords = All (λ c. c.execution_time < u64_mod)

-- `it` is of the kind and of the query of `c`, and comes at least `delay` before it, or after it.
pub record Precedes (kind : CommandType → Bool) (delay : ℕ) (c it : ControlCommand) : Type 0 where
  pub right_kind : kind it.type ≡ true
  pub same_query : it.query_id ≡ c.query_id
  pub distance :
      (it.execution_time + delay ≤ c.execution_time) ⊎ (c.execution_time < it.execution_time)

-- A command with the trigger has one of the kind that precedes it.
abbrev pub IsPreceded :
    (trigger kind : CommandType → Bool) → ℕ → List ControlCommand → ControlCommand → Type 0
IsPreceded trigger kind delay commands c =
    trigger c.type ≡ true → Any (Precedes kind delay c) commands

matches : (CommandType → Bool) → ControlCommand → ControlCommand → Bool
matches kind c val = kind val.type && (val.query_id == c.query_id)

far_enough : ℕ → ControlCommand → ControlCommand → Bool
far_enough delay c it = if ltb (sub64 c.execution_time it.execution_time) delay then false else true

module _ (kind : CommandType → Bool) (delay : ℕ) (c : ControlCommand)
    (word : c.execution_time < u64_mod) where
  match-Precedes :
      (it : ControlCommand)
      → it.execution_time < u64_mod
      → matches kind c it ≡ true
      → far_enough delay c it ≡ true
      → Precedes kind delay c it
  unfolding matches far_enough
  match-Precedes it w m h = record {
    right_kind = ground arith;
    same_query = ground arith;
    distance = ground arith;
  }

  follows_hit :
      (it : ControlCommand) (commands : List ControlCommand)
      → matches kind c it ≡ true
      → follows (it ∷ commands) kind delay c ≡ far_enough delay c it
  unfolding follows matches far_enough
  follows_hit it commands e = cc

  follows_miss :
      (it : ControlCommand) (commands : List ControlCommand)
      → matches kind c it ≡ false
      → follows (it ∷ commands) kind delay c ≡ follows commands kind delay c
  unfolding follows matches
  follows_miss it commands e = cc

  follows-Any :
      (commands : List ControlCommand)
      → AreWords commands
      → follows commands kind delay c ≡ true
      → Any (Precedes kind delay c) commands
  unfolding follows
  follows-Any [] w h = cc
  follows-Any (it ∷ commands) w h = elim (Bool-cases (matches kind c it)) [
    | inl e ↦ inl (match-Precedes it w.0 e (sym (follows_hit it commands e) ∙ h))
    | inr e ↦ inr (follows-Any commands w.1 (sym (follows_miss it commands e) ∙ h))
  ]

-- What the two passes say of each command.
check_protection-All :
    (commands current : List ControlCommand)
    → AreWords commands
    → AreWords current
    → check_protection commands current ≡ true
    → All (IsPreceded is_receive is_protect channel_switch_delay commands) current
unfolding check_protection
check_protection-All commands [] w v h = tt
check_protection-All commands (c ∷ current) w v h = (
  λ r. follows-Any is_protect channel_switch_delay c v.0 commands w (ground arith),
  check_protection-All commands current w v.1 (ground arith),
)

check_phase-All :
    (commands current : List ControlCommand)
    → AreWords commands
    → AreWords current
    → check_phase commands current ≡ true
    → All (IsPreceded is_receive is_rs_rephase phase_delay commands) current
      × All (IsPreceded is_transmit is_tr_rephase phase_delay commands) current
unfolding check_phase
check_phase-All commands [] w v h = (tt, tt)
check_phase-All commands (c ∷ current) w v h =
    let rest = check_phase-All commands current w v.1 (ground arith) in
    (
      (λ r. follows-Any is_rs_rephase phase_delay c v.0 commands w (ground arith), rest.0),
      (λ t. follows-Any is_tr_rephase phase_delay c v.0 commands w (ground arith), rest.1),
    )

-- What `validate` accepts, with times in 64 bits, is paired: for each reception in the queue, the
-- protection of its query is turned off and the receiving antenna is rephased, and for each
-- transmission the transmitting antenna is rephased, by a command, executed in this step or
-- waiting, that comes early enough before it, or else after it.
pub validate_pairing :
    (p : CommandProcessor)
    → AreWords p.execed_commands
    → AreWords p.command_queue
    → validate p ≡ true
    → let commands = p.execed_commands ++ p.command_queue in
      All (IsPreceded is_receive is_protect channel_switch_delay commands) p.command_queue
      × All (IsPreceded is_receive is_rs_rephase phase_delay commands) p.command_queue
      × All (IsPreceded is_transmit is_tr_rephase phase_delay commands) p.command_queue
unfolding validate
validate_pairing p we wq h =
    let words =
      All-append (λ c. c.execution_time < u64_mod) p.execed_commands p.command_queue we wq in
    let phase =
      check_phase-All (p.execed_commands ++ p.command_queue) p.command_queue words wq
        (ground arith) in
    (
      check_protection-All (p.execed_commands ++ p.command_queue) p.command_queue words wq
          (ground arith),
      phase.0,
      phase.1,
    )

-- The protection may be turned off after the reception has begun, at a time below 2 ^ 63: the
-- difference of the two unsigned times wraps around to a large number, which passes the test.
pub check_protection-late :
    (id length receive protect : ℕ)
    → receive < protect
    → protect < 2 ^ 63
    → let pair =
        command ct_receive_command receive receive length id
        ∷ command ct_protect_command protect protect channel_switch_delay id
        ∷ [] in
      check_protection pair pair ≡ true
unfolding check_protection
check_protection-late id length receive protect late word = ground arith
