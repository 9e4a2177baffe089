-- ===== src/Morenos/CommandProcessor.antt =====
-- `class CommandProcessor` of Morenos/Scheduler_Model — копия/CommandProcessor.{h,cpp}. The log file is
-- the list of the lines written to it, newest last.
pub mod Run
pub mod Spacing
pub mod Pairing
use Prim.Native.String.{String}
use radar_software.Prelude.{
  ℕ, ◌+◌, Bool, true, false, ◌&&◌, Option, none, some, List, [], ◌∷◌, ◌++◌, ltb, ◌==◌,
  if◌then◌else◌, sub64, add64, find?,
}
use radar_software.Double.{Double}
use radar_software.Morenos.Settings.{
  phase_delay, au_command_delay, channel_switch_delay, reserve_time, blank_delay, frequency_delay,
}
use radar_software.Morenos.ControlCommand.{
  CommandType, ct_nop, ct_transmit_command, ct_receive_command, ct_tr_rephase_command,
  ct_rs_rephase_command, ct_protect_command, ct_tech_command, ControlCommand, nop_command, is_nop,
  is_transmit, is_receive, is_tr_rephase, is_rs_rephase, is_protect,
}
use radar_software.Morenos.ModelState.{ModelState}
use radar_software.Morenos.PriorityQueue.{push}

-- `execution_time [query_id] : text`
pub record LogLine : Type 0 where
  pub execution_time : ℕ
  pub query_id : ℕ
  pub text : String

pub record CommandProcessor : Type 0 where
  pub command_queue : List ControlCommand
  pub execed_commands : List ControlCommand
  pub log : List LogLine

-- The constructor, on a log file that opens.
abbrev pub new_processor : CommandProcessor
new_processor = record { command_queue = []; execed_commands = []; log = [] }

abbrev pub due : ControlCommand → ℕ
due c = c.execution_time

-- The loop of `append` on the queue.
unfoldable pub append_to : List ControlCommand → List ControlCommand → List ControlCommand
append_to queue [] = queue
append_to queue (c ∷ commands) =
    append_to (if is_nop c.type then queue else push due c queue) commands

unfoldable pub append : CommandProcessor → List ControlCommand → CommandProcessor
unfolding append_to
append p commands = record p { command_queue = append_to p.command_queue commands }

unfoldable pub log_text : CommandType → String
log_text ct_receive_command = "Receive."
log_text ct_transmit_command = "Transmit."
log_text ct_tr_rephase_command = "Transmit Rephase."
log_text ct_rs_rephase_command = "Receive Rephase."
log_text ct_protect_command = "Turn off protection."
log_text ct_tech_command = "Tech."
log_text ct_nop = "ERROR: unknown command."

abbrev pub log_line : ControlCommand → LogLine
log_line c = record {
  execution_time = c.execution_time;
  query_id = c.query_id;
  text = log_text c.type;
}

module _ (double : Double) where
  open double use {lt, add, from_u64, decimal}

  -- The test of the loop of `run`, in `double`.
  unfoldable pub is_due : ℕ → ControlCommand → Bool
  is_due time ev = lt (from_u64 ev.execution_time) (add (from_u64 time) (decimal 1000000 0))

  -- The loop of `run`: the commands that are due are executed, logged and taken off the queue.
  unfoldable pub run_until :
      ℕ → List ControlCommand → List ControlCommand × List LogLine × List ControlCommand
  unfolding is_due
  run_until time [] = ([], [], [])
  run_until time (ev ∷ queue) =
      let (execed, lines, rest) = run_until time queue in
      if is_due time ev then (ev ∷ execed, log_line ev ∷ lines, rest) else ([], [], ev ∷ queue)

  unfoldable pub run : CommandProcessor → ℕ → CommandProcessor
  unfolding run_until
  run p time =
      let (execed, lines, rest) = run_until time p.command_queue in
      record { command_queue = rest; execed_commands = execed; log = p.log ++ lines }

-- One test of the rephase loop of `validate`: the next `prev_…_rephase`, or `none` for a command that
-- comes too early after it.
unfoldable pub next_rephase : ControlCommand → ControlCommand → Option ControlCommand
next_rephase prev c =
    if is_nop prev.type
    then some c
    else if ltb (sub64 c.execution_time prev.execution_time) au_command_delay
    then none
    else some c

unfoldable pub check_rephase : ControlCommand → ControlCommand → List ControlCommand → Bool
unfolding next_rephase
check_rephase prev_tr prev_rs [] = true
check_rephase prev_tr prev_rs (c ∷ commands) =
    elim (if is_tr_rephase c.type then next_rephase prev_tr c else some prev_tr) [
      | none ↦ false
      | some prev_tr' ↦
          elim (if is_rs_rephase c.type then next_rephase prev_rs c else some prev_rs) [
            | none ↦ false
            | some prev_rs' ↦ check_rephase prev_tr' prev_rs' commands
          ]
    ]

-- The first of `commands` of the given kind and of the query of `c` is found, and `c` comes at least
-- `delay` after it, by the difference of two unsigned numbers.
unfoldable pub follows : List ControlCommand → (CommandType → Bool) → ℕ → ControlCommand → Bool
follows commands kind delay c =
    elim (find? (λ val. kind val.type && (val.query_id == c.query_id)) commands) [
      | none ↦ false
      | some it ↦ if ltb (sub64 c.execution_time it.execution_time) delay then false else true
    ]

unfoldable pub check_protection : List ControlCommand → List ControlCommand → Bool
unfolding follows
check_protection commands [] = true
check_protection commands (c ∷ current) =
    (if is_receive c.type then follows commands is_protect channel_switch_delay c else true)
    && check_protection commands current

unfoldable pub check_phase : List ControlCommand → List ControlCommand → Bool
unfolding follows
check_phase commands [] = true
check_phase commands (c ∷ current) =
    (if is_receive c.type then follows commands is_rs_rephase phase_delay c else true)
    && (if is_transmit c.type then follows commands is_tr_rephase phase_delay c else true)
    && check_phase commands current

unfoldable pub check_transmit : ControlCommand → List ControlCommand → Bool
check_transmit prev [] = true
check_transmit prev (c ∷ current) =
    if is_transmit c.type
    then (if is_nop prev.type
        then check_transmit c current
        else if ltb c.execution_time (add64 prev.execution_time prev.execution_length)
        then false
        else check_transmit c current)
    else check_transmit prev current

unfoldable pub check_reserve : List ControlCommand → Bool
check_reserve [] = true
check_reserve (c ∷ current) =
    (if is_receive c.type
      then (if ltb c.execution_time c.referance_time
          then false
          else if ltb (sub64 c.execution_time c.referance_time) reserve_time
          then false
          else true)
      else true)
    && (if is_transmit c.type
        then (if ltb (sub64 c.execution_time c.referance_time)
              (reserve_time + blank_delay + frequency_delay)
            then false
            else true)
        else true)
    && check_reserve current

-- The copies of `execed_commands` and of the queue, in the order of its `pop`.
unfoldable pub validate : CommandProcessor → Bool
unfolding check_rephase check_protection check_phase check_transmit check_reserve
validate p =
    let current = p.command_queue in
    let commands = p.execed_commands ++ current in
    check_rephase nop_command nop_command current
    && check_protection commands current
    && check_phase commands current
    && check_transmit nop_command current
    && check_reserve current

-- `get_statistics`
abbrev pub get_statistics : {D : Type 0} → CommandProcessor → ModelState D → ModelState D
get_statistics p state = record state {
  planned_commands = state.planned_commands ++ p.command_queue;
  execed_commands = p.execed_commands;
}
