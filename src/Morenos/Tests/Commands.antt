-- ===== src/Morenos/Tests/Commands.antt =====
-- The theorems about the command processor and the event queue at concrete inputs.

use radar_software.Prelude.{
  ◌+◌, ◌≡◌, refl, Bool, true, not, [], ◌∷◌, ◌++◌, map, arith, ltb, filter, All,
}
use radar_software.Morenos.Settings.{au_command_delay, channel_switch_delay, phase_delay}
use radar_software.Morenos.ControlCommand.{
  is_transmit, is_receive, is_protect, is_tr_rephase, is_rs_rephase,
}
use radar_software.Morenos.EventQueue.{EventQueue}
use radar_software.Morenos.CommandProcessor.{run, validate, log_line}
use radar_software.Morenos.CommandProcessor.Run.{IsOrdered, IsExact, run_lem}
use radar_software.Morenos.CommandProcessor.Spacing.{Spaced, energy_gap, validate_spacing}
use radar_software.Morenos.CommandProcessor.Pairing.{IsPreceded, validate_pairing}
use radar_software.Morenos.Tests.Data.{processor, whole}

processor-IsOrdered : IsOrdered processor
processor-IsOrdered = ((omega arith, tt), (tt, tt))

whole-IsExact : IsExact whole
whole-IsExact = record { less = λ a b h k. refl; sum = λ a b h. refl; literal = λ m h. refl }

run_lem_example :
    let due_now = filter (λ c. ltb c.execution_time (0 + 1000000)) processor.command_queue in
    run whole processor 0 ≡ record {
      command_queue =
          filter (λ c. not (ltb c.execution_time (0 + 1000000))) processor.command_queue;
      execed_commands = due_now;
      log = processor.log ++ map log_line due_now;
    }
run_lem_example =
    run_lem whole whole-IsExact 0 (omega arith) processor (omega arith, (omega arith, tt))
      processor-IsOrdered

processor_valid : validate processor ≡ true
unfolding validate
processor_valid = refl

validate_spacing_example :
    Spaced (λ _. au_command_delay) (filter (λ c. is_tr_rephase c.type) processor.command_queue)
    × Spaced (λ _. au_command_delay) (filter (λ c. is_rs_rephase c.type) processor.command_queue)
    × Spaced energy_gap (filter (λ c. is_transmit c.type) processor.command_queue)
validate_spacing_example =
    validate_spacing processor processor-IsOrdered (omega arith, (omega arith, tt)) processor_valid

validate_pairing_example :
    let commands = processor.execed_commands ++ processor.command_queue in
    All (IsPreceded is_receive is_protect channel_switch_delay commands) processor.command_queue
    × All (IsPreceded is_receive is_rs_rephase phase_delay commands) processor.command_queue
    × All (IsPreceded is_transmit is_tr_rephase phase_delay commands) processor.command_queue
validate_pairing_example =
    validate_pairing processor tt (omega arith, (omega arith, tt)) processor_valid

abbrev events : EventQueue Bool
events =
    record { trigger_time = 0; exec = true } ∷ record { trigger_time = 1000000; exec = true } ∷ []
