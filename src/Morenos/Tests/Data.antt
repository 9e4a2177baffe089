-- ===== src/Morenos/Tests/Data.antt =====
-- The inputs of the tests.
use radar_software.Prelude.{
  ℕ, ◌+◌, ◌-◌, ◌*◌, ◌/◌, ◌%◌, true, [], ◌∷◌, arith, ◌==◌, if◌then◌else◌, ltb, leb, u32, u64_mod,
}
use radar_software.Double.{Double, IsWeakOrder}
use radar_software.Morenos.Query.{search_query, confirm, tech_control, Query, new_query}
use radar_software.Morenos.ControlCommand.{
  ct_tr_rephase_command, ct_transmit_command, ControlCommand, command,
}
use radar_software.Morenos.ScanPair.{ScanPair}
use radar_software.Morenos.Timeline.{Timeline, tll_empty, tll_dcu_transmit}
use radar_software.Morenos.CommandProcessor.{CommandProcessor}
use radar_software.Morenos.Placement.{new_conveyors}
use radar_software.Morenos.Scheduler.{Scheduler}

-- Whole numbers with a quotient that is never zero: enough to run the planning.
abbrev pub whole : Double
whole = record {
  D = ℕ;
  add = λ a b. a + b;
  sub = λ a b. a - b;
  mul = λ a b. a * b;
  div = λ a b. a / b + 1;
  sqrt = λ a. a;
  pow = λ a b. a * b;
  sin = λ a. a;
  ceil = λ a. a;
  lt = ltb;
  le = leb;
  decimal = λ m e. m;
  from_u64 = λ a. a;
  to_u64 = λ a. a % u64_mod;
  to_u32 = u32;
}

pub whole_order : IsWeakOrder ltb
whole_order = record { asym = λ a b h. ground arith; not_trans = λ a b c h k. ground arith }

abbrev pub searching : Query ℕ
searching = new_query 0 search_query 1000 50 1 0 2000000 15 true

abbrev pub confirming : Query ℕ
confirming = new_query 0 confirm 1001 100 0 0 1000000 50 true

abbrev pub checking : Query ℕ
checking = new_query 0 tech_control 100 1 1 0 0 0 true

abbrev pub scheduler : Scheduler ℕ
scheduler = record {
  conveyors = new_conveyors;
  queries = searching ∷ confirming ∷ checking ∷ [];
  processed_queries = [];
}

-- One pulse of 15 microseconds, received after 6671.3 microseconds.
abbrev pub single_pulse : ScanPair
single_pulse = record {
  size = 1;
  receive = λ _. record { offset_time = 0; length = 15000 };
  transmit = λ _. record { offset_time = 0; length = 15000 };
  receive_time = 6671300;
}

-- A timeline at 30 microseconds with one busy chunk.
abbrev pub busy : Timeline
busy = record {
  start_time = 30000;
  start_idx = 3;
  timeline = λ i. if i == 5 then tll_dcu_transmit else tll_empty;
}

abbrev pub rephase : ControlCommand
rephase = command ct_tr_rephase_command 730000 730000 270000 7

abbrev pub transmit : ControlCommand
transmit = command ct_transmit_command 988800 1000000 140000 7

abbrev pub processor : CommandProcessor
processor = record { command_queue = rephase ∷ transmit ∷ []; execed_commands = []; log = [] }
