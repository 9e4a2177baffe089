-- ===== src/Morenos/ModelState.antt =====
-- `struct ModelState` of Morenos/Scheduler_Model — копия/ModelState.h, without the timelines, which no
-- code fills.
use radar_software.Prelude.{ℕ, Bool, List}
use radar_software.Morenos.Query.{Query}
use radar_software.Morenos.ControlCommand.{ControlCommand}

pub record ModelState (D : Type 0) : Type 0 where
  pub time : ℕ
  pub valid_state : Bool
  pub active_queries : List (Query D)
  pub processed_queries : List (Query D)
  pub planned_commands : List ControlCommand
  pub execed_commands : List ControlCommand
