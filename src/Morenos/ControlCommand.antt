-- ===== src/Morenos/ControlCommand.antt =====
-- `struct ControlCommand` of Morenos/Scheduler_Model — копия/ControlCommand.h.
use radar_software.Prelude.{ℕ, Bool, true, false}

-- `enum CommandType`
pub data CommandType : Type 0 where
  ct_nop : CommandType
  ct_transmit_command : CommandType
  ct_receive_command : CommandType
  ct_tr_rephase_command : CommandType
  ct_rs_rephase_command : CommandType
  ct_protect_command : CommandType
  ct_tech_command : CommandType

pub record ControlCommand : Type 0 where
  pub type : CommandType
  -- Times from the start of the simulation, in nanoseconds.
  pub referance_time : ℕ
  pub execution_time : ℕ
  pub execution_length : ℕ
  pub query_id : ℕ

-- The two constructors.
abbrev pub nop_command : ControlCommand
nop_command = record {
  type = ct_nop;
  referance_time = 0;
  execution_time = 0;
  execution_length = 0;
  query_id = 0;
}

abbrev pub command : CommandType → ℕ → ℕ → ℕ → ℕ → ControlCommand
command type ref_time exec_time exec_length id = record {
  type = type;
  referance_time = ref_time;
  execution_time = exec_time;
  execution_length = exec_length;
  query_id = id;
}

-- `type == ct_…`
abbrev pub is_nop : CommandType → Bool
is_nop ct_nop = true
is_nop _ = false

abbrev pub is_transmit : CommandType → Bool
is_transmit ct_transmit_command = true
is_transmit _ = false

abbrev pub is_receive : CommandType → Bool
is_receive ct_receive_command = true
is_receive _ = false

abbrev pub is_tr_rephase : CommandType → Bool
is_tr_rephase ct_tr_rephase_command = true
is_tr_rephase _ = false

abbrev pub is_rs_rephase : CommandType → Bool
is_rs_rephase ct_rs_rephase_command = true
is_rs_rephase _ = false

abbrev pub is_protect : CommandType → Bool
is_protect ct_protect_command = true
is_protect _ = false
