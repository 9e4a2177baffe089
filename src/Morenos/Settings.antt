-- ===== src/Morenos/Settings.antt =====
-- The constants of Morenos/Scheduler_Model — копия/Settings.h. Times are in nanoseconds.
use radar_software.Prelude.{ℕ}

-- Time of a change of the antenna's phases.
abbrev pub phase_delay : ℕ
phase_delay = 270000

-- Time between two commands to the antenna unit.
abbrev pub au_command_delay : ℕ
au_command_delay = 500000

abbrev pub blank_delay : ℕ
blank_delay = 3100

abbrev pub frequency_delay : ℕ
frequency_delay = 3100

abbrev pub channel_switch_delay : ℕ
channel_switch_delay = 3000

abbrev pub duty_factor : ℕ
duty_factor = 8

abbrev pub frequency_factor : ℕ
frequency_factor = 100

abbrev pub reserve_time : ℕ
reserve_time = 5000

-- Length of one chunk of a timeline.
abbrev pub time_chunk_length : ℕ
time_chunk_length = 10000

-- A planning interval, in chunks.
abbrev pub planning_step : ℕ
planning_step = 100

-- Length of a timeline, in chunks.
abbrev pub timeline_depth : ℕ
timeline_depth = 100000

-- Planning depths, in planning intervals.
abbrev pub pulse_planning_depth : ℕ
pulse_planning_depth = 3

abbrev pub pulse_train_planning_depth : ℕ
pulse_train_planning_depth = 15
