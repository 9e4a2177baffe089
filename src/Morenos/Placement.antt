-- ===== src/Morenos/Placement.antt =====
-- `find_index` and `place_scan` of Morenos/Scheduler_Model — копия/Scheduler.{h,cpp}: where a scan
-- fits on the timelines, and the labels and commands that put it there.
pub mod Find
pub mod First
pub mod ScanPlace
pub mod Emit
pub mod Reserve
pub mod Validated
use radar_software.Prelude.{
  ℕ, zero, suc, ◌+◌, ◌-◌, ◌*◌, ◌/◌, Bool, true, false, ◌&&◌, Option, none, some, List, [], ◌∷◌, ltb,
  leb, ◌==◌, if◌then◌else◌, u32, add32, sub32, mul32, add64, sub64,
}
use radar_software.Morenos.Settings.{
  phase_delay, au_command_delay, blank_delay, frequency_delay, channel_switch_delay, duty_factor,
  frequency_factor, reserve_time, time_chunk_length, planning_step, pulse_planning_depth,
  pulse_train_planning_depth,
}
use radar_software.Morenos.Utility.{multiples_of32, multiples_of64}
use radar_software.Morenos.Timeline.{
  TimelineLabel, tll_empty, tll_dcu_receive, tll_dcu_transmit, tll_au_rephase, tll_au_command_delay,
  tll_dcu_energy_restore, Timeline, new_timeline, get_value_at, check_index, label_sector,
  get_idx_for, as_index,
}
use radar_software.Morenos.ScanPair.{ScanPair}
use radar_software.Morenos.ControlCommand.{
  ct_transmit_command, ct_receive_command, ct_tr_rephase_command, ct_rs_rephase_command,
  ct_protect_command, ControlCommand, nop_command, command,
}

-- The three timelines of the scheduler: converter unit, transmitting and receiving antenna.
pub record Conveyors : Type 0 where
  pub dcu_timeline : Timeline
  pub tr_au_timeline : Timeline
  pub rs_au_timeline : Timeline

abbrev pub new_conveyors : Conveyors
new_conveyors = record {
  dcu_timeline = new_timeline;
  tr_au_timeline = new_timeline;
  rs_au_timeline = new_timeline;
}

abbrev pub is_empty : TimelineLabel → Bool
is_empty tll_empty = true
is_empty _ = false

abbrev pub can_receive : TimelineLabel → Bool
can_receive tll_empty = true
can_receive tll_dcu_energy_restore = true
can_receive _ = false

-- A length in whole chunks; the ceiling of a quotient of 32-bit numbers in a `double`.
abbrev pub chunks : ℕ → ℕ
chunks length = (length + (time_chunk_length - 1)) / time_chunk_length

-- The rephasing time in chunks.
abbrev pub rph_length : ℕ
rph_length = chunks phase_delay

module _ (c : Conveyors) (tr_length rs_length range_offset : ℕ) where
  -- The receive part for a transmission at chunk `tr_idx`.
  unfoldable pub receive_fits : ℕ → Bool
  receive_fits tr_idx =
      let rs_start_time = add32 (mul32 tr_idx time_chunk_length) range_offset in
      let rph_start_time = sub32 rs_start_time phase_delay in
      check_index c.dcu_timeline rs_length (as_index (get_idx_for rs_start_time)) can_receive
      && check_index c.rs_au_timeline rph_length (as_index (get_idx_for rph_start_time)) is_empty

  -- The loop of `find_index`: the rounds left, the index, the lengths of the free runs that end before
  -- it on the converter and on the transmitting antenna, and the table `au_indices`.
  unfoldable pub find_from : ℕ → ℕ → ℕ → ℕ → (ℕ → Bool) → Option ℕ
  find_from zero idx dcu_sum au_sum au_indices = none
  find_from (suc rounds) idx dcu_sum au_sum au_indices =
      let dcu_sum' = if is_empty (get_value_at c.dcu_timeline idx) then dcu_sum + 1 else 0 in
      let au_sum' = if is_empty (get_value_at c.tr_au_timeline idx) then au_sum + 1 else 0 in
      let au_indices' = λ (i : ℕ). if i == idx then ltb rph_length au_sum' else au_indices i in
      let rest = find_from rounds (idx + 1) dcu_sum' au_sum' au_indices' in
      if ltb tr_length dcu_sum'
      then (if au_indices' (sub32 idx tr_length)
          then (if receive_fits (sub32 idx tr_length) then some (sub32 idx tr_length) else rest)
          else rest)
      else rest

-- `none` is the result -1.
unfoldable pub find_index : Conveyors → ℕ → ℕ → ℕ → ℕ → Option ℕ
find_index c transmit_len receive_len range_offset depth =
    if leb depth (chunks transmit_len)
    then none
    else find_from c (chunks transmit_len) (chunks receive_len) range_offset depth 0 0 0
        (λ _. false)

-- `label_sector` between the chunks of two times.
abbrev pub label_span : Timeline → ℕ → ℕ → TimelineLabel → Timeline
label_span t start stop label =
    label_sector t (as_index (get_idx_for start)) (as_index (get_idx_for stop)) label

-- The loops over the pulses, `count` of them from `pulse_idx` on.
module _ (scan_pair : ScanPair) (period_time from : ℕ) where
  unfoldable pub label_transmits : ℕ → ℕ → Timeline → Timeline
  label_transmits zero pulse_idx t = t
  label_transmits (suc count) pulse_idx t =
      let length = (scan_pair.transmit pulse_idx).length in
      let transmit_start =
        u32 (from + blank_delay + reserve_time + frequency_delay + pulse_idx * period_time) in
      let transmit_stop = u32 (transmit_start + length + blank_delay) in
      let restore_stop = u32 (transmit_stop + (duty_factor - 1) * length) in
      label_transmits count (pulse_idx + 1) (
        label_span (label_span t transmit_start transmit_stop tll_dcu_transmit) transmit_stop
          restore_stop tll_dcu_energy_restore)

  unfoldable pub label_receives : ℕ → ℕ → Timeline → Timeline
  label_receives zero pulse_idx t = t
  label_receives (suc count) pulse_idx t =
      let receive_start = u32 (from + reserve_time + pulse_idx * period_time) in
      let receive_stop = u32 (receive_start + (scan_pair.receive pulse_idx).length) in
      label_receives count (pulse_idx + 1) (label_span t receive_start receive_stop tll_dcu_receive)

-- The labels of a scan found at chunk `idx`.
unfoldable pub label_scan : Conveyors → ScanPair → ℕ → ℕ → ℕ → Conveyors
unfolding label_transmits label_receives
label_scan c scan_pair idx range_offset_len period_time =
    let tr_start = sub32 (mul32 idx time_chunk_length) phase_delay in
    let tr_stop = add32 tr_start phase_delay in
    let tr_nocommand_stop = add32 tr_stop (au_command_delay - phase_delay) in
    let rs_start = add32 tr_stop range_offset_len in
    let rs_stop = add32 rs_start phase_delay in
    let rs_nocommand_stop = add32 rs_stop (au_command_delay - phase_delay) in
    let transmits = label_transmits scan_pair period_time tr_stop scan_pair.size 0 (
      label_span c.dcu_timeline tr_stop
        (u32 (tr_stop + blank_delay + frequency_delay + reserve_time)) tll_dcu_transmit) in
    record {
      dcu_timeline =
          label_receives scan_pair period_time rs_stop scan_pair.size 0
            (label_span transmits rs_stop (add32 rs_stop reserve_time) tll_dcu_receive);
      tr_au_timeline =
          label_span (label_span c.tr_au_timeline tr_start tr_stop tll_au_rephase) tr_stop
            tr_nocommand_stop tll_au_command_delay;
      rs_au_timeline =
          label_span (label_span c.rs_au_timeline rs_start rs_stop tll_au_rephase) rs_stop
            rs_nocommand_stop tll_au_command_delay;
    }

-- The commands of a scan found at chunk `idx`, with the test of their distance.
unfoldable pub scan_commands : Conveyors → ScanPair → ℕ → ℕ → ℕ → ℕ → ℕ → List ControlCommand
scan_commands c scan_pair idx range_offset_len transmit_len receive_len query_id =
    let transmit_rephase_time = add64 c.dcu_timeline.start_time (mul32 idx time_chunk_length) in
    let transmit_exec_time = add64 transmit_rephase_time phase_delay in
    let receive_rephase_time = add64 transmit_exec_time (range_offset_len + reserve_time) in
    let receive_exec_time = add64 receive_rephase_time phase_delay in
    let protection_time = sub64 receive_exec_time channel_switch_delay in
    if sub64 receive_exec_time transmit_exec_time
      == multiples_of64 scan_pair.receive_time frequency_factor
    then command ct_transmit_command
        (sub64 transmit_exec_time (reserve_time + blank_delay + frequency_delay)) transmit_exec_time
        transmit_len query_id
      ∷ command ct_tr_rephase_command transmit_rephase_time transmit_rephase_time phase_delay
          query_id
      ∷ command ct_protect_command protection_time protection_time channel_switch_delay query_id
      ∷ command ct_rs_rephase_command receive_rephase_time receive_rephase_time phase_delay query_id
      ∷ command ct_receive_command (sub64 receive_exec_time reserve_time) receive_exec_time
          receive_len query_id
      ∷ []
    else nop_command ∷ []

-- What `place_scan` computes from the scan pair before it searches.
pub record ScanPlan : Type 0 where
  pub depth : ℕ
  pub transmit_len : ℕ
  pub receive_len : ℕ
  pub range_offset_len : ℕ
  pub period_time : ℕ

unfoldable pub scan_plan : ScanPair → ScanPlan
scan_plan scan_pair =
    let range_offset_len =
      multiples_of32 (sub32 (sub32 scan_pair.receive_time phase_delay) reserve_time)
        frequency_factor in
    let period_time = (scan_pair.transmit 1).offset_time in
    if scan_pair.size == 1
    then record {
      depth = pulse_planning_depth * planning_step;
      transmit_len =
          multiples_of32
            (u32 (
              (scan_pair.transmit 0).length * duty_factor
              + 2 * frequency_delay
              + blank_delay
              + reserve_time))
            frequency_factor;
      receive_len =
          multiples_of32 (u32 ((scan_pair.receive 0).length + reserve_time)) frequency_factor;
      range_offset_len = range_offset_len;
      period_time = 0;
    }
    else record {
      depth = pulse_train_planning_depth * planning_step;
      transmit_len =
          multiples_of32
            (u32 (period_time * scan_pair.size + blank_delay + 2 * frequency_delay + reserve_time))
            frequency_factor;
      receive_len =
          multiples_of32 (u32 (period_time * scan_pair.size + reserve_time)) frequency_factor;
      range_offset_len = range_offset_len;
      period_time = period_time;
    }

unfoldable pub place_scan : Conveyors → ScanPair → ℕ → List ControlCommand × Conveyors
place_scan c scan_pair query_id =
    let plan = scan_plan scan_pair in
    elim (find_index c plan.transmit_len plan.receive_len plan.range_offset_len plan.depth) [
      | none ↦ (nop_command ∷ [], c)
      | some idx ↦ (
        scan_commands c scan_pair idx plan.range_offset_len plan.transmit_len plan.receive_len
            query_id,
        label_scan c scan_pair idx plan.range_offset_len plan.period_time,
      )
    ]
