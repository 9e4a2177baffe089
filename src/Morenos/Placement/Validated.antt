-- ===== src/Morenos/Placement/Validated.antt =====
-- The commands of a scan against the checks of the command processor.
use radar_software.Prelude.{
  ℕ, ◌+◌, ◌-◌, ◌≤◌, ◌<◌, ◌≡◌, ◌*◌, ◌^◌, refl, inl, inr, true, List, [], ◌∷◌, arith, u64_mod,
}
use radar_software.Morenos.Settings.{
  phase_delay, blank_delay, frequency_delay, channel_switch_delay, reserve_time, time_chunk_length,
}
use radar_software.Morenos.ControlCommand.{
  ct_transmit_command, ct_receive_command, ct_tr_rephase_command, ct_rs_rephase_command,
  ct_protect_command, ControlCommand, command, nop_command,
}
use radar_software.Morenos.PriorityQueue.{push}
use radar_software.Morenos.CommandProcessor.{new_processor, append, validate}
use radar_software.Morenos.Placement.Emit.{scan_group, least_receive, IsReachable, place_scan_lem}
use radar_software.Morenos.Placement.ScanPlace.{plan_depth_small}
use radar_software.Morenos.Placement.{Conveyors, scan_plan, place_scan}
use radar_software.Morenos.ScanPair.{ScanPair}

-- The commands of a scan in the order of their times.
abbrev ordered_group :
    (transmit receive_time transmit_len receive_len query_id : ℕ) → List ControlCommand
ordered_group transmit receive_time transmit_len receive_len query_id =
    let receive = transmit + receive_time in
    command ct_tr_rephase_command (transmit - phase_delay) (transmit - phase_delay) phase_delay
      query_id
    ∷ command ct_transmit_command (transmit - (reserve_time + blank_delay + frequency_delay))
        transmit transmit_len query_id
    ∷ command ct_rs_rephase_command (receive - phase_delay) (receive - phase_delay) phase_delay
        query_id
    ∷ command ct_protect_command (receive - channel_switch_delay) (receive - channel_switch_delay)
        channel_switch_delay query_id
    ∷ command ct_receive_command (receive - reserve_time) receive receive_len query_id
    ∷ []

module _ (transmit receive_time transmit_len receive_len query_id : ℕ)
    (started : phase_delay ≤ transmit) (far : least_receive ≤ receive_time)
    (word : transmit + receive_time < u64_mod) where
  append-group :
      append new_processor (scan_group transmit receive_time transmit_len receive_len query_id)
      ≡ record new_processor {
        command_queue = ordered_group transmit receive_time transmit_len receive_len query_id;
      }
  unfolding append push
  append-group = ground arith

  validate-scan_group :
      validate
        (append new_processor (scan_group transmit receive_time transmit_len receive_len query_id))
      ≡ true
  unfolding validate
  validate-scan_group = rw append-group (ground arith)

validate-nop : validate (append new_processor (nop_command ∷ [])) ≡ true
unfolding validate append
validate-nop = refl

-- The commands that `place_scan` gives for one scan, appended to an empty queue, pass every check of
-- `validate`, for a reachable pair, and timelines that begin at a time with room in 64 bits.
pub validate-place_scan :
    (c : Conveyors) (scan_pair : ScanPair) (query_id : ℕ)
    → IsReachable scan_pair
    → c.dcu_timeline.start_time + 2 ^ 40 < u64_mod
    → validate (append new_processor (place_scan c scan_pair query_id).0) ≡ true
validate-place_scan c scan_pair query_id v room =
    elim (place_scan_lem c scan_pair query_id v room) [
      | inl (e, none_found) ↦ rw e validate-nop
      | inr (idx, first, e) ↦
          let near : idx < 100000 = omega (arith, first.0.within, plan_depth_small scan_pair) in
          let plan = scan_plan scan_pair in
          let from = c.dcu_timeline.start_time in
          let word : from + idx * time_chunk_length + phase_delay + scan_pair.receive_time
              < u64_mod =
            omega (arith, near, room, v.word) in
          rw e (
            validate-scan_group (from + idx * time_chunk_length + phase_delay)
              scan_pair.receive_time plan.transmit_len plan.receive_len query_id (omega arith) v.far
              word)
    ]
