-- ===== src/Morenos/Tests/Planning.antt =====
-- The theorems about the placement of scans at concrete inputs.
use radar_software.Prelude.{ℕ, ◌+◌, ◌-◌, ◌*◌, ◌≡◌, refl, ◌⊎◌, true, some, [], ◌∷◌, arith}
use radar_software.Morenos.Settings.{phase_delay, time_chunk_length}
use radar_software.Morenos.ControlCommand.{nop_command}
use radar_software.Morenos.CommandProcessor.{new_processor, append, validate}
use radar_software.Morenos.Timeline.{get_value_at, check_index, check_from, get_idx_for}
use radar_software.Morenos.Placement.{
  new_conveyors, chunks, find_index, find_from, receive_fits, scan_plan, label_scan, place_scan,
}
use radar_software.Morenos.Placement.Find.{IsPlace, find_index-IsPlace}
use radar_software.Morenos.Placement.ScanPlace.{IsScanPlace, IsFirstPlace}
use radar_software.Morenos.Placement.Emit.{scan_group, least_receive, place_scan_lem}
use radar_software.Morenos.Placement.Validated.{validate-place_scan}
use radar_software.Morenos.Tests.Data.{single_pulse}

-- The first place on empty timelines, where the antenna has had the time to rephase.
find_index_run : find_index new_conveyors 40000 20000 6396300 60 ≡ some 27
unfolding find_index find_from receive_fits get_value_at check_index check_from get_idx_for
find_index_run = refl

find_index_example : IsPlace new_conveyors (chunks 40000) (chunks 20000) 6396300 60 27
find_index_example =
    find_index-IsPlace new_conveyors 40000 20000 6396300 60 27 (omega arith) find_index_run

place_scan_example :
    ((place_scan new_conveyors single_pulse 7 ≡ (nop_command ∷ [], new_conveyors))
      × ((idx : ℕ) → ¬ (IsScanPlace new_conveyors single_pulse idx)))
    ⊎ ((idx : ℕ) × IsFirstPlace new_conveyors single_pulse idx
        × (place_scan new_conveyors single_pulse 7 ≡ (
          scan_group
              (new_conveyors.dcu_timeline.start_time + idx * time_chunk_length + phase_delay)
              single_pulse.receive_time
              (scan_plan single_pulse).transmit_len
              (scan_plan single_pulse).receive_len
              7,
          label_scan new_conveyors single_pulse idx
              (single_pulse.receive_time - least_receive)
              (scan_plan single_pulse).period_time,
        )))
place_scan_example =
    place_scan_lem new_conveyors single_pulse 7
      (record { far = omega arith; word = omega arith; aligned = refl }) (omega arith)

validate_scan_example :
    validate (append new_processor (place_scan new_conveyors single_pulse 7).0) ≡ true
validate_scan_example =
    validate-place_scan new_conveyors single_pulse 7
      (record { far = omega arith; word = omega arith; aligned = refl }) (omega arith)
