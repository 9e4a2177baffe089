-- ===== src/Morenos/Placement/Reserve.antt =====
-- The commands of a placed scan against the reserve check of the command processor.
use radar_software.Prelude.{
  ℕ, zero, suc, ◌+◌, ◌-◌, ◌^◌, ◌<◌, ◌≤◌, ◌≡◌, refl, ◌∙◌, true, false, List, [], ◌∷◌, ◌++◌, inl, inr,
  Bool-cases, Option-cases, arith, ◌==◌, u32_mod, u64_mod, sub32, sub64, add64, mul32, ltb,
  le→ltb-false,
}
use radar_software.Morenos.Settings.{
  frequency_factor, phase_delay, reserve_time, blank_delay, frequency_delay, time_chunk_length,
}
use radar_software.Morenos.Utility.{multiples_of, multiples_of32, multiples_of64}
use radar_software.Morenos.ControlCommand.{ControlCommand}
use radar_software.Morenos.Timeline.{TimelineLabel, Timeline, label_sector}
use radar_software.Morenos.Timeline.Ring.{start_idx-label_from}
use radar_software.Morenos.ScanPair.{ScanPair}
use radar_software.Morenos.CommandProcessor.{check_reserve}
use radar_software.Morenos.Placement.{
  Conveyors, find_index, label_transmits, label_receives, label_scan, scan_commands, scan_plan,
  place_scan,
}

pub reserve_nil : check_reserve [] ≡ true
unfolding check_reserve
reserve_nil = refl

pub check_reserve-append :
    (xs ys : List ControlCommand)
    → check_reserve xs ≡ true
    → check_reserve ys ≡ true
    → check_reserve (xs ++ ys) ≡ true
unfolding check_reserve
check_reserve-append [] ys h k = k
check_reserve-append (x ∷ xs) ys h k = ground (arith, check_reserve-append xs ys)

-- A start time with room for the times of a pass in 64 bits.
abbrev pub HasRoom : ℕ → Type 0
HasRoom start_time = start_time + 2 ^ 40 < u64_mod

multiples_of32-lt : (value : ℕ) → value < u32_mod → multiples_of32 value frequency_factor < u32_mod
unfolding multiples_of
multiples_of32-lt value h = ground arith

range_offset-lt : (scan_pair : ScanPair) → (scan_plan scan_pair).range_offset_len < u32_mod
unfolding scan_plan
range_offset-lt scan_pair = ground (
  arith,
  multiples_of32-lt (sub32 (sub32 scan_pair.receive_time phase_delay) reserve_time) (omega arith),
)

-- A transmit and a receive command with the reference times that `place_scan` gives them.
transmit_reserve :
    (time : ℕ)
    → time < u64_mod
    → ltb
        (sub64 time (sub64 time (reserve_time + blank_delay + frequency_delay)))
        (reserve_time + blank_delay + frequency_delay)
      ≡ false
transmit_reserve time h = le→ltb-false _ _ (omega arith)

receive_reserve :
    (time : ℕ)
    → reserve_time ≤ time
    → time < u64_mod
    → (ltb time (sub64 time reserve_time) ≡ false)
      × (ltb (sub64 time (sub64 time reserve_time)) reserve_time ≡ false)
receive_reserve time h k = (le→ltb-false _ _ (omega arith), le→ltb-false _ _ (omega arith))

scan_commands-check_reserve :
    (c : Conveyors) (scan_pair : ScanPair) (idx offset transmit_len receive_len query_id : ℕ)
    → HasRoom c.dcu_timeline.start_time
    → offset < u32_mod
    → check_reserve (scan_commands c scan_pair idx offset transmit_len receive_len query_id) ≡ true
unfolding scan_commands check_reserve
scan_commands-check_reserve c scan_pair idx offset transmit_len receive_len query_id room small =
    elim (Bool-cases
      (sub64 receive transmit == multiples_of64 scan_pair.receive_time frequency_factor)) [
        | inl e ↦ rw e (
            rw (
              transmit_reserve transmit (omega arith),
              (receive_reserve receive late (omega arith)).0,
              (receive_reserve receive late (omega arith)).1,
            ))
        | inr e ↦ rw e
      ]
  where
    transmit : ℕ
    transmit = add64 (add64 c.dcu_timeline.start_time (mul32 idx time_chunk_length)) phase_delay

    receive : ℕ
    receive = add64 (add64 transmit (offset + reserve_time)) phase_delay

    late : reserve_time ≤ receive
    late = omega arith

start_time-label_sector :
    (t : Timeline) (start stop : ℕ) (label : TimelineLabel)
    → (label_sector t start stop label).start_time ≡ t.start_time
unfolding label_sector
start_time-label_sector t start stop label =
    ground (arith, start_idx-label_from t (stop + 1 - start) start label)

start_time-label_transmits :
    (scan_pair : ScanPair) (period_time from count pulse_idx : ℕ) (t : Timeline)
    → (label_transmits scan_pair period_time from count pulse_idx t).start_time ≡ t.start_time
unfolding label_transmits
start_time-label_transmits scan_pair period_time from zero pulse_idx t = refl
start_time-label_transmits scan_pair period_time from (suc count) pulse_idx t =
    start_time-label_transmits scan_pair period_time from count (pulse_idx + 1) _
    ∙ (start_time-label_sector _ _ _ _ ∙ start_time-label_sector _ _ _ _)

start_time-label_receives :
    (scan_pair : ScanPair) (period_time from count pulse_idx : ℕ) (t : Timeline)
    → (label_receives scan_pair period_time from count pulse_idx t).start_time ≡ t.start_time
unfolding label_receives
start_time-label_receives scan_pair period_time from zero pulse_idx t = refl
start_time-label_receives scan_pair period_time from (suc count) pulse_idx t =
    start_time-label_receives scan_pair period_time from count (pulse_idx + 1) _
    ∙ start_time-label_sector _ _ _ _

start_time-label_scan :
    (c : Conveyors) (scan_pair : ScanPair) (idx offset period_time : ℕ)
    → (label_scan c scan_pair idx offset period_time).dcu_timeline.start_time
      ≡ c.dcu_timeline.start_time
unfolding label_scan
start_time-label_scan c scan_pair idx offset period_time =
    simp (start_time-label_receives, start_time-label_transmits, start_time-label_sector)

pub place_scan-check_reserve :
    (c : Conveyors) (scan_pair : ScanPair) (query_id : ℕ)
    → HasRoom c.dcu_timeline.start_time
    → (check_reserve (place_scan c scan_pair query_id).0 ≡ true)
      × ((place_scan c scan_pair query_id).1.dcu_timeline.start_time ≡ c.dcu_timeline.start_time)
unfolding place_scan check_reserve
place_scan-check_reserve c scan_pair query_id room =
    let plan = scan_plan scan_pair in
    elim (Option-cases
      (find_index c plan.transmit_len plan.receive_len plan.range_offset_len plan.depth)) [
        | inl e ↦ rw (e, place_scan) (refl, refl)
        | inr (idx, e) ↦
            rw (e, place_scan)
              (
                scan_commands-check_reserve c scan_pair idx plan.range_offset_len plan.transmit_len
                    plan.receive_len query_id room (range_offset-lt scan_pair),
                start_time-label_scan c scan_pair idx plan.range_offset_len plan.period_time,
              )
      ]
