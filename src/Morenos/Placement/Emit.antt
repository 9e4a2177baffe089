-- ===== src/Morenos/Placement/Emit.antt =====
-- The commands that `place_scan` gives.
use radar_software.Prelude.{
  ℕ, ◌+◌, ◌-◌, ◌*◌, ◌%◌, ◌≤◌, ◌<◌, ◌≡◌, ◌⊎◌, inl, inr, ◌∙◌, ◌^◌, eq→==, true, List, [], ◌∷◌, arith,
  ◌==◌, Bool-cases, Option-cases, u32_mod, u64_mod, sub64, sub32, mul32, add64, refl,
}
use radar_software.Morenos.Settings.{
  phase_delay, blank_delay, frequency_delay, channel_switch_delay, frequency_factor, reserve_time,
  time_chunk_length,
}
use radar_software.Morenos.Utility.{multiples_of32, multiples_of64, multiples_of_multiple}
use radar_software.Morenos.ScanPair.{ScanPair}
use radar_software.Morenos.ControlCommand.{
  ct_transmit_command, ct_receive_command, ct_tr_rephase_command, ct_rs_rephase_command,
  ct_protect_command, ControlCommand, nop_command, command,
}
use radar_software.Morenos.Placement.{
  Conveyors, find_index, scan_commands, label_scan, scan_plan, place_scan,
}
use radar_software.Morenos.Placement.ScanPlace.{
  IsScanPlace, IsFirstPlace, plan_depth_small, no_place, found_first,
}

-- The commands of a scan of `query_id` that transmits at `transmit`, for a pair that receives
-- `receive_time` later, with the lengths of the two commands.
abbrev pub scan_group :
    (transmit receive_time transmit_len receive_len query_id : ℕ) → List ControlCommand
scan_group transmit receive_time transmit_len receive_len query_id =
    let receive = transmit + receive_time in
    command ct_transmit_command (transmit - (reserve_time + blank_delay + frequency_delay)) transmit
      transmit_len query_id
    ∷ command ct_tr_rephase_command (transmit - phase_delay) (transmit - phase_delay) phase_delay
        query_id
    ∷ command ct_protect_command (receive - channel_switch_delay) (receive - channel_switch_delay)
        channel_switch_delay query_id
    ∷ command ct_rs_rephase_command (receive - phase_delay) (receive - phase_delay) phase_delay
        query_id
    ∷ command ct_receive_command (receive - reserve_time) receive receive_len query_id
    ∷ []

-- The least receive time that leaves room for the rephasing of the receiving antenna.
abbrev pub least_receive : ℕ
least_receive = phase_delay + reserve_time

-- A receive time in range: a multiple of the frequency factor with room for the rephasing.
pub record IsReachable (scan_pair : ScanPair) : Type 0 where
  pub far : least_receive ≤ scan_pair.receive_time
  pub word : scan_pair.receive_time < u32_mod
  pub aligned : scan_pair.receive_time % frequency_factor ≡ 0

range_offset_lem :
    (scan_pair : ScanPair)
    → IsReachable scan_pair
    → (scan_plan scan_pair).range_offset_len ≡ scan_pair.receive_time - least_receive
unfolding scan_plan
range_offset_lem scan_pair v = elim (Bool-cases (scan_pair.size == 1)) [
  | inl e ↦ rw e multiple
  | inr e ↦ rw e multiple
]
  where
    rest : ℕ
    rest = sub32 (sub32 scan_pair.receive_time phase_delay) reserve_time

    exact : rest ≡ scan_pair.receive_time - least_receive
    exact = omega arith

    multiple : multiples_of32 rest frequency_factor ≡ scan_pair.receive_time - least_receive
    multiple = multiples_of_multiple u32_mod rest frequency_factor (omega (arith, exact)) ∙ exact

-- Found at a chunk, the scan of a reachable pair gets exactly the five commands of the group that
-- transmits `phase_delay` after the start of the chunk.
scan_commands_lem :
    (c : Conveyors) (scan_pair : ScanPair) (idx transmit_len receive_len query_id : ℕ)
    → IsReachable scan_pair
    → idx < 100000
    → c.dcu_timeline.start_time + 2 ^ 40 < u64_mod
    → scan_commands c scan_pair idx
        (scan_pair.receive_time - least_receive)
        transmit_len
        receive_len
        query_id
      ≡ scan_group
          (c.dcu_timeline.start_time + idx * time_chunk_length + phase_delay)
          scan_pair.receive_time
          transmit_len
          receive_len
          query_id
unfolding scan_commands
scan_commands_lem c scan_pair idx transmit_len receive_len query_id v hi hs =
    rw (e1, e2, e3, e4, test) (ground arith)
  where
    from : ℕ
    from = c.dcu_timeline.start_time

    transmit : ℕ
    transmit = from + idx * time_chunk_length + phase_delay

    e1 : add64 from (mul32 idx time_chunk_length) ≡ transmit - phase_delay
    e1 = omega arith

    e2 : add64 (transmit - phase_delay) phase_delay ≡ transmit
    e2 = omega arith

    e3 :
        add64 transmit (scan_pair.receive_time - least_receive + reserve_time)
        ≡ transmit + scan_pair.receive_time - phase_delay
    e3 = omega arith

    e4 :
        add64 (transmit + scan_pair.receive_time - phase_delay) phase_delay
        ≡ transmit + scan_pair.receive_time
    e4 = omega arith

    test :
        (sub64 (transmit + scan_pair.receive_time) transmit
          == multiples_of64 scan_pair.receive_time frequency_factor)
        ≡ true
    test = eq→== _ _ (
        omega
          (arith, multiples_of_multiple u64_mod scan_pair.receive_time frequency_factor v.aligned))

-- For a reachable pair, and timelines that begin at a time with room in 64 bits, `place_scan`
-- finds the first place of the scan, labels the timelines there and gives the five commands of the
-- scan, which transmits `phase_delay` after the start of the chunk and receives exactly the
-- receive time of the pair later; or the scan has no place within the depth, and it gives the nop
-- command and leaves the timelines.
pub place_scan_lem :
    (c : Conveyors) (scan_pair : ScanPair) (query_id : ℕ)
    → IsReachable scan_pair
    → c.dcu_timeline.start_time + 2 ^ 40 < u64_mod
    → ((place_scan c scan_pair query_id ≡ (nop_command ∷ [], c))
        × ((idx : ℕ) → ¬ (IsScanPlace c scan_pair idx)))
      ⊎ ((idx : ℕ) × IsFirstPlace c scan_pair idx
          × (place_scan c scan_pair query_id ≡ (
            scan_group
                (c.dcu_timeline.start_time + idx * time_chunk_length + phase_delay)
                scan_pair.receive_time
                (scan_plan scan_pair).transmit_len
                (scan_plan scan_pair).receive_len
                query_id,
            label_scan c scan_pair idx
                (scan_pair.receive_time - least_receive)
                (scan_plan scan_pair).period_time,
          )))
unfolding place_scan
place_scan_lem c scan_pair query_id v hs =
    let plan = scan_plan scan_pair in
    elim (Option-cases
      (find_index c plan.transmit_len plan.receive_len plan.range_offset_len plan.depth)) [
        | inl e ↦ inl (rw (e, place_scan) refl, no_place c scan_pair e)
        | inr (idx, e) ↦
            let first = found_first c scan_pair idx e in
            inr (
              idx,
              first,
              rw (e, place_scan)
                  (rw (range_offset_lem scan_pair v) (
                    rw (
                      scan_commands_lem c scan_pair idx plan.transmit_len plan.receive_len query_id
                        v (omega (arith, first.0.within, plan_depth_small scan_pair)) hs))),
            )
      ]
