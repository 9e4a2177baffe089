-- ===== src/Morenos/Scheduler/Commands.antt =====
-- The commands of a pass against the reserve check of the command processor.
use radar_software.Prelude.{
  ℕ, ◌+◌, ◌≡◌, refl, true, false, List, [], ◌∷◌, inl, inr, Bool-cases, Option-cases, All, arith,
  Ensures, u64_mod,
}
use radar_software.Double.{Double}
use radar_software.Morenos.Settings.{time_chunk_length}
use radar_software.Morenos.Utility.{multiples_of_least}
use radar_software.Morenos.Query.{
  QueryType, search_query, confirm, capture, tracking, signal_change, tech_control, drop, Query,
}
use radar_software.Morenos.Timeline.{Timeline, move_timeline}
use radar_software.Morenos.ScanPair.{ScanPair}
use radar_software.Morenos.Signals.Choice.{emits}
use radar_software.Morenos.CommandProcessor.{check_reserve}
use radar_software.Morenos.Placement.{place_scan}
use radar_software.Morenos.Scheduler.{
  Scheduler, any_command, order_queries, Pass, place_query, execute, visit_all, start_pass,
  move_conveyors, run,
}
use radar_software.Morenos.Scheduler.Passes.{Rule, removed, follow_up, visit_all_inv}
use radar_software.Morenos.Placement.Reserve.{
  reserve_nil, check_reserve-append, HasRoom, place_scan-check_reserve,
}

-- What a pass keeps: room in 64 bits, and commands that keep the reserve.
abbrev KeepsReserve : (double : Double) → Pass double → Type 0
KeepsReserve double pass =
    HasRoom pass.conveyors.dcu_timeline.start_time × (check_reserve pass.ret ≡ true)

module _ (double : Double) (time : ℕ) where
  open double use {D}

  place_query-KeepsReserve :
      (pass : Pass double) (q : Query D) (scan_pair : ScanPair) (ids : List ℕ)
      (next : List (Query D))
      → KeepsReserve double pass
      → KeepsReserve double (place_query double time pass q scan_pair ids next)
  unfolding place_query
  place_query-KeepsReserve pass q scan_pair ids next k =
      let placed = place_scan-check_reserve pass.conveyors scan_pair q.id k.0 in
      let more =
        check_reserve-append pass.ret (place_scan pass.conveyors scan_pair q.id).0 k.1 placed.0 in
      elim (Bool-cases (any_command (place_scan pass.conveyors scan_pair q.id).0)) [
        | inl e ↦ rw (e, place_query) (omega (arith, placed.1, k.0), more)
        | inr e ↦ rw (e, place_query) (omega (arith, placed.1, k.0), more)
      ]

  execute-KeepsReserve :
      (pass : Pass double) (q : Query D) (type : QueryType)
      → emits type ≡ false
      → KeepsReserve double pass
      → Ensures (execute double time pass q type) (KeepsReserve double)
  unfolding execute check_reserve
  execute-KeepsReserve pass q drop e k = k
  execute-KeepsReserve pass q signal_change e k = k
  execute-KeepsReserve pass q tech_control e k = (k.0, check_reserve-append pass.ret _ k.1 refl)
  execute-KeepsReserve pass q search_query e k = cc
  execute-KeepsReserve pass q confirm e k = cc
  execute-KeepsReserve pass q capture e k = cc
  execute-KeepsReserve pass q tracking e k = cc

  reserve_rule : Rule double time (KeepsReserve double) (λ _. Unit {0})
  reserve_rule = record {
    skips = λ pass q u k. k;
    places = λ pass q scan_pair type u e k.
        place_query-KeepsReserve pass q scan_pair (removed double time type q)
          (follow_up double time type q) k;
    executes = λ pass q type u e k. execute-KeepsReserve pass q type e k;
  }

HasRoom-move_timeline :
    (t : Timeline) (time : ℕ)
    → HasRoom (time + time_chunk_length)
    → HasRoom t.start_time
    → HasRoom (move_timeline t time).start_time
unfolding move_timeline
HasRoom-move_timeline t time h k =
    ground (arith, multiples_of_least u64_mod time time_chunk_length (omega arith) (omega arith))

All-trivial : {A : Type 0} (xs : List A) → All (λ _. Unit {0}) xs
All-trivial [] = tt
All-trivial (x ∷ xs) = (tt, All-trivial xs)

-- With room in 64 bits after the time of the pass and the start of the timelines, every command
-- that a pass plans keeps the reserve that `validate` asks for between its reference time and its
-- execution, and the room stays.
pub run-check_reserve :
    (double : Double) (s : Scheduler double.D) (time : ℕ)
    → HasRoom (time + time_chunk_length)
    → HasRoom s.conveyors.dcu_timeline.start_time
    → Ensures (run double s time) (λ (commands, s').
      (check_reserve commands ≡ true) × HasRoom s'.conveyors.dcu_timeline.start_time)
unfolding run
run-check_reserve double s time h room = elim (Option-cases (visit_all double time start ordered)) [
  | inl e ↦ rw (e, run) tt
  | inr (pass, e) ↦
      rw (e, run)
        (let kept : KeepsReserve double pass = rw e at (
            visit_all_inv double time (KeepsReserve double) (λ _. Unit {0})
              (reserve_rule double time) start ordered (All-trivial ordered)
              (HasRoom-move_timeline s.conveyors.dcu_timeline time h room, empty)) in
          (kept.1, kept.0))
]
  where
    start : Pass double
    start = start_pass double (move_conveyors s.conveyors time)

    ordered : List (Query double.D)
    ordered = order_queries double time s.queries

    empty : check_reserve [] ≡ true
    empty = reserve_nil
