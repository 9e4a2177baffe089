-- ===== src/Morenos/Tests/Passes.antt =====
-- The theorems about passes of the scheduler and the run of the simulation at concrete inputs.
use mathlib.Core.List.{Perm}
use radar_software.Prelude.{
  ℕ, ◌≡◌, refl, true, false, some, ◌≤◌, List, [], ◌∷◌, map, inl, inr, arith, All, Ensures,
}
use radar_software.Morenos.ControlCommand.{ControlCommand}
use radar_software.Morenos.CommandProcessor.{check_reserve, new_processor}
use radar_software.Morenos.Scheduler.{Scheduler, refresh, order_queries, run}
use radar_software.Morenos.Scheduler.Order.{ByPriority, order_queries_lem}
use radar_software.Morenos.Scheduler.Kept.{IsFrom, IsKept, run-IsFrom, run-IsKept}
use radar_software.Morenos.Placement.Reserve.{HasRoom}
use radar_software.Morenos.Scheduler.Commands.{run-check_reserve}
use radar_software.Morenos.Scheduler.Total.{IsPlannable, run-Gives}
use radar_software.Morenos.Engine.{stop, Engine, new_engine, run_model, finished}
use radar_software.Morenos.Engine.Program.{run_model_ends}
use radar_software.Morenos.Tests.Data.{whole, whole_order, searching, confirming, scheduler}

order_queries_example :
    Perm
      (order_queries whole 1000000 (searching ∷ confirming ∷ []))
      (map (refresh whole 1000000) (searching ∷ confirming ∷ []))
    × ByPriority whole (order_queries whole 1000000 (searching ∷ confirming ∷ []))
order_queries_example = order_queries_lem whole 1000000 (searching ∷ confirming ∷ []) whole_order

run-IsFrom_example :
    Ensures
      (run whole scheduler 1000000)
      (λ (ret, s'). All (IsFrom whole 1000000 scheduler.queries ret) s'.queries)
run-IsFrom_example = run-IsFrom whole scheduler 1000000

run-IsKept_example :
    Ensures
      (run whole scheduler 1000000)
      (λ (ret, s'). All (IsKept whole 1000000 scheduler.queries ret s'.queries) scheduler.queries)
run-IsKept_example = run-IsKept whole scheduler 1000000

run-check_reserve_example : Ensures (run whole scheduler 1000000) (λ (commands, s').
    (check_reserve commands ≡ true) × HasRoom s'.conveyors.dcu_timeline.start_time)
run-check_reserve_example = run-check_reserve whole scheduler 1000000 (omega arith) (omega arith)

scheduler-IsPlannable : All (IsPlannable whole) scheduler.queries
scheduler-IsPlannable = (inr refl, (inr refl, (inl refl, tt)))

run-Gives_example :
    (r : List ControlCommand × Scheduler ℕ) × (run whole scheduler 1000000 ≡ some r)
    × All (IsPlannable whole) r.1.queries
run-Gives_example = run-Gives whole scheduler 1000000 scheduler-IsPlannable

abbrev whole_engine : Engine ℕ
whole_engine = record {
  shed = scheduler;
  command_processor = new_processor;
  ev_queue = record { trigger_time = 3000000; exec = stop } ∷ [];
  model_time = 1000000;
  running = false;
}

run_model_example :
    (e' : Engine ℕ) × (run_model whole 15002 (new_engine whole) ≡ finished e')
    × ((e'.running ≡ false) × (e'.model_time ≤ 15001000000))
run_model_example =
    run_model_ends whole (record { train = refl; short_pulse = refl; long_pulse = refl })
