-- ===== src/Morenos/Engine/Program.antt =====
-- The simulation that main.cpp runs, from the events of the constructor.
use radar_software.Prelude.{◌+◌, ◌*◌, ◌%◌, ◌≤◌, ◌<◌, ◌≡◌, refl, false, inl, inr, arith, Any}
use radar_software.Double.{Double}
use radar_software.Morenos.Scheduler.Total.{IsPositive}
use radar_software.Morenos.EventQueue.{Event}
use radar_software.Morenos.Engine.{Action, Engine, finished, new_engine, time_step, run_model}
use radar_software.Morenos.Engine.Pending.{AddsPlannable, IsPending, IsReady, StopsAt}
use radar_software.Morenos.Engine.Stops.{run_stops}

-- The computed signal durations of the targets that the events describe are positive.
pub record IsSetUp (double : Double) : Type 0 where
  pub train : IsPositive double (double.decimal 2000000 0) (double.decimal 15 0)
  pub short_pulse : IsPositive double (double.decimal 1000000 0) (double.decimal 50 0)
  pub long_pulse : IsPositive double (double.decimal 2100000 0) (double.decimal 50 0)

IsPending-at_start :
    (double : Double) (ev : Event (Action double.D))
    → ev.trigger_time % time_step ≡ 0
    → AddsPlannable double ev.exec
    → IsPending double 0 ev
IsPending-at_start double ev at_round plannable = record {
  not_overdue = omega arith;
  at_round = at_round;
  plannable = plannable;
}

pub new_engine-IsReady : (double : Double) → IsSetUp double → IsReady double (new_engine double)
unfolding new_engine
new_engine-IsReady double v = record {
  at_round = refl;
  sorted = (
    (omega arith, (omega arith, (omega arith, (omega arith, tt)))),
    (
      (omega arith, (omega arith, (omega arith, tt))),
      ((omega arith, (omega arith, tt)), ((omega arith, tt), (tt, tt))),
    ),
  );
  pending = (
    IsPending-at_start double _ refl
        (inr v.train, (inr v.short_pulse, (inr v.long_pulse, (inl refl, tt)))),
    (
      IsPending-at_start double _ refl (inr v.train, tt),
      (
        IsPending-at_start double _ refl
            (inr v.short_pulse, (inr v.short_pulse, (inr v.long_pulse, tt))),
        (
          IsPending-at_start double _ refl (
            inl refl,
            (inl refl, (inl refl, (inl refl, (inl refl, (inl refl, (inl refl, tt)))))),
          ),
          (IsPending-at_start double _ refl tt, tt),
        ),
      ),
    ),
  );
  plannable = tt;
}

pub new_engine-StopsAt :
    (double : Double) → Any (StopsAt double 15000000000) (new_engine double).ev_queue
unfolding new_engine
new_engine-StopsAt double = inr (inr (inr (inr (inl (refl, refl)))))

start_enough :
    (double : Double) → 15000000000 + time_step < (new_engine double).model_time + 15002 * time_step
unfolding new_engine
start_enough double = omega arith

-- The simulation that the constructor sets up ends, after at most 15001 rounds of the loop, by its
-- flag, at the latest in the round of its stop event at 15 seconds: no assert and no exception of
-- the signal choice ends it before, where the computed signal durations of its targets are
-- positive.
pub run_model_ends :
    (double : Double)
    → IsSetUp double
    → (e' : Engine double.D) × (run_model double 15002 (new_engine double) ≡ finished e')
      × ((e'.running ≡ false) × (e'.model_time ≤ 15001000000))
run_model_ends double v =
    run_stops double 15000000000 15002 (new_engine double) (new_engine-IsReady double v)
      (new_engine-StopsAt double) (omega arith) (start_enough double)
