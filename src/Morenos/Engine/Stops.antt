-- ===== src/Morenos/Engine/Stops.antt =====
-- The loop of the simulation up to its stop event, and what holds in each of its rounds.
use radar_software.Prelude.{
  ℕ, zero, suc, ◌+◌, ◌*◌, ◌<◌, ◌≤◌, ◌≡◌, refl, true, false, some, List, [], ◌∷◌, arith, ltb, ◌==◌,
  inl, inr, Bool-cases, All, All-imp, add64, All-filter, Any, filter, u64_mod, ◌⊎◌,
}
use radar_software.Double.{Double}
use radar_software.Morenos.PriorityQueue.{filter-IsSorted}
use radar_software.Morenos.EventQueue.{EventQueue, trigger, get_events, get_events_lem}
use radar_software.Morenos.ControlCommand.{ControlCommand}
use radar_software.Morenos.CommandProcessor.{append}
use radar_software.Morenos.CommandProcessor
use radar_software.Morenos.Scheduler.{Scheduler}
use radar_software.Morenos.Scheduler
use radar_software.Morenos.Scheduler.Total.{run-Gives}
use radar_software.Morenos.Engine.{
  Action, Engine, time_step, exec_events, finished, round, rounds, run_model,
}
use radar_software.Morenos.Engine.Pending.{
  IsPending, IsReady, StopsAt, WillStop, exec_events-IsPlannable, exec_events-stop,
  stop_due_or_kept, IsPending-next,
}

module _ (double : Double) where
  open double use {D}

  -- A round, from what it takes off the event queue and what the scheduler gives.
  round_lem :
      (e : Engine D) (now later : EventQueue (Action D)) (r : List ControlCommand × Scheduler D)
      → get_events e.model_time e.ev_queue ≡ (now, later)
      → Scheduler.run double (exec_events now (e.shed, e.running)).0 e.model_time ≡ some r
      → round double e
        ≡ some (record {
          shed = r.1;
          command_processor =
              CommandProcessor.run double (append e.command_processor r.0) e.model_time;
          ev_queue = later;
          model_time = add64 e.model_time time_step;
          running = (exec_events now (e.shed, e.running)).1;
        })
  unfolding round
  round_lem e now later r taken done = cc

  -- One round of a ready program: the next one is ready, `time_step` later, and stopped if its stop
  -- event was due.
  round-IsReady :
      (e : Engine D)
      → IsReady double e
      → e.model_time + time_step < u64_mod
      → (e' : Engine D) × (round double e ≡ some e')
        × IsReady double e'
        × (e'.model_time ≡ e.model_time + time_step)
        × ((stop_time : ℕ)
            → Any (StopsAt double stop_time) e.ev_queue
            → WillStop double stop_time e')
  round-IsReady e v small =
      let now = filter (λ ev. ev.trigger_time == e.model_time) e.ev_queue in
      let later = filter (λ ev. ltb e.model_time ev.trigger_time) e.ev_queue in
      let taken : get_events e.model_time e.ev_queue ≡ (now, later) =
        get_events_lem e.model_time e.ev_queue v.sorted (
          All-imp (IsPending double e.model_time) (λ ev. e.model_time ≤ ev.trigger_time) e.ev_queue
            (λ ev p. p.not_overdue) v.pending) in
      let (r, done, plannable) =
        run-Gives double (exec_events now (e.shed, e.running)).0 e.model_time (
          exec_events-IsPlannable double e.model_time now e.shed e.running
            (All-filter (IsPending double e.model_time) _ e.ev_queue v.pending) v.plannable) in
      let word : add64 e.model_time time_step ≡ e.model_time + time_step = omega arith in
      (
        _,
        round_lem e now later r taken done,
        record {
          at_round = omega (arith, v.at_round);
          sorted = filter-IsSorted trigger _ e.ev_queue v.sorted;
          pending = rw word (IsPending-next double e.model_time e.ev_queue v.at_round v.pending);
          plannable = plannable;
        },
        word,
        λ stop_time h.
            elim (stop_due_or_kept double stop_time e.model_time e.ev_queue v.pending h) [
              | inl d ↦ inl (exec_events-stop double stop_time now e.shed e.running d)
              | inr k ↦ inr k
            ],
      )

  not_passed :
      (stop_time time : ℕ) (queue : EventQueue (Action D))
      → All (IsPending double time) queue
      → Any (StopsAt double stop_time) queue
      → time ≤ stop_time
  not_passed stop_time time [] p a = absurd a
  not_passed stop_time time (ev ∷ queue) p (inl s) = omega (arith, p.0.not_overdue, s.0)
  not_passed stop_time time (ev ∷ queue) p (inr a) = not_passed stop_time time queue p.1 a

  -- The program has stopped, in the round of the stop event or before.
  abbrev pub HasStopped : ℕ → Engine D → Type 0
  HasStopped stop_time e = (e.running ≡ false) × (e.model_time ≤ stop_time + time_step)

  still_to_stop :
      (stop_time : ℕ) (e : Engine D)
      → WillStop double stop_time e
      → e.model_time ≤ stop_time + time_step
      → ((e.running ≡ true) × Any (StopsAt double stop_time) e.ev_queue) ⊎ HasStopped stop_time e
  still_to_stop stop_time e (inl stopped) h = inr (stopped, h)
  still_to_stop stop_time e (inr soon) h = elim (Bool-cases e.running) [
    | inl run ↦ inl (run, soon)
    | inr stopped ↦ inr (stopped, h)
  ]

  rounds_next :
      (fuel : ℕ) (e e' : Engine D)
      → e.running ≡ true
      → round double e ≡ some e'
      → rounds double (suc fuel) e ≡ rounds double fuel e'
  unfolding rounds
  rounds_next fuel e e' run done = cc

  rounds_over :
      (fuel : ℕ) (e : Engine D) → e.running ≡ false → rounds double (suc fuel) e ≡ finished e
  unfolding rounds
  rounds_over fuel e over = cc

  rounds-stop :
      (stop_time fuel : ℕ) (e : Engine D)
      → IsReady double e
      → stop_time + time_step < u64_mod
      → stop_time + time_step < e.model_time + fuel * time_step
      → ((e.running ≡ true) × Any (StopsAt double stop_time) e.ev_queue) ⊎ HasStopped stop_time e
      → (e' : Engine D) × (rounds double fuel e ≡ finished e') × HasStopped stop_time e'
  unfolding rounds
  rounds-stop stop_time zero e v small enough (inl (run, soon)) =
      absurd (omega (arith, not_passed stop_time e.model_time e.ev_queue v.pending soon))
  rounds-stop stop_time zero e v small enough (inr over) = absurd (omega (arith, over.1))
  rounds-stop stop_time (suc fuel) e v small enough (inr over) =
      (e, rounds_over fuel e over.0, over)
  rounds-stop stop_time (suc fuel) e v small enough (inl (run, soon)) =
      let passed = not_passed stop_time e.model_time e.ev_queue v.pending soon in
      let (e', done, v', next, will) = round-IsReady e v (omega arith) in
      rw (rounds_next fuel e e' run done) (
        rounds-stop stop_time fuel e' v' small (omega arith)
          (still_to_stop stop_time e' (will stop_time soon) (omega arith)))

-- With a stop event at `stop_time` in the queue, and rounds for one step more than the time up to
-- it, which is in 64 bits, the loop of `run` ends, and it ends by the flag, at the latest after
-- the round of that event: no failed assert or exception ends it before. The events are in order,
-- stand at multiples of the step and none is overdue, and all queries, those of the events too,
-- are plannable.
pub run_stops :
    (double : Double) (stop_time fuel : ℕ) (e : Engine double.D)
    → IsReady double e
    → Any (StopsAt double stop_time) e.ev_queue
    → stop_time + time_step < u64_mod
    → stop_time + time_step < e.model_time + fuel * time_step
    → (e' : Engine double.D) × (run_model double fuel e ≡ finished e')
      × HasStopped double stop_time e'
unfolding run_model
run_stops double stop_time fuel e v h small enough =
    rounds-stop double stop_time fuel (record e { running = true })
      (record {
        at_round = v.at_round;
        sorted = v.sorted;
        pending = v.pending;
        plannable = v.plannable;
      })
      small enough (inl (refl, h))
