-- ===== src/Morenos/Engine/Pending.antt =====
-- The events that wait, and what the ones that are due do.
use radar_software.Prelude.{
  ℕ, ◌+◌, ◌%◌, ◌≤◌, ◌≡◌, refl, Bool, false, List, [], ◌∷◌, ◌++◌, arith, ltb, ◌==◌, inl, inr,
  Bool-cases, All, All-append, Any, Any-filter-cons, lt→ltb, ==-false→ne, filter, ◌⊎◌, ltb→lt,
}
use radar_software.Double.{Double}
use radar_software.Morenos.Query.{Query}
use radar_software.Morenos.PriorityQueue.{IsSorted}
use radar_software.Morenos.EventQueue.{Event, EventQueue, trigger}
use radar_software.Morenos.Scheduler.{Scheduler}
use radar_software.Morenos.Scheduler.Total.{IsPlannable}
use radar_software.Morenos.Engine.{Action, add_queries, stop, Engine, time_step, exec_events}

module _ (double : Double) where
  open double use {D}

  -- The queries that an event adds are plannable.
  abbrev pub AddsPlannable : Action D → Type 0
  AddsPlannable (add_queries queries) = All (IsPlannable double) queries
  AddsPlannable stop = Unit

  -- An event is not overdue, stands at a round, and adds plannable queries.
  pub record IsPending (time : ℕ) (ev : Event (Action D)) : Type 0 where
    pub not_overdue : time ≤ ev.trigger_time
    pub at_round : ev.trigger_time % time_step ≡ 0
    pub plannable : AddsPlannable ev.exec

  -- The invariant of the loop.
  pub record IsReady (e : Engine D) : Type 0 where
    pub at_round : e.model_time % time_step ≡ 0
    pub sorted : IsSorted trigger e.ev_queue
    pub pending : All (IsPending e.model_time) e.ev_queue
    pub plannable : All (IsPlannable double) e.shed.queries

  -- What an event executes.
  Action-cases :
      (action : Action D)
      → ((queries : List (Query D)) × (action ≡ add_queries queries)) ⊎ (action ≡ stop)
  Action-cases (add_queries queries) = inl (queries, refl)
  Action-cases stop = inr refl

  pub exec_events-IsPlannable :
      (time : ℕ) (events : List (Event (Action D))) (shed : Scheduler D) (running : Bool)
      → All (IsPending time) events
      → All (IsPlannable double) shed.queries
      → All (IsPlannable double) (exec_events events (shed, running)).0.queries
  unfolding exec_events
  exec_events-IsPlannable time [] shed running p a = a
  exec_events-IsPlannable time (ev ∷ events) shed running p a = elim (Action-cases ev.exec) [
    | inl (queries, e) ↦ rw e (
        exec_events-IsPlannable time events (record shed { queries = shed.queries ++ queries })
          running p.1
          (All-append (IsPlannable double) shed.queries queries a (rw e at p.0.plannable)))
    | inr e ↦ rw e (exec_events-IsPlannable time events shed false p.1 a)
  ]

  -- The event stops the program at time `stop_time`.
  abbrev pub StopsAt : ℕ → Event (Action D) → Type 0
  StopsAt stop_time ev = (ev.trigger_time ≡ stop_time) × (ev.exec ≡ stop)

  exec_events-stopped :
      (events : List (Event (Action D))) (shed : Scheduler D)
      → (exec_events events (shed, false)).1 ≡ false
  unfolding exec_events
  exec_events-stopped [] shed = refl
  exec_events-stopped (ev ∷ events) shed = elim (Action-cases ev.exec) [
    | inl (queries, e) ↦
        rw e (exec_events-stopped events (record shed { queries = shed.queries ++ queries }))
    | inr e ↦ rw e (exec_events-stopped events shed)
  ]

  pub exec_events-stop :
      (stop_time : ℕ) (events : List (Event (Action D))) (shed : Scheduler D) (running : Bool)
      → Any (StopsAt stop_time) events
      → (exec_events events (shed, running)).1 ≡ false
  unfolding exec_events
  exec_events-stop stop_time [] shed running h = absurd h
  exec_events-stop stop_time (ev ∷ events) shed running (inl h) =
      rw h.1 (exec_events-stopped events shed)
  exec_events-stop stop_time (ev ∷ events) shed running (inr h) = elim (Action-cases ev.exec) [
    | inl (queries, e) ↦ rw e (
        exec_events-stop stop_time events (record shed { queries = shed.queries ++ queries })
          running h)
    | inr e ↦ rw e (exec_events-stop stop_time events shed false h)
  ]

  -- The stop event is due now, or stays in the queue.
  pub stop_due_or_kept :
      (stop_time time : ℕ) (queue : EventQueue (Action D))
      → All (IsPending time) queue
      → Any (StopsAt stop_time) queue
      → Any (StopsAt stop_time) (filter (λ ev. ev.trigger_time == time) queue)
        ⊎ Any (StopsAt stop_time) (filter (λ ev. ltb time ev.trigger_time) queue)
  stop_due_or_kept stop_time time [] p h = absurd h
  stop_due_or_kept stop_time time (ev ∷ queue) p (inl h) =
      elim (Bool-cases (ev.trigger_time == time)) [
        | inl e ↦ inl (rw e (inl h))
        | inr e ↦ inr (
            rw (lt→ltb time ev.trigger_time (omega (arith, p.0.not_overdue, ==-false→ne _ _ e)))
              (inl h))
      ]
  stop_due_or_kept stop_time time (ev ∷ queue) p (inr h) =
      elim (stop_due_or_kept stop_time time queue p.1 h) [
        | inl d ↦
            inl
              (Any-filter-cons (StopsAt stop_time) (λ other. other.trigger_time == time) ev queue d)
        | inr k ↦
            inr (
              Any-filter-cons (StopsAt stop_time) (λ other. ltb time other.trigger_time) ev queue k)
      ]

  -- The later events are pending at the next round.
  pub IsPending-next :
      (time : ℕ) (queue : EventQueue (Action D))
      → time % time_step ≡ 0
      → All (IsPending time) queue
      → All (IsPending (time + time_step)) (filter (λ ev. ltb time ev.trigger_time) queue)
  IsPending-next time [] m p = tt
  IsPending-next time (ev ∷ queue) m p = elim (Bool-cases (ltb time ev.trigger_time)) [
    | inl e ↦ rw e (
      record {
        not_overdue = omega (arith, ltb→lt _ _ e, p.0.at_round, m);
        at_round = p.0.at_round;
        plannable = p.0.plannable;
      },
      IsPending-next time queue m p.1,
    )
    | inr e ↦ rw e (IsPending-next time queue m p.1)
  ]

  -- The program is stopped, or will be by an event at `stop_time`.
  abbrev pub WillStop : ℕ → Engine D → Type 0
  WillStop stop_time e = (e.running ≡ false) ⊎ Any (StopsAt stop_time) e.ev_queue
