-- ===== src/Morenos/EventQueue.antt =====
-- `struct Event` and `class EventQueue` of Morenos/Scheduler_Model — копия/EventQueue.h, over the type
-- of what an event executes.
use radar_software.Prelude.{
  ℕ, ◌≤◌, ◌<◌, ◌≡◌, refl, List, [], ◌∷◌, inl, inr, arith, ltb, ◌==◌, if◌then◌else◌, Bool-cases, All,
  All-imp, filter, ==→eq, false, ==-false→ne, le→ltb-false, lt→ltb,
}
use radar_software.Morenos.PriorityQueue.{push, IsSorted}

pub record Event (E : Type 0) : Type 0 where
  pub trigger_time : ℕ
  pub exec : E

abbrev pub EventQueue : Type 0 → Type 0
EventQueue E = List (Event E)

module _ {E : Type 0} where
  abbrev pub trigger : Event E → ℕ
  trigger ev = ev.trigger_time

  unfoldable pub add_event : Event E → EventQueue E → EventQueue E
  unfolding push
  add_event = push trigger

  -- The events that are due, and the queue without them.
  unfoldable pub get_events : ℕ → EventQueue E → List (Event E) × EventQueue E
  get_events time [] = ([], [])
  get_events time (ev ∷ queue) =
      let (due, rest) = get_events time queue in
      if ev.trigger_time == time then (ev ∷ due, rest) else ([], ev ∷ queue)

  none_due :
      (time : ℕ) (queue : EventQueue E)
      → All (λ ev. time < ev.trigger_time) queue
      → (filter (λ ev. ev.trigger_time == time) queue ≡ [])
        × (filter (λ ev. ltb time ev.trigger_time) queue ≡ queue)
  none_due time [] h = (refl, refl)
  none_due time (ev ∷ queue) h = ground (arith, none_due time queue h.1)

  -- From a queue in order with no event overdue, `get_events` takes exactly the events of this
  -- time, in the order of the queue, and keeps exactly the later ones.
  pub get_events_lem :
      (time : ℕ) (queue : EventQueue E)
      → IsSorted trigger queue
      → All (λ ev. time ≤ ev.trigger_time) queue
      → get_events time queue ≡ (
        filter (λ ev. ev.trigger_time == time) queue,
        filter (λ ev. ltb time ev.trigger_time) queue,
      )
  unfolding get_events
  get_events_lem time [] s h = refl
  get_events_lem time (ev ∷ queue) s h = elim (Bool-cases (ev.trigger_time == time)) [
    | inl e ↦ rw (
      e,
      le→ltb-false time ev.trigger_time (omega (arith, ==→eq _ _ e)),
      get_events_lem time queue s.1 h.1,
    )
    | inr e ↦ rw e (
        rw (
          lt→ltb _ _ (later e),
          (none_due time queue (all_later e)).0,
          (none_due time queue (all_later e)).1,
        ))
  ]
    where
      later : (ev.trigger_time == time) ≡ false → time < ev.trigger_time
      later e = omega (arith, h.0, ==-false→ne _ _ e)

      all_later : (ev.trigger_time == time) ≡ false → All (λ other. time < other.trigger_time) queue
      all_later e =
          All-imp (λ other. ev.trigger_time ≤ other.trigger_time)
            (λ other. time < other.trigger_time) queue (λ other k. omega (arith, later e)) s.0

  -- An overdue event on top of the queue blocks it: nothing is taken, whatever else is due.
  pub get_events_blocked :
      (time : ℕ) (ev : Event E) (queue : EventQueue E)
      → ev.trigger_time < time
      → get_events time (ev ∷ queue) ≡ ([], ev ∷ queue)
  unfolding get_events
  get_events_blocked time ev queue h = ground arith
