-- ===== src/Morenos/Engine.antt =====
-- `class ModelEngine` of Morenos/Scheduler_Model — копия/ModelEngine.h, which main.cpp runs. The
-- results of `validate` and `get_statistics` go to a local that nothing reads, and are left out, as is
-- the console output.
pub mod Pending
pub mod Stops
pub mod Program
use radar_software.Prelude.{
  ℕ, zero, suc, Bool, true, false, Option, none, some, List, [], ◌∷◌, ◌++◌, add64,
}
use radar_software.Double.{Double}
use radar_software.Morenos.Query.{
  QueryType, search_query, confirm, tech_control, drop, Query, new_query,
}
use radar_software.Morenos.EventQueue.{Event, EventQueue, add_event, get_events}
use radar_software.Morenos.CommandProcessor.{CommandProcessor, new_processor, append}
use radar_software.Morenos.CommandProcessor
use radar_software.Morenos.Scheduler.{Scheduler, new_scheduler}
use radar_software.Morenos.Scheduler

-- What the events of the constructor do.
pub data Action (D : Type 0) : Type 0 where
  add_queries : List (Query D) → Action D
  stop : Action D

pub record Engine (D : Type 0) : Type 0 where
  pub shed : Scheduler D
  pub command_processor : CommandProcessor
  pub ev_queue : EventQueue (Action D)
  pub model_time : ℕ
  pub running : Bool

abbrev pub time_step : ℕ
time_step = 1000000

-- `ev.exec(shed)` for each event: the queries and the flag after it.
unfoldable pub exec_events :
    {D : Type 0} → List (Event (Action D)) → Scheduler D × Bool → Scheduler D × Bool
exec_events [] state = state
exec_events (ev ∷ events) (shed, running) = exec_events events (elim ev.exec [
  | add_queries queries ↦ (record shed { queries = shed.queries ++ queries }, running)
  | stop ↦ (shed, false)
])

-- How the program ends within a number of rounds.
pub data Outcome (D : Type 0) : Type 0 where
  finished : Engine D → Outcome D
  aborted : Outcome D
  unfinished : Outcome D

module _ (double : Double) where
  open double use {D, decimal}

  -- One round of the loop of `run`; `none` if the scheduler ends the program.
  unfoldable pub round : Engine D → Option (Engine D)
  unfolding exec_events
  round e =
      let (events, queue) = get_events e.model_time e.ev_queue in
      let (shed, running) = exec_events events (e.shed, e.running) in
      elim (Scheduler.run double shed e.model_time) [
        | none ↦ none
        | some (command_list, shed') ↦ some (record {
          shed = shed';
          command_processor =
              CommandProcessor.run double (append e.command_processor command_list) e.model_time;
          ev_queue = queue;
          model_time = add64 e.model_time time_step;
          running = running;
        })
      ]

  -- The loop, for at most so many rounds.
  unfoldable pub rounds : ℕ → Engine D → Outcome D
  unfolding round
  rounds zero e = unfinished
  rounds (suc fuel) e = elim e.running [
    | false ↦ finished e
    | true ↦ elim (round e) [ none ↦ aborted | some e' ↦ rounds fuel e' ]
  ]

  -- `run`
  unfoldable pub run_model : ℕ → Engine D → Outcome D
  unfolding rounds
  run_model fuel e = rounds fuel (record e { running = true })

  abbrev search_of : ℕ → D → D → Query D
  search_of id range rcs =
      new_query (decimal 0 0) search_query id (decimal 50 0) (decimal 1 0) 0 range rcs true

  abbrev confirm_of : ℕ → ℕ → D → D → Query D
  confirm_of time id range rcs =
      new_query (decimal 0 0) confirm id (decimal 100 0) (decimal 0 0) time range rcs true

  abbrev drop_of : ℕ → ℕ → Query D
  drop_of time id =
      new_query (decimal 0 0) drop id (decimal 10 0) (decimal 1 0) time (decimal 0 0) (decimal 0 0)
        true

  abbrev event : ℕ → Action D → Event (Action D)
  event time action = record { trigger_time = time; exec = action }

  abbrev pub start_queries : List (Query D)
  start_queries =
      search_of 1000 (decimal 2000000 0) (decimal 15 0)
      ∷ search_of 2000 (decimal 1000000 0) (decimal 50 0)
      ∷ search_of 3000 (decimal 2100000 0) (decimal 50 0)
      ∷ new_query (decimal 0 0) tech_control 100 (decimal 1 0) (decimal 1 0) 0 (decimal 0 0)
          (decimal 0 0) true
      ∷ []

  abbrev pub first_target : List (Query D)
  first_target = confirm_of 10000000 1001 (decimal 2000000 0) (decimal 15 0) ∷ []

  abbrev pub more_targets : List (Query D)
  more_targets =
      confirm_of 100000000 2001 (decimal 1000000 0) (decimal 50 0)
      ∷ confirm_of 100000000 3001 (decimal 1000000 0) (decimal 50 0)
      ∷ confirm_of 100000000 4001 (decimal 2100000 0) (decimal 50 0)
      ∷ []

  abbrev pub drop_queries : List (Query D)
  drop_queries =
      drop_of 1000000000 1003
      ∷ drop_of 1000000000 2003
      ∷ drop_of 1000000000 3003
      ∷ drop_of 1000000000 4003
      ∷ drop_of 1000000000 1000
      ∷ drop_of 1000000000 2000
      ∷ drop_of 1000000000 3000
      ∷ []

  -- The events in the order of the constructor.
  unfoldable pub start_events : EventQueue (Action D)
  unfolding add_event
  start_events = add_event (event 15000000000 stop) (
      add_event (event 1000000000 (add_queries drop_queries)) (
        add_event (event 100000000 (add_queries more_targets)) (
          add_event (event 10000000 (add_queries first_target))
            (add_event (event 0 (add_queries start_queries)) []))))

  -- The constructor.
  unfoldable pub new_engine : Engine D
  unfolding start_events
  new_engine = record {
    shed = new_scheduler;
    command_processor = new_processor;
    ev_queue = start_events;
    model_time = 0;
    running = false;
  }
