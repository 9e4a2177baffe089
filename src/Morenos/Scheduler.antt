-- ===== src/Morenos/Scheduler.antt =====
-- `class Scheduler` of Morenos/Scheduler_Model — копия/Scheduler.{h,cpp}: the queries, and one pass of
-- planning over them. A query is shared by pointer between the two lists of the source; each list is
-- filled anew in a pass before it is read, so values give the same contents. `none` is a program that
-- an exception or a failed assert of `build_scan_pair` ends.
pub mod Order
pub mod Passes
pub mod Outcome
pub mod Visits
pub mod Removal
pub mod Lifecycle
pub mod Sweep
pub mod Kept
pub mod Commands
pub mod Total
use radar_software.Prelude.{
  ℕ, ◌+◌, Bool, true, false, not, ◌||◌, ◌&&◌, Option, none, some, List, [], ◌∷◌, ◌++◌, map, ◌==◌,
  if◌then◌else◌, add32, sub64, filter,
}
use radar_software.Double.{Double}
use radar_software.Morenos.Settings.{reserve_time}
use radar_software.Morenos.Query.{
  QueryType, search_query, confirm, capture, tracking, signal_change, tech_control, drop, Query,
  new_query,
}
use radar_software.Morenos.ControlCommand.{ct_tech_command, ControlCommand, command, is_nop}
use radar_software.Morenos.ModelState.{ModelState}
use radar_software.Morenos.Timeline.{move_timeline}
use radar_software.Morenos.ScanPair.{ScanPair}
use radar_software.Morenos.Signals.{build_scan_pair}
use radar_software.Morenos.Placement.{Conveyors, new_conveyors, place_scan}

pub record Scheduler (D : Type 0) : Type 0 where
  pub conveyors : Conveyors
  pub queries : List (Query D)
  pub processed_queries : List (Query D)

abbrev pub new_scheduler : {D : Type 0} → Scheduler D
new_scheduler = record { conveyors = new_conveyors; queries = []; processed_queries = [] }

-- `move_timeline` of the three timelines.
abbrev pub move_conveyors : Conveyors → ℕ → Conveyors
move_conveyors c time = record {
  dcu_timeline = move_timeline c.dcu_timeline time;
  tr_au_timeline = move_timeline c.tr_au_timeline time;
  rs_au_timeline = move_timeline c.rs_au_timeline time;
}

-- `remove_query`, on the list.
unfoldable pub remove_query : {D : Type 0} → List (Query D) → ℕ → List (Query D)
remove_query queries id = filter (λ q. not (q.id == id)) queries

unfoldable pub remove_queries : {D : Type 0} → List (Query D) → List ℕ → List (Query D)
unfolding remove_query
remove_queries queries [] = queries
remove_queries queries (id ∷ ids) = remove_queries (remove_query queries id) ids

-- Whether one of the commands is not nop: the scan was placed.
unfoldable pub any_command : List ControlCommand → Bool
any_command [] = false
any_command (c ∷ commands) = not (is_nop c.type) || any_command commands

-- `get_statistics`
abbrev pub get_statistics : {D : Type 0} → Scheduler D → ModelState D → ModelState D
get_statistics s state = record state {
  active_queries = state.active_queries ++ s.queries;
  processed_queries = state.processed_queries ++ s.processed_queries;
}

module _ (double : Double) where
  open double use {D, mul, lt, le, decimal, from_u64}

  -- The dynamic priority at a time.
  abbrev pub priority : ℕ → Query D → D
  priority time q = mul (mul q.k (from_u64 (sub64 time q.t_prev))) (decimal 1 9)

  abbrev pub refresh : ℕ → Query D → Query D
  refresh time q = record q { p_value = priority time q }

  -- `std::sort` by falling priority: each query is put before the first one of a lower priority. The
  -- standard leaves the order of equal priorities open; here it is the old one.
  unfoldable pub insert : Query D → List (Query D) → List (Query D)
  insert q [] = q ∷ []
  insert q (other ∷ queries) =
      if lt other.p_value q.p_value then q ∷ other ∷ queries else other ∷ insert q queries

  unfoldable pub sort_from : List (Query D) → List (Query D) → List (Query D)
  unfolding insert
  sort_from sorted [] = sorted
  sort_from sorted (q ∷ queries) = sort_from (insert q sorted) queries

  -- The comparison of `sort` brings the priorities of both sides up to date; with two queries or more
  -- every one of them is compared.
  unfoldable pub order_queries : ℕ → List (Query D) → List (Query D)
  unfolding sort_from
  order_queries time (q ∷ []) = refresh time q ∷ []
  order_queries time queries = sort_from [] (map (refresh time) queries)

  -- What a pass has done so far.
  pub record Pass : Type 0 where
    pub conveyors : Conveyors
    pub ret : List ControlCommand
    pub removed_id : List ℕ
    pub new_queries : List (Query D)
    pub visited : List (Query D)
    pub processed : List (Query D)

  -- A scan pair of the query is placed; if it was placed, the query is executed, and `removed` and
  -- `follow_up` are added.
  unfoldable pub place_query : ℕ → Pass → Query D → ScanPair → List ℕ → List (Query D) → Pass
  unfolding any_command
  place_query time pass q scan_pair removed follow_up =
      let (commands, conveyors) = place_scan pass.conveyors scan_pair q.id in
      let q' = record q { t_prev = time } in
      if any_command commands
      then record {
        conveyors = conveyors;
        ret = pass.ret ++ commands;
        removed_id = pass.removed_id ++ removed;
        new_queries = pass.new_queries ++ follow_up;
        visited = pass.visited ++ (q' ∷ []);
        processed = pass.processed ++ (q' ∷ []);
      }
      else record pass {
        conveyors = conveyors;
        ret = pass.ret ++ commands;
        visited = pass.visited ++ (q ∷ []);
      }

  -- A case that emits.
  unfoldable pub scan_case : ℕ → Pass → Query D → List ℕ → List (Query D) → Option Pass
  unfolding place_query
  scan_case time pass q removed follow_up = elim (build_scan_pair double q.range q.rcs q.type) [
    | none ↦ none
    | some scan_pair ↦ some (place_query time pass q scan_pair removed follow_up)
  ]

  -- The query that a placed confirm or capture query turns into.
  abbrev pub capture_of : ℕ → Query D → Query D
  capture_of time q =
      new_query (decimal 0 0) capture (add32 q.id 1) (decimal 100 0) (decimal 0 0) time q.range
        q.rcs true

  abbrev pub tracking_of : ℕ → Query D → Query D
  tracking_of time q =
      new_query (decimal 0 0) tracking (add32 q.id 1) (decimal 10 0) (decimal 1 0) time q.range
        q.rcs true

  abbrev pub skip : Pass → Query D → Pass
  skip pass q = record pass { visited = pass.visited ++ (q ∷ []) }

  -- The `switch` on the type of a query that is due.
  unfoldable pub execute : ℕ → Pass → Query D → QueryType → Option Pass
  unfolding scan_case
  execute time pass q search_query = scan_case time pass q [] []
  execute time pass q confirm = scan_case time pass q (q.id ∷ []) (capture_of time q ∷ [])
  execute time pass q capture = scan_case time pass q (q.id ∷ []) (tracking_of time q ∷ [])
  execute time pass q tracking = scan_case time pass q [] []
  execute time pass q drop = some (record pass {
    removed_id = pass.removed_id ++ (q.id ∷ []);
    visited = pass.visited ++ (q ∷ []);
  })
  execute time pass q tech_control = some (record pass {
    ret = pass.ret ++ (command ct_tech_command (sub64 time reserve_time) time 0 q.id ∷ []);
    visited = pass.visited ++ (record q { t_prev = time } ∷ []);
  })
  execute time pass q signal_change = some (skip pass q)

  -- One round of the loop over the queries.
  unfoldable pub visit : ℕ → Pass → Query D → Option Pass
  unfolding execute
  visit time pass q =
      if q.active && le q.p_threshold q.p_value
      then execute time pass q q.type
      else some (skip pass q)

  unfoldable pub visit_all : ℕ → Pass → List (Query D) → Option Pass
  unfolding visit
  visit_all time pass [] = some pass
  visit_all time pass (q ∷ queries) = elim (visit time pass q) [
    | none ↦ none
    | some pass' ↦ visit_all time pass' queries
  ]

  abbrev pub start_pass : Conveyors → Pass
  start_pass conveyors = record {
    conveyors = conveyors;
    ret = [];
    removed_id = [];
    new_queries = [];
    visited = [];
    processed = [];
  }

  abbrev pub finish_pass : Pass → List ControlCommand × Scheduler D
  finish_pass pass = (
    pass.ret,
    record {
      conveyors = pass.conveyors;
      queries = remove_queries pass.visited pass.removed_id ++ pass.new_queries;
      processed_queries = pass.processed;
    },
  )

  unfoldable pub run : Scheduler D → ℕ → Option (List ControlCommand × Scheduler D)
  unfolding visit_all order_queries
  run s time =
      elim (visit_all time (start_pass (move_conveyors s.conveyors time))
        (order_queries time s.queries)) [ none ↦ none | some pass ↦ some (finish_pass pass) ]
