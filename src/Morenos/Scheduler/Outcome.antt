-- ===== src/Morenos/Scheduler/Outcome.antt =====
-- What one visit of a query in a pass of the scheduler comes to: what becomes of the query, and what
-- the pass gets of commands, removed ids and new queries.
use mathlib.Core.Path.{subst}
use radar_software.Prelude.{
  ℕ, ◌≡◌, refl, ◌==◌, Bool, true, false, ◌&&◌, List, [], ◌∷◌, ◌++◌, ◌⊎◌, inl, inr, Option, add64,
  mul32, ◌+◌, Bool-cases, Option-cases, All, Any, add32, none, some, sub64,
}
use radar_software.Double.{Double}
use radar_software.Morenos.Settings.{reserve_time, frequency_factor, time_chunk_length, phase_delay}
use radar_software.Morenos.Utility.{multiples_of64}
use radar_software.Morenos.Query.{
  QueryType, search_query, confirm, capture, tracking, signal_change, tech_control, drop, Query,
  new_query,
}
use radar_software.Morenos.ControlCommand.{ControlCommand, is_nop, nop_command}
use radar_software.Morenos.ScanPair.{ScanPair}
use radar_software.Morenos.Signals.Choice.{emits}
use radar_software.Morenos.Placement.{
  Conveyors, label_scan, place_scan, scan_commands, scan_plan, find_index, ScanPlan,
}
use radar_software.Morenos.Scheduler.{any_command, Pass}

-- A command that is not nop is planned for the query with this id.
abbrev pub IsPlanned : List ControlCommand → ℕ → Type 0
IsPlanned ret id = Any (λ c. (is_nop c.type ≡ false) × (c.query_id ≡ id)) ret

-- A nop command says that no place was found for a query.
abbrev pub HasRefusal : List ControlCommand → Type 0
HasRefusal ret = Any (λ c. is_nop c.type ≡ true) ret

-- The query types whose query stays when it was executed.
abbrev pub repeats : QueryType → Bool
repeats search_query = true
repeats tracking = true
repeats tech_control = true
repeats _ = false

-- What the commands of a scan say: they are planned for the query, or they hold a refusal.
abbrev pub Says : ℕ → Bool → List ControlCommand → Type 0
Says id true commands = IsPlanned commands id
Says id false commands = HasRefusal commands

scan_commands-Says :
    (c : Conveyors) (scan_pair : ScanPair) (idx offset transmit_len receive_len id : ℕ)
    → let commands = scan_commands c scan_pair idx offset transmit_len receive_len id in
      Says id (any_command commands) commands
unfolding scan_commands any_command
scan_commands-Says c scan_pair idx offset transmit_len receive_len id =
    elim (Bool-cases
      (sub64 receive transmit == multiples_of64 scan_pair.receive_time frequency_factor)) [
        | inl e ↦ rw (e, Says) (inl (refl, refl))
        | inr e ↦ rw (e, Says) (inl refl)
      ]
  where
    transmit : ℕ
    transmit = add64 (add64 c.dcu_timeline.start_time (mul32 idx time_chunk_length)) phase_delay

    receive : ℕ
    receive = add64 (add64 transmit (offset + reserve_time)) phase_delay

pub place_scan-Says :
    (c : Conveyors) (scan_pair : ScanPair) (id : ℕ)
    → Says id (any_command (place_scan c scan_pair id).0) (place_scan c scan_pair id).0
unfolding place_scan any_command
place_scan-Says c scan_pair id =
    elim (Option-cases
      (find_index c plan.transmit_len plan.receive_len plan.range_offset_len plan.depth)) [
        | inl e ↦ subst says (none_found e) (inl refl)
        | inr (idx, e) ↦ subst says (found idx e) (
            scan_commands-Says c scan_pair idx plan.range_offset_len plan.transmit_len
              plan.receive_len id)
      ]
  where
    plan : ScanPlan
    plan = scan_plan scan_pair

    says : List ControlCommand × Conveyors → Type 0
    says r = Says id (any_command r.0) r.0

    place : Option ℕ
    place = find_index c plan.transmit_len plan.receive_len plan.range_offset_len plan.depth

    none_found : place ≡ none → (nop_command ∷ [], c) ≡ place_scan c scan_pair id
    none_found e = rw (e, place_scan) refl

    found :
        (idx : ℕ)
        → place ≡ some idx
        → (
          scan_commands c scan_pair idx plan.range_offset_len plan.transmit_len plan.receive_len id,
          label_scan c scan_pair idx plan.range_offset_len plan.period_time,
        )
          ≡ place_scan c scan_pair id
    found idx e = rw (e, place_scan) refl

module _ (double : Double) (time : ℕ) where
  open double use {D, le, decimal}

  abbrev pub is_ready : Query D → Bool
  is_ready q = q.active && le q.p_threshold q.p_value

  -- A query stays as it is: it is not due, or nothing is done for its type, or it found no place.
  abbrev pub IsIdle : List ControlCommand → Query D → Type 0
  IsIdle ret q =
      (is_ready q ≡ false) ⊎ ((q.type ≡ signal_change) ⊎ ((emits q.type ≡ true) × HasRefusal ret))

  -- A query is executed and stays: it is due, of a type that repeats, and its commands are planned.
  abbrev pub IsDone : List ControlCommand → Query D → Type 0
  IsDone ret q = (is_ready q ≡ true) × (repeats q.type ≡ true) × IsPlanned ret q.id

  -- The follow-up: a capture query after confirm and a tracking query after capture, with the next id.
  abbrev pub Follows : Query D → Query D → Type 0
  Follows q next =
      ((q.type ≡ confirm)
        × (next
            ≡ new_query (decimal 0 0) capture (add32 q.id 1) (decimal 100 0) (decimal 0 0) time
                q.range q.rcs true))
      ⊎ ((q.type ≡ capture)
          × (next
              ≡ new_query (decimal 0 0) tracking (add32 q.id 1) (decimal 10 0) (decimal 1 0) time
                  q.range q.rcs true))

  -- What a query may be after the pass, when it was not removed.
  abbrev pub Stays : List ControlCommand → Query D → Query D → Type 0
  Stays ret q q' = (IsIdle ret q × (q' ≡ q)) ⊎ (IsDone ret q × (q' ≡ record q { t_prev = time }))

  -- The query is due, its commands are planned, and this is its follow-up.
  abbrev pub TurnsInto : List ControlCommand → Query D → Query D → Type 0
  TurnsInto ret q next = (is_ready q ≡ true) × IsPlanned ret q.id × Follows q next

  -- The query is removed: it is due, and a drop query, or one whose follow-up is among `next`.
  abbrev pub Leaves : List ControlCommand → List (Query D) → Query D → Type 0
  Leaves ret next q = ((is_ready q ≡ true) × (q.type ≡ drop)) ⊎ Any (TurnsInto ret q) next

  -- What a visit of `q` adds to the pass.
  pub record Step (q : Query D) (pass pass' : Pass double) : Type 0 where
    pub left : Query D
    pub ids : List ℕ
    pub more : List ControlCommand
    pub next : List (Query D)
    pub visits : pass'.visited ≡ pass.visited ++ (left ∷ [])
    pub removal : pass'.removed_id ≡ pass.removed_id ++ ids
    pub plans : pass'.ret ≡ pass.ret ++ more
    pub adds : pass'.new_queries ≡ pass.new_queries ++ next
    pub kept : Stays more q left ⊎ (Any (λ id. id ≡ left.id) ids × Leaves more next q)
    pub only : All (λ id. (id ≡ q.id) × Leaves more next q) ids
    pub follow : All (TurnsInto more q) next
