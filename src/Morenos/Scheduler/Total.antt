-- ===== src/Morenos/Scheduler/Total.antt =====
-- Passes over queries with a signal of positive duration.
use radar_software.Prelude.{
  ℕ, ◌≡◌, refl, ap, true, false, ◌&&◌, some, List, [], ◌∷◌, map, ◌⊎◌, inl, inr, Bool-cases, All,
}
use radar_software.Double.{Double}
use radar_software.Morenos.Query.{
  QueryType, search_query, confirm, capture, tracking, signal_change, tech_control, drop, Query,
}
use radar_software.Morenos.ControlCommand.{ControlCommand}
use radar_software.Morenos.Signals.{scan_duration}
use radar_software.Morenos.Signals.Choice.{emits}
use radar_software.Morenos.Signals.Returns.{Gives, build_scan_pair-Gives}
use radar_software.Morenos.Scheduler.{
  Scheduler, refresh, order_queries, Pass, scan_case, execute, visit, visit_all, start_pass,
  finish_pass, move_conveyors, run,
}
use radar_software.Morenos.Scheduler.Order.{All-order_queries}
use radar_software.Morenos.Scheduler.Lifecycle.{
  Evolves, waits, executed, captured, tracked, ComesFrom, run-ComesFrom,
}

-- The computed duration for a range and a cross-section is positive.
abbrev pub IsPositive : (double : Double) → double.D → double.D → Type 0
IsPositive double range rcs = double.lt (double.decimal 0 0) (scan_duration double range rcs) ≡ true

module _ (double : Double) where
  open double use {D, le}

  -- The query emits nothing, or a signal of positive duration.
  abbrev pub IsPlannable : Query D → Type 0
  IsPlannable q = (emits q.type ≡ false) ⊎ IsPositive double q.range q.rcs

  module _ (time : ℕ) where
    Evolves-IsPlannable :
        (q q' : Query D) → IsPlannable q → Evolves double time q q' → IsPlannable q'
    Evolves-IsPlannable q q' p (waits e) = rw e p
    Evolves-IsPlannable q q' p (executed e) = rw e p
    Evolves-IsPlannable q q' (inr positive) (captured t e) = rw e (inr positive)
    Evolves-IsPlannable q q' (inr positive) (tracked t e) = rw e (inr positive)
    Evolves-IsPlannable q q' (inl silent) (captured t e) = absurd (loud t silent)
      where
        loud : q.type ≡ confirm → emits q.type ≡ false → ⊥
        loud t' s = cc (ap emits t')
    Evolves-IsPlannable q q' (inl silent) (tracked t e) = absurd (loud t silent)
      where
        loud : q.type ≡ capture → emits q.type ≡ false → ⊥
        loud t' s = cc (ap emits t')

    ComesFrom-IsPlannable :
        (olds : List (Query D)) (q' : Query D)
        → All IsPlannable olds
        → ComesFrom double time olds q'
        → IsPlannable q'
    ComesFrom-IsPlannable [] q' a from = absurd from
    ComesFrom-IsPlannable (q ∷ olds) q' a (inl e) = Evolves-IsPlannable q q' a.0 e
    ComesFrom-IsPlannable (q ∷ olds) q' a (inr from) = ComesFrom-IsPlannable olds q' a.1 from

    All-ComesFrom-IsPlannable :
        (olds queries : List (Query D))
        → All IsPlannable olds
        → All (ComesFrom double time olds) queries
        → All IsPlannable queries
    All-ComesFrom-IsPlannable olds [] a from = tt
    All-ComesFrom-IsPlannable olds (q ∷ queries) a from =
        (ComesFrom-IsPlannable olds q a from.0, All-ComesFrom-IsPlannable olds queries a from.1)

    scan_case-Gives :
        (pass : Pass double) (q : Query D) (ids : List ℕ) (next : List (Query D))
        → IsPositive double q.range q.rcs
        → Gives (scan_case double time pass q ids next)
    unfolding scan_case
    scan_case-Gives pass q ids next positive =
        let (scan_pair, e) = build_scan_pair-Gives double q.range q.rcs q.type positive in
        rw (e, scan_case) (_, refl)

    execute-Gives :
        (pass : Pass double) (q : Query D) (type : QueryType)
        → (emits type ≡ false) ⊎ IsPositive double q.range q.rcs
        → Gives (execute double time pass q type)
    unfolding execute
    execute-Gives pass q search_query (inl s) = cc
    execute-Gives pass q confirm (inl s) = cc
    execute-Gives pass q capture (inl s) = cc
    execute-Gives pass q tracking (inl s) = cc
    execute-Gives pass q search_query (inr p) = scan_case-Gives pass q _ _ p
    execute-Gives pass q confirm (inr p) = scan_case-Gives pass q _ _ p
    execute-Gives pass q capture (inr p) = scan_case-Gives pass q _ _ p
    execute-Gives pass q tracking (inr p) = scan_case-Gives pass q _ _ p
    execute-Gives pass q signal_change p = (_, refl)
    execute-Gives pass q tech_control p = (_, refl)
    execute-Gives pass q drop p = (_, refl)

    visit-Gives :
        (pass : Pass double) (q : Query D) → IsPlannable q → Gives (visit double time pass q)
    unfolding visit
    visit-Gives pass q p = elim (Bool-cases (q.active && le q.p_threshold q.p_value)) [
      | inl e ↦ rw (e, visit) (execute-Gives pass q q.type p)
      | inr e ↦ rw (e, visit) (_, refl)
    ]

    visit_all-Gives :
        (pass : Pass double) (queries : List (Query D))
        → All IsPlannable queries
        → Gives (visit_all double time pass queries)
    unfolding visit_all
    visit_all-Gives pass [] a = (pass, refl)
    visit_all-Gives pass (q ∷ queries) a =
        let (pass', e) = visit-Gives pass q a.0 in
        rw (e, visit_all) (visit_all-Gives pass' queries a.1)

    All-refreshed :
        (queries : List (Query D))
        → All IsPlannable queries
        → All IsPlannable (map (refresh double time) queries)
    All-refreshed [] a = tt
    All-refreshed (q ∷ queries) a = (a.0, All-refreshed queries a.1)

-- A pass over plannable queries gives commands and a scheduler, whose queries are plannable again.
pub run-Gives :
    (double : Double) (s : Scheduler double.D) (time : ℕ)
    → All (IsPlannable double) s.queries
    → (r : List ControlCommand × Scheduler double.D) × (run double s time ≡ some r)
      × All (IsPlannable double) r.1.queries
unfolding run
run-Gives double s time a =
    let (pass, e) =
      visit_all-Gives double time (start_pass double (move_conveyors s.conveyors time))
        (order_queries double time s.queries)
        (All-order_queries double (IsPlannable double) time s.queries
          (All-refreshed double time s.queries a)) in
    let done : run double s time ≡ some (finish_pass double pass) = rw (e, run) in
    (
      finish_pass double pass,
      done,
      All-ComesFrom-IsPlannable double time s.queries (finish_pass double pass).1.queries a
          (rw done at (run-ComesFrom double s time)),
    )
