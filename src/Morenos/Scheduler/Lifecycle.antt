-- ===== src/Morenos/Scheduler/Lifecycle.antt =====
-- What becomes of the queries in a pass.
use radar_software.Prelude.{
  ℕ, ◌≡◌, refl, ap, sym, ◌∙◌, false, List, [], ◌∷◌, ◌++◌, map, inl, inr, Bool-cases, Option-cases,
  All, All-append, All-filter, Any, Any-imp, not, ◌==◌, Ensures,
}
use radar_software.Double.{Double}
use radar_software.Morenos.Query.{
  QueryType, search_query, confirm, capture, tracking, signal_change, tech_control, drop, Query,
}
use radar_software.Morenos.ScanPair.{ScanPair}
use radar_software.Morenos.Signals.Choice.{emits}
use radar_software.Morenos.Placement.{place_scan}
use radar_software.Morenos.Scheduler.{
  Scheduler, remove_query, remove_queries, any_command, refresh, order_queries, Pass, place_query,
  capture_of, tracking_of, execute, visit_all, start_pass, move_conveyors, run,
}
use radar_software.Morenos.Scheduler.Order.{All-order_queries}
use radar_software.Morenos.Scheduler.Passes.{Rule, removed, follow_up, visit_all_inv}

All-remove_queries :
    {D : Type 0} (P : Query D → Type 0) (queries : List (Query D)) (ids : List ℕ)
    → All P queries
    → All P (remove_queries queries ids)
unfolding remove_queries
All-remove_queries P queries [] a = a
All-remove_queries P queries (id ∷ ids) a =
    All-remove_queries P (remove_query queries id) ids
      (All-filter P (λ q. not (q.id == id)) queries a)

module _ (double : Double) (time : ℕ) where
  open double use {D}

  -- What a query `q` of the scheduler may be after a pass at `time`: the same one with its priority
  -- brought up to date, that one executed now, or its follow-up: capture after confirm, tracking
  -- after capture.
  pub data Evolves (q q' : Query D) : Type 0 where
    waits : q' ≡ refresh double time q → Evolves q q'
    executed : q' ≡ record (refresh double time q) { t_prev = time } → Evolves q q'
    captured : q.type ≡ confirm → q' ≡ capture_of double time q → Evolves q q'
    tracked : q.type ≡ capture → q' ≡ tracking_of double time q → Evolves q q'

  -- The query comes from one of `olds`.
  abbrev pub ComesFrom : List (Query D) → Query D → Type 0
  ComesFrom olds q' = Any (λ q. Evolves q q') olds

  -- It is one of `olds`, up to date.
  abbrev pub IsCurrent : List (Query D) → Query D → Type 0
  IsCurrent olds q' = Any (λ q. q' ≡ refresh double time q) olds

  module _ (olds : List (Query D)) where
    abbrev Kept : Pass double → Type 0
    Kept pass = All (ComesFrom olds) pass.visited × All (ComesFrom olds) pass.new_queries

    waiting : (q : Query D) → IsCurrent olds q → ComesFrom olds q
    waiting q now =
        Any-imp (λ old. q ≡ refresh double time old) (λ old. Evolves old q) olds (λ old e. waits e)
          now

    executing : (q : Query D) → IsCurrent olds q → ComesFrom olds (record q { t_prev = time })
    executing q now =
        Any-imp (λ old. q ≡ refresh double time old)
          (λ old. Evolves old (record q { t_prev = time })) olds
          (λ old e. executed (ap (λ (x : Query D). record x { t_prev = time }) e)) now

    following :
        (q : Query D) (type : QueryType)
        → IsCurrent olds q
        → q.type ≡ type
        → All (ComesFrom olds) (follow_up double time type q)
    following q search_query now e = tt
    following q confirm now e = (
      Any-imp (λ old. q ≡ refresh double time old) (λ old. Evolves old (capture_of double time q))
          olds
          (λ old same.
            captured (sym (ap (λ (x : Query D). x.type) same) ∙ e)
              (ap (capture_of double time) same))
          now,
      tt,
    )
    following q capture now e = (
      Any-imp (λ old. q ≡ refresh double time old) (λ old. Evolves old (tracking_of double time q))
          olds
          (λ old same.
            tracked (sym (ap (λ (x : Query D). x.type) same) ∙ e)
              (ap (tracking_of double time) same))
          now,
      tt,
    )
    following q tracking now e = tt
    following q signal_change now e = tt
    following q tech_control now e = tt
    following q drop now e = tt

    visited_more :
        (pass : Pass double) (q' : Query D)
        → ComesFrom olds q'
        → Kept pass
        → All (ComesFrom olds) (pass.visited ++ (q' ∷ []))
    visited_more pass q' from k = All-append (ComesFrom olds) pass.visited (q' ∷ []) k.0 (from, tt)

    place_query-Kept :
        (pass : Pass double) (q : Query D) (scan_pair : ScanPair) (type : QueryType)
        → IsCurrent olds q
        → q.type ≡ type
        → Kept pass
        → Kept (
            place_query double time pass q scan_pair
              (removed double time type q)
              (follow_up double time type q))
    unfolding place_query
    place_query-Kept pass q scan_pair type now e k =
        elim (Bool-cases (any_command (place_scan pass.conveyors scan_pair q.id).0)) [
          | inl placed ↦
              rw (placed, place_query)
                (
                  visited_more pass (record q { t_prev = time }) (executing q now) k,
                  All-append (ComesFrom olds) pass.new_queries (follow_up double time type q) k.1
                      (following q type now e),
                )
          | inr refused ↦ rw (refused, place_query) (visited_more pass q (waiting q now) k, k.1)
        ]

    execute-Kept :
        (pass : Pass double) (q : Query D) (type : QueryType)
        → IsCurrent olds q
        → emits type ≡ false
        → Kept pass
        → Ensures (execute double time pass q type) Kept
    unfolding execute
    execute-Kept pass q drop now e k = (visited_more pass q (waiting q now) k, k.1)
    execute-Kept pass q signal_change now e k = (visited_more pass q (waiting q now) k, k.1)
    execute-Kept pass q tech_control now e k =
        (visited_more pass (record q { t_prev = time }) (executing q now) k, k.1)
    execute-Kept pass q search_query now e k = cc
    execute-Kept pass q confirm now e k = cc
    execute-Kept pass q capture now e k = cc
    execute-Kept pass q tracking now e k = cc

    Kept-rule : Rule double time Kept (IsCurrent olds)
    Kept-rule = record {
      skips = λ pass q now k. (visited_more pass q (waiting q now) k, k.1);
      places = place_query-Kept;
      executes = execute-Kept;
    }

  pub All-IsCurrent :
      (olds queries : List (Query D))
      → ((q : Query D) → Any (λ old. q ≡ old) queries → Any (λ old. q ≡ old) olds)
      → All (IsCurrent olds) (map (refresh double time) queries)
  All-IsCurrent olds [] h = tt
  All-IsCurrent olds (q ∷ queries) h = (
    Any-imp (λ old. q ≡ old) (λ old. refresh double time q ≡ refresh double time old) olds
        (λ old same. ap (refresh double time) same) (h q (inl refl)),
    All-IsCurrent olds queries (λ other m. h other (inr m)),
  )

-- Each query after a pass that gives a result comes from a query before it: it is that query with
-- its priority brought up to date, that query executed now, or the follow-up of that query, which
-- is capture for confirm, tracking for capture, and of no other type.
pub run-ComesFrom :
    (double : Double) (s : Scheduler double.D) (time : ℕ)
    → Ensures (run double s time) (λ (_, s'). All (ComesFrom double time s.queries) s'.queries)
unfolding run
run-ComesFrom double s time = elim (Option-cases (visit_all double time start ordered)) [
  | inl e ↦ rw (e, run) tt
  | inr (pass, e) ↦
      rw (e, run)
        (let kept : All from pass.visited × All from pass.new_queries = rw e at (
            visit_all_inv double time _ (IsCurrent double time s.queries)
              (Kept-rule double time s.queries) start ordered
              (All-order_queries double (IsCurrent double time s.queries) time s.queries
                (All-IsCurrent double time s.queries s.queries (λ q m. m)))
              (tt, tt)) in
          All-append from (remove_queries pass.visited pass.removed_id) pass.new_queries
            (All-remove_queries from pass.visited pass.removed_id kept.0) kept.1)
]
  where
    start : Pass double
    start = start_pass double (move_conveyors s.conveyors time)

    ordered : List (Query double.D)
    ordered = order_queries double time s.queries

    from : Query double.D → Type 0
    from = ComesFrom double time s.queries
