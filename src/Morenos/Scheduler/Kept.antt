-- ===== src/Morenos/Scheduler/Kept.antt =====
-- What becomes of the queries in a pass, from before it to after it and back.
use mathlib.Core.Path.{subst}
use radar_software.Prelude.{
  ℕ, ◌≡◌, ap, sym, ◌∙◌, List, [], ◌∷◌, ◌++◌, map, ◌⊎◌, inl, inr, Option-cases, All, All-imp,
  All-append, Any, Any-imp, Any-append, Any-All, Ensures,
}
use radar_software.Double.{Double}
use radar_software.Morenos.ControlCommand.{ControlCommand}
use radar_software.Morenos.Query.{Query}
use radar_software.Morenos.Scheduler.{
  Scheduler, remove_queries, refresh, order_queries, Pass, visit_all, start_pass, move_conveyors,
  run,
}
use radar_software.Morenos.Scheduler.Order.{All-order_queries, All-order_queries_back}
use radar_software.Morenos.Scheduler.Lifecycle.{IsCurrent, All-IsCurrent}
use radar_software.Morenos.Scheduler.Outcome.{Stays, TurnsInto, Leaves}
use radar_software.Morenos.Scheduler.Sweep.{Sweep, visit_all-Sweep, Any-append_right}
use radar_software.Morenos.Scheduler.Removal.{remove_queries-keeps, All-remove_queries, All-imp_in}

module _ (double : Double) (time : ℕ) where
  open double use {D}

  -- A query of the pass is one of the scheduler, up to date.
  Any-olds :
      (P : Query D → Type 0) (olds ordered : List (Query D))
      → All (IsCurrent double time olds) ordered
      → Any P ordered
      → Any (λ old. P (refresh double time old)) olds
  Any-olds P olds ordered current a =
      Any-All P (IsCurrent double time olds) ordered
        (λ q p now. Any-imp _ _ olds (λ old e. subst P e p) now) a current

  -- What becomes of a query: up to date, it is there after the pass, as `Stays` says, or a query of the
  -- scheduler with its id leaves.
  abbrev pub IsKept :
      (olds : List (Query D)) → List ControlCommand → (after : List (Query D)) → Query D → Type 0
  IsKept olds ret after q =
      Any (Stays double time ret (refresh double time q)) after
      ⊎ Any (λ old. (old.id ≡ q.id) × Leaves double time ret after (refresh double time old)) olds

  -- Where a query after the pass comes from.
  abbrev pub IsFrom : (olds : List (Query D)) → List ControlCommand → Query D → Type 0
  IsFrom olds ret q' =
      Any
        (λ old.
          Stays double time ret (refresh double time old) q'
          ⊎ TurnsInto double time ret (refresh double time old) q')
        olds

  map-All :
      (P : Query D → Type 0) (queries : List (Query D))
      → All P (map (refresh double time) queries)
      → All (λ q. P (refresh double time q)) queries
  map-All P [] a = tt
  map-All P (q ∷ queries) a = (a.0, map-All P queries a.1)

  Stays-id :
      (ret : List ControlCommand) (q q' : Query D) → Stays double time ret q q' → q'.id ≡ q.id
  Stays-id ret q q' (inl (_, e)) = ap (λ (x : Query D). x.id) e
  Stays-id ret q q' (inr (_, e)) = ap (λ (x : Query D). x.id) e

  module _ (s : Scheduler D) (pass : Pass double)
      (sweep : Sweep double time
        (order_queries double time s.queries)
        (start_pass double (move_conveyors s.conveyors time))
        pass) where
    abbrev after : List (Query D)
    after = remove_queries pass.visited pass.removed_id ++ pass.new_queries

    current : All (IsCurrent double time s.queries) (order_queries double time s.queries)
    current =
        All-order_queries double (IsCurrent double time s.queries) time s.queries
          (All-IsCurrent double time s.queries s.queries (λ q m. m))

    after-Leaves :
        (q : Query D)
        → Leaves double time sweep.more sweep.next q
        → Leaves double time pass.ret after q
    after-Leaves q (inl dropped) = inl dropped
    after-Leaves q (inr turns) = rw sweep.plans (
        inr (
          Any-append_right _ (remove_queries pass.visited pass.removed_id) pass.new_queries
            (rw sweep.adds turns)))

    removed_by :
        (n : ℕ)
        → Any (λ id. id ≡ n) sweep.gone
        → Any
            (λ old. (old.id ≡ n) × Leaves double time pass.ret after (refresh double time old))
            s.queries
    removed_by n a =
        Any-olds (λ q. (q.id ≡ n) × Leaves double time pass.ret after q) s.queries
          (order_queries double time s.queries) current
          (Any-All _ _ sweep.gone
            (λ id same from.
              Any-imp _ _ (order_queries double time s.queries)
                (λ q k. (sym k.0 ∙ same, after-Leaves q k.1)) from)
            a sweep.only)

    kept_one :
        (q : Query D)
        → Any (Stays double time sweep.more (refresh double time q)) sweep.rest
          ⊎ Leaves double time sweep.more sweep.next (refresh double time q)
        → Any (Stays double time pass.ret (refresh double time q)) after
          ⊎ (Any (λ id. id ≡ q.id) sweep.gone
              ⊎ Leaves double time pass.ret after (refresh double time q))
    kept_one q (inr leaves) = inr (inr (after-Leaves (refresh double time q) leaves))
    kept_one q (inl here) =
        elim (remove_queries-keeps (Stays double time pass.ret (refresh double time q)) q.id
          pass.visited pass.removed_id (Stays-id pass.ret (refresh double time q))
          (rw (sweep.plans, sweep.visits) here)) [
            | inl kept ↦
                inl
                  (Any-append _ (remove_queries pass.visited pass.removed_id) pass.new_queries kept)
            | inr gone ↦ inr (inl (rw sweep.removal at gone))
          ]

    finish-IsFrom : All (IsFrom s.queries pass.ret) after
    finish-IsFrom =
        All-append _ (remove_queries pass.visited pass.removed_id) pass.new_queries
          (All-remove_queries (IsFrom s.queries pass.ret) pass.visited pass.removed_id (
            rw (sweep.plans, sweep.visits, sweep.removal)
              (All-imp _ _ sweep.rest
                (λ q' k. elim k [
                  | inl a ↦ inl (
                      Any-olds
                        (λ q.
                          Stays double time sweep.more q q' ⊎ TurnsInto double time sweep.more q q')
                        s.queries (order_queries double time s.queries) current
                        (Any-imp _ _ (order_queries double time s.queries) (λ q st. inl st) a))
                  | inr a ↦ inr a
                ])
                sweep.back)))
          (rw (sweep.plans, sweep.adds)
            (All-imp _ _ sweep.next
              (λ q' a.
                Any-olds
                  (λ q. Stays double time sweep.more q q' ⊎ TurnsInto double time sweep.more q q')
                  s.queries (order_queries double time s.queries) current
                  (Any-imp _ _ (order_queries double time s.queries) (λ q t. inr t) a))
              sweep.follow))

    finish-IsKept : All (IsKept s.queries pass.ret after) s.queries
    finish-IsKept =
        All-imp_in _ (IsKept s.queries pass.ret after) s.queries
          (λ q here k. elim (kept_one q k) [
            | inl stays ↦ inl stays
            | inr (inl gone) ↦ inr (removed_by q.id gone)
            | inr (inr leaves) ↦ inr (
                Any-imp _ _ s.queries
                  (λ old same. (
                    ap (λ (x : Query D). x.id) same,
                    subst (λ x. Leaves double time pass.ret after (refresh double time x))
                        (sym same) leaves,
                  ))
                  here)
          ])
          (map-All _ s.queries (
            All-order_queries_back double
              (λ q.
                Any (Stays double time sweep.more q) sweep.rest
                ⊎ Leaves double time sweep.more sweep.next q)
              time s.queries sweep.onward))

-- A property of what a pass gives, shown of its sweep.
on_run :
    (double : Double) (s : Scheduler double.D) (time : ℕ)
    (P : List ControlCommand → List (Query double.D) → Type 0)
    → ((pass : Pass double)
        → Sweep double time
            (order_queries double time s.queries)
            (start_pass double (move_conveyors s.conveyors time))
            pass
        → P pass.ret (remove_queries pass.visited pass.removed_id ++ pass.new_queries))
    → Ensures (run double s time) (λ (ret, s'). P ret s'.queries)
unfolding run
on_run double s time P h = elim (Option-cases (visit_all double time start ordered)) [
  | inl e ↦ rw (e, run) tt
  | inr (pass, e) ↦ rw (e, run) (h pass (rw e at (visit_all-Sweep double time start ordered)))
]
  where
    start : Pass double
    start = start_pass double (move_conveyors s.conveyors time)

    ordered : List (Query double.D)
    ordered = order_queries double time s.queries

-- No query is lost in a pass that gives a result, for each query before it and by its priority at the
-- time of the pass. Either it is there afterwards: as it was, when it was not due, or is of the type
-- signal_change, or emits and a nop command of the pass tells of a refusal; or executed now, when it was
-- due, is of the type search, tracking or tech_control, and a command that is not nop is planned for
-- it. Or a query with its id leaves, which was due: a drop query, or a confirm or capture query that a
-- command which is not nop is planned for and whose follow-up is there after the pass.
pub run-IsKept :
    (double : Double) (s : Scheduler double.D) (time : ℕ)
    → Ensures
        (run double s time)
        (λ (ret, s'). All (IsKept double time s.queries ret s'.queries) s.queries)
run-IsKept double s time =
    on_run double s time (λ ret after. All (IsKept double time s.queries ret after) s.queries)
      (λ pass sweep. finish-IsKept double time s pass sweep)

-- Each query after a pass that gives a result comes from a query before it, by the priority of that one
-- at the time of the pass. It is that query as it was, when it was not due, or is of the type
-- signal_change, or emits and a nop command of the pass tells of a refusal. Or it is that query
-- executed now, when it was due, is of the type search, tracking or tech_control, and a command that is
-- not nop is planned for it. Or it is the follow-up of that query, which was due and has such a
-- command: a capture query of the next id after confirm, a tracking query of the next id after capture,
-- with the source's values of their fields.
pub run-IsFrom :
    (double : Double) (s : Scheduler double.D) (time : ℕ)
    → Ensures (run double s time) (λ (ret, s'). All (IsFrom double time s.queries ret) s'.queries)
run-IsFrom double s time =
    on_run double s time (λ ret after. All (IsFrom double time s.queries ret) after)
      (λ pass sweep. finish-IsFrom double time s pass sweep)
