-- ===== src/Morenos/Scheduler/Visits.antt =====
-- What one visit of a query in a pass of the scheduler comes to, shown of the code of a visit.

use mathlib.Core.List.{append-nil}
use radar_software.Prelude.{
  ℕ, ◌≡◌, refl, ap, sym, ◌∙◌, true, ◌&&◌, List, [], ◌∷◌, ◌++◌, ◌⊎◌, inl, inr, Bool-cases,
  Option-cases, Ensures, sub64,
}
use radar_software.Double.{Double}
use radar_software.Morenos.Settings.{reserve_time}
use radar_software.Morenos.Query.{
  QueryType, search_query, confirm, capture, tracking, signal_change, tech_control, drop, Query,
}
use radar_software.Morenos.ControlCommand.{ControlCommand, ct_tech_command, command}
use radar_software.Morenos.ScanPair.{ScanPair}
use radar_software.Morenos.Signals.{build_scan_pair}
use radar_software.Morenos.Signals.Choice.{emits}
use radar_software.Morenos.Placement.{Conveyors, place_scan}
use radar_software.Morenos.Scheduler.{
  any_command, Pass, place_query, scan_case, execute, visit, skip,
}
use radar_software.Morenos.Scheduler.Outcome.{
  IsPlanned, repeats, place_scan-Says, is_ready, IsIdle, Follows, Step,
}

module _ (double : Double) (time : ℕ) where
  open double use {D, le, decimal}

  -- What a case is given to add when the query is placed.
  abbrev Given : Query D → List ℕ → List (Query D) → Type 0
  Given q ids next =
      ((repeats q.type ≡ true) × (ids ≡ []) × (next ≡ []))
      ⊎ ((n : Query D) × Follows double time q n × (ids ≡ q.id ∷ []) × (next ≡ n ∷ []))

  placed-Step :
      (pass : Pass double) (q : Query D) (conveyors : Conveyors) (commands : List ControlCommand)
      (ids : List ℕ) (next : List (Query D))
      → is_ready double time q ≡ true
      → IsPlanned commands q.id
      → Given q ids next
      → Step double time q pass (record {
        conveyors = conveyors;
        ret = pass.ret ++ commands;
        removed_id = pass.removed_id ++ ids;
        new_queries = pass.new_queries ++ next;
        visited = pass.visited ++ (record q { t_prev = time } ∷ []);
        processed = pass.processed ++ (record q { t_prev = time } ∷ []);
      })
  placed-Step pass q conveyors commands ids next due planned given = record {
    left = record q { t_prev = time };
    ids = ids;
    more = commands;
    next = next;
    visits = refl;
    removal = refl;
    plans = refl;
    adds = refl;
    kept = elim given [
      | inl (again, none_left, none_next) ↦ inl (inr ((due, again, planned), refl))
      | inr (n, follows, gone, added) ↦
          inr (rw (gone, added) (inl refl, inr (inl (due, planned, follows))))
    ];
    only = elim given [
      | inl (again, none_left, none_next) ↦ rw none_left tt
      | inr (n, follows, gone, added) ↦
          rw (gone, added) ((refl, inr (inl (due, planned, follows))), tt)
    ];
    follow = elim given [
      | inl (again, none_left, none_next) ↦ rw none_next tt
      | inr (n, follows, gone, added) ↦ rw added ((due, planned, follows), tt)
    ];
  }

  -- A query that stays as it is, with no more than commands for it.
  stays-Step :
      (pass pass' : Pass double) (q : Query D) (commands : List ControlCommand)
      → IsIdle double time commands q
      → pass'.visited ≡ pass.visited ++ (q ∷ [])
      → pass'.removed_id ≡ pass.removed_id
      → pass'.ret ≡ pass.ret ++ commands
      → pass'.new_queries ≡ pass.new_queries
      → Step double time q pass pass'
  stays-Step pass pass' q commands idle visited removed planned added = record {
    left = q;
    ids = [];
    more = commands;
    next = [];
    visits = visited;
    removal = removed ∙ sym (append-nil pass.removed_id);
    plans = planned;
    adds = added ∙ sym (append-nil pass.new_queries);
    kept = inl (inl (idle, refl));
    only = tt;
    follow = tt;
  }

  skip-Step :
      (pass : Pass double) (q : Query D)
      → IsIdle double time [] q
      → Step double time q pass (skip double pass q)
  skip-Step pass q idle = stays-Step pass _ q [] idle refl refl (sym (append-nil pass.ret)) refl

  place_query-Step :
      (pass : Pass double) (q : Query D) (scan_pair : ScanPair) (ids : List ℕ)
      (next : List (Query D))
      → is_ready double time q ≡ true
      → emits q.type ≡ true
      → Given q ids next
      → Step double time q pass (place_query double time pass q scan_pair ids next)
  unfolding place_query
  place_query-Step pass q scan_pair ids next due e given =
      elim (Bool-cases (any_command (place_scan pass.conveyors scan_pair q.id).0)) [
        | inl placed ↦
            rw (placed, place_query)
              (placed-Step pass q (place_scan pass.conveyors scan_pair q.id).1
                (place_scan pass.conveyors scan_pair q.id).0 ids next due
                (rw placed at (place_scan-Says pass.conveyors scan_pair q.id)) given)
        | inr refused ↦
            rw (refused, place_query)
              (stays-Step pass _ q (place_scan pass.conveyors scan_pair q.id).0
                (inr (inr (e, rw refused at (place_scan-Says pass.conveyors scan_pair q.id)))) refl
                refl refl refl)
      ]

  scan_case-Step :
      (pass : Pass double) (q : Query D) (ids : List ℕ) (next : List (Query D))
      → is_ready double time q ≡ true
      → emits q.type ≡ true
      → Given q ids next
      → Ensures (scan_case double time pass q ids next) (Step double time q pass)
  unfolding scan_case
  scan_case-Step pass q ids next due e given =
      elim (Option-cases (build_scan_pair double q.range q.rcs q.type)) [
        | inl failed ↦ rw (failed, scan_case) tt
        | inr (scan_pair, built) ↦
            rw (built, scan_case) (place_query-Step pass q scan_pair ids next due e given)
      ]

  execute-Step :
      (pass : Pass double) (q : Query D) (type : QueryType)
      → is_ready double time q ≡ true
      → q.type ≡ type
      → Ensures (execute double time pass q type) (Step double time q pass)
  unfolding execute
  execute-Step pass q search_query due e =
      scan_case-Step pass q [] [] due (ap emits e) (inl (ap repeats e, refl, refl))
  execute-Step pass q confirm due e =
      scan_case-Step pass q _ _ due (ap emits e) (inr (_, inl (e, refl), refl, refl))
  execute-Step pass q capture due e =
      scan_case-Step pass q _ _ due (ap emits e) (inr (_, inr (e, refl), refl, refl))
  execute-Step pass q tracking due e =
      scan_case-Step pass q [] [] due (ap emits e) (inl (ap repeats e, refl, refl))
  execute-Step pass q signal_change due e = skip-Step pass q (inr (inl e))
  execute-Step pass q tech_control due e = record {
    left = record q { t_prev = time };
    ids = [];
    more = command ct_tech_command (sub64 time reserve_time) time 0 q.id ∷ [];
    next = [];
    visits = refl;
    removal = sym (append-nil pass.removed_id);
    plans = refl;
    adds = sym (append-nil pass.new_queries);
    kept = inl (inr ((due, ap repeats e, inl (refl, refl)), refl));
    only = tt;
    follow = tt;
  }
  execute-Step pass q drop due e = record {
    left = q;
    ids = q.id ∷ [];
    more = [];
    next = [];
    visits = refl;
    removal = refl;
    plans = sym (append-nil pass.ret);
    adds = sym (append-nil pass.new_queries);
    kept = inr (inl refl, inl (due, e));
    only = ((refl, inl (due, e)), tt);
    follow = tt;
  }

  pub visit-Step :
      (pass : Pass double) (q : Query D)
      → Ensures (visit double time pass q) (Step double time q pass)
  unfolding visit
  visit-Step pass q = elim (Bool-cases (q.active && le q.p_threshold q.p_value)) [
    | inl e ↦ rw (e, visit) (execute-Step pass q q.type e refl)
    | inr e ↦ rw (e, visit) (skip-Step pass q (inl e))
  ]
