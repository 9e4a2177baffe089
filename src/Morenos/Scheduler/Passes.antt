-- ===== src/Morenos/Scheduler/Passes.antt =====
-- Proof rules for a pass: what holds of the cases of a visit holds of the whole loop.
use radar_software.Prelude.{
  ℕ, ◌≡◌, refl, false, ◌&&◌, List, [], ◌∷◌, inl, inr, Bool-cases, Option-cases, All, Ensures,
}
use radar_software.Double.{Double}
use radar_software.Morenos.Query.{
  QueryType, search_query, confirm, capture, tracking, signal_change, tech_control, drop, Query,
}
use radar_software.Morenos.ScanPair.{ScanPair}
use radar_software.Morenos.Signals.{build_scan_pair}
use radar_software.Morenos.Signals.Choice.{emits}
use radar_software.Morenos.Scheduler.{
  Pass, place_query, scan_case, capture_of, tracking_of, skip, execute, visit, visit_all,
}

module _ (double : Double) (time : ℕ) where
  open double use {D, le}

  -- The pairs that a case places: with what is removed and what follows.
  abbrev pub follow_up : QueryType → Query D → List (Query D)
  follow_up confirm q = capture_of double time q ∷ []
  follow_up capture q = tracking_of double time q ∷ []
  follow_up _ q = []

  abbrev pub removed : QueryType → Query D → List ℕ
  removed confirm q = q.id ∷ []
  removed capture q = q.id ∷ []
  removed _ q = []

  -- An invariant `I` of the pass, at queries with the property `Q`: what has to be shown.
  pub record Rule (I : Pass double → Type 0) (Q : Query D → Type 0) : Type 0 where
    pub skips : (pass : Pass double) (q : Query D) → Q q → I pass → I (skip double pass q)
    pub places :
        (pass : Pass double) (q : Query D) (scan_pair : ScanPair) (type : QueryType)
        → Q q
        → q.type ≡ type
        → I pass
        → I (place_query double time pass q scan_pair (removed type q) (follow_up type q))
    pub executes :
        (pass : Pass double) (q : Query D) (type : QueryType)
        → Q q
        → emits type ≡ false
        → I pass
        → Ensures (execute double time pass q type) I

  module _ (I : Pass double → Type 0) (Q : Query D → Type 0) (rule : Rule I Q) where
    scan_case_inv :
        (pass : Pass double) (q : Query D) (type : QueryType)
        → Q q
        → q.type ≡ type
        → I pass
        → Ensures (scan_case double time pass q (removed type q) (follow_up type q)) I
    unfolding scan_case
    scan_case_inv pass q type hq e i =
        elim (Option-cases (build_scan_pair double q.range q.rcs q.type)) [
          | inl failed ↦ rw (failed, scan_case) tt
          | inr (scan_pair, built) ↦
              rw (built, scan_case) (rule.places pass q scan_pair type hq e i)
        ]

    execute_inv :
        (pass : Pass double) (q : Query D) (type : QueryType)
        → Q q
        → q.type ≡ type
        → I pass
        → Ensures (execute double time pass q type) I
    unfolding execute
    execute_inv pass q search_query hq e i = scan_case_inv pass q search_query hq e i
    execute_inv pass q confirm hq e i = scan_case_inv pass q confirm hq e i
    execute_inv pass q capture hq e i = scan_case_inv pass q capture hq e i
    execute_inv pass q tracking hq e i = scan_case_inv pass q tracking hq e i
    execute_inv pass q signal_change hq e i = rule.executes pass q signal_change hq refl i
    execute_inv pass q tech_control hq e i = rule.executes pass q tech_control hq refl i
    execute_inv pass q drop hq e i = rule.executes pass q drop hq refl i

    visit_inv :
        (pass : Pass double) (q : Query D) → Q q → I pass → Ensures (visit double time pass q) I
    unfolding visit
    visit_inv pass q hq i = elim (Bool-cases (q.active && le q.p_threshold q.p_value)) [
      | inl e ↦ rw (e, visit) (execute_inv pass q q.type hq refl i)
      | inr e ↦ rw (e, visit) (rule.skips pass q hq i)
    ]

    pub visit_all_inv :
        (pass : Pass double) (queries : List (Query D))
        → All Q queries
        → I pass
        → Ensures (visit_all double time pass queries) I
    unfolding visit_all
    visit_all_inv pass [] hq i = i
    visit_all_inv pass (q ∷ queries) hq i = elim (Option-cases (visit double time pass q)) [
      | inl e ↦ rw (e, visit_all) tt
      | inr (pass', e) ↦
          rw (e, visit_all) (visit_all_inv pass' queries hq.1 (rw e at (visit_inv pass q hq.0 i)))
    ]
