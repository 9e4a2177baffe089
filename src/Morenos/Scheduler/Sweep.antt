-- ===== src/Morenos/Scheduler/Sweep.antt =====
-- What the visits of a pass add to it, query by query.
use mathlib.Core.List.{append-nil, append_assoc}
use radar_software.Prelude.{
  ℕ, ◌≡◌, ap, sym, ◌∙◌, List, [], ◌∷◌, ◌++◌, ◌⊎◌, inl, inr, Option-cases, All, All-append, All-imp,
  Any, Any-imp, Any-append, Ensures,
}
use radar_software.Double.{Double}
use radar_software.Morenos.Query.{Query}
use radar_software.Morenos.ControlCommand.{ControlCommand}
use radar_software.Morenos.Scheduler.{Pass, visit, visit_all}
use radar_software.Morenos.Scheduler.Outcome.{IsIdle, Stays, TurnsInto, Leaves, Step}
use radar_software.Morenos.Scheduler.Visits.{visit-Step}

pub Any-append_right : {A : Type 0} (P : A → Type 0) (xs ys : List A) → Any P ys → Any P (xs ++ ys)
Any-append_right P [] ys a = a
Any-append_right P (x ∷ xs) ys a = inr (Any-append_right P xs ys a)

-- The second list has the entries of the first.
abbrev Within : {A : Type 0} → List A → List A → Type 1
Within {A} xs ys = (P : A → Type 0) → Any P xs → Any P ys

module _ (double : Double) (time : ℕ) where
  open double use {D}

  -- A pass with more commands and more new queries.
  module _ (ret more : List ControlCommand) (grows : Within ret more) where
    IsIdle-Within : (q : Query D) → IsIdle double time ret q → IsIdle double time more q
    IsIdle-Within q (inl e) = inl e
    IsIdle-Within q (inr (inl e)) = inr (inl e)
    IsIdle-Within q (inr (inr (e, refused))) = inr (inr (e, grows _ refused))

    Stays-Within : (q q' : Query D) → Stays double time ret q q' → Stays double time more q q'
    Stays-Within q q' (inl (idle, e)) = inl (IsIdle-Within q idle, e)
    Stays-Within q q' (inr ((due, again, planned), e)) = inr ((due, again, grows _ planned), e)

    TurnsInto-Within :
        (q q' : Query D) → TurnsInto double time ret q q' → TurnsInto double time more q q'
    TurnsInto-Within q q' (due, planned, follows) = (due, grows _ planned, follows)

    Leaves-Within :
        (next new : List (Query D)) (q : Query D)
        → Within next new
        → Leaves double time ret next q
        → Leaves double time more new q
    Leaves-Within next new q added (inl e) = inl e
    Leaves-Within next new q added (inr turns) =
        inr (added _ (Any-imp _ _ next (TurnsInto-Within q) turns))

  -- What the visits of `queries` add to the pass.
  pub record Sweep (queries : List (Query D)) (pass pass' : Pass double) : Type 0 where
    pub rest : List (Query D)
    pub gone : List ℕ
    pub more : List ControlCommand
    pub next : List (Query D)
    pub visits : pass'.visited ≡ pass.visited ++ rest
    pub removal : pass'.removed_id ≡ pass.removed_id ++ gone
    pub plans : pass'.ret ≡ pass.ret ++ more
    pub adds : pass'.new_queries ≡ pass.new_queries ++ next
    -- Every query stays or leaves, and what is there afterwards and is not to be removed comes from
    -- one that stays.
    pub onward :
        All (λ q. Any (Stays double time more q) rest ⊎ Leaves double time more next q) queries
    pub back :
        All
          (λ q'. Any (λ q. Stays double time more q q') queries ⊎ Any (λ id. id ≡ q'.id) gone)
          rest
    pub only : All (λ id. Any (λ q. (id ≡ q.id) × Leaves double time more next q) queries) gone
    pub follow : All (λ q'. Any (λ q. TurnsInto double time more q q') queries) next

  module _ (q : Query D) (queries : List (Query D)) (pass pass' pass'' : Pass double)
      (first : Step double time q pass pass') (sweep : Sweep queries pass' pass'') where
    abbrev commands : List ControlCommand
    commands = first.more ++ sweep.more

    abbrev added : List (Query D)
    added = first.next ++ sweep.next

    early : Within first.more commands
    early P a = Any-append P first.more sweep.more a

    late : Within sweep.more commands
    late P a = Any-append_right P first.more sweep.more a

    early_added : Within first.next added
    early_added P a = Any-append P first.next sweep.next a

    late_added : Within sweep.next added
    late_added P a = Any-append_right P first.next sweep.next a

    abbrev LeavesNow : Query D → Type 0
    LeavesNow other = Leaves double time commands added other

    first-Leaves : Leaves double time first.more first.next q → LeavesNow q
    first-Leaves l = Leaves-Within first.more commands early first.next added q early_added l

    sweep-Leaves :
        (other : Query D) → Leaves double time sweep.more sweep.next other → LeavesNow other
    sweep-Leaves other l =
        Leaves-Within sweep.more commands late sweep.next added other late_added l

    Sweep-cons : Sweep (q ∷ queries) pass pass''
    Sweep-cons = record {
      rest = first.left ∷ sweep.rest;
      gone = first.ids ++ sweep.gone;
      more = commands;
      next = added;
      visits =
          sweep.visits
          ∙ ap (λ visited. visited ++ sweep.rest) first.visits
          ∙ append_assoc pass.visited (first.left ∷ []) sweep.rest;
      removal =
          sweep.removal
          ∙ ap (λ ids. ids ++ sweep.gone) first.removal
          ∙ append_assoc pass.removed_id first.ids sweep.gone;
      plans =
          sweep.plans
          ∙ ap (λ ret. ret ++ sweep.more) first.plans
          ∙ append_assoc pass.ret first.more sweep.more;
      adds =
          sweep.adds
          ∙ ap (λ new. new ++ sweep.next) first.adds
          ∙ append_assoc pass.new_queries first.next sweep.next;
      onward = (
        elim first.kept [
          | inl stays ↦ inl (inl (Stays-Within first.more commands early q first.left stays))
          | inr (_, leaves) ↦ inr (first-Leaves leaves)
        ],
        All-imp _ _ queries
            (λ other k. elim k [
              | inl a ↦ inl (
                  inr
                    (Any-imp _ _ sweep.rest (λ x. Stays-Within sweep.more commands late other x) a))
              | inr l ↦ inr (sweep-Leaves other l)
            ])
            sweep.onward,
      );
      back = (
        elim first.kept [
          | inl stays ↦ inl (inl (Stays-Within first.more commands early q first.left stays))
          | inr (a, _) ↦ inr (Any-append _ first.ids sweep.gone a)
        ],
        All-imp _ _ sweep.rest
            (λ x k. elim k [
              | inl a ↦ inl (
                  inr (
                    Any-imp _ _ queries (λ other. Stays-Within sweep.more commands late other x) a))
              | inr a ↦ inr (Any-append_right _ first.ids sweep.gone a)
            ])
            sweep.back,
      );
      only =
          All-append _ first.ids sweep.gone
            (All-imp _ _ first.ids (λ id k. inl (k.0, first-Leaves k.1)) first.only)
            (All-imp _ _ sweep.gone
              (λ id a. inr (Any-imp _ _ queries (λ other k. (k.0, sweep-Leaves other k.1)) a))
              sweep.only);
      follow =
          All-append _ first.next sweep.next
            (All-imp _ _ first.next (λ x t. inl (TurnsInto-Within first.more commands early q x t))
              first.follow)
            (All-imp _ _ sweep.next
              (λ x a. inr (
                Any-imp _ _ queries (λ other. TurnsInto-Within sweep.more commands late other x) a))
              sweep.follow);
    }

  pub visit_all-Sweep :
      (pass : Pass double) (queries : List (Query D))
      → Ensures (visit_all double time pass queries) (Sweep queries pass)
  unfolding visit_all
  visit_all-Sweep pass [] = record {
    rest = [];
    gone = [];
    more = [];
    next = [];
    visits = sym (append-nil pass.visited);
    removal = sym (append-nil pass.removed_id);
    plans = sym (append-nil pass.ret);
    adds = sym (append-nil pass.new_queries);
    onward = tt;
    back = tt;
    only = tt;
    follow = tt;
  }
  visit_all-Sweep pass (q ∷ queries) = elim (Option-cases (visit double time pass q)) [
    | inl e ↦ rw (e, visit_all) tt
    | inr (pass', e) ↦
        rw (e, visit_all)
          (elim (Option-cases (visit_all double time pass' queries)) [
            | inl f ↦ rw (f, visit_all) tt
            | inr (pass'', f) ↦
                rw (f, visit_all)
                  (Sweep-cons q queries pass pass' pass'' (rw e at (visit-Step double time pass q))
                    (rw f at (visit_all-Sweep pass' queries)))
          ])
  ]
