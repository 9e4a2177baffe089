-- ===== src/Morenos/Scheduler/Order.antt =====
-- The order in which a pass visits the queries.
use mathlib.Core.List.Perm
use mathlib.Core.List.{Perm, perm_middle, append-nil}
use radar_software.Prelude.{
  ℕ, ◌≡◌, false, List, [], ◌∷◌, ◌++◌, map, inl, inr, Bool-cases, All, All-imp,
}
use radar_software.Double.{Double, IsWeakOrder}
use radar_software.Morenos.Query.{Query}
use radar_software.Morenos.Scheduler.{refresh, insert, sort_from, order_queries}

module _ (double : Double) where
  open double use {D, lt}

  -- No query has a lower priority than one behind it.
  abbrev pub ByPriority : List (Query D) → Type 0
  ByPriority [] = Unit
  ByPriority (q ∷ queries) =
      All (λ other. lt q.p_value other.p_value ≡ false) queries × ByPriority queries

  insert-perm :
      (q : Query D) (queries : List (Query D)) → Perm (insert double q queries) (q ∷ queries)
  unfolding insert
  insert-perm q [] = Perm.refl (q ∷ [])
  insert-perm q (other ∷ queries) = elim (Bool-cases (lt other.p_value q.p_value)) [
    | inl e ↦ rw e (Perm.refl (q ∷ other ∷ queries))
    | inr e ↦
        rw e (Perm.trans (Perm.cons other (insert-perm q queries)) (Perm.swap q other queries))
  ]

  sort_from-perm :
      (sorted queries : List (Query D)) → Perm (sort_from double sorted queries) (queries ++ sorted)
  unfolding sort_from
  sort_from-perm sorted [] = Perm.refl sorted
  sort_from-perm sorted (q ∷ queries) =
      Perm.trans (sort_from-perm (insert double q sorted) queries)
        (Perm.trans (Perm.append_left queries (insert-perm q sorted)) (perm_middle queries sorted))

  All-insert :
      (P : Query D → Type 0) (q : Query D) (queries : List (Query D))
      → P q
      → All P queries
      → All P (insert double q queries)
  unfolding insert
  All-insert P q [] p a = (p, tt)
  All-insert P q (other ∷ queries) p a = elim (Bool-cases (lt other.p_value q.p_value)) [
    | inl e ↦ rw e (p, a)
    | inr e ↦ rw e (a.0, All-insert P q queries p a.1)
  ]

  pub All-sort_from :
      (P : Query D → Type 0) (sorted queries : List (Query D))
      → All P sorted
      → All P queries
      → All P (sort_from double sorted queries)
  unfolding sort_from
  All-sort_from P sorted [] a b = a
  All-sort_from P sorted (q ∷ queries) a b =
      All-sort_from P (insert double q sorted) queries (All-insert P q sorted b.0 a) b.1

  pub All-order_queries :
      (P : Query D → Type 0) (time : ℕ) (queries : List (Query D))
      → All P (map (refresh double time) queries)
      → All P (order_queries double time queries)
  unfolding order_queries
  All-order_queries P time [] a = All-sort_from P [] [] tt tt
  All-order_queries P time (q ∷ []) a = a
  All-order_queries P time (q ∷ other ∷ queries) a =
      All-sort_from P [] (map (refresh double time) (q ∷ other ∷ queries)) tt a

  All-insert_back :
      (P : Query D → Type 0) (q : Query D) (queries : List (Query D))
      → All P (insert double q queries)
      → P q × All P queries
  unfolding insert
  All-insert_back P q [] a = a
  All-insert_back P q (other ∷ queries) a = elim (Bool-cases (lt other.p_value q.p_value)) [
    | inl e ↦ rw e at a
    | inr e ↦
        let behind : P other × All P (insert double q queries) = rw e at a in
        let rest = All-insert_back P q queries behind.1 in (rest.0, (behind.0, rest.1))
  ]

  All-sort_from_back :
      (P : Query D → Type 0) (sorted queries : List (Query D))
      → All P (sort_from double sorted queries)
      → All P sorted × All P queries
  unfolding sort_from
  All-sort_from_back P sorted [] a = (a, tt)
  All-sort_from_back P sorted (q ∷ queries) a =
      let rest = All-sort_from_back P (insert double q sorted) queries a in
      let here = All-insert_back P q sorted rest.0 in (here.1, (here.0, rest.1))

  -- What holds of each query in the order of the visits holds of each up to date.
  pub All-order_queries_back :
      (P : Query D → Type 0) (time : ℕ) (queries : List (Query D))
      → All P (order_queries double time queries)
      → All P (map (refresh double time) queries)
  unfolding order_queries
  All-order_queries_back P time [] a = tt
  All-order_queries_back P time (q ∷ []) a = a
  All-order_queries_back P time (q ∷ other ∷ queries) a =
      (All-sort_from_back P [] (map (refresh double time) (q ∷ other ∷ queries)) a).1

  module _ (weak : IsWeakOrder lt) where
    insert-ByPriority :
        (q : Query D) (queries : List (Query D))
        → ByPriority queries
        → ByPriority (insert double q queries)
    unfolding insert
    insert-ByPriority q [] h = (tt, tt)
    insert-ByPriority q (other ∷ queries) h = elim (Bool-cases (lt other.p_value q.p_value)) [
      | inl e ↦ rw e (
        (
          weak.asym _ _ e,
          All-imp (λ later. lt other.p_value later.p_value ≡ false)
              (λ later. lt q.p_value later.p_value ≡ false) queries
              (λ later k. weak.not_trans _ _ _ (weak.asym _ _ e) k) h.0,
        ),
        h,
      )
      | inr e ↦ rw e (
        All-insert (λ later. lt other.p_value later.p_value ≡ false) q queries e h.0,
        insert-ByPriority q queries h.1,
      )
    ]

    sort_from-ByPriority :
        (sorted queries : List (Query D))
        → ByPriority sorted
        → ByPriority (sort_from double sorted queries)
    unfolding sort_from
    sort_from-ByPriority sorted [] h = h
    sort_from-ByPriority sorted (q ∷ queries) h =
        sort_from-ByPriority (insert double q sorted) queries (insert-ByPriority q sorted h)

  -- A pass visits exactly the queries of the scheduler, each as often as it is there, with their
  -- priorities brought up to date.
  pub order_queries-perm :
      (time : ℕ) (queries : List (Query D))
      → Perm (order_queries double time queries) (map (refresh double time) queries)
  unfolding order_queries
  order_queries-perm time [] = Perm.refl []
  order_queries-perm time (q ∷ []) = Perm.refl (refresh double time q ∷ [])
  order_queries-perm time (q ∷ other ∷ queries) =
      rw append-nil at (sort_from-perm [] (map (refresh double time) (q ∷ other ∷ queries)))

-- A pass visits exactly the queries of the scheduler with their priorities brought up to date, and
-- none before one of a higher priority, where `<` orders the values as it does without NaN.
pub order_queries_lem :
    (double : Double) (time : ℕ) (queries : List (Query double.D))
    → IsWeakOrder double.lt
    → Perm (order_queries double time queries) (map (refresh double time) queries)
      × ByPriority double (order_queries double time queries)
unfolding order_queries
order_queries_lem double time [] weak = (order_queries-perm double time [], tt)
order_queries_lem double time (q ∷ []) weak = (order_queries-perm double time (q ∷ []), (tt, tt))
order_queries_lem double time (q ∷ other ∷ queries) weak = (
  order_queries-perm double time (q ∷ other ∷ queries),
  sort_from-ByPriority double weak [] (map (refresh double time) (q ∷ other ∷ queries)) tt,
)
