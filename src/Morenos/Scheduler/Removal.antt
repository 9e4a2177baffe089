-- ===== src/Morenos/Scheduler/Removal.antt =====
-- What `remove_query` takes out of the queries, over a list of ids.

use radar_software.Prelude.{
  ℕ, ◌≡◌, refl, sym, not, List, [], ◌∷◌, ◌⊎◌, inl, inr, Bool-cases, All, All-imp, Any, Any-filter,
  ◌==◌, ==→eq, ==-false→ne,
}
use radar_software.Morenos.Query.{Query}
use radar_software.Morenos.Scheduler.{remove_query, remove_queries}

module _ {D : Type 0} where
  -- A query that is not removed by its id stays.
  pub remove_queries-keeps :
      (P : Query D → Type 0) (n : ℕ) (queries : List (Query D)) (ids : List ℕ)
      → ((q : Query D) → P q → q.id ≡ n)
      → Any P queries
      → Any P (remove_queries queries ids) ⊎ Any (λ id. id ≡ n) ids
  unfolding remove_queries remove_query
  remove_queries-keeps P n queries [] h a = inl a
  remove_queries-keeps P n queries (id ∷ ids) h a = elim (Bool-cases (n == id)) [
    | inl e ↦ inr (inl (sym (==→eq n id e)))
    | inr e ↦
        elim (remove_queries-keeps P n (remove_query queries id) ids h
          (Any-filter P (λ q. not (q.id == id)) queries (λ q p. rw (h q p, e) refl) a)) [
            | inl kept ↦ inl kept
            | inr gone ↦ inr (inr gone)
          ]
  ]

  All-remove_query :
      (P : Query D → Type 0) (queries : List (Query D)) (id : ℕ) (ids : List ℕ)
      → All (λ q. P q ⊎ Any (λ other. other ≡ q.id) (id ∷ ids)) queries
      → All (λ q. P q ⊎ Any (λ other. other ≡ q.id) ids) (remove_query queries id)
  unfolding remove_query
  All-remove_query P [] id ids a = tt
  All-remove_query P (q ∷ queries) id ids a = elim (Bool-cases (q.id == id)) [
    | inl e ↦ rw e (All-remove_query P queries id ids a.1)
    | inr e ↦ rw e (
      elim a.0 [
        | inl p ↦ inl p
        | inr (inl same) ↦ absurd (==-false→ne _ _ e (sym same))
        | inr (inr other) ↦ inr other
      ],
      All-remove_query P queries id ids a.1,
    )
  ]

  -- What is left is what is not removed by its id.
  pub All-remove_queries :
      (P : Query D → Type 0) (queries : List (Query D)) (ids : List ℕ)
      → All (λ q. P q ⊎ Any (λ id. id ≡ q.id) ids) queries
      → All P (remove_queries queries ids)
  unfolding remove_queries
  All-remove_queries P queries [] a =
      All-imp _ P queries (λ q k. elim k [ inl p ↦ p | inr none_gone ↦ absurd none_gone ]) a
  All-remove_queries P queries (id ∷ ids) a =
      All-remove_queries P (remove_query queries id) ids (All-remove_query P queries id ids a)

-- A property that follows for the entries of the list.
pub All-imp_in :
    {A : Type 0} (P Q : A → Type 0) (xs : List A)
    → ((x : A) → Any (λ y. y ≡ x) xs → P x → Q x)
    → All P xs
    → All Q xs
All-imp_in P Q [] h a = tt
All-imp_in P Q (x ∷ xs) h a = (h x (inl refl) a.0, All-imp_in P Q xs (λ y m p. h y (inr m) p) a.1)
