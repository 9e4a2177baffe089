-- ===== src/Morenos/PriorityQueue.antt =====
-- `std::priority_queue` as the sources use it: by an `operator<` that puts the least key on top. The
-- list holds the items in the order in which `top` and `pop` give them. The standard leaves the order
-- of items with equal keys open; here the one that was pushed first comes first.
use mathlib.Core.List.Perm
use mathlib.Core.List.{Perm}
use radar_software.Prelude.{
  ℕ, ◌≤◌, List, [], ◌∷◌, inl, inr, arith, ltb, if◌then◌else◌, Bool-cases, ltb→lt, ltb-false→le, All,
  All-imp, All-filter, filter, Bool,
}

module _ {A : Type 0} (key : A → ℕ) where
  unfoldable pub push : A → List A → List A
  push x [] = x ∷ []
  push x (y ∷ ys) = if ltb (key x) (key y) then x ∷ y ∷ ys else y ∷ push x ys

  abbrev pub IsSorted : List A → Type 0
  IsSorted [] = Unit
  IsSorted (x ∷ xs) = All (λ y. key x ≤ key y) xs × IsSorted xs

  pub All-push : (P : A → Type 0) (x : A) (xs : List A) → P x → All P xs → All P (push x xs)
  unfolding push
  All-push P x [] hx hxs = (hx, tt)
  All-push P x (y ∷ ys) hx hxs = elim (Bool-cases (ltb (key x) (key y))) [
    | inl e ↦ rw e (hx, hxs)
    | inr e ↦ rw e (hxs.0, All-push P x ys hx hxs.1)
  ]

  pub push-IsSorted : (x : A) (xs : List A) → IsSorted xs → IsSorted (push x xs)
  unfolding push
  push-IsSorted x [] h = (tt, tt)
  push-IsSorted x (y ∷ ys) h = elim (Bool-cases (ltb (key x) (key y))) [
    | inl e ↦ rw e (
      (
        omega (arith, ltb→lt _ _ e),
        All-imp (λ z. key y ≤ key z) (λ z. key x ≤ key z) ys (λ z k. omega (arith, ltb→lt _ _ e))
            h.0,
      ),
      h,
    )
    | inr e ↦
        rw e (All-push (λ z. key y ≤ key z) x ys (ltb-false→le _ _ e) h.0, push-IsSorted x ys h.1)
  ]

  pub push-perm : (x : A) (xs : List A) → Perm (push x xs) (x ∷ xs)
  unfolding push
  push-perm x [] = Perm.refl (x ∷ [])
  push-perm x (y ∷ ys) = elim (Bool-cases (ltb (key x) (key y))) [
    | inl e ↦ rw e (Perm.refl (x ∷ y ∷ ys))
    | inr e ↦ rw e (Perm.trans (Perm.cons y (push-perm x ys)) (Perm.swap x y ys))
  ]

  pub filter-IsSorted : (keep : A → Bool) (xs : List A) → IsSorted xs → IsSorted (filter keep xs)
  filter-IsSorted keep [] h = tt
  filter-IsSorted keep (x ∷ xs) h = elim (Bool-cases (keep x)) [
    | inl e ↦ rw e (All-filter (λ y. key x ≤ key y) keep xs h.0, filter-IsSorted keep xs h.1)
    | inr e ↦ rw e (filter-IsSorted keep xs h.1)
  ]
