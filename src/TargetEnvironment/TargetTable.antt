-- ===== src/TargetEnvironment/TargetTable.antt =====
-- `struct Target` and `class TargetTable` of Target Environment/Shared. The hash table is an
-- association list without a key twice; nothing reads its order.
use radar_software.Prelude.{
  or_else, or_else-none, or_else_assoc, ℕ, ◌≡◌, refl, List, [], ◌∷◌, ◌==◌, length, Option, none,
  some, if◌then◌else◌, Bool, not, Bool-cases, Option-cases, inl, inr, ==→eq, ap, sym, ◌∙◌, find?,
}

pub record Target (D : Type 0) : Type 0 where
  pub target_id : ℕ
  pub x : List D
  pub y : List D
  pub z : List D

abbrev pub TargetTable : Type 0 → Type 0
TargetTable D = List (ℕ × Target D)

module _ {D : Type 0} where
  -- `operator!=` of `Target`.
  abbrev pub differs : Target D → Target D → Bool
  differs a b = not (a.target_id == b.target_id)

  unfoldable pub get_target : TargetTable D → ℕ → Option (Target D)
  get_target [] id = none
  get_target ((key, target) ∷ tbl) id = if key == id then some target else get_target tbl id

  -- `emplace` keeps the entry of a key that is there.
  unfoldable pub add_target : Target D → TargetTable D → TargetTable D
  unfolding get_target
  add_target desc tbl = elim (get_target tbl desc.target_id) [
    | none ↦ (desc.target_id, desc) ∷ tbl
    | some target ↦ tbl
  ]

  abbrev pub size : TargetTable D → ℕ
  size tbl = length tbl

  abbrev pub clear : TargetTable D → TargetTable D
  clear tbl = []

  add_fresh :
      (t : Target D) (tbl : TargetTable D)
      → get_target tbl t.target_id ≡ none
      → add_target t tbl ≡ (t.target_id, t) ∷ tbl
  unfolding add_target
  add_fresh t tbl e = cc

  add_again :
      (t found : Target D) (tbl : TargetTable D)
      → get_target tbl t.target_id ≡ some found
      → add_target t tbl ≡ tbl
  unfolding add_target
  add_again t found tbl e = cc

  -- Adding a target changes what its own number finds, and that only if nothing was there.
  pub get_target-add_target :
      (t : Target D) (tbl : TargetTable D) (id : ℕ)
      → get_target (add_target t tbl) id
        ≡ or_else (get_target tbl id) (if t.target_id == id then some t else none)
  unfolding get_target
  get_target-add_target t tbl id = elim (Option-cases (get_target tbl t.target_id)) [
    | inl e ↦ elim (Bool-cases (t.target_id == id)) [
      | inl same ↦
          let here : get_target tbl id ≡ none = ap (get_target tbl) (sym (==→eq _ _ same)) ∙ e in
          rw (add_fresh t tbl e, same, here) refl
      | inr other ↦ rw (add_fresh t tbl e, other) (sym (or_else-none (get_target tbl id)))
    ]
    | inr (found, e) ↦ elim (Bool-cases (t.target_id == id)) [
      | inl same ↦
          let here : get_target tbl id ≡ some found =
            ap (get_target tbl) (sym (==→eq _ _ same)) ∙ e in
          rw (add_again t found tbl e, here) refl
      | inr other ↦ rw (add_again t found tbl e, other) (sym (or_else-none (get_target tbl id)))
    ]
  ]

  -- The targets in turn put into a table.
  abbrev pub add_all : List (Target D) → TargetTable D → TargetTable D
  add_all [] tbl = tbl
  add_all (t ∷ ts) tbl = add_all ts (add_target t tbl)

  get_target-add_all :
      (ts : List (Target D)) (tbl : TargetTable D) (id : ℕ)
      → get_target (add_all ts tbl) id
        ≡ or_else (get_target tbl id) (find? (λ t. t.target_id == id) ts)
  get_target-add_all [] tbl id = sym (or_else-none (get_target tbl id))
  get_target-add_all (t ∷ ts) tbl id =
      get_target-add_all ts (add_target t tbl) id
      ∙ ap (λ r. or_else r (find? (λ t. t.target_id == id) ts)) (get_target-add_target t tbl id)
      ∙ or_else_assoc (get_target tbl id) (if t.target_id == id then some t else none)
          (find? (λ t. t.target_id == id) ts)
      ∙ ap (or_else (get_target tbl id)) first
    where
      first :
          or_else (if t.target_id == id then some t else none) (find? (λ t. t.target_id == id) ts)
          ≡ find? (λ t. t.target_id == id) (t ∷ ts)
      first = elim (Bool-cases (t.target_id == id)) [ inl e ↦ rw e refl | inr e ↦ rw e refl ]

  -- A table that a list of targets was put into gives for each number the first target of the list
  -- that has it.
  pub get_target_first :
      (ts : List (Target D)) (id : ℕ)
      → get_target (add_all ts []) id ≡ find? (λ t. t.target_id == id) ts
  unfolding get_target
  get_target_first ts id = get_target-add_all ts [] id
