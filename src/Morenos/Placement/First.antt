-- ===== src/Morenos/Placement/First.antt =====
-- The search of `find_index` is complete, and takes the first place.
use radar_software.Prelude.{
  ℕ, zero, suc, ◌+◌, ◌-◌, ◌≤◌, ◌<◌, ◌≡◌, refl, sym, ◌∙◌, ◌⊎◌, ==→eq, ==-false→ne, ltb→lt, lt→ltb,
  leb, Bool, true, false, Option, some, arith, ltb, ◌==◌, if◌then◌else◌, inl, inr, Bool-cases,
  u32_mod, sub32,
}
use radar_software.Morenos.Timeline.{Timeline, get_value_at}
use radar_software.Morenos.Placement.{
  Conveyors, is_empty, chunks, rph_length, receive_fits, find_from, find_index,
}
use radar_software.Morenos.Placement.Find.{
  FreeBefore, IsPlace, next_sum, next_table, FreeBefore-next,
}

-- No longer run of free chunks ends before `stop`.
abbrev IsLongest : Timeline → ℕ → ℕ → Type 0
IsLongest t stop sum = (count : ℕ) → FreeBefore t stop count → count ≤ sum

FreeBefore-shorter :
    (t : Timeline) (idx count : ℕ) → FreeBefore t (idx + 1) (suc count) → FreeBefore t idx count
FreeBefore-shorter t idx count v = record {
  inside = omega (arith, v.inside);
  free = λ k hk.
      let same : idx + 1 - 1 - suc k ≡ idx - 1 - k = omega arith in
      rw same at (v.free (suc k) (omega arith));
}

IsLongest-next :
    (t : Timeline) (idx sum : ℕ) → IsLongest t idx sum → IsLongest t (idx + 1) (next_sum t idx sum)
IsLongest-next t idx sum longest zero v = omega arith
IsLongest-next t idx sum longest (suc count) v = elim (Bool-cases (is_empty (get_value_at t idx))) [
  | inl e ↦ rw e (omega (arith, longest count (FreeBefore-shorter t idx count v)))
  | inr e ↦
      let here : idx + 1 - 1 - 0 ≡ idx = omega arith in
      let bad : is_empty (get_value_at t idx) ≡ true = rw here at (v.free 0 (omega arith)) in
      absurd (true-ne_false (sym bad ∙ e))
]
  where
    true-ne_false : true ≡ false → ⊥
    true-ne_false e = cc

module _ (c : Conveyors) (tr_length rs_length range_offset depth tr_idx : ℕ)
    (small : depth < u32_mod)
    (place : IsPlace c tr_length rs_length range_offset depth tr_idx) where
  -- Each entry of `au_indices` before `idx` is set where the transmitting antenna can be rephased.
  abbrev IsFull : ℕ → (ℕ → Bool) → Type 0
  IsFull idx au_indices =
      (j : ℕ) → j < idx → FreeBefore c.tr_au_timeline (j + 1) (rph_length + 1) → au_indices j ≡ true

  IsFull-next :
      (idx sum : ℕ) (table : ℕ → Bool)
      → IsLongest c.tr_au_timeline (idx + 1) sum
      → IsFull idx table
      → IsFull (idx + 1) (next_table idx sum table)
  IsFull-next idx sum table longest full j hj v = elim (Bool-cases (j == idx)) [
    | inl e ↦
        rw e (
          lt→ltb rph_length sum (omega (arith, longest (rph_length + 1) (rw (==→eq j idx e) at v))))
    | inr e ↦ rw e (full j (ground arith) v)
  ]

  -- The search gives a place that is not later.
  abbrev FindsFirst : Option ℕ → Type 0
  FindsFirst found = (first : ℕ) × (found ≡ some first) × (first ≤ tr_idx)

  three_tests :
      (long rephase receive : Bool) (here : ℕ) (rest : Option ℕ)
      → (long ≡ true → here ≤ tr_idx)
      → ((long ≡ true) × (rephase ≡ true) × (receive ≡ true)) ⊎ FindsFirst rest
      → FindsFirst
          (if long then (if rephase then (if receive then some here else rest) else rest) else rest)
  three_tests true true true here rest early h = (here, refl, early refl)
  three_tests true true false here rest early (inl (l, r, bad)) = cc
  three_tests true true false here rest early (inr found) = found
  three_tests true false receive here rest early (inl (l, bad, r)) = cc
  three_tests true false receive here rest early (inr found) = found
  three_tests false rephase receive here rest early (inl (bad, l, r)) = cc
  three_tests false rephase receive here rest early (inr found) = found

  -- At the last chunk of the place all three tests succeed.
  tests_at_place :
      (idx dcu_sum : ℕ) (table : ℕ → Bool)
      → idx ≡ tr_idx + tr_length
      → IsLongest c.dcu_timeline (idx + 1) dcu_sum
      → IsFull (idx + 1) table
      → (ltb tr_length dcu_sum ≡ true)
        × (table (sub32 idx tr_length) ≡ true)
        × (receive_fits c tr_length rs_length range_offset (sub32 idx tr_length) ≡ true)
  tests_at_place idx dcu_sum table end ld full = rw here (
    lt→ltb tr_length dcu_sum (omega (arith, ld (tr_length + 1) (rw end place.transmit_free))),
    full tr_idx (omega arith) place.rephase_free,
    place.receive_free,
  )
    where
      here : sub32 idx tr_length ≡ tr_idx
      here = omega (arith, place.within)

  find_from-some :
      (rounds idx dcu_sum au_sum : ℕ) (table : ℕ → Bool)
      → idx + rounds ≡ depth
      → idx ≤ tr_idx + tr_length
      → FreeBefore c.dcu_timeline idx dcu_sum
      → IsLongest c.dcu_timeline idx dcu_sum
      → IsLongest c.tr_au_timeline idx au_sum
      → IsFull idx table
      → FindsFirst (find_from c tr_length rs_length range_offset rounds idx dcu_sum au_sum table)
  unfolding find_from
  find_from-some zero idx dcu_sum au_sum table e before vd ld la full =
      absurd (omega (arith, place.within))
  find_from-some (suc rounds) idx dcu_sum au_sum table e before vd ld la full =
      let dcu_sum' = next_sum c.dcu_timeline idx dcu_sum in
      let au_sum' = next_sum c.tr_au_timeline idx au_sum in
      let table' = next_table idx au_sum' table in
      let vd' = FreeBefore-next c.dcu_timeline idx dcu_sum vd in
      let ld' = IsLongest-next c.dcu_timeline idx dcu_sum ld in
      let la' = IsLongest-next c.tr_au_timeline idx au_sum la in
      let full' = IsFull-next idx au_sum' table la' full in
      three_tests (ltb tr_length dcu_sum') (table' (sub32 idx tr_length))
        (receive_fits c tr_length rs_length range_offset (sub32 idx tr_length))
        (sub32 idx tr_length)
        (find_from c tr_length rs_length range_offset rounds (idx + 1) dcu_sum' au_sum' table')
        (λ long. omega (arith, ltb→lt _ _ long, vd'.inside))
        (elim (Bool-cases (idx == tr_idx + tr_length)) [
          | inl end ↦ inl (tests_at_place idx dcu_sum' table' (==→eq _ _ end) ld' full')
          | inr more ↦ inr (
              find_from-some rounds (idx + 1) dcu_sum' au_sum' table' (omega arith)
                (omega (arith, ==-false→ne _ _ more)) vd' ld' la' full')
        ])

-- Where a scan has a place within a depth of 32 bits, `find_index` finds one, and none that is
-- later.
pub find_index-first :
    (c : Conveyors) (transmit_len receive_len range_offset depth tr_idx : ℕ)
    → depth < u32_mod
    → IsPlace c (chunks transmit_len) (chunks receive_len) range_offset depth tr_idx
    → (first : ℕ) × (find_index c transmit_len receive_len range_offset depth ≡ some first)
      × (first ≤ tr_idx)
unfolding find_index
find_index-first c transmit_len receive_len range_offset depth tr_idx small place =
    rw (leb_false (chunks transmit_len) (omega (arith, place.within))) (
      find_from-some c (chunks transmit_len) (chunks receive_len) range_offset depth tr_idx small
        place depth 0 0 0 (λ _. false) (omega arith) (omega arith) start longest longest
        (λ j hj. elim hj [ ]))
  where
    leb_false : (length : ℕ) → length < depth → leb depth length ≡ false
    leb_false length h = ground arith

    start : {t : Timeline} → FreeBefore t 0 0
    start = record { inside = omega arith; free = λ k hk. elim hk [ ] }

    longest : {t : Timeline} → IsLongest t 0 0
    longest count v = v.inside
