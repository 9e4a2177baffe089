-- ===== src/Morenos/Placement/Find.antt =====
-- What `find_index` finds.
use radar_software.Prelude.{
  ℕ, zero, suc, ◌+◌, ◌-◌, ◌≤◌, ◌<◌, ◌≡◌, refl, ap, ◌⊎◌, ==→eq, ltb→lt, leb, Bool, true, false,
  Option, none, some, arith, ltb, ◌==◌, if◌then◌else◌, inl, inr, Bool-cases, u32_mod, sub32,
}
use radar_software.Morenos.Timeline.{Timeline, get_value_at}
use radar_software.Morenos.Placement.{
  Conveyors, is_empty, chunks, rph_length, receive_fits, find_from, find_index,
}

-- The `count` chunks before `stop` are in the timeline and free.
pub record FreeBefore (t : Timeline) (stop count : ℕ) : Type 0 where
  pub inside : count ≤ stop
  pub free : (k : ℕ) → k < count → is_empty (get_value_at t (stop - 1 - k)) ≡ true

-- A place for a scan: the converter is free for the transmission, the transmitting antenna is free
-- for the rephasing up to its first chunk, the receive part fits, and all is within the depth.
pub record IsPlace (c : Conveyors) (tr_length rs_length range_offset depth tr_idx : ℕ)
    : Type 0 where
  pub within : tr_idx + tr_length < depth
  pub transmit_free : FreeBefore c.dcu_timeline (tr_idx + tr_length + 1) (tr_length + 1)
  pub rephase_free : FreeBefore c.tr_au_timeline (tr_idx + 1) (rph_length + 1)
  pub receive_free : receive_fits c tr_length rs_length range_offset tr_idx ≡ true

pub FreeBefore-next :
    (t : Timeline) (idx sum : ℕ)
    → FreeBefore t idx sum
    → FreeBefore t (idx + 1) (if is_empty (get_value_at t idx) then sum + 1 else 0)
FreeBefore-next t idx sum v = elim (Bool-cases (is_empty (get_value_at t idx))) [
  | inl e ↦ rw e (record { inside = omega (arith, v.inside); free = one_more e })
  | inr e ↦ rw e (record { inside = omega arith; free = λ k hk. elim hk [ ] })
]
  where
    one_more :
        is_empty (get_value_at t idx) ≡ true
        → (k : ℕ) → k < sum + 1
        → is_empty (get_value_at t (idx + 1 - 1 - k)) ≡ true
    one_more e zero hk = let at_idx : idx + 1 - 1 - 0 ≡ idx = omega arith in rw at_idx e
    one_more e (suc k) hk =
        let before : idx + 1 - 1 - suc k ≡ idx - 1 - k = omega arith in
        rw before (v.free k (omega arith))

pub FreeBefore-less :
    (t : Timeline) (idx sum count : ℕ) → count ≤ sum → FreeBefore t idx sum → FreeBefore t idx count
FreeBefore-less t idx sum count h v = record {
  inside = omega (arith, v.inside);
  free = λ k hk. v.free k (omega arith);
}

-- The next length of a free run, and the table with the entry of this round.
abbrev pub next_sum : Timeline → ℕ → ℕ → ℕ
next_sum t idx sum = if is_empty (get_value_at t idx) then sum + 1 else 0

abbrev pub next_table : ℕ → ℕ → (ℕ → Bool) → ℕ → Bool
next_table idx sum table i = if i == idx then ltb rph_length sum else table i

-- The three tests of a round, and what the search goes on with.
branches :
    (long rephase receive : Bool) (here tr_idx : ℕ) (rest : Option ℕ)
    → (if long then (if rephase then (if receive then some here else rest) else rest) else rest)
      ≡ some tr_idx
    → ((long ≡ true) × (rephase ≡ true) × (receive ≡ true) × (here ≡ tr_idx)) ⊎ (rest ≡ some tr_idx)
branches true true true here tr_idx rest h = inl (refl, refl, refl, cc)
branches true true false here tr_idx rest h = inr h
branches true false receive here tr_idx rest h = inr h
branches false rephase receive here tr_idx rest h = inr h

module _ (c : Conveyors) (tr_length rs_length range_offset depth : ℕ)
    (small : depth < u32_mod) where
  -- An entry of `au_indices` is set only where the transmitting antenna can be rephased.
  abbrev IsTable : (ℕ → Bool) → Type 0
  IsTable au_indices =
      (j : ℕ) → au_indices j ≡ true → FreeBefore c.tr_au_timeline (j + 1) (rph_length + 1)

  next_table-IsTable :
      (idx sum : ℕ) (table : ℕ → Bool)
      → FreeBefore c.tr_au_timeline (idx + 1) sum
      → IsTable table
      → IsTable (next_table idx sum table)
  next_table-IsTable idx sum table v t j h = elim (Bool-cases (j == idx)) [
    | inl e ↦ rw (==→eq j idx e) (
        FreeBefore-less c.tr_au_timeline (idx + 1) sum (rph_length + 1)
          (ltb→lt rph_length sum (rw e at h)) v)
    | inr e ↦ t j (rw e at h)
  ]

  -- The search ends in this round, or goes on.
  pub record Found (idx dcu_sum : ℕ) (table : ℕ → Bool) (tr_idx : ℕ) : Type 0 where
    pub long : tr_length < dcu_sum
    pub here : sub32 idx tr_length ≡ tr_idx
    pub rephase : table (sub32 idx tr_length) ≡ true
    pub receive : receive_fits c tr_length rs_length range_offset (sub32 idx tr_length) ≡ true

  Found-IsPlace :
      (idx dcu_sum : ℕ) (table : ℕ → Bool) (tr_idx : ℕ)
      → idx < depth
      → FreeBefore c.dcu_timeline (idx + 1) dcu_sum
      → IsTable table
      → Found idx dcu_sum table tr_idx
      → IsPlace c tr_length rs_length range_offset depth tr_idx
  Found-IsPlace idx dcu_sum table tr_idx h v t f = record {
    within = omega (arith, end);
    transmit_free = rw (ap (λ k. k + 1) end) (
        FreeBefore-less c.dcu_timeline (idx + 1) dcu_sum (tr_length + 1) (omega (arith, f.long)) v);
    rephase_free = t tr_idx (rw f.here at f.rephase);
    receive_free = rw f.here at f.receive;
  }
    where
      end : tr_idx + tr_length ≡ idx
      end = omega (arith, f.here, f.long, v.inside)

  pub find_from_step :
      (rounds idx dcu_sum au_sum : ℕ) (table : ℕ → Bool) (tr_idx : ℕ)
      → find_from c tr_length rs_length range_offset (suc rounds) idx dcu_sum au_sum table
        ≡ some tr_idx
      → Found idx
          (next_sum c.dcu_timeline idx dcu_sum)
          (next_table idx (next_sum c.tr_au_timeline idx au_sum) table)
          tr_idx
        ⊎ (find_from c tr_length rs_length range_offset rounds
              (idx + 1)
              (next_sum c.dcu_timeline idx dcu_sum)
              (next_sum c.tr_au_timeline idx au_sum)
              (next_table idx (next_sum c.tr_au_timeline idx au_sum) table)
            ≡ some tr_idx)
  unfolding find_from
  find_from_step rounds idx dcu_sum au_sum table tr_idx h =
      elim (branches (ltb tr_length (next_sum c.dcu_timeline idx dcu_sum))
        (next_table idx (next_sum c.tr_au_timeline idx au_sum) table (sub32 idx tr_length))
        (receive_fits c tr_length rs_length range_offset (sub32 idx tr_length))
        (sub32 idx tr_length) tr_idx
        (find_from c tr_length rs_length range_offset rounds (idx + 1)
          (next_sum c.dcu_timeline idx dcu_sum) (next_sum c.tr_au_timeline idx au_sum)
          (next_table idx (next_sum c.tr_au_timeline idx au_sum) table))
        h) [
          | inl (long, rephase, receive, here) ↦
              inl (record {
                long = ltb→lt _ _ long;
                here = here;
                rephase = rephase;
                receive = receive;
              })
          | inr later ↦ inr later
        ]

  find_from-IsPlace :
      (rounds idx dcu_sum au_sum : ℕ) (table : ℕ → Bool) (tr_idx : ℕ)
      → idx + rounds ≡ depth
      → FreeBefore c.dcu_timeline idx dcu_sum
      → FreeBefore c.tr_au_timeline idx au_sum
      → IsTable table
      → find_from c tr_length rs_length range_offset rounds idx dcu_sum au_sum table ≡ some tr_idx
      → IsPlace c tr_length rs_length range_offset depth tr_idx
  unfolding find_from
  find_from-IsPlace zero idx dcu_sum au_sum table tr_idx e vd va vt h = cc
  find_from-IsPlace (suc rounds) idx dcu_sum au_sum table tr_idx e vd va vt h =
      let vd' = FreeBefore-next c.dcu_timeline idx dcu_sum vd in
      let va' = FreeBefore-next c.tr_au_timeline idx au_sum va in
      let vt' = next_table-IsTable idx (next_sum c.tr_au_timeline idx au_sum) table va' vt in
      elim (find_from_step rounds idx dcu_sum au_sum table tr_idx h) [
        | inl found ↦
            Found-IsPlace idx (next_sum c.dcu_timeline idx dcu_sum)
              (next_table idx (next_sum c.tr_au_timeline idx au_sum) table) tr_idx (omega arith) vd'
              vt' found
        | inr later ↦
            find_from-IsPlace rounds (idx + 1) (next_sum c.dcu_timeline idx dcu_sum)
              (next_sum c.tr_au_timeline idx au_sum)
              (next_table idx (next_sum c.tr_au_timeline idx au_sum) table) tr_idx (omega arith) vd'
              va' vt' later
      ]

-- What `find_index` returns, for a depth in 32 bits, is a place: the converter is free for the
-- transmission, the transmitting antenna is free for the whole rephasing before it, the receive
-- part fits, within the depth.
pub find_index-IsPlace :
    (c : Conveyors) (transmit_len receive_len range_offset depth tr_idx : ℕ)
    → depth < u32_mod
    → find_index c transmit_len receive_len range_offset depth ≡ some tr_idx
    → IsPlace c (chunks transmit_len) (chunks receive_len) range_offset depth tr_idx
unfolding find_index
find_index-IsPlace c transmit_len receive_len range_offset depth tr_idx small h =
    elim (Bool-cases (leb depth (chunks transmit_len))) [
      | inl e ↦ absurd (none-ne_some (rw e at h))
      | inr e ↦
          find_from-IsPlace c (chunks transmit_len) (chunks receive_len) range_offset depth small
            depth 0 0 0 (λ _. false) tr_idx (omega arith) start start (λ j bad. cc) (rw e at h)
    ]
  where
    none-ne_some : ◌≡◌ {A = Option ℕ} none (some tr_idx) → ⊥
    none-ne_some bad = cc

    start : {t : Timeline} → FreeBefore t 0 0
    start = record { inside = omega arith; free = λ k hk. elim hk [ ] }
