-- ===== src/Morenos/Timeline/View.antt =====
-- A timeline read by absolute time, and what moves of any length do to it.
use radar_software.Prelude.{
  ℕ, zero, suc, ◌+◌, ◌-◌, ◌*◌, ◌/◌, ◌%◌, ◌≤◌, ◌<◌, ◌≡◌, refl, ap, ◌∙◌, inl, inr, arith, ltb, ◌==◌,
  if◌then◌else◌, Bool-cases, u32, add32, u32_mod, u64_mod,
}
use radar_software.Morenos.Settings.{time_chunk_length, timeline_depth}
use radar_software.Morenos.Utility.{multiples_of_multiple}
use radar_software.Morenos.Timeline.{
  TimelineLabel, tll_empty, Timeline, get_value_at, set_value_at, label_from, move_timeline,
}
use radar_software.Morenos.Timeline.Ring.{start_idx-label_from, get_value_at-set_value_at}
use radar_software.Morenos.Timeline.Move.{get_value_at-move_timeline}

-- The index is in the array, and the first chunk begins at a chunk boundary.
pub record IsAligned (t : Timeline) : Type 0 where
  pub index_in : t.start_idx < timeline_depth
  pub aligned : t.start_time % time_chunk_length ≡ 0

-- The label of the chunk that begins at `time`.
abbrev pub label_at : Timeline → ℕ → TimelineLabel
label_at t time = get_value_at t ((time - t.start_time) / time_chunk_length)

-- A move to a chunk boundary keeps the timeline aligned, also when it is refused as a move backward.
pub move_timeline-IsAligned :
    (t : Timeline) (time : ℕ)
    → time % time_chunk_length ≡ 0
    → IsAligned t
    → IsAligned (move_timeline t time)
unfolding move_timeline
move_timeline-IsAligned t time e v =
    ground (arith, multiples_of_multiple u64_mod time time_chunk_length)

pub start_time-move_timeline :
    (t : Timeline) (time : ℕ)
    → time % time_chunk_length ≡ 0
    → t.start_time ≤ time
    → (move_timeline t time).start_time ≡ time
unfolding move_timeline
start_time-move_timeline t time e h =
    ground (arith, multiples_of_multiple u64_mod time time_chunk_length)

-- An aligned timeline moved forward to a chunk boundary by less than its depth shows the same
-- label at each chunk boundary that it showed before, and empty chunks past its old end.
pub label_at-move_timeline :
    (t : Timeline) (time at_time : ℕ)
    → IsAligned t
    → time % time_chunk_length ≡ 0
    → at_time % time_chunk_length ≡ 0
    → t.start_time ≤ time
    → time < t.start_time + timeline_depth * time_chunk_length
    → time ≤ at_time
    → at_time < time + timeline_depth * time_chunk_length
    → label_at (move_timeline t time) at_time ≡ (
        if ltb at_time (t.start_time + timeline_depth * time_chunk_length)
        then label_at t at_time
        else tll_empty)
label_at-move_timeline t time at_time v e ea h1 h2 h3 h4 =
    ap (λ from. get_value_at (move_timeline t time) ((at_time - from) / time_chunk_length))
      (start_time-move_timeline t time e h1)
    ∙ get_value_at-move_timeline t time steps j v.index_in h1 (omega arith) refl (omega arith)
        (omega arith)
    ∙ ap (λ k. if ltb k timeline_depth then get_value_at t k else tll_empty) sum
    ∙ ap (λ b. if b then label_at t at_time else tll_empty) same_test
  where
    steps : ℕ
    steps = (time - t.start_time) / time_chunk_length

    j : ℕ
    j = (at_time - time) / time_chunk_length

    sum : j + steps ≡ (at_time - t.start_time) / time_chunk_length
    sum = omega (arith, v.aligned)

    same_test :
        ltb ((at_time - t.start_time) / time_chunk_length) timeline_depth
        ≡ ltb at_time (t.start_time + timeline_depth * time_chunk_length)
    same_test = ground arith

set_value_at_keeps :
    (t : Timeline) (i j : ℕ) (label : TimelineLabel)
    → get_value_at t j ≡ label
    → get_value_at (set_value_at t i label) j ≡ label
unfolding get_value_at set_value_at
set_value_at_keeps t i j label h = ground arith

get_value_at-label_from_keeps :
    (t : Timeline) (count idx j : ℕ) (label : TimelineLabel)
    → get_value_at t j ≡ label
    → get_value_at (label_from t count idx label) j ≡ label
unfolding label_from
get_value_at-label_from_keeps t zero idx j label h = h
get_value_at-label_from_keeps t (suc count) idx j label h =
    get_value_at-label_from_keeps (set_value_at t idx label) count (idx + 1) j label
      (ground (arith, set_value_at_keeps t idx j label))

get_value_at-label_from_covers :
    (t : Timeline) (count idx j : ℕ) (label : TimelineLabel)
    → idx ≤ j
    → j < idx + count
    → j < timeline_depth
    → get_value_at (label_from t count idx label) j ≡ label
unfolding label_from
get_value_at-label_from_covers t zero idx j label h1 h2 h3 = absurd (omega arith)
get_value_at-label_from_covers t (suc count) idx j label h1 h2 h3 = elim (Bool-cases (idx == j)) [
  | inl e ↦
      get_value_at-label_from_keeps (set_value_at t idx label) count (idx + 1) j label
        (ground (arith, get_value_at-set_value_at t idx j label))
  | inr e ↦
      get_value_at-label_from_covers (set_value_at t idx label) count (idx + 1) j label
        (ground arith) (omega arith) h3
]

timeline_of_all :
    (t : Timeline) (label : TimelineLabel)
    → ((m : ℕ) → m < timeline_depth → get_value_at t m ≡ label)
    → (i : ℕ) → i < timeline_depth
    → t.start_idx < timeline_depth
    → t.timeline i ≡ label
unfolding get_value_at
timeline_of_all t label all i hi hs =
    ap t.timeline (omega arith)
    ∙ all ((i + timeline_depth - t.start_idx) % timeline_depth) (omega arith)

-- A forward move by the whole depth or more, and by less than 2 ^ 32 nanoseconds, leaves every
-- chunk empty.
pub move_timeline_far :
    (t : Timeline) (time j : ℕ)
    → t.start_idx < timeline_depth
    → t.start_time + timeline_depth * time_chunk_length ≤ time
    → time - t.start_time < u32_mod
    → get_value_at (move_timeline t time) j ≡ tll_empty
unfolding move_timeline get_value_at
move_timeline_far t time j hi h1 h2 = ground (
  arith,
  start_idx-label_from t steps 0 tll_empty,
  timeline_of_all cleared tll_empty all ((start + j) % timeline_depth),
)
  where
    steps : ℕ
    steps = u32 (time - t.start_time) / time_chunk_length

    cleared : Timeline
    cleared = label_from t steps 0 tll_empty

    start : ℕ
    start = add32 t.start_idx steps % timeline_depth

    all : (m : ℕ) → m < timeline_depth → get_value_at cleared m ≡ tll_empty
    all m hm = get_value_at-label_from_covers t steps 0 m tll_empty (omega arith) (omega arith) hm

pub move_timeline_backward :
    (t : Timeline) (time : ℕ) → time < t.start_time → move_timeline t time ≡ t
unfolding move_timeline
move_timeline_backward t time h = ground arith
