-- ===== src/Morenos/Timeline/Move.antt =====
-- The conveyor moved forward in time.
use radar_software.Prelude.{
  ℕ, ◌+◌, ◌-◌, ◌/◌, ◌%◌, ◌≤◌, ◌<◌, ◌≡◌, ap, arith, ltb, if◌then◌else◌, u32_mod, add32,
}
use radar_software.Morenos.Settings.{time_chunk_length, timeline_depth}
use radar_software.Morenos.Utility.{multiples_of64}
use radar_software.Morenos.Timeline.{tll_empty, Timeline, get_value_at, label_from, move_timeline}
use radar_software.Morenos.Timeline.Ring.{get_value_at-label_from, start_idx-label_from}

pub get_value_at_rotated :
    (t : Timeline) (steps j time : ℕ)
    → t.start_idx < timeline_depth
    → steps < timeline_depth
    → get_value_at
        (record t { start_time = time; start_idx = add32 t.start_idx steps % timeline_depth })
        j
      ≡ get_value_at t (j + steps)
unfolding get_value_at
get_value_at_rotated t steps j time hi hs = ap t.timeline (omega arith)

get_value_at_round :
    (t : Timeline) (j : ℕ)
    → timeline_depth ≤ j
    → get_value_at t j ≡ get_value_at t (j - timeline_depth)
unfolding get_value_at
get_value_at_round t j h = ap t.timeline (omega arith)

-- A forward move of fewer chunks than the timeline has, `steps` of them, by a time in 32 bits, is
-- a shift: chunk `j` is what chunk `j + steps` was, and the last `steps` chunks are empty.
pub get_value_at-move_timeline :
    (t : Timeline) (time steps j : ℕ)
    → t.start_idx < timeline_depth
    → t.start_time ≤ time
    → time - t.start_time < u32_mod
    → steps ≡ (time - t.start_time) / time_chunk_length
    → steps < timeline_depth
    → j < timeline_depth
    → get_value_at (move_timeline t time) j
      ≡ (if ltb (j + steps) timeline_depth then get_value_at t (j + steps) else tll_empty)
unfolding move_timeline
get_value_at-move_timeline t time steps j hi hs hw e hk hj = ground (
  arith,
  start_idx-label_from t steps 0 tll_empty,
  get_value_at_rotated (label_from t steps 0 tll_empty) steps j
      (multiples_of64 time time_chunk_length),
  get_value_at_round (label_from t steps 0 tll_empty) (j + steps),
  get_value_at-label_from t steps 0 (j + steps) tll_empty,
  get_value_at-label_from t steps 0 (j + steps - timeline_depth) tll_empty,
)
