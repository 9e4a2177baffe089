-- ===== src/Morenos/Timeline.antt =====
-- `class Timeline` of Morenos/Scheduler_Model — копия/Timeline.{h,cpp}: a conveyor of time chunks in
-- a circular array. The array of `timeline_depth` labels is a function on indices.
pub mod Ring
pub mod Check
pub mod Move
pub mod View
use radar_software.Prelude.{
  ℕ, zero, suc, ◌+◌, ◌-◌, ◌*◌, ◌/◌, ◌%◌, Bool, true, false, Option, none, some, ltb, leb, ◌==◌,
  if◌then◌else◌, u32, u32_mod, add32,
}
use radar_software.Double.{Double}
use radar_software.Morenos.Settings.{time_chunk_length, timeline_depth}
use radar_software.Morenos.Utility.{multiples_of64}

-- `enum TimelineLabel`
pub data TimelineLabel : Type 0 where
  tll_empty : TimelineLabel
  tll_dcu_receive : TimelineLabel
  tll_dcu_transmit : TimelineLabel
  tll_au_rephase : TimelineLabel
  tll_au_command_delay : TimelineLabel
  tll_au_channel_switch : TimelineLabel
  tll_dcu_energy_restore : TimelineLabel

pub record Timeline : Type 0 where
  pub start_time : ℕ
  pub start_idx : ℕ
  pub timeline : ℕ → TimelineLabel

-- The constructor.
abbrev pub new_timeline : Timeline
new_timeline = record { start_time = 0; start_idx = 0; timeline = λ _. tll_empty }

-- `get_value_at` read, and written through the reference that it returns.
unfoldable pub get_value_at : Timeline → ℕ → TimelineLabel
get_value_at t idx = t.timeline ((t.start_idx + idx) % timeline_depth)

unfoldable pub set_value_at : Timeline → ℕ → TimelineLabel → Timeline
set_value_at t idx label =
    let place = (t.start_idx + idx) % timeline_depth in
    record t { timeline = λ i. if i == place then label else t.timeline i }

-- The loop of `check_index`: `length` chunks from `pos` on.
unfoldable pub check_from : Timeline → ℕ → ℕ → (TimelineLabel → Bool) → Bool
check_from t zero pos pred = true
check_from t (suc length) pos pred =
    let rest = check_from t length (pos + 1) pred in
    if leb timeline_depth pos then false else if pred (get_value_at t pos) then rest else false

unfoldable pub check_index : Timeline → ℕ → ℕ → (TimelineLabel → Bool) → Bool
check_index t length idx pred =
    if ltb timeline_depth length
    then false
    else if ltb timeline_depth idx
    then false
    else check_from t length idx pred

-- The loop of `label_sector`: `count` chunks from `idx` on.
unfoldable pub label_from : Timeline → ℕ → ℕ → TimelineLabel → Timeline
label_from t zero idx label = t
label_from t (suc count) idx label = label_from (set_value_at t idx label) count (idx + 1) label

unfoldable pub label_sector : Timeline → ℕ → ℕ → TimelineLabel → Timeline
label_sector t start stop label =
    if ltb stop start then t else label_from t (stop + 1 - start) start label

-- `none` is the result -1.
unfoldable pub get_idx_for : ℕ → Option ℕ
get_idx_for time =
    if ltb (timeline_depth * time_chunk_length) time
    then none
    else if time % time_chunk_length == 0
    then some (time / time_chunk_length + 1)
    else some (time / time_chunk_length)

-- The conversion of an `std::int32_t` index to the `std::uint32_t` of a parameter.
abbrev pub as_index : Option ℕ → ℕ
as_index none = u32_mod - 1
as_index (some idx) = idx

unfoldable pub move_timeline : Timeline → ℕ → Timeline
move_timeline t time =
    if ltb time t.start_time
    then t
    else let steps = u32 (time - t.start_time) / time_chunk_length in
      record (label_from t steps 0 tll_empty) {
        start_time = multiples_of64 time time_chunk_length;
        start_idx = add32 t.start_idx steps % timeline_depth;
      }

-- The loop of `occupation`: the empty chunks among the first `count` of the array.
unfoldable pub empty_chunks : (ℕ → TimelineLabel) → ℕ → ℕ
empty_chunks timeline zero = 0
empty_chunks timeline (suc count) = elim (timeline count) [
  | tll_empty ↦ empty_chunks timeline count + 1
  | _ ↦ empty_chunks timeline count
]

-- `occupation`
unfoldable pub occupation : (double : Double) → Timeline → double.D
unfolding empty_chunks
occupation double t =
    double.div (double.from_u64 (empty_chunks t.timeline timeline_depth))
      (double.from_u64 timeline_depth)
