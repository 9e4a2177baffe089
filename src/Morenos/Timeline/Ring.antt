-- ===== src/Morenos/Timeline/Ring.antt =====
-- The timeline read through its circular index: single writes and labelled sectors.
use radar_software.Prelude.{
  ℕ, zero, suc, ◌+◌, ◌-◌, ◌≤◌, ◌<◌, ◌≡◌, refl, ◌&&◌, arith, ltb, leb, ◌==◌, if◌then◌else◌,
}
use radar_software.Morenos.Settings.{timeline_depth}
use radar_software.Morenos.Timeline.{
  TimelineLabel, Timeline, get_value_at, set_value_at, label_from, label_sector,
}

pub get_value_at-set_value_at :
    (t : Timeline) (i j : ℕ) (label : TimelineLabel)
    → i < timeline_depth
    → j < timeline_depth
    → get_value_at (set_value_at t i label) j ≡ (if j == i then label else get_value_at t j)
unfolding get_value_at set_value_at
get_value_at-set_value_at t i j label hi hj = ground arith

pub get_value_at-label_from :
    (t : Timeline) (count idx j : ℕ) (label : TimelineLabel)
    → idx + count ≤ timeline_depth
    → j < timeline_depth
    → get_value_at (label_from t count idx label) j
      ≡ (if leb idx j && ltb j (idx + count) then label else get_value_at t j)
unfolding label_from
get_value_at-label_from t zero idx j label h hj = ground arith
get_value_at-label_from t (suc count) idx j label h hj = ground (
  arith,
  get_value_at-label_from (set_value_at t idx label) count (idx + 1) j label,
  get_value_at-set_value_at t idx j label,
)

-- `label_sector` from `start` to `stop`, both within the timeline and in this order, gives each chunk
-- from `start` to `stop`, both ends included, the label, and leaves every other chunk of the timeline.
pub get_value_at-label_sector :
    (t : Timeline) (start stop j : ℕ) (label : TimelineLabel)
    → start ≤ stop
    → stop < timeline_depth
    → j < timeline_depth
    → get_value_at (label_sector t start stop label) j
      ≡ (if leb start j && leb j stop then label else get_value_at t j)
unfolding label_sector
get_value_at-label_sector t start stop j label h hs hj =
    ground (arith, get_value_at-label_from t (stop + 1 - start) start j label)

pub label_sector_reversed :
    (t : Timeline) (start stop : ℕ) (label : TimelineLabel)
    → stop < start
    → label_sector t start stop label ≡ t
unfolding label_sector
label_sector_reversed t start stop label h = ground arith

pub start_idx-label_from :
    (t : Timeline) (count idx : ℕ) (label : TimelineLabel)
    → ((label_from t count idx label).start_idx ≡ t.start_idx)
      × ((label_from t count idx label).start_time ≡ t.start_time)
unfolding label_from set_value_at
start_idx-label_from t zero idx label = (refl, refl)
start_idx-label_from t (suc count) idx label =
    start_idx-label_from (set_value_at t idx label) count (idx + 1) label
