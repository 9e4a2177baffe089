-- ===== src/Morenos/Timeline/Check.antt =====
-- What `check_index` and `get_idx_for` decide.
use radar_software.Prelude.{ℕ, zero, suc, ◌+◌, ◌*◌, ◌≤◌, ◌<◌, ◌≡◌, ◌↔◌, Bool, true, some, arith}
use radar_software.Morenos.Settings.{time_chunk_length, timeline_depth}
use radar_software.Morenos.Timeline.{
  TimelineLabel, Timeline, get_value_at, check_from, check_index, get_idx_for,
}

-- `length` chunks from `pos` on lie in the timeline and pass the test.
abbrev pub AreFree : Timeline → ℕ → ℕ → (TimelineLabel → Bool) → Type 0
AreFree t length pos pred =
    (k : ℕ) → k < length → (pos + k < timeline_depth) × (pred (get_value_at t (pos + k)) ≡ true)

check_from-AreFree :
    (t : Timeline) (length pos : ℕ) (pred : TimelineLabel → Bool)
    → check_from t length pos pred ≡ true
    → AreFree t length pos pred
unfolding check_from
check_from-AreFree t zero pos pred h k hk = elim hk [ ]
check_from-AreFree t (suc length) pos pred h zero hk =
    let e : pos + 0 ≡ pos = omega arith in rw e (ground arith, ground arith)
check_from-AreFree t (suc length) pos pred h (suc k) hk =
    let e : pos + suc k ≡ pos + 1 + k = omega arith in
    rw e (check_from-AreFree t length (pos + 1) pred (ground arith) k (omega arith))

AreFree-check_from :
    (t : Timeline) (length pos : ℕ) (pred : TimelineLabel → Bool)
    → AreFree t length pos pred
    → check_from t length pos pred ≡ true
unfolding check_from
AreFree-check_from t zero pos pred h = ground arith
AreFree-check_from t (suc length) pos pred h =
    ground (arith, first, AreFree-check_from t length (pos + 1) pred later)
  where
    first : (pos < timeline_depth) × (pred (get_value_at t pos) ≡ true)
    first = let e : pos + 0 ≡ pos = omega arith in rw e at (h 0 (omega arith))

    later : AreFree t length (pos + 1) pred
    later k hk =
        let e : pos + suc k ≡ pos + 1 + k = omega arith in rw e at (h (suc k) (omega arith))

-- `check_index` succeeds exactly when the length and the index are not above the depth, and each of
-- the `length` chunks from `idx` on lies in the timeline and passes the test.
pub check_index_iff :
    (t : Timeline) (length idx : ℕ) (pred : TimelineLabel → Bool)
    → (check_index t length idx pred ≡ true)
      ↔ ((length ≤ timeline_depth) × (idx ≤ timeline_depth) × AreFree t length idx pred)
unfolding check_index
check_index_iff t length idx pred = (
  λ h. (ground arith, ground arith, check_from-AreFree t length idx pred (ground arith)),
  λ h. ground (arith, AreFree-check_from t length idx pred h.2),
)

-- Where `get_idx_for` gives an index the time is not past the depth, it lies before the end of the
-- chunk of that index, and this chunk begins at most one chunk length after it: a time at the
-- start of a chunk may be counted to the next chunk.
pub get_idx_for_bounds :
    (time idx : ℕ)
    → get_idx_for time ≡ some idx
    → (time < (idx + 1) * time_chunk_length)
      × (idx * time_chunk_length ≤ time + time_chunk_length)
      × (time ≤ timeline_depth * time_chunk_length)
unfolding get_idx_for
get_idx_for_bounds time idx h = ground arith
