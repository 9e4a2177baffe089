-- ===== src/Morenos/Tests/Timelines.antt =====
-- The theorems about times, timelines and signals at concrete inputs.
use radar_software.Double.{Double}
use radar_software.Prelude.{
  ◌/◌, ◌%◌, ◌^◌, u64_mod, u32, true, ◌+◌, ◌*◌, ◌≤◌, ◌≡◌, refl, some, arith, ltb, if◌then◌else◌,
  Returns,
}
use radar_software.Morenos.Settings.{timeline_depth, time_chunk_length}
use radar_software.Morenos.Query.{tracking, search_query}
use radar_software.Morenos.Timeline.{tll_empty, get_idx_for, move_timeline}
use radar_software.Morenos.Timeline.View.{IsAligned, label_at, label_at-move_timeline}
use radar_software.Morenos.Signals.{
  get_signal_code, signal_tbl, pulse_train_length, build_scan_pair,
}
use radar_software.Morenos.Signals.Total.{IsPair}
use radar_software.Morenos.Signals.Choice.{get_signal_code_covers}
use radar_software.Morenos.ScanPair.{range_delay}
use radar_software.Morenos.Signals.Built.{build_scan_pair-IsBuilt, IsBuilt, wanted_nsec, fits}
use radar_software.Morenos.Tests.Data.{whole, busy}

busy-IsAligned : IsAligned busy
busy-IsAligned = record { index_in = omega arith; aligned = refl }

idx_25000 : get_idx_for 25000 ≡ some 2
unfolding get_idx_for
idx_25000 = refl

label_at_example : label_at (move_timeline busy 40000) 50000 ≡ (
    if ltb 50000 (busy.start_time + timeline_depth * time_chunk_length)
    then label_at busy 50000
    else tll_empty)
label_at_example =
    label_at-move_timeline busy 40000 50000 busy-IsAligned refl refl (omega arith) (omega arith)
      (omega arith) (omega arith)

-- Numbers in thousandths, with a quotient that is never zero.
abbrev thousandths : Double
thousandths = record whole {
  mul = λ a b. a * b / 1000;
  div = λ a b. a * 1000 / (b + 1) + 1;
  pow = λ a b. a * b / 1000;
  decimal = λ m e. m * 1000 / 10 ^ e;
  from_u64 = λ a. a * 1000;
  to_u64 = λ a. a / 1000 % u64_mod;
  to_u32 = λ a. u32 (a / 1000);
}

-- Two kilometres, and a duration that a train fits.
a_train_fits : fits tracking (wanted_nsec thousandths 2000000 4500000) ≡ true
a_train_fits = refl

build_scan_pair_example : Returns (build_scan_pair thousandths 2000000 4500000 tracking) (λ s.
    IsPair s
    × IsBuilt tracking
        (wanted_nsec thousandths 2000000 4500000)
        (range_delay thousandths 2000000)
        (fits tracking (wanted_nsec thousandths 2000000 4500000))
        s)
build_scan_pair_example =
    build_scan_pair-IsBuilt thousandths 2000000 4500000 tracking (omega arith) refl (omega arith)

get_signal_code_example :
    9000 ≤ (signal_tbl (get_signal_code 9000 search_query)).duration * pulse_train_length 9000
get_signal_code_example = get_signal_code_covers 9000 search_query refl (omega arith)
