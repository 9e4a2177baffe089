-- ===== src/Morenos/Signals/Choice.antt =====
-- Which signal a query gets, and when there is a pair at all.
use radar_software.Prelude.{
  ℕ, ◌+◌, ◌-◌, ◌*◌, ◌≤◌, ◌<◌, ◌≡◌, Bool, true, false, arith, u32_mod, Returns,
}
use radar_software.Double.{Double}
use radar_software.Morenos.Settings.{frequency_factor}
use radar_software.Morenos.Query.{
  QueryType, search_query, confirm, capture, tracking, signal_change, tech_control, drop,
}
use radar_software.Morenos.ScanPair.{range_delay}
use radar_software.Morenos.Signals.{
  SignalType, get_signal_code, signal_tbl, pulse_train_length, build_scan_pair, scan_duration,
}
use radar_software.Morenos.Signals.Total.{IsPair, signal_tbl_pulses, create_scan_pair-IsPair}

-- The query types that a signal is chosen for.
abbrev pub emits : QueryType → Bool
emits signal_change = false
emits tech_control = false
emits drop = false
emits _ = true

-- The signal chosen for a search, confirm, capture or tracking query is long enough: its duration
-- times the number of pulses of its train is at least the wanted duration, for durations of which
-- the number of pulses is in 32 bits.
pub get_signal_code_covers :
    (tau_nsec : ℕ) (type : QueryType)
    → emits type ≡ true
    → tau_nsec < 240000 * (u32_mod - 1)
    → tau_nsec ≤ (signal_tbl (get_signal_code tau_nsec type)).duration * pulse_train_length tau_nsec
unfolding get_signal_code signal_tbl
get_signal_code_covers tau_nsec search_query e h = ground arith
get_signal_code_covers tau_nsec confirm e h = ground arith
get_signal_code_covers tau_nsec capture e h = ground arith
get_signal_code_covers tau_nsec tracking e h = ground arith
get_signal_code_covers tau_nsec signal_change e h = cc
get_signal_code_covers tau_nsec tech_control e h = cc
get_signal_code_covers tau_nsec drop e h = cc

-- Where the computed duration is positive, `build_scan_pair` makes a scan pair, for a range whose
-- delay is in 32 bits with room for rounding.
pub build_scan_pair-IsPair :
    (double : Double) (range rcs : double.D) (type : QueryType)
    → range_delay double range + frequency_factor < u32_mod
    → double.lt (double.decimal 0 0) (scan_duration double range rcs) ≡ true
    → Returns (build_scan_pair double range rcs type) IsPair
unfolding build_scan_pair
build_scan_pair-IsPair double range rcs type h positive =
    rw positive
      (create_scan_pair-IsPair double (signal_tbl code) tau_nsec range h (signal_tbl_pulses code))
  where
    tau_nsec : ℕ
    tau_nsec =
        double.to_u64 (double.mul (scan_duration double range rcs) (double.decimal 1000000000 0))

    code : SignalType
    code = get_signal_code tau_nsec type
