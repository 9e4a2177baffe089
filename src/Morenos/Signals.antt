-- ===== src/Morenos/Signals.antt =====
-- Morenos/Scheduler_Model — копия/BuildScanPair.{h,cpp}: the choice of a signal for a query, and the
-- scan pair made of it. A failed `assert` ends the program: the result is then `none`.
pub mod Total
pub mod Choice
pub mod Returns
pub mod Trains
pub mod Built
use radar_software.Prelude.{
  ℕ, ◌+◌, ◌/◌, ◌&&◌, ◌||◌, Option, none, some, ltb, leb, if◌then◌else◌, u32, mul32,
}
use radar_software.Double.{Double}
use radar_software.Morenos.Settings.{duty_factor, frequency_factor}
use radar_software.Morenos.Utility.{multiples_of32}
use radar_software.Morenos.Query.{
  QueryType, search_query, confirm, capture, tracking, signal_change, tech_control, drop,
}
use radar_software.Morenos.ScanPair.{
  ScanPair, new_scan_pair, set_transmit, set_receive, set_receive_time,
}

-- `enum SignalType`
pub data SignalType : Type 0 where
  sots1 sots2 sots3 sots4 sots5 : SignalType
  sots6 sots7 sots8 sots9 sots10 : SignalType
  sots11 sots12 sots13 sots14 sots15 : SignalType
  safm1 safm2 safm3 safm4 sss : SignalType
  sdp1 sdp2 sdp3 sdp4 sdsps : SignalType

pub record SignalParams : Type 0 where
  pub duration : ℕ
  pub deviation : ℕ
  pub period_low : ℕ
  pub period_high : ℕ
  pub pulses_number_low : ℕ
  pub pulse_number_high : ℕ
  pub max_process_time : ℕ

-- The branch of `get_signal_code` for search, capture and confirm queries.
unfoldable pub survey_code : ℕ → SignalType
survey_code tau_nsec =
    if leb tau_nsec 100
    then sots15
    else if leb 100 tau_nsec && leb tau_nsec 1000
    then sots12
    else if ltb 1000 tau_nsec && leb tau_nsec 8000
    then sots11
    else if ltb 8000 tau_nsec && leb tau_nsec 15000
    then sots10
    else if ltb 15000 tau_nsec && leb tau_nsec 30000
    then sots9
    else if ltb 30000 tau_nsec && leb tau_nsec 60000
    then sots8
    else if ltb 60000 tau_nsec && leb tau_nsec 120000
    then sots7
    else sots6

-- Its branch for tracking queries.
unfoldable pub tracking_code : ℕ → SignalType
tracking_code tau_nsec =
    if leb tau_nsec 100
    then sots15
    else if leb 100 tau_nsec && leb tau_nsec 1000
    then sots14
    else if ltb 1000 tau_nsec && leb tau_nsec 8000
    then sots13
    else if ltb 8000 tau_nsec && leb tau_nsec 15000
    then sots5
    else if ltb 15000 tau_nsec && leb tau_nsec 30000
    then sots4
    else if ltb 30000 tau_nsec && leb tau_nsec 60000
    then sots3
    else if ltb 60000 tau_nsec && leb tau_nsec 120000
    then sots2
    else sots1

-- The argument is `tau_nsec`, the duration in whole nanoseconds.
unfoldable pub get_signal_code : ℕ → QueryType → SignalType
unfolding survey_code tracking_code
get_signal_code tau_nsec search_query = survey_code tau_nsec
get_signal_code tau_nsec capture = survey_code tau_nsec
get_signal_code tau_nsec confirm = survey_code tau_nsec
get_signal_code tau_nsec tracking = tracking_code tau_nsec
get_signal_code tau_nsec signal_change = sss
get_signal_code tau_nsec tech_control = sss
get_signal_code tau_nsec drop = sss

abbrev params : (duration deviation low high n_low n_high process_time : ℕ) → SignalParams
params duration deviation low high n_low n_high process_time = record {
  duration = duration;
  deviation = deviation;
  period_low = low;
  period_high = high;
  pulses_number_low = n_low;
  pulse_number_high = n_high;
  max_process_time = process_time;
}

-- `signal_tbl[…]`: a signal that the table lacks gets an entry of zeros.
unfoldable pub signal_tbl : SignalType → SignalParams
signal_tbl sots1 = params 240000 20000 1920000 2300000 1 16 10007
signal_tbl sots2 = params 120000 20000 960000 2300000 1 16 10007
signal_tbl sots3 = params 60000 20000 480000 2300000 1 16 10007
signal_tbl sots4 = params 30000 20000 240000 2300000 1 16 10007
signal_tbl sots5 = params 15000 20000 120000 2300000 1 16 10007
signal_tbl sots6 = params 240000 250 1920000 2300000 1 16 10007
signal_tbl sots7 = params 120000 250 960000 2300000 1 16 10007
signal_tbl sots8 = params 60000 250 480000 2300000 1 16 800553
signal_tbl sots9 = params 30000 250 240000 2300000 1 16 800553
signal_tbl sots10 = params 15000 250 120000 2300000 1 16 800553
signal_tbl sots11 = params 8000 0 64000 2300000 1 16 800553
signal_tbl sots12 = params 1000 0 8000 2300000 1 16 800553
signal_tbl sots13 = params 8000 20000 64000 2300000 1 16 800553
signal_tbl sots14 = params 1000 20000 8000 2300000 1 16 200138
signal_tbl sots15 = params 100 0 1000 2300000 1 1 20013
signal_tbl _ = params 0 0 0 0 0 0 0

-- The number of pulses that a signal of `tau_nsec` is split into.
abbrev pub pulse_train_length : ℕ → ℕ
pulse_train_length tau_nsec = u32 (tau_nsec / 240000 + 1)

module _ (double : Double) where
  open double use {D, add, sub, mul, div, sqrt, pow, sin, lt, decimal, to_u64}

  -- `none` is an exception of the constructor of the pair.
  unfoldable pub create_scan_pair : SignalParams → ℕ → D → Option ScanPair
  create_scan_pair signal_params tau_nsec range =
      let wanted = pulse_train_length tau_nsec in
      let t_transmit = mul32 signal_params.duration duty_factor in
      if ltb signal_params.pulse_number_high wanted || ltb wanted signal_params.pulses_number_low
      then new_scan_pair 1
      else elim (new_scan_pair wanted) [
        | none ↦ none
        | some ret ↦
            if ltb signal_params.period_high t_transmit || ltb t_transmit signal_params.period_low
            then new_scan_pair 1
            else let length = multiples_of32 signal_params.duration frequency_factor in
              let period = multiples_of32 t_transmit frequency_factor in
              some (
                set_receive_time double (set_receive (set_transmit ret length period) length period)
                  range)
      ]

  -- The path through a layer of the atmosphere of height `height` at the elevation of 20 degrees.
  abbrev layer_path : D → D → D
  layer_path elevation_rad height =
      sub
        (sqrt (
          add (pow (mul (decimal 8500 0) (sin elevation_rad)) (decimal 2 0))
            (mul (mul (decimal 2 0) (decimal 8500 0)) height)))
        (mul (decimal 8500 0) (sin elevation_rad))

  abbrev pub scan_duration : D → D → D
  scan_duration range rcs =
      let pi = decimal 314159265358979323846 20 in
      let elevation = decimal 20 0 in
      let elevation_rad = div (mul elevation pi) (decimal 180 0) in
      let q = decimal 20 0 in
      let power = decimal 120000 0 in
      let r_h2o = layer_path elevation_rad (decimal 2 0) in
      let r_o = layer_path elevation_rad (decimal 4 0) in
      let n = div (decimal 1 0) (
        pow (decimal 10 0) (
          div (mul (decimal 2 0) (add (mul (decimal 7 2) r_h2o) (mul (decimal 45 3) r_o)))
            (decimal 10 0))) in
      let t_a = sub (decimal 79 0) (div (mul (decimal 17 0) elevation) (decimal 10 0)) in
      let t = add (mul t_a (decimal 507 3)) (decimal 4415 1) in
      let coef1 =
        div (mul (mul (decimal 883 5) (decimal 883 5)) n)
          (mul (mul (pow (mul (decimal 4 0) pi) (decimal 3 0)) (decimal 138 25)) t) in
      let coef2 =
        mul
          (mul (mul (pow (decimal 10 0) (decimal 537 2)) (pow (decimal 10 0) (decimal 6785 3)))
            (decimal 1 0))
          (decimal 1 0) in
      div (mul (mul q q) (pow range (decimal 4 0))) (mul (mul (mul coef1 coef2) rcs) power)

  -- `assert(tau > 0.0)` of `get_signal_code` and `create_scan_pair` is one test of one value.
  unfoldable pub build_scan_pair : D → D → QueryType → Option ScanPair
  unfolding create_scan_pair
  build_scan_pair range rcs type =
      let tau = scan_duration range rcs in
      let tau_nsec = to_u64 (mul tau (decimal 1000000000 0)) in
      if lt (decimal 0 0) tau
      then create_scan_pair (signal_tbl (get_signal_code tau_nsec type)) tau_nsec range
      else none
