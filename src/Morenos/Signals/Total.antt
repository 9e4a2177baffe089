-- ===== src/Morenos/Signals/Total.antt =====
-- What `create_scan_pair` makes: the shape of the pair.
use radar_software.Prelude.{
  ℕ, ◌+◌, ◌%◌, ◌≤◌, ◌<◌, ◌≡◌, refl, ◌⊎◌, inl, inr, none, some, arith, ltb, if◌then◌else◌,
  Bool-cases, ◌==◌, ltb-false→le, ◌||◌, mul32, u32_mod, Returns,
}
use radar_software.Double.{Double}
use radar_software.Morenos.Settings.{duty_factor, frequency_factor}
use radar_software.Morenos.Utility.{multiples_of32, multiples_of_least}
use radar_software.Morenos.ScanPair.{
  ScanPair, transmit_time, empty_pair, new_scan_pair, set_receive, set_transmit, place_receive,
  set_receive_time, range_delay,
}
use radar_software.Morenos.Signals.{
  SignalType, sots15, SignalParams, signal_tbl, pulse_train_length, create_scan_pair,
}

-- The least power of two that is not below the given number, up to 16.
abbrev pub train_size : ℕ → ℕ
train_size wanted =
    if ltb 8 wanted
    then 16
    else if ltb 4 wanted
    then 8
    else if ltb 2 wanted
    then 4
    else if ltb 1 wanted
    then 2
    else 1

pub new_scan_pair_lem :
    (wanted : ℕ)
    → new_scan_pair wanted ≡ (if ltb 16 wanted then none else some (empty_pair (train_size wanted)))
unfolding new_scan_pair
new_scan_pair_lem wanted = ground arith

pub signal_tbl_pulses : (code : SignalType) → (signal_tbl code).pulse_number_high ≤ 16
unfolding signal_tbl
signal_tbl_pulses sots15 = omega arith
signal_tbl_pulses _ = omega arith

-- What every scan pair has: up to 16 pulses, the first at once, the receive windows as the pulses, the
-- receive time a multiple of the frequency factor and, in a train, not before the end of the pulses.
pub record IsPair (s : ScanPair) : Type 0 where
  pub some_pulse : 1 ≤ s.size
  pub few_pulses : s.size ≤ 16
  pub first_at_once : (s.transmit 0).offset_time ≡ 0
  pub mirrored : (i : ℕ) → s.receive i ≡ s.transmit i
  pub time_multiple : s.receive_time % frequency_factor ≡ 0
  pub after_train :
      (s.receive_time ≡ 0) ⊎ (s.size ≡ 1) ⊎ (transmit_time s.transmit s.size 0 0 ≤ s.receive_time)

empty_pair-IsPair : IsPair (empty_pair 1)
empty_pair-IsPair = record {
  some_pulse = omega arith;
  few_pulses = omega arith;
  first_at_once = refl;
  mirrored = λ i. refl;
  time_multiple = refl;
  after_train = inl refl;
}

place_receive-IsPair :
    (s : ScanPair) (delay : ℕ)
    → delay + frequency_factor < u32_mod
    → s.receive_time ≡ 0
    → IsPair s
    → IsPair (place_receive s delay)
unfolding place_receive
place_receive-IsPair s delay h z v = elim (Bool-cases ((s.transmit 0).length == 0)) [
  | inl e ↦ rw e v
  | inr e ↦ rw e (elim (Bool-cases (ltb 1 s.size)) [
    | inl train ↦ rw train (elim (Bool-cases (ltb delay (transmit_time s.transmit s.size 0 0))) [
      | inl late ↦ rw late v
      | inr fits ↦ rw fits (placed (inr (inr (omega (arith, least, ltb-false→le _ _ fits)))))
    ])
    | inr single ↦
        rw single (placed (inr (inl (omega (arith, ltb-false→le _ _ single, v.some_pulse)))))
  ])
]
  where
    least :
        (multiples_of32 delay frequency_factor % frequency_factor ≡ 0)
        × (delay ≤ multiples_of32 delay frequency_factor)
        × (multiples_of32 delay frequency_factor < delay + frequency_factor)
    least = multiples_of_least u32_mod delay frequency_factor (omega arith) h

    placed :
        (multiples_of32 delay frequency_factor ≡ 0)
          ⊎ (s.size ≡ 1)
          ⊎ (transmit_time s.transmit s.size 0 0 ≤ multiples_of32 delay frequency_factor)
        → IsPair (record s { receive_time = multiples_of32 delay frequency_factor })
    placed after = record {
      some_pulse = v.some_pulse;
      few_pulses = v.few_pulses;
      first_at_once = v.first_at_once;
      mirrored = v.mirrored;
      time_multiple = least.0;
      after_train = after;
    }

set_pulses-IsPair :
    (size length period : ℕ)
    → 1 ≤ size
    → size ≤ 16
    → IsPair (set_receive (set_transmit (empty_pair size) length period) length period)
unfolding set_receive set_transmit
set_pulses-IsPair size length period h1 h2 = record {
  some_pulse = h1;
  few_pulses = h2;
  first_at_once = ground arith;
  mirrored = λ i. refl;
  time_multiple = refl;
  after_train = inl refl;
}

pub train_size_bounds : (wanted : ℕ) → (1 ≤ train_size wanted) × (train_size wanted ≤ 16)
train_size_bounds wanted = ground arith

pub new_scan_pair-le :
    (wanted : ℕ) → wanted ≤ 16 → new_scan_pair wanted ≡ some (empty_pair (train_size wanted))
new_scan_pair-le wanted h = ground (arith, new_scan_pair_lem wanted)

-- Every pair that `create_scan_pair` makes is a scan pair, and it throws no exception: for parameters
-- of at most 16 pulses, and a range whose delay is in 32 bits with room for rounding.
pub create_scan_pair-IsPair :
    (double : Double) (signal_params : SignalParams) (tau_nsec : ℕ) (range : double.D)
    → range_delay double range + frequency_factor < u32_mod
    → signal_params.pulse_number_high ≤ 16
    → Returns (create_scan_pair double signal_params tau_nsec range) IsPair
unfolding create_scan_pair set_receive_time set_receive set_transmit
create_scan_pair-IsPair double signal_params tau_nsec range h few =
    elim (Bool-cases (ltb high wanted || ltb wanted signal_params.pulses_number_low)) [
      | inl bad ↦ rw bad (rw (new_scan_pair-le 1 (omega arith)) empty_pair-IsPair)
      | inr good ↦
          rw (good, new_scan_pair-le wanted (ground arith))
            (elim (Bool-cases
              (ltb signal_params.period_high period || ltb period signal_params.period_low)) [
                | inl bad ↦ rw bad (rw (new_scan_pair-le 1 (omega arith)) empty_pair-IsPair)
                | inr fits ↦ rw fits (
                    place_receive-IsPair _ (range_delay double range) h refl (
                      set_pulses-IsPair (train_size wanted) _ _ (train_size_bounds wanted).0
                        (train_size_bounds wanted).1))
              ])
    ]
  where
    wanted : ℕ
    wanted = pulse_train_length tau_nsec

    high : ℕ
    high = signal_params.pulse_number_high

    period : ℕ
    period = mul32 signal_params.duration duty_factor

-- With the parameters of SOTS15, whose period is below its own lower limit, `create_scan_pair`
-- gives for every duration and range the empty pair of a single pulse of no length.
pub sots15_rejected :
    (double : Double) (tau_nsec : ℕ) (range : double.D)
    → create_scan_pair double (signal_tbl sots15) tau_nsec range ≡ some (empty_pair 1)
unfolding create_scan_pair signal_tbl
sots15_rejected double tau_nsec range = elim (Bool-cases (ltb 1 wanted || ltb wanted 1)) [
  | inl bad ↦ rw bad (new_scan_pair-le 1 (omega arith))
  | inr good ↦ rw (good, new_scan_pair-le wanted (ground arith)) (new_scan_pair-le 1 (omega arith))
]
  where
    wanted : ℕ
    wanted = pulse_train_length tau_nsec
