-- ===== src/Morenos/Signals/Trains.antt =====
-- The trains of pulses that `create_scan_pair` makes of the signals of the table.
use native.Mathlib.Nat.{mod-eq_of_lt, mul-le-mul}
use radar_software.Prelude.{
  ℕ, ◌+◌, ◌*◌, ◌%◌, ◌≤◌, ◌<◌, ◌≡◌, refl, ◌∙◌, true, false, ◌&&◌, ◌||◌, some, arith, u32_mod, zero,
  suc, add32, lt→ltb, eq→==, ltb, le→ltb-false, if◌then◌else◌, mul32, ◌==◌, inl, inr, Bool-cases,
  ap,
}
use radar_software.Double.{Double}
use radar_software.Morenos.Settings.{duty_factor, frequency_factor}
use radar_software.Morenos.Utility.{multiples_of, multiples_of32}
use radar_software.Morenos.Query.{
  QueryType, search_query, confirm, capture, tracking, signal_change, tech_control, drop,
}
use radar_software.Morenos.ScanPair.{
  ScanPair, empty_pair, set_receive, set_transmit, set_receive_time, place_receive, range_delay,
  transmit_time, PulseDesc, no_pulse, pulse_at,
}
use radar_software.Morenos.Signals.{
  SignalParams, get_signal_code, signal_tbl, pulse_train_length, create_scan_pair,
}
use radar_software.Morenos.Signals.Choice.{emits}
use radar_software.Morenos.Signals.Total.{train_size, new_scan_pair-le, train_size_bounds}

-- The signal can be a train of 1 to 16 pulses with eight times its duration as the period.
abbrev pub IsUsable : SignalParams → Type 0
IsUsable p =
    (p.period_low ≤ p.duration * 8)
    × (p.duration * 8 ≤ p.period_high)
    × (p.pulses_number_low ≡ 1)
    × (p.pulse_number_high ≡ 16)
    × (1 ≤ p.duration)
    × (p.duration ≤ 240000)
    × (p.duration % 100 ≡ 0)

pub get_signal_code-IsUsable :
    (tau_nsec : ℕ) (type : QueryType)
    → emits type ≡ true
    → 100 < tau_nsec
    → IsUsable (signal_tbl (get_signal_code tau_nsec type))
unfolding get_signal_code signal_tbl
get_signal_code-IsUsable tau_nsec search_query e h = ground arith
get_signal_code-IsUsable tau_nsec confirm e h = ground arith
get_signal_code-IsUsable tau_nsec capture e h = ground arith
get_signal_code-IsUsable tau_nsec tracking e h = ground arith
get_signal_code-IsUsable tau_nsec signal_change e h = cc
get_signal_code-IsUsable tau_nsec tech_control e h = cc
get_signal_code-IsUsable tau_nsec drop e h = cc

pub train_covers :
    (tau_nsec : ℕ) (type : QueryType)
    → emits type ≡ true
    → tau_nsec < 3840000
    → tau_nsec
      ≤ train_size (pulse_train_length tau_nsec)
        * (signal_tbl (get_signal_code tau_nsec type)).duration
unfolding get_signal_code signal_tbl
train_covers tau_nsec search_query e h = ground arith
train_covers tau_nsec confirm e h = ground arith
train_covers tau_nsec capture e h = ground arith
train_covers tau_nsec tracking e h = ground arith
train_covers tau_nsec signal_change e h = cc
train_covers tau_nsec tech_control e h = cc
train_covers tau_nsec drop e h = cc

multiples_of-exact : (d : ℕ) → d % 100 ≡ 0 → multiples_of32 d frequency_factor ≡ d
unfolding multiples_of
multiples_of-exact d e = rw (eq→== (d % 100) 0 e) refl

-- `count` pulses of the same duration are as long as eight times the sum of the durations.
transmit_time_lem :
    (size d offset count idx acc : ℕ) (old : ℕ → PulseDesc)
    → idx + count ≤ size
    → acc + count * (d * 8) < u32_mod
    → transmit_time (pulse_at size d offset old) count idx acc ≡ acc + count * (d * 8)
unfolding transmit_time
transmit_time_lem size d offset zero idx acc old h k = omega arith
transmit_time_lem size d offset (suc count) idx acc old h k =
    rw (lt→ltb idx size (omega (arith, h))) (
      rw (mul32_small, add32_small)
        (transmit_time_lem size d offset count (idx + 1) (acc + d * 8) old (omega (arith, h))
            (omega (arith, k))
          ∙ omega arith))
  where
    mul32_small : mul32 d 8 ≡ d * 8
    mul32_small = mod-eq_of_lt (omega (arith, k))

    add32_small : add32 acc (d * 8) ≡ acc + d * 8
    add32_small = mod-eq_of_lt (omega (arith, k))

-- The train of `size` pulses of `duration`, each but the first at eight times the duration after the
-- one before it, with receive windows like the pulses. The echo is waited for where it does not come
-- back before the end of a train of several pulses.
abbrev pub train : (size duration delay : ℕ) → ScanPair
train size duration delay =
    let pulses : ℕ → PulseDesc = λ i.
      if ltb i size
      then record { offset_time = if i == 0 then 0 else duration * 8; length = duration }
      else no_pulse in
    record {
      size = size;
      receive = pulses;
      transmit = pulses;
      receive_time =
          if ltb 1 size && ltb delay (size * (duration * 8))
          then 0
          else multiples_of32 delay frequency_factor;
    }

positive : (d : ℕ) → 1 ≤ d → (d == 0) ≡ false
positive d h = ground arith

place_receive_lem :
    (size d delay : ℕ)
    → 1 ≤ size
    → 1 ≤ d
    → size * (d * 8) < u32_mod
    → place_receive (set_receive (set_transmit (empty_pair size) d (d * 8)) d (d * 8)) delay
      ≡ train size d delay
unfolding place_receive set_receive set_transmit
place_receive_lem size d delay h1 h2 small = rw (lt→ltb 0 size (omega (arith, h1))) (
    rw (positive d h2) (
      rw total (elim (Bool-cases (ltb 1 size)) [
        | inl several ↦ rw several (elim (Bool-cases (ltb delay (size * (d * 8)))) [
          | inl late ↦ rw late refl
          | inr fits ↦ rw fits refl
        ])
        | inr single ↦ rw single refl
      ])))
  where
    total : transmit_time (pulse_at size d (d * 8) (λ i. no_pulse)) size 0 0 ≡ size * (d * 8)
    total =
        transmit_time_lem size d (d * 8) size 0 0 (λ i. no_pulse) (omega arith)
          (omega (arith, small))
        ∙ omega arith

module _ (double : Double) where
  pub create_scan_pair_usable :
      (p : SignalParams) (tau_nsec : ℕ) (range : double.D)
      → IsUsable p
      → tau_nsec < 3840000
      → create_scan_pair double p tau_nsec range
        ≡ some
            (train (train_size (pulse_train_length tau_nsec)) p.duration (range_delay double range))
  unfolding create_scan_pair set_receive_time
  create_scan_pair_usable p tau_nsec range (low, high, one, sixteen, some_time, short, whole) few =
      rw (good, new_scan_pair-le wanted (omega (arith, few)))
        (rw period (
          rw (le→ltb-false _ _ high, le→ltb-false _ _ low)
            (rw
              (
                multiples_of-exact p.duration whole,
                multiples_of-exact (p.duration * 8) whole_period,
              )
              (ap some (
                place_receive_lem (train_size wanted) p.duration (range_delay double range)
                  (train_size_bounds wanted).0 some_time (fits _ (train_size_bounds wanted).1))))))
    where
      wanted : ℕ
      wanted = pulse_train_length tau_nsec

      good : (ltb p.pulse_number_high wanted || ltb wanted p.pulses_number_low) ≡ false
      good =
          rw
            (
              le→ltb-false p.pulse_number_high wanted (omega (arith, sixteen, few)),
              le→ltb-false wanted p.pulses_number_low (omega (arith, one, few)),
            )
            refl

      period : mul32 p.duration duty_factor ≡ p.duration * 8
      period = mod-eq_of_lt (omega (arith, short))

      whole_period : p.duration * 8 % 100 ≡ 0
      whole_period = omega (arith, whole)

      fits : (n : ℕ) → n ≤ 16 → n * (p.duration * 8) < u32_mod
      fits n h = omega (arith, product)
        where
          product : n * (p.duration * 8) ≤ 16 * 1920000
          product = mul-le-mul {m₂ = 1920000} h (omega (arith, short))

  pub create_scan_pair_refused :
      (p : SignalParams) (tau_nsec : ℕ) (range : double.D)
      → p.pulse_number_high < pulse_train_length tau_nsec
      → create_scan_pair double p tau_nsec range ≡ some (empty_pair 1)
  unfolding create_scan_pair
  create_scan_pair_refused p tau_nsec range many =
      rw (lt→ltb _ _ many) (new_scan_pair-le 1 (omega arith))
