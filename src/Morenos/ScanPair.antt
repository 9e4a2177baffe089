-- ===== src/Morenos/ScanPair.antt =====
-- `class ScanPair` of Morenos/Scheduler_Model — копия/ScanPair.h: a train of transmitted pulses and
-- the receive windows that belong to it. The two arrays of `size` descriptors are functions.
use radar_software.Prelude.{
  ℕ, zero, suc, ◌+◌, ◌^◌, Option, none, some, ltb, ◌==◌, if◌then◌else◌, add32, mul32,
}
use radar_software.Double.{Double}
use radar_software.Morenos.Settings.{duty_factor, frequency_factor}
use radar_software.Morenos.Utility.{multiples_of32}

-- `receive_desc` and `transmit_desc`, which have the same fields.
pub record PulseDesc : Type 0 where
  pub offset_time : ℕ
  pub length : ℕ

pub record ScanPair : Type 0 where
  pub size : ℕ
  pub receive : ℕ → PulseDesc
  pub transmit : ℕ → PulseDesc
  pub receive_time : ℕ

-- The loop of the constructor from exponent `exponent` on. `none` is the exception thrown at 5,
-- which six rounds are enough to reach.
unfoldable pub train_exponent : ℕ → ℕ → ℕ → Option ℕ
train_exponent zero exponent wanted = none
train_exponent (suc rounds) exponent wanted =
    let rest = train_exponent rounds (exponent + 1) wanted in
    if ltb (2 ^ exponent) wanted then (if exponent + 1 == 5 then none else rest) else some exponent

abbrev pub no_pulse : PulseDesc
no_pulse = record { offset_time = 0; length = 0 }

abbrev pub empty_pair : ℕ → ScanPair
empty_pair size = record {
  size = size;
  receive = λ _. no_pulse;
  transmit = λ _. no_pulse;
  receive_time = 0;
}

unfoldable pub new_scan_pair : ℕ → Option ScanPair
unfolding train_exponent
new_scan_pair wanted = elim (train_exponent 6 0 wanted) [
  | none ↦ none
  | some exponent ↦ some (empty_pair (2 ^ exponent))
]

-- The loop of `set_receive` and of `set_transmit`: entry `idx` of an array of `size` entries.
abbrev pub pulse_at : ℕ → ℕ → ℕ → (ℕ → PulseDesc) → ℕ → PulseDesc
pulse_at size length offset_time old idx =
    if ltb idx size
    then record { offset_time = if idx == 0 then 0 else offset_time; length = length }
    else old idx

unfoldable pub set_receive : ScanPair → ℕ → ℕ → ScanPair
set_receive s length offset_time = record s {
  receive = pulse_at s.size length offset_time s.receive;
}

unfoldable pub set_transmit : ScanPair → ℕ → ℕ → ScanPair
set_transmit s length offset_time = record s {
  transmit = pulse_at s.size length offset_time s.transmit;
}

-- The loop that adds up the transmit time of `count` pulses from `idx` on, in 32 bits.
unfoldable pub transmit_time : (ℕ → PulseDesc) → ℕ → ℕ → ℕ → ℕ
transmit_time transmit zero idx acc = acc
transmit_time transmit (suc count) idx acc =
    transmit_time transmit count (idx + 1) (add32 acc (mul32 (transmit idx).length duty_factor))

-- `set_receive_time` from the delay on. Both error messages leave the pair as it is.
unfoldable pub place_receive : ScanPair → ℕ → ScanPair
place_receive s delay =
    let placed = record s { receive_time = multiples_of32 delay frequency_factor } in
    if (s.transmit 0).length == 0
    then s
    else if ltb 1 s.size
    then (if ltb delay (transmit_time s.transmit s.size 0 0) then s else placed)
    else placed

module _ (double : Double) where
  open double use {D, mul, div, ceil, decimal, to_u32}

  -- The delay of the echo from `range` metres, in nanoseconds.
  abbrev pub range_delay : D → ℕ
  range_delay range =
      to_u32
        (ceil (mul (div (mul (decimal 2 0) range) (decimal 299792458 0)) (decimal 1000000000 0)))

  unfoldable pub set_receive_time : ScanPair → D → ScanPair
  unfolding place_receive
  set_receive_time s range = place_receive s (range_delay range)
