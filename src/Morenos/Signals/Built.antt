-- ===== src/Morenos/Signals/Built.antt =====
-- What `build_scan_pair` makes of a query: the train of pulses, or the empty pair.

use radar_software.Prelude.{
  ℕ, ◌+◌, ◌-◌, ◌*◌, ◌≤◌, ◌<◌, ◌≡◌, refl, Bool, true, false, ◌&&◌, Option, none, some, ltb→lt,
  le→leb, arith, u32_mod, Returns, ltb, ltb-false→le, inl, inr, Bool-cases,
}
use radar_software.Double.{Double}
use radar_software.Morenos.Settings.{frequency_factor}
use radar_software.Morenos.Query.{
  QueryType, search_query, confirm, capture, tracking, signal_change, tech_control, drop,
}
use radar_software.Morenos.ScanPair.{ScanPair, empty_pair, range_delay}
use radar_software.Morenos.Signals.{
  SignalType, sots15, get_signal_code, signal_tbl, pulse_train_length, create_scan_pair,
  build_scan_pair, scan_duration,
}
use radar_software.Morenos.Signals.Choice.{emits}
use radar_software.Morenos.Signals.Total.{
  IsPair, sots15_rejected, train_size, signal_tbl_pulses, create_scan_pair-IsPair,
}
use radar_software.Morenos.Signals.Trains.{
  train, train_covers, get_signal_code-IsUsable, create_scan_pair_usable, create_scan_pair_refused,
}

Returns-both :
    {A : Type 0} (o : Option A) (P Q : A → Type 0)
    → Returns o P
    → Returns o Q
    → Returns o (λ a. P a × Q a)
Returns-both (some a) P Q p q = (p, q)
Returns-both none P Q p q = p

get_signal_code_brief :
    (tau_nsec : ℕ) (type : QueryType)
    → emits type ≡ true
    → tau_nsec ≤ 100
    → get_signal_code tau_nsec type ≡ sots15
unfolding get_signal_code
get_signal_code_brief tau_nsec search_query e h = rw (le→leb tau_nsec 100 h) refl
get_signal_code_brief tau_nsec confirm e h = rw (le→leb tau_nsec 100 h) refl
get_signal_code_brief tau_nsec capture e h = rw (le→leb tau_nsec 100 h) refl
get_signal_code_brief tau_nsec tracking e h = rw (le→leb tau_nsec 100 h) refl
get_signal_code_brief tau_nsec signal_change e h = cc
get_signal_code_brief tau_nsec tech_control e h = cc
get_signal_code_brief tau_nsec drop e h = cc

signal_tbl_silent :
    (tau_nsec : ℕ) (type : QueryType)
    → emits type ≡ false
    → (signal_tbl (get_signal_code tau_nsec type)).pulse_number_high ≡ 0
unfolding get_signal_code signal_tbl
signal_tbl_silent tau_nsec search_query e = cc
signal_tbl_silent tau_nsec confirm e = cc
signal_tbl_silent tau_nsec capture e = cc
signal_tbl_silent tau_nsec tracking e = cc
signal_tbl_silent tau_nsec signal_change e = refl
signal_tbl_silent tau_nsec tech_control e = refl
signal_tbl_silent tau_nsec drop e = refl

-- A train fits a query that emits, for more than 100 and less than 16 times 240000 nanoseconds.
abbrev pub fits : QueryType → ℕ → Bool
fits type tau_nsec = emits type && ltb 100 tau_nsec && ltb tau_nsec 3840000

-- The wanted duration in whole nanoseconds.
abbrev pub wanted_nsec : (double : Double) → (range rcs : double.D) → ℕ
wanted_nsec double range rcs =
    double.to_u64 (double.mul (scan_duration double range rcs) (double.decimal 1000000000 0))

-- With a train that fits: the train of the chosen signal, which is long enough. Else the empty pair.
abbrev pub IsBuilt : QueryType → (tau_nsec delay : ℕ) → Bool → ScanPair → Type 0
IsBuilt type tau_nsec delay true s =
    let size = train_size (pulse_train_length tau_nsec) in
    let duration = (signal_tbl (get_signal_code tau_nsec type)).duration in
    (s ≡ train size duration delay) × (tau_nsec ≤ size * duration)
IsBuilt type tau_nsec delay false s = s ≡ empty_pair 1

module _ (double : Double) (range rcs : double.D) (type : QueryType) where
  create_scan_pair-IsBuilt :
      (tau_nsec : ℕ)
      → tau_nsec < 240000 * (u32_mod - 1)
      → Returns
          (create_scan_pair double (signal_tbl (get_signal_code tau_nsec type)) tau_nsec range)
          (IsBuilt type tau_nsec (range_delay double range) (fits type tau_nsec))
  create_scan_pair-IsBuilt tau_nsec short = elim (Bool-cases (emits type)) [
    | inr silent ↦
        rw
          (
            create_scan_pair_refused double (signal_tbl code) tau_nsec range
                (omega (arith, short, signal_tbl_silent tau_nsec type silent)),
            silent,
          )
          refl
    | inl e ↦ elim (Bool-cases (ltb 100 tau_nsec)) [
      | inr brief ↦
          rw (get_signal_code_brief tau_nsec type e (ltb-false→le _ _ brief))
            (rw (sots15_rejected double tau_nsec range, e, brief) refl)
      | inl long ↦ elim (Bool-cases (ltb tau_nsec 3840000)) [
        | inl few ↦
            rw
              (
                create_scan_pair_usable double (signal_tbl code) tau_nsec range
                    (get_signal_code-IsUsable tau_nsec type e (ltb→lt _ _ long)) (ltb→lt _ _ few),
                e,
                long,
                few,
              )
              (refl, train_covers tau_nsec type e (ltb→lt _ _ few))
        | inr many ↦
            rw
              (
                create_scan_pair_refused double (signal_tbl code) tau_nsec range
                    (omega (arith, short, signal_tbl_pulses code, ltb-false→le _ _ many)),
                e,
                long,
                many,
              )
              refl
      ]
    ]
  ]
    where
      code : SignalType
      code = get_signal_code tau_nsec type

  -- Where the computed duration is positive and of less nanoseconds than 240000 times 2 ^ 32 - 1, and
  -- for a range whose delay is in 32 bits with room for rounding, `build_scan_pair` makes a scan pair.
  -- For a search, confirm, capture or tracking query of more than 100 and less than 16 * 240000
  -- nanoseconds it is the train of the chosen signal: a power of two of pulses of the signal's
  -- duration, eight times the duration apart, together at least as long as the computed duration, with
  -- the receive time of the range, or 0 where the echo comes back within a train of several pulses. For
  -- every other query it is the empty pair.
  pub build_scan_pair-IsBuilt :
      range_delay double range + frequency_factor < u32_mod
      → double.lt (double.decimal 0 0) (scan_duration double range rcs) ≡ true
      → wanted_nsec double range rcs < 240000 * (u32_mod - 1)
      → Returns (build_scan_pair double range rcs type) (λ s.
        IsPair s
        × (let tau_nsec = wanted_nsec double range rcs in
            IsBuilt type tau_nsec (range_delay double range) (fits type tau_nsec) s))
  unfolding build_scan_pair
  build_scan_pair-IsBuilt h positive short = rw positive (
      Returns-both _ _ _
        (create_scan_pair-IsPair double (signal_tbl code) tau_nsec range h (signal_tbl_pulses code))
        (create_scan_pair-IsBuilt tau_nsec short))
    where
      tau_nsec : ℕ
      tau_nsec = wanted_nsec double range rcs

      code : SignalType
      code = get_signal_code tau_nsec type
