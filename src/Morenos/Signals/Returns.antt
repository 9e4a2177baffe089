-- ===== src/Morenos/Signals/Returns.antt =====
-- The exceptions of `build_scan_pair`, at any range.
use radar_software.Prelude.{
  ℕ, ◌≤◌, ◌≡◌, refl, ◌||◌, true, Option, some, inl, inr, arith, ltb, Bool-cases, mul32,
}
use radar_software.Double.{Double}
use radar_software.Morenos.Settings.{duty_factor}
use radar_software.Morenos.Query.{QueryType}
use radar_software.Morenos.Signals.{
  SignalParams, SignalType, signal_tbl, get_signal_code, pulse_train_length, create_scan_pair,
  build_scan_pair, scan_duration,
}
use radar_software.Morenos.Signals.Total.{new_scan_pair-le, signal_tbl_pulses}

-- The computation gives some value.
abbrev pub Gives {ℓ} : {A : Type ℓ} → Option A → Type ℓ
Gives {A} o = (a : A) × (o ≡ some a)

create_scan_pair-Gives :
    (double : Double) (signal_params : SignalParams) (tau_nsec : ℕ) (range : double.D)
    → signal_params.pulse_number_high ≤ 16
    → Gives (create_scan_pair double signal_params tau_nsec range)
unfolding create_scan_pair
create_scan_pair-Gives double signal_params tau_nsec range few =
    elim (Bool-cases (ltb high wanted || ltb wanted signal_params.pulses_number_low)) [
      | inl bad ↦ rw (bad, new_scan_pair-le 1 (omega arith)) (_, refl)
      | inr good ↦
          rw (good, new_scan_pair-le wanted (ground arith))
            (elim (Bool-cases
              (ltb signal_params.period_high period || ltb period signal_params.period_low)) [
                | inl bad ↦ rw (bad, new_scan_pair-le 1 (omega arith)) (_, refl)
                | inr fits ↦ rw fits (_, refl)
              ])
    ]
  where
    wanted : ℕ
    wanted = pulse_train_length tau_nsec

    high : ℕ
    high = signal_params.pulse_number_high

    period : ℕ
    period = mul32 signal_params.duration duty_factor

-- Where the computed duration is positive.
pub build_scan_pair-Gives :
    (double : Double) (range rcs : double.D) (type : QueryType)
    → double.lt (double.decimal 0 0) (scan_duration double range rcs) ≡ true
    → Gives (build_scan_pair double range rcs type)
unfolding build_scan_pair
build_scan_pair-Gives double range rcs type positive =
    rw positive
      (create_scan_pair-Gives double (signal_tbl code) tau_nsec range (signal_tbl_pulses code))
  where
    tau_nsec : ℕ
    tau_nsec =
        double.to_u64 (double.mul (scan_duration double range rcs) (double.decimal 1000000000 0))

    code : SignalType
    code = get_signal_code tau_nsec type
