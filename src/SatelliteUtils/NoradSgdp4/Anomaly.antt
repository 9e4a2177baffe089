-- ===== src/SatelliteUtils/NoradSgdp4/Anomaly.antt =====
-- The loop for Kepler's equation: it stops at the first good approximation, or after ten.
use radar_software.Prelude.{
  ℕ, zero, suc, ◌+◌, ◌≤◌, ◌<◌, ◌≡◌, refl, ◌⊎◌, inl, inr, Bool, true, false, arith, Bool-cases,
}
use mathlib.Core.Path.{subst}
use radar_software.Float.{Floats}
use radar_software.SatelliteUtils.NoradSgdp4.{
  LongPeriod, pass_at, corrected, small, newton_loop, solve_kepler,
}

abbrev pub is_first : ℕ → Bool
is_first zero = true
is_first (suc n) = false

here_or_later : (k j : ℕ) → k ≤ j → (k ≡ j) ⊎ (suc k ≤ j)
here_or_later k j h = omega arith

module _ {D : Type 0} (floats : Floats D) (lp : LongPeriod D) where
  -- The approximations: the mean anomaly, and each corrected, the first one with its limit.
  abbrev pub anomaly : ℕ → D
  anomaly zero = lp.capu
  anomaly (suc n) = corrected floats lp (is_first n) (anomaly n) (pass_at floats lp (anomaly n))

  abbrev pub is_good : ℕ → Bool
  is_good n = small floats (pass_at floats lp (anomaly n))

  newton_loop-first :
      (left k : ℕ)
      → (m : ℕ) × (k ≤ m)
        × (m ≤ k + left)
        × (newton_loop floats lp left (is_first k) (anomaly k) ≡ pass_at floats lp (anomaly m))
        × ((j : ℕ) → k ≤ j → j < m → is_good j ≡ false)
        × ((m ≡ k + left) ⊎ (is_good m ≡ true))
  unfolding newton_loop
  newton_loop-first zero k =
      (k, omega arith, omega arith, refl, λ j a b. absurd (omega arith), inl (omega arith))
  newton_loop-first (suc left) k = elim (Bool-cases (is_good k)) [
    | inl good ↦
        (k, omega arith, omega arith, rw good refl, λ j a b. absurd (omega arith), inr good)
    | inr bad ↦
        let (m, low, high, e, before, last) = newton_loop-first left (suc k) in
        (
          m,
          omega arith,
          omega arith,
          rw bad e,
          λ j a b. elim (here_or_later k j a) [
            | inl same ↦ subst (λ i. is_good i ≡ false) same bad
            | inr later ↦ before j later b
          ],
          elim last [ inl end ↦ inl (omega arith) | inr good ↦ inr good ],
        )
  ]

  -- The loop ends with what it computed at the first approximation that is good, or at the tenth.
  pub solve_kepler-first :
      (m : ℕ) × (m ≤ 9)
      × (solve_kepler floats lp ≡ pass_at floats lp (anomaly m))
      × ((j : ℕ) → j < m → is_good j ≡ false)
      × ((m ≡ 9) ⊎ (is_good m ≡ true))
  unfolding solve_kepler
  solve_kepler-first =
      let (m, low, high, e, before, last) = newton_loop-first 9 0 in
      (m, omega arith, e, λ j h. before j (omega arith) h, last)
