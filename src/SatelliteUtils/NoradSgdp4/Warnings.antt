-- ===== src/SatelliteUtils/NoradSgdp4/Warnings.antt =====
-- What `_get_position` sets and leaves when it fails.
use radar_software.Prelude.{
  ℕ, ◌≡◌, refl, ◌⊎◌, inl, inr, true, false, List, [], ◌∷◌, All, ◌||◌, ◌==◌, arith, on_test,
}
use radar_software.Float.{Floats}
use radar_software.SatelliteUtils.Errors.{
  is_set, warn, em_small_a_warn, em_small_e_warn, em_big_e_warn,
}
use radar_software.SatelliteUtils.Vector3.{Vect3}
use radar_software.SatelliteUtils.{tle_const}
use radar_software.SatelliteUtils.NoradSgdp4.{
  Sgdp4, CalcData, Reply, long_period, solve_kepler, short_period, get_position,
}

-- The masks of `enum ErrorsMasks`.
abbrev pub masks : List ℕ
masks = 1 ∷ 2 ∷ 4 ∷ 8 ∷ 0x10 ∷ 0x20 ∷ 0x40 ∷ 0x80 ∷ 0x100 ∷ 0x80000000 ∷ []

-- The mask is put in, and no other changes.
abbrev pub Puts : ℕ → ℕ → ℕ → Type 0
Puts mask errors errors' =
    All (λ other. is_set errors' other ≡ (other == mask || is_set errors other)) masks

warn-small_a : (errors : ℕ) → Puts em_small_a_warn errors (warn errors em_small_a_warn)
unfolding warn
warn-small_a errors = ground arith

warn-small_e : (errors : ℕ) → Puts em_small_e_warn errors (warn errors em_small_e_warn)
unfolding warn
warn-small_e errors = ground arith

warn-big_e : (errors : ℕ) → Puts em_big_e_warn errors (warn errors em_big_e_warn)
unfolding warn
warn-big_e errors = ground arith

module _ {D : Type 0} (floats : Floats D) (g : Sgdp4 D) (cd : CalcData D) where
  abbrev pub rk_of : D
  rk_of =
      let lp = long_period floats g cd in (short_period floats g cd lp (solve_kepler floats lp)).0

  -- Why a mask is put in.
  abbrev pub Cause : ℕ → Type 0
  Cause mask =
      ((mask ≡ em_small_a_warn)
        × ((floats.lt cd.a (floats.decimal 1 0) ≡ true)
            ⊎ (floats.lt rk_of (floats.decimal 1 0) ≡ true)))
      ⊎ ((mask ≡ em_small_e_warn) × (floats.lt cd.e (tle_const floats).ecc_limit_low ≡ true))
      ⊎ ((mask ≡ em_big_e_warn)
          × (floats.le (floats.decimal 1 0) (long_period floats g cd).elsq ≡ true))

  -- Nothing is warned of, or one mask is put in for its cause and the vectors stay.
  abbrev pub IsWarned : ℕ → Vect3 D → Vect3 D → Reply D → Type 0
  IsWarned errors v0 v1 r =
      ((r.ok ≡ true) × (r.errors ≡ errors))
      ⊎ ((mask : ℕ) × (r.ok ≡ false)
          × (r.v0 ≡ v0)
          × (r.v1 ≡ v1)
          × Puts mask errors r.errors
          × Cause mask)

  -- A prediction succeeds and leaves the warnings as they are, or fails, leaves the position and the
  -- velocity, and puts in one warning that has a cause: a small axis or radius, a small eccentricity,
  -- or a big one.
  pub get_position-IsWarned :
      (jd : D) (errors : ℕ) (v0 v1 : Vect3 D)
      → IsWarned errors v0 v1 (get_position floats jd g cd errors v0 v1)
  unfolding get_position
  get_position-IsWarned jd errors v0 v1 =
      let P = IsWarned errors v0 v1 in
      on_test P _
        (λ h. inr (em_small_a_warn, refl, refl, refl, warn-small_a errors, inl (refl, inl h)))
        (λ _.
          on_test P _
            (λ h. inr (em_small_e_warn, refl, refl, refl, warn-small_e errors, inr (inl (refl, h))))
            (λ _.
              on_test P _
                (λ h. inr (em_big_e_warn, refl, refl, refl, warn-big_e errors, inr (inr (refl, h))))
                (λ _.
                  on_test P _
                    (λ h.
                      inr
                        (em_small_a_warn, refl, refl, refl, warn-small_a errors, inl (refl, inr h)))
                    (λ _. inl (refl, refl)))))
