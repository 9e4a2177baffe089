-- ===== src/SatelliteUtils/NoradSdp4/Kept.antt =====
-- Predictions of a resonant orbit, one after another: the integrator is never lost.
use radar_software.Prelude.{
  ℕ, ◌*◌, ◌≤◌, ◌<◌, ◌≡◌, refl, sym, ◌⊎◌, inl, inr, zero, Bool, true, false, Option, none, some,
  Bool-cases, not, if◌then◌else◌,
}
use mathlib.Core.Path.{subst}
use radar_software.Prelude.Int.{ℤ, nat_abs, ◌-ℤ◌}
use radar_software.Float.{Floats}
use radar_software.TargetEnvironment.Catalog.Orbits.{Orbit}
use radar_software.SatelliteUtils.Errors.{em_integr_warn, warn}
use radar_software.SatelliteUtils.Vector3.{Vect3}
use radar_software.SatelliteUtils.NoradBase.{CsType}
use radar_software.SatelliteUtils.NoradSgdp4.{Sgdp4, CalcData}
use radar_software.SatelliteUtils.NoradSdp4.ResonanceTerms.{Resonance}
use radar_software.SatelliteUtils.NoradSdp4.Secular.{
  Integrator, DeepCalcData, Caught, out_of_fuel, too_far, caught, dot_terms_calculated, catch_up,
}
use radar_software.SatelliteUtils.NoradSdp4.Secular.Exact.{IsExact}
use radar_software.SatelliteUtils.NoradSdp4.Secular.Grid.{IsOnGrid, Lands, catch_up-IsOnGrid}
use radar_software.SatelliteUtils.NoradSdp4.{
  Sdp4, Predicted, dots_of, new_sdp4, predict, resonant, deep_data, conclude, position_deep,
}

pub if_not {ℓ} :
    {A : Type 0} (P : A → Type ℓ) (b : Bool) (x y : A)
    → (b ≡ true → P x)
    → (b ≡ false → P y)
    → P (if not b then y else x)
if_not P true x y yes_case no_case = yes_case refl
if_not P false x y yes_case no_case = no_case refl

apart : {b : Bool} → b ≡ false → b ≡ true → ⊥
apart e h = cc

-- A model that was made for the elements and predicted any number of times.
pub data Reaches {D : Type 0} (floats : Floats D) (keo : Orbit D) (fuel : ℕ) (date : D)
    : Sdp4 D → Type 0 where
  made : {m : Sdp4 D} → m ≡ new_sdp4 floats keo date → Reaches floats keo fuel date m
  predicted :
      {m' : Sdp4 D} (jd : D) (cd : CalcData D) (errors : ℕ) (tsince : D) (v0 v1 : Vect3 D)
      (cs : CsType) (m : Sdp4 D) (p : Predicted D)
      → Reaches floats keo fuel date m
      → position_deep floats fuel jd keo m cd errors tsince v0 v1 cs ≡ some p
      → m' ≡ p.model
      → Reaches floats keo fuel date m'

module _ {D : Type 0} (floats : Floats D) (keo : Orbit D) where
  -- The integrator of a resonant orbit stands on the grid of its steps from the epoch.
  abbrev pub IsSound : Sdp4 D → Type 0
  IsSound m =
      m.resonance.iresfl ≡ true → IsOnGrid floats (dots_of floats keo m) m.epoch m.integrator

  dot_terms-atime :
      (g : Sgdp4 D) (res : Resonance D) (xfact : D) (i : Integrator D)
      → (dot_terms_calculated floats keo g res xfact i).atime ≡ i.atime
  unfolding dot_terms_calculated
  dot_terms-atime g res xfact i = elim (Bool-cases res.isynfl) [
    | inl e ↦ rw e refl
    | inr e ↦ rw e refl
  ]

  -- What is changed in a prediction does not change the steps of the integrator.
  predict-dots :
      (jd : D) (m : Sdp4 D) (dcd : DeepCalcData D) (errors : ℕ) (v0 v1 : Vect3 D)
      → dots_of floats keo (predict floats jd keo m dcd errors v0 v1).model ≡ dots_of floats keo m
  unfolding predict dot_terms_calculated
  predict-dots jd m dcd errors v0 v1 = refl

  -- How a prediction for a time may end: with the integrator less than a step away, or with the warning
  -- that the time is too far, and nothing predicted.
  abbrev pub EndsWell :
      (D → ℤ) → ℕ → D → ℕ → Vect3 D → Vect3 D → Sdp4 D → Option (Predicted D) → Type 0
  EndsWell value tick tsince errors v0 v1 m none = ⊥
  EndsWell value tick tsince errors v0 v1 m (some p) =
      IsSound p.model
      × (m.resonance.iresfl ≡ true
          → (nat_abs (value tsince -ℤ value p.model.integrator.atime) < 720 * tick)
            ⊎ ((7200000 * tick < nat_abs (value tsince -ℤ value p.model.integrator.atime))
                × (p.reply ≡ record {
                  errors = warn errors em_integr_warn;
                  ok = false;
                  v0 = v0;
                  v1 = v1;
                })))

  conclude-EndsWell :
      (value : D → ℤ) (tick : ℕ) (jd : D) (m : Sdp4 D) (dcd : DeepCalcData D) (errors : ℕ)
      (tsince : D) (v0 v1 : Vect3 D) (c : Caught D)
      → Lands floats (dots_of floats keo m) value tick m.epoch tsince c
      → EndsWell value tick tsince errors v0 v1 m (conclude floats jd keo m dcd errors v0 v1 c)
  unfolding conclude predict
  conclude-EndsWell value tick jd m dcd errors tsince v0 v1 out_of_fuel h = elim h [ ]
  conclude-EndsWell value tick jd m dcd errors tsince v0 v1 (too_far i) (grid, far) =
      (λ h. grid, λ h. inr (far, refl))
  conclude-EndsWell value tick jd m dcd errors tsince v0 v1 (caught i) (grid, near) = (
    λ h.
        subst (λ d. IsOnGrid floats d m.epoch i)
          (sym
            (predict-dots jd (record m { integrator = i }) (resonant floats m i dcd) errors v0 v1))
          grid,
    λ h. inl near,
  )

  module _ {value : D → ℤ} {tick : ℕ} (exact : IsExact floats value tick) where
    pub position_deep-EndsWell :
        (fuel : ℕ) (jd : D) (m : Sdp4 D) (cd : CalcData D) (errors : ℕ) (tsince : D)
        (v0 v1 : Vect3 D) (cs : CsType)
        → 10000 ≤ fuel
        → IsSound m
        → EndsWell value tick tsince errors v0 v1 m
            (position_deep floats fuel jd keo m cd errors tsince v0 v1 cs)
    unfolding position_deep
    position_deep-EndsWell fuel jd m cd errors tsince v0 v1 cs long sound =
        if_not (EndsWell value tick tsince errors v0 v1 m) m.resonance.iresfl _ _
          (λ e.
            let dots = dots_of floats keo m in
            let keeps = dot_terms-atime m.base m.resonance m.xfact in
            conclude-EndsWell value tick jd m (deep_data floats keo m cd tsince cs) errors tsince v0
              v1 (catch_up floats dots fuel m.epoch tsince m.integrator)
              (catch_up-IsOnGrid exact dots keeps fuel m.epoch m.integrator tsince long (sound e)))
          (λ e. (λ h. absurd (apart e h), λ h. absurd (apart e h)))

    pub new_sdp4-IsSound : (date : D) → IsSound (new_sdp4 floats keo date)
    unfolding new_sdp4
    new_sdp4-IsSound date h = (true, zero, refl)

    EndsWell-IsSound :
        (tsince : D) (errors : ℕ) (v0 v1 : Vect3 D) (m : Sdp4 D) (o : Option (Predicted D))
        (p : Predicted D)
        → EndsWell value tick tsince errors v0 v1 m o
        → o ≡ some p
        → IsSound p.model
    EndsWell-IsSound tsince errors v0 v1 m none p h e = elim h [ ]
    EndsWell-IsSound tsince errors v0 v1 m (some q) p h e =
        let same : q ≡ p = cc in subst (λ r. IsSound r.model) same h.0

    Reaches-IsSound :
        {fuel : ℕ} {date : D} {m : Sdp4 D}
        → 10000 ≤ fuel
        → Reaches floats keo fuel date m
        → IsSound m
    Reaches-IsSound {date = date} long (made same) =
        subst IsSound (sym same) (new_sdp4-IsSound date)
    Reaches-IsSound {fuel = fuel} long (predicted jd cd errors tsince v0 v1 cs m p before e same) =
        subst IsSound (sym same) (
          EndsWell-IsSound tsince errors v0 v1 m _ p
            (position_deep-EndsWell fuel jd m cd errors tsince v0 v1 cs long
              (Reaches-IsSound long before))
            e)

    -- In exact arithmetic, a prediction for any time with a model that was made for the elements and has
    -- made any predictions before, with fuel for 10000 steps: it ends; the integrator of a resonant
    -- orbit stands on the grid of its steps from the epoch, and is less than a step away from the time,
    -- or the time is more than 10000 steps away, and then the warning is set, the result is false, and
    -- the position and the velocity stay as they are.
    pub position_deep-Reaches :
        (fuel : ℕ) (date : D) (m : Sdp4 D) (jd : D) (cd : CalcData D) (errors : ℕ) (tsince : D)
        (v0 v1 : Vect3 D) (cs : CsType)
        → 10000 ≤ fuel
        → Reaches floats keo fuel date m
        → EndsWell value tick tsince errors v0 v1 m
            (position_deep floats fuel jd keo m cd errors tsince v0 v1 cs)
    position_deep-Reaches fuel date m jd cd errors tsince v0 v1 cs long before =
        position_deep-EndsWell fuel jd m cd errors tsince v0 v1 cs long
          (Reaches-IsSound long before)
