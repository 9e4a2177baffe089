-- ===== src/SatelliteUtils/NoradSdp4/Secular.antt =====
-- The secular effects of SatelliteUtils/noradSDP4.cpp with the integrator: `_dot_terms_calculated` and
-- `_secular`.
pub mod Exact
pub mod Grid
use radar_software.Prelude.{
  ℕ, zero, suc, Bool, true, false, ◌&&◌, ◌||◌, Option, none, some, if◌then◌else◌,
}
use radar_software.Float.{Floats}
use radar_software.TargetEnvironment.Catalog.Orbits.{Orbit}
use radar_software.SatelliteUtils.Errors.{em_integr_warn, warn}
use radar_software.SatelliteUtils.NoradSgdp4.{Sgdp4, CalcData}
use radar_software.SatelliteUtils.NoradSdp4.LunarSolar.{Bodies}
use radar_software.SatelliteUtils.NoradSdp4.ResonanceTerms.{Sums, Resonance, thdt}

-- The members of the integrator, which change in a prediction.
pub record Integrator (D : Type 0) : Type 0 where
  pub atime : D
  pub xli : D
  pub xni : D
  pub xnddt : D
  pub xndot : D
  pub xldot : D

-- What the integrator is restarted with.
pub record Epoch (D : Type 0) : Type 0 where
  pub mean_motion_r : D
  pub xlamo : D
  pub xnddt0 : D
  pub xndot0 : D
  pub xldot0 : D

-- How the integrator ends: with no fuel, with a time that is too far from its own, or near the time.
pub data Caught (D : Type 0) : Type 0 where
  out_of_fuel : Caught D
  too_far : Integrator D → Caught D
  caught : Integrator D → Caught D

-- `struct DeepCalcData`.
pub record DeepCalcData (D : Type 0) : Type 0 where
  pub cd : CalcData D
  pub xn : D
  pub ecc : D
  pub xmam : D

module _ {D : Type 0} (floats : Floats D) where
  infixl 65 ◌+◌ ◌-◌
  infixl 70 ◌*◌ ◌/◌
  open floats use {
    add as ◌+◌, sub as ◌-◌, mul as ◌*◌, div as ◌/◌, neg, decimal, sin, cos, fabs, lt, le,
  }

  abbrev pub step : D
  step = decimal 720 0

  abbrev pub max_integrate : D
  max_integrate = step * decimal 10000 0

  unfoldable pub dot_terms_calculated :
      Orbit D → Sgdp4 D → Resonance D → D → Integrator D → Integrator D
  dot_terms_calculated keo g res xfact i =
      let xldot = i.xni + xfact in
      if res.isynfl
      then (let fasx2 = decimal 13130908 8 in
          let fasx4 = decimal 28843198 7 in
          let fasx6 = decimal 37448087 8 in
          let xndot =
            res.del1 * sin (i.xli - fasx2)
            + res.del2 * sin ((i.xli - fasx4) * decimal 2 0)
            + res.del3 * sin ((i.xli - fasx6) * decimal 3 0) in
          let xnddt =
            res.del1 * cos (i.xli - fasx2)
            + res.del2 * cos ((i.xli - fasx4) * decimal 2 0) * decimal 2 0
            + res.del3 * cos ((i.xli - fasx6) * decimal 3 0) * decimal 3 0 in
          record i { xndot = xndot; xnddt = xnddt * xldot; xldot = xldot })
      else let g22 = decimal 57686396 7 in
        let g32 = decimal 95240898 8 in
        let g44 = decimal 18014998 7 in
        let g52 = decimal 1050833 6 in
        let g54 = decimal 44108898 7 in
        let xomi = keo.elements.arg_perigee + g.omgdot * i.atime in
        let x2omi = xomi + xomi in
        let x2li = i.xli + i.xli in
        let xndot =
          res.d2201 * sin (x2omi + i.xli - g22)
          + res.d2211 * sin (i.xli - g22)
          + res.d3210 * sin (xomi + i.xli - g32)
          + res.d3222 * sin (neg xomi + i.xli - g32)
          + res.d5220 * sin (xomi + i.xli - g52)
          + res.d5232 * sin (neg xomi + i.xli - g52)
          + res.d4410 * sin (x2omi + x2li - g44)
          + res.d4422 * sin (x2li - g44)
          + res.d5421 * sin (xomi + x2li - g54)
          + res.d5433 * sin (neg xomi + x2li - g54) in
        let xnddt =
          res.d2201 * cos (x2omi + i.xli - g22)
          + res.d2211 * cos (i.xli - g22)
          + res.d3210 * cos (xomi + i.xli - g32)
          + res.d3222 * cos (neg xomi + i.xli - g32)
          + res.d5220 * cos (xomi + i.xli - g52)
          + res.d5232 * cos (neg xomi + i.xli - g52)
          + (res.d4410 * cos (x2omi + x2li - g44)
              + res.d4422 * cos (x2li - g44)
              + res.d5421 * cos (xomi + x2li - g54)
              + res.d5433 * cos (neg xomi + x2li - g54))
            * decimal 2 0 in
        record i { xndot = xndot; xnddt = xnddt * xldot; xldot = xldot }

  unfoldable pub restarted : Epoch D → Integrator D
  restarted e = record {
    atime = decimal 0 0;
    xni = e.mean_motion_r;
    xli = e.xlamo;
    xnddt = e.xnddt0;
    xndot = e.xndot0;
    xldot = e.xldot0;
  }

  -- The time is near the epoch, or lies back from the integrator's.
  unfoldable pub needs_restart : D → Integrator D → Bool
  needs_restart tsince i =
      lt (fabs tsince) step
      || (lt (decimal 0 0) i.atime && lt tsince (i.atime - decimal 1 0))
      || (lt i.atime (decimal 0 0) && lt (i.atime + decimal 1 0) tsince)

  -- `dots` is `_dot_terms_calculated`.
  unfoldable pub advance : (dots : Integrator D → Integrator D) → D → Integrator D → Integrator D
  advance dots delt i = dots (record i {
    xli = i.xli + delt * (i.xldot + delt * decimal 5 1 * i.xndot);
    xni = i.xni + delt * (i.xndot + delt * decimal 5 1 * i.xnddt);
    atime = i.atime + delt;
  })

  -- The loop, on fuel.
  unfoldable pub integrate :
      (dots : Integrator D → Integrator D) → ℕ → D → D → Integrator D → Option (Integrator D)
  unfolding advance
  integrate dots zero delt tsince i = none
  integrate dots (suc fuel) delt tsince i =
      let i' = advance dots delt i in
      let rest = integrate dots fuel delt tsince i' in
      if le step (fabs (tsince - i'.atime)) then rest else some i'

  -- The part behind the restart: a time that is too far, or steps towards the time.
  unfoldable pub approach : (dots : Integrator D → Integrator D) → ℕ → D → Integrator D → Caught D
  unfolding integrate
  approach dots fuel tsince i =
      let ft = tsince - i.atime in
      if lt max_integrate (fabs ft)
      then too_far i
      else if le step (fabs ft)
      then elim (integrate dots fuel (if le i.atime tsince then step else neg step) tsince i) [
        | none ↦ out_of_fuel
        | some i' ↦ caught i'
      ]
      else caught i

  -- The integrator brought within a step of the time.
  unfoldable pub catch_up :
      (dots : Integrator D → Integrator D) → ℕ → Epoch D → D → Integrator D → Caught D
  unfolding needs_restart approach
  catch_up dots fuel epoch tsince i =
      approach dots fuel tsince (if needs_restart tsince i then restarted epoch else i)
