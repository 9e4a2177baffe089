-- ===== src/SatelliteUtils/NoradCircl.antt =====
-- SatelliteUtils/noradCircl.cpp: the model for circular orbits.
use radar_software.Prelude.{ℕ, true}
use radar_software.Float.{Floats}
use radar_software.TargetEnvironment.Catalog.Orbits.{Orbit}
use radar_software.SatelliteUtils.{tle_const}
use radar_software.SatelliteUtils.NoradBase.{CsType, Kep, kep2xyz}
use radar_software.SatelliteUtils.NoradSgdp4.{Reply}

module _ {D : Type 0} (floats : Floats D) where
  infixl 65 ◌+◌ ◌-◌
  infixl 70 ◌*◌ ◌/◌
  open floats use {add as ◌+◌, sub as ◌-◌, mul as ◌*◌, div as ◌/◌, fmod}
  open tle_const floats use {pi, twopi, radius_ae, speed_ae}

  -- The elements at the time. `rdotk` is not set: it is what stood in the memory.
  unfoldable pub circular_kep : Orbit D → D → D → CsType → Kep D
  circular_kep keo rdotk tsince cs = record {
    radius = keo.recovered.semi_major_r * radius_ae;
    theta = fmod (pi + keo.recovered.mean_motion_r * tsince) twopi - pi;
    eqinc = keo.elements.inclination;
    ascn = keo.elements.raan;
    rdotk = rdotk;
    rfdotk = keo.recovered.semi_major_r * keo.recovered.mean_motion_r * speed_ae;
    cs = cs;
    tsinse = tsince;
  }

  -- `NoradCircl::getPosition`.
  unfoldable pub position_circular : D → Orbit D → D → ℕ → D → CsType → Reply D
  unfolding circular_kep
  position_circular jd keo rdotk errors tsince cs =
      let xyz = kep2xyz floats jd (circular_kep keo rdotk tsince cs) in
      record { errors = errors; ok = true; v0 = xyz.0; v1 = xyz.1 }
