-- ===== src/SatelliteUtils/NoradBase.antt =====
-- SatelliteUtils/norad_base.cpp: the base of the models.
use radar_software.Prelude.{if◌then◌else◌}
use radar_software.Float.{Floats}
use radar_software.SatelliteUtils.{tle_const}
use radar_software.SatelliteUtils.Vector3.{Vect3, turn}

-- The two coordinate systems of the results: inertial, and turning with the Earth.
pub data CsType : Type 0 where
  cs_eci : CsType
  cs_gsc : CsType

-- `kep_t`, as far as `_kep2xyz` reads it.
pub record Kep (D : Type 0) : Type 0 where
  pub theta : D
  pub ascn : D
  pub eqinc : D
  pub radius : D
  pub rdotk : D
  pub rfdotk : D
  pub tsinse : D
  pub cs : CsType

module _ {D : Type 0} (floats : Floats D) where
  infixl 65 ◌+◌ ◌-◌
  infixl 70 ◌*◌ ◌/◌
  open floats use {
    add as ◌+◌, sub as ◌-◌, mul as ◌*◌, div as ◌/◌, neg, decimal, sin, cos, sqrt, fmod, atan, atan2,
    lt, eq,
  }
  open tle_const floats use {pi, twopi, sec_per_day, omega_e, min_per_day, rot_speed}

  abbrev pub pow4 : D → D
  pow4 a = let b = a * a in b * b

  unfoldable pub fmod2p : D → D
  fmod2p arg = let modu = fmod arg twopi in if lt modu (decimal 0 0) then modu + twopi else modu

  unfoldable pub ac_tan : D → D → D
  ac_tan sinx cosx =
      if eq cosx (decimal 0 0)
      then (if lt (decimal 0 0) sinx then pi / decimal 2 0 else decimal 3 0 * pi / decimal 2 0)
      else if lt (decimal 0 0) cosx
      then atan (sinx / cosx)
      else pi + atan (sinx / cosx)

  unfoldable pub theta_jd : D → D
  theta_jd jd =
      let ut = fmod (jd + decimal 5 1) (decimal 1 0) in
      let t_cen = (jd - ut - decimal 2451545 0) / decimal 36525 0 in
      let gmst =
        decimal 2411054841 5
        + t_cen * (decimal 8640184812866 6 + t_cen * (decimal 93104 6 - t_cen * decimal 62 7)) in
      let gmst = fmod (gmst + sec_per_day * omega_e * ut) sec_per_day in
      let gmst' = if lt gmst (decimal 0 0) then gmst + sec_per_day else gmst in
      twopi * gmst' / sec_per_day

  -- The position and the velocity of the elements; `jd` is the day of the satellite's elements.
  unfoldable pub kep2xyz : D → Kep D → Vect3 D × Vect3 D
  unfolding theta_jd turn
  kep2xyz jd kep =
      let sin_t = sin kep.theta in
      let cos_t = cos kep.theta in
      let sin_i = sin kep.eqinc in
      let cos_i = cos kep.eqinc in
      let sin_s = sin kep.ascn in
      let cos_s = cos kep.ascn in
      let xmx = neg sin_s * cos_i in
      let xmy = cos_s * cos_i in
      let ux = xmx * sin_t + cos_s * cos_t in
      let uy = xmy * sin_t + sin_s * cos_t in
      let uz = sin_i * sin_t in
      let v0 : Vect3 D = record { x = kep.radius * ux; y = kep.radius * uy; z = kep.radius * uz } in
      let vx = xmx * cos_t - cos_s * sin_t in
      let vy = xmy * cos_t - sin_s * sin_t in
      let vz = sin_i * cos_t in
      let v1 : Vect3 D = record {
        x = kep.rfdotk * vx + kep.rdotk * ux;
        y = kep.rfdotk * vy + kep.rdotk * uy;
        z = kep.rfdotk * vz + kep.rdotk * uz;
      } in
      elim kep.cs [
        | cs_eci ↦ (v0, v1)
        | cs_gsc ↦
            let rx_uty = sqrt (v0.x * v0.x + v0.y * v0.y) * rot_speed in
            let theta = atan2 v0.y v0.x in
            let v1' : Vect3 D = record {
              x = v1.x + rx_uty * sin theta;
              y = v1.y - rx_uty * cos theta;
              z = v1.z;
            } in
            let rot = theta_jd (jd + kep.tsinse / min_per_day) in
            (
              turn floats 3 (cos rot) (sin (neg rot)) v0,
              turn floats 3 (cos rot) (sin (neg rot)) v1',
            )
      ]
