-- ===== src/SatelliteUtils/NoradSgp4.antt =====
-- SatelliteUtils/noradSGP4.cpp: the model for orbits near the Earth.
use radar_software.Prelude.{ℕ, Bool, true, false, if◌then◌else◌}
use radar_software.Float.{Floats}
use radar_software.TargetEnvironment.Catalog.{IMode, sgdp4_near_simp, sgdp4_near_norm}
use radar_software.TargetEnvironment.Catalog.Orbits.{Orbit}
use radar_software.SatelliteUtils.{tle_const}
use radar_software.SatelliteUtils.Vector3.{Vect3}
use radar_software.SatelliteUtils.NoradBase.{CsType}
use radar_software.SatelliteUtils.NoradSgdp4.{
  Sgdp4, CalcData, Reply, new_sgdp4, init_calc_data, get_position,
}

-- `class NoradSGP4`: the members of its own, and those that it inherits.
pub record Sgp4 (D : Type 0) : Type 0 where
  pub base : Sgdp4 D
  pub imode : IMode
  pub c5 : D
  pub omgcof : D
  pub xmcof : D
  pub delmo : D
  pub sinmo : D
  pub d2 : D
  pub d3 : D
  pub d4 : D
  pub t3cof : D
  pub t4cof : D
  pub t5cof : D

abbrev pub is_norm : IMode → Bool
is_norm sgdp4_near_norm = true
is_norm _ = false

module _ {D : Type 0} (floats : Floats D) where
  infixl 65 ◌+◌ ◌-◌
  infixl 70 ◌*◌ ◌/◌
  open floats use {add as ◌+◌, sub as ◌-◌, mul as ◌*◌, div as ◌/◌, neg, decimal, sin, cos, pow, lt}
  open tle_const floats use {tothrd, ae, ecc_all}

  unfoldable pub new_sgp4 : Orbit D → IMode → Sgp4 D
  unfolding new_sgdp4
  new_sgp4 keo imode =
      let g = new_sgdp4 floats keo in
      let zero = decimal 0 0 in
      let etasq = g.eta * g.eta in
      let eccentric = lt ecc_all keo.elements.eccentricity in
      let norm = is_norm imode in
      let c5 =
        if norm
        then decimal 2 0
          * g.coef1
          * keo.recovered.semi_major_r
          * g.betao2
          * (decimal 1 0 + decimal 275 2 * (etasq + g.eeta) + g.eeta * etasq)
        else zero in
      let c3 =
        if norm
        then (if eccentric
            then g.coef * g.tsi * g.a3ovk2 * keo.recovered.mean_motion_r * ae * g.sinio
              / keo.elements.eccentricity
            else g.c3)
        else g.c3 in
      let omgcof = if norm then keo.elements.b_star * c3 * cos keo.elements.arg_perigee else zero in
      let xmcof =
        if eccentric then neg tothrd * g.coef * keo.elements.b_star * ae / g.eeta else zero in
      let sinmo = sin keo.elements.mean_anomaly in
      let delmo = pow (decimal 1 0 + g.eta * cos keo.elements.mean_anomaly) (decimal 3 0) in
      let c1sq = g.c1 * g.c1 in
      let d2 = decimal 4 0 * keo.recovered.semi_major_r * g.tsi * c1sq in
      let temp0 = d2 * g.tsi * g.c1 / decimal 3 0 in
      let d3 = (decimal 17 0 * keo.recovered.semi_major_r + g.s4) * temp0 in
      let d4 =
        decimal 5 1
        * temp0
        * keo.recovered.semi_major_r
        * g.tsi
        * (decimal 221 0 * keo.recovered.semi_major_r + decimal 31 0 * g.s4)
        * g.c1 in
      let t3cof = d2 + decimal 2 0 * c1sq in
      let t4cof =
        decimal 25 2 * (decimal 3 0 * d3 + g.c1 * (decimal 12 0 * d2 + decimal 10 0 * c1sq)) in
      let t5cof =
        decimal 2 1
        * (decimal 3 0 * d4
            + decimal 12 0 * g.c1 * d3
            + decimal 6 0 * d2 * d2
            + decimal 15 0 * c1sq * (decimal 2 0 * d2 + c1sq)) in
      record {
        base = record g { c3 = c3 };
        imode = imode;
        c5 = c5;
        omgcof = omgcof;
        xmcof = xmcof;
        delmo = delmo;
        sinmo = sinmo;
        d2 = d2;
        d3 = d3;
        d4 = d4;
        t3cof = t3cof;
        t4cof = t4cof;
        t5cof = t5cof;
      }

  -- The data of the simplified and of the normal equations, before they are put together.
  unfoldable pub near_simp : Orbit D → Sgp4 D → CalcData D → CalcData D
  near_simp keo m cd = record cd {
    tempa = decimal 1 0 - cd.tsince * m.base.c1;
    tempe = keo.elements.b_star * cd.tsince * m.base.c4;
    templ = cd.tsince * cd.tsince * m.base.t2cof;
  }

  unfoldable pub near_norm : Orbit D → Sgp4 D → CalcData D → CalcData D
  near_norm keo m cd =
      let tsince = cd.tsince in
      let delm = m.xmcof * (pow (decimal 1 0 + m.base.eta * cos cd.xmp) (decimal 3 0) - m.delmo) in
      let temp0 = tsince * m.omgcof + delm in
      let xmp = cd.xmp + temp0 in
      record cd {
        xmp = xmp;
        omega = cd.omega - temp0;
        tempa =
            decimal 1 0 - tsince * (m.base.c1 + tsince * (m.d2 + tsince * (m.d3 + tsince * m.d4)));
        tempe = keo.elements.b_star * (m.base.c4 * tsince + m.c5 * (sin xmp - m.sinmo));
        templ =
            tsince
            * tsince
            * (m.base.t2cof + tsince * (m.t3cof + tsince * (m.t4cof + tsince * m.t5cof)));
      }

  -- The orbit at the time.
  unfoldable pub elements_at : Orbit D → CalcData D → CalcData D
  elements_at keo cd = record cd {
    a = keo.recovered.semi_major_r * cd.tempa * cd.tempa;
    e = keo.elements.eccentricity - cd.tempe;
    xl = cd.xmp + cd.omega + cd.xnode + keo.recovered.mean_motion_r * cd.templ;
  }

  -- `NoradSGP4::getPosition`. The fields of `cd` are not set before; every one that is read is set.
  unfoldable pub position_near :
      D → Orbit D → Sgp4 D → CalcData D → ℕ → D → Vect3 D → Vect3 D → CsType → Reply D
  unfolding init_calc_data near_simp near_norm elements_at
  position_near jd keo m cd errors tsince v0 v1 cs =
      let cd' = init_calc_data floats keo m.base tsince cs cd in
      let on = λ (c : CalcData D). get_position floats jd m.base (elements_at keo c) errors v0 v1 in
      elim m.imode [
        | sgdp4_near_simp ↦ on (near_simp keo m cd')
        | sgdp4_near_norm ↦ on (near_norm keo m cd')
        | _ ↦ record { errors = errors; ok = false; v0 = v0; v1 = v1 }
      ]
