-- ===== src/SatelliteUtils/NoradSgdp4.antt =====
-- SatelliteUtils/noradSGDP4.cpp: what the models SGP4 and SDP4 share.
pub mod Anomaly
pub mod Warnings
use radar_software.Prelude.{ℕ, zero, suc, Bool, true, false, if◌then◌else◌, ◌&&◌}
use radar_software.Float.{Floats}
use radar_software.TargetEnvironment.Catalog.Orbits.{Orbit}
use radar_software.SatelliteUtils.{tle_const}
use radar_software.SatelliteUtils.Errors.{em_small_a_warn, em_small_e_warn, em_big_e_warn, warn}
use radar_software.SatelliteUtils.Vector3.{Vect3}
use radar_software.SatelliteUtils.NoradBase.{CsType, Kep, kep2xyz, pow4}

-- The members that the constructor computes once.
pub record Sgdp4 (D : Type 0) : Type 0 where
  pub betao2 : D
  pub betao : D
  pub s4 : D
  pub qoms24 : D
  pub tsi : D
  pub eta : D
  pub eeta : D
  pub coef : D
  pub coef1 : D
  pub c1 : D
  pub c3 : D
  pub c4 : D
  pub a3ovk2 : D
  pub xmdot : D
  pub omgdot : D
  pub xnodot : D
  pub xnodcf : D
  pub t2cof : D
  pub cosio : D
  pub sinio : D
  pub xlcof : D
  pub aycof : D
  pub x3thm1 : D
  pub x1mth2 : D
  pub x7thm1 : D

-- `struct CalcData`.
pub record CalcData (D : Type 0) : Type 0 where
  pub xmp : D
  pub xnode : D
  pub omega : D
  pub tempa : D
  pub tempe : D
  pub templ : D
  pub a : D
  pub e : D
  pub xinc : D
  pub xl : D
  pub tsince : D
  pub sinio : D
  pub cosio : D
  pub cs : CsType

-- What `getPosition` leaves: the warnings of the satellite, its result, the position and the velocity.
pub record Reply (D : Type 0) : Type 0 where
  pub errors : ℕ
  pub ok : Bool
  pub v0 : Vect3 D
  pub v1 : Vect3 D

-- The long period periodics.
pub record LongPeriod (D : Type 0) : Type 0 where
  pub axn : D
  pub ayn : D
  pub elsq : D
  pub capu : D

-- A pass of the loop for Kepler's equation.
pub record NewtonPass (D : Type 0) : Type 0 where
  pub sin_epw : D
  pub cos_epw : D
  pub ecos_e : D
  pub esin_e : D
  pub f : D

module _ {D : Type 0} (floats : Floats D) where
  infixl 65 ◌+◌ ◌-◌
  infixl 70 ◌*◌ ◌/◌
  open floats use {
    add as ◌+◌, sub as ◌-◌, mul as ◌*◌, div as ◌/◌, neg, decimal, sin, cos, sqrt, fabs, fmod, pow,
    atan2, lt, le,
  }
  open tle_const floats use {
    twopi, ae, xkmper_wgs72, ck2, ck4, xj3, s, qoms2t, eps_cosio, ecc_eps, ecc_limit_low,
    ecc_limit_high, nr_eps, xke, radius_ae, speed_ae,
  }

  -- The divisor `1 + cos i`, kept away from 0.
  abbrev pub guarded : D → D
  guarded temp0 =
      if lt (fabs temp0) eps_cosio
      then (if le (decimal 0 0) temp0 then fabs eps_cosio else neg (fabs eps_cosio))
      else temp0

  -- `m_s4` and `m_qoms24`, for a perigee of so many kilometres.
  unfoldable pub perigee_terms : D → D × D
  perigee_terms perigee_r =
      if lt perigee_r (decimal 156 0)
      then (let s4 =
            if le perigee_r (decimal 98 0) then decimal 20 0 else perigee_r - decimal 78 0 in
          let qoms24 = pow4 floats ((decimal 120 0 - s4) * (ae / xkmper_wgs72)) in
          (s4 / xkmper_wgs72 + ae, qoms24))
      else (s, qoms2t)

  unfoldable pub new_sgdp4 : Orbit D → Sgdp4 D
  unfolding perigee_terms
  new_sgdp4 keo =
      let sinio = sin keo.elements.inclination in
      let cosio = cos keo.elements.inclination in
      let theta2 = cosio * cosio in
      let x3thm1 = decimal 3 0 * theta2 - decimal 1 0 in
      let eosq = keo.elements.eccentricity * keo.elements.eccentricity in
      let betao2 = decimal 1 0 - eosq in
      let betao = sqrt betao2 in
      let terms = perigee_terms keo.recovered.perigee_r in
      let s4 = terms.0 in
      let qoms24 = terms.1 in
      let pinvsq =
        decimal 1 0 / (keo.recovered.semi_major_r * keo.recovered.semi_major_r * betao2 * betao2) in
      let tsi = decimal 1 0 / (keo.recovered.semi_major_r - s4) in
      let eta = keo.recovered.semi_major_r * keo.elements.eccentricity * tsi in
      let eeta = keo.elements.eccentricity * eta in
      let etasq = eta * eta in
      let psisq = fabs (decimal 1 0 - etasq) in
      let coef = qoms24 * pow4 floats tsi in
      let coef1 = coef / pow psisq (decimal 35 1) in
      let c2 =
        coef1
        * keo.recovered.mean_motion_r
        * (keo.recovered.semi_major_r
              * (decimal 1 0 + decimal 15 1 * etasq + eeta * (decimal 4 0 + etasq))
            + decimal 75 2
              * ck2
              * tsi
              / psisq
              * x3thm1
              * (decimal 8 0 + decimal 3 0 * etasq * (decimal 8 0 + etasq))) in
      let c1 = keo.elements.b_star * c2 in
      let a3ovk2 = neg xj3 / ck2 * pow ae (decimal 3 0) in
      let c3 = decimal 0 0 in
      let x1mth2 = decimal 1 0 - theta2 in
      let c4 =
        decimal 2 0
        * keo.recovered.mean_motion_r
        * coef1
        * keo.recovered.semi_major_r
        * betao2
        * (eta * (decimal 2 0 + decimal 5 1 * etasq)
            + keo.elements.eccentricity * (decimal 5 1 + decimal 2 0 * etasq)
            - decimal 2 0
              * ck2
              * tsi
              / (keo.recovered.semi_major_r * psisq)
              * (neg (decimal 3 0)
                    * x3thm1
                    * (decimal 1 0
                        - decimal 2 0 * eeta
                        + etasq * (decimal 15 1 - decimal 5 1 * eeta))
                  + decimal 75 2
                    * x1mth2
                    * (decimal 2 0 * etasq - eeta * (decimal 1 0 + etasq))
                    * cos (decimal 2 0 * keo.elements.arg_perigee))) in
      let x7thm1 = decimal 7 0 * theta2 - decimal 1 0 in
      let theta4 = theta2 * theta2 in
      let temp1 = decimal 3 0 * ck2 * pinvsq * keo.recovered.mean_motion_r in
      let temp2 = temp1 * ck2 * pinvsq in
      let temp3 = decimal 125 2 * ck4 * pinvsq * pinvsq * keo.recovered.mean_motion_r in
      let xmdot =
        keo.recovered.mean_motion_r
        + decimal 5 1 * temp1 * betao * x3thm1
        + decimal 625 4
          * temp2
          * betao
          * (decimal 13 0 - decimal 78 0 * theta2 + decimal 137 0 * theta4) in
      let x1m5th = decimal 1 0 - decimal 5 0 * theta2 in
      let omgdot =
        neg (decimal 5 1) * temp1 * x1m5th
        + decimal 625 4 * temp2 * (decimal 7 0 - decimal 114 0 * theta2 + decimal 395 0 * theta4)
        + temp3 * (decimal 3 0 - decimal 36 0 * theta2 + decimal 49 0 * theta4) in
      let xhdot1 = neg temp1 * cosio in
      let xnodot =
        xhdot1
        + (decimal 5 1 * temp2 * (decimal 4 0 - decimal 19 0 * theta2)
            + decimal 2 0 * temp3 * (decimal 3 0 - decimal 7 0 * theta2))
          * cosio in
      let xnodcf = decimal 35 1 * betao2 * xhdot1 * c1 in
      let t2cof = decimal 15 1 * c1 in
      let temp0 = guarded (decimal 1 0 + cosio) in
      let xlcof = decimal 125 3 * a3ovk2 * sinio * (decimal 3 0 + decimal 5 0 * cosio) / temp0 in
      let aycof = decimal 25 2 * a3ovk2 * sinio in
      record {
        betao2 = betao2;
        betao = betao;
        s4 = s4;
        qoms24 = qoms24;
        tsi = tsi;
        eta = eta;
        eeta = eeta;
        coef = coef;
        coef1 = coef1;
        c1 = c1;
        c3 = c3;
        c4 = c4;
        a3ovk2 = a3ovk2;
        xmdot = xmdot;
        omgdot = omgdot;
        xnodot = xnodot;
        xnodcf = xnodcf;
        t2cof = t2cof;
        cosio = cosio;
        sinio = sinio;
        xlcof = xlcof;
        aycof = aycof;
        x3thm1 = x3thm1;
        x1mth2 = x1mth2;
        x7thm1 = x7thm1;
      }

  -- `cd` with the fields that the time gives.
  unfoldable pub init_calc_data : Orbit D → Sgdp4 D → D → CsType → CalcData D → CalcData D
  init_calc_data keo g tsince cs cd = record cd {
    xmp = keo.elements.mean_anomaly + g.xmdot * tsince;
    xnode = keo.elements.raan + tsince * (g.xnodot + tsince * g.xnodcf);
    omega = keo.elements.arg_perigee + g.omgdot * tsince;
    tsince = tsince;
    cs = cs;
    xinc = keo.elements.inclination;
    sinio = g.sinio;
    cosio = g.cosio;
  }

  -- The eccentricity, held within its limits.
  abbrev pub clamped : D → D
  clamped e = if lt e ecc_eps then ecc_eps else if lt ecc_limit_high e then ecc_limit_high else e

  unfoldable pub long_period : Sgdp4 D → CalcData D → LongPeriod D
  long_period g cd =
      let e = clamped cd.e in
      let beta2 = decimal 1 0 - e * e in
      let sin_omg = sin cd.omega in
      let cos_omg = cos cd.omega in
      let temp0 = decimal 1 0 / (cd.a * beta2) in
      let axn = e * cos_omg in
      let ayn = e * sin_omg + temp0 * g.aycof in
      let xlt = cd.xl + temp0 * g.xlcof * axn in
      let elsq = axn * axn + ayn * ayn in
      let capu = fmod (xlt - cd.xnode) twopi in
      record { axn = axn; ayn = ayn; elsq = elsq; capu = capu }

  -- The body of the loop before and after its exit, at the eccentric anomaly `epw`.
  unfoldable pub pass_at : LongPeriod D → D → NewtonPass D
  pass_at lp epw =
      let sin_epw = sin epw in
      let cos_epw = cos epw in
      let ecos_e = lp.axn * cos_epw + lp.ayn * sin_epw in
      let esin_e = lp.axn * sin_epw - lp.ayn * cos_epw in
      record {
        sin_epw = sin_epw;
        cos_epw = cos_epw;
        ecos_e = ecos_e;
        esin_e = esin_e;
        f = lp.capu - epw + esin_e;
      }

  unfoldable pub corrected : LongPeriod D → Bool → D → NewtonPass D → D
  corrected lp first epw p =
      let maxnr = sqrt lp.elsq in
      let df = decimal 1 0 - p.ecos_e in
      let nr = p.f / df in
      epw
      + (if first && lt (decimal 125 2 * maxnr) (fabs nr)
          then (if le (decimal 0 0) nr then fabs maxnr else neg (fabs maxnr))
          else p.f / (df + decimal 5 1 * p.esin_e * nr))

  abbrev pub small : NewtonPass D → Bool
  small p = lt (fabs p.f) nr_eps

  -- The loop, with the passes that are left after this one: what its last pass computed.
  unfoldable pub newton_loop : LongPeriod D → ℕ → Bool → D → NewtonPass D
  unfolding pass_at corrected
  newton_loop lp zero first epw = pass_at lp epw
  newton_loop lp (suc left) first epw =
      let p = pass_at lp epw in
      let rest = newton_loop lp left false (corrected lp first epw p) in if small p then p else rest

  unfoldable pub solve_kepler : LongPeriod D → NewtonPass D
  unfolding newton_loop
  solve_kepler lp = newton_loop lp 9 true lp.capu

  -- The elements at the time, and the radius `rk` in the units of the model.
  unfoldable pub short_period : Sgdp4 D → CalcData D → LongPeriod D → NewtonPass D → D × Kep D
  short_period g cd lp p =
      let temp0 = decimal 1 0 - lp.elsq in
      let betal = sqrt temp0 in
      let pl = cd.a * temp0 in
      let r = cd.a * (decimal 1 0 - p.ecos_e) in
      let inv_r = decimal 1 0 / r in
      let temp2 = cd.a * inv_r in
      let temp3 = decimal 1 0 / (decimal 1 0 + betal) in
      let cosu = temp2 * (p.cos_epw - lp.axn + lp.ayn * p.esin_e * temp3) in
      let sinu = temp2 * (p.sin_epw - lp.ayn - lp.axn * p.esin_e * temp3) in
      let u = atan2 sinu cosu in
      let sin2u = decimal 2 0 * sinu * cosu in
      let cos2u = decimal 2 0 * cosu * cosu - decimal 1 0 in
      let temp0 = decimal 1 0 / pl in
      let temp1 = ck2 * temp0 in
      let temp2 = temp1 * temp0 in
      let rk =
        r * (decimal 1 0 - decimal 15 1 * temp2 * betal * g.x3thm1)
        + decimal 5 1 * temp1 * g.x1mth2 * cos2u in
      let uk = u - decimal 25 2 * temp2 * g.x7thm1 * sin2u in
      let xnodek = cd.xnode + decimal 15 1 * temp2 * cd.cosio * sin2u in
      let xinck = cd.xinc + decimal 15 1 * temp2 * cd.cosio * cd.sinio * cos2u in
      let root = sqrt cd.a in
      let temp = xke / (cd.a * root) in
      (
        rk,
        record {
          radius = rk * radius_ae;
          theta = uk;
          eqinc = xinck;
          ascn = xnodek;
          rdotk = (xke * root * p.esin_e * inv_r - temp * temp1 * g.x1mth2 * sin2u) * speed_ae;
          rfdotk =
              (xke * sqrt pl * inv_r + temp * temp1 * (g.x1mth2 * cos2u + decimal 15 1 * g.x3thm1))
              * speed_ae;
          cs = cd.cs;
          tsinse = cd.tsince;
        },
      )

  -- `_get_position`; `jd` is the day of the satellite's elements.
  unfoldable pub get_position : D → Sgdp4 D → CalcData D → ℕ → Vect3 D → Vect3 D → Reply D
  get_position jd g cd errors v0 v1 =
      let failed : ℕ → Reply D =
        λ mask. record { errors = warn errors mask; ok = false; v0 = v0; v1 = v1 } in
      if lt cd.a (decimal 1 0)
      then failed em_small_a_warn
      else if lt cd.e ecc_limit_low
      then failed em_small_e_warn
      else let lp = long_period g cd in
        if le (decimal 1 0) lp.elsq
        then failed em_big_e_warn
        else let orbit = short_period g cd lp (solve_kepler lp) in
          if lt orbit.0 (decimal 1 0)
          then failed em_small_a_warn
          else let xyz = kep2xyz floats jd orbit.1 in
            record { errors = errors; ok = true; v0 = xyz.0; v1 = xyz.1 }
