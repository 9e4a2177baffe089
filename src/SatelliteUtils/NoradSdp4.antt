-- ===== src/SatelliteUtils/NoradSdp4.antt =====
-- SatelliteUtils/noradSDP4.cpp: the model for orbits far from the Earth.
pub mod LunarSolar
pub mod ResonanceTerms
pub mod Secular
pub mod Kept
use radar_software.Prelude.{ℕ, Bool, true, false, Option, none, some, not, if◌then◌else◌}
use radar_software.Float.{Floats}
use radar_software.TargetEnvironment.Catalog.{
  IMode, sgdp4_deep_norm, sgdp4_deep_resn, sgdp4_deep_sync,
}
use radar_software.TargetEnvironment.Catalog.Orbits.{Orbit}
use radar_software.SatelliteUtils.{tle_const}
use radar_software.SatelliteUtils.Errors.{em_integr_warn, warn}
use radar_software.SatelliteUtils.Gmst.{to_gmst}
use radar_software.SatelliteUtils.Vector3.{Vect3}
use radar_software.SatelliteUtils.NoradBase.{CsType}
use radar_software.SatelliteUtils.NoradSgdp4.{
  Sgdp4, CalcData, Reply, new_sgdp4, guarded, init_calc_data, get_position,
}
use radar_software.SatelliteUtils.NoradSdp4.LunarSolar.{
  Terms, Bodies, Periodics, moon_at, solar_geometry, lunar_geometry, body_pass, compute_lunar_solar,
}
use radar_software.SatelliteUtils.NoradSdp4.ResonanceTerms.{Sums, Resonance, resonance_of, thdt}
use radar_software.SatelliteUtils.NoradSdp4.Secular.{
  Integrator, Epoch, Caught, out_of_fuel, too_far, caught, DeepCalcData, dot_terms_calculated,
  restarted, catch_up,
}

-- `class NoradSDP4`.
pub record Sdp4 (D : Type 0) : Type 0 where
  pub base : Sgdp4 D
  pub imode : IMode
  pub ilsd : Bool
  pub bodies : Bodies D
  pub sums : Sums D
  pub thgr : D
  pub resonance : Resonance D
  pub xfact : D
  pub epoch : Epoch D
  pub integrator : Integrator D

-- A prediction: the reply, and the model with what the prediction changed in it. `none` is the loop of
-- the integrator that runs on.
pub record Predicted (D : Type 0) : Type 0 where
  pub model : Sdp4 D
  pub reply : Reply D

module _ {D : Type 0} (floats : Floats D) where
  infixl 65 ◌+◌ ◌-◌
  infixl 70 ◌*◌ ◌/◌
  open floats use {
    add as ◌+◌, sub as ◌-◌, mul as ◌*◌, div as ◌/◌, neg, decimal, sin, cos, pow, fabs, atan2, trunc,
    lt, le,
  }
  open tle_const floats use {pi, twopi, sin_eps, tothrd, xke}

  -- The inclination's sine, kept away from 0.
  abbrev pub guarded_sine : D → D
  guarded_sine sinio =
      if le (fabs sinio) sin_eps
      then (if le (decimal 0 0) sinio then fabs sin_eps else neg (fabs sin_eps))
      else sinio

  abbrev pub dots_of : Orbit D → Sdp4 D → Integrator D → Integrator D
  dots_of keo m i = dot_terms_calculated floats keo m.base m.resonance m.xfact i

  abbrev pub stopped : Epoch D
  stopped = record {
    mean_motion_r = decimal 0 0;
    xlamo = decimal 0 0;
    xnddt0 = decimal 0 0;
    xndot0 = decimal 0 0;
    xldot0 = decimal 0 0;
  }

  -- The integrator's start, with its terms computed.
  unfoldable pub start_of : Orbit D → Sgdp4 D → Resonance D → D → Epoch D
  unfolding dot_terms_calculated
  start_of keo g res xfact =
      let i = dot_terms_calculated floats keo g res xfact (record {
        atime = decimal 0 0;
        xli = res.xlamo;
        xni = keo.recovered.mean_motion_r;
        xnddt = decimal 0 0;
        xndot = decimal 0 0;
        xldot = decimal 0 0;
      }) in
      record {
        mean_motion_r = keo.recovered.mean_motion_r;
        xlamo = res.xlamo;
        xnddt0 = i.xnddt;
        xndot0 = i.xndot;
        xldot0 = i.xldot;
      }

  -- The constructor, for the date of the elements as it stands in the catalogue.
  unfoldable pub new_sdp4 : Orbit D → D → Sdp4 D
  unfolding new_sgdp4 moon_at solar_geometry lunar_geometry body_pass resonance_of start_of
      restarted
  new_sdp4 keo date =
      let base = new_sgdp4 floats keo in
      let g : Sgdp4 D = record base { sinio = guarded_sine base.sinio } in
      let gmst = to_gmst floats date in
      let moon = moon_at floats (gmst.1 + decimal 182615 1) in
      let solar = body_pass floats keo g (solar_geometry floats keo) (decimal 0 0) in
      let lunar = body_pass floats keo g (lunar_geometry floats keo moon) solar.shdq in
      let sums : Sums D = record {
        sse = solar.se + lunar.se;
        ssi = solar.si + lunar.si;
        ssl = solar.sl + lunar.sl;
        ssg = solar.sgh - g.cosio * solar.shdq + (lunar.sgh - g.cosio * lunar.shdq);
        ssh = solar.shdq + lunar.shdq;
      } in
      let res = resonance_of floats keo g sums gmst.0 in
      let xfact = if res.iresfl then res.bfact - keo.recovered.mean_motion_r else decimal 0 0 in
      let epoch = if res.iresfl then start_of keo g res xfact else stopped in
      record {
        base = g;
        imode =
            if res.iresfl
            then (if res.isynfl then sgdp4_deep_sync else sgdp4_deep_resn)
            else sgdp4_deep_norm;
        ilsd = le (decimal 2 1) keo.elements.inclination;
        bodies = record { solar = solar; lunar = lunar; zmol = moon.zmol; zmos = moon.zmos };
        sums = sums;
        thgr = gmst.0;
        resonance = res;
        xfact = xfact;
        epoch = epoch;
        integrator = restarted floats epoch;
      }

  -- The first part of `_secular`.
  unfoldable pub drift : Sdp4 D → DeepCalcData D → DeepCalcData D
  drift m dcd =
      let c = dcd.cd in
      record dcd {
        cd = record c {
          xmp = c.xmp + m.sums.ssl * c.tsince;
          omega = c.omega + m.sums.ssg * c.tsince;
          xnode = c.xnode + m.sums.ssh * c.tsince;
          xinc = c.xinc + m.sums.ssi * c.tsince;
        };
        ecc = dcd.ecc + m.sums.sse * c.tsince;
      }

  -- Its last part, with the integrator within a step of the time.
  unfoldable pub resonant : Sdp4 D → Integrator D → DeepCalcData D → DeepCalcData D
  resonant m i dcd =
      let c = dcd.cd in
      let ft = c.tsince - i.atime in
      let xl = i.xli + ft * (i.xldot + ft * decimal 5 1 * i.xndot) in
      let temp0 = neg c.xnode + m.thgr + c.tsince * thdt floats in
      record dcd {
        xn = i.xni + ft * (i.xndot + ft * decimal 5 1 * i.xnddt);
        cd = record c {
          xmp = if m.resonance.isynfl then xl - c.omega + temp0 else xl + temp0 + temp0;
        };
      }

  unfoldable pub deep_periodics : Sdp4 D → DeepCalcData D → DeepCalcData D
  unfolding compute_lunar_solar
  deep_periodics m dcd =
      let c = dcd.cd in
      let p = compute_lunar_solar floats m.bodies c.tsince in
      let xinc = c.xinc + p.pinc in
      let e = c.e + p.pe in
      let sinis = sin xinc in
      let cosis = cos xinc in
      if m.ilsd
      then (let tmp_ph = p.ph / sinis in
          record dcd {
            cd = record c {
              xinc = xinc;
              e = e;
              omega = c.omega + (p.pgh - cosis * tmp_ph);
              xnode = c.xnode + tmp_ph;
            };
            xmam = dcd.xmam + p.pl;
          })
      else let oldxnode = c.xnode in
        let sinok = sin oldxnode in
        let cosok = cos oldxnode in
        let dalf = p.ph * cosok + p.pinc * cosis * sinok in
        let dbet = neg p.ph * sinok + p.pinc * cosis * cosok in
        let alfdp = sinis * sinok + dalf in
        let betdp = sinis * cosok + dbet in
        let dls = p.pl + p.pgh - p.pinc * oldxnode * sinis in
        let xls = dcd.xmam + c.omega + cosis * oldxnode + dls in
        let turned = atan2 alfdp betdp in
        let temp = (oldxnode - turned) / twopi in
        let ishift =
          trunc (if lt (decimal 0 0) temp then temp + decimal 5 1 else temp - decimal 5 1) in
        let xnode = turned + twopi * ishift in
        let xmam = dcd.xmam + p.pl in
        record dcd {
          cd = record c { xinc = xinc; e = e; xnode = xnode; omega = xls - xmam - cosis * xnode };
          xmam = xmam;
        }

  -- The part of `getPosition` behind `_secular`: the data, and the members that it computes anew.
  unfoldable pub perturbed : Orbit D → Sdp4 D → DeepCalcData D → CalcData D × Sgdp4 D
  unfolding deep_periodics
  perturbed keo m dcd =
      let c = dcd.cd in
      let d = deep_periodics m (record dcd {
        cd = record c { a = pow (xke / dcd.xn) tothrd * c.tempa * c.tempa; e = dcd.ecc - c.tempe };
        xmam = c.xmp + keo.recovered.mean_motion_r * c.templ;
      }) in
      let negative = lt d.cd.xinc (decimal 0 0) in
      let xinc = if negative then neg d.cd.xinc else d.cd.xinc in
      let xnode = if negative then d.cd.xnode + pi else d.cd.xnode in
      let omega = if negative then d.cd.omega - pi else d.cd.omega in
      let sinio = sin xinc in
      let cosio = cos xinc in
      let theta2 = cosio * cosio in
      let temp0 = guarded floats (decimal 1 0 + cosio) in
      let dc = d.cd in
      let g = m.base in
      (
        record dc {
          xinc = xinc;
          xnode = xnode;
          omega = omega;
          xl = d.xmam + omega + xnode;
          sinio = sinio;
          cosio = cosio;
        },
        record g {
          x3thm1 = decimal 3 0 * theta2 - decimal 1 0;
          x1mth2 = decimal 1 0 - theta2;
          x7thm1 = decimal 7 0 * theta2 - decimal 1 0;
          xlcof = decimal 125 3 * g.a3ovk2 * sinio * (decimal 3 0 + decimal 5 0 * cosio) / temp0;
          aycof = decimal 25 2 * g.a3ovk2 * sinio;
        },
      )

  -- The end of `getPosition`.
  unfoldable pub predict :
      D → Orbit D → Sdp4 D → DeepCalcData D → ℕ → Vect3 D → Vect3 D → Predicted D
  unfolding perturbed
  predict jd keo m dcd errors v0 v1 =
      let p = perturbed keo m dcd in
      record {
        model = record m { base = p.1 };
        reply = get_position floats jd p.1 p.0 errors v0 v1;
      }

  -- The data at the time, before the resonance and the periodics.
  unfoldable pub deep_data : Orbit D → Sdp4 D → CalcData D → D → CsType → DeepCalcData D
  unfolding init_calc_data drift
  deep_data keo m cd tsince cs =
      let c = init_calc_data floats keo m.base tsince cs cd in
      drift m (record {
        cd = record c {
          tempa = decimal 1 0 - tsince * m.base.c1;
          tempe = keo.elements.b_star * tsince * m.base.c4;
          templ = tsince * tsince * m.base.t2cof;
        };
        xn = keo.recovered.mean_motion_r;
        ecc = keo.elements.eccentricity;
        xmam = decimal 0 0;
      })

  -- The end for a resonant orbit, by how the integrator ended.
  unfoldable pub conclude :
      D
      → Orbit D
      → Sdp4 D
      → DeepCalcData D
      → ℕ
      → Vect3 D
      → Vect3 D
      → Caught D
      → Option (Predicted D)
  unfolding resonant predict
  conclude jd keo m dcd errors v0 v1 out_of_fuel = none
  conclude jd keo m dcd errors v0 v1 (too_far i) = some (record {
    model = record m { integrator = i };
    reply = record { errors = warn errors em_integr_warn; ok = false; v0 = v0; v1 = v1 };
  })
  conclude jd keo m dcd errors v0 v1 (caught i) =
      some (predict jd keo (record m { integrator = i }) (resonant m i dcd) errors v0 v1)

  -- `NoradSDP4::getPosition`. The fields of `cd` are not set before; every one that is read is set.
  unfoldable pub position_deep :
      ℕ
      → D
      → Orbit D
      → Sdp4 D
      → CalcData D
      → ℕ
      → D
      → Vect3 D
      → Vect3 D
      → CsType
      → Option (Predicted D)
  unfolding deep_data catch_up predict conclude
  position_deep fuel jd keo m cd errors tsince v0 v1 cs =
      let dcd = deep_data keo m cd tsince cs in
      if not m.resonance.iresfl
      then some (predict jd keo m dcd errors v0 v1)
      else conclude jd keo m dcd errors v0 v1
          (catch_up floats (dots_of keo m) fuel m.epoch tsince m.integrator)
