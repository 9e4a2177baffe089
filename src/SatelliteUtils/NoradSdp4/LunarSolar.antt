-- ===== src/SatelliteUtils/NoradSdp4/LunarSolar.antt =====
-- The lunar and solar terms in the constructor of SatelliteUtils/noradSDP4.cpp, and `_compute_LunarSolar`.
use radar_software.Prelude.{if◌then◌else◌}
use radar_software.Float.{Floats}
use radar_software.TargetEnvironment.Catalog.Orbits.{Orbit}
use radar_software.SatelliteUtils.{tle_const}
use radar_software.SatelliteUtils.NoradBase.{fmod2p}
use radar_software.SatelliteUtils.NoradSgdp4.{Sgdp4}

-- What a pass of the loop starts from.
pub record Geometry (D : Type 0) : Type 0 where
  pub zcosg : D
  pub zsing : D
  pub zcosi : D
  pub zsini : D
  pub zcosh : D
  pub zsinh : D
  pub cc : D
  pub zn : D
  pub ze : D

-- What a pass leaves, in its variables and in the members `dp_`.
pub record Terms (D : Type 0) : Type 0 where
  pub se : D
  pub si : D
  pub sl : D
  pub sgh : D
  pub shdq : D
  pub ee2 : D
  pub e3 : D
  pub xi2 : D
  pub xi3 : D
  pub xl2 : D
  pub xl3 : D
  pub xl4 : D
  pub xgh2 : D
  pub xgh3 : D
  pub xgh4 : D
  pub xh2 : D
  pub xh3 : D

-- The place of the moon on a day, and the mean anomalies of both.
pub record Moon (D : Type 0) : Type 0 where
  pub zcosil : D
  pub zsinil : D
  pub zcosgl : D
  pub zsingl : D
  pub zcoshl : D
  pub zsinhl : D
  pub zmol : D
  pub zmos : D

-- The members that the time dependent terms are made of: those of the sun stand in `solar` without
-- their `s` (`dp_se2` is `solar.ee2`), those of the moon in `lunar`.
pub record Bodies (D : Type 0) : Type 0 where
  pub solar : Terms D
  pub lunar : Terms D
  pub zmol : D
  pub zmos : D

-- The periodics of both bodies.
pub record Periodics (D : Type 0) : Type 0 where
  pub pgh : D
  pub ph : D
  pub pe : D
  pub pinc : D
  pub pl : D

module _ {D : Type 0} (floats : Floats D) where
  infixl 65 ◌+◌ ◌-◌
  infixl 70 ◌*◌ ◌/◌
  open floats use {
    add as ◌+◌, sub as ◌-◌, mul as ◌*◌, div as ◌/◌, neg, decimal, sin, cos, sqrt, fmod, atan2, le,
  }
  open tle_const floats use {twopi}

  abbrev pub zes : D
  zes = decimal 1675 5

  abbrev pub zel : D
  zel = decimal 549 4

  abbrev pub zns : D
  zns = decimal 119459 10

  abbrev pub znl : D
  znl = decimal 15835218 11

  unfoldable pub moon_at : D → Moon D
  moon_at day =
      let xnodce = decimal 4523602 6 - decimal 92422029 11 * day in
      let temp0 = fmod xnodce twopi in
      let dpi_stem = sin temp0 in
      let dpi_ctem = cos temp0 in
      let dpi_zcosil = decimal 91375164 8 - decimal 3568096 8 * dpi_ctem in
      let dpi_zsinil = sqrt (decimal 1 0 - dpi_zcosil * dpi_zcosil) in
      let dpi_zsinhl = decimal 89683511 9 * dpi_stem / dpi_zsinil in
      let dpi_zcoshl = sqrt (decimal 1 0 - dpi_zsinhl * dpi_zsinhl) in
      let dpi_c = decimal 47199672 7 + decimal 2299715 7 * day in
      let dpi_gam = decimal 58351514 7 + decimal 1944368 9 * day in
      let zmol = fmod2p floats (dpi_c - dpi_gam) in
      let dpi_zx = decimal 39785416 8 * dpi_stem / dpi_zsinil in
      let dpi_zy = dpi_zcoshl * dpi_ctem + decimal 91744867 8 * dpi_zsinhl * dpi_stem in
      let dpi_zx = atan2 dpi_zx dpi_zy in
      let dpi_zx = fmod (dpi_zx + dpi_gam - xnodce) twopi in
      let dpi_zcosgl = cos dpi_zx in
      let dpi_zsingl = sin dpi_zx in
      let zmos = decimal 62565837 7 + decimal 17201977 9 * day in
      let zmos = fmod2p floats zmos in
      record {
        zcosil = dpi_zcosil;
        zsinil = dpi_zsinil;
        zcosgl = dpi_zcosgl;
        zsingl = dpi_zsingl;
        zcoshl = dpi_zcoshl;
        zsinhl = dpi_zsinhl;
        zmol = zmol;
        zmos = zmos;
      }

  unfoldable pub solar_geometry : Orbit D → Geometry D
  solar_geometry keo = record {
    zcosg = decimal 1945905 7;
    zsing = neg (decimal 98088458 8);
    zcosi = decimal 91744867 8;
    zsini = decimal 39785416 8;
    zcosh = cos keo.elements.raan;
    zsinh = sin keo.elements.raan;
    cc = decimal 29864797 13;
    zn = zns;
    ze = zes;
  }

  unfoldable pub lunar_geometry : Orbit D → Moon D → Geometry D
  lunar_geometry keo moon =
      let sinq = sin keo.elements.raan in
      let cosq = cos keo.elements.raan in
      record {
        zcosg = moon.zcosgl;
        zsing = moon.zsingl;
        zcosi = moon.zcosil;
        zsini = moon.zsinil;
        zcosh = moon.zcoshl * cosq + moon.zsinhl * sinq;
        zsinh = sinq * moon.zcoshl - cosq * moon.zsinhl;
        cc = decimal 47968065 14;
        zn = znl;
        ze = zel;
      }

  -- A pass, with the `shdq` of the one before, which stays for a small inclination.
  unfoldable pub body_pass : Orbit D → Sgdp4 D → Geometry D → D → Terms D
  body_pass keo g at shdq =
      let sinomo = sin keo.elements.arg_perigee in
      let cosomo = cos keo.elements.arg_perigee in
      let eq = keo.elements.eccentricity in
      let eqsq = eq * eq in
      let xnoi = decimal 1 0 / keo.recovered.mean_motion_r in
      let a1 = at.zcosg * at.zcosh + at.zsing * at.zcosi * at.zsinh in
      let a3 = neg at.zsing * at.zcosh + at.zcosg * at.zcosi * at.zsinh in
      let a7 = neg at.zcosg * at.zsinh + at.zsing * at.zcosi * at.zcosh in
      let a8 = at.zsing * at.zsini in
      let a9 = at.zsing * at.zsinh + at.zcosg * at.zcosi * at.zcosh in
      let a10 = at.zcosg * at.zsini in
      let a2 = g.cosio * a7 + g.sinio * a8 in
      let a4 = g.cosio * a9 + g.sinio * a10 in
      let a5 = neg g.sinio * a7 + g.cosio * a8 in
      let a6 = neg g.sinio * a9 + g.cosio * a10 in
      let x1 = a1 * cosomo + a2 * sinomo in
      let x2 = a3 * cosomo + a4 * sinomo in
      let x3 = neg a1 * sinomo + a2 * cosomo in
      let x4 = neg a3 * sinomo + a4 * cosomo in
      let x5 = a5 * sinomo in
      let x6 = a6 * sinomo in
      let x7 = a5 * cosomo in
      let x8 = a6 * cosomo in
      let z31 = decimal 12 0 * x1 * x1 - decimal 3 0 * x3 * x3 in
      let z32 = decimal 24 0 * x1 * x2 - decimal 6 0 * x3 * x4 in
      let z33 = decimal 12 0 * x2 * x2 - decimal 3 0 * x4 * x4 in
      let z1 = decimal 3 0 * (a1 * a1 + a2 * a2) + z31 * eqsq in
      let z2 = decimal 6 0 * (a1 * a3 + a2 * a4) + z32 * eqsq in
      let z3 = decimal 3 0 * (a3 * a3 + a4 * a4) + z33 * eqsq in
      let z11 =
        neg (decimal 6 0) * a1 * a5
        + eqsq * (neg (decimal 24 0) * x1 * x7 - decimal 6 0 * x3 * x5) in
      let z12 =
        neg (decimal 6 0) * (a1 * a6 + a3 * a5)
        + eqsq * (neg (decimal 24 0) * (x2 * x7 + x1 * x8) - decimal 6 0 * (x3 * x6 + x4 * x5)) in
      let z13 =
        neg (decimal 6 0) * a3 * a6
        + eqsq * (neg (decimal 24 0) * x2 * x8 - decimal 6 0 * x4 * x6) in
      let z21 = decimal 6 0 * a2 * a5 + eqsq * (decimal 24 0 * x1 * x5 - decimal 6 0 * x3 * x7) in
      let z22 =
        decimal 6 0 * (a4 * a5 + a2 * a6)
        + eqsq * (decimal 24 0 * (x2 * x5 + x1 * x6) - decimal 6 0 * (x4 * x7 + x3 * x8)) in
      let z23 = decimal 6 0 * a4 * a6 + eqsq * (decimal 24 0 * x2 * x6 - decimal 6 0 * x4 * x8) in
      let z1 = z1 + z1 + g.betao2 * z31 in
      let z2 = z2 + z2 + g.betao2 * z32 in
      let z3 = z3 + z3 + g.betao2 * z33 in
      let s3 = at.cc * xnoi in
      let s2 = neg (decimal 5 1) * s3 / g.betao in
      let s4 = s3 * g.betao in
      let s1 = neg (decimal 15 0) * eq * s4 in
      let s5 = x1 * x3 + x2 * x4 in
      let s6 = x2 * x3 + x1 * x4 in
      let s7 = x2 * x4 - x1 * x3 in
      let se = s1 * at.zn * s5 in
      let si = s2 * at.zn * (z11 + z13) in
      let sl = neg at.zn * s3 * (z1 + z3 - decimal 14 0 - decimal 6 0 * eqsq) in
      let sgh = s4 * at.zn * (z31 + z33 - decimal 6 0) in
      let sh = neg at.zn * s2 * (z21 + z23) in
      let shdq' = if le (decimal 52359877 9) keo.elements.inclination then sh / g.sinio else shdq in
      let ee2 = decimal 2 0 * s1 * s6 in
      let e3 = decimal 2 0 * s1 * s7 in
      let xi2 = decimal 2 0 * s2 * z12 in
      let xi3 = decimal 2 0 * s2 * (z13 - z11) in
      let xl2 = neg (decimal 2 0) * s3 * z2 in
      let xl3 = neg (decimal 2 0) * s3 * (z3 - z1) in
      let xl4 = neg (decimal 2 0) * s3 * (neg (decimal 21 0) - decimal 9 0 * eqsq) * at.ze in
      let xgh2 = decimal 2 0 * s4 * z32 in
      let xgh3 = decimal 2 0 * s4 * (z33 - z31) in
      let xgh4 = neg (decimal 18 0) * s4 * at.ze in
      let xh2 = neg (decimal 2 0) * s2 * z22 in
      let xh3 = neg (decimal 2 0) * s2 * (z23 - z21) in
      record {
        se = se;
        si = si;
        sl = sl;
        sgh = sgh;
        shdq = shdq';
        ee2 = ee2;
        e3 = e3;
        xi2 = xi2;
        xi3 = xi3;
        xl2 = xl2;
        xl3 = xl3;
        xl4 = xl4;
        xgh2 = xgh2;
        xgh3 = xgh3;
        xgh4 = xgh4;
        xh2 = xh2;
        xh3 = xh3;
      }

  unfoldable pub compute_lunar_solar : Bodies D → D → Periodics D
  compute_lunar_solar b tsince =
      let zm = b.zmos + zns * tsince in
      let zf = zm + zes * decimal 2 0 * sin zm in
      let sinzf = sin zf in
      let coszf = cos zf in
      let f2 = sinzf * decimal 5 1 * sinzf - decimal 25 2 in
      let f3 = sinzf * neg (decimal 5 1) * coszf in
      let ses = b.solar.ee2 * f2 + b.solar.e3 * f3 in
      let sis = b.solar.xi2 * f2 + b.solar.xi3 * f3 in
      let sls = b.solar.xl2 * f2 + b.solar.xl3 * f3 + b.solar.xl4 * sinzf in
      let sghs = b.solar.xgh2 * f2 + b.solar.xgh3 * f3 + b.solar.xgh4 * sinzf in
      let shs = b.solar.xh2 * f2 + b.solar.xh3 * f3 in
      let zm = b.zmol + znl * tsince in
      let zf = zm + zel * decimal 2 0 * sin zm in
      let sinzf = sin zf in
      let coszf = cos zf in
      let f2 = sinzf * decimal 5 1 * sinzf - decimal 25 2 in
      let f3 = sinzf * neg (decimal 5 1) * coszf in
      let sel = b.lunar.ee2 * f2 + b.lunar.e3 * f3 in
      let sil = b.lunar.xi2 * f2 + b.lunar.xi3 * f3 in
      let sll = b.lunar.xl2 * f2 + b.lunar.xl3 * f3 + b.lunar.xl4 * sinzf in
      let sghl = b.lunar.xgh2 * f2 + b.lunar.xgh3 * f3 + b.lunar.xgh4 * sinzf in
      let shl = b.lunar.xh2 * f2 + b.lunar.xh3 * f3 in
      record { pgh = sghs + sghl; ph = shs + shl; pe = ses + sel; pinc = sis + sil; pl = sls + sll }
