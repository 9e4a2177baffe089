-- ===== src/SatelliteUtils/NoradSdp4/ResonanceTerms.antt =====
-- The resonance of an orbit with the Earth, in the constructor of SatelliteUtils/noradSDP4.cpp.
use radar_software.Prelude.{Bool, true, false, ◌&&◌, if◌then◌else◌}
use radar_software.Float.{Floats}
use radar_software.TargetEnvironment.Catalog.Orbits.{Orbit}
use radar_software.SatelliteUtils.NoradSgdp4.{Sgdp4}

-- The secular terms of the sun and the moon, added up.
pub record Sums (D : Type 0) : Type 0 where
  pub sse : D
  pub ssi : D
  pub ssl : D
  pub ssg : D
  pub ssh : D

-- The flags `dp_iresfl` and `dp_isynfl`, and the members that they decide about. A member that the
-- constructor leaves unset, and nothing reads then, is 0.
pub record Resonance (D : Type 0) : Type 0 where
  pub iresfl : Bool
  pub isynfl : Bool
  pub del1 : D
  pub del2 : D
  pub del3 : D
  pub d2201 : D
  pub d2211 : D
  pub d3210 : D
  pub d3222 : D
  pub d4410 : D
  pub d4422 : D
  pub d5220 : D
  pub d5232 : D
  pub d5421 : D
  pub d5433 : D
  pub xlamo : D
  pub bfact : D

module _ {D : Type 0} (floats : Floats D) where
  infixl 65 ◌+◌ ◌-◌
  infixl 70 ◌*◌ ◌/◌
  open floats use {add as ◌+◌, sub as ◌-◌, mul as ◌*◌, div as ◌/◌, neg, decimal, lt, le}

  abbrev pub thdt : D
  thdt = decimal 437526908801129966 20

  unfoldable pub synchronous : Orbit D → Sgdp4 D → Sums D → D → Resonance D
  synchronous keo g sums thgr =
      let aqnv = decimal 1 0 / keo.recovered.semi_major_r in
      let xmao = keo.elements.mean_anomaly in
      let eqsq = keo.elements.eccentricity * keo.elements.eccentricity in
      let g200 = decimal 1 0 + eqsq * (neg (decimal 25 1) + decimal 8125 4 * eqsq) in
      let g310 = decimal 1 0 + decimal 2 0 * eqsq in
      let g300 = decimal 1 0 + eqsq * (neg (decimal 6 0) + decimal 660937 5 * eqsq) in
      let f220 = decimal 75 2 * (decimal 1 0 + g.cosio) * (decimal 1 0 + g.cosio) in
      let f311 =
        decimal 9375 4 * g.sinio * g.sinio * (decimal 1 0 + decimal 3 0 * g.cosio)
        - decimal 75 2 * (decimal 1 0 + g.cosio) in
      let f330 = decimal 1 0 + g.cosio in
      let q22 = decimal 17891679 13 in
      let q31 = decimal 21460748 13 in
      let q33 = decimal 22123015 14 in
      let f330 = decimal 1875 3 * f330 * f330 * f330 in
      let del1 =
        decimal 3 0 * keo.recovered.mean_motion_r * keo.recovered.mean_motion_r * aqnv * aqnv in
      let del2 = decimal 2 0 * del1 * f220 * g200 * q22 in
      let del3 = decimal 3 0 * del1 * f330 * g300 * q33 * aqnv in
      let del1 = del1 * f311 * g310 * q31 * aqnv in
      let xlamo = xmao + keo.elements.raan + keo.elements.arg_perigee - thgr in
      let bfact = g.xmdot + (g.omgdot + g.xnodot) - thdt in
      let bfact = bfact + sums.ssl + sums.ssg + sums.ssh in
      record {
        iresfl = true;
        isynfl = true;
        del1 = del1;
        del2 = del2;
        del3 = del3;
        d2201 = decimal 0 0;
        d2211 = decimal 0 0;
        d3210 = decimal 0 0;
        d3222 = decimal 0 0;
        d4410 = decimal 0 0;
        d4422 = decimal 0 0;
        d5220 = decimal 0 0;
        d5232 = decimal 0 0;
        d5421 = decimal 0 0;
        d5433 = decimal 0 0;
        xlamo = xlamo;
        bfact = bfact;
      }

  unfoldable pub half_day : Orbit D → Sgdp4 D → Sums D → D → Resonance D
  half_day keo g sums thgr =
      let aqnv = decimal 1 0 / keo.recovered.semi_major_r in
      let xmao = keo.elements.mean_anomaly in
      let eq = keo.elements.eccentricity in
      let eqsq = eq * eq in
      let eoc = eq * eqsq in
      let g201 = neg (decimal 306 3) - (eq - decimal 64 2) * decimal 44 2 in
      let low = le eq (decimal 65 2) in
      let g211 =
        if low
        then decimal 3616 3 - decimal 13247 3 * eq + decimal 1629 2 * eqsq
        else neg (decimal 72099 3)
          + decimal 331819 3 * eq
          - decimal 508738 3 * eqsq
          + decimal 266724 3 * eoc in
      let g310 =
        if low
        then neg (decimal 19302 3)
          + decimal 11739 2 * eq
          - decimal 228419 3 * eqsq
          + decimal 156591 3 * eoc
        else neg (decimal 346844 3)
          + decimal 1582851 3 * eq
          - decimal 2415925 3 * eqsq
          + decimal 1246113 3 * eoc in
      let g322 =
        if low
        then neg (decimal 189068 4)
          + decimal 1097927 4 * eq
          - decimal 2146334 4 * eqsq
          + decimal 1465816 4 * eoc
        else neg (decimal 342585 3)
          + decimal 1554908 3 * eq
          - decimal 2366899 3 * eqsq
          + decimal 1215972 3 * eoc in
      let g410 =
        if low
        then neg (decimal 41122 3)
          + decimal 242694 3 * eq
          - decimal 471094 3 * eqsq
          + decimal 313953 3 * eoc
        else neg (decimal 1052797 3)
          + decimal 4758686 3 * eq
          - decimal 7193992 3 * eqsq
          + decimal 3651957 3 * eoc in
      let g422 =
        if low
        then neg (decimal 146407 3)
          + decimal 84188 2 * eq
          - decimal 1629014 3 * eqsq
          + decimal 1083435 3 * eoc
        else neg (decimal 358169 2)
          + decimal 1617811 2 * eq
          - decimal 2446277 2 * eqsq
          + decimal 1242252 2 * eoc in
      let g520 =
        if low
        then neg (decimal 532114 3)
          + decimal 3017977 3 * eq
          - decimal 5740 0 * eqsq
          + decimal 3708276 3 * eoc
        else if le eq (decimal 715 3)
        then decimal 146474 2 - decimal 466475 2 * eq + decimal 376364 2 * eqsq
        else neg (decimal 514966 2)
          + decimal 2993692 2 * eq
          - decimal 5408736 2 * eqsq
          + decimal 3132456 2 * eoc in
      let g533 =
        if lt eq (decimal 7 1)
        then neg (decimal 9192277 4)
          + decimal 498861 2 * eq
          - decimal 906477 2 * eqsq
          + decimal 554221 2 * eoc
        else neg (decimal 3799578 2)
          + decimal 16161652 2 * eq
          - decimal 2298382 1 * eqsq
          + decimal 10937794 2 * eoc in
      let g521 =
        if lt eq (decimal 7 1)
        then neg (decimal 82271072 5)
          + decimal 45686173 4 * eq
          - decimal 84914146 4 * eqsq
          + decimal 5337524 3 * eoc
        else neg (decimal 51752104 3)
          + decimal 21891395 2 * eq
          - decimal 30946816 2 * eqsq
          + decimal 14634942 2 * eoc in
      let g532 =
        if lt eq (decimal 7 1)
        then neg (decimal 853666 3)
          + decimal 469025 2 * eq
          - decimal 862477 2 * eqsq
          + decimal 53414 1 * eoc
        else neg (decimal 4002388 2)
          + decimal 17047089 2 * eq
          - decimal 24269948 2 * eqsq
          + decimal 11560582 2 * eoc in
      let sini2 = g.sinio * g.sinio in
      let theta2 = g.cosio * g.cosio in
      let f220 = decimal 75 2 * (decimal 1 0 + decimal 2 0 * g.cosio + theta2) in
      let root22 = decimal 17891679 13 in
      let root32 = decimal 37393792 14 in
      let root44 = decimal 73636953 16 in
      let root52 = decimal 11428639 14 in
      let root54 = decimal 21765803 16 in
      let f221 = decimal 15 1 * sini2 in
      let f321 =
        decimal 1875 3 * g.sinio * (decimal 1 0 - decimal 2 0 * g.cosio - decimal 3 0 * theta2) in
      let f322 =
        neg (decimal 1875 3)
        * g.sinio
        * (decimal 1 0 + decimal 2 0 * g.cosio - decimal 3 0 * theta2) in
      let f441 = decimal 35 0 * sini2 * f220 in
      let f442 = decimal 39375 3 * sini2 * sini2 in
      let f522 =
        decimal 984375 5
        * g.sinio
        * (sini2 * (decimal 1 0 - decimal 2 0 * g.cosio - decimal 5 0 * theta2)
            + decimal 33333333 8
              * (neg (decimal 2 0) + decimal 4 0 * g.cosio + decimal 6 0 * theta2)) in
      let f523 =
        g.sinio
        * (decimal 492187512 8
              * sini2
              * (neg (decimal 2 0) - decimal 4 0 * g.cosio + decimal 10 0 * theta2)
            + decimal 656250012 8 * (decimal 1 0 + decimal 2 0 * g.cosio - decimal 3 0 * theta2)) in
      let f542 =
        decimal 2953125 5
        * g.sinio
        * (decimal 2 0
            - decimal 8 0 * g.cosio
            + theta2 * (neg (decimal 12 0) + decimal 8 0 * g.cosio + decimal 10 0 * theta2)) in
      let f543 =
        decimal 2953125 5
        * g.sinio
        * (neg (decimal 2 0)
            - decimal 8 0 * g.cosio
            + theta2 * (decimal 12 0 + decimal 8 0 * g.cosio - decimal 10 0 * theta2)) in
      let xno2 = keo.recovered.mean_motion_r * keo.recovered.mean_motion_r in
      let ainv2 = aqnv * aqnv in
      let temp1 = decimal 3 0 * xno2 * ainv2 in
      let temp = temp1 * root22 in
      let d2201 = temp * f220 * g201 in
      let d2211 = temp * f221 * g211 in
      let temp1 = temp1 * aqnv in
      let temp = temp1 * root32 in
      let d3210 = temp * f321 * g310 in
      let d3222 = temp * f322 * g322 in
      let temp1 = temp1 * aqnv in
      let temp = decimal 2 0 * temp1 * root44 in
      let d4410 = temp * f441 * g410 in
      let d4422 = temp * f442 * g422 in
      let temp1 = temp1 * aqnv in
      let temp = temp1 * root52 in
      let d5220 = temp * f522 * g520 in
      let d5232 = temp * f523 * g532 in
      let temp = decimal 2 0 * temp1 * root54 in
      let d5421 = temp * f542 * g521 in
      let d5433 = temp * f543 * g533 in
      let xlamo = xmao + keo.elements.raan + keo.elements.raan - thgr - thgr in
      let bfact = g.xmdot + g.xnodot + g.xnodot - thdt - thdt in
      let bfact = bfact + sums.ssl + sums.ssh + sums.ssh in
      record {
        iresfl = true;
        isynfl = false;
        del1 = decimal 0 0;
        del2 = decimal 0 0;
        del3 = decimal 0 0;
        d2201 = d2201;
        d2211 = d2211;
        d3210 = d3210;
        d3222 = d3222;
        d4410 = d4410;
        d4422 = d4422;
        d5220 = d5220;
        d5232 = d5232;
        d5421 = d5421;
        d5433 = d5433;
        xlamo = xlamo;
        bfact = bfact;
      }

  unfoldable pub no_resonance : Resonance D
  no_resonance = record {
    iresfl = false;
    isynfl = false;
    del1 = decimal 0 0;
    del2 = decimal 0 0;
    del3 = decimal 0 0;
    d2201 = decimal 0 0;
    d2211 = decimal 0 0;
    d3210 = decimal 0 0;
    d3222 = decimal 0 0;
    d4410 = decimal 0 0;
    d4422 = decimal 0 0;
    d5220 = decimal 0 0;
    d5232 = decimal 0 0;
    d5421 = decimal 0 0;
    d5433 = decimal 0 0;
    xlamo = decimal 0 0;
    bfact = decimal 0 0;
  }

  -- The period is 24 hours, 12 hours on a long ellipse, or neither.
  unfoldable pub resonance_of : Orbit D → Sgdp4 D → Sums D → D → Resonance D
  unfolding synchronous half_day no_resonance
  resonance_of keo g sums thgr =
      let n = keo.recovered.mean_motion_r in
      if lt (decimal 34906585 10) n && lt n (decimal 52359877 10)
      then synchronous keo g sums thgr
      else if le (decimal 826 5) n
          && le n (decimal 924 5)
          && le (decimal 5 1) keo.elements.eccentricity
      then half_day keo g sums thgr
      else no_resonance
