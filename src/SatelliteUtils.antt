-- ===== src/SatelliteUtils.antt =====
-- The prediction of orbits in Target Environment/SatelliteUtils/: the constants of catalog_tle.h.
pub mod Vector3
pub mod Errors
pub mod Gmst
pub mod NoradBase
pub mod NoradSgdp4
pub mod NoradSgp4
pub mod NoradCircl
pub mod NoradSdp4
pub mod Norad
mod Tests
use radar_software.Float.{Floats}

-- The constants of `namespace TleConst` that the models use.
pub record TleConst (D : Type 0) : Type 0 where
  pub pi : D
  pub twopi : D
  pub ecc_all : D
  pub ecc_eps : D
  pub ecc_limit_low : D
  pub ecc_limit_high : D
  pub eps_cosio : D
  pub sin_eps : D
  pub nr_eps : D
  pub tothrd : D
  pub ae : D
  pub xkmper_wgs72 : D
  pub j2 : D
  pub j3 : D
  pub j4 : D
  pub ck2 : D
  pub ck4 : D
  pub xj3 : D
  pub s : D
  pub min_per_day : D
  pub sec_per_day : D
  pub omega_e : D
  pub xke : D
  pub qoms2t : D
  pub thgr70 : D
  pub c1 : D
  pub c1p2p : D
  pub fk5r : D
  pub radius_ae : D
  pub speed_ae : D
  pub rot_speed : D

module _ {D : Type 0} (floats : Floats D) where
  infixl 65 ◌+◌ ◌-◌
  infixl 70 ◌*◌ ◌/◌
  open floats use {add as ◌+◌, sub as ◌-◌, mul as ◌*◌, div as ◌/◌, neg, decimal}

  abbrev pub tle_const : TleConst D
  tle_const =
      let pi = decimal 3141592653589793 15 in
      let twopi = decimal 2 0 * pi in
      let ecc_all = decimal 1 4 in
      let ecc_eps = decimal 1 6 in
      let ecc_limit_low = neg (decimal 1 3) in
      let ecc_limit_high = decimal 1 0 - ecc_eps in
      let eps_cosio = decimal 15 13 in
      let sin_eps = decimal 1 12 in
      let nr_eps = decimal 1 12 in
      let tothrd = decimal 2 0 / decimal 3 0 in
      let ae = decimal 1 0 in
      let xkmper_wgs72 = decimal 6378135 3 in
      let j2 = decimal 10826158 10 in
      let j3 = neg (decimal 253881 11) in
      let j4 = neg (decimal 165597 11) in
      let ck2 = j2 / decimal 2 0 in
      let ck4 = neg (decimal 3 0) * j4 / decimal 8 0 in
      let xj3 = j3 in
      let s = ae + decimal 78 0 / xkmper_wgs72 in
      let min_per_day = decimal 1440 0 in
      let sec_per_day = decimal 86400 0 in
      let omega_e = decimal 100273790934 11 in
      let xke = decimal 743669161331734132 19 in
      let qoms2t = decimal 1880279159015270643865 30 in
      let thgr70 = decimal 17321343856509374 16 in
      let c1 = decimal 172027916940703639 19 in
      let c1p2p = c1 + twopi in
      let fk5r = decimal 507551419432269442 32 in
      let radius_ae = decimal 1000 0 * xkmper_wgs72 / ae in
      let speed_ae = radius_ae * min_per_day / sec_per_day in
      let rot_speed = twopi * omega_e / sec_per_day in
      record {
        pi = pi;
        twopi = twopi;
        ecc_all = ecc_all;
        ecc_eps = ecc_eps;
        ecc_limit_low = ecc_limit_low;
        ecc_limit_high = ecc_limit_high;
        eps_cosio = eps_cosio;
        sin_eps = sin_eps;
        nr_eps = nr_eps;
        tothrd = tothrd;
        ae = ae;
        xkmper_wgs72 = xkmper_wgs72;
        j2 = j2;
        j3 = j3;
        j4 = j4;
        ck2 = ck2;
        ck4 = ck4;
        xj3 = xj3;
        s = s;
        min_per_day = min_per_day;
        sec_per_day = sec_per_day;
        omega_e = omega_e;
        xke = xke;
        qoms2t = qoms2t;
        thgr70 = thgr70;
        c1 = c1;
        c1p2p = c1p2p;
        fk5r = fk5r;
        radius_ae = radius_ae;
        speed_ae = speed_ae;
        rot_speed = rot_speed;
      }
