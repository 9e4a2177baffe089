-- ===== src/CoordinateSystems.antt =====
-- The conversions of CoordinateSystems/CSTransform.cpp.
pub mod Points
pub mod Eigen
pub mod Exact
pub mod Rotations
pub mod RoundTrips
mod Tests
use radar_software.Prelude.{ℕ, zero, suc, Bool, if◌then◌else◌}
use radar_software.Float.{Floats}
use radar_software.CoordinateSystems.Points.{
  EnuPoint, CcsaPoint, BcsPoint, EcefPoint, GcsPoint, SphPoint,
}
use radar_software.CoordinateSystems.Eigen.{Vector3d, Eigen as Algebra}

-- `struct Angle`: degrees, minutes and seconds.
pub record Angle (D : Type 0) : Type 0 where
  pub degrees : D
  pub minutes : D
  pub seconds : D

module _ {D : Type 0} (floats : Floats D) where
  infixl 65 ◌+◌ ◌-◌
  infixl 70 ◌*◌ ◌/◌
  open floats use {
    add as ◌+◌, sub as ◌-◌, mul as ◌*◌, div as ◌/◌, neg, lt, le, decimal, sqrt, pow, sin, cos, tan,
    atan, atan2, trunc,
  }

  abbrev pub pi : D
  pi = decimal 3141592653589793 15

  -- The constants `a`, `b` and `e_2`.
  abbrev pub axis_a : D
  axis_a = decimal 6378136 0

  abbrev pub axis_b : D
  axis_b = decimal 635675136 2

  abbrev pub e_2 : D
  e_2 = decimal 66943662 10

  -- The constructor: each part without its whole turns, where the degrees are large enough.
  unfoldable pub new_angle : (degrees minutes seconds : D) → Angle D
  new_angle degrees minutes seconds =
      let sixty = decimal 60 0 in
      let turn = decimal 360 0 in
      record {
        degrees = if lt turn degrees then degrees - trunc (degrees / turn) * turn else degrees;
        minutes = if lt sixty degrees then minutes - trunc (minutes / sixty) * sixty else minutes;
        seconds = if lt sixty degrees then seconds - trunc (seconds / sixty) * sixty else seconds;
      }

  unfoldable pub degree_to_rad : Angle D → D
  degree_to_rad angle =
      pi
      * (angle.degrees + (angle.minutes + angle.seconds / decimal 60 0) / decimal 60 0)
      / decimal 180 0

  unfoldable pub rad_to_degrees : D → Angle D
  unfolding new_angle
  rad_to_degrees rads =
      let temp = rads * decimal 180 0 / pi in
      let degrees = trunc temp in
      let minutes = trunc ((temp - degrees) * decimal 60 0) in
      let seconds = ((temp - degrees) * decimal 60 0 - minutes) * decimal 60 0 in
      new_angle degrees minutes seconds

  unfoldable pub gcs_to_ecef : GcsPoint D → EcefPoint D
  gcs_to_ecef p =
      let one = decimal 1 0 in
      let temp = axis_a / sqrt (one - e_2 * sin p.latitude * sin p.latitude) in
      record {
        x = (temp + p.altitude) * cos p.latitude * cos p.longitude;
        y = (temp + p.altitude) * cos p.latitude * sin p.longitude;
        z = (temp * (one - e_2) + p.altitude) * sin p.latitude;
      }

  -- A number of rounds of the iteration for the tangent of the latitude.
  unfoldable pub tangent : ℕ → EcefPoint D → (p tan_phi : D) → D
  tangent zero point p tan_phi = tan_phi
  tangent (suc times) point p tan_phi = tangent times point p (
      (point.z
        + axis_a * e_2 * tan_phi / sqrt (decimal 1 0 + (decimal 1 0 - e_2) * tan_phi * tan_phi))
      / p)

  unfoldable pub ecef_to_gcs : EcefPoint D → GcsPoint D
  unfolding tangent
  ecef_to_gcs point =
      let one = decimal 1 0 in
      let two = decimal 2 0 in
      let p = sqrt (point.x * point.x + point.y * point.y) in
      let tan_phi = tangent 4 point p (point.z / p) in
      let temp = axis_a / sqrt (one + (one - e_2) * tan_phi * tan_phi) in
      record {
        latitude = atan tan_phi;
        longitude = atan2 point.y point.x;
        altitude = sqrt (pow (p - temp) two + pow (point.z - temp * (one - e_2) * tan_phi) two);
      }

  unfoldable pub ccsa_to_bcs : CcsaPoint D → BcsPoint D
  ccsa_to_bcs p =
      let r = sqrt (p.x * p.x + p.y * p.y + p.z * p.z) in
      if le r (decimal 2220446049250313080847263336181640625 52)
      then record { r = r; epsilon = decimal 0 0; beta = decimal 0 0 }
      else record { r = r; epsilon = p.y / r; beta = neg p.z / r }

  unfoldable pub bcs_to_ccsa : BcsPoint D → CcsaPoint D
  bcs_to_ccsa p = record {
    x = p.r * sqrt (decimal 1 0 - p.epsilon * p.epsilon - p.beta * p.beta);
    y = p.r * p.epsilon;
    z = neg p.r * p.beta;
  }

  unfoldable pub sph_to_enu : SphPoint D → EnuPoint D
  sph_to_enu p = record {
    x = p.r * sin p.theta * cos p.phi;
    y = p.r * sin p.theta * sin p.phi;
    z = p.r * cos p.theta;
  }

  unfoldable pub enu_to_sph : EnuPoint D → SphPoint D
  enu_to_sph p = record {
    r = sqrt (p.x * p.x + p.y * p.y + p.z * p.z);
    theta = atan2 (sqrt (p.x * p.x + p.y * p.y)) p.z;
    phi = atan2 p.y p.z;
  }

  module _ (eigen : Algebra D) where
    open eigen use {Matrix3d, of_entries, transpose, apply, plus, minus}

    -- `lccs_center_point`, the place of the origin.
    unfoldable pub lccs_center_point : GcsPoint D → Vector3d D
    lccs_center_point origin =
        let phi = origin.latitude in
        let lamda = origin.longitude in
        let h = origin.altitude in
        let reduced = atan (axis_b * tan phi / axis_a) in
        record {
          x = (axis_a * cos reduced + h * cos phi) * cos lamda;
          y = (axis_a * cos reduced + h * cos phi) * sin lamda;
          z = axis_b * sin reduced + h * sin phi;
        }

    -- The product `C` of the three rotations, from the axes of the origin to those of the Earth.
    unfoldable pub axes : GcsPoint D → Matrix3d
    axes origin =
        let phi = origin.latitude in
        let lamda = origin.longitude in
        let o = decimal 0 0 in
        let l = decimal 1 0 in
        let c_1 = of_entries o o (neg l) o l o l o o in
        let c_2 = of_entries l o o o (cos phi) (neg (sin phi)) o (sin phi) (cos phi) in
        let c_3 = of_entries (sin lamda) (cos lamda) o (neg (cos lamda)) (sin lamda) o o o l in
        eigen.mul (eigen.mul c_3 c_2) c_1

    unfoldable pub ecef_to_enu : EcefPoint D → GcsPoint D → EnuPoint D
    ecef_to_enu point origin =
        let c = transpose (axes origin) in
        let p : Vector3d D = record { x = point.x; y = point.y; z = point.z } in
        let result = minus (apply c p) (apply c (lccs_center_point origin)) in
        record { x = result.x; y = result.y; z = result.z }

    unfoldable pub enu_to_ecef : EnuPoint D → GcsPoint D → EcefPoint D
    enu_to_ecef point origin =
        let p : Vector3d D = record { x = point.x; y = point.y; z = point.z } in
        let ret = plus (lccs_center_point origin) (apply (axes origin) p) in
        record { x = ret.x; y = ret.y; z = ret.z }

    -- `C_2 * C_1`, from the axes of the origin to those of the antenna.
    unfoldable pub antenna : (eps beta : Angle D) → Matrix3d
    antenna eps_angle beta_angle =
        let eps = degree_to_rad eps_angle in
        let beta = degree_to_rad beta_angle in
        let o = decimal 0 0 in
        let l = decimal 1 0 in
        let c_1 = of_entries (cos beta) o (neg (sin beta)) o l o (sin beta) o (cos beta) in
        let c_2 = of_entries (cos eps) (sin eps) o (neg (sin eps)) (cos eps) o o o l in
        eigen.mul c_2 c_1

    unfoldable pub enu_to_ccsa : EnuPoint D → (eps beta : Angle D) → CcsaPoint D
    enu_to_ccsa point eps beta =
        let ret = apply (antenna eps beta) (record { x = point.x; y = point.y; z = point.z }) in
        record { x = ret.x; y = ret.y; z = ret.z }

    unfoldable pub ccsa_to_enu : CcsaPoint D → (eps beta : Angle D) → EnuPoint D
    ccsa_to_enu point eps beta =
        let ret =
          apply (transpose (antenna eps beta)) (record { x = point.x; y = point.y; z = point.z }) in
        record { x = ret.x; y = ret.y; z = ret.z }
