-- ===== src/CoordinateSystems/RoundTrips.antt =====
-- The conversions between the Earth, the origin of an antenna and the antenna, there and back.
use radar_software.Prelude.{◌≡◌, refl, sym, ap, ◌∙◌}
use radar_software.Float.{Floats}
use radar_software.CoordinateSystems.Points.{EnuPoint, CcsaPoint, EcefPoint, GcsPoint}
use radar_software.CoordinateSystems.Eigen.{Vector3d, Eigen as Algebra}
use radar_software.CoordinateSystems.Exact.{IsRing, IsAlgebra, row}
use radar_software.CoordinateSystems.Rotations.{
  IsTurn, IsTurn-mul, about_x-IsTurn, about_y-IsTurn, about_z-IsTurn, vector, exchange, neg-add,
  zero-add, row_t, zero-mul,
}
use radar_software.CoordinateSystems.{
  Angle, degree_to_rad, lccs_center_point, axes, ecef_to_enu, enu_to_ecef, antenna, enu_to_ccsa,
  ccsa_to_enu,
}

module _ {D : Type 0} {floats : Floats D} (ring : IsRing floats) where
  infixl 65 ◌+◌
  infixl 70 ◌*◌
  open floats use {add as ◌+◌, mul as ◌*◌, neg, decimal, sub, sin, cos}

  opposite : (a b : D) → a + b ≡ decimal 0 0 → b ≡ neg a
  opposite a b e =
      sym (zero-add ring b)
      ∙ ap (λ t. t + b) (sym (neg-add ring a))
      ∙ ring.add_assoc (neg a) a b
      ∙ ap (λ t. neg a + t) e
      ∙ ring.add-zero (neg a)

  neg-plus : (a b : D) → neg a + neg b ≡ neg (a + b)
  neg-plus a b = opposite (a + b) (neg a + neg b) (
      exchange ring a b (neg a) (neg b)
      ∙ rw (ring.add-neg a, ring.add-neg b) (ring.add-zero (decimal 0 0)))

  mul-sub : (a x y : D) → a * sub x y ≡ a * x + neg (a * y)
  mul-sub a x y = rw (ring.sub_lem x y, ring.mul-add a x (neg y), ring.mul-neg a y) refl

  row-sub :
      (a b c : D) (u v : Vector3d D)
      → row floats a b c (record { x = sub u.x v.x; y = sub u.y v.y; z = sub u.z v.z })
        ≡ sub (row floats a b c u) (row floats a b c v)
  row-sub a b c u v =
      row_t ring a b c (record { x = sub u.x v.x; y = sub u.y v.y; z = sub u.z v.z })
      ∙ rw (mul-sub a u.x v.x, mul-sub b u.y v.y, mul-sub c u.z v.z)
          (ap (λ t. t + (c * u.z + neg (c * v.z)))
              (exchange ring (a * u.x) (neg (a * v.x)) (b * u.y) (neg (b * v.y)))
            ∙ exchange ring (a * u.x + b * u.y) (neg (a * v.x) + neg (b * v.y)) (c * u.z)
                (neg (c * v.z))
            ∙ ap (λ t. a * u.x + b * u.y + c * u.z + (t + neg (c * v.z)))
                (neg-plus (a * v.x) (b * v.y))
            ∙ ap (λ t. a * u.x + b * u.y + c * u.z + t) (neg-plus (a * v.x + b * v.y) (c * v.z))
            ∙ sym (ring.sub_lem _ _))

  add-sub : (a b : D) → a + sub b a ≡ b
  add-sub a b =
      ap (λ t. a + t) (ring.sub_lem b a ∙ ring.add_comm b (neg a))
      ∙ sym (ring.add_assoc a (neg a) b)
      ∙ ap (λ t. t + b) (ring.add-neg a)
      ∙ zero-add ring b

  zero_one : decimal 0 0 * decimal 0 0 + decimal 1 0 * decimal 1 0 ≡ decimal 1 0
  zero_one =
      rw (zero-mul ring (decimal 0 0), ring.mul-one (decimal 1 0)) (zero-add ring (decimal 1 0))

  cos_sin : (a : D) → cos a * cos a + sin a * sin a ≡ decimal 1 0
  cos_sin a = ring.add_comm _ _ ∙ ring.circle a

abbrev point_of : {D : Type 0} → Vector3d D → EcefPoint D
point_of w = record { x = w.x; y = w.y; z = w.z }

abbrev enu_of : {D : Type 0} → Vector3d D → EnuPoint D
enu_of w = record { x = w.x; y = w.y; z = w.z }

abbrev ccsa_of : {D : Type 0} → Vector3d D → CcsaPoint D
ccsa_of w = record { x = w.x; y = w.y; z = w.z }

-- A matrix that takes differences to differences.
abbrev IsLinear : {D : Type 0} (eigen : Algebra D) → eigen.Matrix3d → Type 0
IsLinear {D} eigen m =
    (u v : Vector3d D)
    → eigen.apply m (eigen.minus u v) ≡ eigen.minus (eigen.apply m u) (eigen.apply m v)

module _ {D : Type 0} {floats : Floats D} {eigen : Algebra D} (ring : IsRing floats)
    (algebra : IsAlgebra floats eigen) where
  open floats use {neg, decimal, sin, cos}
  open eigen use {Matrix3d, of_entries, transpose, apply, plus, minus}

  IsLinear-of_entries :
      (a00 a01 a02 a10 a11 a12 a20 a21 a22 : D)
      → IsLinear eigen (of_entries a00 a01 a02 a10 a11 a12 a20 a21 a22)
  IsLinear-of_entries a00 a01 a02 a10 a11 a12 a20 a21 a22 u v =
      ap (apply (of_entries a00 a01 a02 a10 a11 a12 a20 a21 a22)) (algebra.minus_lem u v)
      ∙ algebra.apply-of_entries a00 a01 a02 a10 a11 a12 a20 a21 a22 _
      ∙ vector _ _ (row-sub ring a00 a01 a02 u v) (row-sub ring a10 a11 a12 u v)
          (row-sub ring a20 a21 a22 u v)
      ∙ sym (algebra.minus_lem _ _)
      ∙ rw
          (
            algebra.apply-of_entries a00 a01 a02 a10 a11 a12 a20 a21 a22 u,
            algebra.apply-of_entries a00 a01 a02 a10 a11 a12 a20 a21 a22 v,
          )
          refl

  IsLinear-mul :
      (m n : Matrix3d) → IsLinear eigen m → IsLinear eigen n → IsLinear eigen (eigen.mul m n)
  IsLinear-mul m n linear linear' u v =
      algebra.apply-mul m n (minus u v)
      ∙ ap (apply m) (linear' u v)
      ∙ linear (apply n u) (apply n v)
      ∙ rw (algebra.apply-mul m n u, algebra.apply-mul m n v) refl

  axes-IsTurn : (origin : GcsPoint D) → IsTurn eigen (axes floats eigen origin)
  unfolding axes
  axes-IsTurn origin =
      let phi = origin.latitude in
      let lamda = origin.longitude in
      IsTurn-mul ring algebra _ _
        (IsTurn-mul ring algebra _ _
          (about_z-IsTurn ring algebra (sin lamda) (cos lamda) (ring.circle lamda))
          (about_x-IsTurn ring algebra (cos phi) (sin phi) (cos_sin ring phi)))
        (about_y-IsTurn ring algebra (decimal 0 0) (decimal 1 0) (zero_one ring))

  axes-IsLinear : (origin : GcsPoint D) → IsLinear eigen (axes floats eigen origin)
  unfolding axes
  axes-IsLinear origin =
      IsLinear-mul _ _
        (IsLinear-mul _ _ (IsLinear-of_entries _ _ _ _ _ _ _ _ _)
          (IsLinear-of_entries _ _ _ _ _ _ _ _ _))
        (IsLinear-of_entries _ _ _ _ _ _ _ _ _)

  plus-minus : (u v : Vector3d D) → plus u (minus v u) ≡ v
  plus-minus u v =
      algebra.plus_lem u (minus v u)
      ∙ rw (algebra.minus_lem v u)
          (vector _ v (add-sub ring u.x v.x) (add-sub ring u.y v.y) (add-sub ring u.z v.z))

  -- In exact arithmetic, with the products of matrices as the library documents them: a point that is
  -- converted from the axes of the Earth to those of an origin, and back, is the same point.
  pub enu_to_ecef-ecef_to_enu :
      (point : EcefPoint D) (origin : GcsPoint D)
      → enu_to_ecef floats eigen (ecef_to_enu floats eigen point origin) origin ≡ point
  unfolding enu_to_ecef ecef_to_enu
  enu_to_ecef-ecef_to_enu point origin =
      let m = axes floats eigen origin in
      let c = lccs_center_point floats eigen origin in
      let p : Vector3d D = record { x = point.x; y = point.y; z = point.z } in
      ap point_of (
        ap (plus c) (
          axes-IsLinear origin (apply (transpose m) p) (apply (transpose m) c)
          ∙ rw ((axes-IsTurn origin p).1, (axes-IsTurn origin c).1) refl)
        ∙ plus-minus c p)

  antenna-IsTurn : (eps beta : Angle D) → IsTurn eigen (antenna floats eigen eps beta)
  unfolding antenna
  antenna-IsTurn eps beta =
      IsTurn-mul ring algebra _ _
        (about_z-IsTurn ring algebra _ _ (cos_sin ring (degree_to_rad floats eps)))
        (about_y-IsTurn ring algebra _ _ (cos_sin ring (degree_to_rad floats beta)))

  -- In exact arithmetic, with the products of matrices as the library documents them: a point that is
  -- converted from the axes of an origin to those of its antenna, or from those of the antenna to those
  -- of the origin, and back, is the same point.
  pub enu_to_ccsa-ccsa_to_enu :
      (eps beta : Angle D)
      → ((point : EnuPoint D)
          → ccsa_to_enu floats eigen (enu_to_ccsa floats eigen point eps beta) eps beta ≡ point)
        × ((point : CcsaPoint D)
            → enu_to_ccsa floats eigen (ccsa_to_enu floats eigen point eps beta) eps beta ≡ point)
  unfolding enu_to_ccsa ccsa_to_enu
  enu_to_ccsa-ccsa_to_enu eps beta = (
    λ point.
        ap enu_of (antenna-IsTurn eps beta (record { x = point.x; y = point.y; z = point.z })).0,
    λ point.
        ap ccsa_of (antenna-IsTurn eps beta (record { x = point.x; y = point.y; z = point.z })).1,
  )
