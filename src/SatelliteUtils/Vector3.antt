-- ===== src/SatelliteUtils/Vector3.antt =====
-- `class tVECT3` of SatelliteUtils/vector3.cpp.
use radar_software.Prelude.{ℕ, ◌==◌, if◌then◌else◌}
use radar_software.Float.{Floats}

pub record Vect3 (D : Type 0) : Type 0 where
  pub x : D
  pub y : D
  pub z : D

module _ {D : Type 0} (floats : Floats D) where
  infixl 65 ◌+◌ ◌-◌
  infixl 70 ◌*◌ ◌/◌
  open floats use {add as ◌+◌, sub as ◌-◌, mul as ◌*◌, div as ◌/◌, neg, sqrt, lt, decimal}

  abbrev pub zero_vect : Vect3 D
  zero_vect = record { x = decimal 0 0; y = decimal 0 0; z = decimal 0 0 }

  unfoldable pub scal : Vect3 D → Vect3 D → D
  scal u v = u.x * v.x + u.y * v.y + u.z * v.z

  unfoldable pub mod2 : Vect3 D → D
  mod2 v = v.x * v.x + v.y * v.y + v.z * v.z

  unfoldable pub modulus : Vect3 D → D
  modulus v = sqrt (v.x * v.x + v.y * v.y + v.z * v.z)

  -- The unit vector, with the length that it had; a vector of length 0 stays.
  unfoldable pub norm : Vect3 D → Vect3 D × D
  unfolding modulus
  norm v =
      let d = modulus v in
      (if lt (decimal 0 0) d then record { x = v.x / d; y = v.y / d; z = v.z / d } else v, d)

  unfoldable pub mul : Vect3 D → Vect3 D → Vect3 D
  mul v1 v2 = record {
    x = v1.y * v2.z - v1.z * v2.y;
    y = v1.z * v2.x - v1.x * v2.z;
    z = v1.x * v2.y - v1.y * v2.x;
  }

  unfoldable pub turn : ℕ → D → D → Vect3 D → Vect3 D
  turn na ca sa v =
      if na == 1
      then record { x = v.x; y = ca * v.y - sa * v.z; z = ca * v.z + sa * v.y }
      else if na == 2
      then record { x = ca * v.x + sa * v.z; y = v.y; z = ca * v.z - sa * v.x }
      else if na == 3
      then record { x = ca * v.x - sa * v.y; y = ca * v.y + sa * v.x; z = v.z }
      else v

  unfoldable pub plus : Vect3 D → Vect3 D → Vect3 D
  plus u v = record { x = u.x + v.x; y = u.y + v.y; z = u.z + v.z }

  unfoldable pub minus : Vect3 D → Vect3 D → Vect3 D
  minus u v = record { x = u.x - v.x; y = u.y - v.y; z = u.z - v.z }

  unfoldable pub opposite : Vect3 D → Vect3 D
  opposite v = record { x = neg v.x; y = neg v.y; z = neg v.z }

  unfoldable pub times : Vect3 D → D → Vect3 D
  times v c = record { x = v.x * c; y = v.y * c; z = v.z * c }

  unfoldable pub over : Vect3 D → D → Vect3 D
  over v c = record { x = v.x / c; y = v.y / c; z = v.z / c }
