-- ===== src/CoordinateSystems/Exact.antt =====
-- Exact arithmetic: the laws that the conversions rely on, for the numbers and for the algebra on them.
use radar_software.Prelude.{◌≡◌}
use radar_software.Float.{Floats}
use radar_software.CoordinateSystems.Eigen.{Vector3d, Eigen as Algebra}

-- The numbers are a commutative ring, and a sine and a cosine lie on the unit circle.
pub record IsRing {D : Type 0} (floats : Floats D) : Type 0 where
  pub add_assoc : (a b c : D) → floats.add (floats.add a b) c ≡ floats.add a (floats.add b c)
  pub add_comm : (a b : D) → floats.add a b ≡ floats.add b a
  pub add-zero : (a : D) → floats.add a (floats.decimal 0 0) ≡ a
  pub add-neg : (a : D) → floats.add a (floats.neg a) ≡ floats.decimal 0 0
  pub sub_lem : (a b : D) → floats.sub a b ≡ floats.add a (floats.neg b)
  pub mul_assoc : (a b c : D) → floats.mul (floats.mul a b) c ≡ floats.mul a (floats.mul b c)
  pub mul_comm : (a b : D) → floats.mul a b ≡ floats.mul b a
  pub mul-one : (a : D) → floats.mul a (floats.decimal 1 0) ≡ a
  pub mul-zero : (a : D) → floats.mul a (floats.decimal 0 0) ≡ floats.decimal 0 0
  pub mul-neg : (a b : D) → floats.mul a (floats.neg b) ≡ floats.neg (floats.mul a b)
  pub mul-add :
      (a b c : D) → floats.mul a (floats.add b c) ≡ floats.add (floats.mul a b) (floats.mul a c)
  pub circle :
      (a : D)
      → floats.add
          (floats.mul (floats.sin a) (floats.sin a))
          (floats.mul (floats.cos a) (floats.cos a))
        ≡ floats.decimal 1 0

-- A row of a matrix times a vector.
abbrev pub row : {D : Type 0} → Floats D → (a b c : D) → Vector3d D → D
row floats a b c v =
    floats.add (floats.add (floats.mul a v.x) (floats.mul b v.y)) (floats.mul c v.z)

-- What the library documents of its products.
pub record IsAlgebra {D : Type 0} (floats : Floats D) (eigen : Algebra D) : Type 0 where
  pub apply-of_entries :
      (a00 a01 a02 a10 a11 a12 a20 a21 a22 : D) (v : Vector3d D)
      → eigen.apply (eigen.of_entries a00 a01 a02 a10 a11 a12 a20 a21 a22) v ≡ record {
        x = row floats a00 a01 a02 v;
        y = row floats a10 a11 a12 v;
        z = row floats a20 a21 a22 v;
      }
  pub transpose-of_entries :
      (a00 a01 a02 a10 a11 a12 a20 a21 a22 : D)
      → eigen.transpose (eigen.of_entries a00 a01 a02 a10 a11 a12 a20 a21 a22)
        ≡ eigen.of_entries a00 a10 a20 a01 a11 a21 a02 a12 a22
  pub apply-mul :
      (m n : eigen.Matrix3d) (v : Vector3d D)
      → eigen.apply (eigen.mul m n) v ≡ eigen.apply m (eigen.apply n v)
  pub transpose-mul :
      (m n : eigen.Matrix3d)
      → eigen.transpose (eigen.mul m n) ≡ eigen.mul (eigen.transpose n) (eigen.transpose m)
  pub plus_lem :
      (u v : Vector3d D)
      → eigen.plus u v
        ≡ record { x = floats.add u.x v.x; y = floats.add u.y v.y; z = floats.add u.z v.z }
  pub minus_lem :
      (u v : Vector3d D)
      → eigen.minus u v
        ≡ record { x = floats.sub u.x v.x; y = floats.sub u.y v.y; z = floats.sub u.z v.z }
