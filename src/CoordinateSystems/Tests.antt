-- ===== src/CoordinateSystems/Tests.antt =====
-- The theorems about the conversions at concrete inputs: the field of two elements for `double`, in which
-- a sine is the angle and a cosine its opposite, and pairs of functions for the matrices.
use radar_software.Prelude.{◌%◌, ◌==◌, ◌≡◌, refl, Bool, true, false, not, ◌&&◌}
use mathlib.Core.Bool.{xor}
use radar_software.Float.{Floats}
use radar_software.CoordinateSystems.Points.{EnuPoint, CcsaPoint, EcefPoint, GcsPoint}
use radar_software.CoordinateSystems.Eigen.{Vector3d, Eigen as Algebra}
use radar_software.CoordinateSystems.Exact.{IsRing, IsAlgebra, row}
use radar_software.CoordinateSystems.RoundTrips.{enu_to_ecef-ecef_to_enu, enu_to_ccsa-ccsa_to_enu}
use radar_software.CoordinateSystems.{Angle, ecef_to_enu, enu_to_ecef, enu_to_ccsa, ccsa_to_enu}

abbrev bits : Floats Bool
bits = record {
  add = xor;
  sub = xor;
  mul = ◌&&◌;
  div = λ a b. a;
  neg = λ a. a;
  lt = λ a b. not a && b;
  le = λ a b. true;
  eq = λ a b. not (xor a b);
  decimal = λ m e. m % 2 == 1;
  sqrt = λ a. a;
  pow = λ a b. a;
  fabs = λ a. a;
  fmod = λ a b. a;
  sin = λ a. a;
  cos = not;
  tan = λ a. a;
  atan = λ a. a;
  atan2 = λ a b. a;
  trunc = λ a. a;
}

xor_assoc : (a b c : Bool) → xor (xor a b) c ≡ xor a (xor b c)
unfolding xor
xor_assoc true true true = refl
xor_assoc true true false = refl
xor_assoc true false true = refl
xor_assoc true false false = refl
xor_assoc false true true = refl
xor_assoc false true false = refl
xor_assoc false false true = refl
xor_assoc false false false = refl

xor_comm : (a b : Bool) → xor a b ≡ xor b a
unfolding xor
xor_comm true true = refl
xor_comm true false = refl
xor_comm false true = refl
xor_comm false false = refl

xor-false : (a : Bool) → xor a false ≡ a
unfolding xor
xor-false true = refl
xor-false false = refl

xor_self : (a : Bool) → xor a a ≡ false
unfolding xor
xor_self true = refl
xor_self false = refl

and_assoc : (a b c : Bool) → (a && b) && c ≡ a && (b && c)
and_assoc true b c = refl
and_assoc false b c = refl

and_comm : (a b : Bool) → a && b ≡ b && a
and_comm true true = refl
and_comm true false = refl
and_comm false true = refl
and_comm false false = refl

and-true : (a : Bool) → a && true ≡ a
and-true true = refl
and-true false = refl

and-false : (a : Bool) → a && false ≡ false
and-false true = refl
and-false false = refl

and-xor : (a b c : Bool) → a && xor b c ≡ xor (a && b) (a && c)
unfolding xor
and-xor true b c = refl
and-xor false b c = refl

xor-not : (a : Bool) → xor (a && a) (not a && not a) ≡ true
unfolding xor
xor-not true = refl
xor-not false = refl

bits-IsRing : IsRing bits
bits-IsRing = record {
  add_assoc = xor_assoc;
  add_comm = xor_comm;
  add-zero = xor-false;
  add-neg = xor_self;
  sub_lem = λ a b. refl;
  mul_assoc = and_assoc;
  mul_comm = and_comm;
  mul-one = and-true;
  mul-zero = and-false;
  mul-neg = λ a b. refl;
  mul-add = and-xor;
  circle = xor-not;
}

-- A matrix as what it does and what its transpose does.
record Linear : Type 0 where
  forth : Vector3d Bool → Vector3d Bool
  back : Vector3d Bool → Vector3d Bool

abbrev three_rows : (a00 a01 a02 a10 a11 a12 a20 a21 a22 : Bool) → Vector3d Bool → Vector3d Bool
three_rows a00 a01 a02 a10 a11 a12 a20 a21 a22 v = record {
  x = row bits a00 a01 a02 v;
  y = row bits a10 a11 a12 v;
  z = row bits a20 a21 a22 v;
}

abbrev linear : Algebra Bool
linear = record {
  Matrix3d = Linear;
  of_entries = λ a00 a01 a02 a10 a11 a12 a20 a21 a22. record {
    forth = three_rows a00 a01 a02 a10 a11 a12 a20 a21 a22;
    back = three_rows a00 a10 a20 a01 a11 a21 a02 a12 a22;
  };
  mul = λ m n. record { forth = λ v. m.forth (n.forth v); back = λ v. n.back (m.back v) };
  transpose = λ m. record { forth = m.back; back = m.forth };
  apply = λ m v. m.forth v;
  plus = λ u v. record { x = xor u.x v.x; y = xor u.y v.y; z = xor u.z v.z };
  minus = λ u v. record { x = xor u.x v.x; y = xor u.y v.y; z = xor u.z v.z };
}

linear-IsAlgebra : IsAlgebra bits linear
linear-IsAlgebra = record {
  apply-of_entries = λ a00 a01 a02 a10 a11 a12 a20 a21 a22 v. refl;
  transpose-of_entries = λ a00 a01 a02 a10 a11 a12 a20 a21 a22. refl;
  apply-mul = λ m n v. refl;
  transpose-mul = λ m n. refl;
  plus_lem = λ u v. refl;
  minus_lem = λ u v. refl;
}

abbrev target : EcefPoint Bool
target = record { x = true; y = false; z = true }

abbrev radar : GcsPoint Bool
radar = record { latitude = true; longitude = false; altitude = true }

enu_to_ecef_example : enu_to_ecef bits linear (ecef_to_enu bits linear target radar) radar ≡ target
enu_to_ecef_example = enu_to_ecef-ecef_to_enu bits-IsRing linear-IsAlgebra target radar

abbrev elevation : Angle Bool
elevation = record { degrees = true; minutes = false; seconds = false }

enu_to_ccsa_example :
    ((point : EnuPoint Bool)
      → ccsa_to_enu bits linear
          (enu_to_ccsa bits linear point elevation elevation)
          elevation
          elevation
        ≡ point)
    × ((point : CcsaPoint Bool)
        → enu_to_ccsa bits linear
            (ccsa_to_enu bits linear point elevation elevation)
            elevation
            elevation
          ≡ point)
enu_to_ccsa_example = enu_to_ccsa-ccsa_to_enu bits-IsRing linear-IsAlgebra elevation elevation
