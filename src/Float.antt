-- ===== src/Float.antt =====
-- The type `double` with the functions of <cmath> that the formulas of SatelliteUtils and
-- CoordinateSystems use, and the operators that they are written with.
use radar_software.Prelude.{ℕ, Bool}

pub record Floats (D : Type 0) : Type 0 where
  pub add : D → D → D
  pub sub : D → D → D
  pub mul : D → D → D
  pub div : D → D → D
  pub neg : D → D
  pub lt : D → D → Bool
  pub le : D → D → Bool
  pub eq : D → D → Bool
  -- The literal `m * 10 ^ -e`.
  pub decimal : (m e : ℕ) → D
  pub sqrt : D → D
  pub pow : D → D → D
  pub fabs : D → D
  pub fmod : D → D → D
  pub sin : D → D
  pub cos : D → D
  pub tan : D → D
  pub atan : D → D
  pub atan2 : D → D → D
  -- The conversion to an integer type and back.
  pub trunc : D → D

module _ {D : Type 0} ⦃floats : Floats D⦄ where
  infixl 65 ◌+◌ ◌-◌
  infixl 70 ◌*◌ ◌/◌
  abbrev pub ◌+◌ : D → D → D
  a + b = floats.add a b

  abbrev pub ◌-◌ : D → D → D
  a - b = floats.sub a b

  abbrev pub ◌*◌ : D → D → D
  a * b = floats.mul a b

  abbrev pub ◌/◌ : D → D → D
  a / b = floats.div a b

  abbrev pub neg : D → D
  neg a = floats.neg a

  abbrev pub decimal : (m e : ℕ) → D
  decimal m e = floats.decimal m e
