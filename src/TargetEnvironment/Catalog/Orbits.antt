-- ===== src/TargetEnvironment/Catalog/Orbits.antt =====
-- The numbers of an entry in catalog_tle.cpp: what `parse_keo` cuts out of the two lines, and what it
-- recovers from them. `stoi`, `stod`, `cos` and `floor` of the C++ library are parameters.
use Prim.Native.Nat.{zero}
use Prim.Native.String.{◌++◌}
use radar_software.Prelude.{ℕ, suc, String, Option, none, some}
use radar_software.Double.{Double}

infixl 5 ◌>>=◌
abbrev pub ◌>>=◌ : {A B : Type 0} → Option A → (A → Option B) → Option B
◌>>=◌ m f = elim m [ none ↦ none | some a ↦ f a ]

abbrev pub take_chars : ℕ → String → String
take_chars zero s = ""
take_chars (suc n) String.[] = ""
take_chars (suc n) (String.◌∷◌ c s) = String.◌∷◌ c (take_chars n s)

-- `std::string::substr`, which throws when the position is behind the end.
abbrev pub substr : String → ℕ → ℕ → Option String
substr s zero n = some (take_chars n s)
substr String.[] (suc pos) n = none
substr (String.◌∷◌ c s) (suc pos) n = substr s pos n

-- The numbers that are read, but for the epoch.
pub record Elements (D : Type 0) : Type 0 where
  pub number : ℕ
  pub drag : D
  pub b_star : D
  pub inclination : D
  pub raan : D
  pub eccentricity : D
  pub arg_perigee : D
  pub mean_anomaly : D
  pub mean_motion : D

-- The numbers that are recovered from them.
pub record Recovered (D : Type 0) : Type 0 where
  pub mean_motion_r : D
  pub semi_major_r : D
  pub semi_minor_r : D
  pub perigee_r : D
  pub apogee_r : D
  pub a0 : D
  pub a1 : D
  pub xno : D
  pub betao2 : D
  pub betao : D
  pub cos_i : D
  pub period : D

pub record Orbit (D : Type 0) : Type 0 where
  pub elements : Elements D
  pub recovered : Recovered D

-- `none` where the function throws; `stoi` with its conversion to `uint32_t`.
pub record Numbers (D : Type 0) : Type 0 where
  pub stoi : String → Option ℕ
  pub stod : String → Option D
  pub cos : D → D
  pub floor : D → D

module _ (double : Double) (numbers : Numbers double.D) where
  open double use {D, add, sub, mul, div, sqrt, pow, decimal}
  open numbers use {stoi, stod, cos}

  abbrev pub pi : D
  pi = decimal 3141592653589793 15

  -- The macro `GR`.
  abbrev pub radians : D → D
  radians angle = div (mul angle pi) (decimal 180 0)

  abbrev pub stod_at : String → ℕ → ℕ → Option D
  stod_at s pos n = substr s pos n >>= stod

  unfoldable pub read_elements : (s1 s2 : String) → Option (Elements D)
  read_elements s1 s2 = do
    number ← substr s1 2 5 >>= stoi
    epoch ← stod_at s1 18 7
    drag ← stod_at s1 34 10
    mantissa ← stod_at s1 53 6
    exponent ← stod_at s1 59 2
    inclination ← stod_at s2 8 8
    raan ← stod_at s2 17 8
    fraction ← substr s2 26 7
    eccentricity ← stod ("0." ++ fraction)
    arg_perigee ← stod_at s2 34 8
    mean_anomaly ← stod_at s2 43 8
    mean_motion ← stod_at s2 52 11
    some (record {
      number = number;
      drag = drag;
      b_star = mul mantissa (pow (decimal 10 0) exponent);
      inclination = inclination;
      raan = raan;
      eccentricity = eccentricity;
      arg_perigee = radians arg_perigee;
      mean_anomaly = radians mean_anomaly;
      mean_motion = mean_motion;
    })

  -- The mean motion and the great semi-axis without the disturbances, with the period in minutes.
  unfoldable pub recover : Elements D → Recovered D
  recover entry =
      let one = decimal 1 0 in
      let three = decimal 3 0 in
      let twopi = mul (decimal 2 0) pi in
      let ck2 = div (decimal 10826158 10) (decimal 2 0) in
      let earth = decimal 6378135 3 in
      let xno = div (mul entry.mean_motion twopi) (decimal 1440 0) in
      let a1 = pow (div (decimal 743669161331734132 19) xno) (div (decimal 2 0) three) in
      let betao2 = sub one (mul entry.eccentricity entry.eccentricity) in
      let betao = sqrt betao2 in
      let cos_i = cos entry.inclination in
      let temp0 =
        div (mul (mul (decimal 15 1) ck2) (sub (mul (mul three cos_i) cos_i) one))
          (mul betao betao2) in
      let del1 = div temp0 (mul a1 a1) in
      let a0 = mul a1 (
        sub one (
          mul del1 (
            add (div one three)
              (mul del1 (add one (mul (div (decimal 134 0) (decimal 81 0)) del1)))))) in
      let del0 = div temp0 (mul a0 a0) in
      let mean_motion_r = div xno (add one del0) in
      let semi_major_r = div a0 (sub one del0) in
      record {
        mean_motion_r = mean_motion_r;
        semi_major_r = semi_major_r;
        semi_minor_r = mul semi_major_r betao;
        perigee_r = mul earth (sub (mul semi_major_r (sub one entry.eccentricity)) one);
        apogee_r = mul earth (sub (mul semi_major_r (add one entry.eccentricity)) one);
        a0 = a0;
        a1 = a1;
        xno = xno;
        betao2 = betao2;
        betao = betao;
        cos_i = cos_i;
        period = div twopi mean_motion_r;
      }

  unfoldable pub orbit_of : (s1 s2 : String) → Option (Orbit D)
  unfolding read_elements recover
  orbit_of s1 s2 = do
    elements ← read_elements s1 s2
    some (record { elements = elements; recovered = recover elements })
