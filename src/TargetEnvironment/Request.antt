-- ===== src/TargetEnvironment/Request.antt =====
-- The request of a client: what the server reads of it in `on_read`, `process_request` of
-- Target Environment/Server/Server.cpp, and `sector_check` of SectorCheck.cpp. The positions of the
-- satellites are a parameter here, which changes their models.
use radar_software.Prelude.{
  ℕ, ◌+◌, String, str_eq, Bool, true, false, ◌&&◌, Option, none, some, List, [], ◌∷◌, map,
  if◌then◌else◌,
}
use radar_software.Double.{Double}
use radar_software.Storage.{Values, Kind}
use radar_software.Utils.Dates.{julian_date}
use radar_software.Utils.GetValue.{Got, got, and_then, get_value, get_double}
use radar_software.Float.{Floats}
use radar_software.CoordinateSystems.Points.{GcsPoint, EcefPoint, SphPoint}
use radar_software.CoordinateSystems.Eigen.{Eigen as Algebra}
use radar_software.CoordinateSystems.{degree_to_rad, ecef_to_enu, enu_to_sph}
use radar_software.TargetEnvironment.ComputeParams.{compute_params}
use radar_software.TargetEnvironment.{ErrorCode, ok}
use radar_software.TargetEnvironment.TargetTable.{Target}
use radar_software.TargetEnvironment.Messages.{targets_list_msg}

-- `struct SearchArea`.
pub record SearchArea (D : Type 0) : Type 0 where
  pub x : D
  pub y : D
  pub z : D
  pub range : D
  pub azimuth_angle : D
  pub azimuth_width : D
  pub elevation_angle : D
  pub elevation_width : D

pub record Request (D : Type 0) : Type 0 where
  pub radar_loc : GcsPoint D
  pub area : SearchArea D
  pub time : ℕ

-- `std::tm` of `gmtime_r`.
pub record Tm : Type 0 where
  pub tm_year : ℕ
  pub tm_mon : ℕ
  pub tm_mday : ℕ
  pub tm_hour : ℕ
  pub tm_min : ℕ
  pub tm_sec : ℕ

-- What the server's numerics stand on: `double` with its functions, Eigen, the catalog's satellites with
-- the prediction of their positions, the calendar, and what is printed.
pub record Sky (double : Double) : Type 1 where
  pub floats : Floats double.D
  pub eigen : Algebra double.D
  pub product : (columns : List double.D) → (vector : List double.D) → List double.D
  pub Satellite : Type 0
  pub number : Satellite → ℕ
  pub jd : Satellite → double.D
  -- A prediction changes the model of the satellite, and leaves the position when it fails.
  pub get_position : Satellite → double.D → EcefPoint double.D → Satellite × EcefPoint double.D
  pub gmtime : ℕ → Tm
  pub print_size : ℕ → String
  pub print_item : Target double.D → String

module _ {double : Double} (sky : Sky double) where
  open double use {D, add, sub, mul, div, lt, decimal, from_u64}
  open sky use {floats, eigen, Satellite, number, jd, get_position, gmtime}

  -- A target seen from the radar: its coordinates are in degrees, and its altitude is left out.
  unfoldable pub seen_from : GcsPoint D → EcefPoint D → SphPoint D
  unfolding degree_to_rad ecef_to_enu enu_to_sph
  seen_from radar_location target_point =
      let zero = decimal 0 0 in
      let in_rad : D → D = λ degrees.
        degree_to_rad floats (record { degrees = degrees; minutes = zero; seconds = zero }) in
      let enu_tp = ecef_to_enu floats eigen target_point (record {
        latitude = in_rad radar_location.latitude;
        longitude = in_rad radar_location.longitude;
        altitude = zero;
      }) in
      enu_to_sph floats enu_tp

  -- Both angles are told from `theta`, and a target is out of the sector only if both tests say so.
  unfoldable pub sector_check : EcefPoint D → SearchArea D → GcsPoint D → Bool
  unfolding seen_from
  sector_check target_point params radar_location =
      let sph_tp = seen_from radar_location target_point in
      if lt params.range sph_tp.r
      then false
      else if lt params.elevation_width (floats.fabs (sub sph_tp.theta params.elevation_angle))
          && lt params.azimuth_width (floats.fabs (sub sph_tp.theta params.azimuth_angle))
      then false
      else true

  -- The time of the request in days. The seconds are divided by 60, as the minutes are.
  unfoldable pub reference_time : ℕ → D
  unfolding julian_date
  reference_time time =
      let sat_date = gmtime time in
      julian_date double (sat_date.tm_year + 1900) (sat_date.tm_mon + 1) sat_date.tm_mday (
        add (add (from_u64 sat_date.tm_hour) (div (from_u64 sat_date.tm_min) (decimal 60 0)))
          (div (from_u64 sat_date.tm_sec) (decimal 60 0)))

  -- The loop for the further points, ten seconds apart, with the model as it stands afterwards.
  unfoldable pub points : List ℕ → Satellite → D → EcefPoint D → Satellite × List (EcefPoint D)
  points [] item elapsed_time v0 = (item, [])
  points (n ∷ rest) item elapsed_time v0 =
      let next =
        get_position item (add elapsed_time (div (mul (decimal 10 0) (from_u64 n)) (decimal 60 0)))
          v0 in
      let others = points rest next.0 elapsed_time next.1 in (others.0, next.1 ∷ others.1)

  unfoldable pub describe : Satellite → D → EcefPoint D → Satellite × Target D
  unfolding points compute_params
  describe item elapsed_time v0 =
      let more = points (1 ∷ 2 ∷ 3 ∷ 4 ∷ 5 ∷ []) item elapsed_time v0 in
      let six = v0 ∷ more.1 in
      (
        more.0,
        compute_params floats sky.product (number item) (map (λ p. p.x) six) (map (λ p. p.y) six)
            (map (λ p. p.z) six),
      )

  abbrev pub elapsed : D → Satellite → D
  elapsed ref_time item = mul (mul (sub ref_time (jd item)) (decimal 24 0)) (decimal 60 0)

  -- The parallel loop, in the order of the catalog.
  unfoldable pub find_targets :
      D → SearchArea D → GcsPoint D → List Satellite → List Satellite × List (Target D)
  unfolding sector_check describe
  find_targets ref_time area radar_location [] = ([], [])
  find_targets ref_time area radar_location (item ∷ rest) =
      let others = find_targets ref_time area radar_location rest in
      let zero = decimal 0 0 in
      let now =
        get_position item (elapsed ref_time item) (record { x = zero; y = zero; z = zero }) in
      if sector_check now.1 area radar_location
      then (let found = describe now.0 (elapsed ref_time item) now.1 in
          (found.0 ∷ others.0, found.1 ∷ others.1))
      else (now.0 ∷ others.0, others.1)

  -- `none` where the message of no targets is made, which is undefined.
  unfoldable pub process_request :
      List Satellite → Request D → Option (List Satellite × (ErrorCode × String))
  unfolding find_targets reference_time
  process_request satellite_list request =
      let found =
        find_targets (reference_time request.time) request.area request.radar_loc satellite_list in
      elim (targets_list_msg sky.print_size sky.print_item found.1) [
        | none ↦ none
        | some msg ↦ some (found.0, (ok, msg))
      ]

module _ {D : Type 0} (values : Values) (text : Kind values.Value String)
    (uint64 : Kind values.Value ℕ) (number : Kind values.Value D) where
  -- The values of the request after its header, in the order in which they are asked for.
  unfoldable pub read_fields : values.Value → Got (Request D)
  read_fields root =
      let num : String → Got D = λ key. get_double values number root (some key) in
      and_then (num "latitude") (λ latitude. and_then (num "longitude") (λ longitude.
        and_then (num "altitude") (λ altitude. and_then (num "X") (λ x. and_then (num "Y") (λ y.
          and_then (num "Z") (λ z. and_then (num "range") (λ range.
            and_then (num "azimuth_angle") (λ azimuth_angle.
              and_then (num "azimuth_width") (λ azimuth_width.
                and_then (num "elevation_angle") (λ elevation_angle.
                  and_then (num "elevation_width") (λ elevation_width.
                    and_then (get_value values uint64 root (some "time")) (λ time. got (record {
                      radar_loc = record {
                        latitude = latitude;
                        longitude = longitude;
                        altitude = altitude;
                      };
                      area = record {
                        x = x;
                        y = y;
                        z = z;
                        range = range;
                        azimuth_angle = azimuth_angle;
                        azimuth_width = azimuth_width;
                        elevation_angle = elevation_angle;
                        elevation_width = elevation_width;
                      };
                      time = time;
                    })))))))))))))

  -- The `try` block; a wrong header is refused as an exception is.
  unfoldable pub read_request : values.Value → Got (Request D)
  unfolding read_fields
  read_request root =
      and_then (get_value values text root (some "message")) (λ msg_header.
        if str_eq msg_header "TE_Request" then read_fields root else Got.system_error)
