-- ===== src/TargetEnvironment/RequestMsg.antt =====
-- `struct RequestMsg` of Target Environment/Shared/Messages.h, the request of a client, and how the server
-- reads it. What `snprintf` prints for the numbers, and the bytes of a text, are parameters.
use Prim.Native.String.{String, ◌++◌}
use radar_software.Prelude.{
  ℕ, ◌≡◌, refl, ap, ◌∙◌, ◌==◌, Option, true, false, none, some, List, [], ◌∷◌, All, map, length,
}
use radar_software.Storage.{Values, Kind, IsKind}
use radar_software.Utils.FormatString.{string_format, string_format_lem}
use radar_software.Utils.GetValue.{got, get_value, get_double}
use radar_software.TargetEnvironment.Client.Decode.{HasMember}
use radar_software.TargetEnvironment.Request.{Request, read_fields, read_request}

abbrev joined : List String → String
joined [] = ""
joined (s ∷ rest) = s ++ joined rest

-- The format of `RequestMsg` with its arguments, by what `%.8f` and `%lu` print.
unfoldable pub request_text :
    {D : Type 0} (print_double : D → String) (print_u64 : ℕ → String) → Request D → String
request_text print_double print_u64 r = joined (
    "{ \"message\" : \"TE_Request\", \"latitude\" : "
    ∷ print_double r.radar_loc.latitude
    ∷ ", \"longitude\" : "
    ∷ print_double r.radar_loc.longitude
    ∷ ", \"altitude\" : "
    ∷ print_double r.radar_loc.altitude
    ∷ ",\"type\" : \"spherical_sector\", \"X\" : "
    ∷ print_double r.area.x
    ∷ " , \"Y\" : "
    ∷ print_double r.area.y
    ∷ ", \"Z\" : "
    ∷ print_double r.area.z
    ∷ ",  \"range\" : "
    ∷ print_double r.area.range
    ∷ ",\"elevation_angle\" : "
    ∷ print_double r.area.elevation_angle
    ∷ ", \"elevation_width\" : "
    ∷ print_double r.area.elevation_width
    ∷ ",\"azimuth_angle\" : "
    ∷ print_double r.area.azimuth_angle
    ∷ ", \"azimuth_width\" : "
    ∷ print_double r.area.azimuth_width
    ∷ ", \"time\" : "
    ∷ print_u64 r.time
    ∷ "}\n"
    ∷ [])

-- The text of the bytes that `string_format` gives; two rounds of its loop always give some.
abbrev written : (List ℕ → String) → Option (List ℕ) → String
written of_bytes none = ""
written of_bytes (some text) = of_bytes text

-- `RequestMsg`: the text as `string_format` gives it, by the bytes of a text.
unfoldable pub request_msg :
    {D : Type 0} (bytes : String → List ℕ) (of_bytes : List ℕ → String) (print_double : D → String)
    (print_u64 : ℕ → String)
    → Request D
    → String
unfolding request_text
request_msg bytes of_bytes print_double print_u64 r =
    written of_bytes (string_format 2 (some (bytes (request_text print_double print_u64 r))))

-- A number in the text of a request: what stands before its key, the key, the number as it is printed
-- and the value that the text stands for.
pub record Field (Value : Type 0) : Type 0 where
  pub before : String
  pub key : String
  pub digits : String
  pub value : Value

-- A JSON text of such fields.
abbrev pub text_of : {Value : Type 0} → List (Field Value) → String
text_of [] = "}\n"
text_of (f ∷ fs) = (f.before ++ ("\"" ++ (f.key ++ "\" : "))) ++ (f.digits ++ text_of fs)

module _ {D : Type 0} (values : Values) (text : Kind values.Value String)
    (uint64 : Kind values.Value ℕ) (number : Kind values.Value D) where
  module _ (print_double : D → String) (print_u64 : ℕ → String) (print : D → D) where
    abbrev number_field : String → String → D → Field values.Value
    number_field before key d = record {
      before = before;
      key = key;
      digits = print_double d;
      value = number.make (print d);
    }

    -- The numbers of a request in the order of its text.
    abbrev pub fields : Request D → List (Field values.Value)
    fields r =
        number_field "{ \"message\" : \"TE_Request\", " "latitude" r.radar_loc.latitude
        ∷ number_field ", " "longitude" r.radar_loc.longitude
        ∷ number_field ", " "altitude" r.radar_loc.altitude
        ∷ number_field ",\"type\" : \"spherical_sector\", " "X" r.area.x
        ∷ number_field " , " "Y" r.area.y
        ∷ number_field ", " "Z" r.area.z
        ∷ number_field ",  " "range" r.area.range
        ∷ number_field "," "elevation_angle" r.area.elevation_angle
        ∷ number_field ", " "elevation_width" r.area.elevation_width
        ∷ number_field "," "azimuth_angle" r.area.azimuth_angle
        ∷ number_field ", " "azimuth_width" r.area.azimuth_width
        ∷ record {
          before = ", ";
          key = "time";
          digits = print_u64 r.time;
          value = uint64.make r.time;
        }
        ∷ []

    -- The members of a request: its two texts and its numbers.
    abbrev pub members : Request D → List (String × values.Value)
    members r =
        ("message", text.make "TE_Request")
        ∷ ("type", text.make "spherical_sector")
        ∷ map (λ (f : Field values.Value). (f.key, f.value)) (fields r)

    -- An object with the members of a request.
    abbrev pub IsRequest : values.Value → Request D → Type 0
    IsRequest root r =
        (values.is_object root ≡ true) × All (λ m. HasMember values root m.0 m.1) (members r)

    -- The text of a request is that of its numbers, each under its key, unless it has exactly 1024
    -- bytes.
    pub request_msg_lem :
        (bytes : String → List ℕ) (of_bytes : List ℕ → String)
        → (r : Request D) → of_bytes (bytes (text_of (fields r))) ≡ text_of (fields r)
        → (length (bytes (text_of (fields r))) == 1024) ≡ false
        → request_msg bytes of_bytes print_double print_u64 r ≡ text_of (fields r)
    unfolding request_msg request_text
    request_msg_lem bytes of_bytes r back e =
        let formatted : string_format 2 (some (bytes (text_of (fields r))))
            ≡ some (bytes (text_of (fields r))) =
          string_format_lem 0 (bytes (text_of (fields r))) ∙ rw e refl in
        ap (written of_bytes) formatted ∙ back

  -- A request with its numbers as they are printed.
  abbrev pub printed : (print : D → D) → Request D → Request D
  printed print r = record {
    radar_loc = record {
      latitude = print r.radar_loc.latitude;
      longitude = print r.radar_loc.longitude;
      altitude = print r.radar_loc.altitude;
    };
    area = record {
      x = print r.area.x;
      y = print r.area.y;
      z = print r.area.z;
      range = print r.area.range;
      azimuth_angle = print r.area.azimuth_angle;
      azimuth_width = print r.area.azimuth_width;
      elevation_angle = print r.area.elevation_angle;
      elevation_width = print r.area.elevation_width;
    };
    time = r.time;
  }

  get_double_found :
      IsKind number
      → (root : values.Value) (key : String) (d : D) → values.is_object root ≡ true
      → HasMember values root key (number.make d)
      → get_double values number root (some key) ≡ got d
  unfolding get_double
  get_double_found kind root key d object (has, e) =
      rw (object, has, e, kind.of_kind d, kind.get-make d) refl

  get_value_found :
      {T : Type 0} {kind : Kind values.Value T}
      → IsKind kind
      → (root : values.Value) (key : String) (t : T) → values.is_object root ≡ true
      → HasMember values root key (kind.make t)
      → get_value values kind root (some key) ≡ got t
  unfolding get_value
  get_value_found {kind = kind} laws root key t object (has, e) =
      rw (object, has, e, laws.of_kind t, laws.get-make t) refl

  -- The server reads from an object with the members that the client writes the request again, with
  -- its numbers as they are printed.
  pub read_request-IsRequest :
      IsKind text
      → IsKind uint64
      → IsKind number
      → (print_double : D → String) (print_u64 : ℕ → String) (root : values.Value) (print : D → D)
        (r : Request D)
      → IsRequest print_double print_u64 print root r
      → read_request values text uint64 number root ≡ got (printed print r)
  unfolding read_request read_fields
  read_request-IsRequest texts uints numbers print_double print_u64 root print r
        (
          object,
          (
            message,
            (
              kind,
              (
                latitude,
                (
                  longitude,
                  (
                    altitude,
                    (x, (y, (z, (range, (elevation, (height, (azimuth, (width, (time, end))))))))),
                  ),
                ),
              ),
            ),
          ),
        ) =
      let num = get_double_found numbers root in
      rw
        (
          get_value_found texts root "message" "TE_Request" object message,
          num "latitude" (print r.radar_loc.latitude) object latitude,
          num "longitude" (print r.radar_loc.longitude) object longitude,
          num "altitude" (print r.radar_loc.altitude) object altitude,
          num "X" (print r.area.x) object x,
          num "Y" (print r.area.y) object y,
          num "Z" (print r.area.z) object z,
          num "range" (print r.area.range) object range,
          num "azimuth_angle" (print r.area.azimuth_angle) object azimuth,
          num "azimuth_width" (print r.area.azimuth_width) object width,
          num "elevation_angle" (print r.area.elevation_angle) object elevation,
          num "elevation_width" (print r.area.elevation_width) object height,
          get_value_found uints root "time" r.time object time,
        )
        refl
