-- ===== src/TargetEnvironment/Tests/Samples.antt =====
-- Values for the tests: a small JSON, whole numbers for `double`, and a sky of numbered satellites.
use radar_software.Prelude.{
  ℕ, ◌+◌, ◌-◌, ◌*◌, ◌/◌, refl, String, str_eq, true, false, Option, none, some, List, [], ◌∷◌,
  if◌then◌else◌, ltb, leb, ◌==◌,
}
use radar_software.Double.{Double}
use radar_software.Float.{Floats}
use radar_software.CoordinateSystems.Eigen.{Eigen}
use radar_software.Storage.{Values, Kind, IsKind}
use radar_software.TargetEnvironment.TargetTable.{Target}
use radar_software.TargetEnvironment.Request.{Sky}
use radar_software.TargetEnvironment.Client.{Client}
use radar_software.TargetEnvironment.Server.{Server, new_server}

-- A small JSON.
mutual
  pub data Sample : Type 0 where
    number : ℕ → Sample
    text : String → Sample
    array : Items → Sample
    object : Fields → Sample

  pub data Items : Type 0 where
    nil : Items
    cons : Sample → Items → Items

  pub data Fields : Type 0 where
    end : Fields
    field : String → Sample → Fields → Fields

abbrev pub items_of : Items → List Sample
items_of nil = []
items_of (cons v vs) = v ∷ items_of vs

abbrev pub of_items : List Sample → Items
of_items [] = nil
of_items (v ∷ vs) = cons v (of_items vs)

abbrev pub find_field : String → Fields → Option Sample
find_field key end = none
find_field key (field k v rest) = if str_eq k key then some v else find_field key rest

abbrev pub set_field : String → Sample → Fields → Fields
set_field key x end = end
set_field key x (field k v rest) =
    if str_eq k key then field k x rest else field k v (set_field key x rest)

abbrev pub member_of : Sample → String → Option Sample
member_of (object fields) key = find_field key fields
member_of _ key = none

abbrev pub samples : Values
samples = record {
  Value = Sample;
  is_object = λ v. elim v [ object fields ↦ true | _ ↦ false ];
  is_array = λ v. elim v [ array items ↦ true | _ ↦ false ];
  has_member = λ v key. elim (member_of v key) [ none ↦ false | some x ↦ true ];
  member = λ v key. elim (member_of v key) [ none ↦ v | some x ↦ x ];
  set_member =
      λ v key x. elim v [ object fields ↦ object (set_field key x fields) | other ↦ other ];
  elements = λ v. elim v [ array items ↦ items_of items | _ ↦ [] ];
  array = λ vs. array (of_items vs);
}

abbrev pub texts : Kind Sample String
texts = record {
  is_kind = λ v. elim v [ text t ↦ true | _ ↦ false ];
  get = λ v. elim v [ text t ↦ t | _ ↦ "" ];
  make = text;
}

abbrev pub numbers : Kind Sample ℕ
numbers = record {
  is_kind = λ v. elim v [ number n ↦ true | _ ↦ false ];
  get = λ v. elim v [ number n ↦ n | _ ↦ 0 ];
  make = number;
}

pub texts-IsKind : IsKind texts
texts-IsKind = record { of_kind = λ t. refl; get-make = λ t. refl }

pub numbers-IsKind : IsKind numbers
numbers-IsKind = record { of_kind = λ t. refl; get-make = λ t. refl }

-- A target, its value, and a message of it.
abbrev pub axis : List ℕ
axis = 1 ∷ 2 ∷ 3 ∷ 4 ∷ 5 ∷ 6 ∷ []

abbrev pub target : ℕ → Target ℕ
target id = record { target_id = id; x = axis; y = axis; z = axis }

abbrev pub axis_value : Sample
axis_value = array (of_items (number 1 ∷ number 2 ∷ number 3 ∷ number 4 ∷ number 5 ∷ number 6 ∷ []))

abbrev pub target_value : ℕ → Sample
target_value id = object (
    field "id" (number id) (field "X" axis_value (field "Y" axis_value (field "Z" axis_value end))))

abbrev pub message : Sample
message = object (
    field "message" (text "TE_TargetsList") (
      field "size" (number 2)
        (field "targets" (array (of_items (target_value 7 ∷ target_value 7 ∷ []))) end)))

abbrev pub parse : String → Option Sample
parse msg = some message

abbrev pub whole : Double
whole = record {
  D = ℕ;
  add = λ a b. a + b;
  sub = λ a b. a - b;
  mul = λ a b. a * b;
  div = λ a b. a / b;
  sqrt = λ a. a;
  pow = λ a b. a;
  sin = λ a. a;
  ceil = λ a. a;
  lt = ltb;
  le = leb;
  decimal = λ m e. m;
  from_u64 = λ a. a;
  to_u64 = λ a. a;
  to_u32 = λ a. a;
}

abbrev functions : Floats ℕ
functions = record {
  add = λ a b. a + b;
  sub = λ a b. a - b;
  mul = λ a b. a * b;
  div = λ a b. a / b;
  neg = λ a. a;
  lt = ltb;
  le = leb;
  eq = ◌==◌;
  decimal = λ m e. m;
  sqrt = λ a. a;
  pow = λ a b. a;
  fabs = λ a. a;
  fmod = λ a b. a;
  sin = λ a. a;
  cos = λ a. a;
  tan = λ a. a;
  atan = λ a. a;
  atan2 = λ a b. 0;
  trunc = λ a. a;
}

-- Matrices that leave a vector as it is.
abbrev still : Eigen ℕ
still = record {
  Matrix3d = Unit;
  of_entries = λ a b c d e f g h i. tt;
  mul = λ m n. tt;
  transpose = λ m. tt;
  apply = λ m v. v;
  plus = λ u v. u;
  minus = λ u v. u;
}

-- Satellite `n` stands at `n` in every coordinate, and its distance is three times the square of `n`.
abbrev pub sky : Sky whole
sky = record {
  floats = functions;
  eigen = still;
  product = λ columns v. v;
  Satellite = ℕ;
  number = λ n. n;
  jd = λ n. 0;
  get_position = λ n t v. (n, record { x = n; y = n; z = n });
  gmtime =
      λ t. record { tm_year = 116; tm_mon = 3; tm_mday = 20; tm_hour = 0; tm_min = 0; tm_sec = 0 };
  print_size = λ n. "1";
  print_item = λ t. "target";
}

-- A running server with one client of two, and a client that has loaded its configuration.
abbrev pub running : Server ℕ
running = record new_server {
  stopped = false;
  config_loaded = true;
  max_connections = 2;
  acceptor_open = true;
  accepting = true;
  clients = record { id = 0; reading = true } ∷ [];
  clients_counter = 1;
  next = 1;
  satellites = 5 ∷ 50 ∷ [];
}

abbrev pub configured : Client ℕ
configured = record { connected = false; config_loaded = true; server_endpoint = some (1, 5000) }
