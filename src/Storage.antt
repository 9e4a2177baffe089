-- ===== src/Storage.antt =====
-- The libraries that keep a configuration: boost::filesystem with the file streams, and rapidjson, as
-- far as ConfigManager/ConfigManager.cpp uses them. What they do is a parameter, and so is each law.
use Prim.Native.String.{String}
use radar_software.Prelude.{◌≡◌, Bool, true, Option, some, List}

pub record Files : Type 1 where
  -- `boost::filesystem::path`, with its constructor, `operator/` and `generic_string`.
  pub Path_name : Type 0
  pub path : String → Path_name
  pub slash : Path_name → Path_name → Path_name
  pub generic_string : Path_name → String
  -- The state of the disk. `none` is a `filesystem_error`.
  pub Disk : Type 0
  pub exists : Disk → Path_name → Option Bool
  pub is_directory : Disk → Path_name → Option Bool
  -- The contents through an `std::ifstream`; `none` is a stream that is not good.
  pub read : Disk → String → Option String
  -- What an `std::ofstream` does to the disk.
  pub write : Disk → String → String → Disk

pub record Json : Type 1 where
  pub Document : Type 0
  pub null : Document
  -- `none` is a document with a parse error.
  pub parse : String → Option Document
  pub is_object : Document → Bool
  pub to_string : Document → String
  pub to_pretty_string : Document → String

-- A file that was written is there and reads as what was written.
abbrev pub KeepsFiles : Files → Type 0
KeepsFiles files =
    (disk : files.Disk) (file : files.Path_name) (text : String)
    → (files.exists (files.write disk (files.generic_string file) text) file ≡ some true)
      × (files.read (files.write disk (files.generic_string file) text) (files.generic_string file)
          ≡ some text)

-- The pretty printer prints what the parser reads.
abbrev pub ParsesPretty : Json → Type 0
ParsesPretty json = (doc : json.Document) → json.parse (json.to_pretty_string doc) ≡ some doc

-- `rapidjson::Value`: objects with their members, arrays with their elements.
pub record Values : Type 1 where
  pub Value : Type 0
  pub is_object : Value → Bool
  pub is_array : Value → Bool
  pub has_member : Value → String → Bool
  -- `operator[]` of a member that is there, read and written; of one that is not there it asserts.
  pub member : Value → String → Value
  pub set_member : Value → String → Value → Value
  -- The elements of an array, and an array of given elements.
  pub elements : Value → List Value
  pub array : List Value → Value

-- The values of one C++ type: `Is…`, `Get…` and `Set…`.
pub record Kind (V T : Type 0) : Type 0 where
  pub is_kind : V → Bool
  pub get : V → T
  pub make : T → V

-- What was set is of its kind and is got back.
pub record IsKind {V T : Type 0} (kind : Kind V T) : Type 0 where
  pub of_kind : (t : T) → kind.is_kind (kind.make t) ≡ true
  pub get-make : (t : T) → kind.get (kind.make t) ≡ t

-- A member that is set stays a member, and is what it was set to; the value stays an object.
abbrev pub KeepsMembers : Values → Type 0
KeepsMembers values =
    (v : values.Value) (key : String) (x : values.Value)
    → values.has_member v key ≡ true
    → (values.has_member (values.set_member v key x) key ≡ true)
      × (values.member (values.set_member v key x) key ≡ x)
      × (values.is_object (values.set_member v key x) ≡ values.is_object v)

-- An array is one, and has the elements that it was made of.
abbrev pub KeepsElements : Values → Type 0
KeepsElements values =
    (xs : List values.Value)
    → (values.is_array (values.array xs) ≡ true) × (values.elements (values.array xs) ≡ xs)
