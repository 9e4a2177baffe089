-- ===== src/ConfigManager/Tests.antt =====
-- The theorems about the configuration at concrete inputs.
use Prim.Native.String.{String, ◌++◌}
use radar_software.Prelude.{
  ℕ, ◌≡◌, refl, ap, ◌⊎◌, Bool, true, false, Option, none, some, List, [], ◌∷◌,
}
use radar_software.Storage.{Files, Json, Values, Kind, IsKind, KeepsMembers, KeepsElements}
use radar_software.ConfigManager.{config_exception, ConfigManager, load_config, save_config}
use radar_software.ConfigManager.Load.{load_config-save_config}
use radar_software.ConfigManager.Values.{returns, throws, aborts, set_value, get_value}
use radar_software.ConfigManager.Values.Access.{HasKind, LacksKind, get_value-set_value}

-- A disk with room for one file, and names of directories that end in a separator.
abbrev one_file : Files
one_file = record {
  Path_name = String;
  path = λ name. name;
  slash = λ directory name. directory ++ name;
  generic_string = λ name. name;
  Disk = Option String;
  exists = λ disk name. elim disk [ none ↦ some false | some text ↦ some true ];
  is_directory = λ disk name. some true;
  read = λ disk name. disk;
  write = λ disk name text. some text;
}

-- Documents as their texts.
abbrev texts : Json
texts = record {
  Document = String;
  null = "null";
  parse = some;
  is_object = λ doc. true;
  to_string = λ doc. doc;
  to_pretty_string = λ doc. doc;
}

abbrev manager : ConfigManager one_file texts
manager = record {
  json_config = "{}";
  config_name = "server";
  path_name = "etc/";
  config_loaded = true;
}

save_config_example :
    load_config one_file texts (save_config one_file texts none manager "copy").0 manager "copy" ≡ (
      record manager {
        json_config = manager.json_config;
        config_name = "copy";
        config_loaded = true;
      },
      none,
    )
save_config_example =
    load_config-save_config one_file texts none manager manager "copy"
      (λ disk file text. (refl, refl)) (λ doc. refl) (λ loaded. refl) refl refl refl

-- Numbers, objects with one member, and arrays.
data Sample : Type 0 where
  number : ℕ → Sample
  object : Sample → Sample
  empty : Sample
  cell : Sample → Sample → Sample

abbrev elements_of : Sample → List Sample
elements_of (cell x xs) = x ∷ elements_of xs
elements_of _ = []

abbrev array_of : List Sample → Sample
array_of [] = empty
array_of (x ∷ xs) = cell x (array_of xs)

abbrev member_of : Sample → Sample
member_of (object x) = x
member_of v = v

abbrev has_one : Sample → Bool
has_one (object x) = true
has_one _ = false

abbrev set_one : Sample → Sample → Sample
set_one (object x) y = object y
set_one v y = v

abbrev holds_elements : Sample → Bool
holds_elements empty = true
holds_elements (cell x xs) = true
holds_elements _ = false

abbrev samples : Values
samples = record {
  Value = Sample;
  is_object = has_one;
  is_array = holds_elements;
  has_member = λ v key. has_one v;
  member = λ v key. member_of v;
  set_member = λ v key x. set_one v x;
  elements = elements_of;
  array = array_of;
}

abbrev is_number : Sample → Bool
is_number (number n) = true
is_number _ = false

abbrev number_of : Sample → ℕ
number_of (number n) = n
number_of _ = 0

abbrev numbers : Kind Sample ℕ
numbers = record { is_kind = is_number; get = number_of; make = number }

numbers-IsKind : IsKind numbers
numbers-IsKind = record { of_kind = λ n. refl; get-make = λ n. refl }

samples-KeepsMembers : KeepsMembers samples
samples-KeepsMembers (object y) key x h = (refl, refl, refl)
samples-KeepsMembers (number n) key x h = cc
samples-KeepsMembers empty key x h = cc
samples-KeepsMembers (cell y ys) key x h = cc

samples-KeepsElements : KeepsElements samples
samples-KeepsElements [] = (refl, refl)
samples-KeepsElements (x ∷ xs) = (refl, ap (λ rest. x ∷ rest) (samples-KeepsElements xs).1)

set_value_example :
    (HasKind samples numbers (object (number 1)) "port"
      × (settings' : Sample) × (set_value samples numbers true (object (number 1)) (some "port") 5
          ≡ returns settings')
      × (get_value samples numbers settings' (some "port") ≡ returns 5))
    ⊎ (LacksKind samples numbers (object (number 1)) "port"
        × (set_value samples numbers true (object (number 1)) (some "port") 5
            ≡ throws config_exception))
    ⊎ ((has_one (object (number 1)) ≡ false)
        × (set_value samples numbers true (object (number 1)) (some "port") 5 ≡ aborts))
set_value_example =
    get_value-set_value samples numbers (object (number 1)) "port" 5 samples-KeepsMembers
      numbers-IsKind
