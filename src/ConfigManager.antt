-- ===== src/ConfigManager.antt =====
-- `class ConfigManager` of ConfigManager/ConfigManager.{hpp,cpp}: the directory, the loading, saving and
-- replacing of a configuration. An exception is a value, with the state that it leaves behind.
pub mod Load
pub mod Values
mod Tests
use Prim.Native.String.{String, ◌++◌}
use radar_software.Prelude.{Bool, true, false, Option, none, some, if◌then◌else◌}
use radar_software.Storage.{Files, Json}

-- `SystemException` and `ConfigException`, without their messages.
pub data Error : Type 0 where
  system_exception : Error
  config_exception : Error

module _ (files : Files) (json : Json) where
  open files use {Path_name, path, slash, generic_string, Disk, exists, is_directory, read, write}
  open json use {Document, null, parse, is_object, to_string, to_pretty_string}

  pub record ConfigManager : Type 0 where
    pub json_config : Document
    pub config_name : String
    pub path_name : Path_name
    pub config_loaded : Bool

  -- The constructor that the compiler makes.
  abbrev pub new_manager : ConfigManager
  new_manager = record {
    json_config = null;
    config_name = "";
    path_name = path "";
    config_loaded = false;
  }

  unfoldable pub set_path : Disk → ConfigManager → String → ConfigManager × Option Error
  set_path disk m name =
      let m' = record m { path_name = path name } in
      elim (exists disk (path name)) [
        | none ↦ (m', some system_exception)
        | some false ↦ (m', some system_exception)
        | some true ↦ elim (is_directory disk (path name)) [
          | none ↦ (m', some system_exception)
          | some false ↦ (m', some system_exception)
          | some true ↦ (m', none)
        ]
      ]

  -- The file that `load_config` reads.
  abbrev pub config_file : ConfigManager → String → Path_name
  config_file m name = slash m.path_name (path (name ++ ".cfg"))

  -- From the contents of the file on.
  unfoldable pub load_text : ConfigManager → String → String → ConfigManager × Option Error
  load_text m name text = elim (parse text) [
    | none ↦ (m, some config_exception)
    | some temp ↦
        if is_object temp
        then (record m { json_config = temp; config_name = name; config_loaded = true }, none)
        else (m, some config_exception)
  ]

  unfoldable pub load_config : Disk → ConfigManager → String → ConfigManager × Option Error
  unfolding load_text
  load_config disk m name = elim (exists disk (config_file m name)) [
    | none ↦ (m, some system_exception)
    | some false ↦ (m, some system_exception)
    | some true ↦ elim (read disk (generic_string (config_file m name))) [
      | none ↦ (m, some system_exception)
      | some text ↦ load_text m name text
    ]
  ]

  -- The file that `save_config` writes: the name stands directly behind the directory's.
  abbrev pub saved_file : ConfigManager → String → String
  saved_file m name = generic_string m.path_name ++ (name ++ ".cfg")

  unfoldable pub save_config : Disk → ConfigManager → String → Disk × Option Error
  save_config disk m name =
      if m.config_loaded
      then (write disk (saved_file m name) (to_pretty_string m.json_config), none)
      else (disk, some config_exception)

  unfoldable pub update_config : ConfigManager → String → ConfigManager × Option Error
  update_config m config_str =
      if m.config_loaded
      then elim (parse config_str) [
        | none ↦ (m, some config_exception)
        | some temp ↦
            if is_object temp
            then (record m { json_config = temp }, none)
            else (m, some config_exception)
      ]
      else (m, some config_exception)

  -- The functions `config_name`, `config_path` and `get_config_str`.
  abbrev pub current_name : ConfigManager → String
  current_name m = if m.config_loaded then m.config_name else ""

  abbrev pub config_path : ConfigManager → String
  config_path m = if m.config_loaded then generic_string m.path_name else ""

  abbrev pub get_config_str : ConfigManager → String
  get_config_str m = if m.config_loaded then to_string m.json_config else ""
