-- ===== src/ConfigManager/Load.antt =====
-- Loading, saving and updating a configuration.
use Prim.Native.String.{String, ◌++◌}
use radar_software.Prelude.{
  ◌≡◌, ap, ◌∙◌, ◌⊎◌, inl, inr, true, false, Option, none, some, Bool-cases, Option-cases,
}
use radar_software.Storage.{Files, Json, KeepsFiles, ParsesPretty}
use radar_software.ConfigManager.{
  Error, system_exception, config_exception, ConfigManager, set_path, config_file, load_text,
  load_config, saved_file, save_config, update_config,
}

-- A loaded configuration is a JSON object.
abbrev pub IsSound : (files : Files) (json : Json) → ConfigManager files json → Type 0
IsSound files json m = m.config_loaded ≡ true → json.is_object m.json_config ≡ true

-- A configuration file that is there, readable and an object is loaded.
load_found :
    (files : Files) (json : Json) (disk : files.Disk) (m : ConfigManager files json)
    (name text : String) (doc : json.Document)
    → files.exists disk (config_file files json m name) ≡ some true
    → files.read disk (files.generic_string (config_file files json m name)) ≡ some text
    → json.parse text ≡ some doc
    → json.is_object doc ≡ true
    → load_config files json disk m name
      ≡ (record m { json_config = doc; config_name = name; config_loaded = true }, none)
unfolding load_config load_text
load_found files json disk m name text doc e f g o = cc

save_loaded :
    (files : Files) (json : Json) (disk : files.Disk) (m : ConfigManager files json) (name : String)
    → m.config_loaded ≡ true
    → (save_config files json disk m name).0
      ≡ files.write disk (saved_file files json m name) (json.to_pretty_string m.json_config)
unfolding save_config
save_loaded files json disk m name loaded = cc

same_file :
    (files : Files) (json : Json) (m other : ConfigManager files json) (name : String)
    → other.path_name ≡ m.path_name
    → config_file files json other name ≡ config_file files json m name
same_file files json m other name same =
    ap (λ directory. files.slash directory (files.path (name ++ ".cfg"))) same

-- What `save_config` saves for a sound manager with a loaded configuration, `load_config` of the
-- same name loads again, into any manager of the same directory, where the directory's name ends
-- so that the name of the file that is saved is the one of the file that is loaded, the disk keeps
-- what is written and the parser reads what the printer prints.
pub load_config-save_config :
    (files : Files) (json : Json) (disk : files.Disk) (m other : ConfigManager files json)
    (name : String)
    → KeepsFiles files
    → ParsesPretty json
    → IsSound files json m
    → m.config_loaded ≡ true
    → other.path_name ≡ m.path_name
    → saved_file files json m name ≡ files.generic_string (config_file files json m name)
    → load_config files json (save_config files json disk m name).0 other name ≡ (
      record other { json_config = m.json_config; config_name = name; config_loaded = true },
      none,
    )
load_config-save_config files json disk m other name keeps parses sound loaded same ends =
    let text = json.to_pretty_string m.json_config in
    let file = config_file files json m name in
    let after = files.write disk (files.generic_string file) text in
    let saved : (save_config files json disk m name).0 ≡ after =
      save_loaded files json disk m name loaded
      ∙ ap (λ target. files.write disk target text) ends in
    let here = same_file files json m other name same in
    rw saved (
      load_found files json after other name text m.json_config
        (ap (files.exists after) here ∙ (keeps disk file text).0)
        (ap (λ target. files.read after (files.generic_string target)) here
          ∙ (keeps disk file text).1)
        (parses m.json_config) (sound loaded))

-- An operation that throws.
abbrev pub Fails : {A : Type 0} → A × Option Error → A → Type 0
Fails result before = (e : Error) × (result ≡ (before, some e))

-- `load_config` throws and changes nothing, or it takes the name and the JSON object that the file
-- of that name in the directory holds, and keeps the directory.
pub load_config_lem :
    (files : Files) (json : Json) (disk : files.Disk) (m : ConfigManager files json) (name : String)
    → Fails (load_config files json disk m name) m
      ⊎ ((text : String) × (doc : json.Document) × (files.read disk
              (files.generic_string (config_file files json m name))
            ≡ some text)
          × (json.parse text ≡ some doc)
          × (json.is_object doc ≡ true)
          × (load_config files json disk m name
              ≡ (record m { json_config = doc; config_name = name; config_loaded = true }, none)))
unfolding load_config load_text
load_config_lem files json disk m name =
    let file = config_file files json m name in
    elim (Option-cases (files.exists disk file)) [
      | inl e ↦ inl (system_exception, cc)
      | inr (false, e) ↦ inl (system_exception, cc)
      | inr (true, e) ↦ elim (Option-cases (files.read disk (files.generic_string file))) [
        | inl f ↦ inl (system_exception, cc)
        | inr (text, f) ↦ elim (Option-cases (json.parse text)) [
          | inl g ↦ inl (config_exception, cc)
          | inr (doc, g) ↦ elim (Bool-cases (json.is_object doc)) [
            | inl o ↦ inr (text, doc, f, g, o, cc)
            | inr o ↦ inl (config_exception, cc)
          ]
        ]
      ]
    ]

set_path_refused :
    (files : Files) (json : Json) (disk : files.Disk) (m : ConfigManager files json) (name : String)
    → (files.exists disk (files.path name) ≡ none)
      ⊎ (files.exists disk (files.path name) ≡ some false)
      ⊎ ((files.exists disk (files.path name) ≡ some true)
          × ((files.is_directory disk (files.path name) ≡ none)
              ⊎ (files.is_directory disk (files.path name) ≡ some false)))
    → set_path files json disk m name
      ≡ (record m { path_name = files.path name }, some system_exception)
unfolding set_path
set_path_refused files json disk m name (inl e) = cc
set_path_refused files json disk m name (inr (inl e)) = cc
set_path_refused files json disk m name (inr (inr (e, inl f))) = cc
set_path_refused files json disk m name (inr (inr (e, inr f))) = cc

set_path_taken :
    (files : Files) (json : Json) (disk : files.Disk) (m : ConfigManager files json) (name : String)
    → files.exists disk (files.path name) ≡ some true
    → files.is_directory disk (files.path name) ≡ some true
    → set_path files json disk m name ≡ (record m { path_name = files.path name }, none)
unfolding set_path
set_path_taken files json disk m name e f = cc

-- `set_path` takes the new directory in every case, also when it throws, and changes nothing else; and
-- it returns without an exception only for a name that is there and is a directory.
pub set_path_lem :
    (files : Files) (json : Json) (disk : files.Disk) (m : ConfigManager files json) (name : String)
    → ((files.exists disk (files.path name) ≡ some true)
        × (files.is_directory disk (files.path name) ≡ some true)
        × (set_path files json disk m name ≡ (record m { path_name = files.path name }, none)))
      ⊎ (set_path files json disk m name
          ≡ (record m { path_name = files.path name }, some system_exception))
set_path_lem files json disk m name = elim (Option-cases (files.exists disk (files.path name))) [
  | inl e ↦ inr (set_path_refused files json disk m name (inl e))
  | inr (false, e) ↦ inr (set_path_refused files json disk m name (inr (inl e)))
  | inr (true, e) ↦ elim (Option-cases (files.is_directory disk (files.path name))) [
    | inl f ↦ inr (set_path_refused files json disk m name (inr (inr (e, inl f))))
    | inr (false, f) ↦ inr (set_path_refused files json disk m name (inr (inr (e, inr f))))
    | inr (true, f) ↦ inl (e, f, set_path_taken files json disk m name e f)
  ]
]

-- `update_config` throws and changes nothing, or it replaces the loaded configuration by an object, and
-- keeps the name and the directory.
pub update_config_lem :
    (files : Files) (json : Json) (m : ConfigManager files json) (config_str : String)
    → Fails (update_config files json m config_str) m
      ⊎ ((doc : json.Document) × (m.config_loaded ≡ true)
          × (json.parse config_str ≡ some doc)
          × (json.is_object doc ≡ true)
          × (update_config files json m config_str ≡ (record m { json_config = doc }, none)))
unfolding update_config
update_config_lem files json m config_str = elim (Bool-cases m.config_loaded) [
  | inl l ↦ elim (Option-cases (json.parse config_str)) [
    | inl e ↦ inl (config_exception, cc)
    | inr (doc, e) ↦ elim (Bool-cases (json.is_object doc)) [
      | inl o ↦ inr (doc, l, e, o, cc)
      | inr o ↦ inl (config_exception, cc)
    ]
  ]
  | inr l ↦ inl (config_exception, cc)
]
