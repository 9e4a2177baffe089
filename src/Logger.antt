-- ===== src/Logger.antt =====
-- `class Logger` of Logger/Logger.cpp: the session of the log with its file. The file system and spdlog
-- are parameters, and so are the random numbers and the time of day.
pub mod Ids
pub mod Sessions
mod Tests
use Prim.Native.String.{◌++◌}
use radar_software.Prelude.{
  split_space, NoSpace, split_space-append, ℕ, zero, suc, ◌==◌, String, str_eq, Bool, true, false,
  not, Option, none, some, List, [], ◌∷◌, ◌++◌ as ◌++ₗ◌, if◌then◌else◌,
}
use radar_software.Storage.{Values, Kind}
use radar_software.ConfigManager.{system_exception, config_exception}
use radar_software.ConfigManager.Values.{Answer, returns, throws, aborts, get_section, get_value}

pub data SeverityLevel : Type 0 where
  error : SeverityLevel
  notice : SeverityLevel
  debug : SeverityLevel

-- The directories with the names of their files, and what spdlog and `std::to_string` do: whether a
-- logger of a level takes a message of a level.
pub record Platform : Type 1 where
  pub Path_name : Type 0
  pub path : String → Path_name
  pub generic_string : Path_name → String
  pub Disk : Type 0
  pub exists : Disk → Path_name → Bool
  pub create_directory : Disk → Path_name → Disk
  pub names : Disk → Path_name → List String
  -- A file made by its full name.
  pub create : Disk → String → Disk
  pub to_string : ℕ → String
  pub takes : SeverityLevel → SeverityLevel → Bool

-- A line of a channel.
pub record Line : Type 0 where
  pub level : SeverityLevel
  pub sender : String
  pub log_message : String

-- A logger of spdlog: its level, and its lines.
pub record Channel : Type 0 where
  pub level : SeverityLevel
  pub lines : List Line

-- The loop that draws numbers, with the draws left before the guard; `none` is its exception.
unfoldable pub generate : (taken : ℕ → Bool) → (draw : ℕ → ℕ) → ℕ → ℕ → Option ℕ
generate taken draw zero k = none
generate taken draw (suc left) k =
    let rest = generate taken draw left (suc k) in if taken (draw k) then rest else some (draw k)

abbrev pub guard : ℕ
guard = 1000

module _ (platform : Platform) where
  open platform use {
    Path_name, path, generic_string, Disk, exists, create_directory, names, create, to_string,
    takes,
  }

  pub record Logger : Type 0 where
    pub display_chanel : Channel
    pub file_chanel : Option Channel
    pub path_name : Path_name
    pub num_files : ℕ
    pub config_loaded : Bool
    pub id : ℕ
    pub session_opened : Bool

  -- What `load_config` does with the answer to one `get_value`: the exception passes on.
  abbrev pub settle :
      {T : Type 0}
      → Answer T
      → Logger × Disk
      → (T → (Logger × Disk) × Answer Unit)
      → (Logger × Disk) × Answer Unit
  settle (returns t) s f = f t
  settle (throws e) s f = (s, throws e)
  settle aborts s f = (s, aborts)

  -- `set_level` is called with three levels in turn: the last one stays.
  abbrev pub set_levels : Channel → Channel
  set_levels channel = record channel { level = debug }

  unfoldable pub load_config :
      (values : Values) (text : Kind values.Value String) (uint : Kind values.Value ℕ)
      → Bool
      → values.Value
      → Logger × Disk
      → (Logger × Disk) × Answer Unit
  load_config values text uint loaded conf (l, disk) =
      settle (get_section values loaded conf "logger") (l, disk)
        (λ section.
          settle (get_value values text section (some "log_dir")) (l, disk)
            (λ log_dir.
              let l1 = record l { path_name = path log_dir } in
              let disk1 =
                if exists disk (path log_dir) then disk else create_directory disk (path log_dir) in
              settle (get_value values uint section (some "buffer_size")) (l1, disk1)
                (λ buffer_size.
                  settle (get_value values uint section (some "num_files")) (l1, disk1)
                    (λ num_files.
                      let l2 = record l1 { num_files = num_files } in
                      settle (get_value values text section (some "message_format")) (l2, disk1)
                        (λ format. (
                          (
                            record l2 {
                              display_chanel = set_levels l2.display_chanel;
                              config_loaded = true;
                            },
                            disk1,
                          ),
                          returns tt,
                        ))))))

  -- `name_str.substr(0, name_str.find(" "))`
  abbrev pub id_str : String → String
  id_str name = elim (split_space name) [ none ↦ name | some (before, rest) ↦ before ]

  -- `check_id`: a file of the directory has the number already.
  unfoldable pub check_name : List String → String → Bool
  unfolding split_space
  check_name [] new_id_str = false
  check_name (name ∷ rest) new_id_str =
      if str_eq new_id_str (id_str name) then true else check_name rest new_id_str

  abbrev pub check_id : Logger → Disk → ℕ → Bool
  check_id l disk new_id = check_name (names disk l.path_name) (to_string new_id)

  -- The number of the session, asked for or drawn.
  unfoldable pub choose_id : (draw : ℕ → ℕ) → ℕ → Logger → Disk → Answer ℕ
  choose_id draw id l disk =
      if id == 0
      then elim (generate (check_id l disk) draw guard 0) [
        | none ↦ throws system_exception
        | some new_id ↦ returns new_id
      ]
      else if check_id l disk id
      then throws config_exception
      else returns id

  -- The name of the file, which stands directly behind the directory's.
  abbrev pub file_name : ℕ → String → String
  file_name id time_str = to_string id ++ (" " ++ ("- " ++ (time_str ++ ".log")))

  -- `start_session`, by whether spdlog makes the logger.
  unfoldable pub start_session :
      (draw : ℕ → ℕ) (time_str : String) (made : Bool)
      → ℕ
      → Logger × Disk
      → (Logger × Disk) × Answer Unit
  unfolding choose_id
  start_session draw time_str made id (l, disk) =
      if not l.config_loaded
      then ((l, disk), throws config_exception)
      else elim (choose_id draw id l disk) [
        | throws e ↦ ((l, disk), throws e)
        | aborts ↦ ((l, disk), aborts)
        | returns new_id ↦
            let l' = record l { id = new_id } in
            if made
            then (
              (
                record l' {
                  file_chanel = some (record { level = debug; lines = [] });
                  session_opened = true;
                },
                create disk (generic_string l.path_name ++ file_name new_id time_str),
              ),
              returns tt,
            )
            else ((l', disk), throws system_exception)
      ]

  abbrev pub get_session_id : Logger → ℕ
  get_session_id l = l.id

  unfoldable pub close_session : Logger → Logger
  close_session l = record l { file_chanel = none; session_opened = false }

  -- A message for a channel.
  abbrev pub put : Line → Channel → Channel
  put line channel =
      if takes channel.level line.level
      then record channel { lines = channel.lines ++ₗ (line ∷ []) }
      else channel

  unfoldable pub log_display : Line → Logger → Logger
  log_display line l =
      if l.session_opened then record l { display_chanel = put line l.display_chanel } else l

  -- `none` uses a null pointer.
  unfoldable pub log_file : Line → Logger → Option Logger
  log_file line l =
      if l.session_opened
      then elim l.file_chanel [
        | none ↦ none
        | some channel ↦ some (record l { file_chanel = some (put line channel) })
      ]
      else some l

  unfoldable pub log_dispfile : Line → Logger → Option Logger
  unfolding log_file log_display
  log_dispfile line l = elim (log_file line l) [
    | none ↦ none
    | some l' ↦ some (log_display line l')
  ]
