-- ===== src/Logger/Tests.antt =====
-- The theorems about the sessions of the log at concrete inputs.

use radar_software.Prelude.{
  ℕ, zero, suc, some, ◌<◌, ◌≡◌, ◌⊎◌, String, true, false, none, List, [], ◌∷◌,
}
use radar_software.ConfigManager.{system_exception}
use radar_software.ConfigManager.Values.{returns, throws}
use radar_software.Logger.{Platform, Logger, debug, guard, check_id, choose_id}
use radar_software.Logger.Ids.{AllTaken, choose_id-IsFirst}

-- One directory without a name, and numbers of which the text tells only 0 from the others.
abbrev platform : Platform
platform = record {
  Path_name = String;
  path = λ name. name;
  generic_string = λ name. "";
  Disk = List String;
  exists = λ disk name. true;
  create_directory = λ disk name. disk;
  names = λ disk name. disk;
  create = λ disk name. name ∷ disk;
  to_string = λ n. elim n [ zero ↦ "0" | suc m ↦ "7" ];
  takes = λ level message. true;
}

abbrev logger : Logger platform
logger = record {
  display_chanel = record { level = debug; lines = [] };
  file_chanel = none;
  path_name = "";
  num_files = 3;
  config_loaded = true;
  id = 0;
  session_opened = false;
}

choose_id_example :
    ((k : ℕ) × (choose_id platform (λ k. k) 0 logger ("0 - noon.log" ∷ []) ≡ returns k)
      × (k < guard)
      × (check_id platform logger ("0 - noon.log" ∷ []) k ≡ false)
      × AllTaken (check_id platform logger ("0 - noon.log" ∷ [])) (λ k. k) 0 k)
    ⊎ ((choose_id platform (λ k. k) 0 logger ("0 - noon.log" ∷ []) ≡ throws system_exception)
        × AllTaken (check_id platform logger ("0 - noon.log" ∷ [])) (λ k. k) 0 guard)
choose_id_example = choose_id-IsFirst platform (λ k. k) logger ("0 - noon.log" ∷ [])

abbrev started : Logger platform
started = record logger {
  id = 7;
  file_chanel = some (record { level = debug; lines = [] });
  session_opened = true;
}
