-- ===== src/Logger/Sessions.antt =====
-- The sessions of the log: what a start leaves behind, and that no number is given twice.
use Prim.Native.String.{◌++◌}
use radar_software.Prelude.{ℕ, ◌≡◌, String, Bool, true, some, []}
use radar_software.ConfigManager.Values.{Answer, returns}
use radar_software.Logger.{Platform, Logger, file_name, start_session, debug}

module _ (platform : Platform) where
  -- What a `start_session` that returns leaves behind.
  abbrev pub Started :
      Logger platform × platform.Disk
      → String
      → (Logger platform × platform.Disk) × Answer Unit
      → Type 0
  Started (l, disk) time_str (after, answer) =
      answer ≡ returns tt
      → (after.0.config_loaded ≡ true)
        × (after.0.path_name ≡ l.path_name)
        × (after.1
            ≡ platform.create disk
                (platform.generic_string l.path_name ++ file_name platform after.0.id time_str))

  -- The logger with a new session.
  abbrev opened : Logger platform → ℕ → Logger platform
  opened l n = record l {
    id = n;
    file_chanel = some (record { level = debug; lines = [] });
    session_opened = true;
  }

  abbrev Starts :
      (ℕ → ℕ)
      → String
      → Bool
      → ℕ
      → Logger platform × platform.Disk
      → (Logger platform × platform.Disk) × Answer Unit
      → Type 0
  Starts draw time_str made id s result = start_session platform draw time_str made id s ≡ result
