-- ===== src/SatelliteUtils/Errors.antt =====
-- `enum ErrorsMasks` of SatelliteUtils/norad_base.h: the warnings that the models set in `KEO::errors`.
use radar_software.Prelude.{ℕ, ◌+◌, ◌/◌, ◌%◌, ◌==◌, Bool, if◌then◌else◌}

abbrev pub em_small_a_warn : ℕ
em_small_a_warn = 0x20

abbrev pub em_small_e_warn : ℕ
em_small_e_warn = 0x40

abbrev pub em_big_e_warn : ℕ
em_big_e_warn = 0x80

abbrev pub em_integr_warn : ℕ
em_integr_warn = 0x100

-- `(errors & mask) != 0`, for the mask of one bit.
abbrev pub is_set : ℕ → ℕ → Bool
is_set errors mask = (errors / mask) % 2 == 1

-- The mask is put in where it is not there.
unfoldable pub warn : ℕ → ℕ → ℕ
warn errors mask = if is_set errors mask then errors else errors + mask
