-- ===== src/TargetEnvironment/Catalog.antt =====
-- The reader of the catalogue in Target Environment/SatelliteUtils/catalog_tle.cpp: `parse_keo`, over the
-- lines of the file. The fields that the reader does not set are left out.
pub mod Orbits
pub mod Epochs
pub mod Reading
use Prim.Native.Char.{code as char_code}
use radar_software.Prelude.{
  ℕ, ◌==◌, String, str_eq, Bool, true, false, not, ◌&&◌, ◌||◌, Option, none, some, List, [], ◌∷◌,
  ◌++◌, if◌then◌else◌,
}
use radar_software.Double.{Double}
use radar_software.TargetEnvironment.Catalog.Orbits.{Orbit, Numbers, orbit_of, stod_at, ◌>>=◌}
use radar_software.TargetEnvironment.Catalog.Epochs.{epoch_of, far_epoch}

-- `temp[0]`, which is the character 0 of an empty line.
abbrev pub first_code : String → ℕ
first_code String.[] = 0
first_code (String.◌∷◌ c s) = char_code c

abbrev pub empty : String → Bool
empty String.[] = true
empty (String.◌∷◌ c s) = false

-- The strings of an entry, as far as they are read.
pub record Strings : Type 0 where
  pub s1 : String
  pub s2 : String
  pub name : String

abbrev pub no_strings : Strings
no_strings = record { s1 = ""; s2 = ""; name = "" }

-- One line: `none` is a second line `1` or `2`.
unfoldable pub take_line : String → Strings → Option Strings
take_line temp s =
    if first_code temp == 35
    then some s
    else if first_code temp == 49
    then (if empty s.s1 then some (record s { s1 = temp }) else none)
    else if first_code temp == 50
    then (if empty s.s2 then some (record s { s2 = temp }) else none)
    else some (record s { name = temp })

abbrev pub complete : Strings → Bool
complete s = not (empty s.s1) && not (empty s.s2)

-- `enum IMode`: how the model of an orbit was initialised. The reader chooses from four of them.
pub data IMode : Type 0 where
  sgdp4_not_init : IMode
  sgdp4_zero_ecc : IMode
  sgdp4_near_simp : IMode
  sgdp4_near_norm : IMode
  sgdp4_deep_norm : IMode
  sgdp4_deep_resn : IMode
  sgdp4_deep_sync : IMode
  sgdp4_max_count : IMode

-- `struct KEO`, with the mode and the epoch instead of the model that is made with them.
pub record Keo (D : Type 0) : Type 0 where
  pub name : String
  pub jd : D
  pub epoch : D
  pub orbit : Orbit D
  pub imode : IMode

-- The file was read to its end, was refused, or a number could not be read, which is an exception that
-- nobody catches, or a day lies behind the end of its year, which is undefined.
pub data Parsed : Type 0 where
  result : Bool → Parsed
  escapes : Parsed

module _ (double : Double) where
  open double use {D, lt, le, decimal}

  -- The model that an orbit is predicted with.
  unfoldable pub choose_mode : Orbit D → IMode
  choose_mode orbit =
      if le orbit.elements.eccentricity (decimal 0 0)
      then sgdp4_zero_ecc
      else if le (decimal 225 0) orbit.recovered.period
      then sgdp4_deep_norm
      else if lt orbit.recovered.perigee_r (decimal 220 0)
      then sgdp4_near_simp
      else sgdp4_near_norm

  module _ (numbers : Numbers D) where
    unfoldable pub entry_of : Strings → Option (Keo D)
    unfolding choose_mode orbit_of epoch_of far_epoch
    entry_of s = do
      number ← stod_at double numbers s.s1 18 7
      epoch ← epoch_of double numbers.floor number
      orbit ← orbit_of double numbers s.s1 s.s2
      some (record {
        name = if empty s.name then "Noname" else s.name;
        jd = epoch.jd;
        epoch = far_epoch double numbers.floor epoch;
        orbit = orbit;
        imode = choose_mode orbit;
      })

    -- Both loops over the lines, with the strings of the entry that is being read.
    unfoldable pub read_lines : List String → Strings → List (Keo D) → List (Keo D) × Parsed
    unfolding take_line entry_of
    read_lines [] s keo_el = (keo_el, result true)
    read_lines (temp ∷ rest) s keo_el = elim (take_line temp s) [
      | none ↦ (keo_el, result false)
      | some s' ↦
          if complete s'
          then elim (entry_of s') [
            | none ↦ (keo_el, escapes)
            | some entry ↦ read_lines rest no_strings (keo_el ++ (entry ∷ []))
          ]
          else read_lines rest s' keo_el
    ]

    -- `none` is a file that cannot be opened. The list of satellites is added to.
    unfoldable pub parse_keo : Option (List String) → List (Keo D) → List (Keo D) × Parsed
    unfolding read_lines
    parse_keo none keo_el = (keo_el, result false)
    parse_keo (some file) keo_el = read_lines file no_strings keo_el
