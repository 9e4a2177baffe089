-- ===== src/SatelliteUtils/Norad.antt =====
-- A satellite of the catalogue with its model: the choice of the model in SatelliteUtils/catalog_tle.cpp, and
-- `getPosition` of SatelliteUtils/norad_base.h, which each model overrides.
pub mod Flights
use radar_software.Prelude.{ℕ, Option, none, some}
use radar_software.Float.{Floats}
use radar_software.TargetEnvironment.Catalog.{Keo, sgdp4_zero_ecc, sgdp4_deep_norm}
use radar_software.SatelliteUtils.Vector3.{Vect3}
use radar_software.SatelliteUtils.NoradBase.{CsType}
use radar_software.SatelliteUtils.NoradSgdp4.{CalcData, Reply}
use radar_software.SatelliteUtils.NoradCircl.{position_circular}
use radar_software.SatelliteUtils.NoradSgp4.{Sgp4, new_sgp4, position_near}
use radar_software.SatelliteUtils.NoradSdp4.{Sdp4, new_sdp4, position_deep}

-- `class NoradBase` by its three subclasses; that for circular orbits has no members.
pub data Norad (D : Type 0) : Type 0 where
  circular : Norad D
  near : Sgp4 D → Norad D
  far : Sdp4 D → Norad D

module _ {D : Type 0} (floats : Floats D) where
  -- The model that `parse_keo` makes for an entry, by its mode.
  unfoldable pub new_norad : Keo D → Norad D
  unfolding new_sgp4 new_sdp4
  new_norad entry = elim entry.imode [
    | sgdp4_zero_ecc ↦ circular
    | sgdp4_deep_norm ↦ far (new_sdp4 floats entry.orbit entry.epoch)
    | imode ↦ near (new_sgp4 floats entry.orbit imode)
  ]

  -- `getPosition`, with the model as it stands afterwards. `rdotk` and `cd` are what stands in members that
  -- a model does not set; `none` is the loop of the model for far orbits that runs on.
  unfoldable pub position_of :
      (fuel : ℕ) (rdotk : D) (cd : CalcData D)
      → Keo D
      → Norad D
      → (errors : ℕ) (tsince : D) (v0 v1 : Vect3 D) → CsType
      → Option (Norad D × Reply D)
  unfolding position_circular position_near position_deep
  position_of fuel rdotk cd entry circular errors tsince v0 v1 cs =
      some (circular, position_circular floats entry.jd entry.orbit rdotk errors tsince cs)
  position_of fuel rdotk cd entry (near m) errors tsince v0 v1 cs =
      some (near m, position_near floats entry.jd entry.orbit m cd errors tsince v0 v1 cs)
  position_of fuel rdotk cd entry (far m) errors tsince v0 v1 cs =
      elim (position_deep floats fuel entry.jd entry.orbit m cd errors tsince v0 v1 cs) [
        | none ↦ none
        | some p ↦ some (far p.model, p.reply)
      ]
