-- ===== src/SatelliteUtils/Gmst.antt =====
-- The mean sidereal time of Greenwich in SatelliteUtils/utils.cpp.
use radar_software.Prelude.{if◌then◌else◌}
use radar_software.Float.{Floats}
use radar_software.SatelliteUtils.{tle_const}

module _ {D : Type 0} (floats : Floats D) where
  infixl 65 ◌+◌ ◌-◌
  infixl 70 ◌*◌ ◌/◌
  open floats use {add as ◌+◌, sub as ◌-◌, mul as ◌*◌, div as ◌/◌, decimal, fmod, trunc, lt}
  open tle_const floats use {twopi, thgr70, c1, c1p2p, fk5r}

  -- `toGmst` by the third of its methods, for a date as it stands in the catalogue: the angle, and the
  -- days since 1950.
  unfoldable pub to_gmst : D → D × D
  to_gmst epoch =
      let jy = trunc ((epoch + decimal 2 7) * decimal 1 3) in
      let d = epoch - jy * decimal 1000 0 in
      let jy' = if lt jy (decimal 50 0) then jy + decimal 100 0 else jy in
      let n = trunc (
        if lt jy' (decimal 70 0)
        then (jy' - decimal 72 0) / decimal 4 0
        else (jy' - decimal 69 0) / decimal 4 0) in
      let days50 = (jy' - decimal 70 0) * decimal 365 0 + decimal 7305 0 + n + d in
      let ts70 = days50 - decimal 7305 0 in
      let ds70 = trunc (ts70 + decimal 1 8) in
      let trfac = ts70 - ds70 in
      let theta = thgr70 + c1 * ds70 + c1p2p * trfac + ts70 * ts70 * fk5r in
      let theta' = fmod theta twopi in
      (if lt theta' (decimal 0 0) then theta' + twopi else theta', days50)
