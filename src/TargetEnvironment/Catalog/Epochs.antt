-- ===== src/TargetEnvironment/Catalog/Epochs.antt =====
-- The day of an entry in catalog_tle.cpp: what `parse_keo` makes of the epoch, which is a year of two
-- digits, a day of it and a part of the day. The conversions are within `uint16_t`, since the text has
-- seven characters.
use radar_software.Prelude.{ℕ, ◌+◌, ◌*◌, ◌-◌, Option, none, some, leb, if◌then◌else◌}
use radar_software.Double.{Double}
use radar_software.Utils.Dates.{dur_data, day_time, julian_date}

pub record CatalogDate (D : Type 0) : Type 0 where
  pub e_year : ℕ
  pub e_day : D
  -- The Julian date.
  pub jd : D

module _ (double : Double) (floor : double.D → double.D) where
  open double use {D, add, sub, mul, div, decimal, from_u64, to_u32}

  -- `none` is a day behind the end of the year, which `DurData` does not find in its table.
  unfoldable pub epoch_of : D → Option (CatalogDate D)
  unfolding dur_data day_time julian_date
  epoch_of epoch =
      let short = to_u32 (div epoch (decimal 1000 0)) in
      let e_day = sub epoch (from_u64 (short * 1000)) in
      let day_num = to_u32 (floor e_day) in
      let e_year = short + (if leb 57 short then 1900 else 2000) in
      let time = day_time double (sub e_day (from_u64 day_num)) in
      elim (dur_data e_year day_num) [
        | none ↦ none
        | some date ↦ some (record {
          e_year = e_year;
          e_day = e_day;
          jd = julian_date double date.ng date.nm date.nd (
              add (add (from_u64 time.nh) (div (from_u64 time.nmin) (decimal 60 0)))
                (div time.nc (decimal 3600 0)));
        })
      ]

  -- The epoch that the model for far orbits is made with.
  unfoldable pub far_epoch : CatalogDate D → D
  far_epoch epoch = add (mul (from_u64 (epoch.e_year - 1900)) (decimal 1000 0)) epoch.e_day
