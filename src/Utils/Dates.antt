-- ===== src/Utils/Dates.antt =====
-- The dates of Target Environment/SatelliteUtils/utils.cpp: `DurData`, `WychKd` and `Julian_date`.
-- Years and day numbers are not negative there, so that the `int16_t` are native numbers.
pub mod Calendar
pub mod Months
pub mod Years
use radar_software.Double.{Double}
use radar_software.Prelude.{
  ℕ, zero, suc, ◌+◌, ◌-◌, ◌*◌, ◌/◌, ◌%◌, Bool, true, false, not, ◌&&◌, Option, none, some, List, [],
  ◌∷◌, ltb, leb, ◌==◌, if◌then◌else◌,
}

pub record Date : Type 0 where
  pub ng : ℕ
  pub nm : ℕ
  pub nd : ℕ

-- The table `dmounth`.
abbrev pub dmounth : List ℕ
dmounth = 31 ∷ 59 ∷ 90 ∷ 120 ∷ 151 ∷ 181 ∷ 212 ∷ 243 ∷ 273 ∷ 304 ∷ 334 ∷ 365 ∷ []

-- The access to the table; `none` is an index behind its end.
abbrev pub at : List ℕ → ℕ → Option ℕ
at [] i = none
at (x ∷ xs) zero = some x
at (x ∷ xs) (suc i) = at xs i

-- The days from the start of the year to the end of a month.
unfoldable pub wych_kd : ℕ → ℕ → Option ℕ
wych_kd year zero = none
wych_kd year (suc index) = elim (at dmounth index) [
  | none ↦ none
  | some kd ↦
      if (year % 4 == 0) && (ltb 1 (suc index) && (not (year % 1000 == 0) && not (year % 400 == 0)))
      then some (suc kd)
      else some kd
]

-- The days of a year as the first loop counts them.
abbrev pub year_length : ℕ → ℕ
year_length year = if year % 4 == 0 then 366 else 365

-- The first loop: the year of a day number that may lie behind the epoch's year, on fuel.
unfoldable pub year_loop : ℕ → ℕ → ℕ → Option (ℕ × ℕ)
year_loop zero year days = none
year_loop (suc fuel) year days =
    let rest = year_loop fuel (suc year) (days - year_length year) in
    if ltb (year_length year) days then rest else some (year, days)

-- The second loop, from a month on. It leaves by a return, or reads behind the end of the table.
unfoldable pub month_loop : ℕ → ℕ → ℕ → ℕ → Option (ℕ × ℕ)
unfolding wych_kd
month_loop zero year month days = none
month_loop (suc fuel) year month days =
    let rest = month_loop fuel year (suc month) days in
    elim (wych_kd year month) [
      | none ↦ none
      | some kd ↦
          if leb days kd
          then (if month == 1 then some (month, days) else elim (wych_kd year (month - 1)) [
            | none ↦ none
            | some before ↦ some (month, days - before)
          ])
          else rest
    ]

-- The date of `DurData`, with fuel for a round per day and for the twelve months.
unfoldable pub dur_data : ℕ → ℕ → Option Date
unfolding year_loop month_loop
dur_data epoch ns = elim (year_loop (suc ns) epoch ns) [
  | none ↦ none
  | some (year, days) ↦ elim (month_loop 13 year 1 days) [
    | none ↦ none
    | some (month, day) ↦ some (record { ng = year; nm = month; nd = day })
  ]
]

-- The time of day of `DurData`: hours, minutes and seconds of a part of a day.
pub record DayTime (D : Type 0) : Type 0 where
  pub nh : ℕ
  pub nmin : ℕ
  pub nc : D

unfoldable pub day_time : (double : Double) → double.D → DayTime double.D
day_time double ts =
    let second : double.D =
      double.mul (double.mul ts (double.decimal 24 0)) (double.decimal 3600 0) in
    let nh = double.to_u32 (double.div second (double.decimal 3600 0)) in
    let left = double.sub second (double.mul (double.from_u64 nh) (double.decimal 3600 0)) in
    let nmin = double.to_u32 (double.div left (double.decimal 60 0)) in
    record {
      nh = nh;
      nmin = nmin;
      nc = double.sub left (double.mul (double.from_u64 nmin) (double.decimal 60 0));
    }

-- The integer part of `Julian_date`: the day that starts at noon. The month is 14 at most, so that
-- the source's `j` is never positive: `back` is its opposite.
unfoldable pub julian_day : ℕ → ℕ → ℕ → ℕ
julian_day year month day =
    let back = (14 - month) / 12 in
    (day + 1461 * (year + 4800 - back) / 4 + 367 * (month + back * 12 - 2) / 12)
    - (32075 + 3 * ((year + 4900 - back) / 100) / 4)

-- `Julian_date`
unfoldable pub julian_date : (double : Double) → ℕ → ℕ → ℕ → double.D → double.D
unfolding julian_day
julian_date double year month day hour =
    double.add (double.sub (double.from_u64 (julian_day year month day)) (double.decimal 5 1))
      (double.div hour (double.decimal 24 0))
