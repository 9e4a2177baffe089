-- ===== src/Utils/Dates/Years.antt =====
-- `DurData`: the date of a day number from an epoch's year, and its Julian day.
use radar_software.Prelude.{
  ℕ, zero, suc, ◌+◌, ◌-◌, ◌/◌, ◌%◌, ◌≤◌, ◌<◌, ◌≡◌, refl, inl, inr, ◌∙◌, Option, some, ltb,
  Bool-cases, arith, ltb→lt, ltb-false→le, true, false,
}
use radar_software.Utils.Dates.{Date, year_length, year_loop, dur_data, julian_day, month_loop}
use radar_software.Utils.Dates.Calendar.{IsDate, day_of, year_follows}
use radar_software.Utils.Dates.Months.{month_end, found}

-- The year of a day number: the year that the loop ends with, and the days left in it.
abbrev YearFound : ℕ → ℕ → Option (ℕ × ℕ) → Type 0
YearFound epoch ns result =
    (year : ℕ) × (days : ℕ) × (result ≡ some (year, days))
    × (epoch ≤ year)
    × (year ≤ epoch + ns / 365)
    × (1 ≤ days)
    × (days ≤ month_end year 12)
    × (julian_day year 1 1 + days ≡ julian_day epoch 1 1 + ns)

year_days : (year : ℕ) → ¬ (year % 100 ≡ 0) → month_end year 12 ≡ year_length year
unfolding julian_day
year_days year h = ground arith

loop_stays :
    (fuel year days : ℕ)
    → ltb (year_length year) days ≡ false
    → year_loop (suc fuel) year days ≡ some (year, days)
unfolding year_loop
loop_stays fuel year days e = cc

loop_goes :
    (fuel year days : ℕ)
    → ltb (year_length year) days ≡ true
    → year_loop (suc fuel) year days ≡ year_loop fuel (suc year) (days - year_length year)
unfolding year_loop
loop_goes fuel year days e = cc

shorter : (ns length : ℕ) → 365 ≤ length → length < ns → suc ((ns - length) / 365) ≤ ns / 365
shorter ns length long h = omega arith

year_found :
    (fuel epoch ns : ℕ)
    → ns < fuel
    → 1 ≤ ns
    → ((year : ℕ) → epoch ≤ year → year ≤ epoch + ns / 365 → ¬ (year % 100 ≡ 0))
    → YearFound epoch ns (year_loop fuel epoch ns)
year_found zero epoch ns enough first h = absurd (omega (arith, enough))
year_found (suc fuel) epoch ns enough first h =
    let length = year_length epoch in
    let here : ¬ (epoch % 100 ≡ 0) = h epoch (omega arith) (omega arith) in
    let days = year_days epoch here in
    let long : (365 ≤ year_length epoch) × (year_length epoch ≤ 366) =
      (ground arith, ground arith) in
    elim (Bool-cases (ltb length ns)) [
      | inl e ↦
          let (year, rest, f, lo, hi, some_left, inside, number) =
            year_found fuel (suc epoch) (ns - length) (omega (arith, enough, long.0))
              (omega (arith, ltb→lt _ _ e))
              (λ year lo hi.
                h year (omega (arith, lo))
                  (omega (arith, hi, shorter ns length long.0 (ltb→lt _ _ e)))) in
          (
            year,
            rest,
            loop_goes fuel epoch ns e ∙ f,
            omega (arith, lo),
            omega (arith, hi, shorter ns length long.0 (ltb→lt _ _ e)),
            some_left,
            inside,
            omega (arith, number, ltb→lt _ _ e, days, long.0, year_follows epoch),
          )
      | inr e ↦ (
        epoch,
        ns,
        loop_stays fuel epoch ns e,
        omega arith,
        omega arith,
        first,
        omega (arith, days, ltb-false→le _ _ e),
        refl,
      )
    ]

dur_data_found :
    (epoch ns year days month day : ℕ)
    → year_loop (suc ns) epoch ns ≡ some (year, days)
    → month_loop 13 year 1 days ≡ some (month, day)
    → dur_data epoch ns ≡ some (record { ng = year; nm = month; nd = day })
unfolding dur_data
dur_data_found epoch ns year days month day e f = cc

-- For a day number from 1 on, counted from the start of the epoch's year, where none of the years
-- from the epoch's on that it can reach is a multiple of 100, `DurData` ends with a date of the
-- Gregorian calendar, and the Julian day of that date is `ns - 1` days behind the epoch's first of January.
pub dur_data-IsDate :
    (epoch ns : ℕ)
    → 1 ≤ ns
    → ((year : ℕ) → epoch ≤ year → year ≤ epoch + ns / 365 → ¬ (year % 100 ≡ 0))
    → (date : Date) × (dur_data epoch ns ≡ some date)
      × IsDate date
      × (day_of date + 1 ≡ julian_day epoch 1 1 + ns)
dur_data-IsDate epoch ns first h =
    let (year, days, e, lo, hi, some_left, inside, number) =
      year_found (suc ns) epoch ns (omega arith) first h in
    let (month, day, f, valid, same) = found year days (h year lo hi) some_left inside in
    (
      record { ng = year; nm = month; nd = day },
      dur_data_found epoch ns year days month day e f,
      valid,
      omega (arith, number, same),
    )
