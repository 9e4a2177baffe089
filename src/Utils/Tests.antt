-- ===== src/Utils/Tests.antt =====
-- The theorems about the helpers at concrete inputs.
use radar_software.Prelude.{suc, ◌+◌, ◌≡◌, refl, none, some, List, [], ◌∷◌, arith, true}
use radar_software.Utils.Dates.{Date, dur_data, julian_day}
use radar_software.Utils.Dates.Calendar.{IsDate, day_of, next_date, day_of-next_date}
use radar_software.Utils.Dates.Years.{dur_data-IsDate}
use radar_software.Utils.FormatString.{string_format, string_format_lem}
use radar_software.Utils.Log.{new_logger, finish}
use radar_software.Utils.Log.Written.{
  Call, log_call, reset_call, calls, logged, written, written-finish-calls,
}

-- Day 60 of 2016 is the 29th of February, and the 1st of January 2000 has the Julian day 2451545.
leap_day : dur_data 2016 60 ≡ some (record { ng = 2016; nm = 2; nd = 29 })
unfolding dur_data
leap_day = refl

day_2000 : julian_day 2000 1 1 ≡ 2451545
unfolding julian_day
day_2000 = refl

-- In 2000 the loop counts 366 days and the table 365: the last one is behind the end of the table.
lost_day : dur_data 2000 366 ≡ none
unfolding dur_data
lost_day = refl

dur_data_example :
    (date : Date) × (dur_data 2015 425 ≡ some date)
    × IsDate date
    × (day_of date + 1 ≡ julian_day 2015 1 1 + 425)
dur_data_example = dur_data-IsDate 2015 425 (omega arith) (λ year lo hi. ground (arith, lo, hi))

next_date_example :
    day_of (next_date (record { ng = 2015; nm = 12; nd = 31 }))
    ≡ suc (day_of (record { ng = 2015; nm = 12; nd = 31 }))
next_date_example =
    day_of-next_date (record { ng = 2015; nm = 12; nd = 31 })
      (omega arith, omega arith, omega arith, omega arith)

abbrev two_files : List Call
two_files = log_call "start" ∷ log_call "scan" ∷ reset_call ∷ log_call "stop" ∷ []

written_example : written (finish (calls two_files (new_logger true))) ≡ logged two_files
written_example = written-finish-calls two_files

string_format_example : string_format 2 (some (72 ∷ 105 ∷ [])) ≡ some (72 ∷ 105 ∷ [])
string_format_example = string_format_lem 0 (72 ∷ 105 ∷ [])
