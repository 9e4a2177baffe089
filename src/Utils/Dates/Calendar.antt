-- ===== src/Utils/Dates/Calendar.antt =====
-- The dates of utils.cpp against the Gregorian calendar.
use radar_software.Prelude.{
  ℕ, zero, suc, ◌%◌, ◌≤◌, ◌<◌, ◌≡◌, refl, sym, ap, ◌∙◌, ltb→lt, ltb-false→le, inl, inr, Bool, false,
  not, ◌&&◌, ◌||◌, ltb, ◌==◌, if◌then◌else◌, Bool-cases, arith,
}
use radar_software.Utils.Dates.{Date, julian_day}

-- The rule of the calendar.
abbrev pub leap : ℕ → Bool
leap year = (year % 4 == 0) && (not (year % 100 == 0) || (year % 400 == 0))

-- The first of the month that follows a month of the year.
abbrev pub month_days : ℕ → ℕ → ℕ
month_days year month =
    if month == 2
    then (if leap year then 29 else 28)
    else if (month == 4) || ((month == 6) || ((month == 9) || (month == 11)))
    then 30
    else 31

abbrev pub IsDate : Date → Type 0
IsDate date =
    (1 ≤ date.nm) × (date.nm ≤ 12) × (1 ≤ date.nd) × (date.nd ≤ month_days date.ng date.nm)

-- The day after a date.
abbrev pub next_date : Date → Date
next_date date =
    if ltb date.nd (month_days date.ng date.nm)
    then record date { nd = suc date.nd }
    else if ltb date.nm 12
    then record date { nm = suc date.nm; nd = 1 }
    else record { ng = suc date.ng; nm = 1; nd = 1 }

abbrev pub day_of : Date → ℕ
day_of date = julian_day date.ng date.nm date.nd

-- A property of the twelve months, month by month.
pub month_cases :
    (P : ℕ → Type 0)
    → P 1
    → P 2
    → P 3
    → P 4
    → P 5
    → P 6
    → P 7
    → P 8
    → P 9
    → P 10
    → P 11
    → P 12
    → (month : ℕ) → 1 ≤ month
    → month ≤ 12
    → P month
month_cases P a b c d e f g h i j k l zero lo hi = absurd (omega (arith, lo))
month_cases P a b c d e f g h i j k l (suc zero) lo hi = a
month_cases P a b c d e f g h i j k l (suc (suc zero)) lo hi = b
month_cases P a b c d e f g h i j k l (suc (suc (suc zero))) lo hi = c
month_cases P a b c d e f g h i j k l (suc (suc (suc (suc zero)))) lo hi = d
month_cases P a b c d e f g h i j k l (suc (suc (suc (suc (suc zero))))) lo hi = e
month_cases P a b c d e f g h i j k l (suc (suc (suc (suc (suc (suc zero)))))) lo hi = f
month_cases P a b c d e f g h i j k l (suc (suc (suc (suc (suc (suc (suc zero))))))) lo hi = g
month_cases P a b c d e f g h i j k l (suc (suc (suc (suc (suc (suc (suc (suc zero)))))))) lo hi = h
month_cases P a b c d e f g h i j k l (suc (suc (suc (suc (suc (suc (suc (suc (suc zero))))))))) lo
      hi =
    i
month_cases P a b c d e f g h i j k l
      (suc (suc (suc (suc (suc (suc (suc (suc (suc (suc zero)))))))))) lo hi =
    j
month_cases P a b c d e f g h i j k l
      (suc (suc (suc (suc (suc (suc (suc (suc (suc (suc (suc zero))))))))))) lo hi =
    k
month_cases P a b c d e f g h i j k l
      (suc (suc (suc (suc (suc (suc (suc (suc (suc (suc (suc (suc zero)))))))))))) lo hi =
    l
month_cases P a b c d e f g h i j k l
      (suc (suc (suc (suc (suc (suc (suc (suc (suc (suc (suc (suc (suc m))))))))))))) lo hi =
    absurd (omega (arith, hi))

within :
    (year month day : ℕ)
    → 1 ≤ month
    → month ≤ 12
    → julian_day year month (suc day) ≡ suc (julian_day year month day)
unfolding julian_day
within year month day lo hi = omega arith

-- The first of a month is the day after the last of the month before.
abbrev Follows : ℕ → ℕ → Type 0
Follows year month =
    month < 12 → julian_day year (suc month) 1 ≡ suc (julian_day year month (month_days year month))

february : (year : ℕ) → Follows year 2
unfolding julian_day
february year h = ground arith

pub month-Follows : (year month : ℕ) → 1 ≤ month → month ≤ 12 → Follows year month
unfolding julian_day
month-Follows year month lo hi =
    month_cases (Follows year) (λ h. ground arith) (february year) (λ h. ground arith)
      (λ h. ground arith) (λ h. ground arith) (λ h. ground arith) (λ h. ground arith)
      (λ h. ground arith) (λ h. ground arith) (λ h. ground arith) (λ h. ground arith)
      (λ h. absurd (omega (arith, h))) month lo hi

pub year_follows : (year : ℕ) → julian_day (suc year) 1 1 ≡ suc (julian_day year 12 31)
unfolding julian_day
year_follows year = ground arith

year_end :
    (date : Date)
    → date.nm ≡ 12
    → date.nd ≡ month_days date.ng date.nm
    → day_of date ≡ julian_day date.ng 12 31
year_end date e f = rw (f, e) refl

-- The Julian day of the day after a date of the calendar is one more.
pub day_of-next_date : (date : Date) → IsDate date → day_of (next_date date) ≡ suc (day_of date)
day_of-next_date date (lo, hi, first, last) =
    elim (Bool-cases (ltb date.nd (month_days date.ng date.nm))) [
      | inl e ↦ rw e (within date.ng date.nm date.nd lo hi)
      | inr e ↦ elim (Bool-cases (ltb date.nm 12)) [
        | inl f ↦
            rw (e, f)
              (month-Follows date.ng date.nm lo hi (ltb→lt _ _ f)
                ∙ ap (λ day. suc (julian_day date.ng date.nm day)) (sym (last_day e)))
        | inr f ↦
            rw (e, f)
              (year_follows date.ng ∙ ap suc (sym (year_end date (last_month f) (last_day e))))
      ]
    ]
  where
    last_day :
        ltb date.nd (month_days date.ng date.nm) ≡ false → date.nd ≡ month_days date.ng date.nm
    last_day e = omega (arith, last, ltb-false→le _ _ e)

    last_month : ltb date.nm 12 ≡ false → date.nm ≡ 12
    last_month f = omega (arith, hi, ltb-false→le _ _ f)
