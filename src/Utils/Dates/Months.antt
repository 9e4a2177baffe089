-- ===== src/Utils/Dates/Months.antt =====
-- The second loop of `DurData`: the month and the day of a day number of the year.
use radar_software.Prelude.{
  ℕ, zero, suc, ◌+◌, ◌-◌, ◌%◌, ◌≤◌, ◌<◌, ◌≡◌, refl, inl, inr, ==→eq, ==-false→ne, ap, Bool, true,
  false, Option, some, leb, ◌==◌, if◌then◌else◌, Bool-cases, arith, leb→le, leb-false→lt,
}
use radar_software.Utils.Dates.{wych_kd, month_loop, julian_day}
use radar_software.Utils.Dates.Calendar.{month_days, IsDate, month_cases, month-Follows}

-- The days of a year up to the end of a month, by Julian days.
abbrev pub month_end : ℕ → ℕ → ℕ
month_end year month = julian_day year month (month_days year month) + 1 - julian_day year 1 1

abbrev Ends : ℕ → ℕ → Type 0
Ends year month = wych_kd year month ≡ some (month_end year month)

some_if :
    (b : Bool) (m n k : ℕ)
    → (b ≡ true → m ≡ k)
    → (b ≡ false → n ≡ k)
    → (if b then some m else some n) ≡ some k
some_if true m n k h i = ap some (h refl)
some_if false m n k h i = ap some (i refl)

month-Ends : (year month : ℕ) → ¬ (year % 100 ≡ 0) → 1 ≤ month → month ≤ 12 → Ends year month
unfolding wych_kd julian_day
month-Ends year month h lo hi =
    month_cases (Ends year) (some_if _ _ _ _ (λ e. ground arith) (λ e. ground arith))
      (some_if _ _ _ _ (λ e. ground arith) (λ e. ground arith))
      (some_if _ _ _ _ (λ e. ground arith) (λ e. ground arith))
      (some_if _ _ _ _ (λ e. ground arith) (λ e. ground arith))
      (some_if _ _ _ _ (λ e. ground arith) (λ e. ground arith))
      (some_if _ _ _ _ (λ e. ground arith) (λ e. ground arith))
      (some_if _ _ _ _ (λ e. ground arith) (λ e. ground arith))
      (some_if _ _ _ _ (λ e. ground arith) (λ e. ground arith))
      (some_if _ _ _ _ (λ e. ground arith) (λ e. ground arith))
      (some_if _ _ _ _ (λ e. ground arith) (λ e. ground arith))
      (some_if _ _ _ _ (λ e. ground arith) (λ e. ground arith))
      (some_if _ _ _ _ (λ e. ground arith) (λ e. ground arith)) month lo hi

-- Days of one month are numbered one by one, and later months have later days.
numbered :
    (year month day : ℕ)
    → 1 ≤ month
    → month ≤ 12
    → 1 ≤ day
    → julian_day year month day + 1 ≡ julian_day year month 1 + day
unfolding julian_day
numbered year month day lo hi first = omega arith

later : (year month : ℕ) → 1 ≤ month → month ≤ 12 → julian_day year 1 1 ≤ julian_day year month 1
unfolding julian_day
later year month lo hi = omega arith

some_days : (year month : ℕ) → 1 ≤ month_days year month
some_days year month = ground arith

-- The rounds of the loop.
loop_first :
    (fuel year days kd : ℕ)
    → wych_kd year 1 ≡ some kd
    → leb days kd ≡ true
    → month_loop (suc fuel) year 1 days ≡ some (1, days)
unfolding month_loop
loop_first fuel year days kd e f = cc

loop_here :
    (fuel year month days kd before : ℕ)
    → 1 ≤ month
    → wych_kd year (suc month) ≡ some kd
    → leb days kd ≡ true
    → wych_kd year month ≡ some before
    → month_loop (suc fuel) year (suc month) days ≡ some (suc month, days - before)
unfolding month_loop
loop_here fuel year month days kd before lo e f g =
    let previous : suc month - 1 ≡ month = omega arith in
    let other : (suc month == 1) ≡ false = ground arith in cc

loop_next :
    (fuel year month days kd : ℕ)
    → wych_kd year month ≡ some kd
    → leb days kd ≡ false
    → month_loop (suc fuel) year month days ≡ month_loop fuel year (suc month) days
unfolding month_loop
loop_next fuel year month days kd e f = cc

-- A month and its day for a day number of the year.
abbrev pub Found : ℕ → ℕ → Option (ℕ × ℕ) → Type 0
Found year days result =
    (month : ℕ) × (day : ℕ) × (result ≡ some (month, day))
    × IsDate (record { ng = year; nm = month; nd = day })
    × (julian_day year month day + 1 ≡ julian_day year 1 1 + days)

found_first :
    (fuel year days : ℕ)
    → ¬ (year % 100 ≡ 0)
    → 1 ≤ days
    → leb days (month_end year 1) ≡ true
    → Found year days (month_loop (suc fuel) year 1 days)
unfolding julian_day
found_first fuel year days h first e = (
  1,
  days,
  loop_first fuel year days _ (month-Ends year 1 h (omega arith) (omega arith)) e,
  (omega arith, omega arith, first, omega (arith, leb→le _ _ e)),
  omega arith,
)

found_here :
    (fuel year month days : ℕ)
    → ¬ (year % 100 ≡ 0)
    → 1 ≤ month
    → month < 12
    → month_end year month < days
    → leb days (month_end year (suc month)) ≡ true
    → Found year days (month_loop (suc fuel) year (suc month) days)
found_here fuel year month days h lo hi started e =
    let day = days - month_end year month in
    let next = month-Follows year month lo (omega (arith, hi)) hi in
    let before = later year month lo (omega (arith, hi)) in
    let last =
      numbered year month (month_days year month) lo (omega (arith, hi)) (some_days year month) in
    let after =
      numbered year (suc month) (month_days year (suc month)) (omega arith) hi
        (some_days year (suc month)) in
    let this = numbered year (suc month) day (omega arith) hi (omega (arith, started)) in
    (
      suc month,
      day,
      loop_here fuel year month days _ _ lo (month-Ends year (suc month) h (omega arith) hi) e
          (month-Ends year month h lo (omega (arith, hi))),
      (omega arith, hi, omega (arith, started), omega (arith, started, leb→le _ _ e)),
      omega (arith, started),
    )

not_last :
    (year month days : ℕ)
    → month < 12
    → days ≤ month_end year 12
    → leb days (month_end year (suc month)) ≡ false
    → suc month < 12
not_last year month days hi inside e = elim (Bool-cases (suc month == 12)) [
  | inl f ↦
      let here : month_end year (suc month) ≡ month_end year 12 =
        ap (month_end year) (==→eq _ _ f) in
      absurd (omega (arith, here, leb-false→lt _ _ e, inside))
  | inr f ↦ omega (arith, hi, ==-false→ne _ _ f)
]

-- From a month on that starts before the day, in a year that ends behind it.
found_from :
    (fuel year month days : ℕ)
    → ¬ (year % 100 ≡ 0)
    → 1 ≤ month
    → month < 12
    → month + fuel ≡ 13
    → month_end year month < days
    → days ≤ month_end year 12
    → Found year days (month_loop fuel year (suc month) days)
found_from zero year month days h lo hi count started inside = absurd (omega (arith, hi, count))
found_from (suc fuel) year month days h lo hi count started inside =
    elim (Bool-cases (leb days (month_end year (suc month)))) [
      | inl e ↦ found_here fuel year month days h lo hi started e
      | inr e ↦
          rw
            (loop_next fuel year (suc month) days _ (month-Ends year (suc month) h (omega arith) hi)
              e)
            (found_from fuel year (suc month) days h (omega arith)
              (not_last year month days hi inside e) (omega (arith, count)) (leb-false→lt _ _ e)
              inside)
    ]

pub found :
    (year days : ℕ)
    → ¬ (year % 100 ≡ 0)
    → 1 ≤ days
    → days ≤ month_end year 12
    → Found year days (month_loop 13 year 1 days)
found year days h first inside = elim (Bool-cases (leb days (month_end year 1))) [
  | inl e ↦ found_first 12 year days h first e
  | inr e ↦ rw (loop_next 12 year 1 days _ (month-Ends year 1 h (omega arith) (omega arith)) e) (
      found_from 12 year 1 days h (omega arith) (omega arith) (omega arith) (leb-false→lt _ _ e)
        inside)
]
