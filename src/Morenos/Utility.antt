-- ===== src/Morenos/Utility.antt =====
-- `multiples_of` of Morenos/Scheduler_Model — копия/Utility.h: a time rounded up to a multiple.
use native.Mathlib.Nat.{mod-lt, mod-eq_of_lt, mul-mod_left, div-add-mod'}
use radar_software.Prelude.{
  ℕ, ◌+◌, ◌*◌, ◌/◌, ◌%◌, ◌≤◌, ◌<◌, ◌≡◌, inl, inr, false, arith, ◌==◌, if◌then◌else◌, u32_mod,
  u64_mod, Bool-cases, ==→eq, eq→==, ==-false→ne,
}

-- The template at a word type of `modulus` values. The floor of an integer quotient is that quotient;
-- it goes through a `double`, which is exact below 2 ^ 53.
unfoldable pub multiples_of : ℕ → ℕ → ℕ → ℕ
multiples_of modulus value number =
    if value % number == 0 then value else (value / number + 1) * number % modulus

abbrev pub multiples_of32 : ℕ → ℕ → ℕ
multiples_of32 value number = multiples_of u32_mod value number

abbrev pub multiples_of64 : ℕ → ℕ → ℕ
multiples_of64 value number = multiples_of u64_mod value number

-- For a positive factor, where the next multiple fits the word, the result is the least multiple
-- that is not below the value.
pub multiples_of_least :
    (modulus value number : ℕ)
    → 0 < number
    → value + number < modulus
    → (multiples_of modulus value number % number ≡ 0)
      × (value ≤ multiples_of modulus value number)
      × (multiples_of modulus value number < value + number)
unfolding multiples_of
multiples_of_least modulus value number h fits = elim (Bool-cases (value % number == 0)) [
  | inl e ↦ rw e (==→eq _ _ e, omega arith, omega arith)
  | inr e ↦
      rw (e, mod-eq_of_lt (next_fits e))
        (
          mul-mod_left (value / number + 1) number,
          omega (arith, div-add-mod' value number, mod-lt value h),
          next_below e,
        )
]
  where
    next_below : (value % number == 0) ≡ false → (value / number + 1) * number < value + number
    next_below e = omega (arith, div-add-mod' value number, ==-false→ne _ _ e)

    next_fits : (value % number == 0) ≡ false → (value / number + 1) * number < modulus
    next_fits e = omega (arith, next_below e)

-- A multiple is left as it is.
pub multiples_of_multiple :
    (modulus value number : ℕ) → value % number ≡ 0 → multiples_of modulus value number ≡ value
unfolding multiples_of
multiples_of_multiple modulus value number e = rw (eq→== _ _ e)
