-- ===== src/Utils/FormatString.antt =====
-- `string_format` of Utils/FormatString.h on Linux. What `snprintf` makes of the format and its arguments
-- is a value: its bytes, fewer than 2 ^ 31 - 1, or `none` where it fails.
use Prim.Native.Nat.{zero}
use radar_software.Prelude.{
  ℕ, suc, ◌-◌, ◌*◌, ◌≤◌, ◌<◌, ◌==◌, ◌≡◌, refl, ◌∙◌, ap, inl, inr, false, Option, none, some, List,
  [], ◌∷◌, ◌++◌, if◌then◌else◌, length, ltb, leb, arith, Bool-cases, le→leb, lt→ltb, leb→le,
  leb-false→lt, ==→eq, ==-false→ne,
}

abbrev pub take : {A : Type 0} → ℕ → List A → List A
take zero xs = []
take (suc n) [] = []
take (suc n) (x ∷ xs) = x ∷ take n xs

-- What `snprintf_impl` writes to a buffer, which always ends with a NUL.
abbrev pub snprintf : List ℕ → ℕ → List ℕ
snprintf text size = take (size - 1) text ++ (0 ∷ [])

-- The loop, which tries once more with a larger buffer.
unfoldable pub format_loop : ℕ → Option (List ℕ) → ℕ → Option (List ℕ)
format_loop zero formatted size = none
format_loop (suc fuel) none size = format_loop fuel none (size * 2)
format_loop (suc fuel) (some text) size =
    let needed = length text in
    let rest = format_loop fuel (some text) (if ltb 0 needed then suc needed else size * 2) in
    if leb needed size then some (take needed (snprintf text size)) else rest

abbrev pub string_format : ℕ → Option (List ℕ) → Option (List ℕ)
string_format fuel formatted = format_loop fuel formatted 1024

take_all :
    {A : Type 0} (xs ys : List A) (n : ℕ) → length xs ≤ n → take (length xs) (take n xs ++ ys) ≡ xs
take_all [] ys n h = refl
take_all (x ∷ xs) ys zero h = absurd (omega (arith, h))
take_all (x ∷ xs) ys (suc n) h = ap (λ t. x ∷ t) (take_all xs ys n (omega (arith, h)))

take_full :
    {A : Type 0} (xs : List A) (y : A) (n : ℕ)
    → length xs ≡ suc n
    → take (length xs) (take n xs ++ (y ∷ [])) ≡ take n xs ++ (y ∷ [])
take_full [] y n h = absurd (omega (arith, h))
take_full (x ∷ []) y zero h = refl
take_full (x ∷ x' ∷ xs) y zero h = absurd (omega (arith, h))
take_full (x ∷ xs) y (suc n) h = ap (λ t. x ∷ t) (take_full xs y n (omega (arith, h)))

-- A round with a buffer that the text fits in with its NUL gives the text.
fits :
    (fuel : ℕ) (text : List ℕ) (size : ℕ)
    → length text < size
    → format_loop (suc fuel) (some text) size ≡ some text
unfolding format_loop
fits fuel text size h =
    rw (le→leb (length text) size (omega (arith, h)))
      (ap some (take_all text (0 ∷ []) (size - 1) (omega (arith, h))))

above : (a b : ℕ) → b < a → leb a b ≡ false
above a b h = ground arith

other : (a b : ℕ) → b < a → (a == b) ≡ false
other a b h = ground arith

-- A text that is too long for the buffer gets one of its length and the NUL.
grows :
    (fuel : ℕ) (text : List ℕ)
    → 1024 < length text
    → string_format (suc (suc fuel)) (some text)
      ≡ format_loop (suc fuel) (some text) (suc (length text))
unfolding format_loop
grows fuel text h = rw (above (length text) 1024 h, lt→ltb 0 (length text) (omega (arith, h))) refl

-- A text of exactly 1024 bytes loses its last one for a NUL; every other one is given whole. Two
-- rounds of the loop are enough.
pub string_format_lem :
    (fuel : ℕ) (text : List ℕ)
    → string_format (suc (suc fuel)) (some text)
      ≡ some (if length text == 1024 then take 1023 text ++ (0 ∷ []) else text)
unfolding format_loop
string_format_lem fuel text = elim (Bool-cases (leb (length text) 1024)) [
  | inl small ↦ elim (Bool-cases (length text == 1024)) [
    | inl full ↦ rw (small, full) (ap some (take_full text 0 1023 (==→eq (length text) 1024 full)))
    | inr free ↦ rw free (
        fits (suc fuel) text 1024
          (omega (arith, leb→le (length text) 1024 small, ==-false→ne (length text) 1024 free)))
  ]
  | inr large ↦
      let long = leb-false→lt (length text) 1024 large in
      rw (other (length text) 1024 long)
        (grows fuel text long ∙ fits fuel text (suc (length text)) (omega arith))
]
