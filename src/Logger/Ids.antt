-- ===== src/Logger/Ids.antt =====
-- The numbers that the sessions are given.

use radar_software.Prelude.{
  ℕ, zero, suc, ◌+◌, ◌≤◌, ◌<◌, ◌==◌, ◌≡◌, refl, ap, ◌∙◌, inl, inr, ◌⊎◌, Bool, true, false, Option,
  none, some, arith, Bool-cases, ==-false→ne, ==→eq,
}
use radar_software.ConfigManager.{system_exception}
use radar_software.ConfigManager.Values.{returns, throws}
use radar_software.Logger.{Platform, Logger, check_id, generate, guard, choose_id}

-- The draws before one are all taken.
abbrev pub AllTaken : (ℕ → Bool) → (ℕ → ℕ) → ℕ → ℕ → Type 0
AllTaken taken draw from to = (k : ℕ) → from ≤ k → k < to → taken (draw k) ≡ true

-- The loop gives the first draw that is not taken, or throws when the draws that it has are all taken.
abbrev pub IsFirst : (ℕ → Bool) → (ℕ → ℕ) → ℕ → ℕ → Option ℕ → Type 0
IsFirst taken draw from to result =
    ((k : ℕ) × (result ≡ some (draw k))
      × (from ≤ k)
      × (k < to)
      × (taken (draw k) ≡ false)
      × AllTaken taken draw from k)
    ⊎ ((result ≡ none) × AllTaken taken draw from to)

taken_too :
    (taken : ℕ → Bool) (draw : ℕ → ℕ) (from to : ℕ)
    → taken (draw from) ≡ true
    → AllTaken taken draw (suc from) to
    → AllTaken taken draw from to
taken_too taken draw from to e rest k lo hi = elim (Bool-cases (k == from)) [
  | inl same ↦ ap (λ n. taken (draw n)) (==→eq _ _ same) ∙ e
  | inr other ↦ rest k (omega (arith, lo, ==-false→ne _ _ other)) hi
]

generate-IsFirst :
    (taken : ℕ → Bool) (draw : ℕ → ℕ) (left k to : ℕ)
    → k + left ≡ to
    → IsFirst taken draw k to (generate taken draw left k)
unfolding generate
generate-IsFirst taken draw zero k to e = inr (refl, λ j lo hi. absurd (omega (arith, lo, hi, e)))
generate-IsFirst taken draw (suc left) k to e = elim (Bool-cases (taken (draw k))) [
  | inr free ↦ rw free (
      inl (k, refl, omega arith, omega (arith, e), free, λ j lo hi. absurd (omega (arith, lo, hi))))
  | inl used ↦ rw used (elim (generate-IsFirst taken draw left (suc k) to (omega (arith, e))) [
    | inl (n, found, lo, hi, free, before) ↦
        inl (n, found, omega (arith, lo), hi, free, taken_too taken draw k n used before)
    | inr (none_, all) ↦ inr (none_, taken_too taken draw k to used all)
  ])
]

module _ (platform : Platform) where
  -- The number that a session without a number gets is that of no file, and the first such of the
  -- numbers drawn; the call throws only if the first thousand are all taken.
  pub choose_id-IsFirst :
      (draw : ℕ → ℕ) (l : Logger platform) (disk : platform.Disk)
      → ((k : ℕ) × (choose_id platform draw 0 l disk ≡ returns (draw k))
          × (k < guard)
          × (check_id platform l disk (draw k) ≡ false)
          × AllTaken (check_id platform l disk) draw 0 k)
        ⊎ ((choose_id platform draw 0 l disk ≡ throws system_exception)
            × AllTaken (check_id platform l disk) draw 0 guard)
  unfolding choose_id
  choose_id-IsFirst draw l disk =
      elim (generate-IsFirst (check_id platform l disk) draw guard 0 guard refl) [
        | inl (k, found, lo, hi, free, before) ↦ inl (k, cc, hi, free, before)
        | inr (none_, all) ↦ inr (cc, all)
      ]
