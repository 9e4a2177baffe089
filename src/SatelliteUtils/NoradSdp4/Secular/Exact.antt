-- ===== src/SatelliteUtils/NoradSdp4/Secular/Exact.antt =====
-- Times that `double` holds exactly: what the integrator relies on. A double that is a multiple of a
-- power of 2, and not too large, is added, subtracted and compared like an integer.
use radar_software.Prelude.{
  ℕ, ◌+◌, ◌*◌, ◌<◌, ◌≡◌, refl, ◌∙◌, Bool, true, false, if◌then◌else◌, leb, ltb, arith,
}
use radar_software.Prelude.Int.{ℤ, pos, nat_abs, leb_ℤ, ltb_ℤ, ◌+ℤ◌, ◌-ℤ◌, int_laws}
use radar_software.Float.{Floats}
use radar_software.SatelliteUtils.NoradSdp4.Secular.{step, max_integrate}

-- `value` counts the parts of a minute, of which a minute has `tick`.
pub record IsExact {D : Type 0} (floats : Floats D) (value : D → ℤ) (tick : ℕ) : Type 0 where
  pub some_tick : 0 < tick
  pub add_value : (a b : D) → value (floats.add a b) ≡ value a +ℤ value b
  pub sub_value : (a b : D) → value (floats.sub a b) ≡ value a -ℤ value b
  pub neg_value : (a : D) → value (floats.neg a) ≡ pos 0 -ℤ value a
  pub fabs_value : (a : D) → value (floats.fabs a) ≡ pos (nat_abs (value a))
  pub le_value : (a b : D) → floats.le a b ≡ leb_ℤ (value a) (value b)
  pub lt_value : (a b : D) → floats.lt a b ≡ ltb_ℤ (value a) (value b)
  pub zero_value : value (floats.decimal 0 0) ≡ pos 0
  pub one_value : value (floats.decimal 1 0) ≡ pos tick
  pub step_value : value (step floats) ≡ pos (720 * tick)
  pub max_value : value (max_integrate floats) ≡ pos (7200000 * tick)

-- The step forward, or the one back.
abbrev pub stride : {D : Type 0} → Floats D → Bool → D
stride floats forward = if forward then step floats else floats.neg (step floats)

-- The time `t` lies `r` before us, or behind us.
abbrev pub Gap : Bool → ℤ → ℤ → ℕ → Type 0
Gap true a t r = t ≡ a +ℤ pos r
Gap false a t r = a ≡ t +ℤ pos r

ahead : (a : ℤ) (s r : ℕ) → a +ℤ pos (s + r) ≡ a +ℤ pos s +ℤ pos r
ahead a s r = omega int_laws

behind : (t : ℤ) (s r : ℕ) → t +ℤ pos (s + r) +ℤ (pos 0 -ℤ pos s) ≡ t +ℤ pos r
behind t s r = omega int_laws

distance_ahead : (a : ℤ) (r : ℕ) → nat_abs ((a +ℤ pos r) -ℤ a) ≡ r
unfolding ◌+ℤ◌ ◌-ℤ◌
distance_ahead a r = ground arith

distance_behind : (t : ℤ) (r : ℕ) → nat_abs (t -ℤ (t +ℤ pos r)) ≡ r
unfolding ◌+ℤ◌ ◌-ℤ◌
distance_behind t r = ground arith

leb_pos : (m n : ℕ) → leb_ℤ (pos m) (pos n) ≡ leb m n
leb_pos m n = ground arith

ltb_pos : (m n : ℕ) → ltb_ℤ (pos m) (pos n) ≡ ltb m n
ltb_pos m n = ground arith

module _ {D : Type 0} {floats : Floats D} {value : D → ℤ} {tick : ℕ}
    (exact : IsExact floats value tick) where
  pub Gap-stride :
      (forward : Bool) (a t : D) (r : ℕ)
      → Gap forward (value a) (value t) (720 * tick + r)
      → Gap forward (value (floats.add a (stride floats forward))) (value t) r
  Gap-stride true a t r h =
      h ∙ ahead (value a) (720 * tick) r ∙ rw (exact.add_value, exact.step_value) refl
  Gap-stride false a t r h =
      rw (exact.add_value, exact.neg_value, exact.step_value, h) (behind (value t) (720 * tick) r)

  pub Gap-le :
      (forward : Bool) (a t : D) (r : ℕ)
      → Gap forward (value a) (value t) r
      → floats.le (step floats) (floats.fabs (floats.sub t a)) ≡ leb (720 * tick) r
  Gap-le true a t r h =
      rw (exact.le_value, exact.step_value, exact.fabs_value, exact.sub_value, h, distance_ahead)
        (leb_pos (720 * tick) r)
  Gap-le false a t r h =
      rw (exact.le_value, exact.step_value, exact.fabs_value, exact.sub_value, h, distance_behind)
        (leb_pos (720 * tick) r)

  pub far_test :
      (a t : D)
      → floats.lt (max_integrate floats) (floats.fabs (floats.sub t a))
        ≡ ltb (7200000 * tick) (nat_abs (value t -ℤ value a))
  far_test a t =
      rw (exact.lt_value, exact.max_value, exact.fabs_value, exact.sub_value)
        (ltb_pos (7200000 * tick) (nat_abs (value t -ℤ value a)))

  pub step_test :
      (a t : D)
      → floats.le (step floats) (floats.fabs (floats.sub t a))
        ≡ leb (720 * tick) (nat_abs (value t -ℤ value a))
  step_test a t =
      rw (exact.le_value, exact.step_value, exact.fabs_value, exact.sub_value)
        (leb_pos (720 * tick) (nat_abs (value t -ℤ value a)))
