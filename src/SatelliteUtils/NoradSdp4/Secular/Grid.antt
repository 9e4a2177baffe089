-- ===== src/SatelliteUtils/NoradSdp4/Secular/Grid.antt =====
-- The integrator of a resonant orbit: it ends, and it stands on the grid of its steps from the epoch.
use radar_software.Prelude.{
  ℕ, zero, suc, ◌+◌, ◌-◌, ◌*◌, ◌≤◌, ◌<◌, ◌≡◌, refl, sym, ap, ◌∙◌, ◌⊎◌, inl, inr, Bool, true, false,
  ◌||◌, ◌&&◌, some, leb, ltb, arith, leb→le, leb-false→lt, le→ltb-false, ltb→lt, ltb-false→le,
  le→leb, Bool-cases,
}
use mathlib.Core.Path.{subst}
use radar_software.Prelude.Int.{ℤ, pos, nat_abs, leb_ℤ, ltb_ℤ, ◌+ℤ◌, ◌-ℤ◌, int_laws}
use radar_software.Float.{Floats}
use radar_software.SatelliteUtils.NoradSdp4.Secular.{
  Integrator, Epoch, Caught, out_of_fuel, too_far, caught, restarted, needs_restart, advance,
  integrate, approach, catch_up,
}
use radar_software.SatelliteUtils.NoradSdp4.Secular.Exact.{
  IsExact, stride, Gap, Gap-stride, Gap-le, far_test, step_test,
}

module _ {D : Type 0} (floats : Floats D) (dots : Integrator D → Integrator D) where
  -- The integrator after so many steps.
  abbrev pub walked : D → ℕ → Integrator D → Integrator D
  walked delt zero i = i
  walked delt (suc n) i = walked delt n (advance floats dots delt i)

  -- It came from the epoch by steps of one direction.
  abbrev pub IsOnGrid : Epoch D → Integrator D → Type 0
  IsOnGrid epoch i =
      (forward : Bool) × (n : ℕ) × (i ≡ walked (stride floats forward) n (restarted floats epoch))

  -- How it may end for a time: on the grid, and within a step of the time or too far from it.
  abbrev pub Lands : (value : D → ℤ) → ℕ → Epoch D → D → Caught D → Type 0
  Lands value tick epoch tsince out_of_fuel = ⊥
  Lands value tick epoch tsince (too_far i) =
      IsOnGrid epoch i × (7200000 * tick < nat_abs (value tsince -ℤ value i.atime))
  Lands value tick epoch tsince (caught i) =
      IsOnGrid epoch i × (nat_abs (value tsince -ℤ value i.atime) < 720 * tick)

  walked-walked :
      (delt : D) (n m : ℕ) (i : Integrator D)
      → (k : ℕ) × (walked delt m (walked delt n i) ≡ walked delt k i)
  walked-walked delt zero m i = (m, refl)
  walked-walked delt (suc n) m i =
      let (k, e) = walked-walked delt n m (advance floats dots delt i) in (suc k, e)

-- The two ends of a gap.
Gap-of : (forward : Bool) (a t : ℤ) → leb_ℤ a t ≡ forward → Gap forward a t (nat_abs (t -ℤ a))
unfolding ◌+ℤ◌ ◌-ℤ◌
Gap-of true a t h = ground arith
Gap-of false a t h = ground arith

Gap-nat_abs : (forward : Bool) (a t : ℤ) (r : ℕ) → Gap forward a t r → nat_abs (t -ℤ a) ≡ r
unfolding ◌+ℤ◌ ◌-ℤ◌
Gap-nat_abs true a t r h = rw h (ground arith)
Gap-nat_abs false a t r h = rw h (ground arith)

Gap-trans :
    (forward : Bool) (a b t : ℤ) (r s : ℕ)
    → Gap forward a b r
    → Gap forward b t s
    → Gap forward a t (r + s)
Gap-trans true a b t r s h k = rw (k, h) (omega int_laws)
Gap-trans false a b t r s h k = rw (h, k) (omega int_laws)

Gap-none : (forward : Bool) (a : ℤ) → Gap forward a a 0
Gap-none true a = omega int_laws
Gap-none false a = omega int_laws

back_again : (a : ℤ) (s : ℕ) → a ≡ a +ℤ (pos 0 -ℤ pos s) +ℤ pos s
back_again a s = omega int_laws

-- Away from 0, a time that is not behind by more than a tick, and a step away, lies ahead.
way_ahead :
    (a t : ℤ) (tick r : ℕ)
    → 0 < tick
    → 720 * tick ≤ r
    → a ≡ pos 0 +ℤ pos r
    → (ltb_ℤ (pos 0) a && ltb_ℤ t (a -ℤ pos tick)) ≡ false
    → 720 * tick ≤ nat_abs (t -ℤ a)
    → leb_ℤ a t ≡ true
unfolding ◌+ℤ◌ ◌-ℤ◌
way_ahead a t tick r ticks far h free apart = ground arith

way_back :
    (a t : ℤ) (tick r : ℕ)
    → 0 < tick
    → 720 * tick ≤ r
    → pos 0 ≡ a +ℤ pos r
    → (ltb_ℤ a (pos 0) && ltb_ℤ (a +ℤ pos tick) t) ≡ false
    → 720 * tick ≤ nat_abs (t -ℤ a)
    → leb_ℤ a t ≡ false
unfolding ◌+ℤ◌ ◌-ℤ◌
way_back a t tick r ticks far h free apart = ground arith

or_false : (a b c : Bool) → (a || b || c) ≡ false → (b ≡ false) × (c ≡ false)
or_false a b c h = ground arith

budget : ℕ → ℕ → ℕ
budget zero s = 0
budget (suc fuel) s = s + budget fuel s

budget-mul : (fuel s : ℕ) → budget fuel s ≡ fuel * s
unfolding budget
budget-mul zero s = omega arith
budget-mul (suc fuel) s = grind (arith, budget-mul fuel s)

budget_enough : (fuel tick : ℕ) → 10000 ≤ fuel → 7200000 * tick ≤ budget fuel (720 * tick)
budget_enough fuel tick h = grind (arith, budget-mul fuel (720 * tick))

module _ {D : Type 0} {floats : Floats D} {value : D → ℤ} {tick : ℕ}
    (exact : IsExact floats value tick) (dots : Integrator D → Integrator D)
    (keeps : (i : Integrator D) → (dots i).atime ≡ i.atime) where
  Gap-advance :
      (forward : Bool) (i : Integrator D) (tsince : D) (r : ℕ)
      → Gap forward (value i.atime) (value tsince) (720 * tick + r)
      → Gap forward (value (advance floats dots (stride floats forward) i).atime) (value tsince) r
  unfolding advance
  Gap-advance forward i tsince r h = rw keeps (Gap-stride exact forward i.atime tsince r h)

  Gap-step :
      (forward : Bool) (i : Integrator D)
      → Gap forward
          (value i.atime)
          (value (advance floats dots (stride floats forward) i).atime)
          (720 * tick)
  unfolding advance
  Gap-step true i = rw (keeps, exact.add_value, exact.step_value) refl
  Gap-step false i =
      rw (keeps, exact.add_value, exact.neg_value, exact.step_value)
        (back_again (value i.atime) (720 * tick))

  integrate_lem :
      (forward : Bool) (fuel r : ℕ) (i : Integrator D) (tsince : D)
      → Gap forward (value i.atime) (value tsince) r
      → 720 * tick ≤ r
      → r ≤ budget fuel (720 * tick)
      → (m : ℕ) × (integrate floats dots fuel (stride floats forward) tsince i
          ≡ some (walked floats dots (stride floats forward) m i))
        × (nat_abs (value tsince -ℤ value (walked floats dots (stride floats forward) m i).atime)
            < 720 * tick)
  unfolding integrate budget
  integrate_lem forward zero r i tsince h near far = absurd (omega (arith, exact.some_tick))
  integrate_lem forward (suc fuel) r i tsince h near far =
      let i' = advance floats dots (stride floats forward) i in
      let left : ℕ = r - 720 * tick in
      let split : r ≡ 720 * tick + left = omega (arith, near) in
      let gap : Gap forward (value i'.atime) (value tsince) left =
        Gap-advance forward i tsince left
          (subst (λ x. Gap forward (value i.atime) (value tsince) x) split h) in
      let test = Gap-le exact forward i'.atime tsince left gap in
      elim (Bool-cases (leb (720 * tick) left)) [
        | inl more ↦
            let (m, e, b) =
              integrate_lem forward fuel left i' tsince gap (leb→le _ _ more)
                (omega (arith, far)) in
            (suc m, rw (test, more) e, b)
        | inr done ↦ (
          suc zero,
          rw (test, done) refl,
          omega (
            arith,
            Gap-nat_abs forward (value i'.atime) (value tsince) left gap,
            leb-false→lt (720 * tick) left done,
          ),
        )
      ]

  -- Where a walk stands that made a step: in its direction, at least a step away.
  walked_away :
      (forward : Bool) (n : ℕ) (i : Integrator D)
      → (r : ℕ) × Gap forward
          (value i.atime)
          (value (walked floats dots (stride floats forward) n i).atime)
          r
        × ((n ≡ 0) ⊎ (720 * tick ≤ r))
  walked_away forward zero i = (0, Gap-none forward (value i.atime), inl refl)
  walked_away forward (suc n) i =
      let i' = advance floats dots (stride floats forward) i in
      let (r, gap, far) = walked_away forward n i' in
      (720 * tick + r, Gap-trans forward _ _ _ _ _ (Gap-step forward i) gap, inr (omega arith))

  no_restart :
      (i : Integrator D) (tsince : D)
      → needs_restart floats tsince i ≡ false
      → ((floats.lt (floats.decimal 0 0) i.atime
            && floats.lt tsince (floats.sub i.atime (floats.decimal 1 0)))
          ≡ false)
        × ((floats.lt i.atime (floats.decimal 0 0)
              && floats.lt (floats.add i.atime (floats.decimal 1 0)) tsince)
            ≡ false)
  unfolding needs_restart
  no_restart i tsince free = or_false _ _ _ free

  -- Without a restart a time that is a step away lies in the direction of the walk.
  direction :
      (forward : Bool) (i : Integrator D) (tsince : D) (r : ℕ)
      → 720 * tick ≤ r
      → Gap forward (pos 0) (value i.atime) r
      → needs_restart floats tsince i ≡ false
      → 720 * tick ≤ nat_abs (value tsince -ℤ value i.atime)
      → floats.le i.atime tsince ≡ forward
  direction true i tsince r far gap free apart =
      exact.le_value _ _
      ∙ way_ahead (value i.atime) (value tsince) tick r exact.some_tick far gap
          (rw
            (
              exact.lt_value (floats.decimal 0 0) i.atime,
              exact.lt_value tsince (floats.sub i.atime (floats.decimal 1 0)),
              exact.zero_value,
              exact.sub_value,
              exact.one_value,
            )
            at ((no_restart i tsince free).0))
          apart
  direction false i tsince r far gap free apart =
      exact.le_value _ _
      ∙ way_back (value i.atime) (value tsince) tick r exact.some_tick far gap
          (rw
            (
              exact.lt_value i.atime (floats.decimal 0 0),
              exact.lt_value (floats.add i.atime (floats.decimal 1 0)) tsince,
              exact.zero_value,
              exact.add_value,
              exact.one_value,
            )
            at ((no_restart i tsince free).1))
          apart

  same_way :
      (forward : Bool) (n : ℕ) (epoch : Epoch D) (i : Integrator D) (tsince : D)
      → i ≡ walked floats dots (stride floats forward) n (restarted floats epoch)
      → needs_restart floats tsince i ≡ false
      → 720 * tick ≤ nat_abs (value tsince -ℤ value i.atime)
      → (n ≡ 0) ⊎ (floats.le i.atime tsince ≡ forward)
  unfolding restarted
  same_way forward n epoch i tsince at_grid free apart =
      let (r, gap, far) = walked_away forward n (restarted floats epoch) in
      let gap' : Gap forward (pos 0) (value i.atime) r =
        subst (λ j. Gap forward (pos 0) (value j.atime) r) (sym at_grid)
          (subst
            (λ z.
              Gap forward z
                (value
                  (walked floats dots (stride floats forward) n (restarted floats epoch)).atime)
                r)
            exact.zero_value gap) in
      elim far [
        | inl z ↦ inl z
        | inr away ↦ inr (direction forward i tsince r away gap' free apart)
      ]

  -- The integration from a place on the grid in the direction of the time.
  arrive :
      (fuel : ℕ) (forward : Bool) (n : ℕ) (epoch : Epoch D) (i : Integrator D) (tsince : D)
      → i ≡ walked floats dots (stride floats forward) n (restarted floats epoch)
      → floats.le i.atime tsince ≡ forward
      → 720 * tick ≤ nat_abs (value tsince -ℤ value i.atime)
      → nat_abs (value tsince -ℤ value i.atime) ≤ 7200000 * tick
      → 7200000 * tick ≤ budget fuel (720 * tick)
      → (i' : Integrator D) × (integrate floats dots fuel (stride floats forward) tsince i
          ≡ some i')
        × IsOnGrid floats dots epoch i'
        × (nat_abs (value tsince -ℤ value i'.atime) < 720 * tick)
  arrive fuel forward n epoch i tsince at_grid way apart near enough =
      let r = nat_abs (value tsince -ℤ value i.atime) in
      let (m, e, b) =
        integrate_lem forward fuel r i tsince
          (Gap-of forward (value i.atime) (value tsince) (sym (exact.le_value _ _) ∙ way)) apart
          (omega arith) in
      let i' = walked floats dots (stride floats forward) m i in
      let (k, walk) =
        walked-walked floats dots (stride floats forward) n m (restarted floats epoch) in
      (i', e, (forward, k, ap (walked floats dots (stride floats forward) m) at_grid ∙ walk), b)

  -- A time that is a step away and not too far.
  travel :
      (fuel : ℕ) (epoch : Epoch D) (i : Integrator D) (tsince : D)
      → 7200000 * tick ≤ budget fuel (720 * tick)
      → 720 * tick ≤ nat_abs (value tsince -ℤ value i.atime)
      → nat_abs (value tsince -ℤ value i.atime) ≤ 7200000 * tick
      → (forward : Bool) (n : ℕ)
      → i ≡ walked floats dots (stride floats forward) n (restarted floats epoch)
      → floats.le i.atime tsince ≡ forward
      → Lands floats dots value tick epoch tsince (approach floats dots fuel tsince i)
  unfolding approach
  travel fuel epoch i tsince enough apart near forward n at_grid way =
      let (i', e, grid, b) = arrive fuel forward n epoch i tsince at_grid way apart near enough in
      rw
        (
          far_test exact i.atime tsince,
          step_test exact i.atime tsince,
          le→ltb-false _ _ near,
          le→leb _ _ apart,
          way,
          e,
        )
        (grid, b)

  set_out :
      (fuel : ℕ) (epoch : Epoch D) (i : Integrator D) (tsince : D)
      → 7200000 * tick ≤ budget fuel (720 * tick)
      → 720 * tick ≤ nat_abs (value tsince -ℤ value i.atime)
      → nat_abs (value tsince -ℤ value i.atime) ≤ 7200000 * tick
      → IsOnGrid floats dots epoch i
      → (i ≡ restarted floats epoch) ⊎ (needs_restart floats tsince i ≡ false)
      → Lands floats dots value tick epoch tsince (approach floats dots fuel tsince i)
  set_out fuel epoch i tsince enough apart near grid (inl start) =
      travel fuel epoch i tsince enough apart near (floats.le i.atime tsince) zero start refl
  set_out fuel epoch i tsince enough apart near (forward, n, at_grid) (inr free) =
      elim (same_way forward n epoch i tsince at_grid free apart) [
        | inr way ↦ travel fuel epoch i tsince enough apart near forward n at_grid way
        | inl stays ↦
            travel fuel epoch i tsince enough apart near (floats.le i.atime tsince) zero
              (subst
                (λ m. i ≡ walked floats dots (stride floats forward) m (restarted floats epoch))
                stays at_grid)
              refl
      ]

  -- From a place on the grid that needs no restart, or from the epoch itself.
  land :
      (fuel : ℕ) (epoch : Epoch D) (i : Integrator D) (tsince : D)
      → 7200000 * tick ≤ budget fuel (720 * tick)
      → IsOnGrid floats dots epoch i
      → (i ≡ restarted floats epoch) ⊎ (needs_restart floats tsince i ≡ false)
      → Lands floats dots value tick epoch tsince (approach floats dots fuel tsince i)
  unfolding approach
  land fuel epoch i tsince enough grid how =
      let r = nat_abs (value tsince -ℤ value i.atime) in
      elim (Bool-cases (ltb (7200000 * tick) r)) [
        | inl far ↦ rw (far_test exact i.atime tsince, far) (grid, ltb→lt _ _ far)
        | inr near ↦ elim (Bool-cases (leb (720 * tick) r)) [
          | inr close ↦
              rw (far_test exact i.atime tsince, step_test exact i.atime tsince, near, close)
                (grid, leb-false→lt _ _ close)
          | inl apart ↦
              set_out fuel epoch i tsince enough (leb→le _ _ apart) (ltb-false→le _ _ near) grid how
        ]
      ]

  -- In exact arithmetic, an integrator that stands on the grid of its steps from the epoch, for any time:
  -- with fuel for 10000 steps the loop ends, the integrator stands on the grid again, and either it is
  -- less than a step away from the time, or the time is more than 10000 steps away and refused.
  pub catch_up-IsOnGrid :
      (fuel : ℕ) (epoch : Epoch D) (i : Integrator D) (tsince : D)
      → 10000 ≤ fuel
      → IsOnGrid floats dots epoch i
      → Lands floats dots value tick epoch tsince (catch_up floats dots fuel epoch tsince i)
  unfolding catch_up
  catch_up-IsOnGrid fuel epoch i tsince long grid =
      elim (Bool-cases (needs_restart floats tsince i)) [
        | inl again ↦ rw again (
            land fuel epoch (restarted floats epoch) tsince (budget_enough fuel tick long)
              (true, zero, refl) (inl refl))
        | inr free ↦
            rw free (land fuel epoch i tsince (budget_enough fuel tick long) grid (inr free))
      ]
