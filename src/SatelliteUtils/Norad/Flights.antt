-- ===== src/SatelliteUtils/Norad/Flights.antt =====
-- The predictions of a satellite of the catalogue, one after another.
use radar_software.Prelude.{
  ℕ, ◌≤◌, ◌≡◌, refl, sym, ◌⊎◌, inl, inr, true, false, Option, none, some, arith, on_test,
}
use mathlib.Core.Path.{subst}
use radar_software.Prelude.Int.{ℤ}
use radar_software.Double.{Double}
use radar_software.Float.{Floats}
use radar_software.TargetEnvironment.Catalog.{
  Keo, IMode, sgdp4_zero_ecc, sgdp4_deep_norm, sgdp4_near_simp, sgdp4_near_norm, choose_mode,
}
use radar_software.TargetEnvironment.Catalog.Orbits.{Orbit}
use radar_software.SatelliteUtils.Errors.{
  warn, em_small_a_warn, em_small_e_warn, em_big_e_warn, em_integr_warn,
}
use radar_software.SatelliteUtils.Vector3.{Vect3}
use radar_software.SatelliteUtils.NoradBase.{CsType}
use radar_software.SatelliteUtils.NoradSgdp4.{Sgdp4, CalcData, Reply, init_calc_data, get_position}
use radar_software.SatelliteUtils.NoradSgdp4.Warnings.{Puts, IsWarned, get_position-IsWarned}
use radar_software.SatelliteUtils.NoradSgp4.{
  Sgp4, new_sgp4, position_near, near_simp, near_norm, elements_at,
}
use radar_software.SatelliteUtils.NoradSdp4.{
  Sdp4, Predicted, new_sdp4, predict, perturbed, resonant, deep_data, conclude, position_deep,
  dots_of,
}
use radar_software.SatelliteUtils.NoradSdp4.Secular.{
  Caught, out_of_fuel, too_far, caught, catch_up, DeepCalcData,
}
use radar_software.SatelliteUtils.NoradSdp4.Secular.Exact.{IsExact}
use radar_software.SatelliteUtils.NoradSdp4.Kept.{
  if_not, IsSound, EndsWell, position_deep-EndsWell, new_sdp4-IsSound,
}
use radar_software.SatelliteUtils.Norad.{Norad, circular, near, far, new_norad, position_of}

-- The warnings that a prediction may put in.
abbrev pub IsWarning : ℕ → Type 0
IsWarning mask =
    (mask ≡ em_small_a_warn)
    ⊎ (mask ≡ em_small_e_warn)
    ⊎ (mask ≡ em_big_e_warn)
    ⊎ (mask ≡ em_integr_warn)

warn-integr : (errors : ℕ) → Puts em_integr_warn errors (warn errors em_integr_warn)
unfolding warn
warn-integr errors = ground arith

-- The prediction succeeds without a warning, or it fails with one and leaves the vectors.
abbrev pub IsAnswer : {D : Type 0} → ℕ → Vect3 D → Vect3 D → Reply D → Type 0
IsAnswer errors v0 v1 r =
    ((r.ok ≡ true) × (r.errors ≡ errors))
    ⊎ ((mask : ℕ) × (r.ok ≡ false)
        × (r.v0 ≡ v0)
        × (r.v1 ≡ v1)
        × Puts mask errors r.errors
        × IsWarning mask)

module _ {D : Type 0} (floats : Floats D) where
  IsWarned-IsAnswer :
      (g : Sgdp4 D) (cd : CalcData D) (errors : ℕ) (v0 v1 : Vect3 D) (r : Reply D)
      → IsWarned floats g cd errors v0 v1 r
      → IsAnswer errors v0 v1 r
  IsWarned-IsAnswer g cd errors v0 v1 r (inl h) = inl h
  IsWarned-IsAnswer g cd errors v0 v1 r (inr (mask, failed, same, also, puts, cause)) = inr (
    mask,
    failed,
    same,
    also,
    puts,
    elim cause [
      | inl h ↦ inl h.0
      | inr (inl h) ↦ inr (inl h.0)
      | inr (inr h) ↦ inr (inr (inl h.0))
    ],
  )

  answered :
      (g : Sgdp4 D) (cd : CalcData D) (jd : D) (errors : ℕ) (v0 v1 : Vect3 D)
      → IsAnswer errors v0 v1 (get_position floats jd g cd errors v0 v1)
  answered g cd jd errors v0 v1 =
      IsWarned-IsAnswer g cd errors v0 v1 _ (get_position-IsWarned floats g cd jd errors v0 v1)

  position_near-IsAnswer :
      (jd : D) (keo : Orbit D) (m : Sgp4 D) (cd : CalcData D) (errors : ℕ) (tsince : D)
      (v0 v1 : Vect3 D) (cs : CsType)
      → (m.imode ≡ sgdp4_near_simp) ⊎ (m.imode ≡ sgdp4_near_norm)
      → IsAnswer errors v0 v1 (position_near floats jd keo m cd errors tsince v0 v1 cs)
  unfolding position_near
  position_near-IsAnswer jd keo m cd errors tsince v0 v1 cs (inl h) =
      let c =
        elements_at floats keo
          (near_simp floats keo m (init_calc_data floats keo m.base tsince cs cd)) in
      let same : position_near floats jd keo m cd errors tsince v0 v1 cs
          ≡ get_position floats jd m.base c errors v0 v1 =
        rw h refl in
      subst (IsAnswer errors v0 v1) (sym same) (answered m.base c jd errors v0 v1)
  position_near-IsAnswer jd keo m cd errors tsince v0 v1 cs (inr h) =
      let c =
        elements_at floats keo
          (near_norm floats keo m (init_calc_data floats keo m.base tsince cs cd)) in
      let same : position_near floats jd keo m cd errors tsince v0 v1 cs
          ≡ get_position floats jd m.base c errors v0 v1 =
        rw h refl in
      subst (IsAnswer errors v0 v1) (sym same) (answered m.base c jd errors v0 v1)

  -- What a prediction with the model for far orbits replies, if it ends.
  abbrev Answered : ℕ → Vect3 D → Vect3 D → Option (Predicted D) → Type 0
  Answered errors v0 v1 none = Unit
  Answered errors v0 v1 (some p) = IsAnswer errors v0 v1 p.reply

  predict-IsAnswer :
      (jd : D) (keo : Orbit D) (m : Sdp4 D) (dcd : DeepCalcData D) (errors : ℕ) (v0 v1 : Vect3 D)
      → IsAnswer errors v0 v1 (predict floats jd keo m dcd errors v0 v1).reply
  unfolding predict
  predict-IsAnswer jd keo m dcd errors v0 v1 =
      let p = perturbed floats keo m dcd in answered p.1 p.0 jd errors v0 v1

  conclude-Answered :
      (jd : D) (keo : Orbit D) (m : Sdp4 D) (dcd : DeepCalcData D) (errors : ℕ) (v0 v1 : Vect3 D)
      (c : Caught D)
      → Answered errors v0 v1 (conclude floats jd keo m dcd errors v0 v1 c)
  unfolding conclude
  conclude-Answered jd keo m dcd errors v0 v1 out_of_fuel = tt
  conclude-Answered jd keo m dcd errors v0 v1 (too_far i) =
      inr (em_integr_warn, refl, refl, refl, warn-integr errors, inr (inr (inr refl)))
  conclude-Answered jd keo m dcd errors v0 v1 (caught i) =
      predict-IsAnswer jd keo (record m { integrator = i }) (resonant floats m i dcd) errors v0 v1

  position_deep-Answered :
      (fuel : ℕ) (jd : D) (keo : Orbit D) (m : Sdp4 D) (cd : CalcData D) (errors : ℕ) (tsince : D)
      (v0 v1 : Vect3 D) (cs : CsType)
      → Answered errors v0 v1 (position_deep floats fuel jd keo m cd errors tsince v0 v1 cs)
  unfolding position_deep
  position_deep-Answered fuel jd keo m cd errors tsince v0 v1 cs =
      if_not (Answered errors v0 v1) m.resonance.iresfl _ _
        (λ e.
          conclude-Answered jd keo m (deep_data floats keo m cd tsince cs) errors v0 v1
            (catch_up floats (dots_of floats keo m) fuel m.epoch tsince m.integrator))
        (λ e. predict-IsAnswer jd keo m (deep_data floats keo m cd tsince cs) errors v0 v1)

-- A model that was made for an entry and predicted any number of times.
pub data Flown {D : Type 0} (floats : Floats D) (entry : Keo D) (fuel : ℕ) : Norad D → Type 0 where
  made : {m : Norad D} → m ≡ new_norad floats entry → Flown floats entry fuel m
  flown :
      {m' : Norad D} (rdotk : D) (cd : CalcData D) (errors : ℕ) (tsince : D) (v0 v1 : Vect3 D)
      (cs : CsType) (m : Norad D) (r : Norad D × Reply D)
      → Flown floats entry fuel m
      → position_of floats fuel rdotk cd entry m errors tsince v0 v1 cs ≡ some r
      → m' ≡ r.0
      → Flown floats entry fuel m'

-- The modes that the reader chooses from.
abbrev IsChosen : IMode → Type 0
IsChosen imode =
    (imode ≡ sgdp4_zero_ecc)
    ⊎ (imode ≡ sgdp4_deep_norm)
    ⊎ (imode ≡ sgdp4_near_simp)
    ⊎ (imode ≡ sgdp4_near_norm)

choose_mode-IsChosen :
    (double : Double) (orbit : Orbit double.D) → IsChosen (choose_mode double orbit)
unfolding choose_mode
choose_mode-IsChosen double orbit =
    on_test IsChosen (double.le orbit.elements.eccentricity (double.decimal 0 0)) (λ _. inl refl)
      (λ _.
        on_test IsChosen (double.le (double.decimal 225 0) orbit.recovered.period)
          (λ _. inr (inl refl))
          (λ _.
            on_test IsChosen (double.lt orbit.recovered.perigee_r (double.decimal 220 0))
              (λ _. inr (inr (inl refl))) (λ _. inr (inr (inr refl)))))

-- A prediction ends with an answer.
abbrev pub Lands : {D : Type 0} → ℕ → Vect3 D → Vect3 D → Option (Norad D × Reply D) → Type 0
Lands errors v0 v1 none = ⊥
Lands errors v0 v1 (some r) = IsAnswer errors v0 v1 r.1

module _ {D : Type 0} (floats : Floats D) (entry : Keo D) where
  abbrev IsKept : Norad D → Type 0
  IsKept circular = Unit
  IsKept (near m) = (m.imode ≡ sgdp4_near_simp) ⊎ (m.imode ≡ sgdp4_near_norm)
  IsKept (far m) = IsSound floats entry.orbit m

  abbrev LandsKept : ℕ → Vect3 D → Vect3 D → Option (Norad D × Reply D) → Type 0
  LandsKept errors v0 v1 none = ⊥
  LandsKept errors v0 v1 (some r) = IsAnswer errors v0 v1 r.1 × IsKept r.0

module _ {D : Type 0} {floats : Floats D} {value : D → ℤ} {tick : ℕ}
    (exact : IsExact floats value tick) (entry : Keo D) where
  made_far :
      entry.imode ≡ sgdp4_deep_norm
      → new_norad floats entry ≡ far (new_sdp4 floats entry.orbit entry.epoch)
  unfolding new_norad
  made_far h = rw h refl

  made_near :
      (imode : IMode)
      → (imode ≡ sgdp4_near_simp) ⊎ (imode ≡ sgdp4_near_norm)
      → entry.imode ≡ imode
      → new_norad floats entry ≡ near (new_sgp4 floats entry.orbit imode)
  unfolding new_norad
  made_near imode (inl e) h = rw (h, e) refl
  made_near imode (inr e) h = rw (h, e) refl

  new_sgp4-imode : (imode : IMode) → (new_sgp4 floats entry.orbit imode).imode ≡ imode
  unfolding new_sgp4
  new_sgp4-imode imode = refl

  new_norad-IsKept : IsChosen entry.imode → IsKept floats entry (new_norad floats entry)
  unfolding new_norad
  new_norad-IsKept (inl h) = rw h tt
  new_norad-IsKept (inr (inl h)) =
      subst (IsKept floats entry) (sym (made_far h))
        (new_sdp4-IsSound floats entry.orbit exact entry.epoch)
  new_norad-IsKept (inr (inr (inl h))) =
      subst (IsKept floats entry) (sym (made_near sgdp4_near_simp (inl refl) h))
        (inl (new_sgp4-imode sgdp4_near_simp))
  new_norad-IsKept (inr (inr (inr h))) =
      subst (IsKept floats entry) (sym (made_near sgdp4_near_norm (inr refl) h))
        (inr (new_sgp4-imode sgdp4_near_norm))

  both :
      (errors : ℕ) (tsince : D) (v0 v1 : Vect3 D) (m : Sdp4 D) (o : Option (Predicted D))
      → EndsWell floats entry.orbit value tick tsince errors v0 v1 m o
      → Answered floats errors v0 v1 o
      → LandsKept floats entry errors v0 v1
          (elim o [ none ↦ none | some p ↦ some (far p.model, p.reply) ])
  both errors tsince v0 v1 m none h a = elim h [ ]
  both errors tsince v0 v1 m (some p) h a = (a, h.0)

  position_of-LandsKept :
      (fuel : ℕ) (rdotk : D) (cd : CalcData D) (m : Norad D) (errors : ℕ) (tsince : D)
      (v0 v1 : Vect3 D) (cs : CsType)
      → 10000 ≤ fuel
      → IsKept floats entry m
      → LandsKept floats entry errors v0 v1
          (position_of floats fuel rdotk cd entry m errors tsince v0 v1 cs)
  unfolding position_of
  position_of-LandsKept fuel rdotk cd circular errors tsince v0 v1 cs long h =
      (inl (refl, refl), tt)
  position_of-LandsKept fuel rdotk cd (near m) errors tsince v0 v1 cs long h =
      (position_near-IsAnswer floats entry.jd entry.orbit m cd errors tsince v0 v1 cs h, h)
  position_of-LandsKept fuel rdotk cd (far m) errors tsince v0 v1 cs long h =
      both errors tsince v0 v1 m
        (position_deep floats fuel entry.jd entry.orbit m cd errors tsince v0 v1 cs)
        (position_deep-EndsWell floats entry.orbit exact fuel entry.jd m cd errors tsince v0 v1 cs
          long h)
        (position_deep-Answered floats fuel entry.jd entry.orbit m cd errors tsince v0 v1 cs)

  LandsKept-IsKept :
      (errors : ℕ) (v0 v1 : Vect3 D) (o : Option (Norad D × Reply D)) (r : Norad D × Reply D)
      → LandsKept floats entry errors v0 v1 o
      → o ≡ some r
      → IsKept floats entry r.0
  LandsKept-IsKept errors v0 v1 none r h e = elim h [ ]
  LandsKept-IsKept errors v0 v1 (some q) r h e =
      let same : q ≡ r = cc in subst (λ (a : Norad D × Reply D). IsKept floats entry a.0) same h.1

  Flown-IsKept :
      {fuel : ℕ} {m : Norad D}
      → 10000 ≤ fuel
      → IsChosen entry.imode
      → Flown floats entry fuel m
      → IsKept floats entry m
  Flown-IsKept long chosen (made same) =
      subst (IsKept floats entry) (sym same) (new_norad-IsKept chosen)
  Flown-IsKept {fuel = fuel} long chosen (flown rdotk cd errors tsince v0 v1 cs m r before e same) =
      subst (IsKept floats entry) (sym same) (
        LandsKept-IsKept errors v0 v1 _ r
          (position_of-LandsKept fuel rdotk cd m errors tsince v0 v1 cs long
            (Flown-IsKept long chosen before))
          e)

  LandsKept-Lands :
      (errors : ℕ) (v0 v1 : Vect3 D) (o : Option (Norad D × Reply D))
      → LandsKept floats entry errors v0 v1 o
      → Lands errors v0 v1 o
  LandsKept-Lands errors v0 v1 none h = h
  LandsKept-Lands errors v0 v1 (some r) h = h.0

-- In exact arithmetic, a satellite of the catalogue whose model was chosen by the reader, and has made
-- any predictions before, with fuel for 10000 steps: a prediction for any time ends, and it succeeds
-- and leaves the warnings as they are, or it fails, leaves the position and the velocity, and puts in
-- one warning: a failure is never silent.
pub position_of-Flown :
    (double : Double) (floats : Floats double.D) (value : double.D → ℤ) (tick : ℕ)
    (entry : Keo double.D) (fuel : ℕ) (m : Norad double.D) (rdotk : double.D)
    (cd : CalcData double.D) (errors : ℕ) (tsince : double.D) (v0 v1 : Vect3 double.D) (cs : CsType)
    → IsExact floats value tick
    → 10000 ≤ fuel
    → entry.imode ≡ choose_mode double entry.orbit
    → Flown floats entry fuel m
    → Lands errors v0 v1 (position_of floats fuel rdotk cd entry m errors tsince v0 v1 cs)
position_of-Flown double floats value tick entry fuel m rdotk cd errors tsince v0 v1 cs exact long
      chosen before =
    LandsKept-Lands exact entry errors v0 v1 _ (
      position_of-LandsKept exact entry fuel rdotk cd m errors tsince v0 v1 cs long (
        Flown-IsKept exact entry long
          (subst IsChosen (sym chosen) (choose_mode-IsChosen double entry.orbit)) before))
