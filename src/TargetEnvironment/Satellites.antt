-- ===== src/TargetEnvironment/Satellites.antt =====
-- The satellites of the catalogue as the server uses them: what `process_request` of
-- Target Environment/Server/Server.cpp asks of an entry and of its model.
use radar_software.Prelude.{
  ℕ, String, List, none, some, [], ◌∷◌, map, ◌≡◌, refl, ◌∙◌, inl, inr, Option-cases, on_test,
}
use radar_software.Double.{Double}
use radar_software.Float.{Floats}
use radar_software.CoordinateSystems.Points.{EcefPoint, GcsPoint}
use radar_software.CoordinateSystems.Eigen.{Eigen as Algebra}
use radar_software.SatelliteUtils.Vector3.{Vect3, zero_vect}
use radar_software.SatelliteUtils.NoradBase.{cs_gsc}
use radar_software.SatelliteUtils.NoradSgdp4.{CalcData}
use radar_software.SatelliteUtils.Norad.{Norad, new_norad, position_of}
use radar_software.TargetEnvironment.Catalog.{Keo}
use radar_software.TargetEnvironment.TargetTable.{Target}
use radar_software.TargetEnvironment.Request.{
  Sky, Tm, SearchArea, points, describe, find_targets, sector_check, elapsed,
}

-- An entry with its model, and the warnings of its predictions.
pub record CatalogSatellite (D : Type 0) : Type 0 where
  pub entry : Keo D
  pub norad : Norad D
  pub errors : ℕ

module _ {D : Type 0} (floats : Floats D) (fuel : ℕ) (rdotk : D) (cd : CalcData D) where
  -- An entry as it was read, with its new model. Its warnings, which the source leaves unset, are none.
  abbrev pub new_satellite : Keo D → CatalogSatellite D
  new_satellite entry = record { entry = entry; norad = new_norad floats entry; errors = 0 }

  -- A prediction. Its result is not asked for: a position that was not computed is the one before.
  unfoldable pub satellite_position :
      CatalogSatellite D → D → EcefPoint D → CatalogSatellite D × EcefPoint D
  unfolding position_of
  satellite_position item elapsed_time point =
      let v0 : Vect3 D = record { x = point.x; y = point.y; z = point.z } in
      elim (position_of floats fuel rdotk cd item.entry item.norad item.errors elapsed_time v0
        (zero_vect floats) cs_gsc) [
          | none ↦ (item, point)
          | some (norad, reply) ↦ (
            record item { norad = norad; errors = reply.errors },
            record { x = reply.v0.x; y = reply.v0.y; z = reply.v0.z },
          )
        ]

  satellite_position-entry :
      (item : CatalogSatellite D) (t : D) (point : EcefPoint D)
      → (satellite_position item t point).0.entry ≡ item.entry
  unfolding satellite_position
  satellite_position-entry item t point =
      elim (Option-cases (
        position_of floats fuel rdotk cd item.entry item.norad item.errors t
          (record { x = point.x; y = point.y; z = point.z }) (zero_vect floats) cs_gsc)) [
            | inl e ↦ rw (satellite_position, e) refl
            | inr (r, e) ↦ rw (satellite_position, e) refl
          ]

-- The sky of the satellites of a catalogue.
abbrev pub catalog_sky :
    (double : Double) (floats : Floats double.D) (fuel : ℕ) (rdotk : double.D)
    (cd : CalcData double.D)
    → Algebra double.D
    → (product : List double.D → List double.D → List double.D)
    → (gmtime : ℕ → Tm) (print_size : ℕ → String) (print_item : Target double.D → String)
    → Sky double
catalog_sky double floats fuel rdotk cd eigen product gmtime print_size print_item = record {
  floats = floats;
  eigen = eigen;
  product = product;
  Satellite = CatalogSatellite double.D;
  number = λ s. s.entry.orbit.elements.number;
  jd = λ s. s.entry.jd;
  get_position = satellite_position floats fuel rdotk cd;
  gmtime = gmtime;
  print_size = print_size;
  print_item = print_item;
}

module _ (double : Double) (floats : Floats double.D) (fuel : ℕ) (rdotk : double.D)
    (cd : CalcData double.D) (eigen : Algebra double.D)
    (product : List double.D → List double.D → List double.D) (gmtime : ℕ → Tm)
    (print_size : ℕ → String) (print_item : Target double.D → String) where
  abbrev sky : Sky double
  sky = catalog_sky double floats fuel rdotk cd eigen product gmtime print_size print_item

  points-entry :
      (ns : List ℕ) (item : CatalogSatellite double.D) (t : double.D) (v0 : EcefPoint double.D)
      → (points sky ns item t v0).0.entry ≡ item.entry
  unfolding points
  points-entry [] item t v0 = refl
  points-entry (n ∷ ns) item t v0 =
      points-entry ns _ t _ ∙ satellite_position-entry floats fuel rdotk cd item _ v0

  describe-entry :
      (item : CatalogSatellite double.D) (t : double.D) (v0 : EcefPoint double.D)
      → (describe sky item t v0).0.entry ≡ item.entry
  unfolding describe
  describe-entry item t v0 = points-entry (1 ∷ 2 ∷ 3 ∷ 4 ∷ 5 ∷ []) item t v0

  -- What a request changes in the satellites of the catalogue is in their models and their warnings: the
  -- entries stay, each at its place.
  pub find_targets-entry :
      (ref_time : double.D) (area : SearchArea double.D) (radar : GcsPoint double.D)
      (satellites : List (CatalogSatellite double.D))
      → map (λ s. s.entry) (find_targets sky ref_time area radar satellites).0
        ≡ map (λ s. s.entry) satellites
  unfolding find_targets
  find_targets-entry ref_time area radar [] = refl
  find_targets-entry ref_time area radar (item ∷ rest) =
      let others = find_targets-entry ref_time area radar rest in
      let t = elapsed sky ref_time item in
      let zero = double.decimal 0 0 in
      let next =
        satellite_position floats fuel rdotk cd item t (record { x = zero; y = zero; z = zero }) in
      let now : next.0.entry ≡ item.entry =
        satellite_position-entry floats fuel rdotk cd item t _ in
      on_test
        (λ (r : List (CatalogSatellite double.D) × List (Target double.D)).
          map (λ s. s.entry) r.0 ≡ map (λ s. s.entry) (item ∷ rest))
        (sector_check sky next.1 area radar)
        (λ _. rw (describe-entry next.0 t next.1 ∙ now, others) refl) (λ _. rw (now, others) refl)
