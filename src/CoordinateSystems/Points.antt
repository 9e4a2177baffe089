-- ===== src/CoordinateSystems/Points.antt =====
-- The points of CoordinateSystems/CSPoints.h.
pub record EnuPoint (D : Type 0) : Type 0 where
  pub x : D
  pub y : D
  pub z : D

pub record CcsaPoint (D : Type 0) : Type 0 where
  pub x : D
  pub y : D
  pub z : D

pub record BcsPoint (D : Type 0) : Type 0 where
  pub r : D
  pub beta : D
  pub epsilon : D

pub record EcefPoint (D : Type 0) : Type 0 where
  pub x : D
  pub y : D
  pub z : D

pub record GcsPoint (D : Type 0) : Type 0 where
  pub latitude : D
  pub longitude : D
  pub altitude : D

pub record SphPoint (D : Type 0) : Type 0 where
  pub r : D
  pub theta : D
  pub phi : D
