-- ===== src/CoordinateSystems/Eigen.antt =====
-- What the conversions use of the library Eigen: vectors and matrices of three, with the products.

pub record Vector3d (D : Type 0) : Type 0 where
  pub x : D
  pub y : D
  pub z : D

-- `of_entries` is a matrix of zeros with its coefficients then set, row by row.
pub record Eigen (D : Type 0) : Type 1 where
  pub Matrix3d : Type 0
  pub of_entries : (a00 a01 a02 a10 a11 a12 a20 a21 a22 : D) → Matrix3d
  pub mul : Matrix3d → Matrix3d → Matrix3d
  pub transpose : Matrix3d → Matrix3d
  pub apply : Matrix3d → Vector3d D → Vector3d D
  pub plus : Vector3d D → Vector3d D → Vector3d D
  pub minus : Vector3d D → Vector3d D → Vector3d D
