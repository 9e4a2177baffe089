-- ===== src/TargetEnvironment/ComputeParams.antt =====
-- The parameters of a target in Target Environment/Server/ComputeParams.cpp: six points of each coordinate
-- fitted by a polynomial of degree five. Eigen's product is a parameter.
use radar_software.Prelude.{ℕ, List, [], ◌∷◌}
use radar_software.Float.{Floats}
use radar_software.TargetEnvironment.TargetTable.{Target}

module _ {D : Type 0} (floats : Floats D) where
  open floats use {neg, decimal}

  -- `x_data`, by columns: the inverse of the matrix of the powers of the times.
  abbrev pub x_data : List D
  x_data =
      decimal 1000000000002234 15
      ∷ neg (decimal 228333333348094 15)
      ∷ decimal 37500000004917 15
      ∷ neg (decimal 4250000000822 15)
      ∷ decimal 300000000074 15
      ∷ neg (decimal 10000000003 15)
      ∷ neg (decimal 7910 15)
      ∷ decimal 500000000076929 15
      ∷ neg (decimal 128333333351056 15)
      ∷ decimal 17750000003601 15
      ∷ neg (decimal 1400000000315 15)
      ∷ decimal 50000000013 15
      ∷ decimal 12434 15
      ∷ neg (decimal 500000000104629 15)
      ∷ decimal 178333333385611 15
      ∷ neg (decimal 29500000004713 15)
      ∷ decimal 2600000000584 15
      ∷ neg (decimal 100000000022 15)
      ∷ neg (decimal 10440 15)
      ∷ decimal 333333333430922 15
      ∷ neg (decimal 130000000007785 15)
      ∷ decimal 24500000011848 15
      ∷ neg (decimal 2400000000351 15)
      ∷ decimal 100000000020 15
      ∷ decimal 4659 15
      ∷ neg (decimal 125000000035072 15)
      ∷ decimal 50833333378961 15
      ∷ neg (decimal 10249999987836 15)
      ∷ decimal 1100000000941 15
      ∷ neg (decimal 50000000010 15)
      ∷ neg (decimal 821 15)
      ∷ decimal 20000000012828 15
      ∷ neg (decimal 8333333295482 15)
      ∷ decimal 1750000025723 15
      ∷ neg (decimal 199999997919 15)
      ∷ decimal 10000000002 15
      ∷ []

  -- `product` multiplies a matrix of six rows, given by columns, with a vector.
  module _ (product : List D → List D → List D) where
    abbrev pub comp_par_helper : List D → List D
    comp_par_helper points = product x_data points

    unfoldable pub compute_params : ℕ → (points_x points_y points_z : List D) → Target D
    compute_params id points_x points_y points_z = record {
      target_id = id;
      x = comp_par_helper points_x;
      y = comp_par_helper points_y;
      z = comp_par_helper points_z;
    }
