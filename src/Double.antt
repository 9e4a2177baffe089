-- ===== src/Double.antt =====
-- The type `double` with what the sources do with it. Nothing is assumed of the operations here: a
-- theorem that needs a law of the order takes it as a hypothesis.
use radar_software.Prelude.{ℕ, ◌≡◌, Bool, true, false}

pub record Double : Type 1 where
  pub D : Type 0
  pub add : D → D → D
  pub sub : D → D → D
  pub mul : D → D → D
  pub div : D → D → D
  pub sqrt : D → D
  pub pow : D → D → D
  pub sin : D → D
  pub ceil : D → D
  pub lt : D → D → Bool
  pub le : D → D → Bool
  -- The literal `m * 10 ^ -e`.
  pub decimal : (m e : ℕ) → D
  -- Conversions from and to unsigned integers.
  pub from_u64 : ℕ → D
  pub to_u64 : D → ℕ
  pub to_u32 : D → ℕ

-- `<` orders the values that are not NaN: it is asymmetric, and so is its negation transitive.
pub record IsWeakOrder {D : Type 0} (lt : D → D → Bool) : Type 0 where
  pub asym : (a b : D) → lt a b ≡ true → lt b a ≡ false
  pub not_trans : (a b c : D) → lt a b ≡ false → lt b c ≡ false → lt a c ≡ false
