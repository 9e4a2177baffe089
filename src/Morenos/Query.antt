-- ===== src/Morenos/Query.antt =====
-- `struct Query` of Morenos/Scheduler_Model — копия/Query.h, over the type of `double`.
use radar_software.Prelude.{ℕ, Bool}

-- `enum QueryType`
pub data QueryType : Type 0 where
  search_query : QueryType
  confirm : QueryType
  capture : QueryType
  tracking : QueryType
  signal_change : QueryType
  tech_control : QueryType
  drop : QueryType

pub record Query (D : Type 0) : Type 0 where
  pub type : QueryType
  pub id : ℕ
  pub k : D
  pub p_threshold : D
  pub t_prev : ℕ
  pub p_value : D
  pub range : D
  pub rcs : D
  pub active : Bool

-- The constructor; `zero_value` is the literal 0.0.
abbrev pub new_query :
    {D : Type 0} (zero_value : D) → QueryType → ℕ → D → D → ℕ → D → D → Bool → Query D
new_query zero_value type id k threshold time range rcs active = record {
  type = type;
  id = id;
  k = k;
  p_threshold = threshold;
  t_prev = time;
  p_value = zero_value;
  range = range;
  rcs = rcs;
  active = active;
}
