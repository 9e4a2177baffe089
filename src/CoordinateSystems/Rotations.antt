-- ===== src/CoordinateSystems/Rotations.antt =====
-- A matrix that turns about an axis, and its transpose: each takes back the other.
use radar_software.Prelude.{◌≡◌, refl, sym, ap, ◌∙◌}
use radar_software.Float.{Floats}
use radar_software.CoordinateSystems.Eigen.{Vector3d, Eigen as Algebra}
use radar_software.CoordinateSystems.Exact.{IsRing, IsAlgebra, row}

module _ {D : Type 0} {floats : Floats D} (ring : IsRing floats) where
  infixl 65 ◌+◌
  infixl 70 ◌*◌
  open floats use {add as ◌+◌, mul as ◌*◌, neg, decimal}

  pub zero-add : (a : D) → decimal 0 0 + a ≡ a
  zero-add a = ring.add_comm _ _ ∙ ring.add-zero a

  pub zero-mul : (a : D) → decimal 0 0 * a ≡ decimal 0 0
  zero-mul a = ring.mul_comm _ _ ∙ ring.mul-zero a

  one-mul : (a : D) → decimal 1 0 * a ≡ a
  one-mul a = ring.mul_comm _ _ ∙ ring.mul-one a

  pub exchange : (a b c d : D) → (a + b) + (c + d) ≡ (a + c) + (b + d)
  exchange a b c d =
      ring.add_assoc a b (c + d)
      ∙ ap (λ t. a + t)
          (sym (ring.add_assoc b c d) ∙ ap (λ t. t + d) (ring.add_comm b c) ∙ ring.add_assoc c b d)
      ∙ sym (ring.add_assoc a c (b + d))

  add-mul : (a b c : D) → (a + b) * c ≡ a * c + b * c
  add-mul a b c =
      ring.mul_comm (a + b) c ∙ ring.mul-add c a b ∙ rw (ring.mul_comm c a, ring.mul_comm c b) refl

  -- Two rows after one another, on two coordinates.
  rows :
      (a b c d e f x z : D)
      → a * (c * x + d * z) + b * (e * x + f * z) ≡ (a * c + b * e) * x + (a * d + b * f) * z
  rows a b c d e f x z = simp (ring.mul-add, add-mul, ring.mul_assoc) (exchange _ _ _ _)

  pub row_t : (a b c : D) (v : Vector3d D) → row floats a b c v ≡ a * v.x + b * v.y + c * v.z
  row_t a b c v = refl

  -- A row with one coefficient of 0, and a row of the fixed axis.
  row_01 : (a b : D) (v : Vector3d D) → row floats a b (decimal 0 0) v ≡ a * v.x + b * v.y
  row_01 a b v = row_t _ _ _ v ∙ rw (zero-mul v.z, ring.add-zero (a * v.x + b * v.y)) refl

  row_02 : (a b : D) (v : Vector3d D) → row floats a (decimal 0 0) b v ≡ a * v.x + b * v.z
  row_02 a b v = row_t _ _ _ v ∙ rw (zero-mul v.y, ring.add-zero (a * v.x)) refl

  row_12 : (a b : D) (v : Vector3d D) → row floats (decimal 0 0) a b v ≡ a * v.y + b * v.z
  row_12 a b v = row_t _ _ _ v ∙ rw (zero-mul v.x, zero-add (a * v.y)) refl

  row_0 : (v : Vector3d D) → row floats (decimal 1 0) (decimal 0 0) (decimal 0 0) v ≡ v.x
  row_0 v =
      row_t _ _ _ v
      ∙ rw (zero-mul v.y, zero-mul v.z, one-mul v.x, ring.add-zero v.x) (ring.add-zero v.x)

  row_1 : (v : Vector3d D) → row floats (decimal 0 0) (decimal 1 0) (decimal 0 0) v ≡ v.y
  row_1 v =
      row_t _ _ _ v ∙ rw (zero-mul v.x, zero-mul v.z, one-mul v.y, zero-add v.y) (ring.add-zero v.y)

  row_2 : (v : Vector3d D) → row floats (decimal 0 0) (decimal 0 0) (decimal 1 0) v ≡ v.z
  row_2 v =
      row_t _ _ _ v
      ∙ rw (zero-mul v.x, zero-mul v.y, one-mul v.z, ring.add-zero (decimal 0 0)) (zero-add v.z)

  neg-neg : (a : D) → neg (neg a) ≡ a
  neg-neg a =
      sym (zero-add (neg (neg a)))
      ∙ ap (λ t. t + neg (neg a)) (sym (ring.add-neg a))
      ∙ ring.add_assoc a (neg a) (neg (neg a))
      ∙ ap (λ t. a + t) (ring.add-neg (neg a))
      ∙ ring.add-zero a

  neg-mul : (a b : D) → neg a * b ≡ neg (a * b)
  neg-mul a b = ring.mul_comm (neg a) b ∙ ring.mul-neg b a ∙ ap neg (ring.mul_comm b a)

  pub neg-add : (a : D) → neg a + a ≡ decimal 0 0
  neg-add a = ring.add_comm (neg a) a ∙ ring.add-neg a

  first : (p q x z : D) → p ≡ decimal 1 0 → q ≡ decimal 0 0 → p * x + q * z ≡ x
  first p q x z e f = rw (e, f) (simp (one-mul, zero-mul, ring.add-zero))

  second : (p q x z : D) → p ≡ decimal 0 0 → q ≡ decimal 1 0 → p * x + q * z ≡ z
  second p q x z e f = rw (e, f) (simp (one-mul, zero-mul, zero-add))

  square-neg : (a : D) → neg a * neg a ≡ a * a
  square-neg a = neg-mul a (neg a) ∙ ap neg (ring.mul-neg a a) ∙ neg-neg (a * a)

  cross : (c s : D) → neg s * c + c * s ≡ decimal 0 0
  cross c s = rw (neg-mul s c, ring.mul_comm c s) (neg-add (s * c))

  -- A turn by an angle with the cosine `c` and the sine `s`, and back.
  module _ (c s : D) (unit : c * c + s * s ≡ decimal 1 0) where
    turn_back_0 : (x z : D) → c * (c * x + neg s * z) + s * (s * x + c * z) ≡ x
    turn_back_0 x z =
        rows c s c (neg s) s c x z
        ∙ first _ _ x z unit (simp (ring.mul-neg, ring.mul_comm c s) (neg-add (s * c)))

    turn_back_1 : (x z : D) → neg s * (c * x + neg s * z) + c * (s * x + c * z) ≡ z
    turn_back_1 x z =
        rows (neg s) c c (neg s) s c x z
        ∙ second _ _ x z (cross c s) (ap (λ t. t + c * c) (square-neg s) ∙ ring.add_comm _ _ ∙ unit)

    back_turn_0 : (x z : D) → c * (c * x + s * z) + neg s * (neg s * x + c * z) ≡ x
    back_turn_0 x z =
        rows c (neg s) c s (neg s) c x z
        ∙ first _ _ x z (ap (λ t. c * c + t) (square-neg s) ∙ unit) (ring.add_comm _ _ ∙ cross c s)

    back_turn_1 : (x z : D) → s * (c * x + s * z) + c * (neg s * x + c * z) ≡ z
    back_turn_1 x z =
        rows s c c s (neg s) c x z
        ∙ second _ _ x z
            (ap (λ t. s * c + t) (ring.mul-neg c s)
              ∙ ap (λ t. s * c + neg t) (ring.mul_comm c s)
              ∙ ring.add-neg (s * c))
            (ring.add_comm _ _ ∙ unit)

pub vector : {D : Type 0} (u v : Vector3d D) → u.x ≡ v.x → u.y ≡ v.y → u.z ≡ v.z → u ≡ v
vector u v e f g = λ i. record { x = e i; y = f i; z = g i }

-- The transpose takes back the turn, and the turn the transpose.
abbrev pub IsTurn : {D : Type 0} (eigen : Algebra D) → eigen.Matrix3d → Type 0
IsTurn {D} eigen m =
    (v : Vector3d D)
    → (eigen.apply (eigen.transpose m) (eigen.apply m v) ≡ v)
      × (eigen.apply m (eigen.apply (eigen.transpose m) v) ≡ v)

module _ {D : Type 0} {floats : Floats D} {eigen : Algebra D} (ring : IsRing floats)
    (algebra : IsAlgebra floats eigen) where
  infixl 65 ◌+◌
  infixl 70 ◌*◌
  open floats use {add as ◌+◌, mul as ◌*◌, neg, decimal}
  open eigen use {Matrix3d, of_entries, transpose, apply}

  pub IsTurn-mul : (m n : Matrix3d) → IsTurn eigen m → IsTurn eigen n → IsTurn eigen (eigen.mul m n)
  IsTurn-mul m n turn turn' v = (
    rw (algebra.transpose-mul, algebra.apply-mul, algebra.apply-mul)
        (ap (apply (transpose n)) (turn (apply n v)).0 ∙ (turn' v).0),
    rw (algebra.transpose-mul, algebra.apply-mul, algebra.apply-mul)
        (ap (apply m) (turn' (apply (transpose m) v)).1 ∙ (turn v).1),
  )

  -- The three turns, about each axis.
  pub about_y-IsTurn :
      (c s : D)
      → c * c + s * s ≡ decimal 1 0
      → IsTurn eigen (
          of_entries c
            (decimal 0 0)
            (neg s)
            (decimal 0 0)
            (decimal 1 0)
            (decimal 0 0)
            s
            (decimal 0 0)
            c)
  about_y-IsTurn c s unit v = (
    rw (algebra.transpose-of_entries, algebra.apply-of_entries, algebra.apply-of_entries)
        (vector _ v (simp (row_02 ring) (turn_back_0 ring c s unit v.x v.z)) (simp (row_1 ring))
          (simp (row_02 ring) (turn_back_1 ring c s unit v.x v.z))),
    rw (algebra.transpose-of_entries, algebra.apply-of_entries, algebra.apply-of_entries)
        (vector _ v (simp (row_02 ring) (back_turn_0 ring c s unit v.x v.z)) (simp (row_1 ring))
          (simp (row_02 ring) (back_turn_1 ring c s unit v.x v.z))),
  )

  pub about_x-IsTurn :
      (c s : D)
      → c * c + s * s ≡ decimal 1 0
      → IsTurn eigen (
          of_entries
            (decimal 1 0)
            (decimal 0 0)
            (decimal 0 0)
            (decimal 0 0)
            c
            (neg s)
            (decimal 0 0)
            s
            c)
  about_x-IsTurn c s unit v = (
    rw (algebra.transpose-of_entries, algebra.apply-of_entries, algebra.apply-of_entries)
        (vector _ v (simp (row_0 ring)) (simp (row_12 ring) (turn_back_0 ring c s unit v.y v.z))
          (simp (row_12 ring) (turn_back_1 ring c s unit v.y v.z))),
    rw (algebra.transpose-of_entries, algebra.apply-of_entries, algebra.apply-of_entries)
        (vector _ v (simp (row_0 ring)) (simp (row_12 ring) (back_turn_0 ring c s unit v.y v.z))
          (simp (row_12 ring) (back_turn_1 ring c s unit v.y v.z))),
  )

  pub about_z-IsTurn :
      (c s : D)
      → c * c + s * s ≡ decimal 1 0
      → IsTurn eigen (
          of_entries c s
            (decimal 0 0)
            (neg s)
            c
            (decimal 0 0)
            (decimal 0 0)
            (decimal 0 0)
            (decimal 1 0))
  about_z-IsTurn c s unit v = (
    rw (algebra.transpose-of_entries, algebra.apply-of_entries, algebra.apply-of_entries)
        (vector _ v (simp (row_01 ring) (back_turn_0 ring c s unit v.x v.y))
          (simp (row_01 ring) (back_turn_1 ring c s unit v.x v.y)) (simp (row_2 ring))),
    rw (algebra.transpose-of_entries, algebra.apply-of_entries, algebra.apply-of_entries)
        (vector _ v (simp (row_01 ring) (turn_back_0 ring c s unit v.x v.y))
          (simp (row_01 ring) (turn_back_1 ring c s unit v.x v.y)) (simp (row_2 ring))),
  )
