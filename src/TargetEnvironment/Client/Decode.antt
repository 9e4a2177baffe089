-- ===== src/TargetEnvironment/Client/Decode.antt =====
-- What the client makes of a list of targets: the message read back.
use radar_software.Prelude.{
  String, str_eq, ◌≡◌, refl, ℕ, length, map, List, [], ◌∷◌, true, false, Option, some, ◌==◌, find?,
  arith,
}
use radar_software.Storage.{Values, Kind, IsKind}
use radar_software.Utils.GetValue.{got, get_value, get_double, get_elements, get_array}
use radar_software.TargetEnvironment.{code, ok}
use radar_software.TargetEnvironment.TargetTable.{
  Target, TargetTable, get_target, get_target_first, add_all, add_target, clear,
}
use radar_software.TargetEnvironment.Client.{
  get_axis, read_target, add_targets, read_targets, read_header, deserialize,
}

module _ (values : Values) where
  abbrev pub HasMember : values.Value → String → values.Value → Type 0
  HasMember v key x = (values.has_member v key ≡ true) × (values.member v key ≡ x)

  abbrev pub IsArray : values.Value → List values.Value → Type 0
  IsArray v vs = (values.is_array v ≡ true) × (values.elements v ≡ vs)

-- The value of a target: an object with its number and three arrays of six numbers.
module _ {D : Type 0} (values : Values) (text : Kind values.Value String)
    (uint : Kind values.Value ℕ) (number : Kind values.Value D)
    (parse : String → Option values.Value) where
  abbrev pub IsAxis : values.Value → List D → Type 0
  IsAxis v xs = IsArray values v (map number.make xs) × (length (map number.make xs) ≡ 6)

  abbrev pub IsTarget : values.Value → Target D → Type 0
  IsTarget v t =
      (values.is_object v ≡ true)
      × HasMember values v "id" (uint.make t.target_id)
      × ((x : values.Value) × HasMember values v "X" x × IsAxis x t.x)
      × ((y : values.Value) × HasMember values v "Y" y × IsAxis y t.y)
      × ((z : values.Value) × HasMember values v "Z" z × IsAxis z t.z)

  -- The value of a message: its header, the number of the targets and their array.
  abbrev pub IsMessage : values.Value → List values.Value → Type 0
  IsMessage root vs =
      (values.is_object root ≡ true)
      × HasMember values root "message" (text.make "TE_TargetsList")
      × HasMember values root "size" (uint.make (length vs))
      × ((targets : values.Value) × HasMember values root "targets" targets
          × IsArray values targets vs)

  -- The values of the targets, one for each.
  abbrev pub AreTargets : List values.Value → List (Target D) → Type 0
  AreTargets [] [] = Unit
  AreTargets (v ∷ vs) (t ∷ ts) = IsTarget v t × AreTargets vs ts
  AreTargets _ _ = ⊥

  get_elements_make :
      IsKind number → (xs : List D) → get_elements values number (map number.make xs) ≡ got xs
  unfolding get_elements get_double
  get_elements_make kind [] = refl
  get_elements_make kind (x ∷ xs) =
      let one = kind.of_kind x in rw (one, get_elements_make kind xs, kind.get-make x) refl

  get_axis_found :
      IsKind number
      → (v axis : values.Value) (key : String) (xs : List D) → HasMember values v key axis
      → IsAxis axis xs
      → get_axis values text uint number parse v key ≡ got xs
  unfolding get_axis get_array
  get_axis_found kind v axis key xs (here, e) (array, six) =
      rw (here, e, array.0, array.1, six) (get_elements_make kind xs)

  read_target_found :
      IsKind uint
      → IsKind number
      → (v : values.Value) (t : Target D) → IsTarget v t
      → read_target values text uint number parse v ≡ got t
  unfolding read_target get_value
  read_target_found uints kind v t
        (object, (here, e), (x, has_x, axis_x), (y, has_y, axis_y), (z, has_z, axis_z)) =
      rw
        (
          object,
          here,
          e,
          uints.of_kind t.target_id,
          uints.get-make t.target_id,
          get_axis_found kind v x "X" t.x has_x axis_x,
          get_axis_found kind v y "Y" t.y has_y axis_y,
          get_axis_found kind v z "Z" t.z has_z axis_z,
        )
        refl

  add_targets_found :
      IsKind uint
      → IsKind number
      → (vs : List values.Value) (ts : List (Target D)) (tbl : TargetTable D) → AreTargets vs ts
      → add_targets values text uint number parse vs tbl ≡ (add_all ts tbl, code ok)
  unfolding add_targets
  add_targets_found uints kind [] [] tbl h = refl
  add_targets_found uints kind (v ∷ vs) (t ∷ ts) tbl (h, more) =
      rw (h.0, read_target_found uints kind v t h)
        (add_targets_found uints kind vs ts (add_target t tbl) more)
  add_targets_found uints kind [] (t ∷ ts) tbl h = absurd h
  add_targets_found uints kind (v ∷ vs) [] tbl h = absurd h

  read_header_found :
      IsKind text
      → IsKind uint
      → (root : values.Value) (vs : List values.Value) → IsMessage root vs
      → read_header values text uint number parse root ≡ got ("TE_TargetsList", length vs)
  unfolding read_header get_value
  read_header_found texts uints root vs (object, (has_message, e), (has_size, f), rest) =
      rw
        (
          object,
          has_message,
          e,
          texts.of_kind "TE_TargetsList",
          texts.get-make "TE_TargetsList",
          has_size,
          f,
          uints.of_kind (length vs),
          uints.get-make (length vs),
        )
        refl

  read_targets_found :
      IsKind uint
      → IsKind number
      → (root : values.Value) (vs : List values.Value) (ts : List (Target D)) → IsMessage root vs
      → AreTargets vs ts
      → read_targets values text uint number parse root "TE_TargetsList" (length vs) []
        ≡ (add_all ts [], code ok)
  unfolding read_targets
  read_targets_found uints kind root [] [] message h = refl
  read_targets_found uints kind root (v ∷ vs) (t ∷ ts)
        (object, header, count, (targets, (has, e), (array, f))) h =
      let some_left : (length (v ∷ vs) == 0) ≡ false = ground arith in
      let same : (length (v ∷ vs) == length (v ∷ vs)) ≡ true = ground arith in
      rw (has, e, array, f, some_left, same) (add_targets_found uints kind (v ∷ vs) (t ∷ ts) [] h)
  read_targets_found uints kind root [] (t ∷ ts) message h = absurd h
  read_targets_found uints kind root (v ∷ vs) [] message h = absurd h

  -- The message that stands for a list of targets, in a document that the parser reads, ends with
  -- OK and a table that gives for each number the first target of the list that has it, and nothing
  -- of the table before, where what is set in a value is of its kind and is got back.
  pub deserialize-AreTargets :
      IsKind text
      → IsKind uint
      → IsKind number
      → (msg : String) (root : values.Value) (vs : List values.Value) (ts : List (Target D))
        (tbl : TargetTable D)
      → str_eq msg "" ≡ false
      → parse msg ≡ some root
      → IsMessage root vs
      → AreTargets vs ts
      → (after : TargetTable D) × (deserialize values text uint number parse msg (clear tbl)
          ≡ (after, code ok))
        × ((id : ℕ) → get_target after id ≡ find? (λ t. t.target_id == id) ts)
  unfolding deserialize
  deserialize-AreTargets texts uints kind msg root vs ts tbl some_text parsed message h = (
    add_all ts [],
    rw (some_text, parsed, read_header_found texts uints root vs message)
        (read_targets_found uints kind root vs ts message h),
    get_target_first ts,
  )
