-- ===== src/ConfigManager/Values/Access.antt =====
-- What is read after it was written.
use Prim.Native.String.{String}
use radar_software.Prelude.{
  ◌≡◌, refl, ap, ◌∙◌, true, false, some, List, [], ◌∷◌, map, ◌⊎◌, inl, inr, Bool-cases,
}
use radar_software.Storage.{Values, Kind, IsKind, KeepsMembers, KeepsElements}
use radar_software.ConfigManager.{config_exception}
use radar_software.ConfigManager.Values.{
  returns, throws, aborts, set_value, get_value, get_double, get_elements, get_array, set_array,
}

module _ (values : Values) {T : Type 0} (kind : Kind values.Value T) where
  open values use {Value, is_object, has_member, member, set_member}

  -- The value is an object, and the member is there and of the kind.
  abbrev pub HasKind : Value → String → Type 0
  HasKind settings key =
      (is_object settings ≡ true)
      × (has_member settings key ≡ true)
      × (kind.is_kind (member settings key) ≡ true)

  -- The member is not there, or it is of another kind.
  abbrev pub LacksKind : Value → String → Type 0
  LacksKind settings key =
      (has_member settings key ≡ false) ⊎ (kind.is_kind (member settings key) ≡ false)

  set_value_found :
      (settings : Value) (key : String) (value : T)
      → HasKind settings key
      → set_value values kind true settings (some key) value
        ≡ returns (set_member settings key (kind.make value))
  unfolding set_value
  set_value_found settings key value h = rw (h.0, h.1, h.2) refl

  set_value_lacking :
      (settings : Value) (key : String) (value : T)
      → is_object settings ≡ true
      → LacksKind settings key
      → set_value values kind true settings (some key) value ≡ throws config_exception
  unfolding set_value
  set_value_lacking settings key value object (inl e) = rw (object, e) refl
  set_value_lacking settings key value object (inr e) =
      elim (Bool-cases (has_member settings key)) [
        | inl h ↦ rw (object, h, e) refl
        | inr h ↦ rw (object, h) refl
      ]

  get_value_found :
      (settings : Value) (key : String)
      → HasKind settings key
      → get_value values kind settings (some key) ≡ returns (kind.get (member settings key))
  unfolding get_value
  get_value_found settings key h = rw (h.0, h.1, h.2) refl

  -- On a loaded configuration, `set_value` with a key of a member of the type gives settings in which
  -- `get_value` with this key returns the value; with a key that is not there, or is of a member of
  -- another type, it throws; and in settings that are no object it ends the program, where the library
  -- keeps the members that are set and the values of the type.
  pub get_value-set_value :
      (settings : Value) (key : String) (value : T)
      → KeepsMembers values
      → IsKind kind
      → (HasKind settings key
          × (settings' : Value) × (set_value values kind true settings (some key) value
              ≡ returns settings')
          × (get_value values kind settings' (some key) ≡ returns value))
        ⊎ (LacksKind settings key
            × (set_value values kind true settings (some key) value ≡ throws config_exception))
        ⊎ ((is_object settings ≡ false)
            × (set_value values kind true settings (some key) value ≡ aborts))
  unfolding set_value
  get_value-set_value settings key value keeps is = elim (Bool-cases (is_object settings)) [
    | inr o ↦ inr (inr (o, rw o refl))
    | inl o ↦ elim (Bool-cases (has_member settings key)) [
      | inr h ↦ inr (inl (inl h, set_value_lacking settings key value o (inl h)))
      | inl h ↦ elim (Bool-cases (kind.is_kind (member settings key))) [
        | inr k ↦ inr (inl (inr k, set_value_lacking settings key value o (inr k)))
        | inl k ↦
            let after = keeps settings key (kind.make value) h in
            inl (
              (o, h, k),
              set_member settings key (kind.make value),
              set_value_found settings key value (o, h, k),
              get_value_found (set_member settings key (kind.make value)) key
                    (after.2 ∙ o, after.0, ap kind.is_kind after.1 ∙ is.of_kind value)
                  ∙ ap (λ x. returns (kind.get x)) after.1
                  ∙ ap returns (is.get-make value),
            )
      ]
    ]
  ]

  get_elements_cons :
      (v : Value) (vs : List Value) (ts : List T)
      → kind.is_kind v ≡ true
      → get_elements values kind vs ≡ returns ts
      → get_elements values kind (v ∷ vs) ≡ returns (kind.get v ∷ ts)
  unfolding get_elements get_value
  get_elements_cons v vs ts k rest = cc

  get_elements-map :
      (arr : List T) → IsKind kind → get_elements values kind (map kind.make arr) ≡ returns arr
  unfolding get_elements get_value
  get_elements-map [] is = refl
  get_elements-map (t ∷ arr) is =
      get_elements_cons (kind.make t) (map kind.make arr) arr (is.of_kind t)
        (get_elements-map arr is)
      ∙ ap (λ x. returns (x ∷ arr)) (is.get-make t)

  -- `get_array` of the array that `set_array` leaves returns the items that were set, in their
  -- order, where the library keeps the elements of an array and the values of the type.
  pub get_array-set_array :
      (object : Value) (arr : List T)
      → KeepsElements values
      → IsKind kind
      → values.is_array object ≡ true
      → (object' : Value) × (set_array values kind object arr ≡ returns object')
        × (get_array values kind object' ≡ returns arr)
  unfolding set_array get_array
  get_array-set_array object arr keeps is array = (
    values.array (map kind.make arr),
    rw array refl,
    rw ((keeps (map kind.make arr)).0, (keeps (map kind.make arr)).1) (get_elements-map arr is),
  )

  -- With a key that an object has not the functions differ: `get_value` throws an exception for every type
  -- but `double`, for which it ends the program by the assert of the library.
  pub get_double_missing :
      (settings : Value) (key : String)
      → is_object settings ≡ true
      → has_member settings key ≡ false
      → (get_value values kind settings (some key) ≡ throws config_exception)
        × (get_double values kind settings (some key) ≡ aborts)
  unfolding get_value get_double
  get_double_missing settings key object missing =
      (rw (object, missing) refl, rw (object, missing) refl)
