-- ===== src/ConfigManager/Values.antt =====
-- The access to the values of a configuration in ConfigManager/ConfigManager.{hpp,cpp}. The source
-- passes references into the document; here a function that writes gives the value after it. The
-- overloads for each type are one definition over the `Kind` of the type.
pub mod Access
use Prim.Native.String.{String}
use radar_software.Prelude.{
  ◌≡◌, refl, ◌⊎◌, inl, inr, Bool, true, false, Option, none, some, ◌&&◌, ◌||◌, List, [], ◌∷◌, map,
  if◌then◌else◌,
}
use radar_software.Storage.{Values, Kind}
use radar_software.ConfigManager.{Error, config_exception}

-- A function returns, throws, or ends the program by an assert.
pub data Answer (T : Type 0) : Type 0 where
  returns : T → Answer T
  throws : Error → Answer T
  aborts : Answer T

pub Answer-cases :
    {T : Type 0} (r : Answer T)
    → ((t : T) × (r ≡ returns t)) ⊎ (((e : Error) × (r ≡ throws e)) ⊎ (r ≡ aborts))
Answer-cases (returns t) = inl (t, refl)
Answer-cases (throws e) = inr (inl (e, refl))
Answer-cases aborts = inr (inr refl)

-- `HasMember` and `operator[]` of a value that is no object assert.
module _ (values : Values) where
  open values use {Value, is_object, is_array, has_member, member, set_member, elements, array}

  unfoldable pub get_section : Bool → Value → String → Answer Value
  get_section loaded json_config section_name =
      if loaded
      then (if is_object json_config
          then (if has_member json_config section_name
              then (if is_object (member json_config section_name)
                  then returns (member json_config section_name)
                  else throws config_exception)
              else throws config_exception)
          else aborts)
      else throws config_exception

  unfoldable pub get_object : Bool → Value → String → Answer Value
  get_object loaded settings key =
      if loaded
      then (if is_object settings
          then (if has_member settings key
              then (if is_object (member settings key) || is_array (member settings key)
                  then returns (member settings key)
                  else throws config_exception)
              else throws config_exception)
          else aborts)
      else throws config_exception

  module _ {T : Type 0} (kind : Kind Value T) where
    -- `set_value`; a missing key is the null pointer.
    unfoldable pub set_value : Bool → Value → Option String → T → Answer Value
    set_value loaded settings none value = throws config_exception
    set_value loaded settings (some key) value =
        if loaded
        then (if is_object settings
            then (if has_member settings key && kind.is_kind (member settings key)
                then returns (set_member settings key (kind.make value))
                else throws config_exception)
            else aborts)
        else throws config_exception

    -- `get_value` for every type but `double`.
    unfoldable pub get_value : Value → Option String → Answer T
    get_value settings none =
        if kind.is_kind settings then returns (kind.get settings) else throws config_exception
    get_value settings (some key) =
        if is_object settings
        then (if has_member settings key && kind.is_kind (member settings key)
            then returns (kind.get (member settings key))
            else throws config_exception)
        else aborts

    -- `get_value` for `double`, whose `Is…` is `IsNumber`: the member is read before it is asked
    -- whether it is there.
    unfoldable pub get_double : Value → Option String → Answer T
    get_double settings none =
        if kind.is_kind settings then returns (kind.get settings) else throws config_exception
    get_double settings (some key) =
        if is_object settings && has_member settings key
        then (if kind.is_kind (member settings key)
            then returns (kind.get (member settings key))
            else throws config_exception)
        else aborts

    -- The loop of `get_array`.
    unfoldable pub get_elements : List Value → Answer (List T)
    unfolding get_value
    get_elements [] = returns []
    get_elements (v ∷ vs) = elim (get_value v none) [
      | returns t ↦ elim (get_elements vs) [
        | returns ts ↦ returns (t ∷ ts)
        | throws e ↦ throws e
        | aborts ↦ aborts
      ]
      | throws e ↦ throws e
      | aborts ↦ aborts
    ]

    unfoldable pub get_array : Value → Answer (List T)
    unfolding get_elements
    get_array object =
        if is_array object then get_elements (elements object) else throws config_exception

    -- `set_array`: the array is emptied, and each item put behind it.
    unfoldable pub set_array : Value → List T → Answer Value
    set_array object arr =
        if is_array object then returns (array (map kind.make arr)) else throws config_exception
