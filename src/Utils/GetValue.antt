-- ===== src/Utils/GetValue.antt =====
-- The access to JSON values of Utils/GetValueWrapper.hpp. The overloads for each type are one
-- definition over the `Kind` of the type; the one for `double` asks in another order.
use radar_software.Prelude.{
  ℕ, ◌≡◌, refl, ◌⊎◌, inl, inr, ◌==◌, String, Option, none, some, ◌&&◌, List, [], ◌∷◌, length,
  if◌then◌else◌,
}
use radar_software.Storage.{Values, Kind}

-- A function returns, throws `std::system_error`, or ends the program by an assert.
pub data Got (T : Type 0) : Type 0 where
  got : T → Got T
  system_error : Got T
  aborted : Got T

pub Got-cases :
    {T : Type 0} (r : Got T) → ((t : T) × (r ≡ got t)) ⊎ ((r ≡ system_error) ⊎ (r ≡ aborted))
Got-cases (got t) = inl (t, refl)
Got-cases system_error = inr (inl refl)
Got-cases aborted = inr (inr refl)

-- What follows a value that was got.
abbrev pub and_then : {S T : Type 0} → Got S → (S → Got T) → Got T
and_then (got s) f = f s
and_then system_error f = system_error
and_then aborted f = aborted

module _ (values : Values) where
  open values use {Value, is_object, is_array, has_member, member, elements}

  module _ {T : Type 0} (kind : Kind Value T) where
    -- `get_value` for every type but `double`. `HasMember` of a value that is no object asserts.
    unfoldable pub get_value : Value → Option String → Got T
    get_value root none = if kind.is_kind root then got (kind.get root) else system_error
    get_value root (some key) =
        if is_object root
        then (if has_member root key && kind.is_kind (member root key)
            then got (kind.get (member root key))
            else system_error)
        else aborted

    -- `get_value` for `double`: the member is read before it is asked whether it is there.
    unfoldable pub get_double : Value → Option String → Got T
    get_double root none = if kind.is_kind root then got (kind.get root) else system_error
    get_double root (some key) =
        if is_object root && has_member root key
        then (if kind.is_kind (member root key)
            then got (kind.get (member root key))
            else system_error)
        else aborted

    -- The loop of `get_array` for `double`.
    unfoldable pub get_elements : List Value → Got (List T)
    unfolding get_double
    get_elements [] = got []
    get_elements (v ∷ vs) =
        let rest = get_elements vs in
        and_then (get_double v none) (λ t. and_then rest (λ ts. got (t ∷ ts)))

    unfoldable pub get_array : ℕ → Value → Got (List T)
    unfolding get_elements
    get_array size arr =
        if is_array arr
        then (if length (elements arr) == size then get_elements (elements arr) else aborted)
        else system_error

  -- `get_nested_object`: the member printed, and read again.
  unfoldable pub get_nested_object :
      (to_string : Value → String) (parse : String → Option Value) → Value → String → Got Value
  get_nested_object to_string parse root key =
      if is_object root
      then (if has_member root key && is_object (member root key)
          then elim (parse (to_string (member root key))) [
            | none ↦ system_error
            | some nested_object ↦ got nested_object
          ]
          else system_error)
      else aborted
