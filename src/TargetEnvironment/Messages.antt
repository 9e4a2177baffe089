-- ===== src/TargetEnvironment/Messages.antt =====
-- The messages of Target Environment/Shared/Messages.h. What `string_format` prints for the numbers is
-- a parameter.
use Prim.Native.String.{String, ◌++◌}
use radar_software.Prelude.{
  ℕ, ◌≡◌, ◌≢◌, refl, ◌⊎◌, inl, inr, List, [], ◌∷◌, length, length-append, All, false, ◌+◌, true,
  arith, ap, ◌∙◌, ◌++◌ as ◌++ₗ◌, Option, none, some, if◌then◌else◌,
}
use text.Mathlib.TextLemmas.{append_assoc, append-nil}
use radar_software.TargetEnvironment.TargetTable.{Target, differs}

abbrev pub register_fail_msg : String
register_fail_msg = "{ \"message\" : \"TE_RegisterFail\" }\n"

abbrev pub register_success_msg : String
register_success_msg = "{ \"message\" : \"TE_RegisterSuccess\" }\n"

abbrev pub request_fail_msg : String
request_fail_msg = "{ \"message\" : \"TE_RequestFail\" }\n"

-- `targets.back()`; of an empty vector it is undefined.
abbrev pub back : {A : Type 0} → List A → Option A
back [] = none
back (a ∷ []) = some a
back (a ∷ b ∷ rest) = back (b ∷ rest)

back_cons : {A : Type 0} (a : A) (rest : List A) → (b : A) × (back (a ∷ rest) ≡ some b)
back_cons a [] = (a, refl)
back_cons a (b ∷ rest) = back_cons b rest

module _ {D : Type 0} (print_size : ℕ → String) (print_item : Target D → String) where
  -- The loop over the targets.
  unfoldable pub items_msg : Target D → List (Target D) → String
  items_msg last_item [] = ""
  items_msg last_item (item ∷ rest) =
      (if differs item last_item then print_item item ++ ", " else print_item item)
      ++ items_msg last_item rest

  -- The text of `TargetsListMsg` around the items.
  abbrev pub list_msg : ℕ → String → String
  list_msg size items =
      "{ \"message\" : \"TE_TargetsList\", \"size\" : "
      ++ (print_size size ++ (", \"targets\" : [" ++ (items ++ "]}\n")))

  -- `TargetsListMsg`; `none` where the code is undefined.
  unfoldable pub targets_list_msg : List (Target D) → Option String
  unfolding items_msg
  targets_list_msg targets = elim (back targets) [
    | none ↦ none
    | some last_item ↦ some (list_msg (length targets) (items_msg last_item targets))
  ]

  -- There is a message exactly of the targets of which there is one.
  pub targets_list_msg_cases :
      (targets : List (Target D))
      → ((targets ≡ []) × (targets_list_msg targets ≡ none))
        ⊎ ((targets ≢ []) × ((msg : String) × (targets_list_msg targets ≡ some msg)))
  unfolding targets_list_msg
  targets_list_msg_cases [] = inl (refl, refl)
  targets_list_msg_cases (t ∷ ts) =
      let (last_item, e) = back_cons t ts in
      inr (λ h. absurd (cc), (list_msg (length (t ∷ ts)) (items_msg last_item (t ∷ ts)), cc))

  -- The items with a separator between each two.
  abbrev pub separated : List (Target D) → String
  separated [] = ""
  separated (item ∷ []) = print_item item
  separated (item ∷ next ∷ rest) = print_item item ++ (", " ++ separated (next ∷ rest))

  items_separated :
      (targets : List (Target D)) (last_item : Target D)
      → All (λ t. differs t last_item ≡ true) targets
      → items_msg last_item (targets ++ₗ (last_item ∷ []))
        ≡ separated (targets ++ₗ (last_item ∷ []))
  unfolding items_msg
  items_separated [] last_item h =
      let same : differs last_item last_item ≡ false = ground arith in
      rw same (append-nil (print_item last_item))
  items_separated (t ∷ []) last_item h = rw h.0 (
      append_assoc (print_item t) ", " (items_msg last_item (last_item ∷ []))
      ∙ ap (λ r. print_item t ++ (", " ++ r)) (items_separated [] last_item tt))
  items_separated (t ∷ u ∷ ts) last_item h = rw h.0 (
      append_assoc (print_item t) ", " (items_msg last_item (u ∷ (ts ++ₗ (last_item ∷ []))))
      ∙ ap (λ r. print_item t ++ (", " ++ r)) (items_separated (u ∷ ts) last_item h.1))

  back_last : (targets : List (Target D)) (t : Target D) → back (targets ++ₗ (t ∷ [])) ≡ some t
  back_last [] t = refl
  back_last (u ∷ []) t = refl
  back_last (u ∷ v ∷ ts) t = back_last (v ∷ ts) t

  list_of_last :
      (targets : List (Target D)) (last_item : Target D)
      → back targets ≡ some last_item
      → targets_list_msg targets ≡ some (list_msg (length targets) (items_msg last_item targets))
  unfolding targets_list_msg
  list_of_last targets last_item e = cc

  -- For a vector of targets of which none but the last has the number of the last, the message
  -- gives its size and the items with one separator between each two.
  pub targets_list_msg_lem :
      (targets : List (Target D)) (last_item : Target D)
      → All (λ t. differs t last_item ≡ true) targets
      → targets_list_msg (targets ++ₗ (last_item ∷ []))
        ≡ some (list_msg (length targets + 1) (separated (targets ++ₗ (last_item ∷ []))))
  targets_list_msg_lem targets last_item h =
      list_of_last (targets ++ₗ (last_item ∷ [])) last_item (back_last targets last_item)
      ∙ rw (items_separated targets last_item h, length-append targets (last_item ∷ [])) refl
