-- ===== src/Prelude/Texts.antt =====
-- Texts cut at their first space, and texts that differ.
use Prim.Native.Char.{Char, code as char_code}
use Prim.Native.String.{String, ◌++◌}
use text.Mathlib.Text.{◌==◌ as str_eq}
use text.Mathlib.TextEquality.{eq_iff}
use text.Mathlib.TextLemmas.{
  cons-append, nil-append, append_cancel_left, append_assoc, head-eq_of_cons-eq, cons≢nil,
}
use mathlib.Core.Path.{◌≡◌, refl, sym, ap, ◌∙◌}
use mathlib.Core.Logic.{inl, inr}
use native.Mathlib.Omega.{arith}
use mathlib.Core.Bool.{false}
use mathlib.Core.Option.{Option, none, some}
use radar_software.Prelude.Tests.{◌==◌, if◌then◌else◌, Bool-cases}

-- The text before the first space, and the text behind it: what `strstr` and `find` of a space give.
unfoldable pub split_space : String → Option (String × String)
split_space String.[] = none
split_space (String.◌∷◌ c s) =
    let rest = split_space s in
    if char_code c == 32
    then some ("", s)
    else elim rest [ none ↦ none | some (address, text) ↦ some (String.◌∷◌ c address, text) ]

-- No character of the text is a space.
abbrev pub NoSpace : String → Type 0
NoSpace String.[] = Unit
NoSpace (String.◌∷◌ c s) = ((char_code c == 32) ≡ false) × NoSpace s

space : (text : String) → " " ++ text ≡ String.◌∷◌ " " text
space text = cons-append " " "" text ∙ ap (λ s. String.◌∷◌ " " s) (nil-append text)

pub split_space-append :
    (type text : String) → NoSpace type → split_space (type ++ (" " ++ text)) ≡ some (type, text)
unfolding split_space
split_space-append String.[] text h = rw (nil-append (" " ++ text), space text) refl
split_space-append (String.◌∷◌ c s) text (here, h) =
    rw (cons-append c s (" " ++ text), here, split_space-append s text h) refl

-- Two texts with a common start differ where another character follows in each.
pub str_eq-append :
    (start s t rest : String) (x y : Char)
    → (char_code x == char_code y) ≡ false
    → str_eq ((start ++ String.◌∷◌ x s) ++ rest) (start ++ String.◌∷◌ y t) ≡ false
str_eq-append start s t rest x y differ =
    elim (Bool-cases (str_eq ((start ++ String.◌∷◌ x s) ++ rest) (start ++ String.◌∷◌ y t))) [
      | inr e ↦ e
      | inl e ↦
          let same = (eq_iff _ _).0 e in
          let tails =
            append_cancel_left start (String.◌∷◌ x s ++ rest) (String.◌∷◌ y t)
              (sym (append_assoc start (String.◌∷◌ x s) rest) ∙ same) in
          let heads : x ≡ y = head-eq_of_cons-eq (sym (cons-append x s rest) ∙ tails) in
          let codes : char_code x ≡ char_code y = ap char_code heads in ground arith
    ]

-- A text with a character is not the empty one.
pub str_eq-nil : (s rest : String) (x : Char) → str_eq (String.◌∷◌ x s ++ rest) "" ≡ false
str_eq-nil s rest x = elim (Bool-cases (str_eq (String.◌∷◌ x s ++ rest) "")) [
  | inr e ↦ e
  | inl e ↦ absurd (cons≢nil (sym (cons-append x s rest) ∙ (eq_iff _ _).0 e))
]
