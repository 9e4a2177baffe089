-- ===== src/TargetEnvironment/Catalog/Reading.antt =====
-- What `parse_keo` reads.
use radar_software.Prelude.{
  ℕ, ◌==◌, ◌≡◌, refl, sym, ap, ◌∙◌, String, true, false, some, List, [], ◌∷◌, ◌++◌, map,
  ==-false→ne,
}
use mathlib.Core.List.{append_assoc, append-nil}
use radar_software.Double.{Double}
use radar_software.TargetEnvironment.Catalog.Orbits.{Numbers}
use radar_software.TargetEnvironment.Catalog.{
  first_code, empty, Strings, no_strings, take_line, complete, Keo, result, entry_of, read_lines,
  parse_keo,
}

-- The lines of an entry of which the name is not mistaken for another line, and its strings.
abbrev pub IsEntry : Strings → Type 0
IsEntry s =
    (first_code s.s1 ≡ 49)
    × (first_code s.s2 ≡ 50)
    × ((first_code s.name == 35) ≡ false)
    × ((first_code s.name == 49) ≡ false)
    × ((first_code s.name == 50) ≡ false)

-- A line with a given first character is not empty.
not_empty : (s : String) (n : ℕ) → first_code s ≡ n → (n == 0) ≡ false → empty s ≡ false
not_empty String.[] n e h = absurd (==-false→ne n 0 h (sym e))
not_empty (String.◌∷◌ c s) n e h = refl

take_comment : (temp : String) (s : Strings) → first_code temp ≡ 35 → take_line temp s ≡ some s
unfolding take_line
take_comment temp s e = rw e refl

take_name : (s t : Strings) → IsEntry s → take_line s.name t ≡ some (record t { name = s.name })
unfolding take_line
take_name s t (e1, e2, a, b, c) = rw (a, b, c) refl

take_first :
    (s t : Strings) → IsEntry s → t.s1 ≡ "" → take_line s.s1 t ≡ some (record t { s1 = s.s1 })
unfolding take_line
take_first s t h free = rw (h.0, free) refl

take_second :
    (s t : Strings) → IsEntry s → t.s2 ≡ "" → take_line s.s2 t ≡ some (record t { s2 = s.s2 })
unfolding take_line
take_second s t (e1, e2, a, b, c) free = rw (e2, free) refl

module _ (double : Double) (numbers : Numbers double.D) where
  read_on :
      (temp : String) (rest : List String) (s s' : Strings) (keo_el : List (Keo double.D))
      → take_line temp s ≡ some s'
      → complete s' ≡ false
      → read_lines double numbers (temp ∷ rest) s keo_el ≡ read_lines double numbers rest s' keo_el
  unfolding read_lines
  read_on temp rest s s' keo_el e f = cc

  read_entry :
      (temp : String) (rest : List String) (s s' : Strings) (k : Keo double.D)
      (keo_el : List (Keo double.D))
      → take_line temp s ≡ some s'
      → complete s' ≡ true
      → entry_of double numbers s' ≡ some k
      → read_lines double numbers (temp ∷ rest) s keo_el
        ≡ read_lines double numbers rest no_strings (keo_el ++ (k ∷ []))
  unfolding read_lines
  read_entry temp rest s s' k keo_el e f g = cc

  -- An entry as it stands in the file: a comment, its name and its two lines; and what it says.
  pub record Written : Type 0 where
    pub comment : String
    pub strings : Strings
    pub keo : Keo double.D
    pub is_comment : first_code comment ≡ 35
    pub is_entry : IsEntry strings
    pub says : entry_of double numbers strings ≡ some keo

  abbrev pub lines_of : List Written → List String
  lines_of [] = []
  lines_of (w ∷ more) = w.comment ∷ w.strings.name ∷ w.strings.s1 ∷ w.strings.s2 ∷ lines_of more

  read_written :
      (w : Written) (rest : List String) (keo_el : List (Keo double.D))
      → read_lines double numbers
          (w.comment ∷ w.strings.name ∷ w.strings.s1 ∷ w.strings.s2 ∷ rest)
          no_strings
          keo_el
        ≡ read_lines double numbers rest no_strings (keo_el ++ (w.keo ∷ []))
  read_written w rest keo_el =
      let s = w.strings in
      let named = record no_strings { name = s.name } in
      let first = record named { s1 = s.s1 } in
      let some_s1 = not_empty s.s1 49 w.is_entry.0 refl in
      let some_s2 = not_empty s.s2 50 w.is_entry.1 refl in
      read_on w.comment _ no_strings no_strings keo_el
        (take_comment w.comment no_strings w.is_comment) refl
      ∙ read_on s.name _ no_strings named keo_el (take_name s no_strings w.is_entry) refl
      ∙ read_on s.s1 _ named first keo_el (take_first s named w.is_entry refl) (rw some_s1 refl)
      ∙ read_entry s.s2 rest first s w.keo keo_el (take_second s first w.is_entry refl)
          (rw (some_s1, some_s2) refl) w.says

  read_all :
      (entries : List Written) (keo_el : List (Keo double.D))
      → read_lines double numbers (lines_of entries) no_strings keo_el
        ≡ (keo_el ++ map (λ w. w.keo) entries, result true)
  unfolding read_lines
  read_all [] keo_el = ap (λ r. (r, result true)) (sym (append-nil keo_el))
  read_all (w ∷ more) keo_el =
      read_written w (lines_of more) keo_el
      ∙ read_all more (keo_el ++ (w.keo ∷ []))
      ∙ ap (λ r. (r, result true)) (append_assoc keo_el (w.keo ∷ []) (map (λ v. v.keo) more))

  -- A file of entries, each with a comment, a name that is not taken for another line, and the lines
  -- `1` and `2` of which the numbers can be read, is read to its end, and its entries are put
  -- behind those of the list in their order.
  pub parse_keo-lines_of :
      (entries : List Written) (keo_el : List (Keo double.D))
      → parse_keo double numbers (some (lines_of entries)) keo_el
        ≡ (keo_el ++ map (λ w. w.keo) entries, result true)
  unfolding parse_keo
  parse_keo-lines_of entries keo_el = read_all entries keo_el
