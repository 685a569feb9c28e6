-- ===== src/ProxyImage/Maps.antt =====
-- src/proxy_image.rs: the shared objects that the process's memory map names.
use iwaya.Prelude.{
  ℕ, zero, suc, String, ◌<>◌, code, List, [], ◌∷◌, Option, none, some, Bool, true, false, not, ◌&&◌,
  ◌==◌, ltb, and_then, unwrap_or, is_some, if◌then◌else◌,
}
use iwaya.Text.{is_empty, starts_with, strip_suffix}
use iwaya.Text.Ascii.{is_whitespace}
use iwaya.Text.Search.{split_at_match}
use iwaya.Bws.Diagnostic.{trim_start}

-- What stands behind the first run of whitespace, if there is one.
unfoldable pub drop_field : String → Option String
drop_field String.[] = none
drop_field (String.◌∷◌ c s) =
    let later = drop_field s in if is_whitespace (code c) then some (trim_start s) else later

unfoldable pub drop_fields : ℕ → String → Option String
drop_fields zero rest = some rest
drop_fields (suc n) rest = and_then (drop_field rest) (drop_fields n)

-- `mapped_pathname`
unfoldable pub mapped_pathname : String → Option String
mapped_pathname line = and_then (drop_fields 5 line) (λ rest.
    let pathname = unwrap_or rest (strip_suffix rest " (deleted)") in
    if is_empty pathname then none else some pathname)

-- `maps.lines()`: a line ending is a line feed with the carriage return in front of it, if any.
abbrev onto_line : String → List String → List String
onto_line c [] = c ∷ []
onto_line c (line ∷ later) = (c <> line) ∷ later

unfoldable pub text_lines : String → List String
text_lines String.[] = []
text_lines (String.◌∷◌ c s) =
    let later = text_lines s in
    if code c == b'\n'
    then "" ∷ later
    else if code c == b'\r' && starts_with s "\n"
    then later
    else onto_line (String.◌∷◌ c "") later

-- The order of texts: that of their characters, as it is of their bytes.
unfoldable pub precedes : String → String → Bool
precedes String.[] String.[] = false
precedes String.[] (String.◌∷◌ d t) = true
precedes (String.◌∷◌ c s) String.[] = false
precedes (String.◌∷◌ c s) (String.◌∷◌ d t) =
    let later = precedes s t in
    if ltb (code c) (code d) then true else if code c == code d then later else false

-- The filters on a mapped pathname; `is_exe` says whether it is the path of the executable.
unfoldable pub is_shared_object : (String → Bool) → String → Bool
is_shared_object is_exe path =
    starts_with path "/" && is_some (split_at_match path ".so") && not (is_exe path)

unfoldable pub shared_objects : (String → Bool) → List String → List String
shared_objects is_exe [] = []
shared_objects is_exe (line ∷ rest) =
    let later = shared_objects is_exe rest in
    elim (mapped_pathname line) [
      | none ↦ later
      | some path ↦ if is_shared_object is_exe path then path ∷ later else later
    ]
