-- ===== src/Transfer/Lines.antt =====
-- A document format in which the transfer of src/transfer.rs is tested: it keeps what the program
-- relies on.
use text.Mathlib.TextEquality.{Char-path}
use text.Mathlib.TextLemmas.{cons-append}
use iwaya.Prelude.{
  String, ◌<>◌, Char, code, List, [], ◌∷◌, ◌≡◌, refl, sym, ap, ◌∙◌, Bool, true, false, ok, ◌==◌,
  ==_iff, if◌then◌else◌, Bool-cases, inl, inr, arith,
}
use iwaya.Text.{char_of, contains_char}
use iwaya.Transfer.{RouteTransfer, Serde, IsFaithful}

-- A field is its characters behind an `a` each, a line ending as `n`, and an `e`.
abbrev field_onto : String → String → String
field_onto String.[] rest = String.◌∷◌ (char_of b'e') rest
field_onto (String.◌∷◌ c s) rest =
    let later = field_onto s rest in
    if code c == b'\n'
    then String.◌∷◌ (char_of b'n') later
    else String.◌∷◌ (char_of b'a') (String.◌∷◌ c later)

abbrev routes_onto : List RouteTransfer → String
routes_onto [] = ""
routes_onto (r ∷ rs) = field_onto r.header_name (
    field_onto r.template
      (field_onto r.upstream (field_onto r.phantom (field_onto r.secret (routes_onto rs)))))

abbrev onto_first : Char → List String → List String
onto_first c [] = []
onto_first c (s ∷ fields) = String.◌∷◌ c s ∷ fields

abbrev fields_of : Bool → String → List String
fields_of escaped String.[] = []
fields_of true (String.◌∷◌ c s) = onto_first c (fields_of false s)
fields_of false (String.◌∷◌ c s) =
    let character = fields_of true s in
    let later = fields_of false s in
    if code c == b'a'
    then character
    else if code c == b'n'
    then onto_first (char_of b'\n') later
    else if code c == b'e'
    then "" ∷ later
    else []

abbrev routes_of_fields : List String → List RouteTransfer
routes_of_fields (a ∷ b ∷ c ∷ d ∷ e ∷ rest) =
    record { header_name = a; template = b; upstream = c; phantom = d; secret = e }
    ∷ routes_of_fields rest
routes_of_fields [] = []
routes_of_fields (_ ∷ []) = []
routes_of_fields (_ ∷ _ ∷ []) = []
routes_of_fields (_ ∷ _ ∷ _ ∷ []) = []
routes_of_fields (_ ∷ _ ∷ _ ∷ _ ∷ []) = []

-- The format, of which every text is a document.
abbrev pub lines : Serde
lines = record {
  to_string = λ t. routes_onto t.routes;
  from_str = λ s. ok (record { routes = routes_of_fields (fields_of false s) });
}

fields_of-field_onto :
    (s rest : String)
    → fields_of false (field_onto s rest <> "\n") ≡ s ∷ fields_of false (rest <> "\n")
unfolding char_of
fields_of-field_onto String.[] rest = rw cons-append refl
fields_of-field_onto (String.◌∷◌ c s) rest = elim (Bool-cases (code c == b'\n')) [
  | inl here ↦
      let same : c ≡ char_of b'\n' = Char-path c (char_of b'\n') ((==_iff (code c) b'\n').0 here) in
      rw (here, cons-append)
        (ap (onto_first (char_of b'\n')) (fields_of-field_onto s rest)
          ∙ ap (λ x. String.◌∷◌ x s ∷ fields_of false (rest <> "\n")) (sym same))
  | inr other ↦
      rw (other, cons-append, cons-append) (ap (onto_first c) (fields_of-field_onto s rest))
]

routes_of_fields-routes_onto :
    (rs : List RouteTransfer) → routes_of_fields (fields_of false (routes_onto rs <> "\n")) ≡ rs
unfolding char_of
routes_of_fields-routes_onto [] = refl
routes_of_fields-routes_onto (r ∷ rs) =
    rw
      (
        fields_of-field_onto, fields_of-field_onto, fields_of-field_onto, fields_of-field_onto,
        fields_of-field_onto,
      )
      (ap (λ rest. r ∷ rest) (routes_of_fields-routes_onto rs))

field_onto-single_line :
    (s rest : String)
    → contains_char rest b'\n' ≡ false
    → contains_char (field_onto s rest) b'\n' ≡ false
unfolding char_of
field_onto-single_line String.[] rest h = h
field_onto-single_line (String.◌∷◌ c s) rest h = ground (arith, field_onto-single_line s rest h)

routes_onto-single_line : (rs : List RouteTransfer) → contains_char (routes_onto rs) b'\n' ≡ false
routes_onto-single_line [] = refl
routes_onto-single_line (r ∷ rs) = field_onto-single_line r.header_name _ (
    field_onto-single_line r.template _ (
      field_onto-single_line r.upstream _ (
        field_onto-single_line r.phantom _
          (field_onto-single_line r.secret _ (routes_onto-single_line rs)))))

pub lines-IsFaithful : IsFaithful lines
lines-IsFaithful = record {
  from_str-to_string =
      λ t. ap (λ rs. ok (record { routes = rs })) (routes_of_fields-routes_onto t.routes);
  single_line = λ t. routes_onto-single_line t.routes;
}
