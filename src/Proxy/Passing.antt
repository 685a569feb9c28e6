-- ===== src/Proxy/Passing.antt =====
-- src/proxy.rs: which headers of an upstream's answer the client gets.
use mathlib.Core.List.{append-nil, append_assoc}
use iwaya.Prelude.{
  ℕ, String, List, [], ◌∷◌, ◌++◌, Bool, not, ◌≡◌, refl, ◌∙◌, Option, none, some, any, push,
  if◌then◌else◌, Bool-cases, Option-cases, inl, inr, and_then, ◌||◌,
}
use iwaya.Text.{◌=?◌}
use iwaya.Text.Number.{parse_usize}
use iwaya.Text.Ascii.{to_ascii_lowercase}
use iwaya.Proxy.Forward.{Client}
use iwaya.Proxy.Respond.{Answers, streamed, copy_header, copy_headers, respond_with_upstream}
use iwaya.Proxy.Hops.{hop_by_hop_names, is_hop_by_hop-eq}

-- Neither Content-Length nor one of the eight hop-by-hop headers, whatever the case of its letters.
unfoldable pub passes : String → Bool
passes name =
    let lower = to_ascii_lowercase name in
    not (lower =? "content-length" || any (λ hop. hop =? lower) hop_by_hop_names)

module _ (C : Client) (A : Answers C) where
  open A use {Value, Header, to_str, header_of}

  -- The headers that the constructor accepts, of those that are passed on.
  unfoldable pub passed_headers : List (String × Value) → List Header
  passed_headers [] = []
  passed_headers ((name, value) ∷ rest) =
      let later = passed_headers rest in
      if passes name
      then elim (header_of name value) [ none ↦ later | some header ↦ header ∷ later ]
      else later

  -- What the last Content-Length header says, if there is one, and else what was known.
  unfoldable pub declared_length : List (String × Value) → Option ℕ → Option ℕ
  declared_length [] known = known
  declared_length ((name, value) ∷ rest) known =
      let with_this = declared_length rest (and_then (to_str value) parse_usize) in
      let without = declared_length rest known in
      if to_ascii_lowercase name =? "content-length" then with_this else without

  copy_headers-eq :
      (headers : List (String × Value)) (copied : List Header) (known : Option ℕ)
      → copy_headers C A headers (copied, known)
        ≡ (copied ++ passed_headers headers, declared_length headers known)
  unfolding copy_headers passed_headers declared_length copy_header passes
  copy_headers-eq [] copied known = rw append-nil refl
  copy_headers-eq ((name, value) ∷ rest) copied known =
      elim (Bool-cases (to_ascii_lowercase name =? "content-length")) [
        | inl length ↦
            rw (length, copy_header)
              (copy_headers-eq rest copied (and_then (to_str value) parse_usize))
        | inr other ↦
            elim (Bool-cases (any (λ hop. hop =? to_ascii_lowercase name) hop_by_hop_names)) [
              | inl hop ↦
                  rw (other, is_hop_by_hop-eq, hop, copy_header) (copy_headers-eq rest copied known)
              | inr whole ↦ elim (Option-cases (header_of name value)) [
                | inl missing ↦
                    rw (other, is_hop_by_hop-eq, whole, missing, copy_header)
                      (copy_headers-eq rest copied known)
                | inr (header, found) ↦
                    rw (other, is_hop_by_hop-eq, whole, found, copy_header)
                      (copy_headers-eq rest (push copied header) known ∙ rw append_assoc refl)
              ]
            ]
      ]

  -- The client gets the upstream's status and body, in order the upstream's headers that are neither
  -- Content-Length nor one of the eight hop-by-hop headers and that the server's header constructor
  -- accepts, and the length that the last Content-Length declares.
  pub respond_with_upstream-eq :
      (response : C.Response)
      → respond_with_upstream C A response
        ≡ streamed
            (A.status response)
            (passed_headers (A.headers response))
            (A.body response)
            (declared_length (A.headers response) none)
  unfolding respond_with_upstream
  respond_with_upstream-eq response = rw (copy_headers-eq (A.headers response) [] none) refl
