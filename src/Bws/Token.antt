-- ===== src/Bws/Token.antt =====
-- src/bws.rs: the access token, and the one line ending that is no part of it.
use text.Mathlib.TextLemmas.{
  nil-append, cons-append, append_assoc, append_cancel_right, cons-ne-nil,
}
use iwaya.Prelude.{
  Char, String, ◌<>◌, none, some, false, ◌≡◌, refl, sym, ap, ◌∙◌, Option-cases, Bool-cases, inl,
  inr, arith,
}
use iwaya.Text.{◌=?◌, strip_suffix}
use text.Mathlib.TextEquality.{eq_iff}
use text.Mathlib.TextPositions.{eq_refl}
use iwaya.Bws.{strip_one_trailing_line_ending}

some_inj : {a b : String} → some a ≡ some b → a ≡ b
some_inj e = ground arith

strip_suffix-eq-some : (s t : String) {r : String} → strip_suffix s t ≡ some r → s ≡ r <> t
unfolding strip_suffix
strip_suffix-eq-some String.[] String.[] {r} h = rw (← some_inj h) (sym (nil-append ""))
strip_suffix-eq-some String.[] (String.◌∷◌ d t) {r} h = cc
strip_suffix-eq-some (String.◌∷◌ c s) t {r} h = elim (Bool-cases (String.◌∷◌ c s =? t)) [
  | inl whole ↦
      let same : some "" ≡ some r = rw (whole) at h in
      rw (← some_inj same) ((eq_iff _ t).0 whole ∙ sym (nil-append t))
  | inr longer ↦ elim (Option-cases (strip_suffix s t)) [
    | inl missing ↦ cc (rw (longer, missing, strip_suffix) at h)
    | inr (q, found) ↦
        let same : some (String.◌∷◌ c q) ≡ some r = rw (longer, found, strip_suffix) at h in
        rw (← some_inj same, cons-append) (ap (String.◌∷◌ c) (strip_suffix-eq-some s t found))
  ]
]

not_whole : (c : Char) (r t : String) → (String.◌∷◌ c (r <> t) =? t) ≡ false
not_whole c r t = elim (Bool-cases (String.◌∷◌ c (r <> t) =? t)) [
  | inr no_match ↦ no_match
  | inl whole ↦
      let same : String.◌∷◌ c r <> t ≡ "" <> t =
        rw (cons-append, nil-append) ((eq_iff _ t).0 whole) in
      absurd (cons-ne-nil c r (append_cancel_right (String.◌∷◌ c r) "" t same))
]

strip_suffix-append : (r t : String) → strip_suffix (r <> t) t ≡ some r
unfolding strip_suffix
strip_suffix-append String.[] String.[] = refl
strip_suffix-append String.[] (String.◌∷◌ d t) = rw (nil-append, eq_refl (String.◌∷◌ d t))
strip_suffix-append (String.◌∷◌ c r) t =
    rw (cons-append, not_whole c r t, strip_suffix-append r t) refl

-- A text that ends with another.
abbrev pub EndsWith : String → String → Type 0
EndsWith s t = (r : String) × (s ≡ r <> t)

strip_suffix-none : (s t : String) → ¬ EndsWith s t → strip_suffix s t ≡ none
strip_suffix-none s t h = elim (Option-cases (strip_suffix s t)) [
  | inl missing ↦ missing
  | inr (r, found) ↦ absurd (h (r, strip_suffix-eq-some s t found))
]

crlf : (r : String) → r <> "\r\n" ≡ (r <> "\r") <> "\n"
crlf r = rw (append_assoc r "\r" "\n") refl

-- Of the acquisition command's output exactly one line ending is removed, of either kind, and nothing
-- else: what stands before the line ending is kept whole, and an output without one is kept as it is.
pub strip_one_trailing_line_ending_lem :
    (s : String)
    → (strip_one_trailing_line_ending (s <> "\r\n") ≡ s)
      × (¬ EndsWith s "\r" → strip_one_trailing_line_ending (s <> "\n") ≡ s)
      × (¬ EndsWith s "\n" → strip_one_trailing_line_ending s ≡ s)
unfolding strip_one_trailing_line_ending
strip_one_trailing_line_ending_lem s = (
  rw (strip_suffix-append s "\r\n") refl,
  λ plain.
      let no_crlf : ¬ EndsWith (s <> "\n") "\r\n" =
        λ (r, e). plain (r, append_cancel_right s (r <> "\r") "\n" (e ∙ crlf r)) in
      rw (strip_suffix-none (s <> "\n") "\r\n" no_crlf, strip_suffix-append s "\n") refl,
  λ whole.
      let no_crlf : ¬ EndsWith s "\r\n" = λ (r, e). whole (r <> "\r", e ∙ crlf r) in
      rw (strip_suffix-none s "\r\n" no_crlf, strip_suffix-none s "\n" whole) refl,
)
