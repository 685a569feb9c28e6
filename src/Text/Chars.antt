-- ===== src/Text/Chars.antt =====
-- Predicates on all characters of a text, and the tests that decide them.
use iwaya.Prelude.{
  ℕ, ◌≡◌, ◌≢◌, ◌↔◌, refl, ap, String, ◌<>◌, Bool, true, false, is_some, code, arith, Option-cases,
  inl, inr,
}
use iwaya.Text.{is_empty, any_char, all_chars, contains_char, strip_prefix, starts_with}
use text.Mathlib.TextLemmas.{nil-append, cons-append}
use iwaya.Text.Laws.{strip_prefix_iff}

-- Each character's number has a property.
abbrev pub AllChars : (ℕ → Type 0) → String → Type 0
AllChars P String.[] = Unit
AllChars P (String.◌∷◌ c s) = P (code c) × AllChars P s

-- The text does not hold the character.
abbrev pub Lacks : String → ℕ → Type 0
Lacks s c = AllChars (λ x. x ≢ c) s

abbrev pub StartsWith : String → String → Type 0
StartsWith s p = (r : String) × (s ≡ p <> r)

pub all_chars_iff :
    (P : ℕ → Type 0) (p : ℕ → Bool)
    → ((c : ℕ) → (p c ≡ true) ↔ P c)
    → (s : String) → (all_chars p s ≡ true) ↔ AllChars P s
all_chars_iff P p h String.[] = (λ _. tt, λ _. refl)
all_chars_iff P p h (String.◌∷◌ c s) = ground (arith, h (code c), all_chars_iff P p h s)

pub contains_char_iff : (s : String) (c : ℕ) → (contains_char s c ≡ false) ↔ Lacks s c
contains_char_iff String.[] c = (λ _. tt, λ _. refl)
contains_char_iff (String.◌∷◌ x s) c = ground (arith, contains_char_iff s c)

pub any_char-eq-false_iff :
    (P : ℕ → Type 0) (p : ℕ → Bool)
    → ((c : ℕ) → (p c ≡ false) ↔ P c)
    → (s : String) → (any_char p s ≡ false) ↔ AllChars P s
any_char-eq-false_iff P p h String.[] = (λ _. tt, λ _. refl)
any_char-eq-false_iff P p h (String.◌∷◌ c s) =
    ground (arith, h (code c), any_char-eq-false_iff P p h s)

pub is_empty_iff : (s : String) → (is_empty s ≡ true) ↔ (s ≡ "")
is_empty_iff String.[] = (λ _. refl, λ _. refl)
is_empty_iff (String.◌∷◌ c s) = (λ h. cc, λ h. cc)

pub starts_with_iff : (s p : String) → (starts_with s p ≡ true) ↔ StartsWith s p
starts_with_iff s p = elim (Option-cases (strip_prefix s p)) [
  | inl none_found ↦ (λ h. cc (ap is_some none_found), λ (r, e). cc ((strip_prefix_iff s p r).1 e))
  | inr (r, found) ↦ (λ h. (r, (strip_prefix_iff s p r).0 found), λ _. rw found refl)
]

pub AllChars-append :
    (P : ℕ → Type 0) (s t : String) → AllChars P (s <> t) ↔ (AllChars P s × AllChars P t)
AllChars-append P String.[] t = rw nil-append (λ h. (tt, h), λ h. h.1)
AllChars-append P (String.◌∷◌ c s) t = rw cons-append (
  λ (p, h). let (hs, ht) = (AllChars-append P s t).0 h in ((p, hs), ht),
  λ ((p, hs), ht). (p, (AllChars-append P s t).1 (hs, ht)),
)
