-- ===== src/Text/Laws.antt =====
-- Laws of the operations on texts: prefixes, searches and character tests.
use text.Mathlib.TextEquality.{Char-path, eq_iff}
use text.Mathlib.TextLemmas.{nil-append, cons-append}
use iwaya.Prelude.{
  ℕ, ◌≡◌, ◌≢◌, ◌↔◌, refl, sym, ◌∙◌, String, ◌<>◌, Bool, true, false, ◌||◌, ◌&&◌, some, code, ◌==◌,
  ==_iff, Char, ap₂, Bool-cases, inl, inr, arith,
}
use iwaya.Text.{◌=?◌, strip_prefix, any_char, all_chars}

-- Equal numbers, equal characters, as tests.
pub code_iff : (c d : Char) → ((code c == code d) ≡ true) ↔ (c ≡ d)
code_iff c d =
    (λ h. Char-path c d ((==_iff _ _).0 h), λ e. rw e ((==_iff (code d) (code d)).1 refl))

pub strip_prefix-append : (p s : String) → strip_prefix (p <> s) p ≡ some s
unfolding strip_prefix
strip_prefix-append String.[] s = rw nil-append
strip_prefix-append (String.◌∷◌ c p) s =
    rw (cons-append, (==_iff (code c) (code c)).1 refl) (strip_prefix-append p s)

pub strip_prefix-eq-some : (s p : String) {r : String} → strip_prefix s p ≡ some r → s ≡ p <> r
unfolding strip_prefix
strip_prefix-eq-some s String.[] {r} h = rw nil-append (ground arith)
strip_prefix-eq-some String.[] (String.◌∷◌ d p) {r} h = cc
strip_prefix-eq-some (String.◌∷◌ c s) (String.◌∷◌ d p) {r} h =
    elim (Bool-cases (code c == code d)) [
      | inl same ↦
          rw cons-append
            (ap₂ String.◌∷◌ ((code_iff c d).0 same) (strip_prefix-eq-some s p (ground arith)))
      | inr differ ↦ ground arith
    ]

-- A prefix is stripped exactly if the text begins with it.
pub strip_prefix_iff : (s p r : String) → (strip_prefix s p ≡ some r) ↔ (s ≡ p <> r)
strip_prefix_iff s p r = (strip_prefix-eq-some s p, λ e. rw e (strip_prefix-append p r))

pub any_char-append :
    (p : ℕ → Bool) (s t : String) → any_char p (s <> t) ≡ (any_char p s || any_char p t)
any_char-append p String.[] t = rw nil-append
any_char-append p (String.◌∷◌ c s) t = rw cons-append (ground (arith, any_char-append p s t))

pub all_chars-append :
    (p : ℕ → Bool) (s t : String) → all_chars p (s <> t) ≡ (all_chars p s && all_chars p t)
all_chars-append p String.[] t = rw nil-append
all_chars-append p (String.◌∷◌ c s) t = rw cons-append (ground (arith, all_chars-append p s t))

-- If each character that passes one test fails another, no character of a text whose characters
-- pass the first passes the second.
pub any_char-eq-false :
    (p q : ℕ → Bool)
    → ((c : ℕ) → p c ≡ true → q c ≡ false)
    → (s : String) → all_chars p s ≡ true
    → any_char q s ≡ false
any_char-eq-false p q h String.[] k = refl
any_char-eq-false p q h (String.◌∷◌ c s) k = ground (arith, h (code c), any_char-eq-false p q h s)

-- Texts that the test tells apart differ.
pub differ : (s t : String) → (s =? t) ≡ false → s ≢ t
differ s t h e = cc (sym h ∙ (eq_iff s t).1 e)
