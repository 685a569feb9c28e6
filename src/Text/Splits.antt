-- ===== src/Text/Splits.antt =====
-- What `split_once` and `rsplit_once` return.
use text.Mathlib.TextLemmas.{nil-append, cons-append}
use iwaya.Prelude.{
  ℕ, ◌≡◌, ap, Char, code, String, ◌<>◌, Option, some, Bool, true, ◌==◌, ==_iff, Bool-cases,
  Option-cases, inl, inr, arith,
}
use iwaya.Text.{all_chars}
use iwaya.Text.Laws.{all_chars-append}
use iwaya.Text.Search.{split_once, rsplit_once}

-- The text is `a`, one character of number `c`, and `b`.
abbrev pub Around : String → ℕ → String → String → Type 0
Around s c a b = (x : Char) × (code x ≡ c) × (s ≡ a <> String.◌∷◌ x b)

Around-cons :
    (y : Char) (s : String) (c : ℕ) (a b : String)
    → Around s c a b
    → Around (String.◌∷◌ y s) c (String.◌∷◌ y a) b
Around-cons y s c a b (x, same, e) = (x, same, rw cons-append (ap (String.◌∷◌ y) e))

Around-nil : (y : Char) (s : String) (c : ℕ) → (code y == c) ≡ true → Around (String.◌∷◌ y s) c "" s
Around-nil y s c h = (y, (==_iff _ _).0 h, rw nil-append)

some_pair_inj :
    (p q r t : String)
    → ◌≡◌ {A = Option (String × String)} (some (p, q)) (some (r, t))
    → (p ≡ r) × (q ≡ t)
some_pair_inj p q r t e = ground arith

pub split_once-Around :
    (s : String) (c : ℕ) (a b : String) → split_once s c ≡ some (a, b) → Around s c a b
unfolding split_once
split_once-Around String.[] c a b h = cc
split_once-Around (String.◌∷◌ y s) c a b h = elim (Bool-cases (code y == c)) [
  | inl here ↦
      let (first, second) = some_pair_inj "" s a b (rw here at h) in
      rw (← first, ← second) (Around-nil y s c here)
  | inr later ↦ elim (Option-cases (split_once s c)) [
    | inl missing ↦ cc (rw (later, missing) at h)
    | inr ((a', b'), found) ↦
        let (first, second) = some_pair_inj (String.◌∷◌ y a') b' a b (rw (later, found) at h) in
        rw (← first, ← second) (Around-cons y s c a' b' (split_once-Around s c a' b' found))
  ]
]

pub rsplit_once-Around :
    (s : String) (c : ℕ) (a b : String) → rsplit_once s c ≡ some (a, b) → Around s c a b
unfolding rsplit_once
rsplit_once-Around String.[] c a b h = cc
rsplit_once-Around (String.◌∷◌ y s) c a b h = elim (Option-cases (rsplit_once s c)) [
  | inr ((a', b'), found) ↦
      let (first, second) = some_pair_inj (String.◌∷◌ y a') b' a b (rw (found, rsplit_once) at h) in
      rw (← first, ← second) (Around-cons y s c a' b' (rsplit_once-Around s c a' b' found))
  | inl missing ↦ elim (Bool-cases (code y == c)) [
    | inl here ↦
        let (first, second) = some_pair_inj "" s a b (rw (missing, here, rsplit_once) at h) in
        rw (← first, ← second) (Around-nil y s c here)
    | inr later ↦ cc (rw (missing, later, rsplit_once) at h)
  ]
]

-- A test that the parts and the character between them pass is passed by the whole.
pub all_chars-Around :
    (p : ℕ → Bool) (s : String) (c : ℕ) (a b : String)
    → Around s c a b
    → all_chars p a ≡ true
    → p c ≡ true
    → all_chars p b ≡ true
    → all_chars p s ≡ true
all_chars-Around p s c a b (x, same, e) ha hc hb = rw (e, all_chars-append) (ground arith)
