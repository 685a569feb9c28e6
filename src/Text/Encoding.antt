-- ===== src/Text/Encoding.antt =====
-- UTF-8 is a code: different texts have different bytes.
use text.Mathlib.TextEquality.{Char-path}
use iwaya.Prelude.{ℕ, ◌≡◌, refl, sym, ap₂, String, List, [], ◌++◌, code, arith}
use iwaya.Text.Utf8.{utf8, as_bytes}

-- The encodings of two characters, each with bytes behind it, are equal only if the characters are.
utf8_inj : (c d : ℕ) (xs ys : List ℕ) → utf8 c ++ xs ≡ utf8 d ++ ys → (c ≡ d) × (xs ≡ ys)
unfolding utf8
utf8_inj c d xs ys h = ground arith

utf8-ne-nil : (c : ℕ) (xs : List ℕ) → utf8 c ++ xs ≡ [] → ⊥
unfolding utf8
utf8-ne-nil c xs h = ground arith

pub as_bytes_inj : (s t : String) → as_bytes s ≡ as_bytes t → s ≡ t
unfolding as_bytes
as_bytes_inj String.[] String.[] h = refl
as_bytes_inj String.[] (String.◌∷◌ d t) h = absurd (utf8-ne-nil (code d) (as_bytes t) (sym h))
as_bytes_inj (String.◌∷◌ c s) String.[] h = absurd (utf8-ne-nil (code c) (as_bytes s) h)
as_bytes_inj (String.◌∷◌ c s) (String.◌∷◌ d t) h =
    let (same, rest) = utf8_inj (code c) (code d) (as_bytes s) (as_bytes t) h in
    ap₂ String.◌∷◌ (Char-path c d same) (as_bytes_inj s t rest)
