-- ===== src/Phantom/Minting.antt =====
-- What a fresh phantom looks like, and when two of them are the same.
use Prim.Native.String.{count}
use text.Mathlib.TextLemmas.{
  length-cons, append_cancel_left, tail-eq_of_cons-eq, head-eq_of_cons-eq,
}
use iwaya.Prelude.{
  ℕ, ◌*◌, ◌/◌, ◌%◌, ◌<◌, ◌≡◌, refl, sym, ◌∙◌, ap, ap₂, String, ◌<>◌, List, [], ◌∷◌, All, length,
  Bool, true, ◌&&◌, ◌||◌, leb, Result, ok, code, arith,
}
use iwaya.Text.{char_of, all_chars}
use iwaya.Text.Number.{hex, hex_digit}
use iwaya.Phantom.{Phantom, generate, prefix, entropy_bytes}

code-char_of : (n : ℕ) → n < 55296 → code (char_of n) ≡ n
unfolding char_of
code-char_of n h = ground arith

-- a digit `0`-`9` or `a`-`f`
abbrev pub is_lower_hex : ℕ → Bool
is_lower_hex c = leb b'0' c && leb c b'9' || leb b'a' c && leb c b'f'

hex_digit_bounds : (d : ℕ) → d < 16 → (hex_digit d < 103) × (is_lower_hex (hex_digit d) ≡ true)
unfolding hex_digit
hex_digit_bounds d h = ground arith

hex_digit_inj : (d e : ℕ) → d < 16 → e < 16 → hex_digit d ≡ hex_digit e → d ≡ e
unfolding hex_digit
hex_digit_inj d e p q h = ground arith

abbrev pub IsByte : ℕ → Type 0
IsByte b = b < 256

hex_char-is_lower_hex : (d : ℕ) → d < 16 → is_lower_hex (code (char_of (hex_digit d))) ≡ true
hex_char-is_lower_hex d h =
    let (small, lower) = hex_digit_bounds d h in rw (code-char_of (hex_digit d) (omega arith)) lower

hex_char_inj : (d e : ℕ) → d < 16 → e < 16 → char_of (hex_digit d) ≡ char_of (hex_digit e) → d ≡ e
hex_char_inj d e p q h = hex_digit_inj d e p q (
    omega (
      arith,
      code-char_of (hex_digit d) (omega (arith, hex_digit_bounds d p)),
      code-char_of (hex_digit e) (omega (arith, hex_digit_bounds e q)),
      ap code h,
    ))

hex-all_chars : (bytes : List ℕ) → All IsByte bytes → all_chars is_lower_hex (hex bytes) ≡ true
unfolding hex
hex-all_chars [] h = refl
hex-all_chars (b ∷ bytes) (p, h) =
    rw (hex_char-is_lower_hex (b / 16) (omega arith), hex_char-is_lower_hex (b % 16) (omega arith))
      (hex-all_chars bytes h)

count-hex : (bytes : List ℕ) → count (hex bytes) ≡ 2 * length bytes
unfolding hex
count-hex [] = refl
count-hex (b ∷ bytes) = rw (length-cons, length-cons) (omega (arith, count-hex bytes))

hex_inj : (xs ys : List ℕ) → All IsByte xs → All IsByte ys → hex xs ≡ hex ys → xs ≡ ys
unfolding hex
hex_inj [] [] h k e = refl
hex_inj [] (y ∷ ys) h k e = cc
hex_inj (x ∷ xs) [] h k e = cc
hex_inj (x ∷ xs) (y ∷ ys) (p, h) (q, k) e =
    let high = hex_char_inj (x / 16) (y / 16) (omega arith) (omega arith) (head-eq_of_cons-eq e) in
    let low =
      hex_char_inj (x % 16) (y % 16) (omega arith) (omega arith)
        (head-eq_of_cons-eq (tail-eq_of_cons-eq e)) in
    let rest = hex_inj xs ys h k (tail-eq_of_cons-eq (tail-eq_of_cons-eq e)) in
    let same : x ≡ y = omega arith in ap₂ ◌∷◌ same rest

-- If the entropy source gives 32 bytes, a phantom is minted: the fixed prefix, and behind it 64
-- characters that are lower-case hexadecimal digits.
pub generate-eq-ok :
    (fill : ℕ → Result String (List ℕ)) (bytes : List ℕ)
    → fill entropy_bytes ≡ ok bytes
    → length bytes ≡ entropy_bytes
    → All IsByte bytes
    → (suffix : String) × (generate fill ≡ ok (record { value = prefix <> suffix }))
      × (count suffix ≡ 64)
      × (all_chars is_lower_hex suffix ≡ true)
unfolding generate
generate-eq-ok fill bytes e n h =
    (hex bytes, rw (e, generate), omega (arith, count-hex bytes), hex-all_chars bytes h)

generate-value :
    (fill : ℕ → Result String (List ℕ)) (bytes : List ℕ) (p : Phantom)
    → fill entropy_bytes ≡ ok bytes
    → generate fill ≡ ok p
    → prefix <> hex bytes ≡ p.value
unfolding generate
generate-value fill bytes p e minted = ground arith

-- Phantoms minted from different bytes differ: equal values come from equal entropy.
pub generate_inj :
    (fill fill' : ℕ → Result String (List ℕ)) (bytes bytes' : List ℕ) (p : Phantom)
    → fill entropy_bytes ≡ ok bytes
    → fill' entropy_bytes ≡ ok bytes'
    → All IsByte bytes
    → All IsByte bytes'
    → generate fill ≡ ok p
    → generate fill' ≡ ok p
    → bytes ≡ bytes'
generate_inj fill fill' bytes bytes' p e e' h h' minted minted' = hex_inj bytes bytes' h h' (
    append_cancel_left prefix _ _
      (generate-value fill bytes p e minted ∙ sym (generate-value fill' bytes' p e' minted')))
