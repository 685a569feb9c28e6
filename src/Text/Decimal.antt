-- ===== src/Text/Decimal.antt =====
-- Printing a number in decimal and reading it back.
use iwaya.Prelude.{
  ℕ, zero, suc, ◌+◌, ◌-◌, ◌*◌, ◌/◌, ◌%◌, ◌^◌, ◌<◌, ◌≡◌, refl, ◌∙◌, code, String, some, true, false,
  ltb, Bool-cases, inl, inr, arith,
}
use iwaya.Text.{char_of, is_empty, all_chars}
use iwaya.Text.Ascii.{is_ascii_digit}
use iwaya.Text.Number.{decimal_onto, decimal, parse_digits, parse_u32}

pub code-char_of : (n : ℕ) → n < 55296 → code (char_of n) ≡ n
unfolding char_of
code-char_of n h = ground arith

-- Reading one digit in front of a text.
parse_digits-digit :
    (n v : ℕ) (after : String)
    → v * 10 + n % 10 < 2 ^ 32
    → parse_digits (String.◌∷◌ (char_of (b'0' + n % 10)) after) v
      ≡ parse_digits after (v * 10 + n % 10)
unfolding parse_digits
parse_digits-digit n v after h =
    let digit : code (char_of (b'0' + n % 10)) - b'0' ≡ n % 10 =
      omega (arith, code-char_of (b'0' + n % 10) (omega arith)) in
    rw digit (ground arith)

parse_digits-decimal_onto :
    (fuel n : ℕ) (after : String)
    → n < fuel
    → n < 2 ^ 32
    → parse_digits (decimal_onto fuel n after) 0 ≡ parse_digits after n
unfolding decimal_onto
parse_digits-decimal_onto zero n after h k = absurd (omega arith)
parse_digits-decimal_onto (suc fuel) n after h k = elim (Bool-cases (ltb n 10)) [
  | inl small ↦
      let same : 0 * 10 + n % 10 ≡ n = ground arith in
      rw small (parse_digits-digit n 0 after (omega arith) ∙ rw same)
  | inr large ↦
      let same : n / 10 * 10 + n % 10 ≡ n = omega arith in
      rw large (
        parse_digits-decimal_onto fuel (n / 10) _ (ground arith) (omega arith)
        ∙ parse_digits-digit n (n / 10) after (omega arith)
        ∙ rw same)
]

all_digits-decimal_onto :
    (fuel n : ℕ) (after : String)
    → n < fuel
    → all_chars is_ascii_digit after ≡ true
    → (all_chars is_ascii_digit (decimal_onto fuel n after) ≡ true)
      × (is_empty (decimal_onto fuel n after) ≡ false)
unfolding decimal_onto is_ascii_digit
all_digits-decimal_onto zero n after h k = absurd (omega arith)
all_digits-decimal_onto (suc fuel) n after h k =
    let digit = code-char_of (b'0' + n % 10) (omega arith) in
    ground (
      arith,
      code-char_of (b'0' + n % 10),
      all_digits-decimal_onto fuel (n / 10) (String.◌∷◌ (char_of (b'0' + n % 10)) after),
    )

-- The text of a number of 32 bits is digits, and it is read back as the number.
pub parse_u32-decimal :
    (n : ℕ)
    → n < 2 ^ 32
    → (parse_u32 (decimal n) ≡ some n) × (all_chars is_ascii_digit (decimal n) ≡ true)
unfolding parse_u32 decimal
parse_u32-decimal n h =
    let (digits, filled) = all_digits-decimal_onto (suc n) n "" (omega arith) refl in
    (rw filled (parse_digits-decimal_onto (suc n) n "" (omega arith) h), digits)
