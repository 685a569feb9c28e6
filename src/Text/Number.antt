-- ===== src/Text/Number.antt =====
-- Numbers as text: `{n}`, `{byte:02x}`, and `parse::<u32>` of decimal digits, and
-- `parse::<usize>`.
use iwaya.Prelude.{
  ℕ, zero, suc, ◌+◌, ◌-◌, ◌*◌, ◌/◌, ◌%◌, ◌^◌, String, List, [], ◌∷◌, Option, none, some, ltb, code,
  ◌&&◌, unwrap_or, if◌then◌else◌,
}
use iwaya.Text.{char_of, is_empty, strip_prefix}
use iwaya.Text.Ascii.{is_ascii_digit}

-- The decimal digits of a number in front of a text, with fuel above the number of digits.
unfoldable pub decimal_onto : ℕ → ℕ → String → String
decimal_onto zero n after = after
decimal_onto (suc fuel) n after =
    let digit = String.◌∷◌ (char_of (b'0' + n % 10)) after in
    let rest = decimal_onto fuel (n / 10) digit in if ltb n 10 then digit else rest

-- `n.to_string()`; the fuel is enough, since each round divides by 10.
unfoldable pub decimal : ℕ → String
unfolding decimal_onto char_of
decimal n = decimal_onto (suc n) n ""

-- One round of `str::parse::<u32>` after the digits were checked: an overflow is an error.
unfoldable pub parse_digits : String → ℕ → Option ℕ
parse_digits String.[] value = some value
parse_digits (String.◌∷◌ c s) value =
    let next = value * 10 + (code c - b'0') in
    let rest = parse_digits s next in if ltb next (2 ^ 32) then rest else none

-- `s.parse::<u32>().ok()` on a text of decimal digits; the empty text is an error.
unfoldable pub parse_u32 : String → Option ℕ
unfolding parse_digits
parse_u32 s = if is_empty s then none else parse_digits s 0

-- one hexadecimal digit, in lower case
unfoldable pub hex_digit : ℕ → ℕ
hex_digit d = if ltb d 10 then b'0' + d else b'a' + (d - 10)

-- `{byte:02x}` for each byte
unfoldable pub hex : List ℕ → String
unfolding hex_digit char_of
hex [] = ""
hex (byte ∷ bytes) =
    String.◌∷◌ (char_of (hex_digit (byte / 16)))
      (String.◌∷◌ (char_of (hex_digit (byte % 16))) (hex bytes))

-- One round of `str::parse::<usize>` (64 bits): a character that is no digit, and an overflow, are
-- errors.
unfoldable pub parse_usize_digits : String → ℕ → Option ℕ
parse_usize_digits String.[] value = some value
parse_usize_digits (String.◌∷◌ c s) value =
    let next = value * 10 + (code c - b'0') in
    let rest = parse_usize_digits s next in
    if is_ascii_digit (code c) && ltb next (2 ^ 64) then rest else none

-- `v.parse::<usize>().ok()`: one leading `+` is accepted, and no digits are an error.
unfoldable pub parse_usize : String → Option ℕ
parse_usize v =
    let digits = unwrap_or v (strip_prefix v "+") in
    if is_empty digits then none else parse_usize_digits digits 0
