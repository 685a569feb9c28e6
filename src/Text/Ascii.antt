-- ===== src/Text/Ascii.antt =====
-- Character classes and ASCII case: `char::is_whitespace` and the like, `to_ascii_lowercase`.
use iwaya.Prelude.{ℕ, ◌+◌, String, Bool, ◌&&◌, ◌||◌, leb, ◌==◌, code, Char, if◌then◌else◌}
use iwaya.Text.{char_of, ◌=?◌}

-- the Unicode property White_Space
unfoldable pub is_whitespace : ℕ → Bool
is_whitespace c =
    leb 0x9 c && leb c 0xd
    || c == 0x20
    || c == 0x85
    || c == 0xa0
    || c == 0x1680
    || leb 0x2000 c && leb c 0x200a
    || c == 0x2028
    || c == 0x2029
    || c == 0x202f
    || c == 0x205f
    || c == 0x3000

-- the Unicode category Cc
unfoldable pub is_control : ℕ → Bool
is_control c = leb c 0x1f || leb 0x7f c && leb c 0x9f

unfoldable pub is_ascii_digit : ℕ → Bool
is_ascii_digit c = leb b'0' c && leb c b'9'

unfoldable pub is_ascii_alphanumeric : ℕ → Bool
is_ascii_alphanumeric c =
    leb b'0' c && leb c b'9' || leb b'A' c && leb c b'Z' || leb b'a' c && leb c b'z'

unfoldable pub is_ascii_hexdigit : ℕ → Bool
is_ascii_hexdigit c =
    leb b'0' c && leb c b'9' || leb b'A' c && leb c b'F' || leb b'a' c && leb c b'f'

-- `c.is_ascii() && !c.is_ascii_control()`
unfoldable pub is_printable_ascii : ℕ → Bool
is_printable_ascii c = leb 0x20 c && leb c 0x7e

unfoldable pub is_ascii_upper : ℕ → Bool
is_ascii_upper c = leb b'A' c && leb c b'Z'

-- `char::to_ascii_lowercase`
unfoldable pub lower_char : Char → Char
unfolding is_ascii_upper char_of
lower_char c = if is_ascii_upper (code c) then char_of (code c + 32) else c

-- `str::to_ascii_lowercase`
unfoldable pub to_ascii_lowercase : String → String
unfolding lower_char
to_ascii_lowercase String.[] = ""
to_ascii_lowercase (String.◌∷◌ c s) = String.◌∷◌ (lower_char c) (to_ascii_lowercase s)

-- `a.eq_ignore_ascii_case(b)`
unfoldable pub eq_ignore_ascii_case : String → String → Bool
unfolding to_ascii_lowercase
eq_ignore_ascii_case a b = to_ascii_lowercase a =? to_ascii_lowercase b
