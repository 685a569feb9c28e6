-- ===== src/Text.antt =====
-- The operations of Rust's `str` that the program uses, over texts as sequences of characters.
-- A character argument is given by its number.
pub mod Ascii
pub mod Search
pub mod Laws
pub mod Chars
pub mod Decimal
pub mod Splits
pub mod Number
pub mod Utf8
pub mod Encoding
use Prim.Native.Char.{Char, char, code, IsScalar}
use Prim.Native.Nat.{compare, Ordering}
use mathlib.Core.Logic.{dite}
use text.Mathlib.Text.{◌==◌ as ◌===◌}
use iwaya.Prelude.{
  ℕ, ◌<◌, ◌≡◌, Bool, true, false, ◌||◌, ◌&&◌, Option, none, some, String, map_option, is_some, ltb,
  ◌==◌, if◌then◌else◌, dec_lt, arith,
}

-- `==` between texts
infix 50 ◌=?◌
abbrev pub ◌=?◌ : String → String → Bool
s =? t = s === t

abbrev pub is_empty : String → Bool
is_empty String.[] = true
is_empty (String.◌∷◌ c s) = false

-- `s.chars().any(p)` and `s.chars().all(p)`, for tests on a character's number
abbrev pub any_char : (ℕ → Bool) → String → Bool
any_char p String.[] = false
any_char p (String.◌∷◌ c s) = p (code c) || any_char p s

abbrev pub all_chars : (ℕ → Bool) → String → Bool
all_chars p String.[] = true
all_chars p (String.◌∷◌ c s) = p (code c) && all_chars p s

-- `s.contains(c)`
abbrev pub contains_char : String → ℕ → Bool
contains_char s c = any_char (λ x. x == c) s

-- `s.strip_prefix(prefix)`
unfoldable pub strip_prefix : String → String → Option String
strip_prefix s String.[] = some s
strip_prefix String.[] (String.◌∷◌ p ps) = none
strip_prefix (String.◌∷◌ c s) (String.◌∷◌ p ps) =
    if code c == code p then strip_prefix s ps else none

-- `s.starts_with(prefix)`
abbrev pub starts_with : String → String → Bool
starts_with s prefix = is_some (strip_prefix s prefix)

-- `s.strip_suffix(suffix)`
unfoldable pub strip_suffix : String → String → Option String
strip_suffix String.[] suffix = if is_empty suffix then some "" else none
strip_suffix (String.◌∷◌ c s) suffix =
    let rest = strip_suffix s suffix in
    if String.◌∷◌ c s =? suffix then some "" else map_option (String.◌∷◌ c) rest

-- A character by its number; only numbers of ASCII characters are passed.
scalar_of_lt : (n : ℕ) → n < 55296 → IsScalar n
scalar_of_lt n h = let below : compare n 55296 ≡ Ordering.lt = ground arith in rw below tt

unfoldable pub char_of : ℕ → Char
unfolding scalar_of_lt dec_lt
char_of n = dite (dec_lt n 55296) (λ h. char n (scalar_of_lt n h)) (λ _. char 0 tt)
