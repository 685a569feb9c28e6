-- ===== src/Bws/Diagnostic.antt =====
-- src/bws.rs: the one line of a client's error output that a diagnostic holds.
use iwaya.Prelude.{ℕ, zero, suc, String, code, ◌==◌, unwrap_or, if◌then◌else◌}
use iwaya.Text.{is_empty, contains_char, strip_suffix}
use iwaya.Text.Ascii.{is_whitespace}

-- `s.trim_start()` and `s.trim_end()`
unfoldable pub trim_start : String → String
trim_start String.[] = ""
trim_start (String.◌∷◌ c s) =
    let rest = trim_start s in if is_whitespace (code c) then rest else String.◌∷◌ c s

unfoldable pub trim_end : String → String
trim_end String.[] = ""
trim_end (String.◌∷◌ c s) =
    let rest = trim_end s in
    if is_empty rest
    then (if is_whitespace (code c) then "" else String.◌∷◌ c "")
    else String.◌∷◌ c rest

-- What stands before the first line ending, or the whole.
unfoldable pub before_newline : String → String
before_newline String.[] = ""
before_newline (String.◌∷◌ c s) =
    let rest = before_newline s in if code c == b'\n' then "" else String.◌∷◌ c rest

-- `s.chars().take(n)`
unfoldable pub take_chars : ℕ → String → String
take_chars zero s = ""
take_chars (suc n) String.[] = ""
take_chars (suc n) (String.◌∷◌ c s) = String.◌∷◌ c (take_chars n s)

-- The first of a text's lines, without its line ending, and of it at most 200 characters.
unfoldable pub first_line : String → String
first_line stderr =
    let trimmed = trim_end (trim_start stderr) in
    let line = before_newline trimmed in
    take_chars 200
      (if contains_char trimmed b'\n' then unwrap_or line (strip_suffix line "\r") else line)
