-- ===== src/Config/Origin.antt =====
-- src/config/validate.rs: `is_http_origin`.
use iwaya.Prelude.{
  ℕ, String, Option, none, some, Bool, true, false, not, ◌||◌, ◌&&◌, or_else, leb, ◌==◌,
  if◌then◌else◌,
}
use iwaya.Text.{is_empty, any_char, all_chars, contains_char, strip_prefix}
use iwaya.Text.Ascii.{is_whitespace, is_control, is_ascii_digit, is_ascii_hexdigit}
use iwaya.Text.Number.{parse_u32}
use iwaya.Text.Search.{split_once, rsplit_once}

-- The test on a character of a bracketed host.
unfoldable pub is_ipv6_char : ℕ → Bool
unfolding is_ascii_hexdigit
is_ipv6_char c = is_ascii_hexdigit c || c == b':' || c == b'.'

-- The test that a character of a host name must fail.
unfoldable pub is_delimiter : ℕ → Bool
unfolding is_whitespace is_control
is_delimiter c = is_whitespace c || is_control c || contains_char "/?#@\\:[]" c

-- The last conjunct: no port, or decimal digits that stand for 1 to 65535.
unfoldable pub port_is_valid : Option String → Bool
unfolding is_ascii_digit parse_u32
port_is_valid none = true
port_is_valid (some port) =
    all_chars is_ascii_digit port
    && elim (parse_u32 port) [ none ↦ false | some n ↦ leb 1 n && leb n 65535 ]

-- What follows the closing bracket: a port, or nothing.
unfoldable pub after_bracket : String → String → Bool
unfolding is_ipv6_char port_is_valid
after_bracket host after =
    let host_is_valid = not (is_empty host) && all_chars is_ipv6_char host in
    elim (strip_prefix after ":") [
      | some port ↦ host_is_valid && port_is_valid (some port)
      | none ↦ if is_empty after then (host_is_valid && port_is_valid none) else false
    ]

-- A bracketed literal, after its opening bracket.
unfoldable pub bracketed_is_valid : String → Bool
unfolding after_bracket split_once
bracketed_is_valid rest = elim (split_once rest b']') [
  | none ↦ false
  | some (host, after) ↦ after_bracket host after
]

unfoldable pub host_name_is_valid : String → Bool
unfolding is_delimiter
host_name_is_valid host = not (is_empty host) && not (any_char is_delimiter host)

-- A host name with its optional port.
unfoldable pub named_is_valid : String → Bool
unfolding host_name_is_valid port_is_valid rsplit_once
named_is_valid authority = elim (rsplit_once authority b':') [
  | some (host, port) ↦ host_name_is_valid host && port_is_valid (some port)
  | none ↦ host_name_is_valid authority && port_is_valid none
]

unfoldable pub authority_is_valid : String → Bool
unfolding bracketed_is_valid named_is_valid strip_prefix
authority_is_valid authority = elim (strip_prefix authority "[") [
  | some rest ↦ bracketed_is_valid rest
  | none ↦ named_is_valid authority
]

-- The authority behind the scheme.
unfoldable pub strip_scheme : String → Option String
unfolding strip_prefix
strip_scheme upstream = or_else (strip_prefix upstream "https://") (strip_prefix upstream "http://")

-- `is_http_origin`
unfoldable pub is_http_origin : String → Bool
unfolding strip_scheme authority_is_valid
is_http_origin upstream = elim (strip_scheme upstream) [
  | none ↦ false
  | some authority ↦ authority_is_valid authority
]
