-- ===== src/Config/Authority.antt =====
-- An accepted origin is a scheme and an authority, and a request target cannot change the authority.
use text.Mathlib.TextLemmas.{nil-append, cons-append, append_assoc}
use iwaya.Prelude.{
  ℕ, ◌≡◌, refl, ◌∙◌, ap, code, String, ◌<>◌, Option, none, some, Bool, true, false, not, ◌||◌, ◌==◌,
  Option-cases, map_option, inl, inr, arith, if◌then◌else◌,
}
use iwaya.Text.{any_char, all_chars, strip_prefix}
use iwaya.Text.Ascii.{is_ascii_digit}
use iwaya.Text.Search.{split_once, rsplit_once}
use iwaya.Text.Laws.{strip_prefix_iff, strip_prefix-eq-some, all_chars-append}
use iwaya.Text.Chars.{is_empty_iff}
use iwaya.Text.Splits.{split_once-Around, rsplit_once-Around, all_chars-Around}
use iwaya.Config.Origin.{
  is_ipv6_char, is_delimiter, port_is_valid, after_bracket, bracketed_is_valid, host_name_is_valid,
  named_is_valid, authority_is_valid, strip_scheme, is_http_origin,
}

-- The characters at which a URL's authority ends, a backslash among them as some parsers have it,
-- and the one behind its user information.
unfoldable pub ends_authority : ℕ → Bool
ends_authority c = c == b'/' || c == b'?' || c == b'#' || c == b'\\' || c == b'@'

-- The authority of what follows a scheme: all before the first such character.
unfoldable pub until_end : String → String
until_end String.[] = ""
until_end (String.◌∷◌ c s) =
    let rest = until_end s in if ends_authority (code c) then "" else String.◌∷◌ c rest

-- The authority of a URL, as a parser of the request's URI finds it.
unfoldable pub authority_of : String → Option String
authority_of url = elim (strip_scheme url) [ none ↦ none | some rest ↦ some (until_end rest) ]

unfoldable pub stays : ℕ → Bool
stays c = not (ends_authority c)

digit-stays : (s : String) → all_chars is_ascii_digit s ≡ true → all_chars stays s ≡ true
unfolding is_ascii_digit stays ends_authority
digit-stays String.[] h = refl
digit-stays (String.◌∷◌ c s) h = ground (arith, digit-stays s)

ipv6-stays : (s : String) → all_chars is_ipv6_char s ≡ true → all_chars stays s ≡ true
unfolding is_ipv6_char stays ends_authority
ipv6-stays String.[] h = refl
ipv6-stays (String.◌∷◌ c s) h = ground (arith, ipv6-stays s)

host-stays : (s : String) → any_char is_delimiter s ≡ false → all_chars stays s ≡ true
unfolding is_delimiter stays ends_authority
host-stays String.[] h = refl
host-stays (String.◌∷◌ c s) h = ground (arith, host-stays s)

port-stays : (port : String) → port_is_valid (some port) ≡ true → all_chars stays port ≡ true
unfolding port_is_valid
port-stays port h = digit-stays port (ground arith)

stays-colon : all_chars stays ":" ≡ true
unfolding stays ends_authority
stays-colon = refl

stays-brackets : (all_chars stays "[" ≡ true) × (stays b']' ≡ true) × (stays b':' ≡ true)
unfolding stays ends_authority
stays-brackets = (refl, refl, refl)

after_bracket-stays :
    (host after : String)
    → after_bracket host after ≡ true
    → (all_chars stays host ≡ true) × (all_chars stays after ≡ true)
unfolding after_bracket
after_bracket-stays host after h = elim (Option-cases (strip_prefix after ":")) [
  | inr (port, found) ↦ (
    ipv6-stays host (ground arith),
    rw (strip_prefix-eq-some after ":" found, all_chars-append stays ":" port, stays-colon)
        (port-stays port (ground arith)),
  )
  | inl missing ↦ (
    ipv6-stays host (ground arith),
    let none_left : after ≡ "" = (is_empty_iff after).0 (ground arith) in rw none_left,
  )
]

bracketed-stays : (rest : String) → bracketed_is_valid rest ≡ true → all_chars stays rest ≡ true
unfolding bracketed_is_valid
bracketed-stays rest h = elim (Option-cases (split_once rest b']')) [
  | inl missing ↦ cc (rw (missing, bracketed_is_valid) at h)
  | inr ((host, after), found) ↦
      let (host_stays, after_stays) =
        after_bracket-stays host after (rw (found, bracketed_is_valid) at h) in
      all_chars-Around stays rest b']' host after (split_once-Around rest b']' host after found)
        host_stays stays-brackets.1 after_stays
]

host_name-stays : (host : String) → host_name_is_valid host ≡ true → all_chars stays host ≡ true
unfolding host_name_is_valid
host_name-stays host h = host-stays host (ground arith)

named-stays : (s : String) → named_is_valid s ≡ true → all_chars stays s ≡ true
unfolding named_is_valid
named-stays s h = elim (Option-cases (rsplit_once s b':')) [
  | inl missing ↦ host_name-stays s (ground arith)
  | inr ((host, port), found) ↦
      all_chars-Around stays s b':' host port (rsplit_once-Around s b':' host port found)
        (host_name-stays host (ground arith)) stays-brackets.2 (port-stays port (ground arith))
]

authority-stays : (s : String) → authority_is_valid s ≡ true → all_chars stays s ≡ true
unfolding authority_is_valid
authority-stays s h = elim (Option-cases (strip_prefix s "[")) [
  | inl missing ↦ named-stays s (ground arith)
  | inr (rest, found) ↦
      rw (strip_prefix-eq-some s "[" found, all_chars-append stays "[" rest, stays-brackets.0)
        (bracketed-stays rest (ground arith))
]

-- A text without ending characters is passed over whole, in front of what begins with one.
until_end-append :
    (s t : String) → all_chars stays s ≡ true → until_end t ≡ "" → until_end (s <> t) ≡ s
unfolding until_end stays
until_end-append String.[] t h e = rw nil-append e
until_end-append (String.◌∷◌ c s) t h e = rw cons-append (ground (arith, until_end-append s t))

until_end-slash : (r : String) → until_end ("/" <> r) ≡ ""
unfolding until_end ends_authority
until_end-slash r = rw cons-append refl

strip_prefix-append_right :
    (s p t r : String) → strip_prefix s p ≡ some r → strip_prefix (s <> t) p ≡ some (r <> t)
strip_prefix-append_right s p t r h =
    (strip_prefix_iff (s <> t) p (r <> t)).1
      (ap (λ x. x <> t) (strip_prefix-eq-some s p h) ∙ append_assoc p r t)

http-not-https : (a : String) → strip_prefix ("http://" <> a) "https://" ≡ none
unfolding strip_prefix
http-not-https a = rw (cons-append, cons-append, cons-append, cons-append, cons-append) refl

strip_scheme-append :
    (u t a : String) → strip_scheme u ≡ some a → strip_scheme (u <> t) ≡ some (a <> t)
unfolding strip_scheme
strip_scheme-append u t a h = elim (Option-cases (strip_prefix u "https://")) [
  | inr (b, found) ↦
      let same : some b ≡ some a = rw (found, strip_scheme) at h in
      rw (strip_prefix-append_right u "https://" t b found)
        (ap (λ o. map_option (λ x. x <> t) o) same)
  | inl missing ↦
      let plain : strip_prefix u "http://" ≡ some a = rw (missing, strip_scheme) at h in
      let apart : strip_prefix (u <> t) "https://" ≡ none =
        rw (strip_prefix-eq-some u "http://" plain, append_assoc) (http-not-https (a <> t)) in
      rw (apart, strip_prefix-append_right u "http://" t a plain) refl
]

-- An accepted origin is a scheme in front of an authority that holds no `/`, `?`, `#`, `\` or `@`;
-- and a URL that a request target in origin form is appended to has that same authority, so the
-- caller's target cannot select another.
pub authority_of-append :
    (upstream target rest : String)
    → is_http_origin upstream ≡ true
    → target ≡ "/" <> rest
    → (authority : String) × (strip_scheme upstream ≡ some authority)
      × (all_chars stays authority ≡ true)
      × (authority_of (upstream <> target) ≡ some authority)
unfolding is_http_origin authority_of
authority_of-append upstream target rest h e = elim (Option-cases (strip_scheme upstream)) [
  | inl missing ↦ cc (rw (missing, is_http_origin) at h)
  | inr (a, found) ↦
      let fine = authority-stays a (rw (found, is_http_origin) at h) in
      (
        a,
        found,
        fine,
        rw (strip_scheme-append upstream target a found, authority_of)
            (ap some (until_end-append a target fine (rw e (until_end-slash rest)))),
      )
]
