-- ===== src/Text/Search.antt =====
-- Searching a text: `split_once`, `rsplit_once`, `matches(…).count()` and `replacen(…, 1)`.
use iwaya.Prelude.{
  ℕ, zero, suc, String, ◌<>◌, Option, none, some, map_option, ◌==◌, code, if◌then◌else◌,
}
use iwaya.Text.{strip_prefix, starts_with}

-- `s.split_once(c)`: around the first occurrence
unfoldable pub split_once : String → ℕ → Option (String × String)
split_once String.[] c = none
split_once (String.◌∷◌ x s) c =
    let rest = split_once s c in
    if code x == c then some ("", s) else map_option (λ (a, b). (String.◌∷◌ x a, b)) rest

-- `s.rsplit_once(c)`: around the last occurrence
unfoldable pub rsplit_once : String → ℕ → Option (String × String)
rsplit_once String.[] c = none
rsplit_once (String.◌∷◌ x s) c = elim (rsplit_once s c) [
  | some (a, b) ↦ some (String.◌∷◌ x a, b)
  | none ↦ if code x == c then some ("", s) else none
]

-- The text around the first occurrence of a pattern.
unfoldable pub split_at_match : String → String → Option (String × String)
split_at_match String.[] pattern = map_option (λ rest. ("", rest)) (strip_prefix "" pattern)
split_at_match (String.◌∷◌ x s) pattern =
    let rest = split_at_match s pattern in
    elim (strip_prefix (String.◌∷◌ x s) pattern) [
      | some after ↦ some ("", after)
      | none ↦ map_option (λ (a, b). (String.◌∷◌ x a, b)) rest
    ]

-- `s.replacen(pattern, by, 1)`
unfoldable pub replace_first : String → String → String → String
replace_first s pattern by = elim (split_at_match s pattern) [
  | some (a, b) ↦ a <> (by <> b)
  | none ↦ s
]

-- The walk of `s.matches(pattern)` over occurrences that do not overlap; `skip` counts the
-- characters that the last occurrence still takes. The pattern is `1 + more` characters long.
count_matches_from : ℕ → String → ℕ → String → ℕ
count_matches_from more pattern skip String.[] = 0
count_matches_from more pattern (suc skip) (String.◌∷◌ x s) = count_matches_from more pattern skip s
count_matches_from more pattern zero (String.◌∷◌ x s) =
    let hit = suc (count_matches_from more pattern more s) in
    let miss = count_matches_from more pattern zero s in
    if starts_with (String.◌∷◌ x s) pattern then hit else miss

-- `s.matches("{}").count()`
unfoldable pub count_placeholders : String → ℕ
unfolding count_matches_from strip_prefix
count_placeholders s = count_matches_from 1 "{}" 0 s
