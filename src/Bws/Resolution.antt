-- ===== src/Bws/Resolution.antt =====
-- src/bws.rs: what a resolution gives, and the commands that it runs.
use text.Mathlib.TextEquality.{eq_iff}
use text.Mathlib.TextPositions.{eq_refl}
use iwaya.Prelude.{
  String, List, [], ◌∷◌, ◌++◌, Option, none, some, true, false, ◌≡◌, ◌≢◌, ◌⊎◌, refl, sym, ap, subst,
  ◌∙◌, inl, inr, ok, >>=-eq-ok, Bool-cases, Option-cases, All, All-map, any, arith, if◌then◌else◌,
}
use iwaya.Text.{◌=?◌}
use iwaya.Config.{BwsProvider, SecretName}
use iwaya.Secret.{Secret, new_secret}
use iwaya.Bws.{BwsSecret, Resolved, get_secret, collect_secrets, check_names, select_secrets}

-- The last secret of a key, as the project lists them.
pub record IsLast (name : String) (secrets : List BwsSecret) (value : Secret) : Type 0 where
  pub before : List BwsSecret
  pub secret : BwsSecret
  pub after : List BwsSecret
  pub split : secrets ≡ before ++ secret ∷ after
  pub key : secret.key ≡ name
  pub value_eq : new_secret secret.value ≡ value
  pub later : All (λ s. s.key ≢ name) after

-- The value that a loop over the secrets keeps for a key.
abbrev pub kept : String → List BwsSecret → Option Secret → Option Secret
kept name [] known = known
kept name (s ∷ rest) known =
    kept name rest (if s.key =? name then some (new_secret s.value) else known)

pub get_secret-collect_secrets :
    (names : List SecretName) (secrets : List BwsSecret) (m : Resolved) (name : SecretName)
    → any (λ n. n.name =? name.name) names ≡ true
    → get_secret (collect_secrets names secrets m) name ≡ kept name.name secrets (get_secret m name)
unfolding collect_secrets get_secret
get_secret-collect_secrets names [] m name h = refl
get_secret-collect_secrets names (s ∷ rest) m name h =
    let entry : SecretName × Secret = (record { name = s.key }, new_secret s.value) in
    elim (Bool-cases (s.key =? name.name)) [
      | inl same ↦
          let wanted : any (λ n. n.name =? s.key) names ≡ true =
            rw ((eq_iff s.key name.name).0 same) h in
          rw (same, wanted) (rw same at (get_secret-collect_secrets names rest (entry ∷ m) name h))
      | inr other ↦ elim (Bool-cases (any (λ n. n.name =? s.key) names)) [
        | inl wanted ↦
            rw (other, wanted)
              (rw other at (get_secret-collect_secrets names rest (entry ∷ m) name h))
        | inr unwanted ↦ rw (other, unwanted) (get_secret-collect_secrets names rest m name h)
      ]
    ]

get_secret-unwanted :
    (names : List SecretName) (secrets : List BwsSecret) (m : Resolved) (name : SecretName)
    → any (λ n. n.name =? name.name) names ≡ false
    → get_secret (collect_secrets names secrets m) name ≡ get_secret m name
unfolding collect_secrets get_secret
get_secret-unwanted names [] m name h = refl
get_secret-unwanted names (s ∷ rest) m name h =
    let entry : SecretName × Secret = (record { name = s.key }, new_secret s.value) in
    elim (Bool-cases (any (λ n. n.name =? s.key) names)) [
      | inr unwanted ↦ rw unwanted (get_secret-unwanted names rest m name h)
      | inl wanted ↦ elim (Bool-cases (s.key =? name.name)) [
        | inl same ↦ cc (
            sym wanted
            ∙ ap (λ k. any (λ n. n.name =? k) names) ((eq_iff s.key name.name).0 same)
            ∙ h)
        | inr other ↦ rw wanted (rw other at (get_secret-unwanted names rest (entry ∷ m) name h))
      ]
    ]

kept-IsLast :
    (name : String) (secrets : List BwsSecret) (known : Option Secret) (value : Secret)
    → kept name secrets known ≡ some value
    → IsLast name secrets value ⊎ (All (λ s. s.key ≢ name) secrets × (known ≡ some value))
kept-IsLast name [] known value h = inr (tt, h)
kept-IsLast name (s ∷ rest) known value h =
    elim (kept-IsLast name rest (if s.key =? name then some (new_secret s.value) else known) value
      h) [
        | inl last ↦ inl (record {
          before = s ∷ last.before;
          secret = last.secret;
          after = last.after;
          split = ap (◌∷◌ s) last.split;
          key = last.key;
          value_eq = last.value_eq;
          later = last.later;
        })
        | inr (none_later, from) ↦ elim (Bool-cases (s.key =? name)) [
          | inl same ↦ inl (record {
            before = [];
            secret = s;
            after = rest;
            split = refl;
            key = (eq_iff s.key name).0 same;
            value_eq = ground arith;
            later = none_later;
          })
          | inr other ↦
              inr ((λ e. cc (sym other ∙ (eq_iff s.key name).1 e), none_later), rw other at from)
        ]
      ]

check_names-found :
    (provider : BwsProvider) (names : List SecretName) (resolved : Resolved)
    → check_names provider names resolved ≡ ok tt
    → All (λ n. (v : Secret) × (get_secret resolved n ≡ some v)) names
unfolding check_names
check_names-found provider [] resolved h = tt
check_names-found provider (n ∷ names) resolved h = elim (Option-cases (get_secret resolved n)) [
  | inl missing ↦ cc (rw (missing, check_names) at h)
  | inr (v, found) ↦
      ((v, found), check_names-found provider names resolved (rw (found, check_names) at h))
]

pub wanted-All :
    (names : List SecretName) → All (λ n. any (λ x. x.name =? n.name) names ≡ true) names
wanted-All [] = tt
wanted-All (n ∷ names) =
    (rw (eq_refl n.name) refl, All-map (λ x h. ground arith) names (wanted-All names))

-- What a resolution of these names gives.
pub record IsResolution (names : List SecretName) (secrets : List BwsSecret) (resolved : Resolved)
    : Type 0 where
  pub values :
      All (λ n. (v : Secret) × (get_secret resolved n ≡ some v) × IsLast n.name secrets v) names
  pub only_declared :
      (name : SecretName)
      → any (λ n. n.name =? name.name) names ≡ false
      → get_secret resolved name ≡ none

pub values-IsLast :
    (names : List SecretName) (secrets : List BwsSecret) (asked : List SecretName)
    → All (λ n. any (λ x. x.name =? n.name) names ≡ true) asked
    → All (λ n. (v : Secret) × (get_secret (collect_secrets names secrets []) n ≡ some v)) asked
    → All
        (λ n.
          (v : Secret) × (get_secret (collect_secrets names secrets []) n ≡ some v)
          × IsLast n.name secrets v)
        asked
unfolding get_secret
values-IsLast names secrets [] h k = tt
values-IsLast names secrets (n ∷ asked) (wanted, h) ((v, found), k) =
    let by_loop = sym (get_secret-collect_secrets names secrets [] n wanted) ∙ found in
    (
      elim (kept-IsLast n.name secrets none v by_loop) [
        | inl last ↦ (v, found, last)
        | inr (_, impossible) ↦ cc
      ],
      values-IsLast names secrets asked h k,
    )

pub select_secrets-IsResolution :
    (provider : BwsProvider) (names : List SecretName) (secrets : List BwsSecret)
    (resolved : Resolved)
    → select_secrets provider names secrets ≡ ok resolved
    → IsResolution names secrets resolved
unfolding select_secrets get_secret
select_secrets-IsResolution provider names secrets resolved h =
    let all = collect_secrets names secrets [] in
    let (_, checked, same) = >>=-eq-ok (check_names provider names all) (λ _. ok all) h in
    let found = check_names-found provider names all checked in
    let result : all ≡ resolved = ground arith in
    subst (IsResolution names secrets) result (record {
      values = values-IsLast names secrets names (wanted-All names) found;
      only_declared = λ name unwanted. get_secret-unwanted names secrets [] name unwanted;
    })
