-- ===== src/Main/Known.antt =====
-- src/main.rs: the loop over the providers meets no reference that does not resolve.
use iwaya.Prelude.{
  List, [], ◌∷◌, map, true, ◌≡◌, ◌≢◌, inl, inr, Bool-cases, Option-cases, Result-cases, none, All,
  All-append_iff, is_some,
}
use iwaya.Config.{ProviderId, SecretName, Config, CommandPolicy, bws, find_provider, eq_provider_id}
use iwaya.Config.Loaded.{IsResolvable}
use iwaya.Run.{Command}
use iwaya.Bws.{resolve}
use iwaya.Main.{declared, add_name, group}
use iwaya.Main.Execute.{ResolvedByProvider, resolve_groups}
use iwaya.Main.Surroundings.{World}
use iwaya.Main.Distinct.{Groups}

-- The provider of each group is configured.
abbrev pub IsKnown : Config → ProviderId → Type 0
IsKnown config id = is_some (find_provider config id) ≡ true

add_name-IsKnown :
    (config : Config) (id : ProviderId) (name : SecretName) (groups : Groups)
    → IsKnown config id
    → All (λ g. IsKnown config g.0) groups
    → All (λ g. IsKnown config g.0) (add_name id name groups)
unfolding add_name
add_name-IsKnown config id name [] known h = (known, tt)
add_name-IsKnown config id name ((q, names) ∷ groups) known (here, h) =
    elim (Bool-cases (eq_provider_id q id)) [
      | inl same ↦ rw same (here, h)
      | inr other ↦ rw other (here, add_name-IsKnown config id name groups known h)
    ]

pub group-IsKnown :
    (config : Config) (ds : List (ProviderId × SecretName)) (groups : Groups)
    → All (λ d. IsKnown config d.0) ds
    → All (λ g. IsKnown config g.0) groups
    → All (λ g. IsKnown config g.0) (group ds groups)
unfolding group
group-IsKnown config [] groups known h = h
group-IsKnown config ((q, name) ∷ ds) groups (k, known) h =
    group-IsKnown config ds (add_name q name groups) known
      (add_name-IsKnown config q name groups k h)

All-map_of {ℓ} :
    {A : Type ℓ} (P : ProviderId × SecretName → Type 0) (f : A → ProviderId × SecretName)
    (xs : List A)
    → All (λ x. P (f x)) xs
    → All P (map f xs)
All-map_of P f [] h = tt
All-map_of P f (x ∷ xs) (here, h) = (here, All-map_of P f xs h)

pub declared-IsKnown :
    (config : Config) (policy : CommandPolicy)
    → IsResolvable config policy
    → All (λ d. IsKnown config d.0) (declared policy)
declared-IsKnown config policy R =
    (All-append_iff (λ d. IsKnown config d.0)
        (map (λ s. (s.provider, s.secret_name)) policy.secrets)
        (map (λ s. (s.provider, s.secret_name)) policy.proxy_secrets)).1
      (
        All-map_of (λ d. IsKnown config d.0) (λ s. (s.provider, s.secret_name)) policy.secrets
            R.secrets,
        All-map_of (λ d. IsKnown config d.0) (λ s. (s.provider, s.secret_name)) policy.proxy_secrets
            R.proxy_secrets,
      )

module _ (w : World) where
  pub resolve_groups-ne-none :
      (config : Config) (groups : Groups) (ran : List Command) (before : ResolvedByProvider)
      → All (λ g. IsKnown config g.0) groups
      → (resolve_groups w config groups ran before).1 ≢ none
  unfolding resolve_groups
  resolve_groups-ne-none config [] ran before h = λ e. cc
  resolve_groups-ne-none config ((id, names) ∷ groups) ran before (known, h) =
      elim (Option-cases (find_provider config id)) [
        | inl missing ↦ cc (rw missing at known)
        | inr (bws provider, found) ↦ elim (Result-cases (resolve w.shell ran provider names).1) [
          | inr (e, failed) ↦ rw (found, failed, resolve_groups) (λ e. cc)
          | inl (values, done) ↦
              rw (found, done, resolve_groups)
                (resolve_groups-ne-none config groups (resolve w.shell ran provider names).0
                  ((id, values) ∷ before) h)
        ]
      ]
