-- ===== src/Main/Resolution.antt =====
-- src/main.rs: what the loop over the providers has resolved when it ends.
use iwaya.Prelude.{
  List, [], ◌∷◌, map, true, ◌≡◌, refl, ap, subst, ◌∙◌, inl, inr, Bool-cases, Option-cases,
  Result-cases, some, ok, All, All-map, All-append_iff,
}
use text.Mathlib.TextEquality.{eq_iff}
use iwaya.Config.{
  ProviderId, SecretName, Config, CommandPolicy, BwsProvider, bws, find_provider, eq_provider_id,
}
use iwaya.Secret.{Secret, clone_for_shared_declaration}
use iwaya.Run.{Command}
use iwaya.Bws.{
  Resolved, get_secret, resolve, BwsProject, BwsSecret, acquire_access_token, bws_json, bws_command,
}
use iwaya.Bws.Resolution.{IsLast}
use iwaya.Bws.Commands.{IsResolved, resolve-IsResolved}
use iwaya.Main.{declared, names_by_provider}
use iwaya.Main.Grouping.{names_of, declared_of, names_by_provider-eq}
use iwaya.Main.Distinct.{Groups, Lacks, IsDistinct, group-IsDistinct}
use iwaya.Main.Execute.{ResolvedByProvider, get_values, resolved_value, resolve_groups}
use iwaya.Main.Surroundings.{World}

-- A value that the provider of this identifier has for a name: the last one that its project lists
-- under the name's key.
pub record IsSecretOf (w : World) (config : Config) (id : ProviderId) (name : SecretName)
    (value : Secret) : Type 0 where
  pub provider : BwsProvider
  pub configured : find_provider config id ≡ some (bws provider)
  pub ran : List Command
  pub token : Secret
  pub acquired : acquire_access_token w.shell ran provider ≡ ok token
  pub project : BwsProject
  pub project_name : project.name ≡ provider.project
  pub earlier : List Command
  pub secrets : List BwsSecret
  pub listed :
      bws_json w.shell w.shell.secrets_from_slice earlier provider
        (bws_command token ("secret" ∷ "list" ∷ project.id ∷ []))
        "list secrets"
      ≡ ok secrets
  pub last : IsLast name.name secrets value

module _ (w : World) (config : Config) where
  -- The map has the provider's value for the name.
  abbrev pub HasValue : ResolvedByProvider → ProviderId → SecretName → Type 0
  HasValue resolved id name =
      (value : Secret) × (resolved_value resolved id name ≡ some value)
      × IsSecretOf w config id name value

  resolve_groups-get_values :
      (groups : Groups) (ran : List Command) (before resolved : ResolvedByProvider) (p : ProviderId)
      → (resolve_groups w config groups ran before).1 ≡ some (ok resolved)
      → Lacks p groups
      → get_values resolved p ≡ get_values before p
  unfolding resolve_groups get_values
  resolve_groups-get_values [] ran before resolved p h lacks = ap (λ m. get_values m p) (cc)
  resolve_groups-get_values ((id, names) ∷ groups) ran before resolved p h (other, lacks) =
      elim (Option-cases (find_provider config id)) [
        | inl missing ↦ cc (rw (missing, resolve_groups) at h)
        | inr (bws provider, found) ↦ elim (Result-cases (resolve w.shell ran provider names).1) [
          | inr (e, failed) ↦ cc (rw (found, failed, resolve_groups) at h)
          | inl (values, done) ↦
              let commands = (resolve w.shell ran provider names).0 in
              resolve_groups-get_values groups commands ((id, values) ∷ before) resolved p
                (rw (found, done, resolve_groups) at h) lacks
              ∙ rw other refl
        ]
      ]

  IsResolved-HasValue :
      (ran : List Command) (id : ProviderId) (provider : BwsProvider) (names : List SecretName)
      (values : Resolved) (resolved : ResolvedByProvider)
      → find_provider config id ≡ some (bws provider)
      → IsResolved w.shell ran provider names values
      → get_values resolved id ≡ some values
      → All (HasValue resolved id) names
  unfolding resolved_value clone_for_shared_declaration
  IsResolved-HasValue ran id provider names values resolved found R at =
      All-map
        (λ name
            (h : (v : Secret) × (get_secret values name ≡ some v) × IsLast name.name R.secrets v).
          let (v, has, last) = h in
          (
            v,
            rw (at, has) refl,
            record {
              provider = provider;
              configured = found;
              ran = ran;
              token = R.token;
              acquired = R.acquired;
              project = R.project;
              project_name = R.project_name;
              earlier = R.earlier;
              secrets = R.secrets;
              listed = R.listed;
              last = last;
            },
          ))
        names R.resolution.values

  resolve_groups-HasValue :
      (groups : Groups) (ran : List Command) (before resolved : ResolvedByProvider)
      → IsDistinct groups
      → (resolve_groups w config groups ran before).1 ≡ some (ok resolved)
      → (p : ProviderId) → All (HasValue resolved p) (names_of p groups)
  unfolding resolve_groups names_of get_values
  resolve_groups-HasValue [] ran before resolved d h p = tt
  resolve_groups-HasValue ((id, names) ∷ groups) ran before resolved (lacks, d) h p =
      elim (Option-cases (find_provider config id)) [
        | inl missing ↦ cc (rw (missing, resolve_groups) at h)
        | inr (bws provider, found) ↦ elim (Result-cases (resolve w.shell ran provider names).1) [
          | inr (e, failed) ↦ cc (rw (found, failed, resolve_groups) at h)
          | inl (values, done) ↦
              let commands = (resolve w.shell ran provider names).0 in
              let rest : (resolve_groups w config groups commands ((id, values) ∷ before)).1
                  ≡ some (ok resolved) =
                rw (found, done, resolve_groups) at h in
              elim (Bool-cases (eq_provider_id id p)) [
                | inr other ↦ rw other (
                    resolve_groups-HasValue groups commands ((id, values) ∷ before) resolved d rest
                      p)
                | inl same ↦
                    let it : id ≡ p = ap (λ s. record { id = s }) ((eq_iff id.id p.id).0 same) in
                    let own : eq_provider_id id id ≡ true = (eq_iff id.id id.id).1 refl in
                    let at : get_values resolved id ≡ some values =
                      resolve_groups-get_values groups commands ((id, values) ∷ before) resolved id
                        rest lacks
                      ∙ rw own refl in
                    rw same (
                      subst (λ q. All (HasValue resolved q) names) it
                        (IsResolved-HasValue ran id provider names values resolved found
                          (resolve-IsResolved w.shell ran provider names values done) at))
              ]
        ]
      ]

  -- What holds of the names declared with each provider holds of each declaration.
  declared_of-All :
      (P : ProviderId → SecretName → Type 0) (ds : List (ProviderId × SecretName))
      → ((p : ProviderId) → All (P p) (declared_of p ds))
      → All (λ d. P d.0 d.1) ds
  unfolding declared_of
  declared_of-All P [] h = tt
  declared_of-All P ((q, name) ∷ ds) h =
      let own : eq_provider_id q q ≡ true = (eq_iff q.id q.id).1 refl in
      let here : All (P q) (name ∷ declared_of q ds) = rw own at (h q) in
      (
        here.0,
        declared_of-All P ds (λ p. elim (Bool-cases (eq_provider_id q p)) [
          | inl same ↦ let there : All (P p) (name ∷ declared_of p ds) = rw same at (h p) in there.1
          | inr other ↦ rw other at (h p)
        ]),
      )

  All-of-map {ℓ} :
      {A : Type ℓ} (P : ProviderId × SecretName → Type 0) (f : A → ProviderId × SecretName)
      (xs : List A)
      → All P (map f xs)
      → All (λ x. P (f x)) xs
  All-of-map P f [] h = tt
  All-of-map P f (x ∷ xs) (here, h) = (here, All-of-map P f xs h)

  -- When the loop ends with `Ok`, every declaration of the policy has its provider's value.
  pub resolve_groups-All :
      (policy : CommandPolicy) (resolved : ResolvedByProvider)
      → (resolve_groups w config (names_by_provider policy) [] []).1 ≡ some (ok resolved)
      → All (λ s. HasValue resolved s.provider s.secret_name) policy.secrets
        × All (λ s. HasValue resolved s.provider s.secret_name) policy.proxy_secrets
  unfolding names_by_provider
  resolve_groups-All policy resolved h =
      let values =
        resolve_groups-HasValue (names_by_provider policy) [] [] resolved
          (group-IsDistinct (declared policy) [] tt) h in
      let P = λ (d : ProviderId × SecretName). HasValue resolved d.0 d.1 in
      let all : All P (declared policy) =
        declared_of-All (HasValue resolved) (declared policy)
          (λ p. subst (All (HasValue resolved p)) (names_by_provider-eq policy p) (values p)) in
      let (direct, proxied) =
        (All-append_iff P (map (λ s. (s.provider, s.secret_name)) policy.secrets)
            (map (λ s. (s.provider, s.secret_name)) policy.proxy_secrets)).0
          all in
      (
        All-of-map P (λ s. (s.provider, s.secret_name)) policy.secrets direct,
        All-of-map P (λ s. (s.provider, s.secret_name)) policy.proxy_secrets proxied,
      )
