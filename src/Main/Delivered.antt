-- ===== src/Main/Delivered.antt =====
-- src/main.rs: the environment and the provisioned secrets that the resolved values give.
use iwaya.Prelude.{
  ℕ, suc, List, [], ◌∷◌, ◌++◌, push, some, ok, err, ◌≡◌, ◌⊎◌, refl, sym, ap, subst, ◌∙◌, inl, inr,
  All, Result-cases, >>=-eq-ok,
}
use mathlib.Core.List.{append-nil, append_assoc}
use iwaya.Config.{EnvName, Config, SecretSpec, ProxySecretSpec}
use iwaya.Secret.{Secret}
use iwaya.Phantom.{GenerateError, generate}
use iwaya.Transfer.{ProvisionedProxySecret, provision}
use iwaya.Main.Execute.{ResolvedByProvider, environment_of, provision_all}
use iwaya.Main.Surroundings.{World}
use iwaya.Main.Resolution.{IsSecretOf, HasValue}

module _ (w : World) (config : Config) where
  -- One entry for each direct secret, in order, under its variable and with its provider's value.
  abbrev pub IsEnvironmentOf : List SecretSpec → List (EnvName × Secret) → Type 0
  IsEnvironmentOf [] [] = Unit
  IsEnvironmentOf [] (_ ∷ _) = ⊥
  IsEnvironmentOf (_ ∷ _) [] = ⊥
  IsEnvironmentOf (spec ∷ specs) (entry ∷ entries) =
      (entry.0 ≡ spec.env_name)
      × IsSecretOf w config spec.provider spec.secret_name entry.1
      × IsEnvironmentOf specs entries

  -- A declaration's fields, its provider's value, and a phantom that was minted for it.
  pub record IsProvisioned (spec : ProxySecretSpec) (secret : ProvisionedProxySecret) : Type 0 where
    pub env_name : secret.env_name ≡ spec.env_name
    pub base_url_env : secret.base_url_env ≡ spec.base_url_env
    pub header_name : secret.header_name ≡ spec.inject_header.name
    pub template : secret.template ≡ spec.inject_header.template
    pub upstream : secret.upstream ≡ spec.upstream
    pub calls : ℕ
    pub minted : generate (w.fill calls) ≡ ok secret.phantom
    pub raw_value : IsSecretOf w config spec.provider spec.secret_name secret.raw_value

  abbrev pub IsProvisionedOf : List ProxySecretSpec → List ProvisionedProxySecret → Type 0
  IsProvisionedOf [] [] = Unit
  IsProvisionedOf [] (_ ∷ _) = ⊥
  IsProvisionedOf (_ ∷ _) [] = ⊥
  IsProvisionedOf (spec ∷ specs) (secret ∷ secrets) =
      IsProvisioned spec secret × IsProvisionedOf specs secrets

  pub environment_of-IsEnvironmentOf :
      (resolved : ResolvedByProvider) (specs : List SecretSpec)
      → All (λ s. HasValue w config resolved s.provider s.secret_name) specs
      → (entries : List (EnvName × Secret)) × (environment_of resolved specs ≡ some entries)
        × IsEnvironmentOf specs entries
  unfolding environment_of
  environment_of-IsEnvironmentOf resolved [] h = ([], refl, tt)
  environment_of-IsEnvironmentOf resolved (spec ∷ specs) ((v, at, of), h) =
      let (entries, collected, each) = environment_of-IsEnvironmentOf resolved specs h in
      ((spec.env_name, v) ∷ entries, rw (at, collected) refl, (refl, of, each))

  provision-IsProvisioned :
      (calls : ℕ) (spec : ProxySecretSpec) (raw : Secret) (secret : ProvisionedProxySecret)
      → IsSecretOf w config spec.provider spec.secret_name raw
      → provision (w.fill calls) spec raw ≡ ok secret
      → IsProvisioned spec secret
  unfolding provision
  provision-IsProvisioned calls spec raw secret of h =
      let (phantom, minted, same) = >>=-eq-ok (generate (w.fill calls)) _ h in
      let built : ProvisionedProxySecret = record {
        env_name = spec.env_name;
        base_url_env = spec.base_url_env;
        header_name = spec.inject_header.name;
        template = spec.inject_header.template;
        upstream = spec.upstream;
        phantom = phantom;
        raw_value = raw;
      } in
      let it : built ≡ secret = cc in
      subst (IsProvisioned spec) it (record {
        env_name = refl;
        base_url_env = refl;
        header_name = refl;
        template = refl;
        upstream = refl;
        calls = calls;
        minted = minted;
        raw_value = of;
      })

  provision-err :
      (calls : ℕ) (spec : ProxySecretSpec) (raw : Secret) (e : GenerateError)
      → provision (w.fill calls) spec raw ≡ err e
      → generate (w.fill calls) ≡ err e
  unfolding provision
  provision-err calls spec raw e h = elim (Result-cases (generate (w.fill calls))) [
    | inl (phantom, minted) ↦ cc (rw (minted, provision) at h)
    | inr (other, failed) ↦ cc (rw (failed, provision) at h)
  ]

  pub provision_all-IsProvisionedOf :
      (resolved : ResolvedByProvider) (calls : ℕ) (specs : List ProxySecretSpec)
      (before : List ProvisionedProxySecret)
      → All (λ s. HasValue w config resolved s.provider s.secret_name) specs
      → ((e : GenerateError) × (n : ℕ) × (generate (w.fill n) ≡ err e)
          × (provision_all w resolved calls specs before ≡ some (err e)))
        ⊎ ((secrets : List ProvisionedProxySecret) × (provision_all w resolved calls specs before
              ≡ some (ok (before ++ secrets)))
            × IsProvisionedOf specs secrets)
  unfolding provision_all
  provision_all-IsProvisionedOf resolved calls [] before h =
      inr ([], ap (λ l. some (ok l)) (sym (append-nil before)), tt)
  provision_all-IsProvisionedOf resolved calls (spec ∷ specs) before ((v, at, of), h) =
      elim (Result-cases (provision (w.fill calls) spec v)) [
        | inr (e, failed) ↦
            inl (e, calls, provision-err calls spec v e failed, rw (at, failed, provision_all) refl)
        | inl (secret, provisioned) ↦
            elim (provision_all-IsProvisionedOf resolved (suc calls) specs (push before secret) h) [
              | inl (e, n, cause, failed) ↦
                  inl (e, n, cause, rw (at, provisioned, provision_all) failed)
              | inr (secrets, collected, each) ↦ inr (
                secret ∷ secrets,
                rw (at, provisioned, provision_all)
                    (collected ∙ ap (λ l. some (ok l)) (append_assoc before (secret ∷ []) secrets)),
                (provision-IsProvisioned calls spec v secret of provisioned, each),
              )
            ]
      ]
