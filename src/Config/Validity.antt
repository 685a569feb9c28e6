-- ===== src/Config/Validity.antt =====
-- The validator's loops, and the whole: `validate` accepts exactly the valid configurations.
use iwaya.Prelude.{
  List, [], ◌∷◌, map, reverse_aux, ◌≢◌, ◌≡◌, ◌↔◌, refl, All, Distinct, Fresh, Fresh-nil_iff,
  is_new_iff, Result, ok, ◌>>=◌, All-append_iff, Fresh-append_iff, ◌>>◌, >>=-eq-ok, arith,
}
use iwaya.Config.{
  Config, CommandPolicy, DockerContext, Provider, provider_id, ProxySecretSpec, SecretSpec, EnvName,
  ProviderId, ContextId, CommandId, ParseFailure, eq_provider_id, eq_context_id, eq_command_id,
  eq_env_name,
}
use iwaya.Config.Checks.{
  eq_provider_id_iff, eq_context_id_iff, eq_command_id_iff, eq_env_name_iff, is_env_name_iff,
  is_command_name_iff, validate_context_iff, check_provider_iff, validate_proxy_secret_iff,
}
use iwaya.Config.Valid.{
  IsContext, IsEnvName, IsDeclared, IsProxySecret, IsPolicy, IsValid, proxy_env_names, env_names,
}
use iwaya.Config.Validate.{
  validate_providers, validate_contexts, declare_env_name, declare_secrets, declare_proxy_secrets,
  validate_secrets, validate_proxy_secrets, validate_policy, validate_policies, validate,
}

validate_providers_iff :
    (ps : List Provider) (seen : List ProviderId)
    → (validate_providers ps seen ≡ ok tt) ↔ Fresh (map provider_id ps) seen
unfolding validate_providers
validate_providers_iff [] seen = (λ _. tt, λ _. refl)
validate_providers_iff (p ∷ ps) seen = ground (
  arith,
  is_new_iff eq_provider_id eq_provider_id_iff (provider_id p) seen,
  validate_providers_iff ps (provider_id p ∷ seen),
)

validate_contexts_iff :
    (cs : List DockerContext) (seen : List ContextId)
    → (validate_contexts cs seen ≡ ok tt) ↔ (Fresh (map (λ c. c.id) cs) seen × All IsContext cs)
unfolding validate_contexts
validate_contexts_iff [] seen = (λ _. (tt, tt), λ _. refl)
validate_contexts_iff (c ∷ cs) seen = ground (
  arith,
  is_new_iff eq_context_id eq_context_id_iff c.id seen,
  validate_context_iff c,
  validate_contexts_iff cs (c.id ∷ seen),
)

validate_secrets_iff :
    (config : Config) (policy : CommandPolicy) (ss : List SecretSpec)
    → (validate_secrets config policy ss ≡ ok tt) ↔ All (λ s. IsDeclared config s.provider) ss
unfolding validate_secrets
validate_secrets_iff config policy [] = (λ _. tt, λ _. refl)
validate_secrets_iff config policy (s ∷ ss) = ground (
  arith,
  check_provider_iff config policy s.provider s.env_name,
  validate_secrets_iff config policy ss,
)

validate_proxy_secrets_iff :
    (config : Config) (policy : CommandPolicy) (ps : List ProxySecretSpec)
    → (validate_proxy_secrets config policy ps ≡ ok tt) ↔ All (IsProxySecret config) ps
unfolding validate_proxy_secrets
validate_proxy_secrets_iff config policy [] = (λ _. tt, λ _. refl)
validate_proxy_secrets_iff config policy (p ∷ ps) =
    ground (
      arith,
      validate_proxy_secret_iff config policy p,
      validate_proxy_secrets_iff config policy ps,
    )

-- What declaring a name does to the names declared so far.
declare_env_name-eq-ok_iff :
    (policy : CommandPolicy) (e : EnvName) (seen out : List EnvName)
    → (declare_env_name policy e seen ≡ ok out)
      ↔ (IsEnvName e × All (λ y. e ≢ y) seen × (out ≡ e ∷ seen))
unfolding declare_env_name
declare_env_name-eq-ok_iff policy e seen out =
    ground (arith, is_env_name_iff e, is_new_iff eq_env_name eq_env_name_iff e seen)

declare_secrets-eq-ok_iff :
    (policy : CommandPolicy) (ss : List SecretSpec) (seen out : List EnvName)
    → (declare_secrets policy ss seen ≡ ok out) ↔ (
        All IsEnvName (map (λ s. s.env_name) ss)
        × Fresh (map (λ s. s.env_name) ss) seen
        × (out ≡ reverse_aux (map (λ s. s.env_name) ss) seen))
unfolding declare_secrets
declare_secrets-eq-ok_iff policy [] seen out = (λ h. (tt, tt, ground arith), λ h. ground arith)
declare_secrets-eq-ok_iff policy (s ∷ ss) seen out =
    let (to, from) = declare_env_name-eq-ok_iff policy s.env_name seen (s.env_name ∷ seen) in
    let (to_rest, from_rest) = declare_secrets-eq-ok_iff policy ss (s.env_name ∷ seen) out in
    (
      λ h.
          let (next, declared, later) = >>=-eq-ok _ _ h in
          let (valid, fresh, same) =
            (declare_env_name-eq-ok_iff policy s.env_name seen next).0 declared in
          let (valids, freshes, result) = to_rest (rw same at later) in
          ((valid, valids), (fresh, freshes), result),
      λ ((valid, valids), (fresh, freshes), result).
          rw (from (valid, fresh, refl)) (from_rest (valids, freshes, result)),
    )

declare_proxy_secrets-eq-ok_iff :
    (policy : CommandPolicy) (ps : List ProxySecretSpec) (seen out : List EnvName)
    → (declare_proxy_secrets policy ps seen ≡ ok out) ↔ (
        All IsEnvName (proxy_env_names ps)
        × Fresh (proxy_env_names ps) seen
        × (out ≡ reverse_aux (proxy_env_names ps) seen))
unfolding declare_proxy_secrets
declare_proxy_secrets-eq-ok_iff policy [] seen out =
    (λ h. (tt, tt, ground arith), λ h. ground arith)
declare_proxy_secrets-eq-ok_iff policy (p ∷ ps) seen out =
    let one = p.env_name ∷ seen in
    let two = p.base_url_env ∷ one in
    let (to_rest, from_rest) =
      declare_proxy_secrets-eq-ok_iff policy ps (p.base_url_env ∷ p.env_name ∷ seen) out in
    (
      λ h.
          let (next, declared, later) =
            >>=-eq-ok (declare_env_name policy p.env_name seen)
              (λ n. declare_env_name policy p.base_url_env n >>= declare_proxy_secrets policy ps)
              h in
          let (next', declared', later') =
            >>=-eq-ok (declare_env_name policy p.base_url_env next)
              (declare_proxy_secrets policy ps) later in
          let (v, f, same) = (declare_env_name-eq-ok_iff policy p.env_name seen next).0 declared in
          let (v', f', same') =
            (declare_env_name-eq-ok_iff policy p.base_url_env one next').0 (rw same at declared') in
          let (vs, fs, result) = to_rest (rw same' at later') in
          ((v, (v', vs)), (f, (f', fs)), result),
      λ ((v, (v', vs)), (f, (f', fs)), result).
          rw
            (
              (declare_env_name-eq-ok_iff policy p.env_name seen one).1 (v, f, refl),
              (declare_env_name-eq-ok_iff policy p.base_url_env one two).1 (v', f', refl),
            )
            (from_rest (vs, fs, result)),
    )

-- Success of the two loops in turn: the policy's names are valid and differ from one another.
names-declared_iff :
    (policy : CommandPolicy) (rest : Result ParseFailure (Unit {0}))
    → ((declare_secrets policy policy.secrets [] >>= λ names.
          declare_proxy_secrets policy policy.proxy_secrets names >>= λ _. rest)
        ≡ ok tt)
      ↔ (All IsEnvName (env_names policy) × Distinct (env_names policy) × (rest ≡ ok tt))
names-declared_iff policy rest =
    let direct = map (λ (s : SecretSpec). s.env_name) policy.secrets in
    let proxied = proxy_env_names policy.proxy_secrets in
    let names = reverse_aux direct [] in
    let all_names = All-append_iff IsEnvName direct proxied in
    let fresh_names = Fresh-append_iff direct proxied [] in
    let distinct = Fresh-nil_iff (env_names policy) in
    (
      λ h.
          let (out, declared, later) =
            >>=-eq-ok (declare_secrets policy policy.secrets [])
              (λ n. declare_proxy_secrets policy policy.proxy_secrets n >>= λ _. rest) h in
          let (valid, fresh, same) =
            (declare_secrets-eq-ok_iff policy policy.secrets [] out).0 declared in
          let (out', declared', done) =
            >>=-eq-ok (declare_proxy_secrets policy policy.proxy_secrets out) (λ _. rest) later in
          let (valid', fresh', _) =
            (declare_proxy_secrets-eq-ok_iff policy policy.proxy_secrets names out').0
              (rw same at declared') in
          (all_names.1 (valid, valid'), distinct.0 (fresh_names.1 (fresh, fresh')), done),
      λ (valid, different, done).
          let (v, v') = all_names.0 valid in
          let (f, f') = fresh_names.0 (distinct.1 different) in
          rw
            (
              (declare_secrets-eq-ok_iff policy policy.secrets [] names).1 (v, f, refl),
              (declare_proxy_secrets-eq-ok_iff policy policy.proxy_secrets names
                    (reverse_aux proxied names)).1
                  (v', f', refl),
            )
            done,
    )

validate_policy_iff :
    (config : Config) (policy : CommandPolicy)
    → (validate_policy config policy ≡ ok tt) ↔ IsPolicy config policy
unfolding validate_policy
validate_policy_iff config policy = ground (
  arith,
  is_command_name_iff policy.id.id,
  names-declared_iff policy (
      validate_secrets config policy policy.secrets
      >> validate_proxy_secrets config policy policy.proxy_secrets),
  validate_secrets_iff config policy policy.secrets,
  validate_proxy_secrets_iff config policy policy.proxy_secrets,
)

validate_policies_iff :
    (config : Config) (ps : List CommandPolicy) (seen : List CommandId)
    → (validate_policies config ps seen ≡ ok tt)
      ↔ (Fresh (map (λ p. p.id) ps) seen × All (IsPolicy config) ps)
unfolding validate_policies
validate_policies_iff config [] seen = (λ _. (tt, tt), λ _. refl)
validate_policies_iff config (p ∷ ps) seen = ground (
  arith,
  is_new_iff eq_command_id eq_command_id_iff p.id seen,
  validate_policy_iff config p,
  validate_policies_iff config ps (p.id ∷ seen),
)

-- The validator accepts a configuration exactly if it is valid: the identifiers of providers,
-- contexts and commands are distinct in their kinds, every context and every policy is well-formed,
-- every variable that a policy injects is a variable name and is injected once, and every provider
-- that is referred to is declared.
pub validate_iff : (config : Config) → (validate config ≡ ok tt) ↔ IsValid config
unfolding validate
validate_iff config = ground (
  arith,
  validate_providers_iff config.providers [],
  Fresh-nil_iff (map provider_id config.providers),
  validate_contexts_iff config.contexts [],
  Fresh-nil_iff (map (λ c. c.id) config.contexts),
  validate_policies_iff config config.policies [],
  Fresh-nil_iff (map (λ p. p.id) config.policies),
)
