-- ===== src/Main/Execute.antt =====
-- src/main.rs: `execute`, with what it does to its surroundings, in order.
use iwaya.Prelude.{
  ℕ, suc, String, List, [], ◌∷◌, ◌++◌, map, push, Option, none, some, Result, ok, err, and_then,
  map_option, if◌then◌else◌,
}
use iwaya.Config.{
  ProviderId, SecretName, EnvName, Config, CommandPolicy, SecretSpec, ProxySecretSpec,
  DockerContext, bws, find_provider, find_context, find_policy, eq_provider_id,
}
use iwaya.Config.Load.{load}
use iwaya.Secret.{Secret, clone_for_shared_declaration}
use iwaya.Phantom.{GenerateError}
use iwaya.Bws.{ResolveError, Resolved, get_secret, resolve}
use iwaya.Transfer.{
  ProvisionedProxySecret, ProxySecretPlan, provision, into_transfer, target_environment,
}
use iwaya.ProxyImage.Build.{ensure_proxy_image}
use iwaya.Sidecar.{Sidecar, start, teardown}
use iwaya.Run.{Command, failed, exec_runtime, supervise_runtime, Replacement}
use iwaya.Main.Surroundings.{
  World, Event, asked, imaged, attended, supervised, Outcome, refused, became, panicked, outcome_of,
}
use iwaya.Main.{Failure, Invocation, config_path, names_by_provider}

-- The map of the resolved secrets, with the provider that was inserted last in front.
abbrev pub ResolvedByProvider : Type 0
ResolvedByProvider = List (ProviderId × Resolved)

unfoldable pub get_values : ResolvedByProvider → ProviderId → Option Resolved
get_values [] provider = none
get_values ((id, values) ∷ rest) provider =
    let later = get_values rest provider in
    if eq_provider_id id provider then some values else later

-- The closure `resolved_value`; `none` is the panic of its `expect`.
unfoldable pub resolved_value : ResolvedByProvider → ProviderId → SecretName → Option Secret
resolved_value resolved provider name =
    map_option clone_for_shared_declaration
      (and_then (get_values resolved provider) (λ values. get_secret values name))

-- The collection of `environment`.
unfoldable pub environment_of :
    ResolvedByProvider → List SecretSpec → Option (List (EnvName × Secret))
environment_of resolved [] = some []
environment_of resolved (spec ∷ rest) =
    let later = environment_of resolved rest in
    and_then (resolved_value resolved spec.provider spec.secret_name)
      (λ value. map_option (λ entries. (spec.env_name, value) ∷ entries) later)

module _ (w : World) where
  -- The loop over the providers; `none` is its `unreachable!`.
  unfoldable pub resolve_groups :
      Config
      → List (ProviderId × List SecretName)
      → List Command
      → ResolvedByProvider
      → List Command × Option (Result ResolveError ResolvedByProvider)
  resolve_groups config [] ran resolved = (ran, some (ok resolved))
  resolve_groups config ((id, names) ∷ groups) ran resolved = elim (find_provider config id) [
    | none ↦ (ran, none)
    | some (bws provider) ↦
        let (commands, result) = resolve w.shell ran provider names in
        elim result [
          | err e ↦ (commands, some (err e))
          | ok values ↦ resolve_groups config groups commands ((id, values) ∷ resolved)
        ]
  ]

  -- The loop of the provisioning, after so many calls of the entropy source.
  unfoldable pub provision_all :
      ResolvedByProvider
      → ℕ
      → List ProxySecretSpec
      → List ProvisionedProxySecret
      → Option (Result GenerateError (List ProvisionedProxySecret))
  provision_all resolved calls [] provisioned = some (ok provisioned)
  provision_all resolved calls (spec ∷ rest) provisioned =
      elim (resolved_value resolved spec.provider spec.secret_name) [
        | none ↦ none
        | some raw_value ↦ elim (provision (w.fill calls) spec raw_value) [
          | err e ↦ some (err e)
          | ok secret ↦ provision_all resolved (suc calls) rest (push provisioned secret)
        ]
      ]

  -- The direct delivery.
  unfoldable pub exec_direct :
      DockerContext → CommandPolicy → List (EnvName × Secret) → List String → Outcome
  exec_direct context policy environment args =
      elim (exec_runtime w.system context policy environment args) [
        | none ↦ panicked
        | some (failed e) ↦ refused (Failure.execution e)
        | some (Replacement.became command) ↦ became command
      ]

  -- The supervision, and the drop of the sidecar behind it.
  unfoldable pub supervise_target :
      DockerContext
      → CommandPolicy
      → List (EnvName × Secret)
      → List String
      → List ProxySecretPlan
      → Sidecar
      → List Event × Outcome
  supervise_target context policy environment args plans sidecar =
      elim (supervise_runtime w.system context policy environment
        (target_environment plans sidecar.port) args) [
          | none ↦ (map attended (teardown sidecar), panicked)
          | some (events, result) ↦
              (map supervised events ++ map attended (teardown sidecar), outcome_of result)
        ]

  -- The sidecar's start, with the image.
  unfoldable pub start_sidecar :
      DockerContext
      → CommandPolicy
      → List (EnvName × Secret)
      → List String
      → List ProvisionedProxySecret
      → String
      → List Event × Outcome
  start_sidecar context policy environment args provisioned image =
      let (transfer, plans) = into_transfer w.serde provisioned in
      let (started, result) = start w.host context.runtime image context.container_name transfer in
      elim result [
        | err e ↦ (map attended started, refused (Failure.sidecar e))
        | ok sidecar ↦
            let (events, outcome) =
              supervise_target context policy environment args plans sidecar in
            (map attended started ++ events, outcome)
      ]

  -- The proxied delivery, with what was provisioned.
  unfoldable pub prepare_image :
      DockerContext
      → CommandPolicy
      → List (EnvName × Secret)
      → List String
      → List ProvisionedProxySecret
      → List Event × Outcome
  prepare_image context policy environment args provisioned =
      let (prepared, result) =
        ensure_proxy_image w.machine w.process w.sha256 w.version context.runtime in
      elim result [
        | err e ↦ (map imaged prepared, refused (Failure.proxy_image e))
        | ok image ↦
            let (events, outcome) =
              start_sidecar context policy environment args provisioned image in
            (map imaged prepared ++ events, outcome)
      ]

  unfoldable pub deliver_proxied :
      DockerContext
      → CommandPolicy
      → List (EnvName × Secret)
      → List String
      → ResolvedByProvider
      → List Event × Outcome
  deliver_proxied context policy environment args resolved =
      elim (provision_all resolved 0 policy.proxy_secrets []) [
        | none ↦ ([], panicked)
        | some (err e) ↦ ([], refused (Failure.provision e))
        | some (ok provisioned) ↦ prepare_image context policy environment args provisioned
      ]

  -- The test of `proxy_secrets.is_empty()`.
  unfoldable pub deliver_by :
      DockerContext
      → CommandPolicy
      → List (EnvName × Secret)
      → List String
      → ResolvedByProvider
      → List ProxySecretSpec
      → List Event × Outcome
  deliver_by context policy environment args resolved [] =
      ([], exec_direct context policy environment args)
  deliver_by context policy environment args resolved (_ ∷ _) =
      deliver_proxied context policy environment args resolved

  -- The execution behind the resolution.
  unfoldable pub deliver_resolved :
      DockerContext → CommandPolicy → List String → ResolvedByProvider → List Event × Outcome
  deliver_resolved context policy args resolved = elim (environment_of resolved policy.secrets) [
    | none ↦ ([], panicked)
    | some environment ↦ deliver_by context policy environment args resolved policy.proxy_secrets
  ]

  -- The execution of a policy in a context.
  unfoldable pub execute_policy :
      Config → DockerContext → CommandPolicy → List String → List Event × Outcome
  execute_policy config context policy args =
      let (commands, result) = resolve_groups config (names_by_provider policy) [] [] in
      elim result [
        | none ↦ (map asked commands, panicked)
        | some (err e) ↦ (map asked commands, refused (Failure.resolution e))
        | some (ok resolved) ↦
            let (events, outcome) = deliver_resolved context policy args resolved in
            (map asked commands ++ events, outcome)
      ]

  -- `execute`
  unfoldable pub execute : Invocation → List Event × Outcome
  execute invocation = elim (load w.kdl w.read_to_string (config_path w.var_os)) [
    | err e ↦ ([], refused (Failure.config e))
    | ok config ↦ elim (find_context config invocation.context) [
      | none ↦ ([], refused (Failure.unknown_context invocation.context))
      | some context ↦ elim (find_policy config invocation.command) [
        | none ↦ ([], refused (Failure.unknown_command invocation.command))
        | some policy ↦ execute_policy config context policy invocation.args
      ]
    ]
  ]
