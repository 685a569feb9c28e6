-- ===== src/Main/Runs.antt =====
-- src/main.rs: every way in which an execution goes.
use iwaya.Prelude.{
  All, String, List, [], ◌∷◌, ◌++◌, map, ◌≡◌, refl, ap, inl, inr, Option-cases, Result-cases, some,
  ok, ◌∙◌,
}
use iwaya.Config.{EnvName, Config, DockerContext, CommandPolicy, ProxySecretSpec}
use iwaya.Config.Loaded.{IsResolvable}
use iwaya.Secret.{Secret}
use iwaya.Run.{
  Command, command_of, exec_runtime, supervise, apply_injected_environment, apply_proxy_environment,
}
use iwaya.Run.InPlace.{exec_runtime_lem}
use iwaya.Run.Supervision.{supervise_runtime-eq}
use iwaya.Transfer.{ProvisionedProxySecret, into_transfer}
use iwaya.Transfer.Confinement.{entries_of, target_environment-into_transfer}
use iwaya.Sidecar.{Sidecar, teardown}
use iwaya.Main.{names_by_provider, declared}
use iwaya.Main.Execute.{
  ResolvedByProvider, resolve_groups, exec_direct, supervise_target, start_sidecar, prepare_image,
  deliver_proxied, deliver_by, deliver_resolved, execute_policy,
}
use iwaya.Main.Surroundings.{World, asked, imaged, attended, supervised, outcome_of}
use iwaya.Main.Resolution.{HasValue, resolve_groups-All}
use iwaya.Main.Delivered.{
  IsEnvironmentOf, IsProvisionedOf, environment_of-IsEnvironmentOf, provision_all-IsProvisionedOf,
}
use iwaya.Main.Known.{declared-IsKnown, group-IsKnown, resolve_groups-ne-none}
use iwaya.Main.Ways.{
  IsDirect, IsExecuted, IsProxied, IsTarget, direct, prepared, proxied, served, started, stayed,
  taken_over, unattended, unprepared, unprovisioned, unresolved,
}

module _ (w : World) (config : Config) (context : DockerContext) (policy : CommandPolicy)
    (args : List String) where
  exec_direct-IsDirect :
      (environment : List (EnvName × Secret))
      → IsEnvironmentOf w config policy.secrets environment
      → IsDirect w config context policy args [] (exec_direct w context policy environment args)
  unfolding exec_direct exec_runtime command_of
  exec_direct-IsDirect environment each =
      let target_command = λ (arguments : List String).
        apply_injected_environment environment
          (record { program = context.runtime; arguments = arguments; environment = [] }) in
      let (arguments, argv, runs) = exec_runtime_lem w.system context policy environment args in
      elim runs [
        | inl (instead, gone) ↦
            taken_over environment (target_command arguments) each
              (record { arguments = arguments; argv = argv; command_eq = refl }) instead refl
              (rw (gone, exec_direct) refl)
        | inr (source, _, stays) ↦
            stayed (record { runtime = context.runtime; source = source }) refl
              (rw (stays, exec_direct) refl)
      ]

  supervise_target-eq :
      (environment : List (EnvName × Secret)) (provisioned : List ProvisionedProxySecret)
      (sidecar : Sidecar)
      → (direct : Command) × IsTarget w config context policy args environment direct
        × (supervise_target w context policy environment args
              (into_transfer w.serde provisioned).1
              sidecar
            ≡ (let run =
                  supervise w.system
                    (apply_proxy_environment (entries_of sidecar.port provisioned) direct)
                    context.runtime in
                (map supervised run.0 ++ map attended (teardown sidecar), outcome_of run.1)))
  unfolding supervise_target
  supervise_target-eq environment provisioned sidecar =
      let (arguments, argv, runs) =
        supervise_runtime-eq w.system context policy environment
          (entries_of sidecar.port provisioned) args in
      (
        _,
        record { arguments = arguments; argv = argv; command_eq = refl },
        rw
            (
              target_environment-into_transfer w.serde provisioned sidecar.port,
              runs,
              supervise_target,
            )
            refl,
      )

  start_sidecar-IsProxied :
      (environment : List (EnvName × Secret)) (provisioned : List ProvisionedProxySecret)
      (image : String)
      → IsEnvironmentOf w config policy.secrets environment
      → IsProvisionedOf w config policy.proxy_secrets provisioned
      → (prepared w config context policy args).1 ≡ ok image
      → IsProxied w config context policy args
          (map imaged (prepared w config context policy args).0
            ++ (start_sidecar w context policy environment args provisioned image).0)
          (start_sidecar w context policy environment args provisioned image).1
  unfolding start_sidecar
  start_sidecar-IsProxied environment provisioned image each provided made =
      elim (Result-cases (started w config context policy args provisioned image).1) [
        | inr (e, failed) ↦
            unattended provisioned image e made failed (rw (failed, start_sidecar) refl)
              (rw (failed, start_sidecar) refl)
        | inl (sidecar, up) ↦
            let (bare, target, runs) = supervise_target-eq environment provisioned sidecar in
            served environment provisioned image sidecar bare
              (apply_proxy_environment (entries_of sidecar.port provisioned) bare) each provided
              made up target refl (rw (up, start_sidecar, runs) refl)
              (rw (up, start_sidecar, runs) refl)
      ]

  prepare_image-IsProxied :
      (environment : List (EnvName × Secret)) (provisioned : List ProvisionedProxySecret)
      → IsEnvironmentOf w config policy.secrets environment
      → IsProvisionedOf w config policy.proxy_secrets provisioned
      → IsProxied w config context policy args
          (prepare_image w context policy environment args provisioned).0
          (prepare_image w context policy environment args provisioned).1
  unfolding prepare_image
  prepare_image-IsProxied environment provisioned each provided =
      elim (Result-cases (prepared w config context policy args).1) [
        | inr (e, failed) ↦
            unprepared e failed (rw (failed, prepare_image) refl) (rw (failed, prepare_image) refl)
        | inl (image, made) ↦
            rw (made, prepare_image)
              (start_sidecar-IsProxied environment provisioned image each provided made)
      ]

  deliver_proxied-IsProxied :
      (environment : List (EnvName × Secret)) (resolved : ResolvedByProvider)
      → IsEnvironmentOf w config policy.secrets environment
      → All (λ s. HasValue w config resolved s.provider s.secret_name) policy.proxy_secrets
      → IsProxied w config context policy args
          (deliver_proxied w context policy environment args resolved).0
          (deliver_proxied w context policy environment args resolved).1
  unfolding deliver_proxied
  deliver_proxied-IsProxied environment resolved each values =
      elim (provision_all-IsProvisionedOf w config resolved 0 policy.proxy_secrets [] values) [
        | inl (e, calls, cause, failed) ↦
            unprovisioned e calls cause (rw (failed, deliver_proxied) refl)
              (rw (failed, deliver_proxied) refl)
        | inr (provisioned, collected, provided) ↦
            rw (collected, deliver_proxied)
              (prepare_image-IsProxied environment provisioned each provided)
      ]

  deliver_by-IsExecuted :
      (commands : List Command) (environment : List (EnvName × Secret))
      (resolved : ResolvedByProvider) (specs : List ProxySecretSpec)
      → IsEnvironmentOf w config policy.secrets environment
      → All (λ s. HasValue w config resolved s.provider s.secret_name) policy.proxy_secrets
      → policy.proxy_secrets ≡ specs
      → IsExecuted w config context policy args
          (map asked commands ++ (deliver_by w context policy environment args resolved specs).0)
          (deliver_by w context policy environment args resolved specs).1
  unfolding deliver_by
  deliver_by-IsExecuted commands environment resolved [] each values same =
      direct commands [] same refl (exec_direct-IsDirect environment each)
  deliver_by-IsExecuted commands environment resolved (spec ∷ specs) each values same =
      proxied commands (deliver_proxied w context policy environment args resolved).0 (λ e. cc) refl
        (deliver_proxied-IsProxied environment resolved each values)

  deliver_resolved-IsExecuted :
      (commands : List Command) (resolved : ResolvedByProvider)
      → All (λ s. HasValue w config resolved s.provider s.secret_name) policy.secrets
      → All (λ s. HasValue w config resolved s.provider s.secret_name) policy.proxy_secrets
      → IsExecuted w config context policy args
          (map asked commands ++ (deliver_resolved w context policy args resolved).0)
          (deliver_resolved w context policy args resolved).1
  unfolding deliver_resolved
  deliver_resolved-IsExecuted commands resolved secrets proxy_secrets =
      let (environment, collected, each) =
        environment_of-IsEnvironmentOf w config resolved policy.secrets secrets in
      rw (collected, deliver_resolved)
        (deliver_by-IsExecuted commands environment resolved policy.proxy_secrets each proxy_secrets
          refl)

  -- The execution of a policy whose references resolve goes in one of these ways.
  pub execute_policy-IsExecuted :
      IsResolvable config policy
      → IsExecuted w config context policy args
          (execute_policy w config context policy args).0
          (execute_policy w config context policy args).1
  unfolding execute_policy names_by_provider
  execute_policy-IsExecuted R =
      let run = resolve_groups w config (names_by_provider policy) [] [] in
      elim (Option-cases run.1) [
        | inl unreachable ↦ absurd (
            resolve_groups-ne-none w config (names_by_provider policy) [] []
              (group-IsKnown config (declared policy) [] (declared-IsKnown config policy R) tt)
              unreachable)
        | inr (result, reached) ↦ elim (Result-cases result) [
          | inr (e, failed) ↦
              unresolved run.0 e (reached ∙ ap some failed)
                (rw (reached, execute_policy, failed) refl)
                (rw (reached, execute_policy, failed) refl)
          | inl (resolved, all) ↦
              let done : run.1 ≡ some (ok resolved) = reached ∙ ap some all in
              let (secrets, proxy_secrets) = resolve_groups-All w config policy resolved done in
              rw (done, execute_policy)
                (deliver_resolved-IsExecuted run.0 resolved secrets proxy_secrets)
        ]
      ]
