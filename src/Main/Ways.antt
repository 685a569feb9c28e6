-- ===== src/Main/Ways.antt =====
-- src/main.rs: the ways in which an execution goes, case by case.
use iwaya.Prelude.{ℕ, String, List, [], ◌∷◌, ◌++◌, map, ◌≡◌, ◌≢◌, Result, some, ok, err}
use iwaya.Config.{EnvName, Config, DockerContext, CommandPolicy}
use iwaya.Secret.{Secret}
use iwaya.Bws.{ResolveError}
use iwaya.Phantom.{GenerateError, generate}
use iwaya.Run.{replaced as exec_replaced}
use iwaya.Run.{
  Command, ExecError, supervise, build_argv, apply_injected_environment, apply_proxy_environment,
}
use iwaya.Transfer.{ProvisionedProxySecret, into_transfer}
use iwaya.Transfer.Confinement.{entries_of}
use iwaya.ProxyImage.{ProxyImageError}
use iwaya.ProxyImage.Build.{ensure_proxy_image}
use iwaya.ProxyImage.Build.{Event as ImageEvent}
use iwaya.Sidecar.{Sidecar, SidecarError, start, teardown}
use iwaya.Sidecar.{Event as SidecarEvent}
use iwaya.Main.{Failure, names_by_provider}
use iwaya.Main.Execute.{resolve_groups}
use iwaya.Main.Surroundings.{
  World, Event, asked, imaged, attended, supervised, Outcome, refused, became, outcome_of,
}
use iwaya.Main.Delivered.{IsEnvironmentOf, IsProvisionedOf}

module _ (w : World) (config : Config) (context : DockerContext) (policy : CommandPolicy)
    (args : List String) where
  -- The process that the runtime is started as, with the direct secrets' entries.
  pub record IsTarget (environment : List (EnvName × Secret)) (command : Command) : Type 0 where
    pub arguments : List String
    pub argv : build_argv context policy args ≡ context.runtime ∷ arguments
    pub command_eq :
        command
        ≡ apply_injected_environment environment
            (record { program = context.runtime; arguments = arguments; environment = [] })

  -- What the preparation of the image does, and what it gives.
  abbrev pub prepared : List ImageEvent × Result ProxyImageError String
  prepared = ensure_proxy_image w.machine w.process w.sha256 w.version context.runtime

  -- What the start of the sidecar does, and what it gives.
  abbrev pub started :
      List ProvisionedProxySecret → String → List SidecarEvent × Result SidecarError Sidecar
  started provisioned image =
      start w.host context.runtime image context.container_name
        (into_transfer w.serde provisioned).0

  -- The delivery through the proxy: the events behind the resolution, and the outcome.
  pub data IsProxied (events : List Event) (outcome : Outcome) : Type 0 where
    unprovisioned :
        (e : GenerateError) (calls : ℕ)
        → generate (w.fill calls) ≡ err e
        → events ≡ []
        → outcome ≡ refused (Failure.provision e)
        → IsProxied events outcome
    unprepared :
        (e : ProxyImageError)
        → prepared.1 ≡ err e
        → events ≡ map imaged prepared.0
        → outcome ≡ refused (Failure.proxy_image e)
        → IsProxied events outcome
    unattended :
        (provisioned : List ProvisionedProxySecret) (image : String) (e : SidecarError)
        → prepared.1 ≡ ok image
        → (started provisioned image).1 ≡ err e
        → events ≡ map imaged prepared.0 ++ map attended (started provisioned image).0
        → outcome ≡ refused (Failure.sidecar e)
        → IsProxied events outcome
    served :
        (environment : List (EnvName × Secret)) (provisioned : List ProvisionedProxySecret)
        (image : String) (sidecar : Sidecar) (direct command : Command)
        → IsEnvironmentOf w config policy.secrets environment
        → IsProvisionedOf w config policy.proxy_secrets provisioned
        → prepared.1 ≡ ok image
        → (started provisioned image).1 ≡ ok sidecar
        → IsTarget environment direct
        → command ≡ apply_proxy_environment (entries_of sidecar.port provisioned) direct
        → events
          ≡ map imaged prepared.0
            ++ (map attended (started provisioned image).0
                ++ (map supervised (supervise w.system command context.runtime).0
                    ++ map attended (teardown sidecar)))
        → outcome ≡ outcome_of (supervise w.system command context.runtime).1
        → IsProxied events outcome

  -- The direct delivery.
  pub data IsDirect (events : List Event) (outcome : Outcome) : Type 0 where
    stayed :
        (e : ExecError)
        → events ≡ []
        → outcome ≡ refused (Failure.execution e)
        → IsDirect events outcome
    taken_over :
        (environment : List (EnvName × Secret)) (command : Command)
        → IsEnvironmentOf w config policy.secrets environment
        → IsTarget environment command
        → w.system.exec command ≡ exec_replaced
        → events ≡ []
        → outcome ≡ became command
        → IsDirect events outcome

  -- The execution of the policy: the resolution fails, or the secrets are delivered behind it.
  pub data IsExecuted (events : List Event) (outcome : Outcome) : Type 0 where
    unresolved :
        (commands : List Command) (e : ResolveError)
        → (resolve_groups w config (names_by_provider policy) [] []).1 ≡ some (err e)
        → events ≡ map asked commands
        → outcome ≡ refused (Failure.resolution e)
        → IsExecuted events outcome
    direct :
        (commands : List Command) (rest : List Event)
        → policy.proxy_secrets ≡ []
        → events ≡ map asked commands ++ rest
        → IsDirect rest outcome
        → IsExecuted events outcome
    proxied :
        (commands : List Command) (rest : List Event)
        → policy.proxy_secrets ≢ []
        → events ≡ map asked commands ++ rest
        → IsProxied rest outcome
        → IsExecuted events outcome
