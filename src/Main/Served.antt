-- ===== src/Main/Served.antt =====
-- src/main.rs: an invocation that returns its target's code, from the configuration to the exit.
use iwaya.Prelude.{
  ℕ, String, List, [], ◌∷◌, map, true, ◌≡◌, ◌≢◌, refl, sym, ap, subst, ok, err, some, ◌∙◌, All,
  Result, Option, none,
}
use iwaya.Config.{
  EnvName, Config, DockerContext, CommandPolicy, ProxySecretSpec, find_context, find_policy,
}
use iwaya.Config.Load.{load}
use iwaya.Config.Loaded.{find_policy-IsResolvable}
use iwaya.Config.Valid.{IsProxySecret}
use iwaya.Config.Origin.{is_http_origin}
use iwaya.Secret.{Secret}
use iwaya.Run.{Command, ExecError, ExitStatus, exit_code_of, supervise, apply_proxy_environment}
use iwaya.Run.Ended.{supervise-ok}
use iwaya.Transfer.{ProvisionedProxySecret, IsFaithful}
use iwaya.Transfer.Confinement.{entries_of}
use iwaya.Transfer.RoundTrip.{armed_route}
use iwaya.Proxy.{parse_transfer}
use iwaya.Sidecar.{Sidecar}
use iwaya.Sidecar.Handover.{written, start-parse_transfer}
use iwaya.Main.{Invocation, config_path}
use iwaya.Main.Execute.{execute}
use iwaya.Main.Input.{sidecar_input, sidecar_input-asked, sidecar_input-served}
use iwaya.Main.Surroundings.{World, Event, Outcome, finished, outcome_of}
use iwaya.Main.Delivered.{IsEnvironmentOf, IsProvisionedOf}
use iwaya.Main.Ways.{
  IsTarget, IsExecuted, unresolved, direct, proxied, IsDirect, stayed, taken_over, IsProxied,
  unprovisioned, unprepared, unattended, served, prepared, started,
}
use iwaya.Main.Outcomes.{IsInvoked, unloaded, no_context, no_command, executed, execute-IsInvoked}

-- A supervised target: the environment and the provisioned secrets are the policy's, the sidecar came
-- up with the document of the provisioned secrets, and the target's status is the code.
pub record IsServed (w : World) (config : Config) (context : DockerContext) (policy : CommandPolicy)
    (args : List String) (events : List Event) (code : ℕ) : Type 0 where
  pub proxied_some : policy.proxy_secrets ≢ []
  pub environment : List (EnvName × Secret)
  pub environment_each : IsEnvironmentOf w config policy.secrets environment
  pub provisioned : List ProvisionedProxySecret
  pub provisioned_each : IsProvisionedOf w config policy.proxy_secrets provisioned
  pub image : String
  pub image_made : (prepared w config context policy args).1 ≡ ok image
  pub sidecar : Sidecar
  pub input :
      sidecar_input events ≡ written (started w config context policy args provisioned image).0
  pub sidecar_up : (started w config context policy args provisioned image).1 ≡ ok sidecar
  pub bare : Command
  pub target : IsTarget w config context policy args environment bare
  pub pid : ℕ
  pub status : ExitStatus
  pub spawned :
      w.system.spawn (apply_proxy_environment (entries_of sidecar.port provisioned) bare) ≡ ok pid
  pub waited : w.system.wait pid ≡ ok status
  pub code_eq : exit_code_of status ≡ code

outcome_of-finished :
    (r : Option (Result ExecError ℕ)) {code : ℕ} → outcome_of r ≡ finished code → r ≡ some (ok code)
outcome_of-finished none h = cc
outcome_of-finished (some (ok n)) h = cc
outcome_of-finished (some (err e)) h = cc

module _ (w : World) (config : Config) (context : DockerContext) (policy : CommandPolicy)
    (args : List String) (code : ℕ) where
  IsProxied-IsServed :
      {events : List Event} {outcome : Outcome} (whole : List Event)
      → sidecar_input whole ≡ sidecar_input events
      → policy.proxy_secrets ≢ []
      → IsProxied w config context policy args events outcome
      → outcome ≡ finished code
      → IsServed w config context policy args whole code
  IsProxied-IsServed whole written_alike some_proxied (unprovisioned e _ _ _ ended) h = cc
  IsProxied-IsServed whole written_alike some_proxied (unprepared e _ _ ended) h = cc
  IsProxied-IsServed whole written_alike some_proxied (unattended provisioned image e _ _ _ ended)
        h =
      cc
  IsProxied-IsServed whole written_alike some_proxied
        (served environment provisioned image sidecar bare command each provided made up target same
          split ended)
        h =
      let done : (supervise w.system command context.runtime).1 ≡ some (ok code) =
        outcome_of-finished _ (sym ended ∙ h) in
      let (pid, status, spawned, waited, code_eq) =
        supervise-ok w.system command context.runtime code done in
      record {
        proxied_some = some_proxied;
        environment = environment;
        environment_each = each;
        provisioned = provisioned;
        provisioned_each = provided;
        image = image;
        image_made = made;
        sidecar = sidecar;
        input = written_alike ∙ ap sidecar_input split ∙ sidecar_input-served _ _ _ sidecar;
        sidecar_up = up;
        bare = bare;
        target = target;
        pid = pid;
        status = status;
        spawned = subst (λ c. w.system.spawn c ≡ ok pid) same spawned;
        waited = waited;
        code_eq = code_eq;
      }

  IsDirect-ne-finished :
      {events : List Event} {outcome : Outcome}
      → IsDirect w config context policy args events outcome
      → outcome ≢ finished code
  IsDirect-ne-finished (stayed e _ ended) = λ h. cc
  IsDirect-ne-finished (taken_over environment command _ _ _ _ gone) = λ h. cc

  IsExecuted-IsServed :
      {events : List Event} {outcome : Outcome}
      → IsExecuted w config context policy args events outcome
      → outcome ≡ finished code
      → IsServed w config context policy args events code
  IsExecuted-IsServed (unresolved commands e _ _ ended) h = cc
  IsExecuted-IsServed (direct commands rest _ _ it) h = absurd (IsDirect-ne-finished it h)
  IsExecuted-IsServed {events} (proxied commands rest some_proxied split it) h =
      IsProxied-IsServed events (ap sidecar_input split ∙ sidecar_input-asked commands rest)
        some_proxied it h

-- An invocation that returned a code: what it selected was configured, and its target was served.
pub record IsFinished (w : World) (invocation : Invocation) (code : ℕ) : Type 0 where
  pub config : Config
  pub context : DockerContext
  pub policy : CommandPolicy
  pub loaded : load w.kdl w.read_to_string (config_path w.var_os) ≡ ok config
  pub selected : find_context config invocation.context ≡ some context
  pub found : find_policy config invocation.command ≡ some policy
  pub served : IsServed w config context policy invocation.args (execute w invocation).0 code

IsInvoked-IsFinished :
    (w : World) (invocation : Invocation) (code : ℕ) {outcome : Outcome}
    → IsInvoked w invocation (execute w invocation).0 outcome
    → outcome ≡ finished code
    → IsFinished w invocation code
IsInvoked-IsFinished w invocation code (unloaded e _ _ ended) h = cc
IsInvoked-IsFinished w invocation code (no_context c _ _ _ ended) h = cc
IsInvoked-IsFinished w invocation code (no_command c _ _ _ ended) h = cc
IsInvoked-IsFinished w invocation code (executed config context policy loaded selected found it) h =
    record {
      config = config;
      context = context;
      policy = policy;
      loaded = loaded;
      selected = selected;
      found = found;
      served = IsExecuted-IsServed w config context policy invocation.args code it h;
    }

pub execute-IsFinished :
    (w : World) (invocation : Invocation) (code : ℕ)
    → (execute w invocation).1 ≡ finished code
    → IsFinished w invocation code
execute-IsFinished w invocation code h =
    IsInvoked-IsFinished w invocation code (execute-IsInvoked w invocation) h

module _ (w : World) (config : Config) where
  provisioned-origins :
      (specs : List ProxySecretSpec) (secrets : List ProvisionedProxySecret)
      → IsProvisionedOf w config specs secrets
      → All (IsProxySecret config) specs
      → All (λ p. is_http_origin p.upstream ≡ true) secrets
  provisioned-origins [] [] h valid = tt
  provisioned-origins [] (_ ∷ _) h valid = absurd h
  provisioned-origins (_ ∷ _) [] h valid = absurd h
  provisioned-origins (spec ∷ specs) (secret ∷ secrets) (it, h) (v, valid) =
      (ap is_http_origin it.upstream ∙ v.origin, provisioned-origins specs secrets h valid)

  provisioned-ne-nil :
      (specs : List ProxySecretSpec) (secrets : List ProvisionedProxySecret)
      → IsProvisionedOf w config specs secrets
      → specs ≢ []
      → secrets ≢ []
  provisioned-ne-nil [] secrets h some_spec = absurd (some_spec refl)
  provisioned-ne-nil (spec ∷ specs) [] h some_spec = absurd h
  provisioned-ne-nil (spec ∷ specs) (secret ∷ secrets) h some_spec = λ e. cc

-- What the sidecar of such an invocation read on its standard input arms one route for each proxied
-- secret of the policy, in order: with the secret's header, template and upstream, the phantom that the
-- target was given for it, and its provider's value. No hypothesis on the upstreams is needed, since the
-- configuration was validated.
pub execute-parse_transfer :
    (w : World) (invocation : Invocation) (code : ℕ)
    → IsFaithful w.serde
    → (h : (execute w invocation).1 ≡ finished code)
    → parse_transfer w.serde (sidecar_input (execute w invocation).0)
      ≡ ok (map armed_route (execute-IsFinished w invocation code h).served.provisioned)
execute-parse_transfer w invocation code faithful h =
    let F = execute-IsFinished w invocation code h in
    let S = F.served in
    let (_, valid, _) =
      find_policy-IsResolvable w.kdl w.read_to_string (config_path w.var_os) F.config
        invocation.command F.policy F.loaded F.found in
    ap (parse_transfer w.serde) S.input
    ∙ start-parse_transfer w.host w.serde S.provisioned F.context.runtime S.image
        F.context.container_name S.sidecar faithful
        (provisioned-ne-nil w F.config F.policy.proxy_secrets S.provisioned S.provisioned_each
          S.proxied_some)
        (provisioned-origins w F.config F.policy.proxy_secrets S.provisioned S.provisioned_each
          valid.proxy_secrets)
        S.sidecar_up
