-- ===== src/Main/Finishing.antt =====
-- src/main.rs: an invocation all of whose surroundings answer with success returns its target's code.
use iwaya.Prelude.{
  ℕ, String, List, [], ◌∷◌, true, false, ◌≡◌, ◌≢◌, refl, ap, ◌∙◌, ok, err, some, inl, inr, All,
  Option-cases,
}
use iwaya.Text.{is_empty}
use iwaya.Bws.Diagnostic.{trim_end}
use iwaya.Config.{
  ProviderId, SecretName, Config, BwsProvider, DockerContext, CommandPolicy, bws, find_provider,
  find_context, find_policy,
}
use iwaya.Config.Load.{load}
use iwaya.Config.Loaded.{find_policy-IsResolvable}
use iwaya.Phantom.{Phantom, generate}
use iwaya.Bws.{Resolved, ResolveError, resolve}
use iwaya.Transfer.{IsFaithful}
use iwaya.ProxyImage.Build.{ensure_proxy_image}
use iwaya.Sidecar.{readiness_limit}
use iwaya.Sidecar.Handover.{start-into_transfer}
use iwaya.Run.{
  Command, System, ExitStatus, exit_code_of, forwarded_signals, finish, attend, supervise,
}
use iwaya.Main.{Invocation, config_path, names_by_provider}
use iwaya.Main.Execute.{ResolvedByProvider, resolve_groups, execute}
use iwaya.Main.Surroundings.{World, Event, Outcome, finished, outcome_of}
use iwaya.Main.Distinct.{Groups}
use iwaya.Main.Runs.{execute_policy-IsExecuted}
use iwaya.Main.Ways.{
  IsExecuted, unresolved, direct, proxied, IsProxied, unprovisioned, unprepared, unattended, served,
}

module _ (w : World) (configuration : Config) where
  -- The resolution of a group succeeds, whatever was run before.
  abbrev pub IsAnswered : ProviderId × List SecretName → Type 0
  IsAnswered (id, names) =
      (ran : List Command) (provider : BwsProvider)
      → find_provider configuration id ≡ some (bws provider)
      → (values : Resolved) × ((resolve w.shell ran provider names).1 ≡ ok values)

  resolve_groups-ne-err :
      (groups : Groups) (ran : List Command) (before : ResolvedByProvider) (e : ResolveError)
      → All IsAnswered groups
      → (resolve_groups w configuration groups ran before).1 ≢ some (err e)
  unfolding resolve_groups
  resolve_groups-ne-err [] ran before e h = λ failed. cc
  resolve_groups-ne-err ((id, names) ∷ groups) ran before e (answers, h) =
      elim (Option-cases (find_provider configuration id)) [
        | inl missing ↦ rw (missing, resolve_groups) (λ failed. cc)
        | inr (bws provider, found) ↦
            let (values, done) = answers ran provider found in
            rw (found, done, resolve_groups)
              (resolve_groups-ne-err groups (resolve w.shell ran provider names).0
                ((id, values) ∷ before) e h)
      ]

supervise-eq-ok :
    (os : System) (command : Command) (runtime : String) (pid : ℕ) (status : ExitStatus)
    → os.register forwarded_signals ≡ ok tt
    → os.spawn command ≡ ok pid
    → os.relay_starts ≡ true
    → os.wait pid ≡ ok status
    → (supervise os command runtime).1 ≡ some (ok (exit_code_of status))
unfolding supervise attend finish
supervise-eq-ok os command runtime pid status ready spawned starts waited =
    rw (ready, spawned, supervise, starts, waited) refl

module _ (w : World) (configuration : Config) (context : DockerContext) (policy : CommandPolicy)
    (image : String) (random : List ℕ) (readiness : String) (port pid : ℕ) (status : ExitStatus)
    (faithful : IsFaithful w.serde)
    (resolves : All (IsAnswered w configuration) (names_by_provider policy))
    (mints : (calls : ℕ) → (p : Phantom) × (generate (w.fill calls) ≡ ok p))
    (made : (ensure_proxy_image w.machine w.process w.sha256 w.version context.runtime).1
      ≡ ok image)
    (named : w.host.fill 8 ≡ ok random)
    (starts : (command : Command) → w.host.spawn command ≡ ok tt)
    (writes : (text : String) → w.host.write text ≡ ok tt)
    (read : w.host.read_line readiness_limit ≡ ok readiness)
    (some_text : is_empty readiness ≡ false)
    (announced : w.host.parse_readiness (trim_end readiness) ≡ some port)
    (catches : w.system.register forwarded_signals ≡ ok tt)
    (spawns : (command : Command) → w.system.spawn command ≡ ok pid)
    (relays : w.system.relay_starts ≡ true) (waits : w.system.wait pid ≡ ok status) where
  IsProxied-finished :
      (args : List String) {events : List Event} {outcome : Outcome}
      → IsProxied w configuration context policy args events outcome
      → outcome ≡ finished (exit_code_of status)
  IsProxied-finished args (unprovisioned e calls failed _ _) = let (p, minted) = mints calls in cc
  IsProxied-finished args (unprepared e failed _ _) = cc
  IsProxied-finished args (unattended provisioned tag e _ failed _ _) =
      let up =
        start-into_transfer w.host w.serde provisioned context.runtime tag context.container_name
          random readiness port faithful named starts writes read some_text announced in
      cc
  IsProxied-finished args
        (served environment provisioned tag attendant bare command _ _ _ _ _ _ _ ended) =
      ended
      ∙ ap outcome_of (
          supervise-eq-ok w.system command context.runtime pid status catches (spawns command)
            relays waits)

  IsExecuted-finished :
      (args : List String) {events : List Event} {outcome : Outcome}
      → policy.proxy_secrets ≢ []
      → IsExecuted w configuration context policy args events outcome
      → outcome ≡ finished (exit_code_of status)
  IsExecuted-finished args some_proxied (unresolved commands e failed _ _) =
      absurd
        (resolve_groups-ne-err w configuration (names_by_provider policy) [] [] e resolves failed)
  IsExecuted-finished args some_proxied (direct commands rest none_proxied _ _) =
      absurd (some_proxied none_proxied)
  IsExecuted-finished args some_proxied (proxied commands rest _ _ it) = IsProxied-finished args it

  -- If the configuration has what the invocation selects, with a proxied secret, every group of names is
  -- resolved, every phantom is minted, the image is made, every answer of the sidecar's host is a
  -- success, its line announces a port, and the target is spawned, the relay's thread created and the
  -- target waited for, then the execution returns the code of the target's status.
  pub execute-eq-finished :
      (invocation : Invocation)
      → load w.kdl w.read_to_string (config_path w.var_os) ≡ ok configuration
      → find_context configuration invocation.context ≡ some context
      → find_policy configuration invocation.command ≡ some policy
      → policy.proxy_secrets ≢ []
      → (execute w invocation).1 ≡ finished (exit_code_of status)
  unfolding execute
  execute-eq-finished invocation loaded selected found some_proxied =
      let (_, _, resolvable) =
        find_policy-IsResolvable w.kdl w.read_to_string (config_path w.var_os) configuration
          invocation.command policy loaded found in
      rw (loaded, selected, found, execute)
        (IsExecuted-finished invocation.args some_proxied
          (execute_policy-IsExecuted w configuration context policy invocation.args resolvable))
