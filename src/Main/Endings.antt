-- ===== src/Main/Endings.antt =====
-- src/main.rs: how a process ends that runs a command.
use iwaya.Prelude.{
  Bool-cases, inl, inr, false, Option, ℕ, ◌<◌, String, ◌<>◌, List, [], none, some, Result, ok, err,
  ◌≡◌, ◌≢◌, refl, sym, subst, ◌∙◌,
}
use iwaya.Config.{EnvName, Config, DockerContext, CommandPolicy, find_context, find_policy}
use iwaya.Config.Load.{load}
use iwaya.Secret.{Secret}
use iwaya.Run.{Command, ExecError}
use iwaya.Run.{replaced as exec_replaced}
use iwaya.Run.Supervision.{exit_code_of_lem}
use iwaya.Main.{Failure, exit_code, message, Invocation, config_path}
use iwaya.Main.Execute.{execute}
use iwaya.Main.Surroundings.{World, Event, Outcome, finished, refused, became, panicked, outcome_of}
use iwaya.Main.Delivered.{IsEnvironmentOf}
use iwaya.Main.Ways.{
  IsTarget, IsExecuted, unresolved, direct, proxied, stayed, taken_over, IsProxied, unprovisioned,
  unprepared, unattended, served,
}
use iwaya.Main.Outcomes.{IsInvoked, unloaded, no_context, no_command, executed, execute-IsInvoked}
use iwaya.Main.Stopped.{IsCodeOf, exit_code-IsCodeOf, IsStopped, execute-IsStopped}
use iwaya.Main.Panics.{execute-ne-panicked}
use iwaya.Main.Served.{IsFinished, execute-IsFinished}
use iwaya.Main.Exit.{Ending, exits, replaced, aborts, ending_of, run_exec}

-- An invocation whose process became its target: the policy has no proxied secret, and the target is
-- the runtime with the direct secrets in its environment.
pub record IsReplaced (w : World) (invocation : Invocation) (command : Command) : Type 0 where
  pub config : Config
  pub context : DockerContext
  pub policy : CommandPolicy
  pub loaded : load w.kdl w.read_to_string (config_path w.var_os) ≡ ok config
  pub selected : find_context config invocation.context ≡ some context
  pub found : find_policy config invocation.command ≡ some policy
  pub unproxied : policy.proxy_secrets ≡ []
  pub environment : List (EnvName × Secret)
  pub each : IsEnvironmentOf w config policy.secrets environment
  pub target : IsTarget w config context policy invocation.args environment command
  pub instead : w.system.exec command ≡ exec_replaced

outcome_of-ne-became :
    (r : Option (Result ExecError ℕ)) {command : Command} → outcome_of r ≢ became command
outcome_of-ne-became none = λ h. cc
outcome_of-ne-became (some (ok code)) = λ h. cc
outcome_of-ne-became (some (err e)) = λ h. cc

module _ (w : World) (invocation : Invocation) (command : Command) where
  IsProxied-ne-became :
      (config : Config) (context : DockerContext) (policy : CommandPolicy) {events : List Event}
      {outcome : Outcome}
      → IsProxied w config context policy invocation.args events outcome
      → outcome ≢ became command
  IsProxied-ne-became config context policy (unprovisioned e _ _ _ ended) = λ h. cc
  IsProxied-ne-became config context policy (unprepared e _ _ ended) = λ h. cc
  IsProxied-ne-became config context policy (unattended provisioned image e _ _ _ ended) = λ h. cc
  IsProxied-ne-became config context policy
        (served environment provisioned image sidecar bare target _ _ _ _ _ _ _ ended) =
      λ h. outcome_of-ne-became _ (sym ended ∙ h)

  IsExecuted-IsReplaced :
      (config : Config) (context : DockerContext) (policy : CommandPolicy) {events : List Event}
      {outcome : Outcome}
      → load w.kdl w.read_to_string (config_path w.var_os) ≡ ok config
      → find_context config invocation.context ≡ some context
      → find_policy config invocation.command ≡ some policy
      → IsExecuted w config context policy invocation.args events outcome
      → outcome ≡ became command
      → IsReplaced w invocation command
  IsExecuted-IsReplaced config context policy loaded selected found
        (unresolved commands e _ _ ended) h =
      cc
  IsExecuted-IsReplaced config context policy loaded selected found (proxied commands rest _ _ it)
        h =
      absurd (IsProxied-ne-became config context policy it h)
  IsExecuted-IsReplaced config context policy loaded selected found
        (direct commands rest unproxied _ (stayed e _ ended)) h =
      cc
  IsExecuted-IsReplaced config context policy loaded selected found
        (direct commands rest unproxied _
          (taken_over environment target each is_target instead _ gone))
        h =
      let it : target ≡ command = cc in
      record {
        config = config;
        context = context;
        policy = policy;
        loaded = loaded;
        selected = selected;
        found = found;
        unproxied = unproxied;
        environment = environment;
        each = each;
        target = subst (IsTarget w config context policy invocation.args environment) it is_target;
        instead = subst (λ c. w.system.exec c ≡ exec_replaced) it instead;
      }

  IsInvoked-IsReplaced :
      {events : List Event} {outcome : Outcome}
      → IsInvoked w invocation events outcome
      → outcome ≡ became command
      → IsReplaced w invocation command
  IsInvoked-IsReplaced (unloaded e _ _ ended) h = cc
  IsInvoked-IsReplaced (no_context c _ _ _ ended) h = cc
  IsInvoked-IsReplaced (no_command c _ _ _ ended) h = cc
  IsInvoked-IsReplaced (executed config context policy loaded selected found it) h =
      IsExecuted-IsReplaced config context policy loaded selected found it h

-- How a process that runs a command ends.
pub data IsEnded (w : World) (invocation : Invocation) (events : List Event) (ending : Ending)
    : Type 0 where
  reported :
      (failure : Failure) (code : ℕ)
      → ending ≡ exits code (some ("iwaya: error: " <> message failure))
      → IsCodeOf failure code
      → IsStopped failure events
      → IsEnded w invocation events ending
  returned :
      (code : ℕ)
      → ending ≡ exits code none
      → code < 256
      → IsFinished w invocation code
      → IsEnded w invocation events ending
  unreported :
      (failure : Failure)
      → ending ≡ aborts
      → w.stderr_writes ≡ false
      → IsStopped failure events
      → IsEnded w invocation events ending
  panicking : ending ≡ aborts → w.system.relay_starts ≡ false → IsEnded w invocation events ending
  taken :
      (command : Command)
      → ending ≡ replaced command
      → IsReplaced w invocation command
      → IsEnded w invocation events ending

IsFinished-lt :
    (w : World) (invocation : Invocation) (code : ℕ) → IsFinished w invocation code → code < 256
IsFinished-lt w invocation code F =
    let S = F.served in subst (λ c. c < 256) S.code_eq (exit_code_of_lem S.status).0

ending_of-IsEnded :
    (w : World) (invocation : Invocation) (outcome : Outcome)
    → (execute w invocation).1 ≡ outcome
    → IsEnded w invocation (execute w invocation).0 (ending_of w.stderr_writes outcome)
unfolding ending_of
ending_of-IsEnded w invocation (finished code) h =
    let F = execute-IsFinished w invocation code h in
    returned code refl (IsFinished-lt w invocation code F) F
ending_of-IsEnded w invocation (refused failure) h =
    let stopped = execute-IsStopped w invocation failure h in
    elim (Bool-cases w.stderr_writes) [
      | inl writes ↦
          reported failure (exit_code failure) (rw writes refl) (exit_code-IsCodeOf failure) stopped
      | inr unwritable ↦ unreported failure (rw unwritable refl) unwritable stopped
    ]
ending_of-IsEnded w invocation (became command) h =
    taken command refl
      (IsInvoked-IsReplaced w invocation command (execute-IsInvoked w invocation) h)
ending_of-IsEnded w invocation panicked h = elim (Bool-cases w.system.relay_starts) [
  | inl starts ↦ absurd (execute-ne-panicked w invocation starts h)
  | inr uncreated ↦ panicking refl uncreated
]

-- A process that runs a command ends with a line that names a failure and its code, 3 for the
-- configuration, 4 for a selection, 5 for the resolution and 6 for what comes behind it, and then the
-- stages behind the failure did nothing; or silently with a code below 256, and then that is what the
-- supervised target left; or as the target itself, and then the policy has no proxied secret; or in a
-- panic, and then standard error could not be written for a failure's line, or the operating system
-- could not create the relay's thread.
pub run_exec-IsEnded :
    (w : World) (context command : String) (args : List String)
    → let invocation : Invocation = record {
      context = record { id = context };
      command = record { id = command };
      args = args;
    } in
      IsEnded w invocation (run_exec w context command args).0 (run_exec w context command args).1
unfolding run_exec
run_exec-IsEnded w context command args =
    ending_of-IsEnded w
      (record { context = record { id = context }; command = record { id = command }; args = args })
      _ refl
