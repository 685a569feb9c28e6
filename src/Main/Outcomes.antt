-- ===== src/Main/Outcomes.antt =====
-- src/main.rs: what an invocation has done for each of its outcomes.
use iwaya.Prelude.{List, [], ◌≡◌, refl, inl, inr, Option-cases, Result-cases, some, none, ok, err}
use iwaya.Config.{Config, ConfigError, DockerContext, CommandPolicy, find_context, find_policy}
use iwaya.Config.Load.{load}
use iwaya.Config.Loaded.{find_policy-IsResolvable}
use iwaya.Main.{config, unknown_context, unknown_command, Invocation, config_path}
use iwaya.Main.Execute.{execute}
use iwaya.Main.Surroundings.{World, Event, Outcome, refused}
use iwaya.Main.Runs.{execute_policy-IsExecuted}
use iwaya.Main.Ways.{IsExecuted}

-- How an invocation goes: it selects nothing that is configured, or its policy is executed.
pub data IsInvoked (w : World) (invocation : Invocation) (events : List Event) (outcome : Outcome)
    : Type 0 where
  unloaded :
      (e : ConfigError)
      → load w.kdl w.read_to_string (config_path w.var_os) ≡ err e
      → events ≡ []
      → outcome ≡ refused (config e)
      → IsInvoked w invocation events outcome
  no_context :
      (configuration : Config)
      → load w.kdl w.read_to_string (config_path w.var_os) ≡ ok configuration
      → find_context configuration invocation.context ≡ none
      → events ≡ []
      → outcome ≡ refused (unknown_context invocation.context)
      → IsInvoked w invocation events outcome
  no_command :
      (configuration : Config)
      → load w.kdl w.read_to_string (config_path w.var_os) ≡ ok configuration
      → find_policy configuration invocation.command ≡ none
      → events ≡ []
      → outcome ≡ refused (unknown_command invocation.command)
      → IsInvoked w invocation events outcome
  executed :
      (configuration : Config) (context : DockerContext) (policy : CommandPolicy)
      → load w.kdl w.read_to_string (config_path w.var_os) ≡ ok configuration
      → find_context configuration invocation.context ≡ some context
      → find_policy configuration invocation.command ≡ some policy
      → IsExecuted w configuration context policy invocation.args events outcome
      → IsInvoked w invocation events outcome

pub execute-IsInvoked :
    (w : World) (invocation : Invocation)
    → IsInvoked w invocation (execute w invocation).0 (execute w invocation).1
unfolding execute
execute-IsInvoked w invocation =
    let path = config_path w.var_os in
    elim (Result-cases (load w.kdl w.read_to_string path)) [
      | inr (e, failed) ↦ unloaded e failed (rw (failed, execute) refl) (rw (failed, execute) refl)
      | inl (configuration, loaded) ↦
          elim (Option-cases (find_context configuration invocation.context)) [
            | inl missing ↦
                no_context configuration loaded missing (rw (loaded, missing, execute) refl)
                  (rw (loaded, missing, execute) refl)
            | inr (context, selected) ↦
                elim (Option-cases (find_policy configuration invocation.command)) [
                  | inl missing ↦
                      no_command configuration loaded missing
                        (rw (loaded, selected, missing, execute) refl)
                        (rw (loaded, selected, missing, execute) refl)
                  | inr (policy, found) ↦
                      let (_, _, resolvable) =
                        find_policy-IsResolvable w.kdl w.read_to_string path configuration
                          invocation.command policy loaded found in
                      executed configuration context policy loaded selected found (
                        rw (loaded, selected, found, execute)
                          (execute_policy-IsExecuted w configuration context policy invocation.args
                            resolvable))
                ]
          ]
    ]
