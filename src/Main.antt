-- ===== src/Main.antt =====
-- src/main.rs: the failures of an invocation and the grouping of a policy's secrets; the children hold
-- the execution and the process's exit.
pub mod Grouping
pub mod Surroundings
pub mod Execute
pub mod Distinct
pub mod Resolution
pub mod Delivered
pub mod Known
pub mod Ways
pub mod Runs
pub mod Outcomes
pub mod Stopped
pub mod Panics
pub mod Protocol
pub mod Stages
pub mod Ordered
pub mod Input
pub mod Served
pub mod Finishing
pub mod Granted
pub mod Presence
pub mod Exit
pub mod Endings
mod Example
mod Tests
mod Answers
mod Grants
use iwaya.Prelude.{
  ℕ, String, ◌<>◌, List, [], ◌∷◌, ◌++◌, map, if◌then◌else◌, Option, none, some, map_option, or_else,
  unwrap_or,
}
use iwaya.Config.{
  ProviderId, SecretName, CommandPolicy, eq_provider_id, ConfigError, show_config_error, ContextId,
  CommandId,
}
use iwaya.Bws.{ResolveError, show_resolve_error}
use iwaya.Phantom.{GenerateError, show_generate_error}
use iwaya.ProxyImage.{ProxyImageError, show_proxy_image_error}
use iwaya.ProxyImage.Build.{join}
use iwaya.Sidecar.{SidecarError, show_sidecar_error}
use iwaya.Run.{ExecError, show_exec_error}

-- `EXIT_CONFIG`, `EXIT_UNKNOWN_SELECTION`, `EXIT_RESOLUTION` and `EXIT_EXECUTION`
abbrev pub exit_config : ℕ
exit_config = 3

abbrev pub exit_unknown_selection : ℕ
exit_unknown_selection = 4

abbrev pub exit_resolution : ℕ
exit_resolution = 5

abbrev pub exit_execution : ℕ
exit_execution = 6

-- `Failure`
pub data Failure : Type 0 where
  config : ConfigError → Failure
  unknown_context : ContextId → Failure
  unknown_command : CommandId → Failure
  resolution : ResolveError → Failure
  provision : GenerateError → Failure
  proxy_image : ProxyImageError → Failure
  sidecar : SidecarError → Failure
  execution : ExecError → Failure

-- `Failure::exit_code`
unfoldable pub exit_code : Failure → ℕ
exit_code (config e) = exit_config
exit_code (unknown_context id) = exit_unknown_selection
exit_code (unknown_command id) = exit_unknown_selection
exit_code (resolution e) = exit_resolution
exit_code (provision e) = exit_execution
exit_code (proxy_image e) = exit_execution
exit_code (sidecar e) = exit_execution
exit_code (execution e) = exit_execution

-- `Failure::message`
unfoldable pub message : Failure → String
message (config e) = show_config_error e
message (unknown_context id) =
    "unknown context '" <> id.id <> "': no configured context has this identifier"
message (unknown_command id) =
    "unknown command '" <> id.id <> "': no configured command policy has this identifier"
message (resolution e) = "secret resolution failed, nothing was executed: " <> show_resolve_error e
message (provision e) =
    "proxy-secret provisioning failed, nothing was executed: " <> show_generate_error e
message (proxy_image e) =
    "proxy image preparation failed, nothing was executed: " <> show_proxy_image_error e
message (sidecar e) = "proxy sidecar startup failed, nothing was executed: " <> show_sidecar_error e
message (execution e) = show_exec_error e

-- `Invocation`
pub record Invocation : Type 0 where
  pub context : ContextId
  pub command : CommandId
  pub args : List String

-- `config_path`; the environment of the process is an argument.
unfoldable pub config_path : (String → Option String) → String
config_path var_os = elim (var_os "IWAYA_CONFIG") [
  | some path ↦ path
  | none ↦
      let home_config = map_option (λ home. join home ".config") (var_os "HOME") in
      let config_home = unwrap_or "" (or_else (var_os "XDG_CONFIG_HOME") home_config) in
      join (join config_home "iwaya") "config.kdl"
]

-- The provider and the secret of every declaration, the direct ones first.
abbrev pub declared : CommandPolicy → List (ProviderId × SecretName)
declared policy =
    map (λ s. (s.provider, s.secret_name)) policy.secrets
    ++ map (λ s. (s.provider, s.secret_name)) policy.proxy_secrets

-- The body of the loop: the name joins its provider's, or begins a group.
unfoldable pub add_name :
    ProviderId
    → SecretName
    → List (ProviderId × List SecretName)
    → List (ProviderId × List SecretName)
add_name provider name [] = (provider, name ∷ []) ∷ []
add_name provider name ((id, names) ∷ groups) =
    let rest = add_name provider name groups in
    if eq_provider_id id provider then (id, names ++ (name ∷ [])) ∷ groups else (id, names) ∷ rest

unfoldable pub group :
    List (ProviderId × SecretName)
    → List (ProviderId × List SecretName)
    → List (ProviderId × List SecretName)
group [] groups = groups
group ((provider, name) ∷ rest) groups = group rest (add_name provider name groups)

-- `names_by_provider`
unfoldable pub names_by_provider : CommandPolicy → List (ProviderId × List SecretName)
names_by_provider policy = group (declared policy) []
