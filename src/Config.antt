-- ===== src/Config.antt =====
-- src/config: the configuration's three layers. This file is the data of config/mod.rs,
-- config/context.rs, config/provider.rs and config/policy.rs; the children parse and validate.
pub mod Nodes
pub mod ParseContext
pub mod ParseProvider
pub mod ParsePolicy
pub mod Origin
pub mod Validate
pub mod Load
pub mod Valid
pub mod Checks
pub mod Validity
pub mod Authority
pub mod Loaded
pub mod Settings
pub mod ContextNode
pub mod Trees
pub mod Written
pub mod Loadable
mod Tests
use iwaya.Prelude.{String, ◌<>◌, List, Option, Bool, find}
use iwaya.Text.{◌=?◌}

-- The types that `identifier_type!` declares are texts with a name.
pub record ProviderId : Type 0 where
  pub id : String

pub record ContextId : Type 0 where
  pub id : String

pub record CommandId : Type 0 where
  pub id : String

pub record SecretName : Type 0 where
  pub name : String

pub record EnvName : Type 0 where
  pub name : String

-- Their derived `PartialEq`.
abbrev pub eq_provider_id : ProviderId → ProviderId → Bool
eq_provider_id a b = a.id =? b.id

abbrev pub eq_context_id : ContextId → ContextId → Bool
eq_context_id a b = a.id =? b.id

abbrev pub eq_command_id : CommandId → CommandId → Bool
eq_command_id a b = a.id =? b.id

abbrev pub eq_secret_name : SecretName → SecretName → Bool
eq_secret_name a b = a.name =? b.name

abbrev pub eq_env_name : EnvName → EnvName → Bool
eq_env_name a b = a.name =? b.name

pub record ExecAcquisition : Type 0 where
  pub program : String
  pub args : List String

pub record BwsProvider : Type 0 where
  pub id : ProviderId
  pub project : String
  pub access_token : ExecAcquisition

pub data Provider : Type 0 where
  bws : BwsProvider → Provider

-- `Provider::id`
abbrev pub provider_id : Provider → ProviderId
provider_id (bws p) = p.id

pub record DockerContext : Type 0 where
  pub id : ContextId
  pub runtime : String
  pub user : String
  pub workdir : String
  pub container_name : String

pub record SecretSpec : Type 0 where
  pub env_name : EnvName
  pub provider : ProviderId
  pub secret_name : SecretName

pub record InjectHeader : Type 0 where
  pub name : String
  pub template : String

pub record ProxySecretSpec : Type 0 where
  pub env_name : EnvName
  pub provider : ProviderId
  pub secret_name : SecretName
  pub upstream : String
  pub base_url_env : EnvName
  pub inject_header : InjectHeader

pub record CommandPolicy : Type 0 where
  pub id : CommandId
  pub secrets : List SecretSpec
  pub proxy_secrets : List ProxySecretSpec

pub record Config : Type 0 where
  pub providers : List Provider
  pub contexts : List DockerContext
  pub policies : List CommandPolicy

-- `Config::provider`, `Config::context` and `Config::policy`
unfoldable pub find_provider : Config → ProviderId → Option Provider
find_provider config id = find (λ p. eq_provider_id (provider_id p) id) config.providers

unfoldable pub find_context : Config → ContextId → Option DockerContext
find_context config id = find (λ c. eq_context_id c.id id) config.contexts

unfoldable pub find_policy : Config → CommandId → Option CommandPolicy
find_policy config id = find (λ p. eq_command_id p.id id) config.policies

-- A parsing failure: the document's syntax, or the model that it violates.
pub data ParseFailure : Type 0 where
  syntax : String → ParseFailure
  model : String → ParseFailure

-- An error of `load`. An I/O error is the text that it displays.
pub data ConfigError : Type 0 where
  read : (path source : String) → ConfigError
  parse : (path message : String) → ConfigError
  invalid : (path message : String) → ConfigError

-- `ConfigError`'s `Display`
unfoldable pub show_config_error : ConfigError → String
show_config_error (read path source) = "cannot read configuration file '" <> path <> "': " <> source
show_config_error (parse path message) =
    "configuration file '" <> path <> "' does not parse: " <> message
show_config_error (invalid path message) =
    "configuration file '" <> path <> "' is invalid: " <> message
