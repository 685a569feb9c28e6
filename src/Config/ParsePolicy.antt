-- ===== src/Config/ParsePolicy.antt =====
-- src/config/policy.rs: the `policies` section.
use iwaya.Prelude.{
  String, ◌<>◌, List, [], ◌∷◌, Option, none, some, not, Result, ok, ◌>>=◌, ◌>>◌, ensure, is_some,
  push, if◌then◌else◌,
}
use iwaya.Text.{◌=?◌}
use iwaya.Kdl.{Kdl}
use iwaya.Config.{CommandPolicy, SecretSpec, ProxySecretSpec, InjectHeader, ParseFailure, model}
use iwaya.Config.Nodes.{
  invalid_model, children, positional_strings, exactly_one, single_string_argument, property_string,
  require_setting,
}

-- The five optional settings of a `proxy-secret`.
pub record ProxySettings : Type 0 where
  pub provider : Option String
  pub secret_name : Option String
  pub upstream : Option String
  pub base_url_env : Option String
  pub inject_header : Option InjectHeader

abbrev pub no_proxy_settings : ProxySettings
no_proxy_settings = record {
  provider = none;
  secret_name = none;
  upstream = none;
  base_url_env = none;
  inject_header = none;
}

-- Which of the four one-argument settings a child sets.
pub data ProxySetting : Type 0 where
  the_provider the_secret_name the_upstream the_base_url_env : ProxySetting

unfoldable pub proxy_setting_of : String → Option ProxySetting
proxy_setting_of s =
    if s =? "provider"
    then some the_provider
    else if s =? "secret-name"
    then some the_secret_name
    else if s =? "upstream"
    then some the_upstream
    else if s =? "base-url-env"
    then some the_base_url_env
    else none

abbrev pub get_proxy_setting : ProxySetting → ProxySettings → Option String
get_proxy_setting the_provider s = s.provider
get_proxy_setting the_secret_name s = s.secret_name
get_proxy_setting the_upstream s = s.upstream
get_proxy_setting the_base_url_env s = s.base_url_env

abbrev pub put_proxy_setting : ProxySetting → String → ProxySettings → ProxySettings
put_proxy_setting the_provider v s = record s { provider = some v }
put_proxy_setting the_secret_name v s = record s { secret_name = some v }
put_proxy_setting the_upstream v s = record s { upstream = some v }
put_proxy_setting the_base_url_env v s = record s { base_url_env = some v }

module _ (K : Kdl) where
  open K use {Node, name}

  -- The list pattern `[name, template]`.
  abbrev header_arguments : String → List String → Result ParseFailure InjectHeader
  header_arguments owner (header_name ∷ template ∷ []) =
      ok (record { name = header_name; template = template })
  header_arguments owner _ =
      invalid_model (
        "'inject-header' in " <> owner
        <> " requires a header name argument and a template argument")

  -- One round of the loop of `parse_proxy_secret`.
  unfoldable pub read_proxy_setting :
      String → Node → ProxySettings → Result ParseFailure ProxySettings
  read_proxy_setting owner child settings =
      if name child =? "inject-header"
      then (do
        ensure (not (is_some settings.inject_header))
            (model (owner <> " declares 'inject-header' more than once"))
        arguments ← positional_strings K child
        header ← header_arguments owner arguments
        ok (record settings { inject_header = some header }))
      else elim (proxy_setting_of (name child)) [
        | none ↦ invalid_model ("unknown setting '" <> name child <> "' in " <> owner)
        | some target ↦ do
          ensure (not (is_some (get_proxy_setting target settings)))
              (model (owner <> " declares '" <> name child <> "' more than once"))
          value ← single_string_argument K child owner
          ok (put_proxy_setting target value settings)
      ]

  unfoldable pub read_proxy_settings :
      String → List Node → ProxySettings → Result ParseFailure ProxySettings
  read_proxy_settings owner [] settings = ok settings
  read_proxy_settings owner (child ∷ rest) settings = do
    next ← read_proxy_setting owner child settings
    read_proxy_settings owner rest next

  -- The required settings, in the order in which the code asks for them.
  unfoldable pub finish_proxy_secret :
      String → String → ProxySettings → Result ParseFailure ProxySecretSpec
  finish_proxy_secret env_name owner settings = do
    inject_header ← require_setting owner settings.inject_header "inject-header"
    provider ← require_setting owner settings.provider "provider"
    secret_name ← require_setting owner settings.secret_name "secret-name"
    upstream ← require_setting owner settings.upstream "upstream"
    base_url_env ← require_setting owner settings.base_url_env "base-url-env"
    ok (record {
      env_name = record { name = env_name };
      provider = record { id = provider };
      secret_name = record { name = secret_name };
      upstream = upstream;
      base_url_env = record { name = base_url_env };
      inject_header = inject_header;
    })

  -- `parse_proxy_secret`
  unfoldable pub parse_proxy_secret : Node → String → Result ParseFailure ProxySecretSpec
  parse_proxy_secret node policy_owner = do
    arguments ← positional_strings K node
    env_name ← exactly_one K arguments (
        "a 'proxy-secret' in " <> policy_owner
        <> " requires exactly one environment variable name argument")
    let owner = "proxy-secret '" <> env_name <> "' in " <> policy_owner
    settings ← read_proxy_settings owner (children K node) no_proxy_settings
    finish_proxy_secret env_name owner settings

  -- A `secret` entry of a policy.
  unfoldable pub parse_secret : Node → String → Result ParseFailure SecretSpec
  parse_secret child owner = do
    arguments ← positional_strings K child
    env_name ←
        exactly_one K arguments
          ("a 'secret' in " <> owner <> " requires exactly one environment variable name argument")
    provider ← property_string K child "provider" owner
    secret_name ← property_string K child "secret-name" owner
    ok (record {
      env_name = record { name = env_name };
      provider = record { id = provider };
      secret_name = record { name = secret_name };
    })

  abbrev pub Entries : Type 0
  Entries = List SecretSpec × List ProxySecretSpec

  -- One round of the loop of `parse_policy`.
  unfoldable pub read_entry : String → Node → Entries → Result ParseFailure Entries
  read_entry owner child (secrets, proxy_secrets) =
      if name child =? "secret"
      then (do secret ← parse_secret child owner; ok (push secrets secret, proxy_secrets))
      else if name child =? "proxy-secret"
      then (do proxy ← parse_proxy_secret child owner; ok (secrets, push proxy_secrets proxy))
      else invalid_model ("unknown entry '" <> name child <> "' in " <> owner)

  unfoldable pub read_entries : String → List Node → Entries → Result ParseFailure Entries
  read_entries owner [] found = ok found
  read_entries owner (child ∷ rest) found = do
    next ← read_entry owner child found
    read_entries owner rest next

  -- `parse_policy`
  unfoldable pub parse_policy : Node → Result ParseFailure CommandPolicy
  parse_policy node = do
    ensure (name node =? "command") (model ("unknown policy type '" <> name node <> "'"))
    arguments ← positional_strings K node
    id ← exactly_one K arguments "a 'command' policy requires exactly one identifier argument"
    let owner = "command '" <> id <> "'"
    (secrets, proxy_secrets) ← read_entries owner (children K node) ([], [])
    ok (record { id = record { id = id }; secrets = secrets; proxy_secrets = proxy_secrets })
