-- ===== src/Config/Validate.antt =====
-- src/config/validate.rs: validation of the whole configuration.
use iwaya.Prelude.{
  ℕ, String, ◌<>◌, List, [], ◌∷◌, Bool, not, ◌||◌, Result, ok, ◌>>=◌, ◌>>◌, ensure, is_some, any,
  ◌==◌,
}
use iwaya.Text.{◌=?◌, is_empty, all_chars, contains_char, starts_with}
use iwaya.Text.Ascii.{is_ascii_alphanumeric, is_printable_ascii, to_ascii_lowercase}
use iwaya.Text.Search.{count_placeholders}
use iwaya.Config.{
  Config, CommandPolicy, DockerContext, Provider, provider_id, ProxySecretSpec, SecretSpec, EnvName,
  ProviderId, ContextId, CommandId, eq_provider_id, eq_context_id, eq_command_id, eq_env_name,
  find_provider, ParseFailure, model,
}
use iwaya.Config.Origin.{is_http_origin}

-- `HashSet::insert(x)` as a test: whether `x` is new. A set is the list of what was inserted.
abbrev pub is_new {ℓ} : {A : Type ℓ} → (A → A → Bool) → A → List A → Bool
is_new eq x seen = not (any (λ y. eq x y) seen)

unfoldable pub validate_providers : List Provider → List ProviderId → Result ParseFailure (Unit {0})
validate_providers [] seen = ok tt
validate_providers (provider ∷ rest) seen = do
  ensure (is_new eq_provider_id (provider_id provider) seen)
      (model ("duplicate provider identifier '" <> (provider_id provider).id <> "'"))
  validate_providers rest (provider_id provider ∷ seen)

-- `container_name.is_empty() || container_name.starts_with('-')`, negated
unfoldable pub is_container_name : String → Bool
is_container_name s = not (is_empty s || starts_with s "-")

-- One round of the loop over a context's argv fields.
abbrev pub check_nul : DockerContext → String → String → Result ParseFailure (Unit {0})
check_nul context field value =
    ensure (not (contains_char value 0))
      (model ("context '" <> context.id.id <> "' has a '" <> field <> "' containing a NUL byte"))

unfoldable pub validate_context : DockerContext → Result ParseFailure (Unit {0})
validate_context context = do
  ensure (is_container_name context.container_name) (
      model
        ("context '" <> context.id.id <> "' has a 'container-name' that is not a container name"))
  check_nul context "user" context.user
  check_nul context "workdir" context.workdir
  check_nul context "container-name" context.container_name

unfoldable pub validate_contexts :
    List DockerContext → List ContextId → Result ParseFailure (Unit {0})
validate_contexts [] seen = ok tt
validate_contexts (context ∷ rest) seen = do
  ensure (is_new eq_context_id context.id seen)
      (model ("duplicate context identifier '" <> context.id.id <> "'"))
  validate_context context
  validate_contexts rest (context.id ∷ seen)

unfoldable pub is_command_name : String → Bool
is_command_name s = not (is_empty s || starts_with s "-" || contains_char s 0)

unfoldable pub is_env_name : String → Bool
is_env_name s = not (is_empty s || starts_with s "-" || contains_char s b'=' || contains_char s 0)

-- The closure `declare_env_name`, with the names declared so far as its state.
unfoldable pub declare_env_name :
    CommandPolicy → EnvName → List EnvName → Result ParseFailure (List EnvName)
declare_env_name policy env_name env_names = do
  ensure (is_env_name env_name.name) (
      model (
        "command '" <> policy.id.id <> "' declares '" <> env_name.name
        <> "', which is not an environment variable name"))
  ensure (is_new eq_env_name env_name env_names) (
      model (
        "command '" <> policy.id.id <> "' declares environment variable '" <> env_name.name
        <> "' more than once"))
  ok (env_name ∷ env_names)

unfoldable pub declare_secrets :
    CommandPolicy → List SecretSpec → List EnvName → Result ParseFailure (List EnvName)
declare_secrets policy [] env_names = ok env_names
declare_secrets policy (secret ∷ rest) env_names = do
  next ← declare_env_name policy secret.env_name env_names
  declare_secrets policy rest next

unfoldable pub declare_proxy_secrets :
    CommandPolicy → List ProxySecretSpec → List EnvName → Result ParseFailure (List EnvName)
declare_proxy_secrets policy [] env_names = ok env_names
declare_proxy_secrets policy (proxy ∷ rest) env_names = do
  with_credential ← declare_env_name policy proxy.env_name env_names
  with_url ← declare_env_name policy proxy.base_url_env with_credential
  declare_proxy_secrets policy rest with_url

unfoldable pub check_provider :
    Config → CommandPolicy → ProviderId → EnvName → Result ParseFailure (Unit {0})
check_provider config policy provider env_name = ensure (is_some (find_provider config provider)) (
    model (
      "command '" <> policy.id.id <> "' references unknown provider '" <> provider.id <> "' for '"
      <> env_name.name <> "'"))

unfoldable pub validate_secrets :
    Config → CommandPolicy → List SecretSpec → Result ParseFailure (Unit {0})
validate_secrets config policy [] = ok tt
validate_secrets config policy (secret ∷ rest) = do
  check_provider config policy secret.provider secret.env_name
  validate_secrets config policy rest

-- the closure `is_token_char`
unfoldable pub is_token_char : ℕ → Bool
is_token_char c = is_ascii_alphanumeric c || contains_char "!#$%&'*+-.^_`|~" c

unfoldable pub is_header_name : String → Bool
is_header_name name = not (is_empty name || not (all_chars is_token_char name))

-- whether the list `proxy_owned` contains the name
unfoldable pub is_proxy_owned : String → Bool
is_proxy_owned name =
    any (λ owned. owned =? to_ascii_lowercase name)
      ("host" ∷ "content-length" ∷ "transfer-encoding" ∷ "connection" ∷ [])

unfoldable pub validate_proxy_secret :
    Config → CommandPolicy → ProxySecretSpec → Result ParseFailure (Unit {0})
validate_proxy_secret config policy proxy = do
  check_provider config policy proxy.provider proxy.env_name
  ensure (is_http_origin proxy.upstream) (
      model (
        "command '" <> policy.id.id <> "' has an 'upstream' for '" <> proxy.env_name.name
        <> "' that is not an http(s) origin"))
  ensure (is_header_name proxy.inject_header.name) (
      model (
        "command '" <> policy.id.id <> "' has an 'inject-header' for '" <> proxy.env_name.name
        <> "' whose name is not an HTTP header name"))
  ensure (not (is_proxy_owned proxy.inject_header.name)) (
      model (
        "command '" <> policy.id.id <> "' has an 'inject-header' for '" <> proxy.env_name.name
        <> "' that names '" <> proxy.inject_header.name <> "', a header the proxy itself controls"))
  ensure (count_placeholders proxy.inject_header.template == 1) (
      model (
        "command '" <> policy.id.id <> "' has an 'inject-header' template for '"
        <> proxy.env_name.name <> "' that does not contain exactly one '{}' placeholder"))
  ensure (all_chars is_printable_ascii proxy.inject_header.template) (
      model (
        "command '" <> policy.id.id <> "' has an 'inject-header' template for '"
        <> proxy.env_name.name
        <> "' containing a character that cannot appear in an HTTP header value"))

unfoldable pub validate_proxy_secrets :
    Config → CommandPolicy → List ProxySecretSpec → Result ParseFailure (Unit {0})
validate_proxy_secrets config policy [] = ok tt
validate_proxy_secrets config policy (proxy ∷ rest) = do
  validate_proxy_secret config policy proxy
  validate_proxy_secrets config policy rest

-- One round of the loop over the policies, after the test for a duplicate.
unfoldable pub validate_policy : Config → CommandPolicy → Result ParseFailure (Unit {0})
validate_policy config policy = do
  ensure (is_command_name policy.id.id)
      (model ("command '" <> policy.id.id <> "' has an identifier that is not a command name"))
  env_names ← declare_secrets policy policy.secrets []
  declare_proxy_secrets policy policy.proxy_secrets env_names
  validate_secrets config policy policy.secrets
  validate_proxy_secrets config policy policy.proxy_secrets

unfoldable pub validate_policies :
    Config → List CommandPolicy → List CommandId → Result ParseFailure (Unit {0})
validate_policies config [] seen = ok tt
validate_policies config (policy ∷ rest) seen = do
  ensure (is_new eq_command_id policy.id seen)
      (model ("duplicate command identifier '" <> policy.id.id <> "'"))
  validate_policy config policy
  validate_policies config rest (policy.id ∷ seen)

-- `validate`
unfoldable pub validate : Config → Result ParseFailure (Unit {0})
validate config = do
  validate_providers config.providers []
  validate_contexts config.contexts []
  validate_policies config config.policies []
