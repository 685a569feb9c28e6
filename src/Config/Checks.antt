-- ===== src/Config/Checks.antt =====
-- Each single test of the validator decides its part of what is valid.
use iwaya.Prelude.{String, List, [], ◌∷◌, true, false, ◌≡◌, ◌≢◌, ◌↔◌, Any, ok, find, is_some, arith}
use text.Mathlib.TextEquality.{eq_iff}
use iwaya.Text.Chars.{AllChars, all_chars_iff, contains_char_iff, is_empty_iff, starts_with_iff}
use iwaya.Text.Ascii.{to_ascii_lowercase, is_printable_ascii}
use iwaya.Config.{
  Config, CommandPolicy, DockerContext, Provider, provider_id, ProxySecretSpec, EnvName, ProviderId,
  ContextId, CommandId, eq_provider_id, eq_context_id, eq_command_id, eq_env_name, find_provider,
}
use iwaya.Config.Valid.{IsContext, IsCommandName, IsEnvName, IsDeclared, IsProxySecret}
use iwaya.Config.Validate.{
  is_container_name, validate_context, is_command_name, is_env_name, check_provider, is_token_char,
  is_header_name, is_proxy_owned, validate_proxy_secret,
}

-- The derived equality of the identifier types is equality.
pub eq_provider_id_iff : (a b : ProviderId) → (eq_provider_id a b ≡ true) ↔ (a ≡ b)
eq_provider_id_iff a b = ground (arith, eq_iff a.id b.id)

pub eq_context_id_iff : (a b : ContextId) → (eq_context_id a b ≡ true) ↔ (a ≡ b)
eq_context_id_iff a b = ground (arith, eq_iff a.id b.id)

pub eq_command_id_iff : (a b : CommandId) → (eq_command_id a b ≡ true) ↔ (a ≡ b)
eq_command_id_iff a b = ground (arith, eq_iff a.id b.id)

pub eq_env_name_iff : (a b : EnvName) → (eq_env_name a b ≡ true) ↔ (a ≡ b)
eq_env_name_iff a b = ground (arith, eq_iff a.name b.name)

pub is_env_name_iff : (e : EnvName) → (is_env_name e.name ≡ true) ↔ IsEnvName e
unfolding is_env_name
is_env_name_iff e = ground (
  arith,
  is_empty_iff e.name,
  starts_with_iff e.name "-",
  contains_char_iff e.name b'=',
  contains_char_iff e.name 0,
)

pub is_command_name_iff : (s : String) → (is_command_name s ≡ true) ↔ IsCommandName s
unfolding is_command_name
is_command_name_iff s = ground (arith, is_empty_iff s, starts_with_iff s "-", contains_char_iff s 0)

pub validate_context_iff : (c : DockerContext) → (validate_context c ≡ ok tt) ↔ IsContext c
unfolding validate_context is_container_name
validate_context_iff c = ground (
  arith,
  is_empty_iff c.container_name,
  starts_with_iff c.container_name "-",
  contains_char_iff c.user 0,
  contains_char_iff c.workdir 0,
  contains_char_iff c.container_name 0,
)

is_some-find_iff :
    (ps : List Provider) (id : ProviderId)
    → (is_some (find (λ p. eq_provider_id (provider_id p) id) ps) ≡ true)
      ↔ Any (λ p. provider_id p ≡ id) ps
is_some-find_iff [] id = (λ h. cc, λ h. absurd h)
is_some-find_iff (p ∷ ps) id =
    ground (arith, eq_provider_id_iff (provider_id p) id, is_some-find_iff ps id)

-- The lookup that a reference is checked by finds a provider exactly if one is declared.
pub find_provider_iff :
    (config : Config) (id : ProviderId)
    → (is_some (find_provider config id) ≡ true) ↔ IsDeclared config id
unfolding find_provider
find_provider_iff config id = is_some-find_iff config.providers id

pub check_provider_iff :
    (config : Config) (policy : CommandPolicy) (id : ProviderId) (env_name : EnvName)
    → (check_provider config policy id env_name ≡ ok tt) ↔ IsDeclared config id
unfolding check_provider
check_provider_iff config policy id env_name = ground (arith, find_provider_iff config id)

is_header_name_iff :
    (s : String) → (is_header_name s ≡ true) ↔ ((s ≢ "") × AllChars (λ c. is_token_char c ≡ true) s)
unfolding is_header_name
is_header_name_iff s = ground (
  arith,
  is_empty_iff s,
  all_chars_iff (λ c. is_token_char c ≡ true) is_token_char (λ c. (λ h. h, λ h. h)) s,
)

is_proxy_owned_iff :
    (s : String)
    → (is_proxy_owned s ≡ false) ↔ (
        (to_ascii_lowercase s ≢ "host")
        × (to_ascii_lowercase s ≢ "content-length")
        × (to_ascii_lowercase s ≢ "transfer-encoding")
        × (to_ascii_lowercase s ≢ "connection"))
unfolding is_proxy_owned
is_proxy_owned_iff s = ground (
  arith,
  eq_iff "host" (to_ascii_lowercase s),
  eq_iff "content-length" (to_ascii_lowercase s),
  eq_iff "transfer-encoding" (to_ascii_lowercase s),
  eq_iff "connection" (to_ascii_lowercase s),
)

pub validate_proxy_secret_iff :
    (config : Config) (policy : CommandPolicy) (proxy : ProxySecretSpec)
    → (validate_proxy_secret config policy proxy ≡ ok tt) ↔ IsProxySecret config proxy
unfolding validate_proxy_secret
validate_proxy_secret_iff config policy proxy = ground (
  arith,
  check_provider_iff config policy proxy.provider proxy.env_name,
  is_header_name_iff proxy.inject_header.name,
  is_proxy_owned_iff proxy.inject_header.name,
  all_chars_iff (λ c. is_printable_ascii c ≡ true) is_printable_ascii (λ c. (λ h. h, λ h. h))
      proxy.inject_header.template,
)
