-- ===== src/Config/Valid.antt =====
-- What a valid configuration is, stated without the validator's order and loops.
use iwaya.Prelude.{String, List, [], ◌∷◌, ◌++◌, map, true, ◌≡◌, ◌≢◌, All, Any, Distinct}
use iwaya.Text.Ascii.{to_ascii_lowercase, is_printable_ascii}
use iwaya.Text.Search.{count_placeholders}
use iwaya.Text.Chars.{AllChars, Lacks, StartsWith}
use iwaya.Config.{
  Config, CommandPolicy, DockerContext, provider_id, ProxySecretSpec, EnvName, ProviderId,
  InjectHeader,
}
use iwaya.Config.Origin.{is_http_origin}
use iwaya.Config.Validate.{is_token_char}

pub record IsContext (c : DockerContext) : Type 0 where
  pub named : c.container_name ≢ ""
  pub no_option : ¬ StartsWith c.container_name "-"
  pub user : Lacks c.user 0
  pub workdir : Lacks c.workdir 0
  pub container : Lacks c.container_name 0

pub record IsCommandName (s : String) : Type 0 where
  pub named : s ≢ ""
  pub no_option : ¬ StartsWith s "-"
  pub no_nul : Lacks s 0

pub record IsEnvName (e : EnvName) : Type 0 where
  pub named : e.name ≢ ""
  pub no_option : ¬ StartsWith e.name "-"
  pub no_equals : Lacks e.name b'='
  pub no_nul : Lacks e.name 0

-- Some provider of the configuration has the identifier.
abbrev pub IsDeclared : Config → ProviderId → Type 0
IsDeclared config id = Any (λ p. provider_id p ≡ id) config.providers

-- The header that the proxy rewrites: a token that it does not own, compared without case, and a
-- template of printable ASCII with one placeholder.
pub record IsInjectHeader (h : InjectHeader) : Type 0 where
  pub named : h.name ≢ ""
  pub token : AllChars (λ c. is_token_char c ≡ true) h.name
  pub not_host : to_ascii_lowercase h.name ≢ "host"
  pub not_length : to_ascii_lowercase h.name ≢ "content-length"
  pub not_encoding : to_ascii_lowercase h.name ≢ "transfer-encoding"
  pub not_connection : to_ascii_lowercase h.name ≢ "connection"
  pub one_placeholder : count_placeholders h.template ≡ 1
  pub printable : AllChars (λ c. is_printable_ascii c ≡ true) h.template

pub record IsProxySecret (config : Config) (proxy : ProxySecretSpec) : Type 0 where
  pub declared : IsDeclared config proxy.provider
  pub origin : is_http_origin proxy.upstream ≡ true
  pub header : IsInjectHeader proxy.inject_header

abbrev pub proxy_env_names : List ProxySecretSpec → List EnvName
proxy_env_names [] = []
proxy_env_names (proxy ∷ rest) = proxy.env_name ∷ proxy.base_url_env ∷ proxy_env_names rest

-- Every environment variable that a policy injects.
abbrev pub env_names : CommandPolicy → List EnvName
env_names policy = map (λ s. s.env_name) policy.secrets ++ proxy_env_names policy.proxy_secrets

pub record IsPolicy (config : Config) (policy : CommandPolicy) : Type 0 where
  pub command : IsCommandName policy.id.id
  pub env_names_valid : All IsEnvName (env_names policy)
  pub env_names_distinct : Distinct (env_names policy)
  pub secrets : All (λ s. IsDeclared config s.provider) policy.secrets
  pub proxy_secrets : All (IsProxySecret config) policy.proxy_secrets

pub record IsValid (config : Config) : Type 0 where
  pub providers : Distinct (map provider_id config.providers)
  pub context_ids : Distinct (map (λ c. c.id) config.contexts)
  pub contexts : All IsContext config.contexts
  pub command_ids : Distinct (map (λ p. p.id) config.policies)
  pub policies : All (IsPolicy config) config.policies
