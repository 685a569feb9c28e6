-- ===== src/Transfer.antt =====
-- src/transfer.rs: the supervisor's side of the secret transfer.
pub mod RoundTrip
pub mod Presented
pub mod Confinement
pub mod Lines
mod Tests
use iwaya.Prelude.{ℕ, String, ◌<>◌, List, [], ◌∷◌, Bool, false, Result, ok, err, ◌>>=◌, push, ◌≡◌}
use iwaya.Text.{contains_char}
use iwaya.Text.Number.{decimal}
use iwaya.Config.{EnvName, ProxySecretSpec}
use iwaya.Phantom.{Phantom, GenerateError, generate, expose_to_transfer, expose_to_target_env}
use iwaya.Secret.{Secret, into_proxy_transfer}

-- `RouteTransfer`
pub record RouteTransfer : Type 0 where
  pub header_name : String
  pub template : String
  pub upstream : String
  pub phantom : String
  pub secret : String

-- `ProxyTransfer`
pub record ProxyTransfer : Type 0 where
  pub routes : List RouteTransfer

-- The position of a JSON error.
pub record Position : Type 0 where
  pub line : ℕ
  pub column : ℕ

-- What the program uses of `serde_json` on the transfer document, with what it relies on: reading
-- back what was written gives the document, also with the line ending behind it, and the writing
-- is one line.
pub record Serde : Type 0 where
  pub to_string : ProxyTransfer → String
  pub from_str : String → Result Position ProxyTransfer

pub record IsFaithful (S : Serde) : Type 0 where
  pub from_str-to_string : (t : ProxyTransfer) → S.from_str (S.to_string t <> "\n") ≡ ok t
  pub single_line : (t : ProxyTransfer) → contains_char (S.to_string t) b'\n' ≡ false

-- `ProvisionedProxySecret`
pub record ProvisionedProxySecret : Type 0 where
  pub env_name : EnvName
  pub base_url_env : EnvName
  pub header_name : String
  pub template : String
  pub upstream : String
  pub phantom : Phantom
  pub raw_value : Secret

-- `ProvisionedProxySecret::provision`; the entropy source's answer is an argument.
unfoldable pub provision :
    (ℕ → Result String (List ℕ))
    → ProxySecretSpec
    → Secret
    → Result GenerateError ProvisionedProxySecret
provision fill spec raw_value = do
  phantom ← generate fill
  ok (record {
    env_name = spec.env_name;
    base_url_env = spec.base_url_env;
    header_name = spec.inject_header.name;
    template = spec.inject_header.template;
    upstream = spec.upstream;
    phantom = phantom;
    raw_value = raw_value;
  })

-- `ProxySecretPlan`
pub record ProxySecretPlan : Type 0 where
  pub env_name : EnvName
  pub base_url_env : EnvName
  pub phantom : Phantom

-- What the loop of `into_transfer` pushes for one secret.
unfoldable pub route_of : ProvisionedProxySecret → RouteTransfer
route_of secret = record {
  header_name = secret.header_name;
  template = secret.template;
  upstream = secret.upstream;
  phantom = expose_to_transfer secret.phantom;
  secret = into_proxy_transfer secret.raw_value;
}

unfoldable pub plan_of : ProvisionedProxySecret → ProxySecretPlan
plan_of secret = record {
  env_name = secret.env_name;
  base_url_env = secret.base_url_env;
  phantom = secret.phantom;
}

-- The loop of `into_transfer`.
unfoldable pub split_provisioned :
    List ProvisionedProxySecret
    → List RouteTransfer
    → List ProxySecretPlan
    → List RouteTransfer × List ProxySecretPlan
split_provisioned [] routes plans = (routes, plans)
split_provisioned (secret ∷ rest) routes plans =
    split_provisioned rest (push routes (route_of secret)) (push plans (plan_of secret))

-- `into_transfer`
unfoldable pub into_transfer : Serde → List ProvisionedProxySecret → String × List ProxySecretPlan
into_transfer S provisioned =
    let (routes, plans) = split_provisioned provisioned [] [] in
    (S.to_string (record { routes = routes }), plans)

-- `format!("http://127.0.0.1:{port}")`
unfoldable pub base_url : ℕ → String
base_url port = "http://127.0.0.1:" <> decimal port

-- The loop of `target_environment`.
unfoldable pub plan_entries :
    List ProxySecretPlan → ℕ → List (EnvName × String) → List (EnvName × String)
plan_entries [] port environment = environment
plan_entries (plan ∷ rest) port environment = plan_entries rest port (
    push (push environment (plan.env_name, expose_to_target_env plan.phantom))
      (plan.base_url_env, base_url port))

-- `target_environment`
unfoldable pub target_environment : List ProxySecretPlan → ℕ → List (EnvName × String)
target_environment plans port = plan_entries plans port []
