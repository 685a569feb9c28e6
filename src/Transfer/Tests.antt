-- ===== src/Transfer/Tests.antt =====
-- src/transfer.rs: tests.
use iwaya.Prelude.{◌<>◌, List, [], ◌∷◌, map, ◌≡◌, refl, true, ok, All, String, inl, none}
use iwaya.Text.Laws.{differ}
use iwaya.Config.Origin.{is_http_origin}
use iwaya.Phantom.{expose_to_target_env}
use iwaya.Secret.{new_secret}
use iwaya.Transfer.{ProvisionedProxySecret, into_transfer, target_environment}
use iwaya.Transfer.Lines.{lines, lines-IsFaithful}
use iwaya.Transfer.RoundTrip.{armed_route, parse_transfer-into_transfer}
use iwaya.Transfer.Presented.{IsApart, prepare-armed_route}
use iwaya.Proxy.Forward.{
  Request, Client, prepare, header_pairs, values_of, is_origin_form, Outgoing,
}
use iwaya.Text.Ascii.{eq_ignore_ascii_case, to_ascii_lowercase}
use iwaya.Text.Search.{replace_first}
use iwaya.Text.{◌=?◌, strip_prefix}
use iwaya.Transfer.Confinement.{with_raw_values, target_environment-with_raw_values}
use iwaya.Proxy.{parse_transfer}

abbrev api_secret : ProvisionedProxySecret
api_secret = record {
  env_name = record { name = "API_KEY" };
  base_url_env = record { name = "API_URL" };
  header_name = "x-api-key";
  template = "{}";
  upstream = "https://api.example.com";
  phantom = record { value = "iwaya-phantom-01" };
  raw_value = record { value = "raw" };
}

abbrev git_secret : ProvisionedProxySecret
git_secret = record {
  env_name = record { name = "GIT_TOKEN" };
  base_url_env = record { name = "GIT_URL" };
  header_name = "Authorization";
  template = "Bearer {}";
  upstream = "http://[::1]:8080";
  phantom = record { value = "iwaya-phantom-02" };
  raw_value = record { value = "other" };
}

abbrev two_secrets : List ProvisionedProxySecret
two_secrets = api_secret ∷ git_secret ∷ []

two_secrets_origins : All (λ p. is_http_origin p.upstream ≡ true) two_secrets
unfolding is_http_origin
two_secrets_origins = (refl, (refl, tt))

parse_transfer-into_transfer_example :
    parse_transfer lines ((into_transfer lines two_secrets).0 <> "\n")
    ≡ ok (map armed_route two_secrets)
parse_transfer-into_transfer_example =
    parse_transfer-into_transfer lines lines-IsFaithful two_secrets (λ e. cc) two_secrets_origins

abbrev client : Client
client = record {
  Response = String;
  is_method = λ m. m =? "GET";
  builds = λ _. true;
  run = λ outgoing. ok "";
}

abbrev call : Request
call = record {
  method = "GET";
  url = "/repo";
  headers = ("Accept", "*/*") ∷ ("Authorization", "iwaya-phantom-02") ∷ [];
  body_length = none;
  body = "";
}

apart : IsApart (header_pairs call.headers) (expose_to_target_env git_secret.phantom) api_secret
unfolding values_of header_pairs eq_ignore_ascii_case to_ascii_lowercase expose_to_target_env
apart = (differ "iwaya-phantom-01" "iwaya-phantom-02" refl, inl refl)

presented :
    (is_origin_form call.url ≡ true)
    × (values_of git_secret.header_name (header_pairs call.headers)
        ≡ expose_to_target_env git_secret.phantom ∷ [])
unfolding is_origin_form strip_prefix values_of header_pairs eq_ignore_ascii_case to_ascii_lowercase
    expose_to_target_env
presented = (refl, refl)

prepare-armed_route_example :
    (sent : Outgoing) × (prepare client call (map armed_route two_secrets) ≡ ok sent)
    × (sent.uri ≡ "http://[::1]:8080/repo")
    × (values_of "Authorization" sent.headers ≡ replace_first "Bearer {}" "{}" "other" ∷ [])
prepare-armed_route_example =
    prepare-armed_route client (api_secret ∷ []) git_secret [] call presented.0 presented.1
      (apart, tt) refl refl

target_environment-with_raw_values_example :
    target_environment
      (into_transfer lines (with_raw_values (λ _. new_secret "nothing") two_secrets)).1
      8080
    ≡ target_environment (into_transfer lines two_secrets).1 8080
target_environment-with_raw_values_example =
    target_environment-with_raw_values lines (λ _. new_secret "nothing") two_secrets 8080
