-- ===== src/Config/Tests.antt =====
-- src/config: tests.
use iwaya.Prelude.{String, ◌<>◌, [], ◌∷◌, true, false, some, ◌≡◌, ◌↔◌, refl, ok, Result}
use iwaya.Text.{all_chars, strip_prefix}
use iwaya.Config.{Config, CommandPolicy, bws, CommandId, DockerContext, find_policy, find_provider}
use iwaya.Kdl.{pos}
use iwaya.Text.Ascii.{is_whitespace}
use iwaya.Config.Trees.{Tree, tree, nil, plant, text, number, always, leaf}
use iwaya.Config.Nodes.{
  children, positional_strings, collect_strings, single_string_argument, property_string,
}
use iwaya.Config.ParseContext.{
  parse_context, read_settings, read_setting, finish_context, setting_of, is_single_executable,
  is_shell_char,
}
use iwaya.Config.Load.{load, parse_text, check_version, parse_sections, parse_section, parse_each}
use iwaya.Config.ParseProvider.{
  parse_provider, parse_bws_provider, read_bws_settings, read_bws_setting, finish_bws,
  parse_access_token, parse_acquisition,
}
use iwaya.Config.ParsePolicy.{parse_policy, read_entries, read_entry, parse_secret}
use iwaya.Config.Loaded.{IsResolvable, find_policy-IsResolvable}
use iwaya.Config.ContextNode.{IsContextOf, parse_context-IsContextOf}
use iwaya.Config.Valid.{IsPolicy, IsValid}
use iwaya.Config.Origin.{is_http_origin, strip_scheme}
use iwaya.Config.Validate.{
  validate, validate_providers, validate_contexts, validate_context, is_container_name,
  validate_policies, validate_policy, is_command_name, is_env_name, declare_env_name,
  declare_secrets, declare_proxy_secrets, validate_secrets, check_provider, validate_proxy_secrets,
}
use iwaya.Config.Validity.{validate_iff}
use iwaya.Config.Loadable.{IsRunnable, IsLoaded, load_iff}
use iwaya.Config.Authority.{authority_of, authority_of-append, stays}

origin_tests :
    (is_http_origin "https://api.anthropic.com" ≡ true)
    × (is_http_origin "http://[::1]:8080" ≡ true)
    × (is_http_origin "http://h:80:90" ≡ false)
    × (is_http_origin "http://h/path" ≡ false)
    × (is_http_origin "http://h:65536" ≡ false)
    × (is_http_origin "http://u@h" ≡ false)
unfolding is_http_origin
origin_tests = (refl, refl, refl, refl, refl, refl)

abbrev sample_policy : CommandPolicy
sample_policy = record {
  id = record { id = "claude" };
  secrets =
      record {
        env_name = record { name = "GIT_TOKEN" };
        provider = record { id = "bws-default" };
        secret_name = record { name = "git" };
      }
      ∷ [];
  proxy_secrets =
      record {
        env_name = record { name = "API_KEY" };
        provider = record { id = "bws-default" };
        secret_name = record { name = "api" };
        upstream = "https://api.example.com";
        base_url_env = record { name = "API_URL" };
        inject_header = record { name = "x-api-key"; template = "Bearer {}" };
      }
      ∷ [];
}

abbrev sample : Config
sample = record {
  providers =
      bws (record {
        id = record { id = "bws-default" };
        project = "p";
        access_token = record { program = "pass"; args = "show" ∷ [] };
      })
      ∷ [];
  contexts =
      record {
        id = record { id = "dev" };
        runtime = "podman";
        user = "vscode";
        workdir = "/w";
        container_name = "app";
      }
      ∷ [];
  policies = sample_policy ∷ [];
}

validate_iff_example : (validate sample ≡ ok tt) ↔ IsValid sample
validate_iff_example = validate_iff sample

load_iff_example : IsLoaded sample ↔ (IsValid sample × IsRunnable sample)
load_iff_example = load_iff sample

sample_origin : is_http_origin "http://h:80" ≡ true
unfolding is_http_origin
sample_origin = refl

authority_of-append_example :
    (authority : String) × (strip_scheme "http://h:80" ≡ some authority)
    × (all_chars stays authority ≡ true)
    × (authority_of ("http://h:80" <> "/@evil/v1") ≡ some authority)
authority_of-append_example =
    authority_of-append "http://h:80" "/@evil/v1" "@evil/v1" sample_origin refl

abbrev context_node : Tree
context_node = tree "docker" ("dev" ∷ []) [] (
    plant (leaf "user" "vscode")
      (plant (leaf "workdir" "/w") (plant (leaf "container-name" "app") nil)))

abbrev policy_node : Tree
policy_node = tree "command" ("claude" ∷ []) [] (
    plant
      (tree "secret" ("GIT_TOKEN" ∷ [])
        (("provider", text "bws-default") ∷ ("secret-name", text "git") ∷ []) nil)
      nil)

abbrev provider_node : Tree
provider_node = tree "bws" ("bws-default" ∷ []) [] (
    plant (leaf "project" "p")
      (plant (tree "access-token" [] [] (plant (leaf "exec" "pass") nil)) nil))

abbrev document : Tree
document = tree "iwaya" [] (("version", number (pos 1)) ∷ []) (
    plant (tree "providers" [] [] (plant provider_node nil)) (
      plant (tree "contexts" [] [] (plant context_node nil))
        (plant (tree "policies" [] [] (plant policy_node nil)) nil)))

abbrev dev : DockerContext
dev = record {
  id = record { id = "dev" };
  runtime = "docker";
  user = "vscode";
  workdir = "/w";
  container_name = "app";
}

abbrev loaded_policy : CommandPolicy
loaded_policy = record sample_policy { proxy_secrets = [] }

abbrev loaded : Config
loaded = record {
  providers =
      bws (record {
        id = record { id = "bws-default" };
        project = "p";
        access_token = record { program = "pass"; args = [] };
      })
      ∷ [];
  contexts = dev ∷ [];
  policies = loaded_policy ∷ [];
}

abbrev read_to_string : String → Result String String
read_to_string path = ok "iwaya version=1 {}"

parsed_context : parse_context (always document) context_node ≡ ok dev
unfolding parse_context read_settings read_setting finish_context positional_strings collect_strings
    children single_string_argument setting_of is_single_executable is_shell_char is_whitespace
parsed_context = refl

parse_context-IsContextOf_example : IsContextOf (always document) context_node dev
parse_context-IsContextOf_example =
    parse_context-IsContextOf (always document) context_node dev parsed_context

loads : load (always document) read_to_string "config.kdl" ≡ ok loaded
unfolding load parse_text check_version parse_sections parse_section parse_each parse_context
    read_settings read_setting finish_context positional_strings collect_strings children
    single_string_argument setting_of is_single_executable is_shell_char is_whitespace
    parse_provider parse_bws_provider read_bws_settings read_bws_setting finish_bws
    parse_access_token parse_acquisition parse_policy read_entries read_entry parse_secret
    property_string validate validate_providers validate_contexts validate_context is_container_name
    validate_policies validate_policy is_command_name is_env_name declare_env_name declare_secrets
    declare_proxy_secrets validate_secrets check_provider find_provider validate_proxy_secrets
    strip_prefix
loads = refl

found : find_policy loaded (record { id = "claude" }) ≡ some loaded_policy
unfolding find_policy
found = refl

find_policy-IsResolvable_example :
    (◌≡◌ {A = CommandId} (record { id = "claude" }) (record { id = "claude" }))
    × IsPolicy loaded loaded_policy
    × IsResolvable loaded loaded_policy
find_policy-IsResolvable_example =
    find_policy-IsResolvable (always document) read_to_string "config.kdl" loaded
      (record { id = "claude" }) loaded_policy loads found
