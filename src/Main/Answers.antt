-- ===== src/Main/Answers.antt =====
-- src/main.rs: tests of an execution all of whose surroundings answer with success.
use iwaya.Prelude.{ℕ, [], ◌∷◌, ◌≡◌, refl, subst, ok, some, All}
use iwaya.Config.{
  ProviderId, SecretName, Config, BwsProvider, DockerContext, CommandPolicy, SecretSpec, bws,
  find_provider, find_context, find_policy,
}
use iwaya.Config.Load.{load, parse_text, check_version, parse_sections, parse_section, parse_each}
use iwaya.Config.Nodes.{
  children, positional_strings, collect_strings, single_string_argument, property_string,
}
use iwaya.Config.ParseProvider.{
  parse_provider, parse_bws_provider, read_bws_settings, read_bws_setting, parse_access_token,
  parse_acquisition, finish_bws,
}
use iwaya.Config.ParseContext.{
  parse_context, read_settings, read_setting, setting_of, finish_context, is_single_executable,
  is_shell_char,
}
use iwaya.Text.Ascii.{is_whitespace, is_ascii_alphanumeric, to_ascii_lowercase, is_printable_ascii}
use iwaya.Config.ParsePolicy.{
  parse_policy, read_entries, read_entry, parse_secret, parse_proxy_secret, read_proxy_settings,
  read_proxy_setting, proxy_setting_of, finish_proxy_secret,
}
use iwaya.Config.Validate.{
  validate, validate_providers, validate_contexts, validate_context, is_container_name,
  validate_policies, validate_policy, is_command_name, declare_secrets, declare_env_name,
  is_env_name, declare_proxy_secrets, validate_secrets, check_provider, validate_proxy_secrets,
  validate_proxy_secret, is_header_name, is_token_char, is_proxy_owned,
}
use iwaya.Text.{strip_prefix, strip_suffix}
use iwaya.Config.Origin.{is_http_origin}
use iwaya.Text.Number.{hex}
use iwaya.Text.Search.{count_placeholders}
use iwaya.Bws.{
  Resolved, resolve, acquire_access_token, acquisition_command, strip_one_trailing_line_ending,
  resolve_project, bws_json, bws_command, find_project, resolve_secrets, select_secrets,
  check_names, get_secret, collect_secrets,
}
use iwaya.Phantom.{Phantom, generate}
use iwaya.ProxyImage.Build.{ensure_proxy_image, ensure_image, image_exists}
use iwaya.ProxyImage.Collection.{
  build_material, open_interpreter, loaded_shared_objects, open_objects, arrange,
}
use iwaya.ProxyImage.Elf.{
  program_interpreter, is_elf64, scan_headers, number_at, from_le_bytes, drop_bytes,
}
use iwaya.ProxyImage.{first_bytes, image_tag, hash_entries, hash_entry, read_all}
use iwaya.ProxyImage.Sorting.{dedup, sort, insert, dedup_behind}
use iwaya.ProxyImage.Maps.{shared_objects, text_lines}
use iwaya.Secret.{new_secret}
use iwaya.Run.{exited, exit_code_of}
use iwaya.Transfer.Lines.{lines-IsFaithful}
use iwaya.Main.{config_path, add_name, group, names_by_provider}
use iwaya.Main.Execute.{execute}
use iwaya.Main.Surroundings.{finished}
use iwaya.Main.Finishing.{IsAnswered, execute-eq-finished}
use iwaya.Main.Example.{world, invocation}

abbrev vault : ProviderId
vault = record { id = "vault" }

abbrev git : SecretName
git = record { name = "git" }

abbrev vault_provider : BwsProvider
vault_provider = record {
  id = vault;
  project = "p";
  access_token = record { program = "pass"; args = [] };
}

abbrev dev : DockerContext
dev = record {
  id = record { id = "dev" };
  runtime = "docker";
  container_name = "app";
  user = "u";
  workdir = "/w";
}

abbrev git_token : SecretSpec
git_token = record { env_name = record { name = "GIT_TOKEN" }; provider = vault; secret_name = git }

abbrev claude : CommandPolicy
claude = record {
  id = record { id = "claude" };
  secrets = git_token ∷ [];
  proxy_secrets =
      record {
        env_name = record { name = "API_KEY" };
        provider = vault;
        secret_name = git;
        upstream = "https://h";
        base_url_env = record { name = "API_URL" };
        inject_header = record { name = "k"; template = "{}" };
      }
      ∷ [];
}

abbrev git_policy : CommandPolicy
git_policy = record { id = record { id = "git" }; secrets = git_token ∷ []; proxy_secrets = [] }

abbrev configuration : Config
configuration = record {
  providers = bws vault_provider ∷ [];
  contexts = dev ∷ [];
  policies = claude ∷ git_policy ∷ [];
}

loaded : load world.kdl world.read_to_string (config_path world.var_os) ≡ ok configuration
unfolding load parse_text check_version parse_sections children parse_section parse_each
    parse_provider parse_bws_provider positional_strings collect_strings read_bws_settings
    read_bws_setting single_string_argument parse_access_token parse_acquisition finish_bws
    parse_context read_settings read_setting setting_of finish_context is_single_executable
    is_shell_char is_whitespace parse_policy read_entries read_entry parse_secret property_string
    parse_proxy_secret read_proxy_settings read_proxy_setting proxy_setting_of finish_proxy_secret
    validate validate_providers validate_contexts validate_context is_container_name strip_prefix
    validate_policies validate_policy is_command_name declare_secrets declare_env_name is_env_name
    declare_proxy_secrets validate_secrets check_provider find_provider validate_proxy_secrets
    validate_proxy_secret is_http_origin is_header_name is_token_char is_ascii_alphanumeric
    is_proxy_owned to_ascii_lowercase count_placeholders is_printable_ascii
loaded = refl

selected :
    (find_context configuration invocation.context ≡ some dev)
    × (find_policy configuration invocation.command ≡ some claude)
unfolding find_context find_policy
selected = (refl, refl)

vault_answers : IsAnswered world configuration (vault, git ∷ git ∷ [])
unfolding find_provider resolve acquire_access_token acquisition_command
    strip_one_trailing_line_ending strip_suffix resolve_project bws_json bws_command find_project
    resolve_secrets select_secrets check_names get_secret collect_secrets new_secret
vault_answers ran provider configured =
    let same : vault_provider ≡ provider = cc in
    subst (λ p. (values : Resolved) × ((resolve world.shell ran p (git ∷ git ∷ [])).1 ≡ ok values))
      same (_, refl)

answers : All (IsAnswered world configuration) (names_by_provider claude)
unfolding names_by_provider group add_name
answers = (vault_answers, tt)

minted : (calls : ℕ) → (p : Phantom) × (generate (world.fill calls) ≡ ok p)
unfolding generate
minted calls = (_, refl)

image_made :
    (ensure_proxy_image world.machine world.process world.sha256 world.version "docker").1
    ≡ ok "iwaya-proxy:v0.1.0-010203040506"
unfolding ensure_proxy_image build_material program_interpreter is_elf64 scan_headers number_at
    from_le_bytes first_bytes drop_bytes open_interpreter loaded_shared_objects open_objects dedup
    sort shared_objects text_lines image_tag hash_entries arrange insert hash_entry read_all
    dedup_behind ensure_image image_exists hex
image_made = refl

execute-eq-finished_example : (execute world invocation).1 ≡ finished (exit_code_of (exited 3))
execute-eq-finished_example =
    execute-eq-finished world configuration dev claude "iwaya-proxy:v0.1.0-010203040506"
      (1 ∷ 2 ∷ []) "{\"port\":34567}\n" 34567 77 (exited 3) lines-IsFaithful answers minted
      image_made refl (λ command. refl) (λ text. refl) refl refl refl refl (λ command. refl) refl
      refl invocation loaded selected.0 selected.1 (λ e. cc)
