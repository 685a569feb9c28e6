-- ===== src/Main/Tests.antt =====
-- src/main.rs: tests.
use iwaya.Config.Load.{load, parse_text, check_version, parse_sections, parse_section, parse_each}
use iwaya.Config.Nodes.{
  children, positional_strings, collect_strings, single_string_argument, property_string,
}
use iwaya.Config.ParseProvider.{
  parse_provider, parse_bws_provider, read_bws_settings, read_bws_setting, parse_access_token,
  parse_acquisition, finish_bws,
}
use iwaya.Config.ParseContext.{
  parse_context, read_settings, read_setting, setting_of, finish_context, is_single_executable,
  is_shell_char,
}
use iwaya.Text.Ascii.{is_whitespace, is_ascii_alphanumeric, to_ascii_lowercase, is_printable_ascii}
use iwaya.Config.ParsePolicy.{
  parse_policy, read_entries, read_entry, parse_secret, parse_proxy_secret, read_proxy_settings,
  read_proxy_setting, proxy_setting_of, finish_proxy_secret,
}
use iwaya.Config.Validate.{
  validate, validate_providers, validate_contexts, validate_context, is_container_name,
  validate_policies, validate_policy, is_command_name, declare_secrets, declare_env_name,
  is_env_name, declare_proxy_secrets, validate_secrets, check_provider, validate_proxy_secrets,
  validate_proxy_secret, is_header_name, is_token_char, is_proxy_owned,
}
use iwaya.Text.{strip_prefix, strip_suffix}
use iwaya.Config.{find_provider, find_context, find_policy, ProviderId, CommandPolicy}
use iwaya.Config.Origin.{is_http_origin}
use iwaya.Text.Search.{count_placeholders}
use iwaya.Main.Execute.{
  execute_policy, resolve_groups, deliver_resolved, environment_of, resolved_value, get_values,
  deliver_by, deliver_proxied, provision_all, prepare_image, start_sidecar, supervise_target,
  execute,
}
use iwaya.Bws.{
  resolve, acquire_access_token, acquisition_command, strip_one_trailing_line_ending,
  resolve_project, bws_json, bws_command, find_project, resolve_secrets, select_secrets,
  check_names, get_secret, collect_secrets,
}
use iwaya.Transfer.{
  provision, into_transfer, split_provisioned, route_of, target_environment, plan_entries, plan_of,
  base_url,
}
use iwaya.Phantom.{generate, expose_to_transfer, expose_to_target_env}
use iwaya.ProxyImage.Build.{ensure_proxy_image, ensure_image, image_exists}
use iwaya.ProxyImage.Collection.{
  build_material, open_interpreter, loaded_shared_objects, open_objects, arrange,
}
use iwaya.ProxyImage.Elf.{
  program_interpreter, is_elf64, scan_headers, number_at, from_le_bytes, drop_bytes,
}
use iwaya.ProxyImage.{first_bytes, image_tag, hash_entries, hash_entry, read_all}
use iwaya.ProxyImage.Sorting.{dedup, sort, insert, dedup_behind}
use iwaya.ProxyImage.Maps.{shared_objects, text_lines}
use iwaya.Sidecar.{
  deliver, start, ephemeral_name, attach, await_readiness, unstarted, run_command, teardown,
}
use iwaya.Secret.{
  into_proxy_transfer, clone_for_shared_declaration, new_secret, expose_to_subprocess_env,
}
use iwaya.Run.{
  supervise_runtime, command_of, build_argv, proxy_secret_options, secret_options, supervise,
  attend, finish, exit_code_of, apply_proxy_environment, relay, apply_injected_environment,
}
use iwaya.Main.Surroundings.{finished, refused, supervised, panicked}
use iwaya.Main.{sidecar, add_name, group, names_by_provider}
use iwaya.Prelude.{true, ◌++◌, ap, ◌≢◌, map, ok, [], ◌∷◌, ◌≡◌, refl}
use iwaya.Main.Protocol.{IsAccepted, resolving}
use iwaya.Main.Ordered.{execute-IsAccepted}
use iwaya.Main.Presence.{IsSurrounded, execute-IsSurrounded}
use iwaya.Main.Panics.{execute-ne-panicked}
use iwaya.Main.Served.{execute-IsFinished, execute-parse_transfer}
use iwaya.Main.Exit.{run_exec}
use iwaya.Main.Endings.{IsEnded, run_exec-IsEnded}
use iwaya.Proxy.{parse_transfer}
use iwaya.Main.Input.{sidecar_input}
use iwaya.Transfer.Lines.{lines, lines-IsFaithful}
use iwaya.Transfer.RoundTrip.{armed_route}
use iwaya.Run.{spawned as run_spawned}
use iwaya.Text.Number.{decimal}
use iwaya.Main.Example.{world, invocation, refusing, target, before, after}

abbrev vault : ProviderId
vault = record { id = "vault" }

abbrev policy : CommandPolicy
policy = record {
  id = record { id = "deploy" };
  secrets =
      record {
        env_name = record { name = "A" };
        provider = vault;
        secret_name = record { name = "a" };
      }
      ∷ record {
        env_name = record { name = "B" };
        provider = record { id = "other" };
        secret_name = record { name = "b" };
      }
      ∷ record {
        env_name = record { name = "C" };
        provider = vault;
        secret_name = record { name = "c" };
      }
      ∷ [];
  proxy_secrets = [];
}

grouped :
    names_by_provider policy
    ≡ (vault, record { name = "a" } ∷ record { name = "c" } ∷ [])
      ∷ (record { id = "other" }, record { name = "b" } ∷ [])
      ∷ []
unfolding names_by_provider group add_name
grouped = refl

-- The invocation to its end, and one whose sidecar cannot be started.
pub runs :
    (execute world invocation ≡ (before ++ supervised (run_spawned 77 target) ∷ after, finished 3))
    × ((execute refusing invocation).1 ≡ refused (sidecar (unstarted "docker" "no such runtime")))
unfolding execute load parse_text check_version parse_sections children parse_section parse_each
    parse_provider parse_bws_provider positional_strings collect_strings read_bws_settings
    read_bws_setting single_string_argument parse_access_token parse_acquisition finish_bws
    parse_context read_settings read_setting setting_of finish_context is_single_executable
    is_shell_char is_whitespace parse_policy read_entries read_entry parse_secret property_string
    parse_proxy_secret read_proxy_settings read_proxy_setting proxy_setting_of finish_proxy_secret
    validate validate_providers validate_contexts validate_context is_container_name strip_prefix
    validate_policies validate_policy is_command_name declare_secrets declare_env_name is_env_name
    declare_proxy_secrets validate_secrets check_provider find_provider validate_proxy_secrets
    validate_proxy_secret is_http_origin is_header_name is_token_char is_ascii_alphanumeric
    is_proxy_owned to_ascii_lowercase count_placeholders is_printable_ascii find_context find_policy
    execute_policy resolve_groups names_by_provider group add_name resolve acquire_access_token
    acquisition_command strip_one_trailing_line_ending strip_suffix resolve_project bws_json
    bws_command find_project resolve_secrets select_secrets check_names get_secret collect_secrets
    deliver_resolved environment_of resolved_value get_values deliver_by deliver_proxied
    provision_all provision generate prepare_image ensure_proxy_image build_material
    program_interpreter is_elf64 scan_headers number_at from_le_bytes first_bytes drop_bytes
    open_interpreter loaded_shared_objects open_objects dedup sort shared_objects text_lines
    image_tag hash_entries arrange insert hash_entry read_all dedup_behind ensure_image image_exists
    start_sidecar start into_transfer split_provisioned route_of expose_to_transfer
    into_proxy_transfer clone_for_shared_declaration new_secret ephemeral_name attach
    await_readiness deliver supervise_target supervise_runtime command_of build_argv
    proxy_secret_options secret_options supervise attend finish exit_code_of
    expose_to_subprocess_env run_command apply_proxy_environment relay target_environment teardown
    plan_entries apply_injected_environment plan_of base_url expose_to_target_env decimal
runs = (refl, refl)

pub finishes : (execute world invocation).1 ≡ finished 3
finishes = ap (λ r. r.1) runs.0

execute-IsAccepted_example : IsAccepted true resolving (execute world invocation).0
execute-IsAccepted_example = execute-IsAccepted world invocation

execute-IsSurrounded_example : IsSurrounded before after
execute-IsSurrounded_example =
    execute-IsSurrounded world invocation before after 77 target (ap (λ r. r.0) runs.0)

execute-ne-panicked_example : (execute world invocation).1 ≢ panicked
execute-ne-panicked_example = execute-ne-panicked world invocation refl

execute-parse_transfer_example :
    parse_transfer lines (sidecar_input (execute world invocation).0)
    ≡ ok (map armed_route (execute-IsFinished world invocation 3 finishes).served.provisioned)
execute-parse_transfer_example = execute-parse_transfer world invocation 3 lines-IsFaithful finishes

run_exec-IsEnded_example :
    IsEnded world invocation
      (run_exec world "dev" "claude" ("--resume" ∷ [])).0
      (run_exec world "dev" "claude" ("--resume" ∷ [])).1
run_exec-IsEnded_example = run_exec-IsEnded world "dev" "claude" ("--resume" ∷ [])
