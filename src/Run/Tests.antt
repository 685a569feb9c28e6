-- ===== src/Run/Tests.antt =====
-- src/run.rs: tests.
use iwaya.Prelude.{
  true, String, List, [], ◌∷◌, ◌++◌, false, some, ◌≡◌, refl, ok, All, Distinct, ◌≢◌, ap, sym, ◌∙◌,
  arith,
}
use iwaya.Text.{◌=?◌, starts_with, strip_prefix}
use iwaya.Text.Laws.{differ}
use iwaya.Text.Chars.{starts_with_iff}
use iwaya.Config.{CommandPolicy, DockerContext, EnvName}
use iwaya.Config.Valid.{IsContext}
use iwaya.Secret.{Secret}
use iwaya.Run.{
  build_argv, Command, System, replaced, exited, apply_injected_environment,
  apply_proxy_environment, secret_options, proxy_secret_options,
}
use iwaya.Run.Invocation.{read_options, read_options-build_argv}
use iwaya.Run.Delivery.{child_value, names_in, revealed, child_value-apply_proxy_environment}

abbrev context : DockerContext
context = record {
  id = record { id = "iwaya" };
  runtime = "podman";
  user = "vscode";
  workdir = "/w";
  container_name = "iwaya-dev";
}

abbrev policy : CommandPolicy
policy = record {
  id = record { id = "claude" };
  secrets =
      record {
        env_name = record { name = "GIT_TOKEN" };
        provider = record { id = "bws-default" };
        secret_name = record { name = "git" };
      }
      ∷ [];
  proxy_secrets = [];
}

no_dash : starts_with "iwaya-dev" "-" ≡ false
unfolding strip_prefix
no_dash = refl

context-IsContext : IsContext context
context-IsContext = record {
  named = differ "iwaya-dev" "" refl;
  no_option = λ h. cc (sym no_dash ∙ (starts_with_iff "iwaya-dev" "-").1 h);
  user = ground arith;
  workdir = ground arith;
  container = ground arith;
}

built :
    build_argv context policy ("--resume" ∷ [])
    ≡ "podman" ∷ "exec" ∷ "--interactive" ∷ "--tty" ∷ "--env" ∷ "GIT_TOKEN" ∷ "--user" ∷ "vscode"
      ∷ "--workdir" ∷ "/w" ∷ "iwaya-dev" ∷ "claude" ∷ "--resume" ∷ []
unfolding build_argv secret_options proxy_secret_options
built = refl

read_options-build_argv_example :
    (arguments : List String) × (build_argv context policy ("--resume" ∷ [])
      ≡ "podman" ∷ "exec" ∷ arguments)
    × (read_options arguments
        ≡ some (record {
          env_names = "GIT_TOKEN" ∷ [];
          users = "vscode" ∷ [];
          workdirs = "/w" ∷ [];
          positionals = "iwaya-dev" ∷ "claude" ∷ "--resume" ∷ [];
        }))
read_options-build_argv_example =
    read_options-build_argv context policy ("--resume" ∷ []) context-IsContext

abbrev git_token : List (EnvName × Secret)
git_token = (record { name = "GIT_TOKEN" }, record { value = "raw" }) ∷ []

abbrev api_entries : List (EnvName × String)
api_entries =
    (record { name = "API_KEY" }, "iwaya-phantom-0")
    ∷ (record { name = "API_URL" }, "http://127.0.0.1:1")
    ∷ []

abbrev bare_command : Command
bare_command = record { program = "podman"; arguments = []; environment = [] }

env_differ :
    (a b : String)
    → (a =? b) ≡ false
    → ◌≢◌ {A = EnvName} (record { name = a }) (record { name = b })
env_differ a b h e = differ a b h (ap (λ n. n.name) e)

all_differ : Distinct (names_in (revealed git_token ++ api_entries))
all_differ = (
  (env_differ "GIT_TOKEN" "API_KEY" refl, (env_differ "GIT_TOKEN" "API_URL" refl, tt)),
  ((env_differ "API_KEY" "API_URL" refl, tt), (tt, tt)),
)

child_value-apply_proxy_environment_example :
    All
      (λ e.
        child_value
          (apply_proxy_environment api_entries (apply_injected_environment git_token bare_command))
          (λ _. some "inherited")
          e.0.name
        ≡ some e.1)
      (revealed git_token ++ api_entries)
    × ((name : String)
        → All (λ e. e.0.name ≢ name) (revealed git_token ++ api_entries)
        → child_value
            (apply_proxy_environment api_entries
              (apply_injected_environment git_token bare_command))
            (λ _. some "inherited")
            name
          ≡ some "inherited")
child_value-apply_proxy_environment_example =
    child_value-apply_proxy_environment git_token api_entries bare_command (λ _. some "inherited")
      refl all_differ

-- A system on which the child is interrupted, and then exits with the code 3.
abbrev interrupted : System
interrupted = record {
  exec = λ _. replaced;
  register = λ _. ok tt;
  spawn = λ _. ok 77;
  caught = 2 ∷ [];
  late = [];
  relay_starts = true;
  wait = λ _. ok (exited 3);
}
