-- ===== src/Bws.antt =====
-- src/bws.rs: the resolution of secrets through the `bws` command.
pub mod Diagnostic
pub mod Token
pub mod Resolution
pub mod Commands
pub mod Refusals
mod Tests
use iwaya.Prelude.{
  ℕ, String, ◌<>◌, List, [], ◌∷◌, ◌++◌, Option, none, some, Bool, not, Result, ok, err, ◌>>=◌, ◌>>◌,
  ensure, map_err, ok_or, or_else, unwrap_or, push, any, find, is_some, if◌then◌else◌,
}
use iwaya.Text.{◌=?◌, is_empty, strip_suffix}
use iwaya.Config.{BwsProvider, SecretName, eq_secret_name}
use iwaya.Secret.{Secret, new_secret, expose_to_subprocess_env}
use iwaya.Run.{Command, env}
use iwaya.Bws.Diagnostic.{first_line}

-- `ResolveError`; an I/O error is the text that it displays.
pub data ResolveError : Type 0 where
  acquisition_start : (provider program source : String) → ResolveError
  acquisition_failed : (provider program status : String) → ResolveError
  acquisition_empty : (provider program : String) → ResolveError
  cli_start : (provider source : String) → ResolveError
  cli_failed : (provider action status stderr : String) → ResolveError
  cli_output_unreadable : (provider action message : String) → ResolveError
  unknown_project : (provider project : String) → ResolveError
  unknown_secret : (provider project secret_name : String) → ResolveError

-- `ResolveError`'s `Display`
unfoldable pub show_resolve_error : ResolveError → String
show_resolve_error (acquisition_start provider program source) =
    "provider '" <> provider <> "': cannot start access-token command '" <> program <> "': "
    <> source
show_resolve_error (acquisition_failed provider program status) =
    "provider '" <> provider <> "': access-token command '" <> program <> "' failed (" <> status
    <> ")"
show_resolve_error (acquisition_empty provider program) =
    "provider '" <> provider <> "': access-token command '" <> program
    <> "' produced an empty value"
show_resolve_error (cli_start provider source) =
    "provider '" <> provider <> "': cannot start the 'bws' CLI: " <> source
show_resolve_error (cli_failed provider action status stderr) =
    "provider '" <> provider <> "': 'bws' failed to " <> action <> " (" <> status <> "): " <> stderr
show_resolve_error (cli_output_unreadable provider action message) =
    "provider '" <> provider <> "': cannot read 'bws' output while trying to " <> action <> ": "
    <> message
show_resolve_error (unknown_project provider project) =
    "provider '" <> provider <> "': project '" <> project <> "' was not found in the BWS account"
show_resolve_error (unknown_secret provider project secret_name) =
    "provider '" <> provider <> "': secret '" <> secret_name <> "' was not found in project '"
    <> project <> "'"

-- `BwsProject` and `BwsSecret`
pub record BwsProject : Type 0 where
  pub id : String
  pub name : String

pub record BwsSecret : Type 0 where
  pub key : String
  pub value : String

-- `strip_one_trailing_line_ending`
unfoldable pub strip_one_trailing_line_ending : String → String
strip_one_trailing_line_ending stdout =
    unwrap_or stdout (or_else (strip_suffix stdout "\r\n") (strip_suffix stdout "\n"))

-- The map that the secrets are collected into, with the entry that was inserted last in front.
abbrev pub Resolved : Type 0
Resolved = List (SecretName × Secret)

unfoldable pub get_secret : Resolved → SecretName → Option Secret
get_secret [] name = none
get_secret ((key, value) ∷ rest) name =
    let later = get_secret rest name in if eq_secret_name key name then some value else later

-- `filter`, `map` and `collect`
unfoldable pub collect_secrets : List SecretName → List BwsSecret → Resolved → Resolved
collect_secrets names [] resolved = resolved
collect_secrets names (secret ∷ rest) resolved =
    let kept = (record { name = secret.key }, new_secret secret.value) ∷ resolved in
    collect_secrets names rest
      (if any (λ name. name.name =? secret.key) names then kept else resolved)

-- The loop over the names.
unfoldable pub check_names :
    BwsProvider → List SecretName → Resolved → Result ResolveError (Unit {0})
check_names provider [] resolved = ok tt
check_names provider (name ∷ rest) resolved = do
  ensure (is_some (get_secret resolved name))
      (unknown_secret provider.id.id provider.project name.name)
  check_names provider rest resolved

-- The project of the provider's name.
unfoldable pub find_project : BwsProvider → List BwsProject → Result ResolveError BwsProject
find_project provider projects =
    ok_or (unknown_project provider.id.id provider.project)
      (find (λ p. p.name =? provider.project) projects)

-- The secrets that are asked for, of those that the project has.
unfoldable pub select_secrets :
    BwsProvider → List SecretName → List BwsSecret → Result ResolveError Resolved
select_secrets provider names secrets = do
  let resolved = collect_secrets names secrets []
  check_names provider names resolved
  ok resolved

-- The access token's command, and a command of the `bws` client.
unfoldable pub acquisition_command : BwsProvider → Command
acquisition_command provider = record {
  program = provider.access_token.program;
  arguments = provider.access_token.args;
  environment = [];
}

unfoldable pub bws_command : Secret → List String → Command
bws_command token args =
    env "BWS_ACCESS_TOKEN" (expose_to_subprocess_env token)
      (record { program = "bws"; arguments = args ++ "--output" ∷ "json" ∷ []; environment = [] })

-- What a finished process left.
pub record Output (Bytes : Type 0) : Type 0 where
  pub success : Bool
  pub status : String
  pub stdout : Bytes
  pub stderr : Bytes

-- What the resolution uses of its surroundings: byte strings and what they decode to, the JSON
-- library's errors as the texts that they display, and the answers of subprocesses, each of which
-- may depend on the commands that ran before it. An answer is an output or the error of a start.
pub record Shell : Type 1 where
  pub Bytes : Type 0
  pub from_utf8 : Bytes → Option String
  pub from_utf8_lossy : Bytes → String
  pub projects_from_slice : Bytes → Result String (List BwsProject)
  pub secrets_from_slice : Bytes → Result String (List BwsSecret)
  pub run : List Command → Command → Result String (Output Bytes)

module _ (sh : Shell) where
  open sh use {Bytes, from_utf8, from_utf8_lossy, projects_from_slice, secrets_from_slice}

  -- `acquire_access_token`, after the commands `ran`
  unfoldable pub acquire_access_token : List Command → BwsProvider → Result ResolveError Secret
  acquire_access_token ran provider = do
    let command = acquisition_command provider
    output ← map_err (acquisition_start provider.id.id command.program) (sh.run ran command)
    ensure output.success (acquisition_failed provider.id.id command.program output.status)
    text ←
        ok_or (acquisition_failed provider.id.id command.program "stdout is not valid UTF-8")
          (from_utf8 output.stdout)
    let token = strip_one_trailing_line_ending text
    ensure (not (is_empty token)) (acquisition_empty provider.id.id command.program)
    ok (new_secret token)

  -- `bws_json`, after the commands `ran`
  unfoldable pub bws_json :
      {A : Type 0}
      → (Bytes → Result String A)
      → List Command
      → BwsProvider
      → Command
      → String
      → Result ResolveError A
  bws_json from_slice ran provider command action = do
    output ← map_err (cli_start provider.id.id) (sh.run ran command)
    ensure output.success (
        cli_failed provider.id.id action output.status (first_line (from_utf8_lossy output.stderr)))
    map_err (cli_output_unreadable provider.id.id action) (from_slice output.stdout)

  -- The end of `resolve`, with the token and the project: the commands that ran by then, and the
  -- result.
  unfoldable pub resolve_secrets :
      List Command
      → BwsProvider
      → List SecretName
      → Secret
      → BwsProject
      → List Command × Result ResolveError Resolved
  resolve_secrets ran provider names token project =
      let command = bws_command token ("secret" ∷ "list" ∷ project.id ∷ []) in
      (
        push ran command,
        bws_json secrets_from_slice ran provider command "list secrets"
            >>= select_secrets provider names,
      )

  -- The middle, with the token.
  unfoldable pub resolve_project :
      List Command
      → BwsProvider
      → List SecretName
      → Secret
      → List Command × Result ResolveError Resolved
  resolve_project ran provider names token =
      let command = bws_command token ("project" ∷ "list" ∷ []) in
      elim (bws_json projects_from_slice ran provider command "list projects"
        >>= find_project provider) [
          | err e ↦ (push ran command, err e)
          | ok project ↦ resolve_secrets (push ran command) provider names token project
        ]

  -- `resolve`
  unfoldable pub resolve :
      List Command → BwsProvider → List SecretName → List Command × Result ResolveError Resolved
  resolve ran provider names =
      let command = acquisition_command provider in
      elim (acquire_access_token ran provider) [
        | err e ↦ (push ran command, err e)
        | ok token ↦ resolve_project (push ran command) provider names token
      ]
