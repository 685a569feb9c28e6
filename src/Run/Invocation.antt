-- ===== src/Run/Invocation.antt =====
-- src/run.rs: the shape of the invocation, `build_argv`.
use mathlib.Core.List.{append-nil, append_assoc}
use iwaya.Prelude.{
  String, List, [], ◌∷◌, ◌++◌, map, ◌≡◌, refl, ap, ◌∙◌, Option, none, some, Bool, true, false, ◌||◌,
  if◌then◌else◌, arith, map_option,
}
use iwaya.Text.{◌=?◌, starts_with, strip_prefix}
use iwaya.Text.Chars.{StartsWith, starts_with_iff}
use iwaya.Config.{EnvName, DockerContext, CommandPolicy, SecretSpec, ProxySecretSpec}
use iwaya.Config.Valid.{env_names, proxy_env_names, IsContext}
use iwaya.Run.{secret_options, proxy_secret_options, build_argv}

-- One bare `--env NAME` for each name, without a value.
abbrev pub bare_options : List EnvName → List String
bare_options [] = []
bare_options (e ∷ es) = "--env" ∷ e.name ∷ bare_options es

bare_options-append :
    (xs ys : List EnvName) → bare_options (xs ++ ys) ≡ bare_options xs ++ bare_options ys
bare_options-append [] ys = refl
bare_options-append (x ∷ xs) ys = ap (λ l. "--env" ∷ x.name ∷ l) (bare_options-append xs ys)

secret_options-eq :
    (secrets : List SecretSpec) (argv : List String)
    → secret_options secrets argv ≡ argv ++ bare_options (map (λ s. s.env_name) secrets)
unfolding secret_options
secret_options-eq [] argv = rw append-nil refl
secret_options-eq (s ∷ rest) argv = rw (secret_options-eq rest, append_assoc, append_assoc) refl

proxy_secret_options-eq :
    (secrets : List ProxySecretSpec) (argv : List String)
    → proxy_secret_options secrets argv ≡ argv ++ bare_options (proxy_env_names secrets)
unfolding proxy_secret_options
proxy_secret_options-eq [] argv = rw append-nil refl
proxy_secret_options-eq (s ∷ rest) argv =
    rw (proxy_secret_options-eq rest, append_assoc, append_assoc, append_assoc, append_assoc) refl

-- What stands behind the options for the environment.
abbrev pub selection : DockerContext → CommandPolicy → List String → List String
selection context policy user_args =
    "--user" ∷ context.user ∷ "--workdir" ∷ context.workdir ∷ context.container_name ∷ policy.id.id
    ∷ user_args

-- The invocation is the runtime's `exec`, interactive and on a terminal, with one bare `--env NAME`
-- for each variable that the policy injects, direct before proxied and in the declared order, then
-- the user, the directory, the container, the command and the caller's arguments.
pub build_argv-eq :
    (context : DockerContext) (policy : CommandPolicy) (user_args : List String)
    → build_argv context policy user_args
      ≡ context.runtime ∷ "exec" ∷ "--interactive" ∷ "--tty" ∷ []
        ++ bare_options (env_names policy)
        ++ selection context policy user_args
unfolding build_argv
build_argv-eq context policy user_args =
    rw (secret_options-eq, proxy_secret_options-eq, bare_options-append) (simp (append_assoc))

-- How the container runtime reads the arguments of `exec`, as its documentation says: options up to
-- the first argument that is none, then the container, the command and the command's arguments.
pub record Reading : Type 0 where
  pub env_names : List String
  pub users : List String
  pub workdirs : List String
  pub positionals : List String

abbrev pub no_arguments : Reading
no_arguments = record { env_names = []; users = []; workdirs = []; positionals = [] }

-- The options that take the next argument as their value.
pub data Valued : Type 0 where
  env_option user_option workdir_option : Valued

abbrev pub put_value : Valued → String → Reading → Reading
put_value env_option v r = record r { env_names = v ∷ r.env_names }
put_value user_option v r = record r { users = v ∷ r.users }
put_value workdir_option v r = record r { workdirs = v ∷ r.workdirs }

unfoldable pub valued : String → Option Valued
valued s =
    if s =? "--env"
    then some env_option
    else if s =? "--user"
    then some user_option
    else if s =? "--workdir"
    then some workdir_option
    else none

unfoldable pub is_flag : String → Bool
is_flag s = s =? "--interactive" || s =? "--tty"

-- The reading, with an option that waits for its value or without one. `none` is an option that the
-- runtime does not know, or one without its value.
unfoldable pub read_from : Option Valued → List String → Option Reading
read_from none [] = some no_arguments
read_from (some option) [] = none
read_from (some option) (v ∷ rest) = map_option (put_value option v) (read_from none rest)
read_from none (s ∷ rest) = elim (starts_with s "-") [
  | false ↦ some (record no_arguments { positionals = s ∷ rest })
  | true ↦ elim (is_flag s) [
    | true ↦ read_from none rest
    | false ↦ elim (valued s) [ none ↦ none | some option ↦ read_from (some option) rest ]
  ]
]

abbrev pub read_options : List String → Option Reading
read_options arguments = read_from none arguments

read_options_flags :
    (rest : List String) → read_options ("--interactive" ∷ "--tty" ∷ rest) ≡ read_options rest
unfolding read_from strip_prefix is_flag
read_options_flags rest = refl

read_options_env :
    (v : String) (rest : List String)
    → read_options ("--env" ∷ v ∷ rest) ≡ map_option (put_value env_option v) (read_options rest)
unfolding read_from strip_prefix is_flag valued
read_options_env v rest = refl

read_options_user_workdir :
    (u w : String) (rest : List String)
    → read_options ("--user" ∷ u ∷ "--workdir" ∷ w ∷ rest)
      ≡ map_option
          (put_value user_option u)
          (map_option (put_value workdir_option w) (read_options rest))
unfolding read_from strip_prefix is_flag valued
read_options_user_workdir u w rest = refl

read_options_positional :
    (s : String) (rest : List String)
    → starts_with s "-" ≡ false
    → read_options (s ∷ rest) ≡ some (record no_arguments { positionals = s ∷ rest })
unfolding read_from
read_options_positional s rest h = rw (h, read_from) refl

starts_with_not : (s : String) → ¬ StartsWith s "-" → starts_with s "-" ≡ false
starts_with_not s h = ground (arith, starts_with_iff s "-")

read_options-bare_options :
    (es : List EnvName) (rest : List String) (r : Reading)
    → read_options rest ≡ some r
    → read_options (bare_options es ++ rest)
      ≡ some (record r { env_names = map (λ e. e.name) es ++ r.env_names })
read_options-bare_options [] rest r h = h
read_options-bare_options (e ∷ es) rest r h =
    rw (read_options_env e.name (bare_options es ++ rest), read_options-bare_options es rest r h)
      refl

read_options-selection :
    (context : DockerContext) (policy : CommandPolicy) (user_args : List String)
    → IsContext context
    → read_options (selection context policy user_args)
      ≡ some (record {
        env_names = [];
        users = context.user ∷ [];
        workdirs = context.workdir ∷ [];
        positionals = context.container_name ∷ policy.id.id ∷ user_args;
      })
read_options-selection context policy user_args valid =
    rw
      (
        read_options_user_workdir,
        read_options_positional context.container_name (policy.id.id ∷ user_args)
            (starts_with_not context.container_name valid.no_option),
      )
      refl

-- What the runtime reads of the invocation is what the policy and the context say, and nothing of
-- the configuration or of the caller's arguments is read as a further option: the names of exactly
-- the variables that the policy injects, none of them with a value, one user and one directory, and
-- as positional arguments the container, the command and the caller's arguments. The context is
-- one that validation accepts.
pub read_options-build_argv :
    (context : DockerContext) (policy : CommandPolicy) (user_args : List String)
    → IsContext context
    → (arguments : List String) × (build_argv context policy user_args
        ≡ context.runtime ∷ "exec" ∷ arguments)
      × (read_options arguments
          ≡ some (record {
            env_names = map (λ e. e.name) (env_names policy);
            users = context.user ∷ [];
            workdirs = context.workdir ∷ [];
            positionals = context.container_name ∷ policy.id.id ∷ user_args;
          }))
read_options-build_argv context policy user_args valid =
    let names = bare_options (env_names policy) in
    (
      "--interactive" ∷ "--tty" ∷ (names ++ selection context policy user_args),
      build_argv-eq context policy user_args,
      read_options_flags (names ++ selection context policy user_args)
          ∙ read_options-bare_options (env_names policy) (selection context policy user_args) _
              (read_options-selection context policy user_args valid)
          ∙ rw append-nil refl,
    )
