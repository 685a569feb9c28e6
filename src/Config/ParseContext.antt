-- ===== src/Config/ParseContext.antt =====
-- src/config/context.rs: the `contexts` section.
use iwaya.Prelude.{
  ℕ, String, ◌<>◌, List, [], ◌∷◌, Option, none, some, Bool, not, ◌||◌, Result, ok, ◌>>=◌, ◌>>◌,
  ensure, unwrap_or, is_some, if◌then◌else◌,
}
use iwaya.Text.{◌=?◌, is_empty, any_char, contains_char}
use iwaya.Text.Ascii.{is_whitespace}
use iwaya.Kdl.{Kdl}
use iwaya.Config.{DockerContext, ParseFailure, model}
use iwaya.Config.Nodes.{
  invalid_model, children, positional_strings, exactly_one, single_string_argument, require_setting,
}

-- The four optional settings that the loop fills.
pub record Settings : Type 0 where
  pub runtime : Option String
  pub user : Option String
  pub workdir : Option String
  pub container_name : Option String

abbrev pub no_settings : Settings
no_settings = record { runtime = none; user = none; workdir = none; container_name = none }

-- Which of the four a child sets.
pub data Setting : Type 0 where
  the_runtime the_user the_workdir the_container_name : Setting

unfoldable pub setting_of : String → Option Setting
setting_of s =
    if s =? "runtime"
    then some the_runtime
    else if s =? "user"
    then some the_user
    else if s =? "workdir"
    then some the_workdir
    else if s =? "container-name"
    then some the_container_name
    else none

abbrev pub get_setting : Setting → Settings → Option String
get_setting the_runtime s = s.runtime
get_setting the_user s = s.user
get_setting the_workdir s = s.workdir
get_setting the_container_name s = s.container_name

abbrev pub put_setting : Setting → String → Settings → Settings
put_setting the_runtime v s = record s { runtime = some v }
put_setting the_user v s = record s { user = some v }
put_setting the_workdir v s = record s { workdir = some v }
put_setting the_container_name v s = record s { container_name = some v }

-- The test on a runtime's characters.
unfoldable pub is_shell_char : ℕ → Bool
is_shell_char c = is_whitespace c || contains_char ";|&<>'\"`$\\\0" c

unfoldable pub is_single_executable : String → Bool
is_single_executable runtime = not (is_empty runtime || any_char is_shell_char runtime)

module _ (K : Kdl) where
  open K use {Node, name}

  -- One round of the loop over the children.
  unfoldable pub read_setting : String → Node → Settings → Result ParseFailure Settings
  read_setting owner child settings = elim (setting_of (name child)) [
    | none ↦ invalid_model ("unknown setting '" <> name child <> "' in " <> owner)
    | some target ↦ do
      ensure (not (is_some (get_setting target settings)))
          (model (owner <> " declares '" <> name child <> "' more than once"))
      value ← single_string_argument K child owner
      ok (put_setting target value settings)
  ]

  unfoldable pub read_settings : String → List Node → Settings → Result ParseFailure Settings
  read_settings owner [] settings = ok settings
  read_settings owner (child ∷ rest) settings = do
    next ← read_setting owner child settings
    read_settings owner rest next

  -- What follows the loop: the default runtime, the test on it, and the required settings.
  unfoldable pub finish_context : String → String → Settings → Result ParseFailure DockerContext
  finish_context id owner settings = do
    let runtime = unwrap_or "docker" settings.runtime
    ensure (is_single_executable runtime)
        (model (owner <> " has a 'runtime' that is not a single executable"))
    user ← require_setting owner settings.user "user"
    workdir ← require_setting owner settings.workdir "workdir"
    container_name ← require_setting owner settings.container_name "container-name"
    ok (record {
      id = record { id = id };
      runtime = runtime;
      user = user;
      workdir = workdir;
      container_name = container_name;
    })

  -- `parse_context`
  unfoldable pub parse_context : Node → Result ParseFailure DockerContext
  parse_context node = do
    ensure (name node =? "docker") (model ("unknown context type '" <> name node <> "'"))
    arguments ← positional_strings K node
    id ← exactly_one K arguments "a 'docker' context requires exactly one identifier argument"
    let owner = "context '" <> id <> "'"
    settings ← read_settings owner (children K node) no_settings
    finish_context id owner settings
