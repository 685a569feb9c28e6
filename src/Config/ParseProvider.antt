-- ===== src/Config/ParseProvider.antt =====
-- src/config/provider.rs: the `providers` section.
use iwaya.Prelude.{
  String, ◌<>◌, List, [], ◌∷◌, Option, none, some, not, Result, ok, ◌>>=◌, ◌>>◌, ensure, is_some,
  map_ok, if◌then◌else◌,
}
use iwaya.Text.{◌=?◌}
use iwaya.Kdl.{Kdl}
use iwaya.Config.{Provider, bws, BwsProvider, ExecAcquisition, ParseFailure, model}
use iwaya.Config.Nodes.{
  invalid_model, children, positional_strings, exactly_one, single_string_argument,
}

module _ (K : Kdl) where
  open K use {Node, name}

  -- The arguments of an `exec` node.
  abbrev exec_arguments : String → List String → Result ParseFailure ExecAcquisition
  exec_arguments owner [] =
      invalid_model ("'exec' in " <> owner <> " requires an executable argument")
  exec_arguments owner (program ∷ args) = ok (record { program = program; args = args })

  -- The one acquisition node of an `access-token` block.
  unfoldable pub parse_acquisition : String → List Node → Result ParseFailure ExecAcquisition
  parse_acquisition owner (acquisition ∷ []) =
      if name acquisition =? "exec"
      then (positional_strings K acquisition >>= exec_arguments owner)
      else invalid_model (
          "unsupported acquisition type '"
          <> name acquisition
          <> "' in "
          <> owner
          <> "; 'exec' is the only acquisition type")
  parse_acquisition owner [] =
      invalid_model ("'access-token' in " <> owner <> " requires exactly one acquisition node")
  parse_acquisition owner (_ ∷ _ ∷ _) =
      invalid_model ("'access-token' in " <> owner <> " requires exactly one acquisition node")

  -- `parse_access_token`
  unfoldable pub parse_access_token : Node → String → Result ParseFailure ExecAcquisition
  parse_access_token node owner = parse_acquisition owner (children K node)

  -- The two optional settings that the loop of `parse_bws_provider` fills.
  abbrev pub Found : Type 0
  Found = Option String × Option ExecAcquisition

  -- One round of the loop over the children.
  unfoldable pub read_bws_setting : String → Node → Found → Result ParseFailure Found
  read_bws_setting owner child (project, access_token) =
      if name child =? "project"
      then (do
        ensure (not (is_some project)) (model (owner <> " declares 'project' more than once"))
        value ← single_string_argument K child owner
        ok (some value, access_token))
      else if name child =? "access-token"
      then (do
        ensure (not (is_some access_token))
            (model (owner <> " declares 'access-token' more than once"))
        value ← parse_access_token child owner
        ok (project, some value))
      else invalid_model ("unknown setting '" <> name child <> "' in " <> owner)

  unfoldable pub read_bws_settings : String → List Node → Found → Result ParseFailure Found
  read_bws_settings owner [] found = ok found
  read_bws_settings owner (child ∷ rest) found = do
    next ← read_bws_setting owner child found
    read_bws_settings owner rest next

  -- The two `let … else` after the loop.
  unfoldable pub finish_bws : String → String → Found → Result ParseFailure BwsProvider
  finish_bws id owner (none, access_token) =
      invalid_model (owner <> " requires a 'project' setting")
  finish_bws id owner (some project, none) =
      invalid_model (owner <> " requires exactly one 'access-token' block")
  finish_bws id owner (some project, some access_token) =
      ok (record { id = record { id = id }; project = project; access_token = access_token })

  -- `parse_bws_provider`
  unfoldable pub parse_bws_provider : Node → Result ParseFailure BwsProvider
  parse_bws_provider node = do
    arguments ← positional_strings K node
    id ← exactly_one K arguments "a 'bws' provider requires exactly one identifier argument"
    let owner = "provider '" <> id <> "'"
    found ← read_bws_settings owner (children K node) (none, none)
    finish_bws id owner found

  -- `parse_provider`
  unfoldable pub parse_provider : Node → Result ParseFailure Provider
  parse_provider node =
      if name node =? "bws"
      then map_ok bws (parse_bws_provider node)
      else invalid_model ("unknown provider type '" <> name node <> "'")
