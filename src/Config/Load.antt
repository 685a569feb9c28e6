-- ===== src/Config/Load.antt =====
-- src/config/mod.rs: `load` and `parse`, the frame of the document.
use iwaya.Prelude.{
  String, ◌<>◌, List, [], ◌∷◌, Option, none, some, Result, ok, ◌>>=◌, ◌>>◌, ensure, map_err,
  and_then, push, ◌==◌, if◌then◌else◌, map_ok, suc,
}
use iwaya.Text.{◌=?◌}
use iwaya.Text.Number.{decimal}
use iwaya.Kdl.{Kdl, ℤ, pos, negsuc}
use iwaya.Config.{Config, ParseFailure, syntax, model, ConfigError, read, parse, invalid}
use iwaya.Config.Nodes.{invalid_model, children}
use iwaya.Config.ParseContext.{parse_context}
use iwaya.Config.ParseProvider.{parse_provider}
use iwaya.Config.ParsePolicy.{parse_policy}
use iwaya.Config.Validate.{validate}

-- An integer as `{other}` prints it.
unfoldable pub show_ℤ : ℤ → String
show_ℤ (pos n) = decimal n
show_ℤ (negsuc n) = "-" <> decimal (suc n)

unfoldable pub check_version : Option ℤ → Result ParseFailure (Unit {0})
check_version none = invalid_model "the 'iwaya' root node requires an integer 'version' property"
check_version (some (pos n)) =
    ensure (n == 1) (model ("unsupported configuration version " <> show_ℤ (pos n)))
check_version (some (negsuc n)) =
    invalid_model ("unsupported configuration version " <> show_ℤ (negsuc n))

abbrev pub empty_config : Config
empty_config = record { providers = []; contexts = []; policies = [] }

module _ (K : Kdl) where
  open K use {Node, name, get, as_integer, parse_document}

  -- The loop over the nodes of a section: parse each, and push it.
  unfoldable pub parse_each {ℓ} :
      {A : Type ℓ}
      → (Node → Result ParseFailure A)
      → List Node
      → List A
      → Result ParseFailure (List A)
  parse_each parse_node [] found = ok found
  parse_each parse_node (node ∷ rest) found = do
    item ← parse_node node
    parse_each parse_node rest (push found item)

  -- One round of the loop over the sections.
  unfoldable pub parse_section : Node → Config → Result ParseFailure Config
  parse_section section config =
      if name section =? "providers"
      then map_ok (λ ps. record config { providers = ps })
          (parse_each (parse_provider K) (children K section) config.providers)
      else if name section =? "contexts"
      then map_ok (λ cs. record config { contexts = cs })
          (parse_each (parse_context K) (children K section) config.contexts)
      else if name section =? "policies"
      then map_ok (λ ps. record config { policies = ps })
          (parse_each (parse_policy K) (children K section) config.policies)
      else invalid_model ("unknown section '" <> name section <> "' in the 'iwaya' node")

  unfoldable pub parse_sections : List Node → Config → Result ParseFailure Config
  parse_sections [] config = ok config
  parse_sections (section ∷ rest) config = do
    next ← parse_section section config
    parse_sections rest next

  -- The match on the document's nodes.
  abbrev pub root_node : List Node → Result ParseFailure Node
  root_node (single ∷ []) =
      if name single =? "iwaya"
      then ok single
      else invalid_model "expected exactly one 'iwaya' root node"
  root_node [] = invalid_model "expected exactly one 'iwaya' root node"
  root_node (_ ∷ _ ∷ _) = invalid_model "expected exactly one 'iwaya' root node"

  -- `parse`
  unfoldable pub parse_text : String → Result ParseFailure Config
  parse_text text = do
    nodes ← map_err syntax (parse_document text)
    root ← root_node nodes
    check_version (and_then (get root "version") as_integer)
    config ← parse_sections (children K root) empty_config
    validate config
    ok config

  -- The closure that `load` maps over a parsing failure.
  abbrev pub config_error : String → ParseFailure → ConfigError
  config_error path (syntax message) = parse path message
  config_error path (model message) = invalid path message

  -- `load`; the file system's answer for the path is an argument.
  unfoldable pub load : (String → Result String String) → String → Result ConfigError Config
  load read_to_string path = do
    text ← map_err (read path) (read_to_string path)
    map_err (config_error path) (parse_text text)
