-- ===== src/Config/Nodes.antt =====
-- src/config/mod.rs: the helpers that read a KDL node, and the failure that they return.
use iwaya.Prelude.{
  String, ◌<>◌, List, [], ◌∷◌, Option, none, some, Result, ok, err, ◌>>=◌, map_ok, unwrap_or,
  and_then,
}
use iwaya.Kdl.{Kdl}
use iwaya.Config.{ParseFailure, model}

-- `invalid(message)`
abbrev pub invalid_model {ℓ} : {A : Type ℓ} → String → Result ParseFailure A
invalid_model message = err (model message)

module _ (K : Kdl) where
  open K use {Node, Value, name, entries, children_document, get, as_string}

  -- `children`
  unfoldable pub children : Node → List Node
  children node = unwrap_or [] (children_document node)

  -- The iterator of `positional_strings`: the arguments in order, up to the first that is no
  -- string; properties are passed over.
  unfoldable pub collect_strings :
      Node → List (Option String × Value) → Result ParseFailure (List String)
  collect_strings node [] = ok []
  collect_strings node ((some property, value) ∷ rest) = collect_strings node rest
  collect_strings node ((none, value) ∷ rest) =
      let later = collect_strings node rest in
      elim (as_string value) [
        | some s ↦ map_ok (λ ss. s ∷ ss) later
        | none ↦ invalid_model ("node '" <> name node <> "' has a non-string argument")
      ]

  -- `positional_strings`
  unfoldable pub positional_strings : Node → Result ParseFailure (List String)
  positional_strings node = collect_strings node (entries node)

  -- The list patterns `[value]` and `[name, template]` with their `else` branches.
  abbrev pub exactly_one : List String → String → Result ParseFailure String
  exactly_one (value ∷ []) message = ok value
  exactly_one [] message = invalid_model message
  exactly_one (_ ∷ _ ∷ _) message = invalid_model message

  -- `single_string_argument`
  unfoldable pub single_string_argument : Node → String → Result ParseFailure String
  single_string_argument node owner = do
    arguments ← positional_strings node
    exactly_one arguments
        ("'" <> name node <> "' in " <> owner <> " requires exactly one string argument")

  -- `property`
  unfoldable pub property_string : Node → String → String → Result ParseFailure String
  property_string node key owner = elim (and_then (get node key) as_string) [
    | some value ↦ ok value
    | none ↦ invalid_model (
        "'"
        <> (name node <> ("' in " <> (owner <> (" requires a string '" <> (key <> "' property"))))))
  ]

-- The closure `require` of the parsers.
abbrev pub require_setting {ℓ} : {A : Type ℓ} → String → Option A → String → Result ParseFailure A
require_setting owner (some v) field = ok v
require_setting owner none field = invalid_model (owner <> " requires a '" <> field <> "' setting")
