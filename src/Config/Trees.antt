-- ===== src/Config/Trees.antt =====
-- Documents as trees: a library for src/config in which every text is one document.
use iwaya.Prelude.{String, List, [], ◌∷◌, ◌++◌, map, Option, none, some, ok, find, map_option}
use iwaya.Text.{◌=?◌}
use iwaya.Kdl.{Kdl, ℤ}

pub data Value : Type 0 where
  text : String → Value
  number : ℤ → Value

mutual
  -- a node: its name, its arguments, its properties and its children
  pub data Tree : Type 0 where
    tree : String → List String → List (String × Value) → Forest → Tree

  pub data Forest : Type 0 where
    nil : Forest
    plant : Tree → Forest → Forest

abbrev pub nodes : Forest → List Tree
nodes nil = []
nodes (plant t ts) = t ∷ nodes ts

abbrev name_of : Tree → String
name_of (tree name arguments properties children) = name

abbrev entries_of : Tree → List (Option String × Value)
entries_of (tree name arguments properties children) =
    map (λ a. (none, text a)) arguments ++ map (λ (k, v). (some k, v)) properties

abbrev children_of : Tree → Option (List Tree)
children_of (tree name arguments properties nil) = none
children_of (tree name arguments properties (plant t ts)) = some (t ∷ nodes ts)

abbrev property_of : Tree → String → Option Value
property_of (tree name arguments properties children) key =
    map_option (λ (p : String × Value). p.1) (find (λ p. p.0 =? key) properties)

abbrev text_of : Value → Option String
text_of (text s) = some s
text_of (number n) = none

abbrev number_of : Value → Option ℤ
number_of (text s) = none
number_of (number n) = some n

-- The library in which every text is one document.
abbrev pub always : Tree → Kdl
always document = record {
  Node = Tree;
  Value = Value;
  parse_document = λ _. ok (document ∷ []);
  name = name_of;
  entries = entries_of;
  children_document = children_of;
  get = property_of;
  as_string = text_of;
  as_integer = number_of;
}

abbrev pub leaf : String → String → Tree
leaf name argument = tree name (argument ∷ []) [] nil
