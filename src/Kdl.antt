-- ===== src/Kdl.antt =====
-- What the program uses of the `kdl` crate: documents, their nodes, and accessors. The crate is no
-- part of the repository, so it is a parameter.
use iwaya.Prelude.{ℕ, String, List, Option, Result}

-- an `i128`; `negsuc n` is -(n + 1)
pub data ℤ : Type 0 where
  pos : ℕ → ℤ
  negsuc : ℕ → ℤ

pub record Kdl : Type 1 where
  pub Node : Type 0
  pub Value : Type 0
  -- `text.parse::<KdlDocument>()`, with the nodes of the document or the error as text
  pub parse_document : String → Result String (List Node)
  pub name : Node → String
  -- the entries of a node: a property has a name, an argument has none
  pub entries : Node → List (Option String × Value)
  -- the nodes of the child document, if the node has one
  pub children_document : Node → Option (List Node)
  -- `node.get(name)`: the property of that name
  pub get : Node → String → Option Value
  pub as_string : Value → Option String
  pub as_integer : Value → Option ℤ
