-- ===== src/Proxy/Respond.antt =====
-- src/proxy.rs: the answer to the client, `respond_with_upstream` and `handle`.
use iwaya.Prelude.{
  ℕ, String, ◌<>◌, List, [], ◌∷◌, Option, none, some, Result, ok, err, push, and_then,
  if◌then◌else◌,
}
use iwaya.Text.{◌=?◌}
use iwaya.Text.Ascii.{to_ascii_lowercase}
use iwaya.Text.Number.{parse_usize}
use iwaya.Proxy.{ProxyRoute}
use iwaya.Proxy.Forward.{
  Request, Rejection, bad_request, no_match, ambiguous, upstream, rejection_status, rejection_body,
  is_hop_by_hop, Client, forward,
}

-- What the proxy uses of an upstream response, and of `tiny_http`'s header constructor.
pub record Answers (C : Client) : Type 1 where
  pub Value : Type 0
  pub Header : Type 0
  pub status : C.Response → ℕ
  pub headers : C.Response → List (String × Value)
  pub body : C.Response → String
  pub to_str : Value → Option String
  -- `Header::from_bytes(name, value).ok()`
  pub header_of : String → Value → Option Header

-- What is sent to the client: an upstream's answer, or a text of the proxy's own.
pub data Reply (Header : Type 0) : Type 0 where
  streamed :
      (status : ℕ) → List Header → (body : String) → (content_length : Option ℕ) → Reply Header
  text : (status : ℕ) → (body : String) → Reply Header

-- The diagnostic line of `handle`.
abbrev pub diagnostic : Rejection → List String
diagnostic (upstream error) = ("iwaya-proxy: error: upstream request failed: " <> error) ∷ []
diagnostic (bad_request reason) = []
diagnostic no_match = []
diagnostic ambiguous = []

module _ (C : Client) (A : Answers C) where
  open A use {Value, Header, to_str, header_of}

  -- One round of the loop over the upstream's headers.
  unfoldable pub copy_header : String × Value → List Header × Option ℕ → List Header × Option ℕ
  copy_header (name, value) (headers, content_length) =
      if to_ascii_lowercase name =? "content-length"
      then (headers, and_then (to_str value) parse_usize)
      else if is_hop_by_hop (to_ascii_lowercase name)
      then (headers, content_length)
      else elim (header_of name value) [
        | some header ↦ (push headers header, content_length)
        | none ↦ (headers, content_length)
      ]

  unfoldable pub copy_headers :
      List (String × Value) → List Header × Option ℕ → List Header × Option ℕ
  copy_headers [] copied = copied
  copy_headers (header ∷ rest) copied = copy_headers rest (copy_header header copied)

  -- `respond_with_upstream`
  unfoldable pub respond_with_upstream : C.Response → Reply Header
  respond_with_upstream response =
      let (headers, content_length) = copy_headers (A.headers response) ([], none) in
      streamed (A.status response) headers (A.body response) content_length

  -- The match of `handle`: the lines on standard error, and the reply.
  abbrev pub reply_to : Result Rejection C.Response → List String × Reply Header
  reply_to (ok response) = ([], respond_with_upstream response)
  reply_to (err rejection) =
      (diagnostic rejection, text (rejection_status rejection) (rejection_body rejection))

  -- `handle`
  unfoldable pub handle : Request → List ProxyRoute → List String × Reply Header
  handle request routes = reply_to (forward C request routes)
