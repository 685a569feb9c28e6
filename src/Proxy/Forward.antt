-- ===== src/Proxy/Forward.antt =====
-- src/proxy.rs: one request, from the client to the upstream and back.
use iwaya.Prelude.{
  ℕ, String, ◌<>◌, List, [], ◌∷◌, map, Bool, false, not, ◌&&◌, ◌||◌, Option, none, some, Result, ok,
  err, ◌>>=◌, ◌>>◌, ensure, map_err, push, any, filter, ltb, if◌then◌else◌,
}
use iwaya.Text.{◌=?◌, starts_with}
use iwaya.Text.Ascii.{to_ascii_lowercase, eq_ignore_ascii_case}
use iwaya.Text.Search.{replace_first}
use iwaya.Phantom.{matches_presented}
use iwaya.Secret.{expose_to_upstream_header}
use iwaya.Proxy.{ProxyRoute}

abbrev pub Headers : Type 0
Headers = List (String × String)

-- What the proxy reads of a `tiny_http::Request`; the body is read only if it is forwarded.
pub record Request : Type 0 where
  pub method : String
  pub url : String
  pub headers : Headers
  pub body_length : Option ℕ
  pub body : String

-- A request for the upstream, as it is built. `none` is the body `()`.
pub record Outgoing : Type 0 where
  pub method : String
  pub uri : String
  pub headers : Headers
  pub body : Option String

-- `Rejection`; an error of the HTTP client is the text that it displays.
pub data Rejection : Type 0 where
  bad_request : String → Rejection
  no_match : Rejection
  ambiguous : Rejection
  upstream : String → Rejection

-- `Rejection::status`
unfoldable pub rejection_status : Rejection → ℕ
rejection_status (bad_request reason) = 400
rejection_status ambiguous = 400
rejection_status no_match = 401
rejection_status (upstream error) = 502

-- `Rejection::body`
unfoldable pub rejection_body : Rejection → String
rejection_body (bad_request reason) = "iwaya-proxy: " <> reason
rejection_body no_match = "iwaya-proxy: no proxied credential matched"
rejection_body ambiguous = "iwaya-proxy: the request matched more than one proxied credential"
rejection_body (upstream error) = "iwaya-proxy: the upstream request failed"

-- `is_origin_form`
unfoldable pub is_origin_form : String → Bool
is_origin_form target =
    starts_with target "/" && not (starts_with target "//") && not (starts_with target "/\\")

-- `header_pairs`: the names in lower case
unfoldable pub header_pairs : Headers → Headers
header_pairs headers = map (λ (field, value). (to_ascii_lowercase field, value)) headers

-- The values of the headers of a name, in order.
unfoldable pub values_of : String → Headers → List String
values_of name [] = []
values_of name ((field, value) ∷ rest) =
    let later = values_of name rest in
    if eq_ignore_ascii_case field name then value ∷ later else later

-- The match on the values presented for a route.
unfoldable pub presented : ProxyRoute → List String → Result Rejection Bool
presented route (value ∷ []) = ok (matches_presented route.phantom value)
presented route [] = ok false
presented route (_ ∷ _ ∷ _) = err (bad_request "a proxied credential header appears more than once")

-- The loop of `select_route`.
unfoldable pub match_routes :
    List ProxyRoute → Headers → List ProxyRoute → Result Rejection (List ProxyRoute)
match_routes [] headers matched = ok matched
match_routes (route ∷ rest) headers matched = do
  hit ← presented route (values_of route.header_name headers)
  match_routes rest headers (if hit then push matched route else matched)

-- The match on the routes that matched.
unfoldable pub sole_route : List ProxyRoute → Result Rejection ProxyRoute
sole_route (route ∷ []) = ok route
sole_route [] = err no_match
sole_route (_ ∷ _ ∷ _) = err ambiguous

-- `select_route`
unfoldable pub select_route : List ProxyRoute → Headers → Result Rejection ProxyRoute
select_route routes headers = match_routes routes headers [] >>= sole_route

-- `is_hop_by_hop`
unfoldable pub is_hop_by_hop : String → Bool
is_hop_by_hop name =
    any (λ hop. hop =? name)
      ("connection" ∷ "keep-alive" ∷ "proxy-authenticate" ∷ "proxy-authorization" ∷ "te" ∷ "trailer"
        ∷ "transfer-encoding" ∷ "upgrade" ∷ [])

-- `forwards_request_header`
unfoldable pub forwards_request_header : String → List ProxyRoute → Bool
forwards_request_header name routes =
    if is_hop_by_hop name
    then false
    else if name =? "host" || name =? "content-length" || name =? "expect"
    then false
    else not (any (λ r. eq_ignore_ascii_case r.header_name name) routes)

-- The credential as it is injected.
unfoldable pub injected : ProxyRoute → String
injected route = replace_first route.template "{}" (expose_to_upstream_header route.raw_value)

-- The loop that copies the caller's headers.
unfoldable pub forwarded_headers : Headers → List ProxyRoute → Headers
forwarded_headers headers routes = filter (λ h. forwards_request_header h.0 routes) headers

-- `has_body`
unfoldable pub has_body : Option ℕ → Headers → Bool
has_body (some length) headers = ltb 0 length
has_body none headers = any (λ h. h.0 =? "transfer-encoding") headers

-- The request that the builder is given for a route.
unfoldable pub outgoing_for : Request → List ProxyRoute → ProxyRoute → Outgoing
outgoing_for request routes route =
    let pairs = header_pairs request.headers in
    record {
      method = request.method;
      uri = route.upstream <> request.url;
      headers = push (forwarded_headers pairs routes) (route.header_name, injected route);
      body = if has_body request.body_length pairs then some request.body else none;
    }

-- What the proxy uses of the `ureq` client. A request that the builder refuses is reported when the
-- body is added.
pub record Client : Type 1 where
  pub Response : Type 0
  pub is_method : String → Bool
  pub builds : Outgoing → Bool
  pub run : Outgoing → Result String Response

module _ (C : Client) where
  open C use {Response, is_method, builds, run}

  -- `forward` up to the call of the upstream: the request that is sent.
  unfoldable pub prepare : Request → List ProxyRoute → Result Rejection Outgoing
  prepare request routes = do
    ensure (is_origin_form request.url) (bad_request "the request target must be origin-form")
    route ← select_route routes (header_pairs request.headers)
    ensure (is_method request.method) (bad_request "the request method is not usable")
    ensure (builds (outgoing_for request routes route))
        (bad_request "the request could not be constructed")
    ok (outgoing_for request routes route)

  -- `forward`
  unfoldable pub forward : Request → List ProxyRoute → Result Rejection Response
  forward request routes = do outgoing ← prepare request routes; map_err upstream (run outgoing)
