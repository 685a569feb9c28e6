-- ===== src/Proxy.antt =====
-- src/proxy.rs: the credential-aware reverse proxy. This file is the routes, the reading of the
-- transfer document and the start of proxy mode; `Forward` is the handling of a request.
pub mod Forward
pub mod Respond
pub mod Start
pub mod Selection
pub mod Hops
pub mod Outbound
pub mod Arming
pub mod Destination
pub mod Passing
pub mod Handling
pub mod Serving
pub mod Interleaving
pub mod Startup
mod Tests
mod Threads
use iwaya.Prelude.{
  ℕ, suc, String, ◌<>◌, List, [], ◌∷◌, map, Bool, true, false, not, Option, none, some, Result, ok,
  err, ◌>>=◌, ◌>>◌, map_err, map_option, if◌then◌else◌,
}
use iwaya.Text.Number.{decimal}
use iwaya.Config.Origin.{is_http_origin}
use iwaya.Phantom.{Phantom, from_transferred}
use iwaya.Secret.{Secret, new_secret}
use iwaya.Transfer.{RouteTransfer, ProxyTransfer, Position, Serde}

-- `ProxyRoute`
pub record ProxyRoute : Type 0 where
  pub header_name : String
  pub template : String
  pub phantom : Phantom
  pub raw_value : Secret
  pub upstream : String

-- `ProxyModeError`; an I/O error is the text that it displays.
pub data ProxyModeError : Type 0 where
  read : String → ProxyModeError
  parse : Position → ProxyModeError
  empty_transfer : ProxyModeError
  invalid_upstream : (index : ℕ) → ProxyModeError
  bind : String → ProxyModeError
  readiness : String → ProxyModeError

-- `ProxyModeError`'s `Display`
unfoldable pub show_proxy_mode_error : ProxyModeError → String
show_proxy_mode_error (read source) = "cannot read the proxy transfer from stdin: " <> source
show_proxy_mode_error (parse p) =
    "invalid proxy transfer document at line " <> decimal p.line <> " column " <> decimal p.column
show_proxy_mode_error empty_transfer = "the proxy transfer document contains no routes"
show_proxy_mode_error (invalid_upstream index) =
    "route "
    <> decimal index
    <> " of the proxy transfer document has an upstream that is not an http(s) origin"
show_proxy_mode_error (bind message) = "cannot bind the loopback proxy listener: " <> message
show_proxy_mode_error (readiness source) = "cannot report proxy readiness: " <> source

-- `iter().position(p)`
unfoldable pub position {ℓ} : {A : Type ℓ} → (A → Bool) → List A → Option ℕ
position p [] = none
position p (x ∷ xs) = if p x then some 0 else map_option suc (position p xs)

-- What `parse_transfer` makes of one transferred route.
unfoldable pub arm : RouteTransfer → ProxyRoute
arm route = record {
  header_name = route.header_name;
  template = route.template;
  upstream = route.upstream;
  phantom = from_transferred route.phantom;
  raw_value = new_secret route.secret;
}

-- The checks of `parse_transfer` on the routes, and their conversion.
unfoldable pub arm_routes : List RouteTransfer → Result ProxyModeError (List ProxyRoute)
arm_routes [] = err empty_transfer
arm_routes (route ∷ rest) = elim (position (λ r. not (is_http_origin r.upstream)) (route ∷ rest)) [
  | some index ↦ err (invalid_upstream index)
  | none ↦ ok (map arm (route ∷ rest))
]

-- `parse_transfer`
unfoldable pub parse_transfer : Serde → String → Result ProxyModeError (List ProxyRoute)
parse_transfer S input = do transfer ← map_err parse (S.from_str input); arm_routes transfer.routes
