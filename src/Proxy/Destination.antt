-- ===== src/Proxy/Destination.antt =====
-- Where a request can go: src/proxy.rs on the routes that src/config/validate.rs's check lets pass.
use iwaya.Prelude.{
  String, List, [], ◌∷◌, map, true, ◌≡◌, ap, subst, ◌∙◌, some, ok, All, Any, arith, inl, inr,
}
use iwaya.Text.{all_chars}
use iwaya.Text.Chars.{starts_with_iff, StartsWith}
use iwaya.Config.Origin.{is_http_origin, strip_scheme}
use iwaya.Config.Authority.{authority_of, authority_of-append, stays}
use iwaya.Transfer.{RouteTransfer}
use iwaya.Proxy.{ProxyRoute, arm, arm_routes}
use iwaya.Proxy.Forward.{Request, Outgoing, is_origin_form, Client, prepare}
use iwaya.Proxy.Outbound.{prepare-IsSent}
use iwaya.Proxy.Arming.{arm_routes_iff}

arm-origins :
    (routes : List RouteTransfer)
    → All (λ r. is_http_origin r.upstream ≡ true) routes
    → All (λ r. is_http_origin r.upstream ≡ true) (map arm routes)
unfolding arm
arm-origins [] h = tt
arm-origins (r ∷ rs) (q, h) = (q, arm-origins rs h)

All-Any :
    (P : ProxyRoute → Type 0) (rs : List ProxyRoute) (r : ProxyRoute)
    → All P rs
    → Any (λ q. q ≡ r) rs
    → P r
All-Any P [] r h m = absurd m
All-Any P (q ∷ rs) r (p, h) (inl e) = subst P e p
All-Any P (q ∷ rs) r (p, h) (inr m) = All-Any P rs r h m

pub origin_form-slash : (target : String) → is_origin_form target ≡ true → StartsWith target "/"
unfolding is_origin_form
origin_form-slash target h = (starts_with_iff target "/").0 (ground arith)

module _ (C : Client) where
  -- A request goes to the authority of a transferred upstream, whatever its target is: with routes that
  -- the proxy has armed, the URI of a request that is sent has the authority of the selected route's
  -- upstream, and that authority holds no `/`, `?`, `#`, `\` or `@`.
  pub prepare-authority_of :
      (transferred : List RouteTransfer) (routes : List ProxyRoute) (request : Request)
      (sent : Outgoing)
      → arm_routes transferred ≡ ok routes
      → prepare C request routes ≡ ok sent
      → (route : ProxyRoute) × Any (λ r. r ≡ route) routes
        × (authority : String) × (strip_scheme route.upstream ≡ some authority)
        × (all_chars stays authority ≡ true)
        × (authority_of sent.uri ≡ some authority)
  prepare-authority_of transferred routes request sent armed prepared =
      let (_, origins, same) = (arm_routes_iff transferred routes).0 armed in
      let is_sent = prepare-IsSent C request routes sent prepared in
      let origin : is_http_origin is_sent.route.upstream ≡ true =
        All-Any (λ r. is_http_origin r.upstream ≡ true) routes is_sent.route
          (subst (All (λ r. is_http_origin r.upstream ≡ true)) same
            (arm-origins transferred origins))
          is_sent.listed in
      let (rest, target) = origin_form-slash request.url is_sent.target in
      let (authority, found, fine, whole) =
        authority_of-append is_sent.route.upstream request.url rest origin target in
      (is_sent.route, is_sent.listed, authority, found, fine, ap authority_of is_sent.uri ∙ whole)
