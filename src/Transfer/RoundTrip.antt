-- ===== src/Transfer/RoundTrip.antt =====
-- src/transfer.rs and src/proxy.rs: what the sidecar makes of the document that the supervisor writes.
use mathlib.Core.List.{append-nil, append_assoc}
use iwaya.Prelude.{◌<>◌, List, [], ◌∷◌, ◌++◌, map, true, ◌≡◌, ◌≢◌, refl, ap₂, ok, All, push}
use iwaya.Config.Origin.{is_http_origin}
use iwaya.Phantom.{from_transferred, expose_to_transfer}
use iwaya.Secret.{new_secret, into_proxy_transfer}
use iwaya.Transfer.{
  RouteTransfer, Serde, IsFaithful, ProvisionedProxySecret, ProxySecretPlan, route_of, plan_of,
  split_provisioned, into_transfer,
}
use iwaya.Proxy.{ProxyRoute, arm, parse_transfer}
use iwaya.Proxy.Arming.{arm_routes_iff}

-- The loop makes a route and a plan of each secret, in order.
pub split_provisioned-eq :
    (ps : List ProvisionedProxySecret) (routes : List RouteTransfer) (plans : List ProxySecretPlan)
    → split_provisioned ps routes plans ≡ (routes ++ map route_of ps, plans ++ map plan_of ps)
unfolding split_provisioned
split_provisioned-eq [] routes plans = rw (append-nil, append-nil) refl
split_provisioned-eq (p ∷ ps) routes plans =
    rw
      (
        split_provisioned-eq ps (push routes (route_of p)) (push plans (plan_of p)),
        append_assoc,
        append_assoc,
      )
      refl

pub into_transfer-eq :
    (S : Serde) (ps : List ProvisionedProxySecret)
    → into_transfer S ps ≡ (S.to_string (record { routes = map route_of ps }), map plan_of ps)
unfolding into_transfer
into_transfer-eq S ps = rw (split_provisioned-eq ps [] []) refl

-- The route that the sidecar holds for a provisioned secret.
unfoldable pub armed_route : ProvisionedProxySecret → ProxyRoute
armed_route p = record {
  header_name = p.header_name;
  template = p.template;
  phantom = p.phantom;
  raw_value = p.raw_value;
  upstream = p.upstream;
}

arm-route_of : (p : ProvisionedProxySecret) → arm (route_of p) ≡ armed_route p
unfolding arm route_of armed_route from_transferred expose_to_transfer new_secret
    into_proxy_transfer
arm-route_of p = refl

map-arm-route_of :
    (ps : List ProvisionedProxySecret) → map arm (map route_of ps) ≡ map armed_route ps
map-arm-route_of [] = refl
map-arm-route_of (p ∷ ps) = ap₂ ◌∷◌ (arm-route_of p) (map-arm-route_of ps)

route_of-origins :
    (ps : List ProvisionedProxySecret)
    → All (λ p. is_http_origin p.upstream ≡ true) ps
    → All (λ r. is_http_origin r.upstream ≡ true) (map route_of ps)
unfolding route_of
route_of-origins [] h = tt
route_of-origins (p ∷ ps) (q, h) = (q, route_of-origins ps h)

-- The line that the supervisor writes is read back by the sidecar as one route for each
-- provisioned secret, in order, with its header, its template, its upstream, its phantom and its
-- raw value, if there is a secret and every upstream is an HTTP origin.
pub parse_transfer-into_transfer :
    (S : Serde)
    → IsFaithful S
    → (ps : List ProvisionedProxySecret) → ps ≢ []
    → All (λ p. is_http_origin p.upstream ≡ true) ps
    → parse_transfer S ((into_transfer S ps).0 <> "\n") ≡ ok (map armed_route ps)
unfolding parse_transfer
parse_transfer-into_transfer S F [] some_secret origins = absurd (some_secret refl)
parse_transfer-into_transfer S F (p ∷ ps) some_secret origins =
    rw (into_transfer-eq S (p ∷ ps), F.from_str-to_string, parse_transfer)
      ((arm_routes_iff (map route_of (p ∷ ps)) (map armed_route (p ∷ ps))).1
        (λ e. cc, route_of-origins (p ∷ ps) origins, map-arm-route_of (p ∷ ps)))
