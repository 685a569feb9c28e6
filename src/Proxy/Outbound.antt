-- ===== src/Proxy/Outbound.antt =====
-- What the proxy sends to an upstream.
use text.Mathlib.TextEquality.{eq_iff}
use text.Mathlib.TextPositions.{eq_refl}
use iwaya.Prelude.{
  String, ◌<>◌, List, [], ◌∷◌, ◌++◌, Bool, true, false, ◌≡◌, ◌≢◌, refl, sym, ap, ◌∙◌, ok, any,
  filter, push, if◌then◌else◌, Bool-cases, inl, inr, arith, All, Any, Result-cases,
}
use iwaya.Text.Search.{replace_first}
use iwaya.Secret.{expose_to_upstream_header}
use iwaya.Text.Ascii.{to_ascii_lowercase, eq_ignore_ascii_case}
use iwaya.Proxy.{ProxyRoute}
use iwaya.Proxy.Forward.{
  Headers, Request, Outgoing, values_of, forwards_request_header, forwarded_headers, injected,
  header_pairs, sole_route, select_route, is_origin_form, Client, outgoing_for, prepare,
}
use iwaya.Proxy.Hops.{hop_by_hop_names, is_hop_by_hop-none}
use iwaya.Proxy.Selection.{repeats, presents, select_route-sole}

eq_ignore_ascii_case_comm : (a b : String) → eq_ignore_ascii_case a b ≡ eq_ignore_ascii_case b a
unfolding eq_ignore_ascii_case
eq_ignore_ascii_case_comm a b = ground (
  arith,
  eq_iff (to_ascii_lowercase a) (to_ascii_lowercase b),
  eq_iff (to_ascii_lowercase b) (to_ascii_lowercase a),
)

pub eq_ignore_ascii_case_refl : (a : String) → eq_ignore_ascii_case a a ≡ true
unfolding eq_ignore_ascii_case
eq_ignore_ascii_case_refl a = eq_refl (to_ascii_lowercase a)

-- A name that no route owns is no route's name.
owned_by_none :
    (routes : List ProxyRoute) (name field : String)
    → any (λ r. eq_ignore_ascii_case r.header_name field) routes ≡ false
    → Any (λ r. r.header_name ≡ name) routes
    → eq_ignore_ascii_case field name ≡ false
owned_by_none [] name field h m = absurd m
owned_by_none (r ∷ routes) name field h (inl e) =
    rw (← e, eq_ignore_ascii_case_comm field r.header_name) (ground arith)
owned_by_none (r ∷ routes) name field h (inr m) = owned_by_none routes name field (ground arith) m

-- Of the caller's headers none with a route's credential name is copied.
values_of-forwarded_headers :
    (headers : Headers) (routes : List ProxyRoute) (name : String)
    → Any (λ r. r.header_name ≡ name) routes
    → values_of name (forwarded_headers headers routes) ≡ []
unfolding values_of forwarded_headers forwards_request_header
values_of-forwarded_headers [] routes name m = refl
values_of-forwarded_headers ((field, value) ∷ headers) routes name m = ground (
  arith,
  values_of-forwarded_headers headers routes name m,
  λ (h : any (λ r. eq_ignore_ascii_case r.header_name field) routes ≡ false).
      owned_by_none routes name field h m,
)

values_of-append :
    (name : String) (xs ys : Headers)
    → values_of name (xs ++ ys) ≡ values_of name xs ++ values_of name ys
unfolding values_of
values_of-append name [] ys = refl
values_of-append name ((field, value) ∷ xs) ys = ground (arith, values_of-append name xs ys)

-- A header that belongs to the whole way of a request, and is not one that the proxy derives anew.
pub record IsEndToEnd (header : String × String) : Type 0 where
  pub not_hop : All (λ hop. header.0 ≢ hop) hop_by_hop_names
  pub not_host : header.0 ≢ "host"
  pub not_length : header.0 ≢ "content-length"
  pub not_expect : header.0 ≢ "expect"

forwarded_headers-IsEndToEnd :
    (headers : Headers) (routes : List ProxyRoute)
    → All IsEndToEnd (forwarded_headers headers routes)
unfolding forwarded_headers forwards_request_header
forwarded_headers-IsEndToEnd [] routes = tt
forwarded_headers-IsEndToEnd ((field, value) ∷ headers) routes = ground (
  arith,
  forwarded_headers-IsEndToEnd headers routes,
  is_hop_by_hop-none field,
  eq_iff field "host",
  eq_iff field "content-length",
  eq_iff field "expect",
)

-- What a request is that goes to an upstream, for the caller's request and the proxy's routes.
pub record IsSent (request : Request) (routes : List ProxyRoute) (sent : Outgoing) : Type 0 where
  pub route : ProxyRoute
  -- the route is one of the proxy's, and the only one whose phantom the request presents
  pub listed : Any (λ r. r ≡ route) routes
  pub selected : filter (presents (header_pairs request.headers)) routes ≡ route ∷ []
  pub unrepeated : any (repeats (header_pairs request.headers)) routes ≡ false
  pub target : is_origin_form request.url ≡ true
  pub uri : sent.uri ≡ route.upstream <> request.url
  pub method : sent.method ≡ request.method
  -- the credential header holds the template around the raw value, and nothing of the caller's
  pub credential :
      values_of route.header_name sent.headers
      ≡ replace_first route.template "{}" route.raw_value.value ∷ []
  -- no header of another route's credential name is sent
  pub others :
      (r : ProxyRoute)
      → Any (λ q. q.header_name ≡ r.header_name) routes
      → eq_ignore_ascii_case route.header_name r.header_name ≡ false
      → values_of r.header_name sent.headers ≡ []
  pub copied : Headers
  pub headers :
      sent.headers
      ≡ push copied (route.header_name, replace_first route.template "{}" route.raw_value.value)
  pub end_to_end : All IsEndToEnd copied

sole_route-eq-ok : (rs : List ProxyRoute) (r : ProxyRoute) → sole_route rs ≡ ok r → rs ≡ r ∷ []
unfolding sole_route
sole_route-eq-ok [] r h = cc
sole_route-eq-ok (q ∷ []) r h = ground arith
sole_route-eq-ok (q ∷ _ ∷ _) r h = cc

select_route-eq-ok :
    (routes : List ProxyRoute) (headers : Headers) (r : ProxyRoute)
    → select_route routes headers ≡ ok r
    → (any (repeats headers) routes ≡ false) × (filter (presents headers) routes ≡ r ∷ [])
select_route-eq-ok routes headers r h =
    let by_spec = sym (select_route-sole routes headers) ∙ h in
    elim (Bool-cases (any (repeats headers) routes)) [
      | inl again ↦ cc (rw again at by_spec)
      | inr once ↦ (once, sole_route-eq-ok _ r (rw once at by_spec))
    ]

Any-filter :
    (p : ProxyRoute → Bool) (rs : List ProxyRoute) (r : ProxyRoute)
    → Any (λ q. q ≡ r) (filter p rs)
    → Any (λ q. q ≡ r) rs
Any-filter p [] r m = absurd m
Any-filter p (q ∷ rs) r m = ground (arith, Any-filter p rs r)

Any-header_name :
    (rs : List ProxyRoute) (r : ProxyRoute)
    → Any (λ q. q ≡ r) rs
    → Any (λ q. q.header_name ≡ r.header_name) rs
Any-header_name [] r m = absurd m
Any-header_name (q ∷ rs) r (inl e) = inl (ap (λ x. x.header_name) e)
Any-header_name (q ∷ rs) r (inr m) = inr (Any-header_name rs r m)

-- The header that is pushed behind the copied ones.
values_of-pushed :
    (headers : Headers) (routes : List ProxyRoute) (name field value : String)
    → Any (λ r. r.header_name ≡ name) routes
    → values_of name (push (forwarded_headers headers routes) (field, value))
      ≡ (if eq_ignore_ascii_case field name then value ∷ [] else [])
unfolding values_of
values_of-pushed headers routes name field value m =
    rw (values_of-append, values_of-forwarded_headers headers routes name m) (ground arith)

pub outgoing_for-uri :
    (request : Request) (routes : List ProxyRoute) (route : ProxyRoute)
    → (outgoing_for request routes route).uri ≡ route.upstream <> request.url
unfolding outgoing_for
outgoing_for-uri request routes route = refl

injected-eq :
    (route : ProxyRoute) → injected route ≡ replace_first route.template "{}" route.raw_value.value
unfolding injected expose_to_upstream_header
injected-eq route = refl

pub outgoing_for-credential :
    (request : Request) (routes : List ProxyRoute) (route : ProxyRoute)
    → select_route routes (header_pairs request.headers) ≡ ok route
    → values_of route.header_name (outgoing_for request routes route).headers
      ≡ replace_first route.template "{}" route.raw_value.value ∷ []
unfolding outgoing_for
outgoing_for-credential request routes route chosen =
    let pairs = header_pairs request.headers in
    let (_, selected) = select_route-eq-ok routes pairs route chosen in
    let listed = Any-filter (presents pairs) routes route (rw selected (inl refl)) in
    rw
      (
        values_of-pushed pairs routes route.header_name route.header_name (injected route)
            (Any-header_name routes route listed),
        eq_ignore_ascii_case_refl,
        injected-eq route,
      )
      refl

-- The request built for a selected route is what `IsSent` says.
outgoing_for-IsSent :
    (request : Request) (routes : List ProxyRoute) (route : ProxyRoute)
    → is_origin_form request.url ≡ true
    → select_route routes (header_pairs request.headers) ≡ ok route
    → IsSent request routes (outgoing_for request routes route)
unfolding outgoing_for
outgoing_for-IsSent request routes route target chosen =
    let pairs = header_pairs request.headers in
    let (unrepeated, selected) = select_route-eq-ok routes pairs route chosen in
    let listed = Any-filter (presents pairs) routes route (rw selected (inl refl)) in
    record {
      route = route;
      listed = listed;
      selected = selected;
      unrepeated = unrepeated;
      target = target;
      uri = refl;
      method = refl;
      credential = outgoing_for-credential request routes route chosen;
      others = λ r m differ.
          rw
            (
              values_of-pushed pairs routes r.header_name route.header_name (injected route) m,
              differ,
            )
            refl;
      copied = forwarded_headers pairs routes;
      headers =
          ap (λ v. push (forwarded_headers pairs routes) (route.header_name, v))
            (injected-eq route);
      end_to_end = forwarded_headers-IsEndToEnd pairs routes;
    }

module _ (C : Client) where
  -- The parts of a successful preparation.
  prepare-parts :
      (request : Request) (routes : List ProxyRoute) (sent : Outgoing)
      → prepare C request routes ≡ ok sent
      → (route : ProxyRoute) × (is_origin_form request.url ≡ true)
        × (select_route routes (header_pairs request.headers) ≡ ok route)
        × (outgoing_for request routes route ≡ sent)
  unfolding prepare
  prepare-parts request routes sent h =
      elim (Result-cases (select_route routes (header_pairs request.headers))) [
        | inl (route, chosen) ↦ (route, ground arith, chosen, ground arith)
        | inr (e, refused) ↦ absurd (ground arith)
      ]

  pub prepare-IsSent :
      (request : Request) (routes : List ProxyRoute) (sent : Outgoing)
      → prepare C request routes ≡ ok sent
      → IsSent request routes sent
  prepare-IsSent request routes sent h =
      let (route, target, chosen, same) = prepare-parts request routes sent h in
      rw (← same) (outgoing_for-IsSent request routes route target chosen)
