-- ===== src/Proxy/Selection.antt =====
-- Which route a request selects.
use text.Mathlib.TextEquality.{eq_iff}
use mathlib.Core.List.{append-nil, append_assoc}
use iwaya.Prelude.{
  map, Result, ◌∙◌, String, List, [], ◌∷◌, ◌++◌, Bool, true, false, ◌≡◌, ap, sym, refl, ok, err,
  any, filter, push, if◌then◌else◌, arith,
}
use iwaya.Text.{◌=?◌}
use iwaya.Text.Ascii.{eq_ignore_ascii_case}
use iwaya.Phantom.{Phantom, matches_presented}
use iwaya.Phantom.Matching.{matches_presented_iff}
use iwaya.Proxy.{ProxyRoute}
use iwaya.Proxy.Forward.{
  Headers, Rejection, bad_request, no_match, ambiguous, values_of, presented, match_routes,
  sole_route, select_route,
}

abbrev pub several : List String → Bool
several [] = false
several (value ∷ []) = false
several (value ∷ _ ∷ _) = true

abbrev pub sole : String → List String → Bool
sole phantom [] = false
sole phantom (value ∷ []) = phantom =? value
sole phantom (value ∷ _ ∷ _) = false

-- More than one header of the request has the route's credential name.
unfoldable pub repeats : Headers → ProxyRoute → Bool
repeats headers route = several (values_of route.header_name headers)

-- Exactly one header has that name, and its value is the route's phantom.
unfoldable pub presents : Headers → ProxyRoute → Bool
presents headers route = sole route.phantom.value (values_of route.header_name headers)

matches_presented-eq : (p : Phantom) (s : String) → matches_presented p s ≡ (p.value =? s)
matches_presented-eq p s = ground (arith, matches_presented_iff p s, eq_iff p.value s)

abbrev repeated : Rejection
repeated = bad_request "a proxied credential header appears more than once"

presented-eq :
    (route : ProxyRoute) (values : List String)
    → presented route values
      ≡ (if several values then err repeated else ok (sole route.phantom.value values))
unfolding presented
presented-eq route [] = refl
presented-eq route (value ∷ []) = rw (matches_presented-eq route.phantom value)
presented-eq route (value ∷ _ ∷ _) = refl

match_routes_lem :
    (routes : List ProxyRoute) (headers : Headers) (matched : List ProxyRoute)
    → match_routes routes headers matched ≡ (
        if any (repeats headers) routes
        then err repeated
        else ok (matched ++ filter (presents headers) routes))
unfolding match_routes repeats presents
match_routes_lem [] headers matched = rw append-nil
match_routes_lem (r ∷ rs) headers matched = rw (presented-eq r (values_of r.header_name headers)) (
    ground (
      arith,
      match_routes_lem rs headers (push matched r),
      match_routes_lem rs headers matched,
      append_assoc matched (r ∷ []) (filter (presents headers) rs),
    ))

-- The loop, with the test for a repeated header and the matches apart.
pub select_route-sole :
    (routes : List ProxyRoute) (headers : Headers)
    → select_route routes headers ≡ (
        if any (repeats headers) routes
        then err (bad_request "a proxied credential header appears more than once")
        else sole_route (filter (presents headers) routes))
unfolding select_route
select_route-sole routes headers = rw (match_routes_lem routes headers []) (ground arith)

sole-values :
    (phantom : String) (values : List String) → sole phantom values ≡ true → values ≡ phantom ∷ []
sole-values phantom [] h = cc
sole-values phantom (value ∷ []) h = ap (λ v. v ∷ []) (sym ((eq_iff phantom value).0 h))
sole-values phantom (_ ∷ _ ∷ _) h = cc

-- A route that a request presents has its phantom as the one value of its header.
pub presents-values :
    (headers : Headers) (route : ProxyRoute)
    → presents headers route ≡ true
    → values_of route.header_name headers ≡ route.phantom.value ∷ []
unfolding presents
presents-values headers route h =
    sole-values route.phantom.value (values_of route.header_name headers) h

-- The values of the headers of a name, whatever the case of its letters.
abbrev pub named : Headers → String → List String
named headers name = map (λ h. h.1) (filter (λ h. eq_ignore_ascii_case h.0 name) headers)

values_of-named : (headers : Headers) (name : String) → values_of name headers ≡ named headers name
unfolding values_of
values_of-named [] name = refl
values_of-named ((field, value) ∷ headers) name = ground (arith, values_of-named headers name)

-- What becomes of the routes whose phantom is presented.
abbrev pub chosen : List ProxyRoute → Result Rejection ProxyRoute
chosen [] = err no_match
chosen (route ∷ []) = ok route
chosen (_ ∷ _ ∷ _) = err ambiguous

sole_route-chosen : (routes : List ProxyRoute) → sole_route routes ≡ chosen routes
unfolding sole_route
sole_route-chosen [] = refl
sole_route-chosen (route ∷ []) = refl
sole_route-chosen (_ ∷ _ ∷ _) = refl

-- Selection is what the security model says it is: a request that has several headers of any route's
-- name is malformed, and else the one route whose phantom is the only value of its header is selected;
-- the request is refused as unmatched if there is none, and as ambiguous if there are several.
pub select_route-eq :
    (routes : List ProxyRoute) (headers : Headers)
    → select_route routes headers ≡ (
        if any (λ r. several (named headers r.header_name)) routes
        then err (bad_request "a proxied credential header appears more than once")
        else chosen (filter (λ r. sole r.phantom.value (named headers r.header_name)) routes))
unfolding repeats presents
select_route-eq routes headers =
    let described : (String → List String) → Result Rejection ProxyRoute = λ v.
      if any (λ r. several (v r.header_name)) routes
      then err (bad_request "a proxied credential header appears more than once")
      else sole_route (filter (λ r. sole r.phantom.value (v r.header_name)) routes) in
    select_route-sole routes headers
    ∙ (λ i. described (λ name. values_of-named headers name i))
    ∙ rw (sole_route-chosen) refl
