-- ===== src/Transfer/Presented.antt =====
-- src/transfer.rs with src/proxy.rs: the requests of a target that presents what it was given.
use iwaya.Prelude.{
  String, List, [], ◌∷◌, ◌++◌, map, Bool, true, false, ◌≡◌, ◌≢◌, ◌⊎◌, refl, ap, ◌<>◌, ok, inl, inr,
  All, All-append_iff, any, filter, arith,
}
use text.Mathlib.TextEquality.{eq_iff}
use text.Mathlib.TextPositions.{eq_refl}
use iwaya.Phantom.{expose_to_target_env}
use iwaya.Text.Search.{replace_first}
use iwaya.Proxy.Outbound.{outgoing_for-uri, outgoing_for-credential}
use iwaya.Transfer.{ProvisionedProxySecret}
use iwaya.Transfer.RoundTrip.{armed_route}
use iwaya.Proxy.{ProxyRoute}
use iwaya.Proxy.Forward.{
  Headers, Request, Outgoing, header_pairs, values_of, sole_route, select_route, is_origin_form,
  outgoing_for, Client, prepare,
}
use iwaya.Proxy.Selection.{repeats, presents, select_route-sole}

sole_route_single : (r : ProxyRoute) → sole_route (r ∷ []) ≡ ok r
unfolding sole_route
sole_route_single r = refl

filter-append :
    (f : ProxyRoute → Bool) (xs ys : List ProxyRoute)
    → filter f (xs ++ ys) ≡ filter f xs ++ filter f ys
filter-append f [] ys = refl
filter-append f (x ∷ xs) ys = ground (arith, filter-append f xs ys)

map-append :
    (xs ys : List ProvisionedProxySecret)
    → map armed_route (xs ++ ys) ≡ map armed_route xs ++ map armed_route ys
map-append [] ys = refl
map-append (x ∷ xs) ys = ap (◌∷◌ (armed_route x)) (map-append xs ys)

-- The request has nothing under this secret's header, or the one value, which is no phantom of it.
abbrev pub IsApart : Headers → String → ProvisionedProxySecret → Type 0
IsApart headers value q =
    (q.phantom.value ≢ value)
    × ((values_of q.header_name headers ≡ []) ⊎ (values_of q.header_name headers ≡ value ∷ []))

module _ (headers : Headers) (value : String) where
  IsApart-presents :
      (q : ProvisionedProxySecret)
      → IsApart headers value q
      → (presents headers (armed_route q) ≡ false) × (repeats headers (armed_route q) ≡ false)
  unfolding presents repeats armed_route
  IsApart-presents q (other, inl nothing) = rw nothing (refl, refl)
  IsApart-presents q (other, inr single) =
      rw single (ground (arith, other, eq_iff q.phantom.value value), refl)

  filter-IsApart :
      (qs : List ProvisionedProxySecret)
      → All (IsApart headers value) qs
      → (filter (presents headers) (map armed_route qs) ≡ [])
        × (any (repeats headers) (map armed_route qs) ≡ false)
  filter-IsApart [] h = (refl, refl)
  filter-IsApart (q ∷ qs) (apart, h) =
      let (unpresented, single) = IsApart-presents q apart in
      let (none_presented, none_repeated) = filter-IsApart qs h in
      (rw (unpresented) none_presented, rw (single) none_repeated)

any-append :
    (f : ProxyRoute → Bool) (xs ys : List ProxyRoute)
    → any f xs ≡ false
    → any f ys ≡ false
    → any f (xs ++ ys) ≡ false
any-append f [] ys h k = k
any-append f (x ∷ xs) ys h k = ground (arith, any-append f xs ys, h, k)

presents-repeats_own :
    (headers : Headers) (p : ProvisionedProxySecret)
    → values_of p.header_name headers ≡ p.phantom.value ∷ []
    → (presents headers (armed_route p) ≡ true) × (repeats headers (armed_route p) ≡ false)
unfolding presents repeats armed_route
presents-repeats_own headers p own = rw own (eq_refl p.phantom.value, refl)

select_route-armed_route :
    (before : List ProvisionedProxySecret) (p : ProvisionedProxySecret)
    (after : List ProvisionedProxySecret) (headers : Headers)
    → values_of p.header_name headers ≡ p.phantom.value ∷ []
    → All (IsApart headers p.phantom.value) (before ++ after)
    → select_route (map armed_route (before ++ p ∷ after)) headers ≡ ok (armed_route p)
select_route-armed_route before p after headers own apart =
    let (h, k) = (All-append_iff (IsApart headers p.phantom.value) before after).0 apart in
    let (presented, single) = presents-repeats_own headers p own in
    let (none_before, single_before) = filter-IsApart headers p.phantom.value before h in
    let (none_after, single_after) = filter-IsApart headers p.phantom.value after k in
    let none_repeated =
      any-append (repeats headers) (map armed_route before) (map armed_route (p ∷ after))
        single_before (rw single single_after) in
    rw
      (
        map-append, select_route-sole, none_repeated, filter-append, none_before, presented,
        none_after,
      )
      (sole_route_single (armed_route p))

-- The credential that the target finds in its environment works at the sidecar: a request in origin form
-- that carries a secret's phantom as the one value of its header, and under the other secrets' headers
-- nothing else, is made for that secret's upstream, with the template around its raw value as the one
-- value of its header, if no other provisioned secret has the same phantom and the HTTP client takes
-- the request.
pub prepare-armed_route :
    (C : Client) (before : List ProvisionedProxySecret) (p : ProvisionedProxySecret)
    (after : List ProvisionedProxySecret) (request : Request)
    → is_origin_form request.url ≡ true
    → values_of p.header_name (header_pairs request.headers) ≡ expose_to_target_env p.phantom ∷ []
    → All
        (IsApart (header_pairs request.headers) (expose_to_target_env p.phantom))
        (before ++ after)
    → C.is_method request.method ≡ true
    → let routes = map armed_route (before ++ p ∷ after) in
      C.builds (outgoing_for request routes (armed_route p)) ≡ true
      → (sent : Outgoing) × (prepare C request routes ≡ ok sent)
        × (sent.uri ≡ p.upstream <> request.url)
        × (values_of p.header_name sent.headers
            ≡ replace_first p.template "{}" p.raw_value.value ∷ [])
unfolding prepare expose_to_target_env armed_route
prepare-armed_route C before p after request target own apart method builds =
    let routes = map armed_route (before ++ p ∷ after) in
    let chosen = select_route-armed_route before p after (header_pairs request.headers) own apart in
    (
      outgoing_for request routes (armed_route p),
      rw (target, prepare, chosen, method, builds) refl,
      outgoing_for-uri request routes (armed_route p),
      outgoing_for-credential request routes (armed_route p) chosen,
    )
