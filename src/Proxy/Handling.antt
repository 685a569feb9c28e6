-- ===== src/Proxy/Handling.antt =====
-- src/proxy.rs: what the client is answered.
use iwaya.Prelude.{
  ℕ, String, ◌<>◌, List, [], ◌∷◌, true, false, not, ◌≡◌, refl, ap₂, Option, none, some, ok, err,
  any, filter, if◌then◌else◌, Bool-cases, inl, inr, arith,
}
use iwaya.Proxy.{ProxyRoute}
use iwaya.Proxy.Forward.{
  Request, Outgoing, Rejection, bad_request, no_match, ambiguous, rejection_status, rejection_body,
  is_origin_form, header_pairs, outgoing_for, sole_route, select_route, Client, prepare, forward,
}
use iwaya.Proxy.Respond.{Answers, text, respond_with_upstream, diagnostic, handle}
use iwaya.Proxy.Selection.{repeats, presents, select_route-sole}

-- The status and the body of a request that is refused by the routes that it presents, or by what the
-- HTTP client makes of it.
unfoldable pub unselected :
    Client → Request → List ProxyRoute → List ProxyRoute → Option (ℕ × String)
unselected C request routes [] = some (401, "iwaya-proxy: no proxied credential matched")
unselected C request routes (route ∷ []) =
    if not (C.is_method request.method)
    then some (400, "iwaya-proxy: the request method is not usable")
    else if not (C.builds (outgoing_for request routes route))
    then some (400, "iwaya-proxy: the request could not be constructed")
    else none
unselected C request routes (_ ∷ _ ∷ _) =
    some (400, "iwaya-proxy: the request matched more than one proxied credential")

-- How a request is refused that no upstream is called for.
unfoldable pub refusal : Client → Request → List ProxyRoute → Option (ℕ × String)
refusal C request routes =
    if not (is_origin_form request.url)
    then some (400, "iwaya-proxy: the request target must be origin-form")
    else if any (repeats (header_pairs request.headers)) routes
    then some (400, "iwaya-proxy: a proxied credential header appears more than once")
    else unselected C request routes (filter (presents (header_pairs request.headers)) routes)

abbrev RefusedWith : Rejection → ℕ → String → Type 0
RefusedWith rejection status body =
    (diagnostic rejection ≡ [])
    × (rejection_status rejection ≡ status)
    × (rejection_body rejection ≡ body)

module _ (C : Client) (request : Request) (routes : List ProxyRoute) where
  -- The preparation once the request's form and its headers are accepted, by the routes it presents.
  module _ (origin : is_origin_form request.url ≡ true)
      (once : any (repeats (header_pairs request.headers)) routes ≡ false) where
    chosen_by :
        (matched : List ProxyRoute)
        → filter (presents (header_pairs request.headers)) routes ≡ matched
        → select_route routes (header_pairs request.headers) ≡ sole_route matched
    chosen_by matched e = rw (select_route-sole, once, e) refl

    prepare-unselected :
        (matched : List ProxyRoute) (status : ℕ) (body : String)
        → filter (presents (header_pairs request.headers)) routes ≡ matched
        → unselected C request routes matched ≡ some (status, body)
        → (r : Rejection) × (prepare C request routes ≡ err r) × RefusedWith r status body
    unfolding unselected sole_route prepare rejection_status rejection_body
    prepare-unselected [] status body e h =
        rw (origin, chosen_by [] e, prepare) (no_match, refl, (refl, ground arith, ground arith))
    prepare-unselected (route ∷ []) status body e h =
        elim (Bool-cases (C.is_method request.method)) [
          | inr no_method ↦
              rw (origin, chosen_by (route ∷ []) e, no_method, prepare)
                (
                  bad_request "the request method is not usable",
                  refl,
                  (refl, ground arith, ground arith),
                )
          | inl method ↦ elim (Bool-cases (C.builds (outgoing_for request routes route))) [
            | inr unbuilt ↦
                rw (origin, chosen_by (route ∷ []) e, method, unbuilt, prepare)
                  (
                    bad_request "the request could not be constructed",
                    refl,
                    (refl, ground arith, ground arith),
                  )
            | inl built ↦ absurd (ground arith)
          ]
        ]
    prepare-unselected (_ ∷ _ ∷ _) status body e h =
        rw (origin, chosen_by (_ ∷ _ ∷ _) e, prepare)
          (ambiguous, refl, (refl, ground arith, ground arith))

    prepare-selected :
        (matched : List ProxyRoute)
        → filter (presents (header_pairs request.headers)) routes ≡ matched
        → unselected C request routes matched ≡ none
        → (sent : Outgoing) × (prepare C request routes ≡ ok sent)
    unfolding unselected sole_route prepare
    prepare-selected [] e h = absurd (ground arith)
    prepare-selected (route ∷ []) e h =
        let (method, built) : (C.is_method request.method ≡ true)
            × (C.builds (outgoing_for request routes route) ≡ true) =
          ground arith in
        rw (origin, chosen_by (route ∷ []) e, method, built, prepare)
          (outgoing_for request routes route, refl)
    prepare-selected (_ ∷ _ ∷ _) e h = absurd (ground arith)

  prepare-refused :
      (status : ℕ) (body : String)
      → refusal C request routes ≡ some (status, body)
      → (r : Rejection) × (prepare C request routes ≡ err r) × RefusedWith r status body
  unfolding refusal prepare rejection_status rejection_body
  prepare-refused status body h =
      let pairs = header_pairs request.headers in
      elim (Bool-cases (is_origin_form request.url)) [
        | inr no_origin ↦
            rw (no_origin, prepare)
              (
                bad_request "the request target must be origin-form",
                refl,
                (refl, ground arith, ground arith),
              )
        | inl origin ↦ elim (Bool-cases (any (repeats pairs) routes)) [
          | inl again ↦
              let chosen : select_route routes pairs
                  ≡ err (bad_request "a proxied credential header appears more than once") =
                rw (select_route-sole routes pairs, again) refl in
              rw (origin, chosen, prepare)
                (
                  bad_request "a proxied credential header appears more than once",
                  refl,
                  (refl, ground arith, ground arith),
                )
          | inr once ↦
              prepare-unselected origin once (filter (presents pairs) routes) status body refl
                (ground arith)
        ]
      ]

  prepare-accepted :
      refusal C request routes ≡ none → (sent : Outgoing) × (prepare C request routes ≡ ok sent)
  unfolding refusal
  prepare-accepted h =
      let pairs = header_pairs request.headers in
      let (origin, once, usable) : (is_origin_form request.url ≡ true)
          × (any (repeats pairs) routes ≡ false)
          × (unselected C request routes (filter (presents pairs) routes) ≡ none) =
        ground arith in
      prepare-selected origin once (filter (presents pairs) routes) refl usable

module _ (C : Client) (A : Answers C) where
  -- The client's answer. A request that is refused - for its form, a repeated credential header, no or
  -- several routes, an unusable method, or since it could not be constructed - gets the fixed status and
  -- text of its kind, and nothing is reported. Every other is sent: a failure of the upstream is the
  -- fixed answer 502, and only the line on standard error says what it was; and an upstream's response
  -- is passed on.
  pub handle_lem :
      (request : Request) (routes : List ProxyRoute)
      → ((status : ℕ) (body : String)
          → refusal C request routes ≡ some (status, body)
          → handle C A request routes ≡ ([], text status body))
        × (refusal C request routes ≡ none
            → (sent : Outgoing) × (prepare C request routes ≡ ok sent)
              × ((e : String)
                  → C.run sent ≡ err e
                  → handle C A request routes ≡ (
                    ("iwaya-proxy: error: upstream request failed: " <> e) ∷ [],
                    text 502 "iwaya-proxy: the upstream request failed",
                  ))
              × ((response : C.Response)
                  → C.run sent ≡ ok response
                  → handle C A request routes ≡ ([], respond_with_upstream C A response)))
  unfolding handle forward rejection_status rejection_body
  handle_lem request routes = (
    λ status body h.
        let (r, refused, (silent, same_status, same_body)) =
          prepare-refused C request routes status body h in
        rw (refused, handle, forward)
          (ap₂ (λ lines reply. (lines, reply)) silent (ap₂ text same_status same_body)),
    λ accepted.
        let (sent, prepared) = prepare-accepted C request routes accepted in
        (
          sent,
          prepared,
          λ e failed. rw (prepared, failed, handle, forward) refl,
          λ response answered. rw (prepared, answered, handle, forward) refl,
        ),
  )
