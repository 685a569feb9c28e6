-- ===== src/Main/Granted.antt =====
-- src/main.rs with src/proxy.rs: what can leave the sidecar of an execution, and to where.
use iwaya.Prelude.{
  ℕ, String, ◌<>◌, List, [], ◌∷◌, map, true, ◌≡◌, refl, sym, ap, subst, ◌∙◌, ok, some, inl, inr,
  All, Any, arith, filter, Bool, Bool-cases,
}
use iwaya.Text.Search.{replace_first}
use iwaya.Config.{Config, CommandPolicy, ProxySecretSpec}
use iwaya.Config.Origin.{strip_scheme}
use iwaya.Config.Valid.{IsProxySecret}
use iwaya.Config.Loaded.{find_policy-IsResolvable}
use iwaya.Config.Authority.{authority_of, authority_of-append}
use iwaya.Transfer.{ProvisionedProxySecret, IsFaithful}
use iwaya.Transfer.Confinement.{entries_of}
use iwaya.Transfer.RoundTrip.{armed_route}
use iwaya.Proxy.{ProxyRoute, parse_transfer}
use iwaya.Proxy.Forward.{Request, Outgoing, header_pairs, values_of, Client, prepare}
use iwaya.Proxy.Selection.{presents, presents-values}
use iwaya.Proxy.Outbound.{IsSent, prepare-IsSent}
use iwaya.Proxy.Destination.{origin_form-slash}
use iwaya.Main.Input.{sidecar_input}
use iwaya.Main.{Invocation, config_path}
use iwaya.Main.Surroundings.{World, finished}
use iwaya.Main.Execute.{execute}
use iwaya.Main.Delivered.{IsProvisioned, IsProvisionedOf}
use iwaya.Main.Served.{execute-IsFinished, execute-parse_transfer}

-- What a request is that leaves the sidecar: it presents the phantom that the target was given for a
-- declared secret, and is sent to that secret's upstream with the value of its provider.
pub record IsGranted (w : World) (config : Config) (policy : CommandPolicy)
    (provisioned : List ProvisionedProxySecret) (port : ℕ) (request : Request) (sent : Outgoing)
    : Type 0 where
  pub spec : ProxySecretSpec
  pub declared : Any (λ s. s ≡ spec) policy.proxy_secrets
  pub secret : ProvisionedProxySecret
  pub minted_for : IsProvisioned w config spec secret
  -- the target's variable of that secret holds the phantom
  pub given : Any (λ e. e ≡ (spec.env_name, secret.phantom.value)) (entries_of port provisioned)
  pub presented :
      values_of spec.inject_header.name (header_pairs request.headers) ≡ secret.phantom.value ∷ []
  pub uri : sent.uri ≡ spec.upstream <> request.url
  pub authority : String
  pub upstream_authority : strip_scheme spec.upstream ≡ some authority
  pub sent_authority : authority_of sent.uri ≡ some authority
  pub credential :
      values_of spec.inject_header.name sent.headers
      ≡ replace_first spec.inject_header.template "{}" secret.raw_value.value ∷ []

filter-hit :
    (p : ProxyRoute → Bool) (rs : List ProxyRoute) (r : ProxyRoute) (rest : List ProxyRoute)
    → filter p rs ≡ r ∷ rest
    → p r ≡ true
filter-hit p [] r rest h = cc
filter-hit p (q ∷ rs) r rest h = elim (Bool-cases (p q)) [
  | inl hit ↦ let same : q ≡ r = ground (arith, rw hit at h) in ap p (sym same) ∙ hit
  | inr miss ↦ filter-hit p rs r rest (rw miss at h)
]

module _ (w : World) (config : Config) where
  -- Where a route of the sidecar comes from.
  origin_of :
      (specs : List ProxySecretSpec) (secrets : List ProvisionedProxySecret) (port : ℕ)
      (route : ProxyRoute)
      → IsProvisionedOf w config specs secrets
      → All (IsProxySecret config) specs
      → Any (λ r. r ≡ route) (map armed_route secrets)
      → (spec : ProxySecretSpec) × (secret : ProvisionedProxySecret) × Any (λ s. s ≡ spec) specs
        × IsProvisioned w config spec secret
        × IsProxySecret config spec
        × Any (λ e. e ≡ (spec.env_name, secret.phantom.value)) (entries_of port secrets)
        × (armed_route secret ≡ route)
  origin_of [] [] port route each valid listed = absurd listed
  origin_of [] (_ ∷ _) port route each valid listed = absurd each
  origin_of (_ ∷ _) [] port route each valid listed = absurd each
  origin_of (spec ∷ specs) (secret ∷ secrets) port route (it, each) (fine, valid) (inl here) = (
    spec,
    secret,
    inl refl,
    it,
    fine,
    inl (ap (λ name. (name, secret.phantom.value)) it.env_name),
    here,
  )
  origin_of (spec ∷ specs) (secret ∷ secrets) port route (it, each) (fine, valid) (inr later) =
      let (found, owner, declared, minted, checked, given, same) =
        origin_of specs secrets port route each valid later in
      (found, owner, inr declared, minted, checked, inr (inr given), same)

  IsSent-IsGranted :
      (policy : CommandPolicy) (secrets : List ProvisionedProxySecret) (port : ℕ)
      (request : Request) (sent : Outgoing)
      → IsProvisionedOf w config policy.proxy_secrets secrets
      → All (IsProxySecret config) policy.proxy_secrets
      → IsSent request (map armed_route secrets) sent
      → IsGranted w config policy secrets port request sent
  unfolding armed_route
  IsSent-IsGranted policy secrets port request sent each valid it =
      let (spec, secret, declared, minted, fine, given, same) =
        origin_of policy.proxy_secrets secrets port it.route each valid it.listed in
      let pairs = header_pairs request.headers in
      let header : it.route.header_name ≡ spec.inject_header.name =
        ap (λ r. r.header_name) (sym same) ∙ minted.header_name in
      let template : it.route.template ≡ spec.inject_header.template =
        ap (λ r. r.template) (sym same) ∙ minted.template in
      let upstream : it.route.upstream ≡ spec.upstream =
        ap (λ r. r.upstream) (sym same) ∙ minted.upstream in
      let presented =
        presents-values pairs it.route
          (filter-hit (presents pairs) (map armed_route secrets) it.route [] it.selected) in
      let uri : sent.uri ≡ spec.upstream <> request.url =
        it.uri ∙ ap (λ u. u <> request.url) upstream in
      let (rest, target) = origin_form-slash request.url it.target in
      let (authority, found, _, whole) =
        authority_of-append spec.upstream request.url rest fine.origin target in
      record {
        spec = spec;
        declared = declared;
        secret = secret;
        minted_for = minted;
        given = given;
        presented =
            ap (λ n. values_of n pairs) (sym header)
            ∙ presented
            ∙ ap (λ r. r.phantom.value ∷ []) (sym same);
        uri = uri;
        authority = authority;
        upstream_authority = found;
        sent_authority = ap authority_of uri ∙ whole;
        credential =
            ap (λ n. values_of n sent.headers) (sym header)
            ∙ it.credential
            ∙ ap (λ t. replace_first t "{}" it.route.raw_value.value ∷ []) template
            ∙ ap (λ r. replace_first spec.inject_header.template "{}" r.raw_value.value ∷ [])
                (sym same);
      }

-- What leaves the sidecar of an execution that returned a code, whatever its callers send to it: only
-- requests that present the phantom which the target's environment holds for a proxied secret of the
-- policy, each to the upstream that the policy declares for that secret, whose authority the request
-- cannot change, and with the provider's value of that secret, in the declared template, as the one
-- value of the declared header.
pub execute-IsGranted :
    (w : World) (invocation : Invocation) (code : ℕ)
    → IsFaithful w.serde
    → (h : (execute w invocation).1 ≡ finished code)
    → (C : Client) (request : Request) (routes : List ProxyRoute) (sent : Outgoing)
    → parse_transfer w.serde (sidecar_input (execute w invocation).0) ≡ ok routes
    → prepare C request routes ≡ ok sent
    → let F = execute-IsFinished w invocation code h in
      IsGranted w F.config F.policy F.served.provisioned F.served.sidecar.port request sent
execute-IsGranted w invocation code faithful h C request routes sent armed prepared =
    let F = execute-IsFinished w invocation code h in
    let S = F.served in
    let (_, valid, _) =
      find_policy-IsResolvable w.kdl w.read_to_string (config_path w.var_os) F.config
        invocation.command F.policy F.loaded F.found in
    let it = execute-parse_transfer w invocation code faithful h in
    let same : routes ≡ map armed_route S.provisioned = ground (arith, sym armed ∙ it) in
    IsSent-IsGranted w F.config F.policy S.provisioned S.sidecar.port request sent
      S.provisioned_each valid.proxy_secrets
      (prepare-IsSent C request (map armed_route S.provisioned) sent
        (subst (λ rs. prepare C request rs ≡ ok sent) same prepared))
