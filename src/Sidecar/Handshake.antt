-- ===== src/Sidecar/Handshake.antt =====
-- src/sidecar.rs with src/proxy.rs: the two ends of a sidecar's start, on each other's lines.
use text.Mathlib.TextLemmas.{cons-append, append_assoc}
use iwaya.Prelude.{
  ℕ, String, ◌<>◌, List, [], map, true, false, ◌≡◌, ◌≢◌, refl, sym, ap, ◌∙◌, some, ok, inl, inr,
  All, arith,
}
use iwaya.Text.{is_empty}
use iwaya.Text.Ascii.{is_whitespace}
use iwaya.Text.Number.{decimal}
use iwaya.Bws.Diagnostic.{trim_end}
use iwaya.Config.Origin.{is_http_origin}
use iwaya.Transfer.{Serde, IsFaithful, ProvisionedProxySecret, into_transfer}
use iwaya.Transfer.RoundTrip.{armed_route}
use iwaya.Proxy.{parse_transfer}
use iwaya.Proxy.Start.{ReverseProxy, Surroundings, readiness_line, run_proxy_mode}
use iwaya.Proxy.Startup.{run_proxy_mode_lem}
use iwaya.Sidecar.{Sidecar, Host, readiness_limit, start}
use iwaya.Sidecar.Lifetime.{start_lem}
use iwaya.Sidecar.Handover.{written, start-parse_transfer}

is_empty-append : (s : String) → is_empty (s <> "}") ≡ false
is_empty-append String.[] = refl
is_empty-append (String.◌∷◌ c s) = rw (cons-append c s "}") refl

trim_end-append : (s : String) → trim_end (s <> "}\n") ≡ s <> "}"
unfolding trim_end is_whitespace
trim_end-append String.[] = refl
trim_end-append (String.◌∷◌ c s) =
    rw (cons-append c s "}\n", cons-append c s "}", trim_end-append s, is_empty-append s) refl

-- The line of a proxy, without its line ending.
trim_end-readiness_line :
    (port : ℕ) → trim_end (readiness_line port) ≡ ("{\"port\":" <> decimal port <> "}")
unfolding readiness_line
trim_end-readiness_line port =
    let head : String = "{\"port\":" in
    ap trim_end (sym (append_assoc head (decimal port) "}\n"))
    ∙ trim_end-append (head <> decimal port)
    ∙ append_assoc head (decimal port) "}"

IsUp-port :
    (os : Host) (runtime image target transfer : String) (sidecar : Sidecar) (line : String)
    (port : ℕ)
    → (start os runtime image target transfer).1 ≡ ok sidecar
    → os.read_line readiness_limit ≡ ok line
    → os.parse_readiness (trim_end line) ≡ some port
    → sidecar.port ≡ port
IsUp-port os runtime image target transfer sidecar line port h read parsed =
    elim (start_lem os runtime image target transfer) [
      | inr (e, failed, _) ↦ cc (sym h ∙ failed)
      | inl (other, up, it) ↦
          let same : other ≡ sidecar = cc in
          let heard : it.readiness ≡ line = ground (arith, sym it.received ∙ read) in
          let announced : some other.port ≡ some port =
            sym it.announced ∙ ap (λ r. os.parse_readiness (trim_end r)) heard ∙ parsed in
          ap (λ s. s.port) (sym same) ∙ ground arith
    ]

-- When the proxy reads the line that the supervisor wrote, and the supervisor the one that the proxy
-- wrote, and both starts succeed, then the supervisor's port is the one on which the proxy listens, and
-- the proxy's routes are those of the provisioned secrets. The JSON library reads the port's object as
-- the port, and the transfer document as what was written.
pub start-run_proxy_mode :
    (host : Host) (os : Surroundings) (S : Serde) (ps : List ProvisionedProxySecret)
    (runtime image target line : String) (sidecar : Sidecar) (proxy : ReverseProxy)
    → IsFaithful S
    → ps ≢ []
    → All (λ p. is_http_origin p.upstream ≡ true) ps
    → host.parse_readiness ("{\"port\":" <> decimal proxy.port <> "}") ≡ some proxy.port
    → os.read_line ≡ ok (written (start host runtime image target (into_transfer S ps).0).0)
    → (run_proxy_mode S os).written ≡ some line
    → host.read_line readiness_limit ≡ ok line
    → (run_proxy_mode S os).result ≡ ok proxy
    → (start host runtime image target (into_transfer S ps).0).1 ≡ ok sidecar
    → (os.bind_ephemeral ≡ ok sidecar.port) × (proxy.routes ≡ map armed_route ps)
start-run_proxy_mode host os S ps runtime image target line sidecar proxy F some_secret origins json
      heard announced read served up =
    elim (run_proxy_mode_lem S os) [
      | inr refused ↦ cc (sym served ∙ refused.reported)
      | inl it ↦
          let (same, wrote) = it.ready proxy served in
          let input : it.line ≡ written (start host runtime image target (into_transfer S ps).0).0 =
            ground (arith, sym it.received ∙ heard) in
          let armed =
            sym it.routes
            ∙ ap (parse_transfer S) input
            ∙ start-parse_transfer host S ps runtime image target sidecar F some_secret origins
                up in
          let text : line ≡ readiness_line proxy.port =
            it.announced line announced ∙ ap (λ p. readiness_line p.port) (sym same) in
          let port =
            IsUp-port host runtime image target (into_transfer S ps).0 sidecar line proxy.port up
              read
              (ap (λ t. host.parse_readiness (trim_end t)) text
                ∙ ap host.parse_readiness (trim_end-readiness_line proxy.port)
                ∙ json) in
          (
            it.port ∙ ap (λ p. ok p.port) (sym same) ∙ ap ok (sym port),
            ap (λ p. p.routes) same ∙ ground (arith, armed),
          )
    ]
