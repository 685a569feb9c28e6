-- ===== src/Sidecar/Tests.antt =====
-- src/sidecar.rs: tests.
use iwaya.Prelude.{[], ◌∷◌, some, true, ◌≡◌, ◌⊎◌, refl, ok, err, All, map}
use iwaya.Text.{char_of}
use iwaya.Text.Number.{hex, hex_digit, decimal}
use iwaya.Config.Origin.{is_http_origin}
use iwaya.Transfer.{ProvisionedProxySecret, into_transfer, split_provisioned, route_of, plan_of}
use iwaya.Transfer.Lines.{lines, lines-IsFaithful}
use iwaya.Phantom.{expose_to_transfer}
use iwaya.Secret.{into_proxy_transfer}
use iwaya.Sidecar.{
  Sidecar, SidecarError, Host, ephemeral_name, run_command, deliver, await_readiness, attach, start,
}
use iwaya.Transfer.RoundTrip.{armed_route}
use iwaya.Proxy.{parse_transfer}
use iwaya.Proxy.Start.{
  ReverseProxy, Surroundings, bind_loopback, report_readiness, readiness_line, run_proxy_mode,
}
use iwaya.Sidecar.Handover.{written, start-parse_transfer}
use iwaya.Sidecar.Handshake.{start-run_proxy_mode}
use iwaya.Sidecar.Lifetime.{IsUp, IsDown, start_lem}

abbrev secret : ProvisionedProxySecret
secret = record {
  env_name = record { name = "API_KEY" };
  base_url_env = record { name = "API_URL" };
  header_name = "k";
  template = "{}";
  upstream = "https://h";
  phantom = record { value = "p" };
  raw_value = record { value = "r" };
}

-- A host on which everything succeeds.
abbrev host : Host
host = record {
  fill = λ n. ok (1 ∷ 2 ∷ []);
  spawn = λ _. ok tt;
  write = λ _. ok tt;
  read_line = λ limit. ok "{\"port\":34567}\n";
  parse_readiness = λ s. some 34567;
}

abbrev up : Sidecar
up = record { runtime = "podman"; container_name = "iwaya-proxy-0102"; port = 34567 }

started : (start host "podman" "img" "app" (into_transfer lines (secret ∷ [])).0).1 ≡ ok up
unfolding start ephemeral_name run_command deliver await_readiness attach into_transfer
    split_provisioned route_of plan_of hex hex_digit char_of expose_to_transfer into_proxy_transfer
started = refl

secret_origin : All (λ p. is_http_origin p.upstream ≡ true) (secret ∷ [])
unfolding is_http_origin
secret_origin = (refl, tt)

start_lem_example :
    let (events, result) = start host "podman" "img" "app" "{}" in
    ((sidecar : Sidecar) × (result ≡ ok sidecar)
      × IsUp host "podman" "img" "app" "{}" events sidecar)
    ⊎ ((e : SidecarError) × (result ≡ err e) × IsDown "podman" "img" "app" events)
start_lem_example = start_lem host "podman" "img" "app" "{}"

-- The other end: a proxy that reads what the start writes, and listens on the announced port.
abbrev os : Surroundings
os = record {
  read_line =
      ok (written (start host "podman" "img" "app" (into_transfer lines (secret ∷ [])).0).0);
  bind_ephemeral = ok 34567;
  write = λ _. ok tt;
  flush = ok tt;
}

abbrev proxy : ReverseProxy
proxy = record { port = 34567; routes = map armed_route (secret ∷ []) }

armed :
    parse_transfer lines
      (written (start host "podman" "img" "app" (into_transfer lines (secret ∷ [])).0).0)
    ≡ ok (map armed_route (secret ∷ []))
armed =
    start-parse_transfer host lines (secret ∷ []) "podman" "img" "app" up lines-IsFaithful (λ e. cc)
      secret_origin started

serving : (run_proxy_mode lines os).result ≡ ok proxy
unfolding run_proxy_mode bind_loopback report_readiness
serving = rw (armed, run_proxy_mode) refl

announced : (run_proxy_mode lines os).written ≡ some "{\"port\":34567}\n"
unfolding run_proxy_mode bind_loopback report_readiness readiness_line decimal
announced = rw (armed, run_proxy_mode) refl

start-run_proxy_mode_example :
    (os.bind_ephemeral ≡ ok up.port) × (proxy.routes ≡ map armed_route (secret ∷ []))
start-run_proxy_mode_example =
    start-run_proxy_mode host os lines (secret ∷ []) "podman" "img" "app" "{\"port\":34567}\n" up
      proxy lines-IsFaithful (λ e. cc) secret_origin refl refl announced refl serving started
