-- ===== src/Sidecar/Handover.antt =====
-- src/sidecar.rs with src/transfer.rs and src/proxy.rs: the start of a sidecar with the supervisor's document.
use iwaya.Prelude.{
  ℕ, String, ◌<>◌, List, [], ◌∷◌, some, true, false, ◌≡◌, refl, sym, ◌∙◌, inl, inr, ok, ◌≢◌, All,
  map,
}
use iwaya.Text.{is_empty}
use iwaya.Run.{Command}
use iwaya.Transfer.{Serde, IsFaithful, ProvisionedProxySecret, into_transfer, route_of}
use iwaya.Text.Number.{hex}
use iwaya.Transfer.RoundTrip.{into_transfer-eq, armed_route, parse_transfer-into_transfer}
use iwaya.Config.Origin.{is_http_origin}
use iwaya.Proxy.{parse_transfer}
use iwaya.Bws.Diagnostic.{trim_end}
use iwaya.Sidecar.Lifetime.{start_lem}
use iwaya.Sidecar.{
  Sidecar, readiness_limit, Host, Event, spawned, wrote, ran, reaped, ephemeral_name, run_command,
  deliver, await_readiness, attach, start,
}

-- All that was written to the sidecar's standard input.
unfoldable pub written : List Event → String
written [] = ""
written (wrote text ∷ events) = text <> written events
written (spawned command ∷ events) = written events
written (ran command ∷ events) = written events
written (reaped ∷ events) = written events

written-up :
    (command : Command) (transfer : String)
    → written (spawned command ∷ wrote transfer ∷ wrote "\n" ∷ []) ≡ transfer <> "\n"
unfolding written
written-up command transfer = refl

-- What a sidecar that is up has read of the supervisor's document arms one route for each provisioned
-- secret, if there is one and every upstream is an HTTP origin.
pub start-parse_transfer :
    (os : Host) (S : Serde) (ps : List ProvisionedProxySecret) (runtime image target : String)
    (sidecar : Sidecar)
    → IsFaithful S
    → ps ≢ []
    → All (λ p. is_http_origin p.upstream ≡ true) ps
    → (start os runtime image target (into_transfer S ps).0).1 ≡ ok sidecar
    → parse_transfer S (written (start os runtime image target (into_transfer S ps).0).0)
      ≡ ok (map armed_route ps)
start-parse_transfer os S ps runtime image target sidecar F some_secret origins h =
    elim (start_lem os runtime image target (into_transfer S ps).0) [
      | inr (e, failed, _) ↦ cc (sym h ∙ failed)
      | inl (up, _, is_up) ↦
          rw (is_up.events_eq, written-up) (parse_transfer-into_transfer S F ps some_secret origins)
    ]

-- A start with a document of the supervisor's succeeds if every answer of its host does: the name is
-- drawn, the container starts, both writes go through, and a line is read that announces a port.
pub start-into_transfer :
    (os : Host) (S : Serde) (ps : List ProvisionedProxySecret) (runtime image target : String)
    (random : List ℕ) (readiness : String) (port : ℕ)
    → IsFaithful S
    → os.fill 8 ≡ ok random
    → ((command : Command) → os.spawn command ≡ ok tt)
    → ((text : String) → os.write text ≡ ok tt)
    → os.read_line readiness_limit ≡ ok readiness
    → is_empty readiness ≡ false
    → os.parse_readiness (trim_end readiness) ≡ some port
    → (start os runtime image target (into_transfer S ps).0).1
      ≡ ok
          (record { runtime = runtime; container_name = "iwaya-proxy-" <> hex random; port = port })
unfolding start attach deliver await_readiness ephemeral_name
start-into_transfer os S ps runtime image target random readiness port F named spawns writes read
      some_text parsed =
    rw
      (
        into_transfer-eq S ps,
        F.single_line (record { routes = map route_of ps }),
        named,
        spawns (run_command runtime image target ("iwaya-proxy-" <> hex random)),
        into_transfer-eq S ps,
        deliver,
        writes (S.to_string (record { routes = map route_of ps })),
        deliver,
        writes "\n",
        await_readiness,
        read,
        some_text,
        parsed,
      )
      refl
