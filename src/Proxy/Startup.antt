-- ===== src/Proxy/Startup.antt =====
-- src/proxy.rs: what the start of proxy mode has done when it returns.
use iwaya.Prelude.{
  String, List, ◌≡◌, refl, sym, ap, ◌∙◌, none, some, Result, ok, err, ◌>>=◌, map_err, Result-cases,
  >>=-eq-ok, map_err-eq-ok, arith, inl, inr, ◌⊎◌,
}
use iwaya.Transfer.{Serde}
use iwaya.Proxy.{ProxyRoute, ProxyModeError, read, bind, readiness, parse_transfer}
use iwaya.Proxy.Start.{
  ReverseProxy, Surroundings, Started, bind_loopback, readiness_line, report_readiness,
  run_proxy_mode,
}

-- What a start has done up to the listener.
pub record IsOpen (S : Serde) (os : Surroundings) (started : Started) : Type 0 where
  pub line : String
  pub received : os.read_line ≡ ok line
  pub proxy : ReverseProxy
  pub routes : parse_transfer S line ≡ ok proxy.routes
  pub port : os.bind_ephemeral ≡ ok proxy.port
  pub listener : started.listener ≡ some proxy.port
  pub announced : (text : String) → started.written ≡ some text → text ≡ readiness_line proxy.port
  pub ready :
      (p : ReverseProxy)
      → started.result ≡ ok p
      → (p ≡ proxy) × (started.written ≡ some (readiness_line proxy.port))

pub record IsRefused (started : Started) : Type 0 where
  pub no_listener : started.listener ≡ none
  pub silent : started.written ≡ none
  pub error : ProxyModeError
  pub reported : started.result ≡ err error

bind_loopback-eq-ok :
    (os : Surroundings) (routes : List ProxyRoute) (proxy : ReverseProxy)
    → bind_loopback os routes ≡ ok proxy
    → (os.bind_ephemeral ≡ ok proxy.port) × (proxy.routes ≡ routes)
unfolding bind_loopback
bind_loopback-eq-ok os routes proxy h =
    let (port, opened, same) =
      >>=-eq-ok (map_err bind os.bind_ephemeral)
        (λ port. ok (record { port = port; routes = routes })) h in
    let bound : os.bind_ephemeral ≡ ok port = map_err-eq-ok bind os.bind_ephemeral opened in
    (bound ∙ ground arith, ground arith)

flushed_proxy :
    (flush : Result String (Unit {0})) (proxy p : ReverseProxy)
    → (map_err readiness flush >>= λ _. ok proxy) ≡ ok p
    → p ≡ proxy
flushed_proxy (ok _) proxy p h = ground arith
flushed_proxy (err e) proxy p h = cc

report_readiness_lem :
    (S : Serde) (os : Surroundings) (line : String) (proxy : ReverseProxy)
    → os.read_line ≡ ok line
    → parse_transfer S line ≡ ok proxy.routes
    → os.bind_ephemeral ≡ ok proxy.port
    → IsOpen S os (report_readiness os proxy)
unfolding report_readiness
report_readiness_lem S os line proxy received routes port =
    elim (Result-cases (os.write (readiness_line proxy.port))) [
      | inr (e, refused) ↦
          rw (refused, report_readiness)
            (record {
              line = line;
              received = received;
              proxy = proxy;
              routes = routes;
              port = port;
              listener = refl;
              announced = λ t h. cc;
              ready = λ p h. cc;
            })
      | inl (_, written) ↦
          rw (written, report_readiness)
            (record {
              line = line;
              received = received;
              proxy = proxy;
              routes = routes;
              port = port;
              listener = refl;
              announced = λ t h. ground arith;
              ready = λ p h. (flushed_proxy os.flush proxy p h, refl);
            })
    ]

-- The readiness line is written only for a proxy that listens: either the transfer was read, its
-- routes were accepted and a listener was opened, and then nothing but the line with its port is
-- written, and success means that it was; or the start is an error without a listener and without
-- a word.
pub run_proxy_mode_lem :
    (S : Serde) (os : Surroundings)
    → IsOpen S os (run_proxy_mode S os) ⊎ IsRefused (run_proxy_mode S os)
unfolding run_proxy_mode
run_proxy_mode_lem S os = elim (Result-cases (map_err read os.read_line >>= parse_transfer S)) [
  | inr (e, refused) ↦
      rw (refused, run_proxy_mode)
        (inr (record { no_listener = refl; silent = refl; error = e; reported = refl }))
  | inl (routes, parsed) ↦
      let (line, read_ok, accepted) =
        >>=-eq-ok (map_err read os.read_line) (parse_transfer S) parsed in
      elim (Result-cases (bind_loopback os routes)) [
        | inr (e, refused) ↦
            rw (parsed, refused, run_proxy_mode)
              (inr (record { no_listener = refl; silent = refl; error = e; reported = refl }))
        | inl (proxy, opened) ↦
            let (bound, same) = bind_loopback-eq-ok os routes proxy opened in
            rw (parsed, opened, run_proxy_mode)
              (inl (
                report_readiness_lem S os line proxy (map_err-eq-ok read os.read_line read_ok)
                  (accepted ∙ ap ok (sym same)) bound))
      ]
]
