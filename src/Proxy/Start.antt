-- ===== src/Proxy/Start.antt =====
-- src/proxy.rs: `ReverseProxy::bind_loopback` and `run_proxy_mode`.
use iwaya.Prelude.{ℕ, String, ◌<>◌, List, Option, none, some, Result, ok, err, ◌>>=◌, map_err}
use iwaya.Text.Number.{decimal}
use iwaya.Proxy.{ProxyRoute, ProxyModeError, read, bind, readiness, parse_transfer}
use iwaya.Transfer.{Serde}

-- `ReverseProxy`: the port that the listener has, and the routes.
pub record ReverseProxy : Type 0 where
  pub port : ℕ
  pub routes : List ProxyRoute

-- What the operating system answers while the proxy starts; an error is the text that it displays.
-- `write` and `flush` are asked with the text that is written.
pub record Surroundings : Type 0 where
  pub read_line : Result String String
  pub bind_ephemeral : Result String ℕ
  pub write : String → Result String (Unit {0})
  pub flush : Result String (Unit {0})

-- The result of a start, with what it had done: whether a listener was opened, and what was
-- written on the readiness stream.
pub record Started : Type 0 where
  pub result : Result ProxyModeError ReverseProxy
  pub listener : Option ℕ
  pub written : Option String

-- `ReverseProxy::bind_loopback`
unfoldable pub bind_loopback : Surroundings → List ProxyRoute → Result ProxyModeError ReverseProxy
bind_loopback os routes = do
  port ← map_err bind os.bind_ephemeral
  ok (record { port = port; routes = routes })

-- `{"port":N}` and the line ending of `writeln!`
unfoldable pub readiness_line : ℕ → String
readiness_line port = "{\"port\":" <> decimal port <> "}\n"

-- What follows a successful bind: the readiness line, and the flush.
unfoldable pub report_readiness : Surroundings → ReverseProxy → Started
report_readiness os proxy = elim (os.write (readiness_line proxy.port)) [
  | err source ↦ record {
    result = err (readiness source);
    listener = some proxy.port;
    written = none;
  }
  | ok _ ↦ record {
    result = map_err readiness (os.flush) >>= λ _. ok proxy;
    listener = some proxy.port;
    written = some (readiness_line proxy.port);
  }
]

abbrev nothing_done : ProxyModeError → Started
nothing_done e = record { result = err e; listener = none; written = none }

-- `run_proxy_mode`
unfoldable pub run_proxy_mode : Serde → Surroundings → Started
run_proxy_mode S os = elim (map_err read os.read_line >>= parse_transfer S) [
  | err e ↦ nothing_done e
  | ok routes ↦ elim (bind_loopback os routes) [
    | err e ↦ nothing_done e
    | ok proxy ↦ report_readiness os proxy
  ]
]
