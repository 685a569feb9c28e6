-- ===== src/Proxy/Tests.antt =====
-- src/proxy.rs: tests.
use iwaya.Prelude.{
  ℕ, String, ◌<>◌, List, [], ◌∷◌, true, none, some, ◌≡◌, refl, ok, err, any, filter, if◌then◌else◌,
  Any, ◌⊎◌,
}
use iwaya.Text.{◌=?◌, strip_prefix, all_chars}
use iwaya.Text.Number.{parse_usize, parse_usize_digits}
use iwaya.Text.Ascii.{eq_ignore_ascii_case, to_ascii_lowercase, is_ascii_digit}
use iwaya.Text.Search.{replace_first, split_at_match}
use iwaya.Phantom.{matches_presented, fold_difference, from_transferred}
use iwaya.Secret.{new_secret, expose_to_upstream_header}
use iwaya.Config.Origin.{is_http_origin, strip_scheme}
use iwaya.Config.Authority.{authority_of, stays}
use iwaya.Transfer.{RouteTransfer}
use iwaya.Proxy.{ProxyRoute, invalid_upstream, arm, arm_routes, position}
use iwaya.Proxy.Forward.{
  Request, Outgoing, bad_request, values_of, presented, match_routes, sole_route, select_route,
  is_origin_form, header_pairs, forwards_request_header, forwarded_headers, is_hop_by_hop, injected,
  has_body, outgoing_for, Client, prepare,
}
use iwaya.Proxy.Selection.{several, named, sole, chosen, select_route-eq}
use iwaya.Transfer.Lines.{lines}
use iwaya.Proxy.Respond.{
  Answers, streamed, text, copy_header, copy_headers, respond_with_upstream, handle,
}
use iwaya.Proxy.Start.{Surroundings, run_proxy_mode}
use iwaya.Proxy.Destination.{prepare-authority_of}
use iwaya.Proxy.Passing.{passed_headers, declared_length, respond_with_upstream-eq}
use iwaya.Proxy.Handling.{refusal, handle_lem}
use iwaya.Proxy.Startup.{IsOpen, IsRefused, run_proxy_mode_lem}

abbrev pub api_route : ProxyRoute
api_route = record {
  header_name = "X-Api-Key";
  template = "Bearer {}";
  phantom = record { value = "phantom-1" };
  raw_value = record { value = "raw" };
  upstream = "https://api.example.com";
}

abbrev pub git_route : ProxyRoute
git_route = record api_route {
  header_name = "Private-Token";
  phantom = record { value = "phantom-2" };
}

abbrev pub two_routes : List ProxyRoute
two_routes = api_route ∷ git_route ∷ []

abbrev pub call : Request
call = record {
  method = "POST";
  url = "/v1/messages";
  headers =
      ("Host", "127.0.0.1:8080")
      ∷ ("x-api-key", "phantom-1")
      ∷ ("Accept", "text/plain")
      ∷ ("Connection", "close")
      ∷ [];
  body_length = some 2;
  body = "hi";
}

-- A client that knows two methods and answers with the body that it is sent.
abbrev pub echo : Client
echo = record {
  Response = String;
  is_method = λ m. any (λ known. known =? m) ("GET" ∷ "POST" ∷ []);
  builds = λ _. true;
  run = λ outgoing. elim outgoing.body [ none ↦ err "no body" | some body ↦ ok body ];
}

abbrev pub sent_call : Outgoing
sent_call = record {
  method = "POST";
  uri = "https://api.example.com/v1/messages";
  headers = ("accept", "text/plain") ∷ ("X-Api-Key", "Bearer raw") ∷ [];
  body = some "hi";
}

pub prepared : prepare echo call two_routes ≡ ok sent_call
unfolding prepare is_origin_form select_route match_routes presented values_of header_pairs
    matches_presented fold_difference sole_route outgoing_for forwarded_headers
    forwards_request_header is_hop_by_hop injected expose_to_upstream_header replace_first
    split_at_match has_body eq_ignore_ascii_case to_ascii_lowercase strip_prefix
prepared = refl

select_route-eq_example : select_route two_routes (header_pairs call.headers) ≡ (
    if any (λ r. several (named (header_pairs call.headers) r.header_name)) two_routes
    then err (bad_request "a proxied credential header appears more than once")
    else chosen (
        filter
          (λ r. sole r.phantom.value (named (header_pairs call.headers) r.header_name))
          two_routes))
select_route-eq_example = select_route-eq two_routes (header_pairs call.headers)

abbrev transferred : List RouteTransfer
transferred =
    record {
      header_name = "X-Api-Key";
      template = "Bearer {}";
      upstream = "https://api.example.com";
      phantom = "phantom-1";
      secret = "raw";
    }
    ∷ record {
      header_name = "Private-Token";
      template = "Bearer {}";
      upstream = "https://api.example.com";
      phantom = "phantom-2";
      secret = "raw";
    }
    ∷ []

armed : arm_routes transferred ≡ ok two_routes
unfolding arm_routes position arm from_transferred new_secret is_http_origin
armed = refl

abbrev no_origin : List RouteTransfer
no_origin =
    record {
      header_name = "k";
      template = "{}";
      upstream = "http://h:80/x";
      phantom = "p";
      secret = "s";
    }
    ∷ transferred

not_armed : arm_routes no_origin ≡ err (invalid_upstream 0)
unfolding arm_routes position is_http_origin
not_armed = refl

prepare-authority_of_example :
    (route : ProxyRoute) × Any (λ r. r ≡ route) two_routes
    × (authority : String) × (strip_scheme route.upstream ≡ some authority)
    × (all_chars stays authority ≡ true)
    × (authority_of sent_call.uri ≡ some authority)
prepare-authority_of_example =
    prepare-authority_of echo transferred two_routes call sent_call armed prepared

-- Headers that are texts.
abbrev pub plain : Answers echo
plain = record {
  Value = String;
  Header = String × String;
  status = λ _. 200;
  headers = λ _. ("Content-Length", "2") ∷ ("Connection", "close") ∷ ("ETag", "x") ∷ [];
  body = λ response. response;
  to_str = λ value. some value;
  header_of = λ name value. some (name, value);
}

respond_with_upstream-eq_example :
    respond_with_upstream echo plain "hi"
    ≡ streamed 200
        (passed_headers echo plain (plain.headers "hi"))
        "hi"
        (declared_length echo plain (plain.headers "hi") none)
respond_with_upstream-eq_example = respond_with_upstream-eq echo plain "hi"

answer_of_call :
    respond_with_upstream echo plain "hi" ≡ streamed 200 (("ETag", "x") ∷ []) "hi" (some 2)
unfolding respond_with_upstream copy_headers copy_header is_hop_by_hop to_ascii_lowercase
    parse_usize parse_usize_digits strip_prefix is_ascii_digit
answer_of_call = refl

handle_lem_example :
    ((status : ℕ) (body : String)
      → refusal echo call two_routes ≡ some (status, body)
      → handle echo plain call two_routes ≡ ([], text status body))
    × (refusal echo call two_routes ≡ none
        → (sent : Outgoing) × (prepare echo call two_routes ≡ ok sent)
          × ((e : String)
              → echo.run sent ≡ err e
              → handle echo plain call two_routes ≡ (
                ("iwaya-proxy: error: upstream request failed: " <> e) ∷ [],
                text 502 "iwaya-proxy: the upstream request failed",
              ))
          × ((response : String)
              → echo.run sent ≡ ok response
              → handle echo plain call two_routes
                ≡ ([], respond_with_upstream echo plain response)))
handle_lem_example = handle_lem echo plain call two_routes

-- A system on which everything succeeds.
abbrev ready_system : Surroundings
ready_system = record {
  read_line = ok (lines.to_string (record { routes = transferred }) <> "\n");
  bind_ephemeral = ok 34567;
  write = λ _. ok tt;
  flush = ok tt;
}

run_proxy_mode_lem_example :
    IsOpen lines ready_system (run_proxy_mode lines ready_system)
    ⊎ IsRefused (run_proxy_mode lines ready_system)
run_proxy_mode_lem_example = run_proxy_mode_lem lines ready_system
