-- ===== src/Main/Grants.antt =====
-- src/main.rs with src/proxy.rs: tests of what leaves the sidecar of an execution.
use iwaya.Prelude.{String, List, [], ◌∷◌, true, none, ok, ◌≡◌, refl, ap, ◌∙◌}
use iwaya.Text.{strip_prefix}
use iwaya.Text.Ascii.{eq_ignore_ascii_case, to_ascii_lowercase}
use iwaya.Text.Search.{replace_first, split_at_match}
use iwaya.Secret.{expose_to_upstream_header, new_secret}
use iwaya.Phantom.{matches_presented, fold_difference, from_transferred}
use iwaya.Config.Origin.{is_http_origin}
use iwaya.Transfer.Lines.{lines, lines-IsFaithful}
use iwaya.Proxy.{ProxyRoute, parse_transfer, arm_routes, arm, position}
use iwaya.Proxy.Forward.{
  Request, Outgoing, Client, prepare, is_origin_form, select_route, match_routes, presented,
  values_of, header_pairs, sole_route, outgoing_for, forwarded_headers, forwards_request_header,
  is_hop_by_hop, injected, has_body,
}
use iwaya.Main.Execute.{execute}
use iwaya.Main.Input.{sidecar_input}
use iwaya.Main.Served.{execute-IsFinished}
use iwaya.Main.Granted.{IsGranted, execute-IsGranted}
use iwaya.Main.Example.{world, invocation}
use iwaya.Main.Tests.{runs, finishes}

abbrev routes : List ProxyRoute
routes =
    record {
      header_name = "k";
      template = "{}";
      phantom = record { value = "iwaya-phantom-0007" };
      raw_value = record { value = "new" };
      upstream = "https://h";
    }
    ∷ []

armed : parse_transfer lines (sidecar_input (execute world invocation).0) ≡ ok routes
unfolding sidecar_input parse_transfer arm_routes arm position from_transferred new_secret
    is_http_origin
armed = ap (λ r. parse_transfer lines (sidecar_input r.0)) runs.0 ∙ refl

abbrev client : Client
client = record {
  Response = String;
  is_method = λ m. true;
  builds = λ _. true;
  run = λ outgoing. ok "";
}

-- The target's request, with the phantom and a header of its own.
abbrev call : Request
call = record {
  method = "GET";
  url = "/v1";
  headers = ("K", "iwaya-phantom-0007") ∷ ("Accept", "*/*") ∷ [];
  body_length = none;
  body = "";
}

abbrev sent_call : Outgoing
sent_call = record {
  method = "GET";
  uri = "https://h/v1";
  headers = ("accept", "*/*") ∷ ("k", "new") ∷ [];
  body = none;
}

prepared : prepare client call routes ≡ ok sent_call
unfolding prepare is_origin_form select_route match_routes presented values_of header_pairs
    matches_presented fold_difference sole_route outgoing_for forwarded_headers
    forwards_request_header is_hop_by_hop injected expose_to_upstream_header replace_first
    split_at_match has_body eq_ignore_ascii_case to_ascii_lowercase strip_prefix
prepared = refl

execute-IsGranted_example :
    let F = execute-IsFinished world invocation 3 finishes in
    IsGranted world F.config F.policy F.served.provisioned F.served.sidecar.port call sent_call
execute-IsGranted_example =
    execute-IsGranted world invocation 3 lines-IsFaithful finishes client call routes sent_call
      armed prepared
