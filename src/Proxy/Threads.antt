-- ===== src/Proxy/Threads.antt =====
-- src/proxy.rs: tests of the threads.
use mathlib.Core.List.{Perm}
use iwaya.Prelude.{List, [], ◌∷◌, map, ◌≡◌, refl, err, map_err}
use iwaya.Text.{strip_prefix}
use iwaya.Proxy.Forward.{Request, bad_request, prepare, is_origin_form, upstream}
use iwaya.Proxy.Respond.{reply_to}
use iwaya.Proxy.Serving.{
  received, sending, Server, spawn, refuse, send, respond, Steps, here, next, opened, IsIdle,
}
use iwaya.Proxy.Interleaving.{answer, Steps-answered_perm}
use iwaya.Proxy.Tests.{two_routes, call, echo, plain, sent_call, prepared}

abbrev bad : Request
bad = record call { url = "x" }

refused : prepare echo bad two_routes ≡ err (bad_request "the request target must be origin-form")
unfolding prepare is_origin_form strip_prefix
refused = refl

abbrev requests : List Request
requests = call ∷ bad ∷ []

-- The second request is answered before the first.
abbrev served : Server echo plain
served = record {
  incoming = [];
  threads = [];
  answered =
      (call, reply_to echo plain (map_err upstream (echo.run sent_call)))
      ∷ (bad, reply_to echo plain (err (bad_request "the request target must be origin-form")))
      ∷ [];
}

overtaken : Steps echo plain two_routes (opened echo plain requests) served
overtaken =
    next
      (next
        (next (next (next here (spawn call (bad ∷ []) refl refl)) (spawn bad [] refl refl))
          (send (received bad ∷ []) [] call sent_call refl prepared refl))
        (refuse [] (sending call sent_call ∷ []) bad _ refl refused refl))
      (respond [] [] call sent_call refl refl)

served-IsIdle : IsIdle echo plain served
served-IsIdle = record { none_incoming = refl; none_running = refl }

Steps-answered_perm_example : Perm served.answered (map (answer echo plain two_routes) requests)
Steps-answered_perm_example =
    Steps-answered_perm echo plain two_routes requests served overtaken served-IsIdle
