-- ===== src/Proxy/Serving.antt =====
-- src/proxy.rs: `ReverseProxy::serve`, a thread for each request. The threads share the routes,
-- which nothing changes, and each step of each may come at any time.
use iwaya.Prelude.{String, List, [], ◌∷◌, ◌++◌, ok, err, map_err, ◌≡◌}
use iwaya.Proxy.{ProxyRoute}
use iwaya.Proxy.Forward.{Request, Outgoing, Rejection, upstream, Client, prepare}
use iwaya.Proxy.Respond.{Answers, Reply, reply_to}

-- How far a thread is: it has its request, or it waits for the upstream.
pub data Thread : Type 0 where
  received : Request → Thread
  sending : Request → Outgoing → Thread

module _ (C : Client) (A : Answers C) where
  -- The lines on standard error and the reply that a request got.
  abbrev pub Answered : Type 0
  Answered = Request × (List String × Reply A.Header)

  -- The requests that `incoming_requests` has yet to yield, the threads, and what was answered, the
  -- latest first.
  pub record Server : Type 0 where
    pub incoming : List Request
    pub threads : List Thread
    pub answered : List Answered

  -- One step: of the loop, or of any thread.
  pub data Step (routes : List ProxyRoute) (s t : Server) : Type 0 where
    spawn :
        (request : Request) (rest : List Request)
        → s.incoming ≡ request ∷ rest
        → t ≡ record s { incoming = rest; threads = received request ∷ s.threads }
        → Step routes s t
    refuse :
        (before after : List Thread) (request : Request) (rejection : Rejection)
        → s.threads ≡ before ++ (received request ∷ after)
        → prepare C request routes ≡ err rejection
        → t ≡ record s {
          threads = before ++ after;
          answered = (request, reply_to C A (err rejection)) ∷ s.answered;
        }
        → Step routes s t
    send :
        (before after : List Thread) (request : Request) (outgoing : Outgoing)
        → s.threads ≡ before ++ (received request ∷ after)
        → prepare C request routes ≡ ok outgoing
        → t ≡ record s { threads = before ++ (sending request outgoing ∷ after) }
        → Step routes s t
    respond :
        (before after : List Thread) (request : Request) (outgoing : Outgoing)
        → s.threads ≡ before ++ (sending request outgoing ∷ after)
        → t ≡ record s {
          threads = before ++ after;
          answered = (request, reply_to C A (map_err upstream (C.run outgoing))) ∷ s.answered;
        }
        → Step routes s t

  pub data Steps (routes : List ProxyRoute) (s : Server) : Server → Type 0 where
    here : Steps routes s s
    next : {t u : Server} → Steps routes s t → Step routes t u → Steps routes s u

  -- Before the first request.
  abbrev pub opened : List Request → Server
  opened requests = record { incoming = requests; threads = []; answered = [] }

  -- Every request that came was answered.
  pub record IsIdle (s : Server) : Type 0 where
    pub none_incoming : s.incoming ≡ []
    pub none_running : s.threads ≡ []
