-- ===== src/Proxy/Interleaving.antt =====
-- src/proxy.rs: whatever the order of the threads' steps, each request gets the answer of `handle`.
use mathlib.Core.List.{Perm, append-nil, perm_middle}
use mathlib.Core.List.Perm
use iwaya.Prelude.{
  String, List, [], ◌∷◌, ◌++◌, map, ok, err, map_err, ◌≡◌, refl, sym, ap, subst, ◌∙◌, All,
  All-append_iff,
}
use iwaya.Proxy.{ProxyRoute}
use iwaya.Proxy.Forward.{Request, Outgoing, Rejection, upstream, Client, prepare, forward}
use iwaya.Proxy.Respond.{Answers, Reply, reply_to, handle}
use iwaya.Proxy.Serving.{
  Thread, received, sending, Answered, Server, Step, spawn, refuse, send, respond, Steps, here,
  next, opened, IsIdle,
}

module _ (C : Client) (A : Answers C) (routes : List ProxyRoute) where
  abbrev request_of : Thread → Request
  request_of (received request) = request
  request_of (sending request outgoing) = request

  -- A thread that waits for the upstream has sent what its request prepares.
  abbrev pub IsThread : Thread → Type 0
  IsThread (received request) = Unit
  IsThread (sending request outgoing) = prepare C request routes ≡ ok outgoing

  -- The request with the answer of `handle`.
  abbrev pub answer : Request → Answered C A
  answer request = (request, handle C A request routes)

  abbrev promise : Thread → Answered C A
  promise thread = answer (request_of thread)

  -- What was answered, with what the threads and the requests to come are to be answered.
  abbrev promised_by : List Thread → List Request → List (Answered C A) → List (Answered C A)
  promised_by threads incoming answered = map promise threads ++ (map answer incoming ++ answered)

  abbrev promised : Server C A → List (Answered C A)
  promised s = promised_by s.threads s.incoming s.answered

  map-append {ℓ κ} :
      {X : Type ℓ} {Y : Type κ} (f : X → Y) (xs ys : List X)
      → map f (xs ++ ys) ≡ map f xs ++ map f ys
  map-append f [] ys = refl
  map-append f (x ∷ xs) ys = ap (◌∷◌ (f x)) (map-append f xs ys)

  -- A thread that ends hands its promise over to the answers.
  moved {ℓ} :
      {X : Type ℓ} (a : X) (before after incoming answered : List X)
      → Perm
          ((before ++ after) ++ (incoming ++ (a ∷ answered)))
          ((before ++ (a ∷ after)) ++ (incoming ++ answered))
  moved a before after incoming answered =
      Perm.trans (Perm.append_left (before ++ after) (perm_middle incoming answered)) (
        Perm.trans (perm_middle (before ++ after) (incoming ++ answered))
          (Perm.symm (Perm.append_right (incoming ++ answered) (perm_middle before after))))

  forward-err :
      (request : Request) (rejection : Rejection)
      → prepare C request routes ≡ err rejection
      → handle C A request routes ≡ reply_to C A (err rejection)
  unfolding handle forward
  forward-err request rejection h = rw (h) refl

  forward-ok :
      (request : Request) (outgoing : Outgoing)
      → prepare C request routes ≡ ok outgoing
      → handle C A request routes ≡ reply_to C A (map_err upstream (C.run outgoing))
  unfolding handle forward
  forward-ok request outgoing h = rw (h) refl

  -- The threads of a server that runs with these routes.
  abbrev IsRunning : Server C A → Type 0
  IsRunning s = All IsThread s.threads

  threads-around :
      (before : List Thread) (thread : Thread) (after : List Thread)
      → All IsThread (before ++ (thread ∷ after))
      → All IsThread (before ++ after) × IsThread thread
  threads-around before thread after h =
      let (first, (it, last)) = (All-append_iff IsThread before (thread ∷ after)).0 h in
      ((All-append_iff IsThread before after).1 (first, last), it)

  Step-IsRunning : {s t : Server C A} → Step C A routes s t → IsRunning s → IsRunning t
  Step-IsRunning (spawn request rest at to) h = subst IsRunning (sym to) (tt, h)
  Step-IsRunning (refuse before after request rejection at refused to) h =
      subst IsRunning (sym to)
        (threads-around before (received request) after (subst (All IsThread) at h)).0
  Step-IsRunning (send before after request outgoing at prepared to) h =
      let (first, (_, last)) =
        (All-append_iff IsThread before (received request ∷ after)).0 (subst (All IsThread) at h) in
      subst IsRunning (sym to) (
        (All-append_iff IsThread before (sending request outgoing ∷ after)).1
          (first, (prepared, last)))
  Step-IsRunning (respond before after request outgoing at to) h =
      subst IsRunning (sym to)
        (threads-around before (sending request outgoing) after (subst (All IsThread) at h)).0

  -- A thread that ends with the answer of `handle`.
  ended :
      (s : Server C A) (before after : List Thread) (thread : Thread)
      (reply : List String × Reply A.Header)
      → s.threads ≡ before ++ (thread ∷ after)
      → handle C A (request_of thread) routes ≡ reply
      → Perm
          (promised_by (before ++ after) s.incoming ((request_of thread, reply) ∷ s.answered))
          (promised s)
  ended s before after thread reply at same =
      subst
        (λ threads.
          Perm (promised_by (before ++ after) s.incoming ((request_of thread, reply) ∷ s.answered))
            (promised_by threads s.incoming s.answered))
        (sym at)
        (subst
          (λ r.
            Perm (promised_by (before ++ after) s.incoming ((request_of thread, r) ∷ s.answered))
              (promised_by (before ++ (thread ∷ after)) s.incoming s.answered))
          same
          (rw (map-append promise before after, map-append promise before (thread ∷ after))
            (moved (promise thread) (map promise before) (map promise after) (map answer s.incoming)
              s.answered)))

  Step-perm :
      {s t : Server C A} → Step C A routes s t → IsRunning s → Perm (promised t) (promised s)
  Step-perm {s} (spawn request rest at to) h =
      subst (λ u. Perm (promised u) (promised s)) (sym to)
        (subst
          (λ incoming.
            Perm (promised_by (received request ∷ s.threads) rest s.answered)
              (promised_by s.threads incoming s.answered))
          (sym at)
          (Perm.symm (perm_middle (map promise s.threads) (map answer rest ++ s.answered))))
  Step-perm {s} (refuse before after request rejection at refused to) h =
      subst (λ u. Perm (promised u) (promised s)) (sym to)
        (ended s before after (received request) _ at (forward-err request rejection refused))
  Step-perm {s} (send before after request outgoing at prepared to) h =
      subst (λ u. Perm (promised u) (promised s)) (sym to)
        (subst
          (λ threads.
            Perm (promised_by (before ++ (sending request outgoing ∷ after)) s.incoming s.answered)
              (promised_by threads s.incoming s.answered))
          (sym at)
          (rw
            (
              map-append promise before (sending request outgoing ∷ after),
              map-append promise before (received request ∷ after),
            )
            (Perm.refl _)))
  Step-perm {s} (respond before after request outgoing at to) h =
      let (_, prepared) =
        threads-around before (sending request outgoing) after (subst (All IsThread) at h) in
      subst (λ u. Perm (promised u) (promised s)) (sym to)
        (ended s before after (sending request outgoing) _ at
          (forward-ok request outgoing prepared))

  Steps-perm :
      {s t : Server C A}
      → Steps C A routes s t
      → IsRunning s
      → IsRunning t × Perm (promised t) (promised s)
  Steps-perm here h = (h, Perm.refl _)
  Steps-perm (next steps step) h =
      let (running, all) = Steps-perm steps h in
      (Step-IsRunning step running, Perm.trans (Step-perm step running) all)

  -- When the server has answered every request that came, whatever the order in which the threads took
  -- their steps, the answers are, up to their order, those that `handle` gives to the requests one by
  -- one: none is lost, none is given twice, and none depends on another.
  pub Steps-answered_perm :
      (requests : List Request) (t : Server C A)
      → Steps C A routes (opened C A requests) t
      → IsIdle C A t
      → Perm t.answered (map answer requests)
  Steps-answered_perm requests t steps idle =
      let (_, all) = Steps-perm steps tt in
      let split : promised t ≡ t.answered =
        ap (λ threads. promised_by threads t.incoming t.answered) idle.none_running
        ∙ ap (λ incoming. map answer incoming ++ t.answered) idle.none_incoming in
      subst (λ l. Perm l (map answer requests)) split
        (subst (Perm (promised t)) (append-nil (map answer requests)) all)
