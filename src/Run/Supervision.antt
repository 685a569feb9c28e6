-- ===== src/Run/Supervision.antt =====
-- src/run.rs: the runtime's process under supervision, and the code that is propagated.
use mathlib.Core.List.{append-nil}
use iwaya.Prelude.{
  Option, true, false, Bool-cases, ap, ◌∙◌, ℕ, ◌+◌, ◌<◌, String, List, [], ◌∷◌, ◌++◌, ◌≡◌, ◌⊎◌,
  refl, none, some, Result, ok, err, Result-cases, inl, inr, All, Any, arith, All-append_iff,
}
use iwaya.Config.{EnvName, DockerContext, CommandPolicy}
use iwaya.Secret.{Secret}
use iwaya.Run.Invocation.{build_argv-eq}
use iwaya.Run.{
  Command, command_of, System, ExitStatus, exited, killed, exit_code_of, Event, registered, spawned,
  relayed, waited, closed, joined, terminated, forwarded_signals, ExecError, relay, finish, attend,
  supervise, supervise_runtime, build_argv, apply_injected_environment, apply_proxy_environment,
}

-- The shell's convention: a normal exit's own code, and 128 and the number for a signal. A code
-- always fits in eight bits.
pub exit_code_of_lem :
    (status : ExitStatus)
    → (exit_code_of status < 256)
      × ((code : ℕ) → status ≡ exited code → code < 256 → exit_code_of status ≡ code)
      × ((signal : ℕ)
          → status ≡ killed (some signal)
          → signal < 128
          → exit_code_of status ≡ 128 + signal)
unfolding exit_code_of
exit_code_of_lem (exited code) = (omega arith, λ c e h. ground arith, λ s e h. cc)
exit_code_of_lem (killed none) = (omega arith, λ c e h. cc, λ s e h. cc)
exit_code_of_lem (killed (some signal)) = (omega arith, λ c e h. cc, λ s e h. ground arith)

-- An event of a supervised child: it concerns no other process, and starts none.
abbrev pub IsFor : ℕ → Event → Type 0
IsFor pid (relayed other signal) = other ≡ pid
IsFor pid (waited other) = other ≡ pid
IsFor pid (terminated other) = other ≡ pid
IsFor pid closed = Unit
IsFor pid joined = Unit
IsFor pid (registered signals) = ⊥
IsFor pid (spawned other command) = ⊥

-- An event without a child.
abbrev pub IsChildless : Event → Type 0
IsChildless (registered signals) = Unit
IsChildless closed = Unit
IsChildless joined = Unit
IsChildless (relayed pid signal) = ⊥
IsChildless (waited pid) = ⊥
IsChildless (terminated pid) = ⊥
IsChildless (spawned pid command) = ⊥

relay-IsFor : (pid : ℕ) (signals : List ℕ) → All (IsFor pid) (relay pid signals)
unfolding relay
relay-IsFor pid [] = tt
relay-IsFor pid (s ∷ signals) = (refl, relay-IsFor pid signals)

Any-behind : (P : Event → Type 0) (xs ys : List Event) → Any P ys → Any P (xs ++ ys)
Any-behind P [] ys m = m
Any-behind P (x ∷ xs) ys m = inr (Any-behind P xs ys m)

All-joined :
    (pid : ℕ) (xs ys : List Event)
    → All (IsFor pid) xs
    → All (IsFor pid) ys
    → All (IsFor pid) (xs ++ ys)
All-joined pid xs ys h k = (All-append_iff (IsFor pid) xs ys).1 (h, k)

-- The end of a supervision: nothing more after a wait that succeeds, and after one that fails the
-- child is terminated and waited for again.
finish_lem :
    (runtime : String) (pid : ℕ) (w : Result String ExitStatus)
    → All (IsFor pid) (finish runtime pid w).0
      × ((e : ExecError)
          → (finish runtime pid w).1 ≡ err e
          → Any (λ x. x ≡ terminated pid) (finish runtime pid w).0)
      × ((status : ExitStatus)
          → w ≡ ok status
          → (finish runtime pid w).1 ≡ ok (exit_code_of status))
unfolding finish
finish_lem runtime pid (ok status) = (tt, λ e h. cc, λ s h. ground arith)
finish_lem runtime pid (err source) = ((refl, (refl, tt)), λ e h. inl refl, λ s h. cc)

-- The signals that were relayed, in order.
abbrev pub relayed_in : List Event → List ℕ
relayed_in [] = []
relayed_in (relayed pid signal ∷ events) = signal ∷ relayed_in events
relayed_in (registered signals ∷ events) = relayed_in events
relayed_in (spawned pid command ∷ events) = relayed_in events
relayed_in (waited pid ∷ events) = relayed_in events
relayed_in (closed ∷ events) = relayed_in events
relayed_in (joined ∷ events) = relayed_in events
relayed_in (terminated pid ∷ events) = relayed_in events

relayed_in-relay :
    (pid : ℕ) (signals : List ℕ) (events : List Event)
    → relayed_in (relay pid signals ++ events) ≡ signals ++ relayed_in events
unfolding relay
relayed_in-relay pid [] events = refl
relayed_in-relay pid (s ∷ signals) events = ap (◌∷◌ s) (relayed_in-relay pid signals events)

relayed_in-finish :
    (runtime : String) (pid : ℕ) (w : Result String ExitStatus)
    → relayed_in (finish runtime pid w).0 ≡ []
unfolding finish
relayed_in-finish runtime pid (ok status) = refl
relayed_in-finish runtime pid (err source) = refl

-- How a supervision went: with a child, without one, or with a child that was left behind.
pub record IsAttended (os : System) (command : Command) (events : List Event)
    (result : Option (Result ExecError ℕ)) : Type 0 where
  pub pid : ℕ
  pub rest : List Event
  pub events_eq : events ≡ registered forwarded_signals ∷ spawned pid command ∷ rest
  pub own : All (IsFor pid) rest
  pub reaped : Any (λ x. x ≡ waited pid) rest
  pub relayed_all : relayed_in rest ≡ os.caught ++ os.late
  pub unorphaned : (e : ExecError) → result ≡ some (err e) → Any (λ x. x ≡ terminated pid) rest
  pub propagated :
      (status : ExitStatus) → os.wait pid ≡ ok status → result ≡ some (ok (exit_code_of status))

-- The creation of the relay's thread panicked: the child was started, and nothing more was done.
pub record IsAbandoned (os : System) (command : Command) (events : List Event)
    (result : Option (Result ExecError ℕ)) : Type 0 where
  pub refused : os.relay_starts ≡ false
  pub left : ℕ
  pub events_eq : events ≡ registered forwarded_signals ∷ spawned left command ∷ []
  pub panicked : result ≡ none

pub record IsUnstarted (runtime : String) (events : List Event)
    (result : Option (Result ExecError ℕ)) : Type 0 where
  pub childless : All IsChildless events
  pub source : String
  pub reported : result ≡ some (err (record { runtime = runtime; source = source }))

attend-IsAttended :
    (os : System) (command : Command) (runtime : String) (pid : ℕ)
    → os.relay_starts ≡ true
    → IsAttended os command
        (registered forwarded_signals ∷ spawned pid command ∷ (attend os runtime pid).0)
        (attend os runtime pid).1
unfolding attend
attend-IsAttended os command runtime pid starts =
    let (own, unorphaned, propagated) = finish_lem runtime pid (os.wait pid) in
    let last = (finish runtime pid (os.wait pid)).0 in
    let behind = relay pid os.late ++ closed ∷ joined ∷ last in
    rw starts (record {
      pid = pid;
      rest = relay pid os.caught ++ waited pid ∷ behind;
      events_eq = refl;
      own = All-joined pid (relay pid os.caught) (waited pid ∷ behind) (relay-IsFor pid os.caught) (
        refl,
        All-joined pid (relay pid os.late) (closed ∷ joined ∷ last) (relay-IsFor pid os.late)
            (tt, (tt, own)),
      );
      reaped =
          Any-behind (λ x. x ≡ waited pid) (relay pid os.caught) (waited pid ∷ behind) (inl refl);
      relayed_all =
          relayed_in-relay pid os.caught (waited pid ∷ behind)
          ∙ ap (λ s. os.caught ++ s)
              (relayed_in-relay pid os.late (closed ∷ joined ∷ last)
                ∙ ap (λ s. os.late ++ s) (relayed_in-finish runtime pid (os.wait pid))
                ∙ append-nil os.late);
      unorphaned = λ e h.
          Any-behind (λ x. x ≡ terminated pid) (relay pid os.caught) (waited pid ∷ behind)
            (inr (
              Any-behind (λ x. x ≡ terminated pid) (relay pid os.late) (closed ∷ joined ∷ last)
                (inr (inr (unorphaned e (cc))))));
      propagated = λ status waited_for. ap some (propagated status waited_for);
    })

attend-refused :
    (os : System) (runtime : String) (pid : ℕ)
    → os.relay_starts ≡ false
    → attend os runtime pid ≡ ([], none)
unfolding attend
attend-refused os runtime pid refused = rw refused refl

pub supervise_lem :
    (os : System) (command : Command) (runtime : String)
    → let (events, result) = supervise os command runtime in
      IsAttended os command events result
      ⊎ (IsAbandoned os command events result ⊎ IsUnstarted runtime events result)
unfolding supervise
supervise_lem os command runtime = elim (Result-cases (os.register forwarded_signals)) [
  | inr (source, refused) ↦
      rw (refused, supervise)
        (inr (inr (record { childless = tt; source = source; reported = refl })))
  | inl (_, ready) ↦ elim (Result-cases (os.spawn command)) [
    | inr (source, refused) ↦
        rw (ready, refused, supervise)
          (inr (inr (record { childless = (tt, (tt, tt)); source = source; reported = refl })))
    | inl (pid, started) ↦ elim (Bool-cases os.relay_starts) [
      | inl starts ↦
          rw (ready, started, supervise) (inl (attend-IsAttended os command runtime pid starts))
      | inr refused ↦
          rw (ready, started, supervise, attend-refused os runtime pid refused)
            (inr
              (inl (record { refused = refused; left = pid; events_eq = refl; panicked = refl })))
    ]
  ]
]

-- The supervision of an invocation never fails to have a program: it is the supervision of the
-- command that `build_argv` describes, with the direct entries and then the proxied ones set.
pub supervise_runtime-eq :
    (os : System) (context : DockerContext) (policy : CommandPolicy)
    (environment : List (EnvName × Secret)) (proxied : List (EnvName × String))
    (user_args : List String)
    → (arguments : List String) × (build_argv context policy user_args
        ≡ context.runtime ∷ arguments)
      × (supervise_runtime os context policy environment proxied user_args
          ≡ some (
              supervise os
                (apply_proxy_environment proxied (
                  apply_injected_environment environment (record {
                    program = context.runtime;
                    arguments = arguments;
                    environment = [];
                  })))
                context.runtime))
unfolding supervise_runtime command_of
supervise_runtime-eq os context policy environment proxied user_args = (
  _,
  build_argv-eq context policy user_args,
  rw (build_argv-eq context policy user_args, supervise_runtime, command_of) refl,
)
