-- ===== src/Run.antt =====
-- src/run.rs: the invocation of the container runtime, and its supervision.
pub mod Invocation
pub mod Delivery
pub mod Supervision
pub mod InPlace
pub mod Ended
mod Tests
use iwaya.Prelude.{
  ℕ, ◌+◌, ◌%◌, ◌^◌, String, ◌<>◌, List, [], ◌∷◌, ◌++◌, Option, none, some, Result, ok, err, ◌>>=◌,
  push, unwrap_or, map, Bool, if◌then◌else◌,
}
use iwaya.Config.{EnvName, DockerContext, CommandPolicy, SecretSpec, ProxySecretSpec}
use iwaya.Secret.{Secret}

-- The first loop of `build_argv`.
unfoldable pub secret_options : List SecretSpec → List String → List String
secret_options [] argv = argv
secret_options (secret ∷ rest) argv =
    secret_options rest (push (push argv "--env") secret.env_name.name)

-- The second loop.
unfoldable pub proxy_secret_options : List ProxySecretSpec → List String → List String
proxy_secret_options [] argv = argv
proxy_secret_options (secret ∷ rest) argv =
    proxy_secret_options rest
      (push (push (push (push argv "--env") secret.env_name.name) "--env") secret.base_url_env.name)

-- `build_argv`
unfoldable pub build_argv : DockerContext → CommandPolicy → List String → List String
build_argv context policy user_args =
    let start = context.runtime ∷ "exec" ∷ "--interactive" ∷ "--tty" ∷ [] in
    let direct = secret_options policy.secrets start in
    let options = proxy_secret_options policy.proxy_secrets direct in
    push
      (push (push (push (push (push options "--user") context.user) "--workdir") context.workdir)
        context.container_name)
      policy.id.id
    ++ user_args

-- `ExecError`; an I/O error is the text that it displays.
pub record ExecError : Type 0 where
  pub runtime : String
  pub source : String

unfoldable pub show_exec_error : ExecError → String
show_exec_error e = "cannot start runtime '" <> e.runtime <> "': " <> e.source

-- A `std::process::Command`: the program, its arguments, and the environment entries that are set
-- for it, the latest first.
pub record Command : Type 0 where
  pub program : String
  pub arguments : List String
  pub environment : List (String × String)

-- `Command::env`: the entry hides an earlier one of its name.
abbrev pub env : String → String → Command → Command
env name value command = record command { environment = (name, value) ∷ command.environment }

-- `Secret::deliver_to_subprocess_env`
abbrev pub deliver_to_subprocess_env : Secret → String → Command → Command
deliver_to_subprocess_env secret name command = env name secret.value command

-- `Command::new(&argv[0])` with `args(&argv[1..])`; `none` is the panic on an empty list.
unfoldable pub command_of : List String → Option Command
command_of [] = none
command_of (program ∷ arguments) =
    some (record { program = program; arguments = arguments; environment = [] })

-- `apply_injected_environment`
unfoldable pub apply_injected_environment : List (EnvName × Secret) → Command → Command
apply_injected_environment [] command = command
apply_injected_environment ((name, value) ∷ rest) command =
    apply_injected_environment rest (deliver_to_subprocess_env value name.name command)

-- `apply_proxy_environment`
unfoldable pub apply_proxy_environment : List (EnvName × String) → Command → Command
apply_proxy_environment [] command = command
apply_proxy_environment ((name, value) ∷ rest) command =
    apply_proxy_environment rest (env name.name value command)

-- An `ExitStatus`: the code of a normal exit, or the signal, if there is one.
pub data ExitStatus : Type 0 where
  exited : (code : ℕ) → ExitStatus
  killed : Option ℕ → ExitStatus

-- `exit_code_of`: the casts keep eight bits, and the addition wraps.
unfoldable pub exit_code_of : ExitStatus → ℕ
exit_code_of (exited code) = code % 2 ^ 8
exit_code_of (killed signal) = (128 + unwrap_or 0 signal % 2 ^ 8) % 2 ^ 8

-- What the operating system answers. `replaced` is the process image's replacement, from which
-- `exec` does not return.
pub data Exec : Type 0 where
  replaced : Exec
  returned : (source : String) → Exec

-- `caught` are the signals that the relay's iterator yields until the wait returns, and `late` those
-- that it yields from then until it is closed.
pub record System : Type 0 where
  pub exec : Command → Exec
  pub register : List ℕ → Result String (Unit {0})
  pub spawn : Command → Result String ℕ
  pub caught : List ℕ
  pub late : List ℕ
  pub relay_starts : Bool
  pub wait : (pid : ℕ) → Result String ExitStatus

-- What the supervision does to its surroundings, in order.
pub data Event : Type 0 where
  registered : List ℕ → Event
  spawned : (pid : ℕ) → Command → Event
  relayed : (pid signal : ℕ) → Event
  waited : (pid : ℕ) → Event
  closed : Event
  joined : Event
  terminated : (pid : ℕ) → Event

-- `FORWARDED_SIGNALS`: SIGINT, SIGTERM, SIGHUP and SIGQUIT
abbrev pub forwarded_signals : List ℕ
forwarded_signals = 2 ∷ 15 ∷ 1 ∷ 3 ∷ []

-- The relay's loop.
unfoldable pub relay : ℕ → List ℕ → List Event
relay pid signals = map (λ signal. relayed pid signal) signals

-- `exec_runtime`; the last case is the execution of the runtime in this process's place.
pub data Replacement : Type 0 where
  failed : ExecError → Replacement
  became : Command → Replacement

unfoldable pub exec_runtime :
    System
    → DockerContext
    → CommandPolicy
    → List (EnvName × Secret)
    → List String
    → Option Replacement
exec_runtime os context policy environment user_args =
    elim (command_of (build_argv context policy user_args)) [
      | none ↦ none
      | some bare ↦
          let command = apply_injected_environment environment bare in
          elim (os.exec command) [
            | replaced ↦ some (became command)
            | returned source ↦
                some (failed (record { runtime = context.runtime; source = source }))
          ]
    ]

-- The end of `supervise`, on the result of the wait.
unfoldable pub finish : String → ℕ → Result String ExitStatus → List Event × Result ExecError ℕ
finish runtime pid (ok status) = ([], ok (exit_code_of status))
finish runtime pid (err source) =
    (terminated pid ∷ waited pid ∷ [], err (record { runtime = runtime; source = source }))

-- `supervise`, after the child is there. Where the relay's thread cannot be created, `thread::spawn`
-- panics: the child is then neither waited for nor terminated, and there is no result.
unfoldable pub attend : System → String → ℕ → List Event × Option (Result ExecError ℕ)
attend os runtime pid =
    let (events, result) = finish runtime pid (os.wait pid) in
    if os.relay_starts
    then (
      relay pid os.caught ++ waited pid ∷ (relay pid os.late ++ closed ∷ joined ∷ events),
      some result,
    )
    else ([], none)

-- `supervise`
unfoldable pub supervise : System → Command → String → List Event × Option (Result ExecError ℕ)
supervise os command runtime = elim (os.register forwarded_signals) [
  | err source ↦ ([], some (err (record { runtime = runtime; source = source })))
  | ok _ ↦ elim (os.spawn command) [
    | err source ↦ (
      registered forwarded_signals ∷ closed ∷ [],
      some (err (record { runtime = runtime; source = source })),
    )
    | ok pid ↦
        let (events, result) = attend os runtime pid in
        (registered forwarded_signals ∷ spawned pid command ∷ events, result)
  ]
]

-- `supervise_runtime`
unfoldable pub supervise_runtime :
    System
    → DockerContext
    → CommandPolicy
    → List (EnvName × Secret)
    → List (EnvName × String)
    → List String
    → Option (List Event × Option (Result ExecError ℕ))
supervise_runtime os context policy environment proxy_environment user_args =
    elim (command_of (build_argv context policy user_args)) [
      | none ↦ none
      | some bare ↦
          let command =
            apply_proxy_environment proxy_environment
              (apply_injected_environment environment bare) in
          some (supervise os command context.runtime)
    ]
