-- ===== src/Main/Exit.antt =====
-- src/main.rs: `main`, and the end of the process in each execution mode.
use iwaya.Prelude.{
  Bool, true, false, ℕ, String, ◌<>◌, List, [], Option, none, some, Result, ok, err,
}
use iwaya.Run.{Command}
use iwaya.Proxy.{show_proxy_mode_error}
use iwaya.Proxy.Start.{Surroundings, run_proxy_mode}
use iwaya.Main.{exit_code, exit_execution, message}
use iwaya.Main.Execute.{execute}
use iwaya.Main.Surroundings.{World, Event, Outcome, finished, refused, became, panicked}

-- `Cli`
pub data Cli : Type 0 where
  exec : (context command : String) (args : List String) → Cli
  proxy : Cli

-- An error of the command line's parser: its kind, and the code that `error.exit()` leaves with.
pub data ErrorKind : Type 0 where
  missing_subcommand : ErrorKind
  display_help_on_missing_argument_or_subcommand : ErrorKind
  other_kind : ErrorKind

pub record ParseError : Type 0 where
  pub kind : ErrorKind
  pub code : ℕ

-- How the process ends: with a code and perhaps a line on its standard error, with the help on its
-- standard output, with the parser's own message, as another program, or in a panic.
pub data Ending : Type 0 where
  exits : (code : ℕ) (stderr : Option String) → Ending
  helps : (code : ℕ) → Ending
  misused : (code : ℕ) → Ending
  replaced : Command → Ending
  aborts : Ending

-- `eprintln!` and the code behind it; it panics if standard error cannot be written.
abbrev pub report : Bool → (code : ℕ) → String → Ending
report true code line = exits code (some line)
report false code line = aborts

-- The match on the result of `execute`.
unfoldable pub ending_of : Bool → Outcome → Ending
ending_of stderr_writes (finished code) = exits code none
ending_of stderr_writes (refused failure) =
    report stderr_writes (exit_code failure) ("iwaya: error: " <> message failure)
ending_of stderr_writes (became command) = replaced command
ending_of stderr_writes panicked = aborts

-- `run_exec`
unfoldable pub run_exec : World → (context command : String) → List String → List Event × Ending
run_exec w context command args =
    let (events, outcome) = execute w (record {
      context = record { id = context };
      command = record { id = command };
      args = args;
    }) in
    (events, ending_of w.stderr_writes outcome)

-- `run_proxy`; it ends when `serve` returns.
unfoldable pub run_proxy : World → Surroundings → Ending
run_proxy w os = elim ((run_proxy_mode w.serde os).result) [
  | ok _ ↦ exits 0 none
  | err e ↦ report w.stderr_writes exit_execution ("iwaya: error: " <> show_proxy_mode_error e)
]

-- The closure on a command line that does not parse.
unfoldable pub misuse : ParseError → Ending
misuse e = elim e.kind [
  | missing_subcommand ↦ helps 0
  | display_help_on_missing_argument_or_subcommand ↦ helps 0
  | other_kind ↦ misused e.code
]

-- `main`; what the parser makes of the command line is an argument.
unfoldable pub main : World → Surroundings → Result ParseError Cli → List Event × Ending
main w os (err e) = ([], misuse e)
main w os (ok (exec context command args)) = run_exec w context command args
main w os (ok proxy) = ([], run_proxy w os)
