-- ===== src/Main/Surroundings.antt =====
-- src/main.rs: what an execution uses, what it does, and how it ends.
use iwaya.Prelude.{ℕ, String, List, Option, none, some, Bool, Result, ok, err}
use iwaya.Kdl.{Kdl}
use iwaya.Bws.{Shell}
use iwaya.Transfer.{Serde}
use iwaya.ProxyImage.Collection.{Process}
use iwaya.ProxyImage.Build.{Machine}
use iwaya.ProxyImage.Build.{Event as ImageEvent}
use iwaya.Sidecar.{Host}
use iwaya.Sidecar.{Event as SidecarEvent}
use iwaya.Run.{Command, System, ExecError}
use iwaya.Run.{Event as RunEvent}
use iwaya.Main.{Failure}

-- What an invocation uses of its surroundings, component by component. The entropy source is asked
-- several times, so its answer depends on the number of the calls before.
pub record World : Type 1 where
  pub kdl : Kdl
  pub var_os : String → Option String
  pub read_to_string : String → Result String String
  pub shell : Shell
  pub fill : ℕ → ℕ → Result String (List ℕ)
  pub machine : Machine
  pub process : Process
  pub sha256 : List ℕ → List ℕ
  pub version : String
  pub serde : Serde
  pub host : Host
  pub system : System
  -- a line on standard error can be written
  pub stderr_writes : Bool

-- What an execution does: the commands of the resolution, and what the other components do.
pub data Event : Type 0 where
  asked : Command → Event
  imaged : ImageEvent → Event
  attended : SidecarEvent → Event
  supervised : RunEvent → Event

-- How an execution ends: with `Ok` or `Err`, with another program in this process's place, or in a
-- panic, of an `unreachable!`, of an `expect` or of the creation of a thread.
pub data Outcome : Type 0 where
  finished : (code : ℕ) → Outcome
  refused : Failure → Outcome
  became : Command → Outcome
  panicked : Outcome

-- The result of the supervision, as that of the execution.
abbrev pub outcome_of : Option (Result ExecError ℕ) → Outcome
outcome_of none = panicked
outcome_of (some (err e)) = refused (Failure.execution e)
outcome_of (some (ok code)) = finished code
