-- ===== src/Main/Protocol.antt =====
-- src/main.rs: the order of an execution's stages as an abstract machine, which the events step.
use iwaya.Prelude.{ℕ, String, Bool, false, List, [], ◌∷◌, ◌++◌, ◌≡◌}
use iwaya.Run.{Command}
use iwaya.Run.{Event as RunEvent, waited}
use iwaya.Run.{spawned as run_spawned}
use iwaya.Run.Supervision.{IsFor, IsChildless}
use iwaya.Sidecar.{run_command, spawned, wrote, ran, reaped}
use iwaya.ProxyImage.Build.{Event as ImageEvent}
use iwaya.Main.Surroundings.{Event, asked, imaged, attended, supervised}

-- The secrets are resolved, the image is prepared, the sidecar of this name is attached, the target
-- runs in its presence and has ended, the sidecar is removed.
pub data Phase : Type 0 where
  resolving : Phase
  preparing : Phase
  attached : (runtime name : String) → Phase
  running : (runtime name : String) (pid : ℕ) → Phase
  ended : (runtime name : String) (pid : ℕ) → Phase
  removing : Phase
  over : Phase

-- The removal of a container by its name.
abbrev pub remove_command : (runtime name : String) → Command
remove_command runtime name = record {
  program = runtime;
  arguments = "rm" ∷ "--force" ∷ name ∷ [];
  environment = [];
}

-- A step, where the relay's thread is created or not: only where it is not, the sidecar is removed in the
-- presence of its target.
pub data Step (relays : Bool) : Phase → Event → Phase → Type 0 where
  ask : (command : Command) → Step relays resolving (asked command) resolving
  begin : (event : ImageEvent) → Step relays resolving (imaged event) preparing
  prepare : (event : ImageEvent) → Step relays preparing (imaged event) preparing
  attach :
      (runtime image target name : String) (command : Command)
      → command ≡ run_command runtime image target name
      → Step relays preparing (attended (spawned command)) (attached runtime name)
  write :
      (runtime name text : String)
      → Step relays (attached runtime name) (attended (wrote text)) (attached runtime name)
  watch :
      (runtime name : String) (event : RunEvent)
      → IsChildless event
      → Step relays (attached runtime name) (supervised event) (attached runtime name)
  run :
      (runtime name : String) (pid : ℕ) (command : Command)
      → Step relays
          (attached runtime name)
          (supervised (run_spawned pid command))
          (running runtime name pid)
  follow :
      (runtime name : String) (pid : ℕ) (event : RunEvent)
      → IsFor pid event
      → Step relays (running runtime name pid) (supervised event) (running runtime name pid)
  reap :
      (runtime name : String) (pid : ℕ)
      → Step relays (running runtime name pid) (supervised (waited pid)) (ended runtime name pid)
  settle :
      (runtime name : String) (pid : ℕ) (event : RunEvent)
      → IsFor pid event
      → Step relays (ended runtime name pid) (supervised event) (ended runtime name pid)
  remove :
      (runtime name : String) (command : Command)
      → command ≡ remove_command runtime name
      → Step relays (attached runtime name) (attended (ran command)) removing
  remove_behind :
      (runtime name : String) (pid : ℕ) (command : Command)
      → command ≡ remove_command runtime name
      → Step relays (ended runtime name pid) (attended (ran command)) removing
  abandon :
      (runtime name : String) (pid : ℕ) (command : Command)
      → relays ≡ false
      → command ≡ remove_command runtime name
      → Step relays (running runtime name pid) (attended (ran command)) removing
  finish : Step relays removing (attended reaped) over

pub data Steps (relays : Bool) : Phase → List Event → Phase → Type 0 where
  here : (p : Phase) → Steps relays p [] p
  next :
      {p q r : Phase} (event : Event) (events : List Event)
      → Step relays p event q
      → Steps relays q events r
      → Steps relays p (event ∷ events) r

pub Steps-append :
    {relays : Bool} {p q r : Phase} {xs ys : List Event}
    → Steps relays p xs q
    → Steps relays q ys r
    → Steps relays p (xs ++ ys) r
Steps-append (here p) k = k
Steps-append (next event events s h) k = next event _ s (Steps-append h k)

-- No sidecar is left.
abbrev pub IsSettled : Phase → Type 0
IsSettled resolving = Unit
IsSettled preparing = Unit
IsSettled over = Unit
IsSettled (attached runtime name) = ⊥
IsSettled (running runtime name pid) = ⊥
IsSettled (ended runtime name pid) = ⊥
IsSettled removing = ⊥

-- An accepted order that ends settled, from a phase.
abbrev pub IsAccepted : Bool → Phase → List Event → Type 0
IsAccepted relays p events = (q : Phase) × Steps relays p events q × IsSettled q
