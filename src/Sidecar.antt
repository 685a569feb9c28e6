-- ===== src/Sidecar.antt =====
-- src/sidecar.rs: the start and the removal of the sidecar's container.
pub mod Lifetime
pub mod Handover
pub mod Handshake
mod Tests
use iwaya.Prelude.{
  ℕ, String, ◌<>◌, List, [], ◌∷◌, ◌++◌, Option, none, some, Result, ok, err, ◌>>=◌, map_err, ok_or,
  ◌>>◌, ensure, not, if◌then◌else◌,
}
use iwaya.Text.{is_empty, contains_char}
use iwaya.Text.Number.{hex}
use iwaya.Run.{Command}
use iwaya.Bws.Diagnostic.{trim_end}

-- `Sidecar`, without the handle of its process
pub record Sidecar : Type 0 where
  pub runtime : String
  pub container_name : String
  pub port : ℕ

-- `SidecarError`; an I/O error is the text that it displays.
pub data SidecarError : Type 0 where
  unnamed : SidecarError
  transfer_not_single_line : SidecarError
  unstarted : (runtime source : String) → SidecarError
  undelivered : (source : String) → SidecarError
  exited_before_ready : SidecarError
  unreadable_readiness : (source : String) → SidecarError
  unusable_readiness : SidecarError

-- `SidecarError`'s `Display`
unfoldable pub show_sidecar_error : SidecarError → String
show_sidecar_error unnamed = "cannot name the proxy sidecar: no usable OS entropy source"
show_sidecar_error transfer_not_single_line = "the proxy transfer document is not a single line"
show_sidecar_error (unstarted runtime source) =
    "cannot start runtime '" <> runtime <> "': " <> source
show_sidecar_error (undelivered source) = "cannot deliver the proxy transfer: " <> source
show_sidecar_error exited_before_ready = "the proxy sidecar exited before reporting readiness"
show_sidecar_error (unreadable_readiness source) =
    "cannot read the proxy sidecar readiness: " <> source
show_sidecar_error unusable_readiness = "the proxy sidecar reported unusable readiness"

-- `READINESS_LIMIT`
abbrev pub readiness_limit : ℕ
readiness_limit = 256

-- What the start is answered. `write` is a write to the sidecar's standard input, `read_line` the
-- reading of a line of at most so many bytes, the empty text if there is none, and `parse_readiness`
-- the JSON library's reading of a port.
pub record Host : Type 0 where
  pub fill : ℕ → Result String (List ℕ)
  pub spawn : Command → Result String (Unit {0})
  pub write : String → Result String (Unit {0})
  pub read_line : (limit : ℕ) → Result String String
  pub parse_readiness : String → Option ℕ

-- What is done to the container's process and to the container, in order. A write that fails is not
-- listed.
pub data Event : Type 0 where
  spawned : Command → Event
  wrote : String → Event
  ran : Command → Event
  reaped : Event

-- `ephemeral_name`
unfoldable pub ephemeral_name : Host → Result SidecarError String
ephemeral_name os = do
  random ← map_err (λ _. unnamed) (os.fill 8)
  ok ("iwaya-proxy-" <> hex random)

-- The command that starts the container.
unfoldable pub run_command : (runtime image target_container container_name : String) → Command
run_command runtime image target_container container_name = record {
  program = runtime;
  arguments =
      "run"
      ∷ "--rm"
      ∷ "--interactive"
      ∷ "--network"
      ∷ ("container:" <> target_container)
      ∷ "--name"
      ∷ container_name
      ∷ image
      ∷ [];
  environment = [];
}

-- `teardown`, which dropping a sidecar does
unfoldable pub teardown : Sidecar → List Event
teardown sidecar =
    ran (record {
      program = sidecar.runtime;
      arguments = "rm" ∷ "--force" ∷ sidecar.container_name ∷ [];
      environment = [];
    })
    ∷ reaped
    ∷ []

-- The delivery on standard input: the document, and the line ending.
unfoldable pub deliver : Host → String → List Event × Result String (Unit {0})
deliver os transfer = elim (os.write transfer) [
  | err source ↦ ([], err source)
  | ok _ ↦ elim (os.write "\n") [
    | err source ↦ (wrote transfer ∷ [], err source)
    | ok _ ↦ (wrote transfer ∷ wrote "\n" ∷ [], ok tt)
  ]
]

-- What follows the delivery: the sidecar with the port that it announces.
unfoldable pub await_readiness :
    Host → Sidecar → Result String (Unit {0}) → Result SidecarError Sidecar
await_readiness os sidecar delivery = do
  _ ← map_err undelivered delivery
  readiness ← map_err unreadable_readiness (os.read_line readiness_limit)
  ensure (not (is_empty readiness)) exited_before_ready
  port ← ok_or unusable_readiness (os.parse_readiness (trim_end readiness))
  ok (record sidecar { port = port })

-- A failure drops the sidecar.
abbrev pub dropped : Sidecar → Result SidecarError Sidecar → List Event
dropped sidecar (ok _) = []
dropped sidecar (err _) = teardown sidecar

-- `Sidecar::start` behind the spawn
unfoldable pub attach : Host → Sidecar → String → List Event × Result SidecarError Sidecar
attach os sidecar transfer =
    let (delivered, delivery) = deliver os transfer in
    let result = await_readiness os sidecar delivery in
    (delivered ++ dropped sidecar result, result)

-- `Sidecar::start`
unfoldable pub start :
    Host
    → (runtime image target_container transfer : String) → List Event × Result SidecarError Sidecar
start os runtime image target_container transfer =
    if contains_char transfer b'\n'
    then ([], err transfer_not_single_line)
    else elim (ephemeral_name os) [
      | err e ↦ ([], err e)
      | ok container_name ↦
          let command = run_command runtime image target_container container_name in
          elim (os.spawn command) [
            | err source ↦ ([], err (unstarted runtime source))
            | ok _ ↦
                let (events, result) =
                  attach os
                    (record { runtime = runtime; container_name = container_name; port = 0 })
                    transfer in
                (spawned command ∷ events, result)
          ]
    ]
