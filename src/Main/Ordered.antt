-- ===== src/Main/Ordered.antt =====
-- src/main.rs: the events of an execution are an accepted order of its stages.
use iwaya.Prelude.{String, List, ◌++◌, map, ◌≡◌, sym, subst, inl, inr, ok, err, ◌∙◌}
use iwaya.Config.{Config, DockerContext, CommandPolicy}
use iwaya.Run.{Command}
use iwaya.Sidecar.{Sidecar, SidecarError, start}
use iwaya.Sidecar.Lifetime.{IsUp, start_lem}
use iwaya.Main.{Invocation}
use iwaya.Main.Execute.{execute}
use iwaya.Main.Surroundings.{World, Event, asked, attended, Outcome}
use iwaya.Main.Ways.{
  IsExecuted, unresolved, direct, proxied, IsDirect, stayed, taken_over, IsProxied, unprovisioned,
  unprepared, unattended, served,
}
use iwaya.Main.Outcomes.{IsInvoked, unloaded, no_context, no_command, executed, execute-IsInvoked}
use iwaya.Main.Stages.{
  asked-Steps, imaged-IsAccepted, prepared-Steps, IsUp-Steps, IsDown-IsAccepted, supervised-Steps,
}
use iwaya.Main.Protocol.{
  resolving, preparing, attached, over, Steps, here, Steps-append, IsAccepted,
}

module _ (w : World) (config : Config) (context : DockerContext) (policy : CommandPolicy)
    (args : List String) where
  -- After the resolution, whatever follows it.
  behind :
      (commands : List Command) (rest : List Event)
      → IsAccepted w.system.relay_starts resolving rest
      → IsAccepted w.system.relay_starts resolving (map asked commands ++ rest)
  behind commands rest (q, steps, settled) = (q, Steps-append (asked-Steps commands) steps, settled)

  IsDirect-IsAccepted :
      {events : List Event} {outcome : Outcome}
      → IsDirect w config context policy args events outcome
      → IsAccepted w.system.relay_starts resolving events
  IsDirect-IsAccepted (stayed e nothing _) = (resolving, rw nothing (here resolving), tt)
  IsDirect-IsAccepted (taken_over environment command _ _ _ nothing _) =
      (resolving, rw nothing (here resolving), tt)

  attended-IsAccepted :
      (image transfer : String) (e : SidecarError)
      → (start w.host context.runtime image context.container_name transfer).1 ≡ err e
      → IsAccepted w.system.relay_starts preparing
          (map attended (start w.host context.runtime image context.container_name transfer).0)
  attended-IsAccepted image transfer e h =
      elim (start_lem w.host context.runtime image context.container_name transfer) [
        | inl (sidecar, up, _) ↦ cc (sym up ∙ h)
        | inr (_, _, down) ↦ IsDown-IsAccepted context.runtime image context.container_name _ down
      ]

  attended-Steps :
      (image transfer : String) (sidecar : Sidecar)
      → (start w.host context.runtime image context.container_name transfer).1 ≡ ok sidecar
      → Steps w.system.relay_starts preparing
          (map attended (start w.host context.runtime image context.container_name transfer).0)
          (attached sidecar.runtime sidecar.container_name)
  attended-Steps image transfer sidecar h =
      elim (start_lem w.host context.runtime image context.container_name transfer) [
        | inr (e, failed, _) ↦ cc (sym h ∙ failed)
        | inl (other, up, is_up) ↦
            let it : other ≡ sidecar = cc in
            IsUp-Steps w.host context.runtime image context.container_name transfer _ sidecar
              (subst (IsUp w.host context.runtime image context.container_name transfer _) it is_up)
      ]

  IsProxied-IsAccepted :
      {events : List Event} {outcome : Outcome}
      → IsProxied w config context policy args events outcome
      → IsAccepted w.system.relay_starts resolving events
  IsProxied-IsAccepted (unprovisioned e _ _ nothing _) =
      (resolving, rw nothing (here resolving), tt)
  IsProxied-IsAccepted (unprepared e _ only _) = rw only (imaged-IsAccepted _)
  IsProxied-IsAccepted (unattended provisioned image e made not_up only _) =
      let (q, steps, settled) = attended-IsAccepted image _ e not_up in
      (
        q,
        rw only (
            Steps-append
              (prepared-Steps w.machine w.process w.sha256 w.version context.runtime image made)
              steps),
        settled,
      )
  IsProxied-IsAccepted
        (served environment provisioned image sidecar bare command _ _ made up _ _ only _) =
      (
        over,
        rw only (
            Steps-append
              (prepared-Steps w.machine w.process w.sha256 w.version context.runtime image made)
              (Steps-append (attended-Steps image _ sidecar up)
                (supervised-Steps w.system command context.runtime sidecar))),
        tt,
      )

  IsExecuted-IsAccepted :
      {events : List Event} {outcome : Outcome}
      → IsExecuted w config context policy args events outcome
      → IsAccepted w.system.relay_starts resolving events
  IsExecuted-IsAccepted (unresolved commands e _ only _) =
      (resolving, rw only (asked-Steps commands), tt)
  IsExecuted-IsAccepted (direct commands rest _ split it) =
      rw split (behind commands rest (IsDirect-IsAccepted it))
  IsExecuted-IsAccepted (proxied commands rest _ split it) =
      rw split (behind commands rest (IsProxied-IsAccepted it))

IsInvoked-IsAccepted :
    (w : World) (invocation : Invocation) {events : List Event} {outcome : Outcome}
    → IsInvoked w invocation events outcome
    → IsAccepted w.system.relay_starts resolving events
IsInvoked-IsAccepted w invocation (unloaded e _ nothing _) =
    (resolving, rw nothing (here resolving), tt)
IsInvoked-IsAccepted w invocation (no_context c _ _ nothing _) =
    (resolving, rw nothing (here resolving), tt)
IsInvoked-IsAccepted w invocation (no_command c _ _ nothing _) =
    (resolving, rw nothing (here resolving), tt)
IsInvoked-IsAccepted w invocation (executed c context policy _ _ _ it) =
    IsExecuted-IsAccepted w c context policy invocation.args it

-- Whatever an invocation meets, its events are steps of the machine of its stages from the resolution
-- on, up to a phase in which no sidecar is left: the secrets are resolved before an image is asked for,
-- the sidecar is started behind the image and in the presence of no other, the target is started only
-- while that sidecar is attached, and the same container is removed, and its process reaped, only when
-- no target was started, or the target was waited for, or the operating system could not create the
-- relay's thread and the target is left behind.
pub execute-IsAccepted :
    (w : World) (invocation : Invocation)
    → IsAccepted w.system.relay_starts resolving (execute w invocation).0
execute-IsAccepted w invocation = IsInvoked-IsAccepted w invocation (execute-IsInvoked w invocation)
