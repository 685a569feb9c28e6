-- ===== src/Main/Panics.antt =====
-- src/main.rs: an execution does not panic.
use iwaya.Prelude.{String, List, ◌≡◌, ◌≢◌, true, sym, inl, inr, Result-cases, ◌∙◌}
use iwaya.Config.{Config, DockerContext, CommandPolicy}
use iwaya.Run.{System, Command, forwarded_signals, finish, attend, supervise}
use iwaya.Main.{Invocation}
use iwaya.Main.Execute.{execute}
use iwaya.Main.Surroundings.{World, Event, Outcome, panicked, outcome_of}
use iwaya.Main.Ways.{
  IsExecuted, unresolved, direct, proxied, IsDirect, stayed, taken_over, IsProxied, unprovisioned,
  unprepared, unattended, served,
}
use iwaya.Main.Outcomes.{IsInvoked, unloaded, no_context, no_command, executed, execute-IsInvoked}

outcome_of-ne-panicked :
    (os : System) (command : Command) (runtime : String)
    → os.relay_starts ≡ true
    → outcome_of (supervise os command runtime).1 ≢ panicked
unfolding supervise attend
outcome_of-ne-panicked os command runtime starts =
    elim (Result-cases (os.register forwarded_signals)) [
      | inr (source, refused) ↦ rw (refused, supervise) (λ h. cc)
      | inl (_, ready) ↦ elim (Result-cases (os.spawn command)) [
        | inr (source, refused) ↦ rw (ready, refused, supervise) (λ h. cc)
        | inl (pid, spawned) ↦
            rw (ready, spawned, supervise, starts)
              (elim (Result-cases (finish runtime pid (os.wait pid)).1) [
                | inl (code, done) ↦ rw done (λ h. cc)
                | inr (e, failed) ↦ rw failed (λ h. cc)
              ])
      ]
    ]

module _ (w : World) (configuration : Config) (context : DockerContext) (policy : CommandPolicy)
    (args : List String) (starts : w.system.relay_starts ≡ true) where
  IsDirect-ne-panicked :
      {events : List Event} {outcome : Outcome}
      → IsDirect w configuration context policy args events outcome
      → outcome ≢ panicked
  IsDirect-ne-panicked (stayed e _ reported) = λ h. cc
  IsDirect-ne-panicked (taken_over environment command _ _ _ _ gone) = λ h. cc

  IsProxied-ne-panicked :
      {events : List Event} {outcome : Outcome}
      → IsProxied w configuration context policy args events outcome
      → outcome ≢ panicked
  IsProxied-ne-panicked (unprovisioned e _ _ _ reported) = λ h. cc
  IsProxied-ne-panicked (unprepared e _ _ reported) = λ h. cc
  IsProxied-ne-panicked (unattended provisioned image e _ _ _ reported) = λ h. cc
  IsProxied-ne-panicked
        (served environment provisioned image attendant bare command _ _ _ _ _ _ _ ended) =
      λ h. outcome_of-ne-panicked w.system command context.runtime starts (sym ended ∙ h)

  IsExecuted-ne-panicked :
      {events : List Event} {outcome : Outcome}
      → IsExecuted w configuration context policy args events outcome
      → outcome ≢ panicked
  IsExecuted-ne-panicked (unresolved commands e _ _ reported) = λ h. cc
  IsExecuted-ne-panicked (direct commands rest _ _ it) = IsDirect-ne-panicked it
  IsExecuted-ne-panicked (proxied commands rest _ _ it) = IsProxied-ne-panicked it

IsInvoked-ne-panicked :
    (w : World) (invocation : Invocation) {events : List Event} {outcome : Outcome}
    → w.system.relay_starts ≡ true
    → IsInvoked w invocation events outcome
    → outcome ≢ panicked
IsInvoked-ne-panicked w invocation starts (unloaded e _ _ reported) = λ h. cc
IsInvoked-ne-panicked w invocation starts (no_context c _ _ _ reported) = λ h. cc
IsInvoked-ne-panicked w invocation starts (no_command c _ _ _ reported) = λ h. cc
IsInvoked-ne-panicked w invocation starts (executed c context policy _ _ _ it) =
    IsExecuted-ne-panicked w c context policy invocation.args starts it

-- If the operating system creates the relay's thread, an execution ends without a panic, whatever its
-- other surroundings answer: the provider of every declaration is found, every value that is looked up
-- was resolved, and the runtime's arguments are never empty.
pub execute-ne-panicked :
    (w : World) (invocation : Invocation)
    → w.system.relay_starts ≡ true
    → (execute w invocation).1 ≢ panicked
execute-ne-panicked w invocation starts =
    IsInvoked-ne-panicked w invocation starts (execute-IsInvoked w invocation)
