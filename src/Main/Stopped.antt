-- ===== src/Main/Stopped.antt =====
-- src/main.rs: what an invocation that fails has done before.
use iwaya.Prelude.{
  ℕ, String, List, [], ◌∷◌, ◌++◌, map, ◌≡◌, refl, sym, subst, Option, none, some, Result, ok, err,
  ◌∙◌, All, All-append_iff,
}
use iwaya.Config.{Config, DockerContext, CommandPolicy}
use iwaya.Run.{Command, ExecError}
use iwaya.Main.{
  Failure, exit_code, config, unknown_context, unknown_command, resolution, provision, proxy_image,
  sidecar, execution, Invocation,
}
use iwaya.Main.Execute.{execute}
use iwaya.Main.Surroundings.{
  World, Event, asked, imaged, attended, supervised, Outcome, refused, outcome_of,
}
use iwaya.Main.Ways.{
  IsExecuted, unresolved, direct, proxied, IsDirect, stayed, taken_over, IsProxied, unprovisioned,
  unprepared, unattended, served,
}
use iwaya.Main.Outcomes.{IsInvoked, unloaded, no_context, no_command, executed, execute-IsInvoked}

-- What a failure of each kind lets happen before it: no selection touches anything, a resolution and a
-- provisioning only the commands of the resolution, an image no sidecar, and a sidecar no target.
abbrev pub IsAsked : Event → Type 0
IsAsked (asked command) = Unit
IsAsked (imaged event) = ⊥
IsAsked (attended event) = ⊥
IsAsked (supervised event) = ⊥

abbrev pub IsPrepared : Event → Type 0
IsPrepared (asked command) = Unit
IsPrepared (imaged event) = Unit
IsPrepared (attended event) = ⊥
IsPrepared (supervised event) = ⊥

abbrev pub IsUnsupervised : Event → Type 0
IsUnsupervised (asked command) = Unit
IsUnsupervised (imaged event) = Unit
IsUnsupervised (attended event) = Unit
IsUnsupervised (supervised event) = ⊥

abbrev pub IsStopped : Failure → List Event → Type 0
IsStopped (config e) events = events ≡ []
IsStopped (unknown_context id) events = events ≡ []
IsStopped (unknown_command id) events = events ≡ []
IsStopped (resolution e) events = All IsAsked events
IsStopped (provision e) events = All IsAsked events
IsStopped (proxy_image e) events = All IsPrepared events
IsStopped (sidecar e) events = All IsUnsupervised events
IsStopped (execution e) events = Unit

-- The code of each kind of failure.
abbrev pub IsCodeOf : Failure → ℕ → Type 0
IsCodeOf (config e) code = code ≡ 3
IsCodeOf (unknown_context id) code = code ≡ 4
IsCodeOf (unknown_command id) code = code ≡ 4
IsCodeOf (resolution e) code = code ≡ 5
IsCodeOf (provision e) code = code ≡ 6
IsCodeOf (proxy_image e) code = code ≡ 6
IsCodeOf (sidecar e) code = code ≡ 6
IsCodeOf (execution e) code = code ≡ 6

pub exit_code-IsCodeOf : (failure : Failure) → IsCodeOf failure (exit_code failure)
unfolding exit_code
exit_code-IsCodeOf (config e) = refl
exit_code-IsCodeOf (unknown_context id) = refl
exit_code-IsCodeOf (unknown_command id) = refl
exit_code-IsCodeOf (resolution e) = refl
exit_code-IsCodeOf (provision e) = refl
exit_code-IsCodeOf (proxy_image e) = refl
exit_code-IsCodeOf (sidecar e) = refl
exit_code-IsCodeOf (execution e) = refl

All-of_each {ℓ κ} :
    {A : Type ℓ} {B : Type κ} (P : B → Type 0) (f : A → B)
    → ((x : A) → P (f x))
    → (xs : List A) → All P (map f xs)
All-of_each P f h [] = tt
All-of_each P f h (x ∷ xs) = (h x, All-of_each P f h xs)

All-both : (P : Event → Type 0) (xs ys : List Event) → All P xs → All P ys → All P (xs ++ ys)
All-both P xs ys h k = (All-append_iff P xs ys).1 (h, k)

same_failure :
    {outcome : Outcome} {f g : Failure} → outcome ≡ refused f → outcome ≡ refused g → f ≡ g
same_failure h k = cc

outcome_of-refused :
    (r : Option (Result ExecError ℕ)) {f : Failure}
    → outcome_of r ≡ refused f
    → (e : ExecError) × (f ≡ execution e)
outcome_of-refused none h = cc
outcome_of-refused (some (ok code)) h = cc
outcome_of-refused (some (err e)) h = (e, cc)

asked-IsAsked : (commands : List Command) → All IsAsked (map asked commands ++ [])
asked-IsAsked commands =
    All-both IsAsked (map asked commands) [] (All-of_each IsAsked asked (λ c. tt) commands) tt

module _ (w : World) (configuration : Config) (context : DockerContext) (policy : CommandPolicy)
    (args : List String) (f : Failure) where
  IsDirect-IsStopped :
      (commands : List Command) {rest : List Event} {outcome : Outcome}
      → IsDirect w configuration context policy args rest outcome
      → outcome ≡ refused f
      → IsStopped f (map asked commands ++ rest)
  IsDirect-IsStopped commands {rest} (stayed e nothing reported) h =
      subst (λ g. IsStopped g (map asked commands ++ rest)) (same_failure reported h) tt
  IsDirect-IsStopped commands (taken_over environment command each target instead nothing gone) h =
      cc

  IsProxied-IsStopped :
      (commands : List Command) {rest : List Event} {outcome : Outcome}
      → IsProxied w configuration context policy args rest outcome
      → outcome ≡ refused f
      → IsStopped f (map asked commands ++ rest)
  IsProxied-IsStopped commands {rest} (unprovisioned e _ _ nothing reported) h =
      subst (λ g. IsStopped g (map asked commands ++ rest)) (same_failure reported h)
        (rw nothing (asked-IsAsked commands))
  IsProxied-IsStopped commands {rest} (unprepared e _ only reported) h =
      subst (λ g. IsStopped g (map asked commands ++ rest)) (same_failure reported h)
        (rw only (
          All-both IsPrepared (map asked commands) (map imaged _)
            (All-of_each IsPrepared asked (λ c. tt) commands)
            (All-of_each IsPrepared imaged (λ c. tt) _)))
  IsProxied-IsStopped commands {rest} (unattended provisioned image e _ _ only reported) h =
      subst (λ g. IsStopped g (map asked commands ++ rest)) (same_failure reported h)
        (rw only (
          All-both IsUnsupervised (map asked commands) (map imaged _ ++ map attended _)
            (All-of_each IsUnsupervised asked (λ c. tt) commands)
            (All-both IsUnsupervised (map imaged _) (map attended _)
              (All-of_each IsUnsupervised imaged (λ c. tt) _)
              (All-of_each IsUnsupervised attended (λ c. tt) _))))
  IsProxied-IsStopped commands {rest}
        (served environment provisioned image attendant bare command _ _ _ _ _ _ _ ended) h =
      let (e, same) = outcome_of-refused _ (sym ended ∙ h) in
      subst (λ g. IsStopped g (map asked commands ++ rest)) (sym same) tt

  IsExecuted-IsStopped :
      {events : List Event} {outcome : Outcome}
      → IsExecuted w configuration context policy args events outcome
      → outcome ≡ refused f
      → IsStopped f events
  IsExecuted-IsStopped {events} (unresolved commands e _ only reported) h =
      subst (λ g. IsStopped g events) (same_failure reported h)
        (rw only (All-of_each IsAsked asked (λ c. tt) commands))
  IsExecuted-IsStopped (direct commands rest _ split it) h =
      rw split (IsDirect-IsStopped commands it h)
  IsExecuted-IsStopped (proxied commands rest _ split it) h =
      rw split (IsProxied-IsStopped commands it h)

IsInvoked-IsStopped :
    (w : World) (invocation : Invocation) (f : Failure) {events : List Event} {outcome : Outcome}
    → IsInvoked w invocation events outcome
    → outcome ≡ refused f
    → IsStopped f events
IsInvoked-IsStopped w invocation f {events} (unloaded e _ nothing reported) h =
    subst (λ g. IsStopped g events) (same_failure reported h) nothing
IsInvoked-IsStopped w invocation f {events} (no_context c _ _ nothing reported) h =
    subst (λ g. IsStopped g events) (same_failure reported h) nothing
IsInvoked-IsStopped w invocation f {events} (no_command c _ _ nothing reported) h =
    subst (λ g. IsStopped g events) (same_failure reported h) nothing
IsInvoked-IsStopped w invocation f (executed c context policy _ _ _ it) h =
    IsExecuted-IsStopped w c context policy invocation.args f it h

-- A failure stops the stages behind it: a configuration or a selection that fails has caused nothing; a
-- resolution or a provisioning that fails has run only the resolution's commands; behind an image that
-- fails no sidecar was started, and behind a sidecar that fails no runtime.
pub execute-IsStopped :
    (w : World) (invocation : Invocation) (f : Failure)
    → (execute w invocation).1 ≡ refused f
    → IsStopped f (execute w invocation).0
execute-IsStopped w invocation f h =
    IsInvoked-IsStopped w invocation f (execute-IsInvoked w invocation) h
