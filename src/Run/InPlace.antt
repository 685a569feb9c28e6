-- ===== src/Run/InPlace.antt =====
-- src/run.rs: `exec_runtime`, the runtime in place of this process.
use iwaya.Prelude.{String, List, [], ◌∷◌, ◌≡◌, ◌⊎◌, refl, inl, inr, some}
use iwaya.Config.{EnvName, DockerContext, CommandPolicy}
use iwaya.Secret.{Secret}
use iwaya.Run.Invocation.{build_argv-eq}
use iwaya.Run.{
  command_of, System, Exec, replaced, returned, failed, became, exec_runtime, build_argv,
  apply_injected_environment,
}

Exec-cases : (x : Exec) → (x ≡ replaced) ⊎ ((source : String) × (x ≡ returned source))
Exec-cases replaced = inl refl
Exec-cases (returned source) = inr (source, refl)

-- The execution in place of this process always has a program: with the command that `build_argv`
-- describes and the direct entries, it either becomes that command or fails with the runtime's name.
pub exec_runtime_lem :
    (os : System) (context : DockerContext) (policy : CommandPolicy)
    (environment : List (EnvName × Secret)) (user_args : List String)
    → (arguments : List String) × (build_argv context policy user_args
        ≡ context.runtime ∷ arguments)
      × (let command =
            apply_injected_environment environment
              (record { program = context.runtime; arguments = arguments; environment = [] }) in
          ((os.exec command ≡ replaced)
            × (exec_runtime os context policy environment user_args ≡ some (became command)))
          ⊎ ((source : String) × (os.exec command ≡ returned source)
              × (exec_runtime os context policy environment user_args
                  ≡ some (failed (record { runtime = context.runtime; source = source })))))
unfolding exec_runtime command_of
exec_runtime_lem os context policy environment user_args = (
  _,
  build_argv-eq context policy user_args,
  elim (Exec-cases (
      os.exec (
        apply_injected_environment environment
          (record { program = context.runtime; arguments = _; environment = [] })))) [
            | inl gone ↦ inl (
              gone,
              rw (build_argv-eq context policy user_args, exec_runtime, command_of, gone) refl,
            )
            | inr (source, stays) ↦ inr (
              source,
              stays,
              rw (build_argv-eq context policy user_args, exec_runtime, command_of, stays) refl,
            )
          ],
)
