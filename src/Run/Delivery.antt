-- ===== src/Run/Delivery.antt =====
-- src/run.rs: what the runtime's process finds in its environment.
use text.Mathlib.TextEquality.{eq_iff}
use text.Mathlib.TextPositions.{eq_refl}
use iwaya.Prelude.{
  String, List, [], ◌∷◌, ◌++◌, map, ◌≡◌, ◌≢◌, refl, sym, ap, ◌∙◌, Option, none, some, All, Distinct,
  or_else, if◌then◌else◌, arith,
}
use iwaya.Text.{◌=?◌}
use iwaya.Config.{EnvName}
use iwaya.Secret.{Secret}
use iwaya.Run.{Command, apply_injected_environment, apply_proxy_environment}

-- The entry that holds for a name: the latest one that was set.
unfoldable pub entry_of : String → List (String × String) → Option String
entry_of name [] = none
entry_of name ((field, value) ∷ rest) =
    let earlier = entry_of name rest in if field =? name then some value else earlier

-- What a command's process finds under a name: the entry that was set, else the inherited variable.
unfoldable pub child_value : Command → (String → Option String) → String → Option String
child_value command inherited name = or_else (entry_of name command.environment) (inherited name)

-- All entries of an invocation, the direct ones with their raw values.
abbrev pub revealed : List (EnvName × Secret) → List (EnvName × String)
revealed [] = []
revealed ((name, value) ∷ rest) = (name, value.value) ∷ revealed rest

abbrev pub names_in : List (EnvName × String) → List EnvName
names_in entries = map (λ e. e.0) entries

apply_proxy_environment-revealed :
    (es : List (EnvName × Secret)) (ps : List (EnvName × String)) (command : Command)
    → apply_proxy_environment ps (apply_injected_environment es command)
      ≡ apply_proxy_environment (revealed es ++ ps) command
unfolding apply_injected_environment apply_proxy_environment
apply_proxy_environment-revealed [] ps command = refl
apply_proxy_environment-revealed ((name, value) ∷ es) ps command =
    apply_proxy_environment-revealed es ps _

entry_of-apply_proxy_environment_other :
    (name : String) (ps : List (EnvName × String)) (command : Command)
    → All (λ e. e.0.name ≢ name) ps
    → entry_of name (apply_proxy_environment ps command).environment
      ≡ entry_of name command.environment
unfolding apply_proxy_environment entry_of
entry_of-apply_proxy_environment_other name [] command h = refl
entry_of-apply_proxy_environment_other name ((field, value) ∷ ps) command (differ, h) =
    entry_of-apply_proxy_environment_other name ps _ h ∙ ground (arith, eq_iff field.name name)

names_differ :
    (name : EnvName) (ps : List (EnvName × String))
    → All (λ y. name ≢ y) (names_in ps)
    → All (λ e. e.0.name ≢ name.name) ps
names_differ name [] h = tt
names_differ name ((field, value) ∷ ps) (differ, h) =
    (λ e. differ (ap (λ n. record { name = n }) (sym e)), names_differ name ps h)

entry_of-apply_proxy_environment :
    (ps : List (EnvName × String)) (command : Command)
    → Distinct (names_in ps)
    → All (λ e. entry_of e.0.name (apply_proxy_environment ps command).environment ≡ some e.1) ps
unfolding apply_proxy_environment entry_of
entry_of-apply_proxy_environment [] command h = tt
entry_of-apply_proxy_environment ((name, value) ∷ ps) command (differ, h) = (
  entry_of-apply_proxy_environment_other name.name ps _ (names_differ name ps differ)
      ∙ rw (eq_refl name.name) refl,
  entry_of-apply_proxy_environment ps _ h,
)

child_value-found :
    (qs : List (EnvName × String)) (command : Command) (inherited : String → Option String)
    → All (λ e. entry_of e.0.name command.environment ≡ some e.1) qs
    → All (λ e. child_value command inherited e.0.name ≡ some e.1) qs
unfolding child_value
child_value-found [] command inherited h = tt
child_value-found (q ∷ qs) command inherited (found, h) =
    (ap (λ o. or_else o (inherited q.0.name)) found, child_value-found qs command inherited h)

entry_of-nil :
    (name : String) (command : Command)
    → command.environment ≡ []
    → entry_of name command.environment ≡ none
unfolding entry_of
entry_of-nil name command bare = rw bare refl

-- The runtime's process finds every entry of the invocation under its name, whatever it inherits:
-- a direct secret's raw value, and a proxied one's plain value; and it finds every other variable
-- as it was inherited. The names differ from each other, and nothing else is set beforehand.
pub child_value-apply_proxy_environment :
    (es : List (EnvName × Secret)) (ps : List (EnvName × String)) (command : Command)
    (inherited : String → Option String)
    → command.environment ≡ []
    → Distinct (names_in (revealed es ++ ps))
    → let started = apply_proxy_environment ps (apply_injected_environment es command) in
      All (λ e. child_value started inherited e.0.name ≡ some e.1) (revealed es ++ ps)
      × ((name : String)
          → All (λ e. e.0.name ≢ name) (revealed es ++ ps)
          → child_value started inherited name ≡ inherited name)
unfolding child_value
child_value-apply_proxy_environment es ps command inherited bare distinct =
    rw (apply_proxy_environment-revealed es ps command) (
      child_value-found (revealed es ++ ps) (apply_proxy_environment (revealed es ++ ps) command)
          inherited (entry_of-apply_proxy_environment (revealed es ++ ps) command distinct),
      λ name other.
          ap (λ o. or_else o (inherited name))
            (entry_of-apply_proxy_environment_other name (revealed es ++ ps) command other
              ∙ entry_of-nil name command bare),
    )
