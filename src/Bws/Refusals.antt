-- ===== src/Bws/Refusals.antt =====
-- src/bws.rs: where a resolution that fails has stopped, and the error that it reports.
use iwaya.Prelude.{List, [], ◌∷◌, ◌++◌, ◌≡◌, ◌≢◌, ok, err, All, push, Result}
use iwaya.Config.{BwsProvider, SecretName}
use iwaya.Secret.{Secret}
use iwaya.Run.{Command}
use iwaya.Bws.{
  ResolveError, unknown_project, unknown_secret, BwsProject, BwsSecret, acquisition_command,
  bws_command, Shell, acquire_access_token, bws_json,
}
use iwaya.Bws.Resolution.{IsLast}

-- The first name that the project's secrets do not have: each name before it is listed.
pub record IsMissing (names : List SecretName) (secrets : List BwsSecret) (name : SecretName)
    : Type 0 where
  pub before : List SecretName
  pub after : List SecretName
  pub split : names ≡ before ++ name ∷ after
  pub listed : All (λ n. (v : Secret) × IsLast n.name secrets v) before
  pub unlisted : All (λ s. s.key ≢ name.name) secrets

module _ (sh : Shell) (ran : List Command) (provider : BwsProvider) (names : List SecretName) where
  -- The listings that a resolution asks for, and what they answer behind the commands before them.
  abbrev acquired_after : List Command
  acquired_after = push ran (acquisition_command provider)

  abbrev projects_of : Secret → Result ResolveError (List BwsProject)
  projects_of token =
      bws_json sh sh.projects_from_slice acquired_after provider
        (bws_command token ("project" ∷ "list" ∷ [])) "list projects"

  abbrev listed_after : Secret → List Command
  listed_after token = push acquired_after (bws_command token ("project" ∷ "list" ∷ []))

  abbrev secrets_of : Secret → BwsProject → Result ResolveError (List BwsSecret)
  secrets_of token project =
      bws_json sh sh.secrets_from_slice (listed_after token) provider
        (bws_command token ("secret" ∷ "list" ∷ project.id ∷ [])) "list secrets"

  abbrev all_after : Secret → BwsProject → List Command
  all_after token project =
      push (listed_after token) (bws_command token ("secret" ∷ "list" ∷ project.id ∷ []))

  -- The step at which a resolution stops, with the commands that were run by then.
  pub data IsRefused (commands : List Command) (e : ResolveError) : Type 0 where
    no_token :
        acquire_access_token sh ran provider ≡ err e
        → commands ≡ acquired_after
        → IsRefused commands e
    no_projects :
        (token : Secret)
        → acquire_access_token sh ran provider ≡ ok token
        → projects_of token ≡ err e
        → commands ≡ listed_after token
        → IsRefused commands e
    no_project :
        (token : Secret) (projects : List BwsProject)
        → acquire_access_token sh ran provider ≡ ok token
        → projects_of token ≡ ok projects
        → All (λ p. p.name ≢ provider.project) projects
        → e ≡ unknown_project provider.id.id provider.project
        → commands ≡ listed_after token
        → IsRefused commands e
    no_secrets :
        (token : Secret) (project : BwsProject)
        → acquire_access_token sh ran provider ≡ ok token
        → project.name ≡ provider.project
        → secrets_of token project ≡ err e
        → commands ≡ all_after token project
        → IsRefused commands e
    no_secret :
        (token : Secret) (project : BwsProject) (secrets : List BwsSecret) (name : SecretName)
        → acquire_access_token sh ran provider ≡ ok token
        → project.name ≡ provider.project
        → secrets_of token project ≡ ok secrets
        → IsMissing names secrets name
        → e ≡ unknown_secret provider.id.id provider.project name.name
        → commands ≡ all_after token project
        → IsRefused commands e
