-- ===== src/Bws/Commands.antt =====
-- src/bws.rs: `resolve` as a whole, its result and the commands that it runs.
use text.Mathlib.TextEquality.{eq_iff}
use mathlib.Core.List.{append_assoc}
use iwaya.Prelude.{
  String, List, [], ◌∷◌, ◌++◌, some, ◌≡◌, ◌⊎◌, refl, inl, inr, ok, ◌>>=◌, >>=-eq-ok, Result-cases,
  Any, find, push, Bool, Bool-cases, arith, ok_or-eq-ok,
}
use iwaya.Text.{◌=?◌}
use iwaya.Config.{BwsProvider, SecretName}
use iwaya.Secret.{Secret, expose_to_subprocess_env}
use iwaya.Run.{Command}
use iwaya.Bws.{
  BwsProject, BwsSecret, Resolved, acquisition_command, bws_command, Shell, acquire_access_token,
  bws_json, find_project, select_secrets, resolve_secrets, resolve_project, resolve,
}
use iwaya.Bws.Resolution.{IsResolution, select_secrets-IsResolution}

-- A call of the `bws` client for a listing: beside its arguments the token is the one entry of its
-- environment.
pub record IsBwsCall (token : Secret) (listing : List String) (command : Command) : Type 0 where
  pub program : command.program ≡ "bws"
  pub arguments : command.arguments ≡ listing
  pub environment : command.environment ≡ ("BWS_ACCESS_TOKEN", expose_to_subprocess_env token) ∷ []

listing_call :
    (token : Secret) (arguments : List String)
    → IsBwsCall token (arguments ++ "--output" ∷ "json" ∷ []) (bws_command token arguments)
unfolding bws_command
listing_call token arguments = record { program = refl; arguments = refl; environment = refl }

find-Any :
    (f : BwsProject → Bool) (projects : List BwsProject) (p : BwsProject)
    → find f projects ≡ some p
    → Any (λ q. q ≡ p) projects
find-Any f [] p h = cc
find-Any f (q ∷ projects) p h = elim (Bool-cases (f q)) [
  | inl hit ↦ inl (ground arith)
  | inr miss ↦ inr (find-Any f projects p (ground arith))
]

module _ (sh : Shell) where
  find-name :
      (name : String) (projects : List BwsProject) (p : BwsProject)
      → find (λ q. q.name =? name) projects ≡ some p
      → p.name ≡ name
  find-name name [] p h = cc
  find-name name (q ∷ projects) p h = ground (arith, find-name name projects p, eq_iff q.name name)

  pub find_project-name :
      (provider : BwsProvider) (projects : List BwsProject) (p : BwsProject)
      → find_project provider projects ≡ ok p
      → p.name ≡ provider.project
  unfolding find_project
  find_project-name provider projects p h =
      find-name provider.project projects p (ok_or-eq-ok _ _ h)

  find_project-Any :
      (provider : BwsProvider) (projects : List BwsProject) (p : BwsProject)
      → find_project provider projects ≡ ok p
      → Any (λ q. q ≡ p) projects
  unfolding find_project
  find_project-Any provider projects p h = find-Any _ projects p (ok_or-eq-ok _ _ h)

  -- A call that lists the secrets of a project: the project is one that the call `first` listed, and has
  -- the configured name.
  pub record IsSecretsCall (ran : List Command) (provider : BwsProvider) (token : Secret)
      (first second : Command) : Type 0 where
    pub projects : List BwsProject
    pub listed : bws_json sh sh.projects_from_slice ran provider first "list projects" ≡ ok projects
    pub project : BwsProject
    pub known : Any (λ q. q ≡ project) projects
    pub named : project.name ≡ provider.project
    pub call : IsBwsCall token ("secret" ∷ "list" ∷ project.id ∷ "--output" ∷ "json" ∷ []) second

  -- The listing of the projects, and behind it at most the listing of one project's secrets.
  abbrev pub IsListed : List Command → BwsProvider → Secret → List Command → Type 0
  IsListed ran provider token calls =
      (first : Command) × (later : List Command) × (calls ≡ first ∷ later)
      × IsBwsCall token ("project" ∷ "list" ∷ "--output" ∷ "json" ∷ []) first
      × ((later ≡ [])
          ⊎ ((second : Command) × (later ≡ second ∷ [])
              × IsSecretsCall ran provider token first second))

  -- The calls of the client behind the acquisition of a token.
  pub record IsCalled (ran : List Command) (provider : BwsProvider) (commands : List Command)
      : Type 0 where
    pub token : Secret
    pub acquired : acquire_access_token sh ran provider ≡ ok token
    pub calls : List Command
    pub commands_eq : commands ≡ push ran (acquisition_command provider) ++ calls
    pub listings : IsListed (push ran (acquisition_command provider)) provider token calls

  resolve_project-calls :
      (ran : List Command) (provider : BwsProvider) (names : List SecretName) (token : Secret)
      → (calls : List Command) × ((resolve_project sh ran provider names token).0 ≡ ran ++ calls)
        × IsListed ran provider token calls
  unfolding resolve_project resolve_secrets
  resolve_project-calls ran provider names token =
      let listing = bws_command token ("project" ∷ "list" ∷ []) in
      let asked = listing_call token ("project" ∷ "list" ∷ []) in
      let projects = bws_json sh sh.projects_from_slice ran provider listing "list projects" in
      elim (Result-cases (projects >>= find_project provider)) [
        | inr (e, failed) ↦
            (listing ∷ [], rw (failed, resolve_project) refl, (listing, [], refl, asked, inl refl))
        | inl (project, found) ↦
            let second = bws_command token ("secret" ∷ "list" ∷ project.id ∷ []) in
            let (known, listed, chosen) = >>=-eq-ok projects (find_project provider) found in
            (
              listing ∷ second ∷ [],
              rw (found, resolve_project) (append_assoc ran (listing ∷ []) _),
              (
                listing,
                second ∷ [],
                refl,
                asked,
                inr (
                  second,
                  refl,
                  record {
                    projects = known;
                    listed = listed;
                    project = project;
                    known = find_project-Any provider known project chosen;
                    named = find_project-name provider known project chosen;
                    call = listing_call token ("secret" ∷ "list" ∷ project.id ∷ []);
                  },
                ),
              ),
            )
      ]

  -- Whatever the result of a resolution is, its first command is the configured acquisition; either that
  -- is the last one, or it gave a token, and the next command is the call of `bws` that lists the
  -- projects, with the token as the one variable that is set for it; and at most one more follows, the
  -- call, with the same variable, that lists the secrets of the project that has the configured name,
  -- under the id that the first listing gave for it.
  pub resolve_calls :
      (ran : List Command) (provider : BwsProvider) (names : List SecretName)
      → ((resolve sh ran provider names).0 ≡ push ran (acquisition_command provider))
        ⊎ IsCalled ran provider (resolve sh ran provider names).0
  unfolding resolve
  resolve_calls ran provider names = elim (Result-cases (acquire_access_token sh ran provider)) [
    | inr (e, failed) ↦ inl (rw (failed, resolve) refl)
    | inl (token, acquired) ↦
        let (calls, whole, listings) =
          resolve_project-calls (push ran (acquisition_command provider)) provider names token in
        inr (record {
          token = token;
          acquired = acquired;
          calls = calls;
          commands_eq = rw (acquired, resolve) whole;
          listings = listings;
        })
  ]

  -- What a successful resolution went through.
  pub record IsResolved (ran : List Command) (provider : BwsProvider) (names : List SecretName)
      (resolved : Resolved) : Type 0 where
    pub token : Secret
    pub acquired : acquire_access_token sh ran provider ≡ ok token
    pub project : BwsProject
    pub project_name : project.name ≡ provider.project
    pub earlier : List Command
    pub secrets : List BwsSecret
    pub listed :
        bws_json sh sh.secrets_from_slice earlier provider
          (bws_command token ("secret" ∷ "list" ∷ project.id ∷ []))
          "list secrets"
        ≡ ok secrets
    pub resolution : IsResolution names secrets resolved

  resolve_project-IsResolved :
      (ran after : List Command) (provider : BwsProvider) (names : List SecretName) (token : Secret)
      (resolved : Resolved)
      → acquire_access_token sh ran provider ≡ ok token
      → (resolve_project sh after provider names token).1 ≡ ok resolved
      → IsResolved ran provider names resolved
  unfolding resolve_project resolve_secrets
  resolve_project-IsResolved ran after provider names token resolved acquired h =
      let listing = bws_command token ("project" ∷ "list" ∷ []) in
      let projects = bws_json sh sh.projects_from_slice after provider listing "list projects" in
      elim (Result-cases (projects >>= find_project provider)) [
        | inr (e, failed) ↦ cc (rw (failed, resolve_project) at h)
        | inl (project, found) ↦
            let (_, _, named) = >>=-eq-ok projects (find_project provider) found in
            let last : (bws_json sh sh.secrets_from_slice (push after listing) provider
                    (bws_command token ("secret" ∷ "list" ∷ project.id ∷ [])) "list secrets"
                  >>= select_secrets provider names)
                ≡ ok resolved =
              rw (found, resolve_project) at h in
            let (secrets, listed, selected) = >>=-eq-ok _ (select_secrets provider names) last in
            record {
              token = token;
              acquired = acquired;
              project = project;
              project_name = find_project-name provider _ project named;
              earlier = push after listing;
              secrets = secrets;
              listed = listed;
              resolution = select_secrets-IsResolution provider names secrets resolved selected;
            }
      ]

  pub resolve-IsResolved :
      (ran : List Command) (provider : BwsProvider) (names : List SecretName) (resolved : Resolved)
      → (resolve sh ran provider names).1 ≡ ok resolved
      → IsResolved ran provider names resolved
  unfolding resolve resolve_project resolve_secrets
  resolve-IsResolved ran provider names resolved h =
      elim (Result-cases (acquire_access_token sh ran provider)) [
        | inr (e, failed) ↦ cc (rw (failed, resolve) at h)
        | inl (token, acquired) ↦
            resolve_project-IsResolved ran (push ran (acquisition_command provider)) provider names
              token resolved acquired (rw (acquired, resolve) at h)
      ]
