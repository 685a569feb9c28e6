-- ===== src/Config/ContextNode.antt =====
-- src/config/context.rs: what a node says that parses as a context.
use text.Mathlib.TextEquality.{eq_iff}
use iwaya.Prelude.{
  String, ◌<>◌, List, [], ◌∷◌, Option, none, some, true, ◌≡◌, ◌⊎◌, sym, ap, subst, ◌∙◌, inl, inr,
  ok, >>=-eq-ok, ensure, ensure-eq-ok, filter, arith, unwrap_or,
}
use iwaya.Text.{◌=?◌}
use iwaya.Kdl.{Kdl}
use iwaya.Config.{DockerContext, model}
use iwaya.Config.Nodes.{
  children, positional_strings, exactly_one, single_string_argument, require_setting,
}
use iwaya.Config.ParseContext.{
  Settings, no_settings, Setting, the_runtime, the_user, the_workdir, the_container_name,
  get_setting, is_single_executable, read_settings, finish_context, parse_context,
}
use iwaya.Config.Settings.{key, filter-sets, Reads, from_child, unset, read_settings-Reads}

module _ (K : Kdl) where
  open K use {Node, name}

  -- The argument of the one child of a node that has a name.
  abbrev pub HasSetting : Node → String → String → String → Type 0
  HasSetting node owner field value =
      (child : Node) × (filter (λ c. name c =? field) (children K node) ≡ child ∷ [])
      × (single_string_argument K child owner ≡ ok value)

  -- What a context's node says, and the context that it says.
  pub record IsContextOf (node : Node) (context : DockerContext) : Type 0 where
    pub kind : name node ≡ "docker"
    pub argument : positional_strings K node ≡ ok (context.id.id ∷ [])
    pub user : HasSetting node ("context '" <> context.id.id <> "'") "user" context.user
    pub workdir : HasSetting node ("context '" <> context.id.id <> "'") "workdir" context.workdir
    pub container_name :
        HasSetting node
          ("context '" <> context.id.id <> "'")
          "container-name"
          context.container_name
    pub runtime :
        HasSetting node ("context '" <> context.id.id <> "'") "runtime" context.runtime
        ⊎ ((filter (λ c. name c =? "runtime") (children K node) ≡ [])
            × (context.runtime ≡ "docker"))
    pub executable : is_single_executable context.runtime ≡ true

  required :
      (owner : String) (t : Setting) (node : Node) (s : Settings) (value : String)
      → Reads K owner t (children K node) none (get_setting t s)
      → get_setting t s ≡ some value
      → HasSetting node owner (key t) value
  required owner t node s value (from_child child v before only arg after) found =
      let same : v ≡ value = ground arith in
      (child, sym (filter-sets K t (children K node)) ∙ only, arg ∙ ap ok same)
  required owner t node s value (unset nothing after) found = cc (sym after ∙ found)

  require_setting-some :
      (owner field : String) (o : Option String) (v : String)
      → require_setting owner o field ≡ ok v
      → o ≡ some v
  require_setting-some owner field none v h = cc
  require_setting-some owner field (some w) v h = ap some (ground arith)

  finish_context-parts :
      (id owner : String) (s : Settings) (c : DockerContext)
      → finish_context K id owner s ≡ ok c
      → (c.id.id ≡ id)
        × (unwrap_or "docker" s.runtime ≡ c.runtime)
        × (is_single_executable c.runtime ≡ true)
        × (s.user ≡ some c.user)
        × (s.workdir ≡ some c.workdir)
        × (s.container_name ≡ some c.container_name)
  unfolding finish_context
  finish_context-parts id owner s c h =
      let runtime = unwrap_or "docker" s.runtime in
      let (_, single, h1) =
        >>=-eq-ok
          (ensure (is_single_executable runtime)
            (model (owner <> " has a 'runtime' that is not a single executable")))
          _ h in
      let (user, has_user, h2) = >>=-eq-ok (require_setting owner s.user "user") _ h1 in
      let (workdir, has_workdir, h3) = >>=-eq-ok (require_setting owner s.workdir "workdir") _ h2 in
      let (container, has_container, h4) =
        >>=-eq-ok (require_setting owner s.container_name "container-name") _ h3 in
      let built : record {
        id = record { id = id };
        runtime = runtime;
        user = user;
        workdir = workdir;
        container_name = container;
      }
          ≡ c =
        ground arith in
      (
        ap (λ x. x.id.id) (sym built),
        ap (λ x. x.runtime) built,
        subst (λ x. is_single_executable x ≡ true) (ap (λ x. x.runtime) built)
            (ensure-eq-ok _ _ single),
        require_setting-some owner "user" s.user user has_user ∙ ap (λ x. some x.user) built,
        require_setting-some owner "workdir" s.workdir workdir has_workdir
            ∙ ap (λ x. some x.workdir) built,
        require_setting-some owner "container-name" s.container_name container has_container
            ∙ ap (λ x. some x.container_name) built,
      )

  exactly_one-ok :
      (arguments : List String) (message id : String)
      → exactly_one K arguments message ≡ ok id
      → arguments ≡ id ∷ []
  exactly_one-ok [] message id h = cc
  exactly_one-ok (x ∷ []) message id h = ap (λ y. y ∷ []) (ground arith)
  exactly_one-ok (_ ∷ _ ∷ _) message id h = cc

  runtime-Reads :
      (owner : String) (node : Node) (s : Settings) (runtime : String)
      → Reads K owner the_runtime (children K node) none s.runtime
      → unwrap_or "docker" s.runtime ≡ runtime
      → HasSetting node owner "runtime" runtime
        ⊎ ((filter (λ c. name c =? "runtime") (children K node) ≡ []) × (runtime ≡ "docker"))
  runtime-Reads owner node s runtime (from_child child v before only arg after) h =
      let same : v ≡ runtime = ap (unwrap_or "docker") (sym after) ∙ h in
      inl (child, sym (filter-sets K the_runtime (children K node)) ∙ only, arg ∙ ap ok same)
  runtime-Reads owner node s runtime (unset nothing after) h = inr (
    sym (filter-sets K the_runtime (children K node)) ∙ nothing,
    sym h ∙ ap (unwrap_or "docker") after,
  )

  -- A node that parses as a context is a `docker` node with one argument, the identifier; its user,
  -- directory and container are what its one child named `user`, `workdir` and `container-name` says; its
  -- runtime is what its one child named `runtime` says, or is `docker` if there is none, and is a single
  -- executable.
  pub parse_context-IsContextOf :
      (node : Node) (context : DockerContext)
      → parse_context K node ≡ ok context
      → IsContextOf node context
  unfolding parse_context
  parse_context-IsContextOf node c h =
      let (_, kind, h1) =
        >>=-eq-ok
          (ensure (name node =? "docker") (model ("unknown context type '" <> name node <> "'"))) _
          h in
      let (arguments, positional, h2) = >>=-eq-ok (positional_strings K node) _ h1 in
      let (id, single, h3) =
        >>=-eq-ok
          (exactly_one K arguments "a 'docker' context requires exactly one identifier argument") _
          h2 in
      let owner = "context '" <> id <> "'" in
      let (s, read, h4) = >>=-eq-ok (read_settings K owner (children K node) no_settings) _ h3 in
      let (same, runtime, executable, user, workdir, container) =
        finish_context-parts id owner s c h4 in
      let read' : read_settings K ("context '" <> c.id.id <> "'") (children K node) no_settings
          ≡ ok s =
        subst (λ x. read_settings K ("context '" <> x <> "'") (children K node) no_settings ≡ ok s)
          (sym same) read in
      let own = "context '" <> c.id.id <> "'" in
      let argument = exactly_one-ok arguments _ id single in
      record {
        kind = (eq_iff (name node) "docker").0 (ensure-eq-ok _ _ kind);
        argument = positional ∙ ap ok argument ∙ ap (λ x. ok (x ∷ [])) (sym same);
        user =
            required own the_user node s c.user
              (read_settings-Reads K own (children K node) no_settings s read' the_user) user;
        workdir =
            required own the_workdir node s c.workdir
              (read_settings-Reads K own (children K node) no_settings s read' the_workdir) workdir;
        container_name =
            required own the_container_name node s c.container_name
              (read_settings-Reads K own (children K node) no_settings s read' the_container_name)
              container;
        runtime =
            runtime-Reads own node s c.runtime
              (read_settings-Reads K own (children K node) no_settings s read' the_runtime) runtime;
        executable = executable;
      }
