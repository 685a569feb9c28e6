-- ===== src/Config/Written.antt =====
-- src/config: a document for each configuration, from which it is loaded.
use mathlib.Core.List.{append-nil, append_assoc}
use iwaya.Prelude.{
  String, ◌<>◌, List, [], ◌∷◌, ◌++◌, map, push, true, none, ok, Result, ◌≡◌, refl, ap, All, All-map,
  Option,
}
use iwaya.Kdl.{pos}
use iwaya.Config.{
  Provider, bws, ExecAcquisition, DockerContext, SecretSpec, ProxySecretSpec, CommandPolicy, Config,
  ParseFailure,
}
use iwaya.Config.Trees.{Tree, tree, Forest, nil, plant, nodes, Value, text, number, always, leaf}
use iwaya.Config.Nodes.{
  children, collect_strings, positional_strings, single_string_argument, property_string,
}
use iwaya.Config.ParseContext.{
  is_single_executable, setting_of, read_setting, read_settings, finish_context, parse_context,
}
use iwaya.Config.ParseProvider.{
  parse_acquisition, parse_access_token, read_bws_setting, read_bws_settings, finish_bws,
  parse_bws_provider, parse_provider,
}
use iwaya.Config.ParsePolicy.{
  proxy_setting_of, read_proxy_setting, read_proxy_settings, finish_proxy_secret,
  parse_proxy_secret, parse_secret, read_entry, read_entries, parse_policy,
}
use iwaya.Config.Load.{
  check_version, empty_config, parse_each, parse_section, parse_sections, parse_text, load,
}
use iwaya.Config.Validate.{validate}

abbrev argument_entry : String → Option String × Value
argument_entry s = (none, text s)

abbrev forest : List Tree → Forest
forest [] = nil
forest (t ∷ ts) = plant t (forest ts)

-- The nodes that a configuration is written as.
abbrev context_node : DockerContext → Tree
context_node context = tree "docker" (context.id.id ∷ []) [] (
    plant (leaf "runtime" context.runtime) (
      plant (leaf "user" context.user) (
        plant (leaf "workdir" context.workdir)
          (plant (leaf "container-name" context.container_name) nil))))

abbrev exec_node : ExecAcquisition → Tree
exec_node acquisition = tree "exec" (acquisition.program ∷ acquisition.args) [] nil

abbrev provider_node : Provider → Tree
provider_node (bws provider) = tree "bws" (provider.id.id ∷ []) [] (
    plant (leaf "project" provider.project)
      (plant (tree "access-token" [] [] (plant (exec_node provider.access_token) nil)) nil))

abbrev secret_node : SecretSpec → Tree
secret_node secret =
    tree "secret" (secret.env_name.name ∷ [])
      (("provider", text secret.provider.id) ∷ ("secret-name", text secret.secret_name.name) ∷ [])
      nil

abbrev proxy_secret_node : ProxySecretSpec → Tree
proxy_secret_node secret = tree "proxy-secret" (secret.env_name.name ∷ []) [] (
    plant (leaf "provider" secret.provider.id) (
      plant (leaf "secret-name" secret.secret_name.name) (
        plant (leaf "upstream" secret.upstream) (
          plant (leaf "base-url-env" secret.base_url_env.name) (
            plant
              (tree "inject-header" (secret.inject_header.name ∷ secret.inject_header.template ∷ [])
                [] nil)
              nil)))))

abbrev policy_node : CommandPolicy → Tree
policy_node policy =
    tree "command" (policy.id.id ∷ []) []
      (forest (map secret_node policy.secrets ++ map proxy_secret_node policy.proxy_secrets))

abbrev section_node : String → List Tree → Tree
section_node name trees = tree name [] [] (forest trees)

abbrev pub document_of : Config → Tree
document_of config = tree "iwaya" [] (("version", number (pos 1)) ∷ []) (
    plant (section_node "providers" (map provider_node config.providers)) (
      plant (section_node "contexts" (map context_node config.contexts))
        (plant (section_node "policies" (map policy_node config.policies)) nil)))

nodes-forest : (ts : List Tree) → nodes (forest ts) ≡ ts
nodes-forest [] = refl
nodes-forest (t ∷ ts) = ap (◌∷◌ t) (nodes-forest ts)

module _ (d : Tree) where
  children-forest :
      (name : String) (arguments : List String) (ts : List Tree)
      → children (always d) (tree name arguments [] (forest ts)) ≡ ts
  unfolding children
  children-forest name arguments [] = refl
  children-forest name arguments (t ∷ ts) = ap (◌∷◌ t) (nodes-forest ts)

  collect_strings-map :
      (node : Tree) (ss : List String)
      → collect_strings (always d) node (map argument_entry ss) ≡ ok ss
  unfolding collect_strings
  collect_strings-map node [] = refl
  collect_strings-map node (s ∷ ss) = rw (collect_strings-map node ss) refl

  parse_context-node :
      (context : DockerContext)
      → is_single_executable context.runtime ≡ true
      → parse_context (always d) (context_node context) ≡ ok context
  unfolding parse_context read_settings read_setting setting_of finish_context children
      positional_strings collect_strings single_string_argument
  parse_context-node context single = rw single refl

  parse_provider-node :
      (provider : Provider) → parse_provider (always d) (provider_node provider) ≡ ok provider
  unfolding parse_provider parse_bws_provider read_bws_settings read_bws_setting parse_access_token
      parse_acquisition finish_bws children positional_strings collect_strings
      single_string_argument
  parse_provider-node (bws provider) =
      let args = provider.access_token.args in
      rw
        (
          append-nil (map argument_entry args),
          collect_strings-map (exec_node provider.access_token) args,
        )
        refl

  parse_secret-node :
      (owner : String) (secret : SecretSpec)
      → parse_secret (always d) (secret_node secret) owner ≡ ok secret
  unfolding parse_secret positional_strings collect_strings property_string
  parse_secret-node owner secret = refl

  parse_proxy_secret-node :
      (owner : String) (secret : ProxySecretSpec)
      → parse_proxy_secret (always d) (proxy_secret_node secret) owner ≡ ok secret
  unfolding parse_proxy_secret read_proxy_settings read_proxy_setting proxy_setting_of
      finish_proxy_secret children positional_strings collect_strings single_string_argument
  parse_proxy_secret-node owner secret = refl

  read_entries-nodes :
      (owner : String) (secrets : List SecretSpec) (proxy_secrets : List ProxySecretSpec)
      (before : List SecretSpec) (proxied_before : List ProxySecretSpec)
      → read_entries
          (always d)
          owner
          (map secret_node secrets ++ map proxy_secret_node proxy_secrets)
          (before, proxied_before)
        ≡ ok (before ++ secrets, proxied_before ++ proxy_secrets)
  unfolding read_entries read_entry
  read_entries-nodes owner [] [] before proxied_before =
      rw (append-nil before, append-nil proxied_before) refl
  read_entries-nodes owner [] (secret ∷ rest) before proxied_before =
      rw
        (
          parse_proxy_secret-node owner secret,
          read_entries-nodes owner [] rest before (push proxied_before secret),
          append_assoc proxied_before (secret ∷ []) rest,
        )
        refl
  read_entries-nodes owner (secret ∷ rest) proxy_secrets before proxied_before =
      rw
        (
          parse_secret-node owner secret,
          read_entries-nodes owner rest proxy_secrets (push before secret) proxied_before,
          append_assoc before (secret ∷ []) rest,
        )
        refl

  parse_policy-node :
      (policy : CommandPolicy) → parse_policy (always d) (policy_node policy) ≡ ok policy
  unfolding parse_policy positional_strings collect_strings
  parse_policy-node policy =
      rw
        (
          children-forest "command" (policy.id.id ∷ [])
              (map secret_node policy.secrets ++ map proxy_secret_node policy.proxy_secrets),
          read_entries-nodes ("command '" <> (policy.id.id <> "'")) policy.secrets
              policy.proxy_secrets [] [],
        )
        refl

  parse_each-map {ℓ} :
      {A : Type ℓ} (parse_node : Tree → Result ParseFailure A) (node_of : A → Tree)
      (items before : List A)
      → All (λ item. parse_node (node_of item) ≡ ok item) items
      → parse_each (always d) parse_node (map node_of items) before ≡ ok (before ++ items)
  unfolding parse_each
  parse_each-map parse_node node_of [] before h = rw (append-nil before) refl
  parse_each-map parse_node node_of (item ∷ items) before (here, h) =
      rw
        (
          here,
          parse_each-map parse_node node_of items (push before item) h,
          append_assoc before (item ∷ []) items,
        )
        refl

  All-every {ℓ κ} : {A : Type ℓ} {P : A → Type κ} → ((a : A) → P a) → (xs : List A) → All P xs
  All-every f [] = tt
  All-every f (x ∷ xs) = (f x, All-every f xs)

  parse_sections-nodes :
      (config : Config)
      → All (λ c. is_single_executable c.runtime ≡ true) config.contexts
      → parse_sections
          (always d)
          (section_node "providers" (map provider_node config.providers)
            ∷ section_node "contexts" (map context_node config.contexts)
            ∷ section_node "policies" (map policy_node config.policies)
            ∷ [])
          empty_config
        ≡ ok config
  unfolding parse_sections parse_section
  parse_sections-nodes config single =
      rw
        (
          children-forest "providers" [] (map provider_node config.providers),
          children-forest "contexts" [] (map context_node config.contexts),
          children-forest "policies" [] (map policy_node config.policies),
          parse_each-map (parse_provider (always d)) provider_node config.providers []
              (All-every parse_provider-node config.providers),
          parse_each-map (parse_context (always d)) context_node config.contexts []
              (All-map parse_context-node config.contexts single),
          parse_each-map (parse_policy (always d)) policy_node config.policies []
              (All-every parse_policy-node config.policies),
        )
        refl

-- Every configuration that the validator accepts, and whose runtimes are single executables, has a
-- document from which it is loaded as it is: no name, order or setting is lost or changed.
pub load-document_of :
    (config : Config) (read_to_string : String → Result String String) (path content : String)
    → read_to_string path ≡ ok content
    → validate config ≡ ok tt
    → All (λ c. is_single_executable c.runtime ≡ true) config.contexts
    → load (always (document_of config)) read_to_string path ≡ ok config
unfolding load parse_text check_version children
load-document_of config read_to_string path content read valid single =
    rw (read, parse_sections-nodes (document_of config) config single, valid) refl
