-- ===== src/Config/Loaded.antt =====
-- src/config/mod.rs: what a configuration is that was loaded.
use iwaya.Prelude.{
  String, List, [], ◌∷◌, some, true, ◌≡◌, sym, ap, subst, and_then, ◌∙◌, inl, inr, Result, ok,
  >>=-eq-ok, map_err, map_err-eq-ok, All, All-map, find, arith, Bool-cases, is_some,
}
use text.Mathlib.TextEquality.{eq_iff}
use iwaya.Kdl.{Kdl}
use iwaya.Config.{
  Config, CommandId, CommandPolicy, read, syntax, find_provider, find_policy, eq_command_id,
}
use iwaya.Config.Validate.{validate}
use iwaya.Config.Valid.{IsValid, IsPolicy, IsProxySecret}
use iwaya.Config.Validity.{validate_iff}
use iwaya.Config.Load.{
  parse_text, parse_sections, load, config_error, root_node, check_version, empty_config,
}
use iwaya.Config.Nodes.{children}
use iwaya.Config.Checks.{find_provider_iff}

module _ (K : Kdl) where
  parse_text-IsValid :
      (text : String) (config : Config) → parse_text K text ≡ ok config → IsValid config
  unfolding parse_text
  parse_text-IsValid text config h =
      let (nodes, _, h1) = >>=-eq-ok (map_err syntax (K.parse_document text)) _ h in
      let (root, _, h2) = >>=-eq-ok (root_node K nodes) _ h1 in
      let (_, _, h3) =
        >>=-eq-ok (check_version (and_then (K.get root "version") K.as_integer)) _ h2 in
      let (built, _, h4) = >>=-eq-ok (parse_sections K (children K root) empty_config) _ h3 in
      let (_, checked, same) = >>=-eq-ok (validate built) _ h4 in
      let result : built ≡ config = ground arith in
      subst IsValid result ((validate_iff built).0 checked)

  -- A configuration that is loaded is valid.
  pub load-IsValid :
      (read_to_string : String → Result String String) (path : String) (config : Config)
      → load K read_to_string path ≡ ok config
      → IsValid config
  unfolding load
  load-IsValid read_to_string path config h =
      let (text, _, parsed) =
        >>=-eq-ok (map_err (read path) (read_to_string path))
          (λ text. map_err (config_error K path) (parse_text K text)) h in
      parse_text-IsValid text config
        (map_err-eq-ok (config_error K path) (parse_text K text) parsed)

-- Every provider that a policy refers to is found.
pub record IsResolvable (config : Config) (policy : CommandPolicy) : Type 0 where
  pub secrets : All (λ s. is_some (find_provider config s.provider) ≡ true) policy.secrets
  pub proxy_secrets :
      All (λ s. is_some (find_provider config s.provider) ≡ true) policy.proxy_secrets

find-All :
    (P : CommandPolicy → Type 0) (id : CommandId) (policies : List CommandPolicy)
    (policy : CommandPolicy)
    → All P policies
    → find (λ p. eq_command_id p.id id) policies ≡ some policy
    → P policy × (policy.id ≡ id)
find-All P id [] policy h found = cc
find-All P id (p ∷ policies) policy (here, h) found = elim (Bool-cases (eq_command_id p.id id)) [
  | inl same ↦
      let it : p ≡ policy = ground arith in
      (
        subst P it here,
        ap (λ q. q.id) (sym it) ∙ ap (λ n. record { id = n }) ((eq_iff p.id.id id.id).0 same),
      )
  | inr other ↦ find-All P id policies policy h (ground arith)
]

module _ (K : Kdl) where
  -- The policy that a loaded configuration has for a command is that command's, it is a valid one, and
  -- each of its declarations refers to a provider that the lookup finds; so an invocation never meets
  -- a reference that does not resolve.
  pub find_policy-IsResolvable :
      (read_to_string : String → Result String String) (path : String) (config : Config)
      (id : CommandId) (policy : CommandPolicy)
      → load K read_to_string path ≡ ok config
      → find_policy config id ≡ some policy
      → (policy.id ≡ id) × IsPolicy config policy × IsResolvable config policy
  unfolding find_policy
  find_policy-IsResolvable read_to_string path config id policy loaded found =
      let valid = load-IsValid K read_to_string path config loaded in
      let (fine, same) =
        find-All (IsPolicy config) id config.policies policy valid.policies found in
      (
        same,
        fine,
        record {
          secrets =
              All-map (λ s. (find_provider_iff config s.provider).1) policy.secrets fine.secrets;
          proxy_secrets =
              All-map
                (λ s (h : IsProxySecret config s).
                  (find_provider_iff config s.provider).1 h.declared)
                policy.proxy_secrets fine.proxy_secrets;
        },
      )
