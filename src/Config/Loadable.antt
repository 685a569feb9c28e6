-- ===== src/Config/Loadable.antt =====
-- src/config: which configurations are loaded.
use iwaya.Prelude.{
  String, List, [], ◌∷◌, push, true, ◌≡◌, subst, inl, inr, refl, Result, ok, err, >>=-eq-ok, map_ok,
  map_err, map_err-eq-ok, and_then, All, All-append_iff, Bool-cases, arith, ◌↔◌,
}
use iwaya.Text.{◌=?◌}
use iwaya.Kdl.{Kdl}
use iwaya.Config.{Config, ParseFailure, read, syntax}
use iwaya.Config.Trees.{always}
use iwaya.Config.Nodes.{children}
use iwaya.Config.ParseContext.{is_single_executable, parse_context}
use iwaya.Config.ContextNode.{parse_context-IsContextOf}
use iwaya.Config.Validate.{validate}
use iwaya.Config.Valid.{IsValid}
use iwaya.Config.Validity.{validate_iff}
use iwaya.Config.Load.{
  parse_each, parse_section, parse_sections, parse_text, load, config_error, root_node,
  check_version, empty_config,
}
use iwaya.Config.Loaded.{load-IsValid}
use iwaya.Config.Written.{document_of, load-document_of}

-- The runtime of every context is a single executable.
abbrev pub IsRunnable : Config → Type 0
IsRunnable config = All (λ c. is_single_executable c.runtime ≡ true) config.contexts

map_ok-eq-ok {ℓ ℓ' κ} :
    {E : Type κ} {A : Type ℓ} {B : Type ℓ'} (f : A → B) (r : Result E A) {b : B}
    → map_ok f r ≡ ok b
    → (a : A) × (r ≡ ok a) × (f a ≡ b)
map_ok-eq-ok f (ok a) h = (a, refl, ground arith)
map_ok-eq-ok f (err e) h = cc

module _ (K : Kdl) where
  open K use {Node, name}

  parse_each-All {ℓ} :
      {A : Type ℓ} (P : A → Type 0) (parse_node : Node → Result ParseFailure A) (nodes : List Node)
      (before found : List A)
      → ((node : Node) (a : A) → parse_node node ≡ ok a → P a)
      → All P before
      → parse_each K parse_node nodes before ≡ ok found
      → All P found
  unfolding parse_each
  parse_each-All P parse_node [] before found each all h =
      let same : before ≡ found = ground arith in subst (All P) same all
  parse_each-All P parse_node (node ∷ nodes) before found each all h =
      let (item, parsed, rest) = >>=-eq-ok (parse_node node) _ h in
      parse_each-All P parse_node nodes (push before item) found each
        ((All-append_iff P before (item ∷ [])).1 (all, (each node item parsed, tt))) rest

  parse_section-IsRunnable :
      (section : Node) (config next : Config)
      → IsRunnable config
      → parse_section K section config ≡ ok next
      → IsRunnable next
  unfolding parse_section
  parse_section-IsRunnable section config next runnable h =
      elim (Bool-cases (name section =? "providers")) [
        | inl providers ↦
            let (ps, _, same) = map_ok-eq-ok _ _ (rw (providers) at h) in
            subst IsRunnable same runnable
        | inr other ↦ elim (Bool-cases (name section =? "contexts")) [
          | inl contexts ↦
              let (cs, parsed, same) = map_ok-eq-ok _ _ (rw (other, contexts) at h) in
              subst IsRunnable same (
                parse_each-All (λ c. is_single_executable c.runtime ≡ true) (parse_context K)
                  (children K section) config.contexts cs
                  (λ node c it. (parse_context-IsContextOf K node c it).executable) runnable parsed)
          | inr neither ↦ elim (Bool-cases (name section =? "policies")) [
            | inl policies ↦
                let (ps, _, same) = map_ok-eq-ok _ _ (rw (other, neither, policies) at h) in
                subst IsRunnable same runnable
            | inr unknown ↦ cc (rw (other, neither, unknown) at h)
          ]
        ]
      ]

  parse_sections-IsRunnable :
      (sections : List Node) (config last : Config)
      → IsRunnable config
      → parse_sections K sections config ≡ ok last
      → IsRunnable last
  unfolding parse_sections
  parse_sections-IsRunnable [] config last runnable h =
      let same : config ≡ last = ground arith in subst IsRunnable same runnable
  parse_sections-IsRunnable (section ∷ rest) config last runnable h =
      let (next, parsed, later) = >>=-eq-ok (parse_section K section config) _ h in
      parse_sections-IsRunnable rest next last
        (parse_section-IsRunnable section config next runnable parsed) later

  parse_text-IsRunnable :
      (text : String) (config : Config) → parse_text K text ≡ ok config → IsRunnable config
  unfolding parse_text
  parse_text-IsRunnable text config h =
      let (nodes, _, h1) = >>=-eq-ok (map_err syntax (K.parse_document text)) _ h in
      let (root, _, h2) = >>=-eq-ok (root_node K nodes) _ h1 in
      let (_, _, h3) =
        >>=-eq-ok (check_version (and_then (K.get root "version") K.as_integer)) _ h2 in
      let (built, parsed, h4) = >>=-eq-ok (parse_sections K (children K root) empty_config) _ h3 in
      let (_, _, same) = >>=-eq-ok (validate built) _ h4 in
      let result : built ≡ config = ground arith in
      subst IsRunnable result
        (parse_sections-IsRunnable (children K root) empty_config built tt parsed)

  load-IsRunnable :
      (read_to_string : String → Result String String) (path : String) (config : Config)
      → load K read_to_string path ≡ ok config
      → IsRunnable config
  unfolding load
  load-IsRunnable read_to_string path config h =
      let (text, _, parsed) =
        >>=-eq-ok (map_err (read path) (read_to_string path))
          (λ text. map_err (config_error K path) (parse_text K text)) h in
      parse_text-IsRunnable text config
        (map_err-eq-ok (config_error K path) (parse_text K text) parsed)

-- The configuration is loaded from some document.
abbrev pub IsLoaded : Config → Type 1
IsLoaded config =
    (K : Kdl) × (read_to_string : String → Result String String) × (path : String) × (load K
        read_to_string path
      ≡ ok config)

-- The configurations that are loaded from some document are exactly those that are valid and whose
-- runtimes are single executables: the parser and the validator let nothing else through, and every such
-- configuration can be written, with no name, order or setting lost.
pub load_iff : (config : Config) → IsLoaded config ↔ (IsValid config × IsRunnable config)
load_iff config = (
  λ (K, read_to_string, path, h).
      (load-IsValid K read_to_string path config h, load-IsRunnable K read_to_string path config h),
  λ (valid, runnable). (
    always (document_of config),
    (λ _. ok ""),
    "config.kdl",
    load-document_of config (λ _. ok "") "config.kdl" "" refl ((validate_iff config).1 valid)
        runnable,
  ),
)
