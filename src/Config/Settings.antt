-- ===== src/Config/Settings.antt =====
-- src/config/context.rs: which settings a parsed context has.
use iwaya.Prelude.{
  ℕ, String, List, [], ◌∷◌, Option, none, some, Bool, true, false, ◌≡◌, refl, sym, subst, ◌∙◌, inl,
  inr, ok, >>=-eq-ok, filter, arith, Option-cases, Bool-cases, Result-cases, ◌==◌, if◌then◌else◌,
}
use text.Mathlib.TextEquality.{eq_iff}
use iwaya.Text.{◌=?◌}
use iwaya.Kdl.{Kdl}
use iwaya.Config.Nodes.{single_string_argument}
use iwaya.Config.ParseContext.{
  Settings, Setting, the_runtime, the_user, the_workdir, the_container_name, setting_of,
  get_setting, put_setting, read_setting, read_settings,
}

abbrev index : Setting → ℕ
index the_runtime = 0
index the_user = 1
index the_workdir = 2
index the_container_name = 3

get_setting-put_setting :
    (t u : Setting) (v : String) (s : Settings)
    → get_setting t (put_setting u v s) ≡ (if index t == index u then some v else get_setting t s)
get_setting-put_setting the_runtime u v s = ground arith
get_setting-put_setting the_user u v s = ground arith
get_setting-put_setting the_workdir u v s = ground arith
get_setting-put_setting the_container_name u v s = ground arith

index_inj : (t u : Setting) → (index t == index u) ≡ true → t ≡ u
index_inj the_runtime u h = ground arith
index_inj the_user u h = ground arith
index_inj the_workdir u h = ground arith
index_inj the_container_name u h = ground arith

-- The name of a child that sets each.
abbrev pub key : Setting → String
key the_runtime = "runtime"
key the_user = "user"
key the_workdir = "workdir"
key the_container_name = "container-name"

clash : (s a b : String) → (a =? b) ≡ false → (s =? a) ≡ true → (s =? b) ≡ false
clash s a b h e = rw ((eq_iff s a).0 e) h

setting_of-key :
    (t : Setting) (s : String)
    → elim (setting_of s) [ none ↦ false | some u ↦ index t == index u ] ≡ (s =? key t)
unfolding setting_of
setting_of-key the_runtime s = ground arith
setting_of-key the_user s = ground (arith, clash s "runtime" "user" refl)
setting_of-key the_workdir s =
    ground (arith, clash s "runtime" "workdir" refl, clash s "user" "workdir" refl)
setting_of-key the_container_name s = ground (
  arith,
  clash s "runtime" "container-name" refl,
  clash s "user" "container-name" refl,
  clash s "workdir" "container-name" refl,
)

module _ (K : Kdl) where
  open K use {Node, name}

  -- The children that set one of the four.
  unfoldable pub sets : Setting → Node → Bool
  sets t child = elim (setting_of (name child)) [ none ↦ false | some u ↦ index t == index u ]

  sets-key : (t : Setting) (child : Node) → sets t child ≡ (name child =? key t)
  unfolding sets
  sets-key t child = setting_of-key t (name child)

  pub filter-sets :
      (t : Setting) (nodes : List Node)
      → filter (sets t) nodes ≡ filter (λ child. name child =? key t) nodes
  filter-sets t nodes i = filter (λ child. sets-key t child i) nodes

  -- How a setting comes by its value: from the one child that sets it, or from none.
  pub data Reads (owner : String) (t : Setting) (nodes : List Node) (before after : Option String)
      : Type 0 where
    from_child :
        (child : Node) (value : String)
        → before ≡ none
        → filter (sets t) nodes ≡ child ∷ []
        → single_string_argument K child owner ≡ ok value
        → after ≡ some value
        → Reads owner t nodes before after
    unset : filter (sets t) nodes ≡ [] → after ≡ before → Reads owner t nodes before after

  read_setting-parts :
      (owner : String) (child : Node) (s next : Settings)
      → read_setting K owner child s ≡ ok next
      → (u : Setting) × (value : String) × (setting_of (name child) ≡ some u)
        × (get_setting u s ≡ none)
        × (single_string_argument K child owner ≡ ok value)
        × (next ≡ put_setting u value s)
  unfolding read_setting
  read_setting-parts owner child s next h = elim (Option-cases (setting_of (name child))) [
    | inl unknown ↦ cc (rw (unknown, read_setting) at h)
    | inr (u, known) ↦ elim (Option-cases (get_setting u s)) [
      | inr (old, again) ↦ cc (rw (known, again, read_setting) at h)
      | inl fresh ↦ elim (Result-cases (single_string_argument K child owner)) [
        | inr (e, bad) ↦ cc (rw (known, fresh, bad, read_setting) at h)
        | inl (value, good) ↦
            let same : ok (put_setting u value s) ≡ ok next =
              rw (known, fresh, good, read_setting) at h in
            (u, value, known, fresh, good, ground arith)
      ]
    ]
  ]

  sets-known :
      (t u : Setting) (child : Node)
      → setting_of (name child) ≡ some u
      → sets t child ≡ (index t == index u)
  unfolding sets
  sets-known t u child known = rw (known, sets) refl

  Reads-cons :
      (owner : String) (t u : Setting) (child : Node) (rest : List Node) (value : String)
      (s s1 : Settings)
      → setting_of (name child) ≡ some u
      → get_setting u s ≡ none
      → single_string_argument K child owner ≡ ok value
      → Reads owner t rest (get_setting t (put_setting u value s)) (get_setting t s1)
      → Reads owner t (child ∷ rest) (get_setting t s) (get_setting t s1)
  Reads-cons owner t u child rest value s s1 known fresh good later =
      let put = get_setting-put_setting t u value s in
      elim (Bool-cases (index t == index u)) [
        | inl same ↦
            let here : get_setting t s ≡ none =
              subst (λ x. get_setting x s ≡ none) (sym (index_inj t u same)) fresh in
            let filled : get_setting t (put_setting u value s) ≡ some value = rw same at put in
            elim later [
              | from_child c v before only arg after ↦ cc (sym filled ∙ before)
              | unset nothing after ↦
                  from_child child value here (rw (sets-known t u child known, same, nothing) refl)
                    good (after ∙ filled)
            ]
        | inr other ↦
            let kept : get_setting t (put_setting u value s) ≡ get_setting t s = rw other at put in
            elim later [
              | from_child c v before only arg after ↦
                  from_child c v (sym kept ∙ before) (rw (sets-known t u child known, other) only)
                    arg after
              | unset nothing after ↦
                  unset (rw (sets-known t u child known, other) nothing) (after ∙ kept)
            ]
      ]

  pub read_settings-Reads :
      (owner : String) (nodes : List Node) (s s1 : Settings)
      → read_settings K owner nodes s ≡ ok s1
      → (t : Setting) → Reads owner t nodes (get_setting t s) (get_setting t s1)
  unfolding read_settings
  read_settings-Reads owner [] s s1 h t = unset refl (ground arith)
  read_settings-Reads owner (child ∷ rest) s s1 h t =
      let (next, first, others) =
        >>=-eq-ok (read_setting K owner child s) (read_settings K owner rest) h in
      let (u, value, known, fresh, good, same) = read_setting-parts owner child s next first in
      Reads-cons owner t u child rest value s s1 known fresh good (
        subst (λ x. Reads owner t rest (get_setting t x) (get_setting t s1)) same
          (read_settings-Reads owner rest next s1 others t))
