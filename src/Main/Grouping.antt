-- ===== src/Main/Grouping.antt =====
-- src/main.rs: the grouping of the declared secrets by provider.
use iwaya.Prelude.{
  List, [], ◌∷◌, ◌++◌, true, false, ◌≡◌, refl, sym, ap, ◌∙◌, inl, inr, Bool-cases, if◌then◌else◌,
  subst,
}
use iwaya.Text.{◌=?◌}
use text.Mathlib.TextEquality.{eq_iff}
use mathlib.Core.List.{append-nil, append_assoc}
use iwaya.Config.{ProviderId, SecretName, CommandPolicy, eq_provider_id}
use iwaya.Main.{declared, add_name, group, names_by_provider}

-- The names of a provider's group, which is the first of its identifier.
unfoldable pub names_of : ProviderId → List (ProviderId × List SecretName) → List SecretName
names_of p [] = []
names_of p ((id, names) ∷ groups) =
    let rest = names_of p groups in if eq_provider_id id p then names else rest

-- The names that are declared with a provider, in order.
unfoldable pub declared_of : ProviderId → List (ProviderId × SecretName) → List SecretName
declared_of p [] = []
declared_of p ((id, name) ∷ rest) =
    let later = declared_of p rest in if eq_provider_id id p then name ∷ later else later

names_of-add_name-same :
    (p q : ProviderId) (name : SecretName) (groups : List (ProviderId × List SecretName))
    → p.id ≡ q.id
    → names_of p (add_name q name groups) ≡ names_of p groups ++ (name ∷ [])
unfolding names_of add_name
names_of-add_name-same p q name [] h = rw ((eq_iff q.id p.id).1 (sym h)) refl
names_of-add_name-same p q name ((id, names) ∷ groups) h =
    let IH = names_of-add_name-same p q name groups h in
    elim (Bool-cases (eq_provider_id id q)) [
      | inl same ↦
          let at : (eq_provider_id id p ≡ true) =
            (eq_iff id.id p.id).1 ((eq_iff id.id q.id).0 same ∙ sym h) in
          rw (same, at) refl
      | inr other ↦
          let at : (eq_provider_id id p ≡ false) =
            subst (λ x. (id.id =? x) ≡ false) (sym h) other in
          rw (other, at) IH
    ]

names_of-add_name-other :
    (p q : ProviderId) (name : SecretName) (groups : List (ProviderId × List SecretName))
    → (eq_provider_id q p ≡ false)
    → names_of p (add_name q name groups) ≡ names_of p groups
unfolding names_of add_name
names_of-add_name-other p q name [] h = rw (h) refl
names_of-add_name-other p q name ((id, names) ∷ groups) h =
    let IH = names_of-add_name-other p q name groups h in
    elim (Bool-cases (eq_provider_id id q)) [
      | inl same ↦
          let at : (eq_provider_id id p ≡ false) =
            subst (λ x. (x =? p.id) ≡ false) (sym ((eq_iff id.id q.id).0 same)) h in
          rw (same, at) refl
      | inr other ↦ elim (Bool-cases (eq_provider_id id p)) [
        | inl at ↦ rw (other, at) refl
        | inr at ↦ rw (other, at) IH
      ]
    ]

names_of-group :
    (p : ProviderId) (ds : List (ProviderId × SecretName))
    (groups : List (ProviderId × List SecretName))
    → names_of p (group ds groups) ≡ names_of p groups ++ declared_of p ds
unfolding group declared_of
names_of-group p [] groups = sym (append-nil (names_of p groups))
names_of-group p ((q, name) ∷ ds) groups =
    let IH = names_of-group p ds (add_name q name groups) in
    elim (Bool-cases (eq_provider_id q p)) [
      | inl same ↦ rw (same) (
          IH
          ∙ ap (λ x. x ++ declared_of p ds)
              (names_of-add_name-same p q name groups (sym ((eq_iff q.id p.id).0 same)))
          ∙ append_assoc (names_of p groups) (name ∷ []) (declared_of p ds))
      | inr other ↦
          rw (other)
            (IH ∙ ap (λ x. x ++ declared_of p ds) (names_of-add_name-other p q name groups other))
    ]

-- A provider's group holds the names that the policy declares with it, the direct secrets' first and
-- then the proxied ones', each in the policy's order, and no other.
pub names_by_provider-eq :
    (policy : CommandPolicy) (p : ProviderId)
    → names_of p (names_by_provider policy) ≡ declared_of p (declared policy)
unfolding names_by_provider names_of
names_by_provider-eq policy p = names_of-group p (declared policy) []
