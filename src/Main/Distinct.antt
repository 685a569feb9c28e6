-- ===== src/Main/Distinct.antt =====
-- src/main.rs: the groups of the declared names have different providers.
use iwaya.Prelude.{String, List, [], ◌∷◌, false, ◌≡◌, inl, inr, Bool-cases, All, arith}
use text.Mathlib.TextEquality.{eq_iff}
use iwaya.Text.{◌=?◌}
use iwaya.Config.{ProviderId, SecretName, eq_provider_id}
use iwaya.Main.{add_name, group}

abbrev pub Groups : Type 0
Groups = List (ProviderId × List SecretName)

-- No group has this identifier.
abbrev pub Lacks : ProviderId → Groups → Type 0
Lacks p groups = All (λ g. eq_provider_id g.0 p ≡ false) groups

-- No two groups have one identifier.
abbrev pub IsDistinct : Groups → Type 0
IsDistinct [] = Unit
IsDistinct ((id, names) ∷ groups) = Lacks id groups × IsDistinct groups

eq_sym : (s t : String) → (s =? t) ≡ false → (t =? s) ≡ false
eq_sym s t h = ground (arith, eq_iff s t, eq_iff t s)

add_name-Lacks :
    (p q : ProviderId) (name : SecretName) (groups : Groups)
    → Lacks p groups
    → eq_provider_id q p ≡ false
    → Lacks p (add_name q name groups)
unfolding add_name
add_name-Lacks p q name [] h other = (other, tt)
add_name-Lacks p q name ((id, names) ∷ groups) (here, h) other =
    elim (Bool-cases (eq_provider_id id q)) [
      | inl same ↦ rw same (here, h)
      | inr differs ↦ rw differs (here, add_name-Lacks p q name groups h other)
    ]

add_name-IsDistinct :
    (q : ProviderId) (name : SecretName) (groups : Groups)
    → IsDistinct groups
    → IsDistinct (add_name q name groups)
unfolding add_name
add_name-IsDistinct q name [] h = (tt, tt)
add_name-IsDistinct q name ((id, names) ∷ groups) (lacks, h) =
    elim (Bool-cases (eq_provider_id id q)) [
      | inl same ↦ rw same (lacks, h)
      | inr differs ↦ rw differs (
        add_name-Lacks id q name groups lacks (eq_sym id.id q.id differs),
        add_name-IsDistinct q name groups h,
      )
    ]

pub group-IsDistinct :
    (ds : List (ProviderId × SecretName)) (groups : Groups)
    → IsDistinct groups
    → IsDistinct (group ds groups)
unfolding group
group-IsDistinct [] groups h = h
group-IsDistinct ((q, name) ∷ ds) groups h =
    group-IsDistinct ds (add_name q name groups) (add_name-IsDistinct q name groups h)
