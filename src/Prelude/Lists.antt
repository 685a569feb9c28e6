-- ===== src/Prelude/Lists.antt =====
-- Lists measured by native numbers, and predicates and tests over them.
use Prim.Native.Nat.{ℕ, suc, ◌+◌}
use mathlib.Core.Path.{◌≡◌, refl}
use mathlib.Core.Logic.{◌↔◌, ◌⊎◌}
use mathlib.Core.Bool.{Bool, true, false, ◌&&◌, ◌||◌}
use mathlib.Core.Option.{Option, none, some}
use mathlib.Core.List.{List, [], ◌∷◌, ◌++◌}
use native.Mathlib.Omega.{arith}
use iwaya.Prelude.Tests.{if◌then◌else◌}

module _ {ℓ} {A : Type ℓ} where
  abbrev pub length : List A → ℕ
  length [] = 0
  length (x ∷ xs) = suc (length xs)

  pub length-append : (xs ys : List A) → length (xs ++ ys) ≡ length xs + length ys
  length-append [] ys = omega arith
  length-append (x ∷ xs) ys = omega (arith, length-append xs ys)

  -- `iter().all(p)` and `iter().any(p)`
  abbrev pub all : (A → Bool) → List A → Bool
  all p [] = true
  all p (x ∷ xs) = p x && all p xs

  abbrev pub any : (A → Bool) → List A → Bool
  any p [] = false
  any p (x ∷ xs) = p x || any p xs

  -- `iter().find(p)`
  abbrev pub find : (A → Bool) → List A → Option A
  find p [] = none
  find p (x ∷ xs) = if p x then some x else find p xs

  -- `iter().filter(p)`
  abbrev pub filter : (A → Bool) → List A → List A
  filter p [] = []
  filter p (x ∷ xs) = let rest = filter p xs in if p x then x ∷ rest else rest

  -- `Vec::push`
  abbrev pub push : List A → A → List A
  push xs x = xs ++ x ∷ []

module _ {ℓ κ} {A : Type ℓ} (P : A → Type κ) where
  abbrev pub All : List A → Type κ
  All [] = Unit
  All (x ∷ xs) = P x × All xs

module _ {ℓ} {A : Type ℓ} (P : A → Type 0) where
  abbrev pub Any : List A → Type 0
  Any [] = ⊥
  Any (x ∷ xs) = P x ⊎ Any xs

  pub All-append_iff : (xs ys : List A) → All P (xs ++ ys) ↔ (All P xs × All P ys)
  All-append_iff [] ys = (λ h. (tt, h), λ h. h.1)
  All-append_iff (x ∷ xs) ys =
      let (to, from) = All-append_iff xs ys in
      (λ (p, h). ((p, (to h).0), (to h).1), λ ((p, h), k). (p, from (h, k)))

  -- A test that decides a predicate at each element decides it for all, and for some.
  pub all_iff :
      (p : A → Bool) → ((x : A) → (p x ≡ true) ↔ P x) → (xs : List A) → (all p xs ≡ true) ↔ All P xs
  all_iff p h [] = (λ _. tt, λ _. refl)
  all_iff p h (x ∷ xs) = ground (arith, h x, all_iff p h xs)

  pub any_iff :
      (p : A → Bool) → ((x : A) → (p x ≡ true) ↔ P x) → (xs : List A) → (any p xs ≡ true) ↔ Any xs
  any_iff p h [] = (λ e. cc, λ e. absurd e)
  any_iff p h (x ∷ xs) = ground (arith, h x, any_iff p h xs)

-- A property of each element carries over along an implication.
pub All-map {ℓ κ κ'} :
    {A : Type ℓ} {P : A → Type κ} {Q : A → Type κ'}
    → ((x : A) → P x → Q x)
    → (xs : List A) → All P xs
    → All Q xs
All-map f [] h = tt
All-map f (x ∷ xs) (p, h) = (f x p, All-map f xs h)
