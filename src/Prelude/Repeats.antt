-- ===== src/Prelude/Repeats.antt =====
-- Lists without repetition, as a loop sees them that keeps the elements it has met.
use mathlib.Core.Path.{◌≡◌, refl, sym}
use mathlib.Core.Logic.{◌↔◌, ◌≢◌}
use mathlib.Core.Bool.{Bool, true, not}
use mathlib.Core.List.{List, [], ◌∷◌, ◌++◌, reverse_aux}
use native.Mathlib.Omega.{arith}
use iwaya.Prelude.Lists.{All, any}

module _ {ℓ} {A : Type ℓ} where
  abbrev pub Distinct : List A → Type ℓ
  Distinct [] = Unit
  Distinct (x ∷ xs) = All (λ y. x ≢ y) xs × Distinct xs

  -- Each element differs from those met before, the latest of which stands first.
  abbrev pub Fresh : List A → List A → Type ℓ
  Fresh [] seen = Unit
  Fresh (x ∷ xs) seen = All (λ y. x ≢ y) seen × Fresh xs (x ∷ seen)

  abbrev pub Apart : List A → List A → Type ℓ
  Apart xs seen = All (λ x. All (λ y. x ≢ y) seen) xs

  Apart-cons :
      (a : A) (xs seen : List A) → Apart xs (a ∷ seen) → All (λ y. a ≢ y) xs × Apart xs seen
  Apart-cons a [] seen h = (tt, tt)
  Apart-cons a (x ∷ xs) seen ((p, h), k) =
      let (here, later) = Apart-cons a xs seen k in ((λ e. p (sym e), here), (h, later))

  cons-Apart :
      (a : A) (xs seen : List A) → All (λ y. a ≢ y) xs → Apart xs seen → Apart xs (a ∷ seen)
  cons-Apart a [] seen h k = tt
  cons-Apart a (x ∷ xs) seen (p, h) (q, k) = ((λ e. p (sym e), q), cons-Apart a xs seen h k)

  Fresh-to-Distinct : (xs seen : List A) → Fresh xs seen → Distinct xs × Apart xs seen
  Fresh-to-Distinct [] seen h = (tt, tt)
  Fresh-to-Distinct (x ∷ xs) seen (p, h) =
      let (distinct, apart) = Fresh-to-Distinct xs (x ∷ seen) h in
      let (differ, others) = Apart-cons x xs seen apart in ((differ, distinct), (p, others))

  Distinct-to-Fresh : (xs seen : List A) → Distinct xs → Apart xs seen → Fresh xs seen
  Distinct-to-Fresh [] seen h k = tt
  Distinct-to-Fresh (x ∷ xs) seen (p, h) (q, k) =
      (q, Distinct-to-Fresh xs (x ∷ seen) h (cons-Apart x xs seen p k))

  Apart-nil : (xs : List A) → Apart xs []
  Apart-nil [] = tt
  Apart-nil (x ∷ xs) = (tt, Apart-nil xs)

  -- With nothing met before, freshness is distinctness.
  pub Fresh-nil_iff : (xs : List A) → Fresh xs [] ↔ Distinct xs
  Fresh-nil_iff xs =
      (λ h. (Fresh-to-Distinct xs [] h).0, λ h. Distinct-to-Fresh xs [] h (Apart-nil xs))

  pub Fresh-append_iff :
      (xs ys seen : List A)
      → Fresh (xs ++ ys) seen ↔ (Fresh xs seen × Fresh ys (reverse_aux xs seen))
  Fresh-append_iff [] ys seen = (λ h. (tt, h), λ h. h.1)
  Fresh-append_iff (x ∷ xs) ys seen =
      let (to, from) = Fresh-append_iff xs ys (x ∷ seen) in
      (λ (p, h). ((p, (to h).0), (to h).1), λ ((p, h), k). (p, from (h, k)))

  -- A test for equality finds out whether an element is new.
  pub is_new_iff :
      (eq : A → A → Bool)
      → ((a b : A) → (eq a b ≡ true) ↔ (a ≡ b))
      → (x : A) (seen : List A) → (not (any (λ y. eq x y) seen) ≡ true) ↔ All (λ y. x ≢ y) seen
  is_new_iff eq h x [] = (λ _. tt, λ _. refl)
  is_new_iff eq h x (y ∷ seen) = ground (arith, h x y, is_new_iff eq h x seen)
