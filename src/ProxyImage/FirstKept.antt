-- ===== src/ProxyImage/FirstKept.antt =====
-- src/proxy_image.rs: which entry the sorting and the removal of repeated neighbours keep of a key.
use text.Mathlib.TextEquality.{eq_iff}
use iwaya.Prelude.{
  String, List, [], ◌∷◌, Option, some, find, ap, true, false, ◌≡◌, refl, sym, ◌∙◌, inl, inr,
  Bool-cases, if◌then◌else◌, arith,
}
use iwaya.Text.{◌=?◌}
use iwaya.ProxyImage.Maps.{precedes}
use iwaya.ProxyImage.Sorting.{insert, sort, dedup_behind, dedup, precedes_asym}

module _ {A : Type 0} (key : A → String) where
  first : String → List A → Option A
  first k xs = find (λ y. key y =? k) xs

  irreflexive : (x y : A) → precedes (key y) (key x) ≡ true → (key y =? key x) ≡ false
  irreflexive x y h = elim (Bool-cases (key y =? key x)) [
    | inr other ↦ other
    | inl same ↦
        let e = (eq_iff (key y) (key x)).0 same in
        let back : precedes (key x) (key y) ≡ true = rw (e) (rw e at h) in
        cc (sym back ∙ precedes_asym (key y) (key x) h)
  ]

  -- The two heads may change places when one precedes the other.
  first-swap :
      (k : String) (x y : A) (ys : List A)
      → precedes (key y) (key x) ≡ true
      → first k (y ∷ x ∷ ys) ≡ first k (x ∷ y ∷ ys)
  unfolding first
  first-swap k x y ys h =
      ground (arith, irreflexive x y h, eq_iff (key y) k, eq_iff (key x) k, eq_iff (key y) (key x))

  insert-first : (k : String) (x : A) (ys : List A) → first k (insert key x ys) ≡ first k (x ∷ ys)
  unfolding insert first
  insert-first k x [] = refl
  insert-first k x (y ∷ ys) = elim (Bool-cases (precedes (key y) (key x))) [
    | inr behind ↦ rw behind refl
    | inl before ↦ rw before (
        ap (λ o. if key y =? k then some y else o) (insert-first k x ys)
        ∙ first-swap k x y ys before)
  ]

  sort-first : (k : String) (xs : List A) → first k (sort key xs) ≡ first k xs
  unfolding sort first
  sort-first k [] = refl
  sort-first k (x ∷ xs) =
      insert-first k x (sort key xs) ∙ ap (λ o. if key x =? k then some x else o) (sort-first k xs)

  dedup_behind-first :
      (k : String) (kept : A) (xs : List A)
      → first k (kept ∷ dedup_behind key kept xs) ≡ first k (kept ∷ xs)
  unfolding dedup_behind first
  dedup_behind-first k kept [] = refl
  dedup_behind-first k kept (x ∷ xs) = elim (Bool-cases (key x =? key kept)) [
    | inl same ↦
        rw same (dedup_behind-first k kept xs ∙ ground (arith, (eq_iff (key x) (key kept)).0 same))
    | inr other ↦
        rw other (ap (λ o. if key kept =? k then some kept else o) (dedup_behind-first k x xs))
  ]

  dedup-first : (k : String) (xs : List A) → first k (dedup key xs) ≡ first k xs
  unfolding dedup
  dedup-first k [] = refl
  dedup-first k (x ∷ xs) = dedup_behind-first k x xs

  -- Of the entries with a key it is the first that is kept.
  pub dedup-sort-first :
      (k : String) (xs : List A)
      → find (λ y. key y =? k) (dedup key (sort key xs)) ≡ find (λ y. key y =? k) xs
  unfolding dedup first
  dedup-sort-first k xs = dedup-first k (sort key xs) ∙ sort-first k xs
