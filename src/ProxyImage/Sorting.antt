-- ===== src/ProxyImage/Sorting.antt =====
-- src/proxy_image.rs: `sort`, `sort_by` and the removal of repeated neighbours, on entries with a key.
use text.Mathlib.TextEquality.{eq_iff, Char-path}
use iwaya.Prelude.{
  String, code, List, [], ◌∷◌, true, false, ◌≡◌, ◌⊎◌, refl, sym, ap₂, ◌∙◌, inl, inr, All, All-map,
  Any, Bool-cases, if◌then◌else◌, arith,
}
use iwaya.Text.{◌=?◌}
use iwaya.ProxyImage.Maps.{precedes}

module _ {A : Type 0} (key : A → String) where
  -- The entry in front of the first that does not precede it.
  unfoldable pub insert : A → List A → List A
  insert x [] = x ∷ []
  insert x (y ∷ ys) =
      let later = insert x ys in if precedes (key y) (key x) then y ∷ later else x ∷ y ∷ ys

  -- `sort_by`, which keeps the order of entries with equal keys
  unfoldable pub sort : List A → List A
  sort [] = []
  sort (x ∷ xs) = insert x (sort xs)

  -- `dedup_by`, behind an entry that was kept
  unfoldable pub dedup_behind : A → List A → List A
  dedup_behind kept [] = []
  dedup_behind kept (x ∷ xs) =
      let without = dedup_behind kept xs in
      let with_it = x ∷ dedup_behind x xs in if key x =? key kept then without else with_it

  unfoldable pub dedup : List A → List A
  dedup [] = []
  dedup (x ∷ xs) = x ∷ dedup_behind x xs

-- Every text stands on one side of a text that precedes another.
precedes_split :
    (a b c : String) → precedes a c ≡ true → (precedes a b ≡ true) ⊎ (precedes b c ≡ true)
unfolding precedes
precedes_split String.[] String.[] c h = inr h
precedes_split String.[] (String.◌∷◌ y b) c h = inl refl
precedes_split (String.◌∷◌ x a) b String.[] h = cc
precedes_split (String.◌∷◌ x a) String.[] (String.◌∷◌ z c) h = inr refl
precedes_split (String.◌∷◌ x a) (String.◌∷◌ y b) (String.◌∷◌ z c) h =
    ground (arith, precedes_split a b c)

-- Texts of which neither precedes the other are equal.
precedes_antisym : (a b : String) → precedes a b ≡ false → precedes b a ≡ false → a ≡ b
unfolding precedes
precedes_antisym String.[] String.[] h k = refl
precedes_antisym String.[] (String.◌∷◌ y b) h k = cc
precedes_antisym (String.◌∷◌ x a) String.[] h k = cc
precedes_antisym (String.◌∷◌ x a) (String.◌∷◌ y b) h k =
    let same : code x ≡ code y = ground arith in
    ap₂ String.◌∷◌ (Char-path x y same) (precedes_antisym a b (ground arith) (ground arith))

pub precedes_asym : (a b : String) → precedes a b ≡ true → precedes b a ≡ false
unfolding precedes
precedes_asym String.[] String.[] h = cc
precedes_asym String.[] (String.◌∷◌ y b) h = refl
precedes_asym (String.◌∷◌ x a) String.[] h = cc
precedes_asym (String.◌∷◌ x a) (String.◌∷◌ y b) h = ground (arith, precedes_asym a b)

precedes_trans : (a b c : String) → precedes a b ≡ true → precedes b c ≡ true → precedes a c ≡ true
precedes_trans a b c h k = ground (arith, precedes_split a c b h, precedes_asym b c k)

by_difference : (a b : String) → precedes b a ≡ false → (b =? a) ≡ false → precedes a b ≡ true
by_difference a b p differ = elim (Bool-cases (precedes a b)) [
  | inl before ↦ before
  | inr behind ↦ cc (sym differ ∙ (eq_iff b a).1 (precedes_antisym b a p behind))
]

module _ {A : Type 0} (key : A → String) where
  -- No entry precedes one that stands before it.
  abbrev Ordered : List A → Type 0
  Ordered [] = Unit
  Ordered (x ∷ xs) = All (λ y. precedes (key y) (key x) ≡ false) xs × Ordered xs

  -- Each entry precedes every later one.
  abbrev pub Ascending : List A → Type 0
  Ascending [] = Unit
  Ascending (x ∷ xs) = All (λ y. precedes (key x) (key y) ≡ true) xs × Ascending xs

  insert-All : (P : A → Type 0) (x : A) (ys : List A) → P x → All P ys → All P (insert key x ys)
  unfolding insert
  insert-All P x [] p h = (p, tt)
  insert-All P x (y ∷ ys) p (q, h) = elim (Bool-cases (precedes (key y) (key x))) [
    | inl before ↦ rw before (q, insert-All P x ys p h)
    | inr behind ↦ rw behind (p, (q, h))
  ]

  behind_both :
      (x y : A) (ys : List A)
      → precedes (key y) (key x) ≡ false
      → All (λ z. precedes (key z) (key y) ≡ false) ys
      → All (λ z. precedes (key z) (key x) ≡ false) ys
  behind_both x y [] h k = tt
  behind_both x y (z ∷ ys) h (p, k) =
      (ground (arith, precedes_split (key z) (key y) (key x)), behind_both x y ys h k)

  insert-Ordered : (x : A) (ys : List A) → Ordered ys → Ordered (insert key x ys)
  unfolding insert
  insert-Ordered x [] h = (tt, tt)
  insert-Ordered x (y ∷ ys) (p, h) = elim (Bool-cases (precedes (key y) (key x))) [
    | inl before ↦ rw before (
      insert-All (λ z. precedes (key z) (key y) ≡ false) x ys (precedes_asym (key y) (key x) before)
          p,
      insert-Ordered x ys h,
    )
    | inr behind ↦ rw behind ((behind, behind_both x y ys behind p), (p, h))
  ]

  sort-Ordered : (xs : List A) → Ordered (sort key xs)
  unfolding sort
  sort-Ordered [] = tt
  sort-Ordered (x ∷ xs) = insert-Ordered x (sort key xs) (sort-Ordered xs)

  dedup_behind-Ascending :
      (kept : A) (xs : List A)
      → All (λ y. precedes (key y) (key kept) ≡ false) xs
      → Ordered xs
      → All (λ y. precedes (key kept) (key y) ≡ true) (dedup_behind key kept xs)
        × Ascending (dedup_behind key kept xs)
  unfolding dedup_behind
  dedup_behind-Ascending kept [] h k = (tt, tt)
  dedup_behind-Ascending kept (x ∷ xs) (p, h) (q, k) = elim (Bool-cases (key x =? key kept)) [
    | inl same ↦ rw same (dedup_behind-Ascending kept xs h k)
    | inr other ↦
        let later = dedup_behind-Ascending x xs q k in
        let next : precedes (key kept) (key x) ≡ true = by_difference (key kept) (key x) p other in
        rw other (
          (
            next,
            All-map (λ y r. precedes_trans (key kept) (key x) (key y) next r)
                (dedup_behind key x xs) later.0,
          ),
          (later.0, later.1),
        )
  ]

  dedup-Ascending : (xs : List A) → Ordered xs → Ascending (dedup key xs)
  unfolding dedup
  dedup-Ascending [] h = tt
  dedup-Ascending (x ∷ xs) (p, h) = dedup_behind-Ascending x xs p h

  HasKey : String → List A → Type 0
  HasKey k xs = Any (λ y. key y ≡ k) xs

  insert-HasKey :
      (k : String) (x : A) (ys : List A) → HasKey k (x ∷ ys) → HasKey k (insert key x ys)
  unfolding insert HasKey
  insert-HasKey k x [] m = m
  insert-HasKey k x (y ∷ ys) m = elim (Bool-cases (precedes (key y) (key x))) [
    | inr behind ↦ rw behind m
    | inl before ↦ rw before (elim m [
      | inl here ↦ inr (insert-HasKey k x ys (inl here))
      | inr (inl next) ↦ inl next
      | inr (inr later) ↦ inr (insert-HasKey k x ys (inr later))
    ])
  ]

  sort-HasKey : (k : String) (xs : List A) → HasKey k xs → HasKey k (sort key xs)
  unfolding sort HasKey
  sort-HasKey k [] m = m
  sort-HasKey k (x ∷ xs) (inl here) = insert-HasKey k x (sort key xs) (inl here)
  sort-HasKey k (x ∷ xs) (inr later) =
      insert-HasKey k x (sort key xs) (inr (sort-HasKey k xs later))

  dedup_behind-HasKey :
      (k : String) (kept : A) (xs : List A)
      → HasKey k (kept ∷ xs)
      → HasKey k (kept ∷ dedup_behind key kept xs)
  unfolding dedup_behind HasKey
  dedup_behind-HasKey k kept [] m = m
  dedup_behind-HasKey k kept (x ∷ xs) (inl here) = inl here
  dedup_behind-HasKey k kept (x ∷ xs) (inr later) = elim (Bool-cases (key x =? key kept)) [
    | inr other ↦ rw other (inr (dedup_behind-HasKey k x xs later))
    | inl same ↦ rw same (elim later [
      | inl here ↦ inl (sym ((eq_iff (key x) (key kept)).0 same) ∙ here)
      | inr further ↦ dedup_behind-HasKey k kept xs (inr further)
    ])
  ]

  dedup-HasKey : (k : String) (xs : List A) → HasKey k xs → HasKey k (dedup key xs)
  unfolding dedup HasKey
  dedup-HasKey k [] m = m
  dedup-HasKey k (x ∷ xs) m = dedup_behind-HasKey k x xs m

  -- Sorting and the removal of repeated neighbours leave entries whose keys strictly ascend, so no key
  -- stands twice, and no key is lost.
  pub dedup-sort-Ascending :
      (xs : List A)
      → Ascending (dedup key (sort key xs))
        × ((k : String) → Any (λ y. key y ≡ k) xs → Any (λ y. key y ≡ k) (dedup key (sort key xs)))
  unfolding HasKey
  dedup-sort-Ascending xs = (
    dedup-Ascending (sort key xs) (sort-Ordered xs),
    λ k m. dedup-HasKey k (sort key xs) (sort-HasKey k xs m),
  )
