-- ===== src/Proxy/Arming.antt =====
-- src/proxy.rs: which transferred routes `parse_transfer` arms.
use iwaya.Prelude.{
  ℕ, List, [], ◌∷◌, ◌++◌, map, length, Bool, true, false, not, ◌≡◌, ◌↔◌, ◌≢◌, refl, sym, ap, ◌∙◌,
  none, some, ok, err, Option-cases, Bool-cases, inl, inr, arith, All,
}
use iwaya.Config.Origin.{is_http_origin}
use iwaya.Transfer.{RouteTransfer}
use iwaya.Proxy.{ProxyRoute, invalid_upstream, position, arm, arm_routes}

-- A position is none exactly if no element passes the test.
position-none_iff :
    {A : Type 0} (p : A → Bool) (xs : List A) → (position p xs ≡ none) ↔ All (λ x. p x ≡ false) xs
unfolding position
position-none_iff p [] = (λ _. tt, λ _. refl)
position-none_iff p (x ∷ xs) = elim (Option-cases (position p xs)) [
  | inl missing ↦ ground (arith, position-none_iff p xs)
  | inr (i, found) ↦ ground (arith, position-none_iff p xs)
]

-- The first element that passes, with all before it failing.
pub record IsFirst {A : Type 0} (p : A → Bool) (xs : List A) (i : ℕ) : Type 0 where
  pub before : List A
  pub here : A
  pub after : List A
  pub split : xs ≡ before ++ here ∷ after
  pub index : length before ≡ i
  pub passes : p here ≡ true
  pub fail : All (λ x. p x ≡ false) before

position-IsFirst :
    {A : Type 0} (p : A → Bool) (xs : List A) (i : ℕ) → position p xs ≡ some i → IsFirst p xs i
unfolding position
position-IsFirst p [] i h = cc
position-IsFirst p (x ∷ xs) i h = elim (Bool-cases (p x)) [
  | inl hit ↦ record {
    before = [];
    here = x;
    after = xs;
    split = refl;
    index = ground arith;
    passes = hit;
    fail = tt;
  }
  | inr miss ↦ elim (Option-cases (position p xs)) [
    | inl missing ↦ cc (rw (miss, missing) at h)
    | inr (j, found) ↦
        let later = position-IsFirst p xs j found in
        record {
          before = x ∷ later.before;
          here = later.here;
          after = later.after;
          split = ap (◌∷◌ x) later.split;
          index = ground (arith, later.index);
          passes = later.passes;
          fail = (miss, later.fail);
        }
  ]
]

abbrev has_bad_upstream : RouteTransfer → Bool
has_bad_upstream route = not (is_http_origin route.upstream)

All-origins_iff :
    (routes : List RouteTransfer)
    → All (λ r. has_bad_upstream r ≡ false) routes
      ↔ All (λ r. is_http_origin r.upstream ≡ true) routes
All-origins_iff [] = (λ _. tt, λ _. tt)
All-origins_iff (r ∷ rs) = ground (arith, All-origins_iff rs)

-- The routes are armed exactly if there is one and every upstream is an HTTP origin; all of them
-- are armed then, each in its place.
pub arm_routes_iff :
    (routes : List RouteTransfer) (armed : List ProxyRoute)
    → (arm_routes routes ≡ ok armed) ↔ (
        (routes ≢ [])
        × All (λ r. is_http_origin r.upstream ≡ true) routes
        × (map arm routes ≡ armed))
unfolding arm_routes
arm_routes_iff [] armed = (λ h. cc, λ h. absurd (h.0 refl))
arm_routes_iff (r ∷ rs) armed = elim (Option-cases (position has_bad_upstream (r ∷ rs))) [
  | inl missing ↦
      let fine =
        (All-origins_iff (r ∷ rs)).0 ((position-none_iff has_bad_upstream (r ∷ rs)).0 missing) in
      rw (missing, arm_routes) (λ h. (λ e. cc, fine, ground arith), λ (_, _, e). ap ok e)
  | inr (j, found) ↦
      rw (found, arm_routes)
        (
          λ h. cc,
          λ (_, fine, _). cc (
              sym found
              ∙ (position-none_iff has_bad_upstream (r ∷ rs)).1
                  ((All-origins_iff (r ∷ rs)).1 fine)),
        )
]

-- A refusal names the first route whose upstream is none.
pub arm_routes-IsFirst :
    (routes : List RouteTransfer) (i : ℕ)
    → arm_routes routes ≡ err (invalid_upstream i)
    → IsFirst (λ r. not (is_http_origin r.upstream)) routes i
unfolding arm_routes
arm_routes-IsFirst [] i h = cc
arm_routes-IsFirst (r ∷ rs) i h = elim (Option-cases (position has_bad_upstream (r ∷ rs))) [
  | inl missing ↦ cc (rw (missing, arm_routes) at h)
  | inr (j, found) ↦
      let same : err (invalid_upstream j) ≡ err (invalid_upstream i) =
        rw (found, arm_routes) at h in
      position-IsFirst has_bad_upstream (r ∷ rs) i (found ∙ ap some (ground arith))
]
