-- ===== src/Prelude/Fallible.antt =====
-- Rust's `Result` and `?`, and the `Option` combinators that the program chains.
use mathlib.Core.Path.{◌≡◌, refl}
use mathlib.Core.Logic.{◌↔◌, ◌⊎◌, inl, inr}
use mathlib.Core.Bool.{Bool, true, false}
use mathlib.Core.Option.{Option, none, some}

pub data Result {ℓ κ} (E : Type κ) (A : Type ℓ) : Type (ℓ ⊔ κ) where
  ok : A → Result E A
  err : E → Result E A

-- `e?` and what follows it
infixl 5 ◌>>=◌ ◌>>◌
abbrev pub ◌>>=◌ {ℓ ℓ' κ} :
    {E : Type κ} {A : Type ℓ} {B : Type ℓ'} → Result E A → (A → Result E B) → Result E B
err failure >>= next = err failure
ok value >>= next = next value

abbrev pub ◌>>◌ {ℓ ℓ' κ} :
    {E : Type κ} {A : Type ℓ} {B : Type ℓ'} → Result E A → Result E B → Result E B
m >> k = m >>= λ _. k

-- `return Err(e)` unless the test holds
abbrev pub ensure {κ} : {E : Type κ} → Bool → E → Result E (Unit {0})
ensure true e = ok tt
ensure false e = err e

abbrev pub map_err {ℓ κ κ'} :
    {E : Type κ} {F : Type κ'} {A : Type ℓ} → (E → F) → Result E A → Result F A
map_err f (ok a) = ok a
map_err f (err e) = err (f e)

abbrev pub map_ok {ℓ ℓ' κ} :
    {E : Type κ} {A : Type ℓ} {B : Type ℓ'} → (A → B) → Result E A → Result E B
map_ok f (ok a) = ok (f a)
map_ok f (err e) = err e

-- `option.ok_or(e)`
abbrev pub ok_or {ℓ κ} : {E : Type κ} {A : Type ℓ} → E → Option A → Result E A
ok_or e none = err e
ok_or e (some a) = ok a

-- `option.or_else(…)`, `option.and_then(f)` and `option.map(f)`
abbrev pub or_else {ℓ} : {A : Type ℓ} → Option A → Option A → Option A
or_else none b = b
or_else (some a) b = some a

abbrev pub and_then {ℓ ℓ'} : {A : Type ℓ} {B : Type ℓ'} → Option A → (A → Option B) → Option B
and_then none f = none
and_then (some a) f = f a

abbrev pub map_option {ℓ ℓ'} : {A : Type ℓ} {B : Type ℓ'} → (A → B) → Option A → Option B
map_option f none = none
map_option f (some a) = some (f a)

abbrev pub unwrap_or {ℓ} : {A : Type ℓ} → A → Option A → A
unwrap_or d none = d
unwrap_or d (some a) = a

-- A chain that succeeds has gone through each step.
pub >>=-eq-ok {ℓ ℓ' κ} :
    {E : Type κ} {A : Type ℓ} {B : Type ℓ'} (first : Result E A) (next : A → Result E B) {last : B}
    → (first >>= next) ≡ ok last
    → (middle : A) × (first ≡ ok middle) × (next middle ≡ ok last)
>>=-eq-ok (err failure) next stopped = cc
>>=-eq-ok (ok middle) next went = (middle, refl, went)

pub ensure-eq-ok {κ} : {E : Type κ} (b : Bool) (e : E) {u : Unit {0}} → ensure b e ≡ ok u → b ≡ true
ensure-eq-ok true e h = refl
ensure-eq-ok false e h = cc

-- A check succeeds exactly if its test does, and two in a row exactly if both do.
pub ensure_iff {κ} : {E : Type κ} (b : Bool) (e : E) → (ensure b e ≡ ok tt) ↔ (b ≡ true)
ensure_iff true e = (λ _. refl, λ _. refl)
ensure_iff false e = (λ h. cc, λ h. cc)

pub then_iff {ℓ κ} :
    {E : Type κ} {A : Type ℓ} (m : Result E (Unit {0})) (k : Result E A) (a : A)
    → ((m >> k) ≡ ok a) ↔ ((m ≡ ok tt) × (k ≡ ok a))
then_iff (ok tt) k a = (λ h. (refl, h), λ h. h.1)
then_iff (err e) k a = (λ h. cc, λ h. cc)

pub Result-cases {ℓ κ} :
    {E : Type κ} {A : Type ℓ} (m : Result E A) → ((a : A) × (m ≡ ok a)) ⊎ ((e : E) × (m ≡ err e))
Result-cases (ok a) = inl (a, refl)
Result-cases (err e) = inr (e, refl)

pub map_err-eq-ok {ℓ κ κ'} :
    {E : Type κ} {F : Type κ'} {A : Type ℓ} (f : E → F) (m : Result E A) {a : A}
    → map_err f m ≡ ok a
    → m ≡ ok a
map_err-eq-ok f (ok a) h = cc
map_err-eq-ok f (err e) h = cc

pub ok_or-eq-ok {ℓ κ} :
    {E : Type κ} {A : Type ℓ} (e : E) (o : Option A) {a : A} → ok_or e o ≡ ok a → o ≡ some a
ok_or-eq-ok e none h = cc
ok_or-eq-ok e (some a) h = cc
