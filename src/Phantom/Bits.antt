-- ===== src/Phantom/Bits.antt =====
-- When `a | b` and `a ^ b` are zero.
use Prim.Native.Nat.{bit_or, bit_xor, digits, differ, max, bit_or-bitwise, bit_xor-bitwise}
use iwaya.Prelude.{ℕ, zero, suc, ◌/◌, ◌%◌, ◌≤◌, ◌≡◌, ◌↔◌, refl, sym, ap, ◌∙◌, arith}

differ-zero : (x y : ℕ) → differ x y ≡ 0 → x ≡ y
differ-zero zero y h = omega arith
differ-zero (suc x) zero h = h
differ-zero (suc x) (suc y) h = ap suc (differ-zero x y h)

differ_self : (x : ℕ) → differ x x ≡ 0
differ_self zero = refl
differ_self (suc x) = differ_self x

digits-differ-zero : (n a b : ℕ) → a ≤ n → digits (λ c. c) differ n a b ≡ 0 → a ≡ b
digits-differ-zero zero a b p h = omega arith
digits-differ-zero (suc n) zero b p h = omega arith
digits-differ-zero (suc n) (suc a) b p h = omega (
  arith,
  digits-differ-zero n (suc a / 2) (b / 2) (omega arith) (omega arith),
  differ-zero (suc a % 2) (b % 2) (omega arith),
)

digits-max-zero : (n a b : ℕ) → a ≤ n → digits (λ c. c) max n a b ≡ 0 → (a ≡ 0) × (b ≡ 0)
digits-max-zero zero a b p h = omega arith
digits-max-zero (suc n) zero b p h = omega arith
digits-max-zero (suc n) (suc a) b p h =
    omega (arith, digits-max-zero n (suc a / 2) (b / 2) (omega arith) (omega arith))

digits-differ_self : (n a : ℕ) → a ≤ n → digits (λ c. c) differ n a a ≡ 0
digits-differ_self zero a p = omega arith
digits-differ_self (suc n) zero p = refl
digits-differ_self (suc n) (suc a) p =
    omega (arith, digits-differ_self n (suc a / 2) (omega arith), differ_self (suc a % 2))

pub bit_xor-zero_iff : (a b : ℕ) → (bit_xor a b ≡ 0) ↔ (a ≡ b)
bit_xor-zero_iff a b = (
  λ h. digits-differ-zero a a b (omega arith) (sym (bit_xor-bitwise a b) ∙ h),
  λ e. rw (← e) (bit_xor-bitwise a a ∙ digits-differ_self a a (omega arith)),
)

pub bit_or-zero_iff : (a b : ℕ) → (bit_or a b ≡ 0) ↔ ((a ≡ 0) × (b ≡ 0))
bit_or-zero_iff a b = (
  λ h. digits-max-zero a a b (omega arith) (sym (bit_or-bitwise a b) ∙ h),
  λ e. rw (e.0, e.1) refl,
)
