-- ===== src/Phantom/Matching.antt =====
-- The comparison of a presented credential is equality of texts.
use Prim.Native.Nat.{bit_or, bit_xor}
use iwaya.Prelude.{ℕ, ◌≡◌, ◌↔◌, refl, String, List, [], ◌∷◌, true, length, arith}
use iwaya.Text.Utf8.{as_bytes}
use iwaya.Text.Encoding.{as_bytes_inj}
use iwaya.Phantom.{Phantom, matches_presented, fold_difference}
use iwaya.Phantom.Bits.{bit_xor-zero_iff, bit_or-zero_iff}

fold_difference-zero_iff :
    (acc : ℕ) (xs ys : List ℕ)
    → length xs ≡ length ys
    → (fold_difference acc xs ys ≡ 0) ↔ ((acc ≡ 0) × (xs ≡ ys))
unfolding fold_difference
fold_difference-zero_iff acc [] [] h = (λ e. (e, refl), λ e. e.0)
fold_difference-zero_iff acc [] (y ∷ ys) h = absurd (omega arith)
fold_difference-zero_iff acc (x ∷ xs) [] h = absurd (omega arith)
fold_difference-zero_iff acc (x ∷ xs) (y ∷ ys) h = ground (
  arith,
  fold_difference-zero_iff (bit_or acc (bit_xor x y)) xs ys (omega arith),
  bit_or-zero_iff acc (bit_xor x y),
  bit_xor-zero_iff x y,
)

-- A presented value is accepted exactly if it is the phantom's value, although the code compares
-- lengths and folds the differences of all bytes.
pub matches_presented_iff :
    (p : Phantom) (presented : String)
    → (matches_presented p presented ≡ true) ↔ (p.value ≡ presented)
unfolding matches_presented
matches_presented_iff p presented = (
  λ h.
      as_bytes_inj _ _
        (ground (arith, fold_difference-zero_iff 0 (as_bytes p.value) (as_bytes presented))),
  λ e. rw (← e) (ground (arith, fold_difference-zero_iff 0 (as_bytes p.value) (as_bytes p.value))),
)
