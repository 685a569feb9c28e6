-- ===== src/Phantom.antt =====
-- src/phantom.rs: invocation-scoped phantom credentials.
mod Bits
pub mod Matching
pub mod Minting
mod Tests
use Prim.Native.Nat.{bit_or, bit_xor}
use iwaya.Prelude.{
  ℕ, zero, suc, String, ◌<>◌, List, [], ◌∷◌, Bool, false, Result, ok, err, ◌==◌, if◌then◌else◌,
  length,
}
use iwaya.Text.Number.{hex}
use iwaya.Text.Utf8.{as_bytes}

abbrev pub entropy_bytes : ℕ
entropy_bytes = 32

abbrev pub prefix : String
prefix = "iwaya-phantom-"

-- `Phantom(String)`
pub record Phantom : Type 0 where
  pub value : String

-- `GenerateError`, with the message of the entropy source's own error
pub record GenerateError : Type 0 where
  pub source : String

-- `Phantom::generate`. The entropy source is asked for `entropy_bytes` bytes; its answer is an
-- argument.
unfoldable pub generate : (ℕ → Result String (List ℕ)) → Result GenerateError Phantom
unfolding hex
generate fill = elim (fill entropy_bytes) [
  | err source ↦ err (record { source = source })
  | ok bytes ↦ ok (record { value = prefix <> hex bytes })
]

-- `GenerateError`'s `Display`
unfoldable pub show_generate_error : GenerateError → String
show_generate_error e =
    "cannot generate a phantom credential: no usable OS entropy source: " <> e.source

unfoldable pub from_transferred : String → Phantom
from_transferred value = record { value = value }

unfoldable pub expose_to_target_env : Phantom → String
expose_to_target_env p = p.value

unfoldable pub expose_to_transfer : Phantom → String
expose_to_transfer p = p.value

-- The fold over the zipped bytes: `acc | (a ^ b)`.
unfoldable pub fold_difference : ℕ → List ℕ → List ℕ → ℕ
fold_difference acc [] theirs = acc
fold_difference acc (a ∷ ours) [] = acc
fold_difference acc (a ∷ ours) (b ∷ theirs) = fold_difference (bit_or acc (bit_xor a b)) ours theirs

-- `Phantom::matches_presented`
unfoldable pub matches_presented : Phantom → String → Bool
unfolding fold_difference as_bytes
matches_presented p presented =
    let ours = as_bytes p.value in
    let theirs = as_bytes presented in
    if length ours == length theirs then fold_difference 0 ours theirs == 0 else false
