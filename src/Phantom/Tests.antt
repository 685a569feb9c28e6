-- ===== src/Phantom/Tests.antt =====
-- src/phantom.rs: tests.
use iwaya.Prelude.{
  ℕ, zero, suc, String, List, [], ◌∷◌, All, true, ◌≡◌, ◌↔◌, refl, Result, ok, arith,
}
use iwaya.Text.{char_of}
use iwaya.Text.Number.{hex, hex_digit}
use iwaya.Phantom.{generate, matches_presented}
use iwaya.Phantom.Matching.{matches_presented_iff}
use iwaya.Phantom.Minting.{generate_inj, IsByte}

abbrev repeat_byte : ℕ → ℕ → List ℕ
repeat_byte zero b = []
repeat_byte (suc n) b = b ∷ repeat_byte n b

-- An entropy source that gives as many bytes as it is asked for.
abbrev constant_source : ℕ → Result String (List ℕ)
constant_source n = ok (repeat_byte n 171)

constant_bytes : All IsByte (repeat_byte 32 171)
constant_bytes = ground arith

matches_presented_example :
    (matches_presented (record { value = "iwaya-phantom-0a" }) "iwaya-phantom-0b" ≡ true)
    ↔ (◌≡◌ {A = String} "iwaya-phantom-0a" "iwaya-phantom-0b")
matches_presented_example =
    matches_presented_iff (record { value = "iwaya-phantom-0a" }) "iwaya-phantom-0b"

minted :
    generate constant_source
    ≡ ok (record {
      value = "iwaya-phantom-abababababababababababababababababababababababababababababababab";
    })
unfolding generate hex hex_digit char_of
minted = refl

generate_inj_example : repeat_byte 32 171 ≡ repeat_byte 32 171
generate_inj_example =
    generate_inj constant_source constant_source (repeat_byte 32 171) (repeat_byte 32 171)
      (record {
        value = "iwaya-phantom-abababababababababababababababababababababababababababababababab";
      })
      refl refl constant_bytes constant_bytes minted minted
