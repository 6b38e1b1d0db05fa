-- ===== src/Base/Bytes.antt =====
-- Facts on all bytes, checked by evaluation.
use Prim.Native.Nat.{ℕ, zero, suc, ◌<◌, bit_xor}
use mathlib.Core.Path.{◌≡◌, refl}
use mathlib.Core.Bool.{Bool, true, ◌&&◌}
use native.Mathlib.Omega.{arith}
use talk_telephony_gateway_p.Base.Tests.{◌==◌, ==_iff, and_true, Bool-cases}
use mathlib.Core.Logic.{inl, inr}

-- Whether a test holds of all numbers under the bound.
unfoldable pub all_below : (bound : ℕ) (test : ℕ → Bool) → Bool
all_below zero test = true
all_below (suc last) test = all_below last test && test last

pub all_below_sound :
    (bound : ℕ) (test : ℕ → Bool) (n : ℕ) → all_below bound test ≡ true → n < bound → test n ≡ true
unfolding all_below
all_below_sound zero test n checked under = absurd (omega arith)
all_below_sound (suc last) test n checked under =
    let (before, here) = and_true (all_below last test) (test last) checked in
    elim (Bool-cases (n == last)) [
      | inl e ↦ rw ((==_iff n last).0 e) here
      | inr e ↦ all_below_sound last test n before (ground (arith, e, ==_iff n last))
    ]

abbrev pub IsByte : ℕ → Type 0
IsByte b = b < 256

byte_xor_table : all_below 256 (λ a. all_below 256 (λ m. bit_xor (bit_xor a m) m == a)) ≡ true
unfolding all_below
byte_xor_table = refl

-- Masking a byte twice with the same byte gives it back.
pub byte-xor_twice : (a m : ℕ) → IsByte a → IsByte m → bit_xor (bit_xor a m) m ≡ a
byte-xor_twice a m ha hm = (==_iff _ a).0 (
    all_below_sound 256 _ m
      (all_below_sound 256 (λ a. all_below 256 (λ m. bit_xor (bit_xor a m) m == a)) a byte_xor_table
        ha)
      hm)
