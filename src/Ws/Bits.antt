-- ===== src/Ws/Bits.antt =====
-- The bit fields of a frame's first two bytes, and the big-endian numbers of its length.
use talk_telephony_gateway_p.Base.{
  ℕ, ◌^◌, ◌<◌, ◌≡◌, refl, Bool, true, false, not, ◌&&◌, ◌==◌, ==_iff, if◌then◌else◌, bit_and,
  bit_or, arith, and_true,
}
use talk_telephony_gateway_p.Base.Bytes.{all_below, all_below_sound}
use talk_telephony_gateway_p.Ws.{put_be, be_from}

not-true : {b : Bool} → b ≡ true → not b ≡ false
not-true e = rw e

abbrev first_byte : Bool → ℕ → ℕ
first_byte fin opcode = bit_or (if fin then 0x80 else 0) opcode

abbrev opcode_kept : Bool → ℕ → Bool
opcode_kept fin o =
    bit_and (first_byte fin o) 0x0f == o
    && (if fin
        then not (bit_and (first_byte fin o) 0x80 == 0)
        else bit_and (first_byte fin o) 0x80 == 0)

opcode_final : all_below 16 (opcode_kept true) ≡ true
unfolding all_below
opcode_final = refl

opcode_partial : all_below 16 (opcode_kept false) ≡ true
unfolding all_below
opcode_partial = refl

-- The first byte of a frame holds its fin bit and its opcode.
pub first_byte_opcode :
    (fin : Bool) (o : ℕ) → o < 16 → bit_and (bit_or (if fin then 0x80 else 0) o) 0x0f ≡ o
first_byte_opcode true o h =
    (==_iff _ o).0 (and_true _ _ (all_below_sound 16 (opcode_kept true) o opcode_final h)).0
first_byte_opcode false o h =
    (==_iff _ o).0 (and_true _ _ (all_below_sound 16 (opcode_kept false) o opcode_partial h)).0

pub first_byte_fin :
    (fin : Bool) (o : ℕ)
    → o < 16
    → not (bit_and (bit_or (if fin then 0x80 else 0) o) 0x80 == 0) ≡ fin
first_byte_fin true o h = (and_true _ _ (all_below_sound 16 (opcode_kept true) o opcode_final h)).1
first_byte_fin false o h =
    not-true (and_true _ _ (all_below_sound 16 (opcode_kept false) o opcode_partial h)).1

abbrev length_kept : ℕ → Bool
length_kept n = bit_and (bit_or 0x80 n) 0x7f == n && not (bit_and (bit_or 0x80 n) 0x80 == 0)

length_table : all_below 128 length_kept ≡ true
unfolding all_below
length_table = refl

-- The second byte of a masked frame holds seven bits of length under the mask bit.
pub second_byte_length : (n : ℕ) → n < 128 → bit_and (bit_or 0x80 n) 0x7f ≡ n
second_byte_length n h =
    (==_iff _ n).0 (and_true _ _ (all_below_sound 128 length_kept n length_table h)).0

pub second_byte_masked : (n : ℕ) → n < 128 → not (bit_and (bit_or 0x80 n) 0x80 == 0) ≡ true
second_byte_masked n h = (and_true _ _ (all_below_sound 128 length_kept n length_table h)).1

abbrev plain_kept : ℕ → Bool
plain_kept n = bit_and n 0x7f == n && bit_and n 0x80 == 0

plain_table : all_below 128 plain_kept ≡ true
unfolding all_below
plain_table = refl

pub plain_byte_length : (n : ℕ) → n < 128 → bit_and n 0x7f ≡ n
plain_byte_length n h =
    (==_iff _ n).0 (and_true _ _ (all_below_sound 128 plain_kept n plain_table h)).0

pub plain_byte_unmasked : (n : ℕ) → n < 128 → not (bit_and n 0x80 == 0) ≡ false
plain_byte_unmasked n h = not-true (and_true _ _ (all_below_sound 128 plain_kept n plain_table h)).1

pub opcode_masked : (o : ℕ) → o < 16 → bit_and o 0x0f ≡ o
opcode_masked o h = (==_iff _ o).0 (all_below_sound 16 (λ o. bit_and o 0x0f == o) o nibbles h)
  where
    nibbles : all_below 16 (λ o. bit_and o 0x0f == o) ≡ true
    nibbles = unfold all_below in refl

-- The big-endian bytes of a 16-bit and of a 64-bit number read back as the number.
pub be_from-put_be_two : (n : ℕ) → n < 2 ^ 16 → be_from 0 (put_be 2 n) ≡ n
unfolding be_from put_be
be_from-put_be_two n h = omega arith

pub be_from-put_be_eight : (n : ℕ) → n < 2 ^ 64 → be_from 0 (put_be 8 n) ≡ n
unfolding be_from put_be
be_from-put_be_eight n h = omega arith
