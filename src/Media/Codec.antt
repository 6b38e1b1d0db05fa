-- ===== src/Media/Codec.antt =====
-- The companding functions, checked on every byte and on every int16 sample.
use talk_telephony_gateway_p.Base.{
  ℕ, suc, ◌+◌, ◌-◌, ◌*◌, ◌/◌, ◌%◌, ◌≤◌, ◌≡◌, refl, subst, ◌⊎◌, Bool, true, false, not, ◌&&◌, ◌||◌,
  ltb, leb, ◌==◌, ==_iff, if◌then◌else◌, arith,
}
use talk_telephony_gateway_p.Base.Int.{ℤ, pos, negsuc, IsInt16}
use talk_telephony_gateway_p.Base.Bytes.{all_below, all_below_sound, IsByte}
use talk_telephony_gateway_p.Media.{
  magnitude, is_negative, mu_law_to_pcm, mu_exponent, mu_encode, pcm_to_mu_law, a_law_to_pcm,
  a_exponent, a_encode, pcm_to_a_law,
}

a_law_table : all_below 256 (λ b. pcm_to_a_law (a_law_to_pcm b) == b) ≡ true
unfolding all_below pcm_to_a_law a_encode a_exponent a_law_to_pcm
a_law_table = refl

-- An A-law byte survives decoding and encoding.
pub pcm_to_a_law-a_law_to_pcm : (b : ℕ) → IsByte b → pcm_to_a_law (a_law_to_pcm b) ≡ b
pcm_to_a_law-a_law_to_pcm b h =
    (==_iff _ b).0 (all_below_sound 256 (λ b. pcm_to_a_law (a_law_to_pcm b) == b) b a_law_table h)

mu_law_table :
    all_below 256 (λ b. pcm_to_mu_law (mu_law_to_pcm b) == (if b == 0x7f then 0xff else b)) ≡ true
unfolding all_below pcm_to_mu_law mu_encode mu_exponent mu_law_to_pcm
mu_law_table = refl

-- A mu-law byte survives too, but for the negative zero 0x7f, which becomes the positive one.
pub pcm_to_mu_law-mu_law_to_pcm :
    (b : ℕ) → IsByte b → pcm_to_mu_law (mu_law_to_pcm b) ≡ (if b == 0x7f then 0xff else b)
pcm_to_mu_law-mu_law_to_pcm b h = (==_iff _ _).0 (
    all_below_sound 256 (λ b. pcm_to_mu_law (mu_law_to_pcm b) == (if b == 0x7f then 0xff else b)) b
      mu_law_table h)

abbrev distance : ℕ → ℕ → ℕ
distance a b = (a - b) + (b - a)

abbrev bool_eq : Bool → Bool → Bool
bool_eq true b = b
bool_eq false b = not b

abbrev a_close : Bool → ℕ → Bool
a_close negative n =
    let byte = a_encode negative n in
    let back = a_law_to_pcm byte in
    ltb byte 256
    && (leb (distance (magnitude back) n) (8 + n / 32) && bool_eq (is_negative back) negative)

abbrev mu_close : Bool → ℕ → Bool
mu_close negative n =
    let byte = mu_encode negative n in
    let back = mu_law_to_pcm byte in
    ltb byte 256
    && (leb (distance (magnitude back) n) ((n + 132) / 32)
        && (magnitude back == 0 || bool_eq (is_negative back) negative))

-- All magnitudes up to 32768, in rows of 256.
row : (ℕ → Bool) → ℕ → Bool
row p hi = all_below 256 (λ lo. p (hi * 256 + lo))

rows_sound : (p : ℕ → Bool) (n : ℕ) → all_below 129 (row p) ≡ true → n ≤ 32768 → p n ≡ true
unfolding row
rows_sound p n h le =
    subst (λ (k : ℕ). p k ≡ true) (omega arith)
      (all_below_sound 256 (λ lo. p (n / 256 * 256 + lo)) (n % 256)
        (all_below_sound 129 (row p) (n / 256) h (omega arith)) (omega arith))

a_positive_table : all_below 129 (row (a_close false)) ≡ true
unfolding all_below row a_encode a_exponent a_law_to_pcm
a_positive_table = refl

a_negative_table : all_below 129 (row (a_close true)) ≡ true
unfolding all_below row a_encode a_exponent a_law_to_pcm
a_negative_table = refl

mu_positive_table : all_below 129 (row (mu_close false)) ≡ true
unfolding all_below row mu_encode mu_exponent mu_law_to_pcm
mu_positive_table = refl

mu_negative_table : all_below 129 (row (mu_close true)) ≡ true
unfolding all_below row mu_encode mu_exponent mu_law_to_pcm
mu_negative_table = refl

magnitude_le : (s : ℤ) → IsInt16 s → magnitude s ≤ 32768
magnitude_le (pos n) h = omega arith
magnitude_le (negsuc n) h = omega arith

-- Encoding an int16 sample as A-law gives a byte, and decoding it the sample's sign and its
-- magnitude up to 8 and a 32nd of it.
pub a_law_error :
    (s : ℤ)
    → IsInt16 s
    → IsByte (pcm_to_a_law s)
      × (is_negative (a_law_to_pcm (pcm_to_a_law s)) ≡ is_negative s)
      × (magnitude (a_law_to_pcm (pcm_to_a_law s)) ≤ magnitude s + (8 + magnitude s / 32))
      × (magnitude s ≤ magnitude (a_law_to_pcm (pcm_to_a_law s)) + (8 + magnitude s / 32))
unfolding pcm_to_a_law
a_law_error (pos n) h =
    ground (arith, rows_sound (a_close false) n a_positive_table (magnitude_le (pos n) h))
a_law_error (negsuc n) h =
    ground (arith, rows_sound (a_close true) (suc n) a_negative_table (magnitude_le (negsuc n) h))

-- Encoding an int16 sample as mu-law gives a byte, and decoding it zero or the sample's sign, and
-- its magnitude up to a 32nd of the magnitude raised by the bias 132.
pub mu_law_error :
    (s : ℤ)
    → IsInt16 s
    → IsByte (pcm_to_mu_law s)
      × ((magnitude (mu_law_to_pcm (pcm_to_mu_law s)) ≡ 0)
          ⊎ (is_negative (mu_law_to_pcm (pcm_to_mu_law s)) ≡ is_negative s))
      × (magnitude (mu_law_to_pcm (pcm_to_mu_law s)) ≤ magnitude s + (magnitude s + 132) / 32)
      × (magnitude s ≤ magnitude (mu_law_to_pcm (pcm_to_mu_law s)) + (magnitude s + 132) / 32)
unfolding pcm_to_mu_law
mu_law_error (pos n) h =
    ground (arith, rows_sound (mu_close false) n mu_positive_table (magnitude_le (pos n) h))
mu_law_error (negsuc n) h =
    ground (arith, rows_sound (mu_close true) (suc n) mu_negative_table (magnitude_le (negsuc n) h))

-- Encoding an int16 sample gives a byte under either codec. Decoding it gives under A-law the sign
-- of the sample and its magnitude up to 8 and a 32nd of it, and under mu-law zero or the sign of
-- the sample, and its magnitude up to a 32nd of the magnitude raised by the bias 132.
pub g711_error :
    (s : ℤ)
    → IsInt16 s
    → (IsByte (pcm_to_a_law s)
        × (is_negative (a_law_to_pcm (pcm_to_a_law s)) ≡ is_negative s)
        × (magnitude (a_law_to_pcm (pcm_to_a_law s)) ≤ magnitude s + (8 + magnitude s / 32))
        × (magnitude s ≤ magnitude (a_law_to_pcm (pcm_to_a_law s)) + (8 + magnitude s / 32)))
      × (IsByte (pcm_to_mu_law s)
          × ((magnitude (mu_law_to_pcm (pcm_to_mu_law s)) ≡ 0)
              ⊎ (is_negative (mu_law_to_pcm (pcm_to_mu_law s)) ≡ is_negative s))
          × (magnitude (mu_law_to_pcm (pcm_to_mu_law s)) ≤ magnitude s + (magnitude s + 132) / 32)
          × (magnitude s ≤ magnitude (mu_law_to_pcm (pcm_to_mu_law s)) + (magnitude s + 132) / 32))
g711_error s h = (a_law_error s h, mu_law_error s h)
