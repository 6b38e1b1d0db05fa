-- ===== src/Media.antt =====
-- internal/media/g711.go: G.711 companding and the decimation of Opus audio. An int16 sample is an
-- integer; bytes and the non-negative ints of the bit tricks are natural numbers.
mod Codec
pub mod Transcode
pub mod Downsample
mod Tests
use talk_telephony_gateway_p.Base.{
  ℕ, zero, suc, ◌+◌, ◌-◌, ◌*◌, ◌/◌, ◌%◌, ◌^◌, Bool, true, false, List, [], ◌∷◌, map, length, take,
  drop, ltb, leb, ◌==◌, if◌then◌else◌, bit_and, bit_or, bit_xor, min,
}
use talk_telephony_gateway_p.Base.Int.{ℤ, pos, negsuc, sub_ℕ, ◌+ℤ◌, neg, quot_ℤ, to_int16}

-- `if s < 0 { s = -s }`
abbrev pub magnitude : ℤ → ℕ
magnitude (pos n) = n
magnitude (negsuc n) = suc n

abbrev pub is_negative : ℤ → Bool
is_negative (pos n) = false
is_negative (negsuc n) = true

-- `MuLawToPCM`
pub mu_law_to_pcm : ℕ → ℤ
mu_law_to_pcm byte =
    let u = bit_xor byte 0xff in
    let t = (bit_and u 0x0f * 2 ^ 3 + 0x84) * 2 ^ (bit_and u 0x70 / 2 ^ 4) in
    if bit_and u 0x80 == 0 then to_int16 (sub_ℕ t 0x84) else to_int16 (sub_ℕ 0x84 t)

-- The loop `for mask := 0x4000; exponent > 0 && s&mask == 0; mask >>= 1 { exponent-- }`
pub mu_exponent : ℕ → ℕ → ℕ → ℕ
mu_exponent zero mask s = zero
mu_exponent (suc exponent) mask s =
    let lower = mu_exponent exponent (mask / 2) s in
    if bit_and s mask == 0 then lower else suc exponent

abbrev pub mu_byte : Bool → ℕ → ℕ → ℕ
mu_byte negative exponent mantissa =
    bit_xor
      (bit_or (bit_or (if negative then 0x80 else 0) (exponent * 2 ^ 4 % 256)) (mantissa % 256))
      0xff

pub mu_encode : Bool → ℕ → ℕ
mu_encode negative absolute =
    let s = (if ltb 32635 absolute then 32635 else absolute) + 0x84 in
    let exponent = mu_exponent 7 0x4000 s in
    mu_byte negative exponent (bit_and (s / 2 ^ (exponent + 3)) 0x0f)

-- `PCMToMuLaw`
pub pcm_to_mu_law : ℤ → ℕ
pcm_to_mu_law sample = mu_encode (is_negative sample) (magnitude sample)

-- `ALawToPCM`
pub a_law_to_pcm : ℕ → ℤ
a_law_to_pcm byte =
    let a = bit_xor byte 0x55 in
    let segment = bit_and a 0x70 / 2 ^ 4 in
    let base = bit_and a 0x0f * 2 ^ 4 + 8 in
    let raised = if leb 1 segment then base + 0x100 else base in
    let t = if ltb 1 segment then raised * 2 ^ (segment - 1) else raised in
    if bit_and a 0x80 == 0 then to_int16 (neg (pos t)) else to_int16 (pos t)

-- The loop `for v := s >> 8; v > 1 && exponent < 7; v >>= 1 { exponent++ }`, with the rounds left
pub a_exponent : ℕ → ℕ → ℕ → ℕ
a_exponent zero exponent v = exponent
a_exponent (suc rounds) exponent v =
    let higher = a_exponent rounds (suc exponent) (v / 2) in if ltb 1 v then higher else exponent

abbrev pub a_byte : Bool → ℕ → ℕ → ℕ
a_byte negative exponent mantissa =
    bit_xor
      (bit_or (bit_or (if negative then 0 else 0x80) (exponent * 2 ^ 4 % 256)) (mantissa % 256))
      0x55

pub a_encode : Bool → ℕ → ℕ
a_encode negative absolute =
    let s = if ltb 32767 absolute then 32767 else absolute in
    let exponent = a_exponent 6 1 (s / 2 ^ 8) in
    if ltb s 256
    then a_byte negative 0 (s / 2 ^ 4)
    else a_byte negative exponent (bit_and (s / 2 ^ (exponent + 3)) 0x0f)

-- `PCMToALaw`
pub pcm_to_a_law : ℤ → ℕ
pcm_to_a_law sample = a_encode (is_negative sample) (magnitude sample)

-- `DecodeG711` and `EncodeG711`; payload type 8 is A-law, any other is mu-law.
unfoldable pub decode_g711 : List ℕ → ℕ → List ℤ
decode_g711 [] payload_type = []
decode_g711 (b ∷ bs) payload_type =
    (if payload_type == 8 then a_law_to_pcm b else mu_law_to_pcm b) ∷ decode_g711 bs payload_type

unfoldable pub encode_g711 : List ℤ → ℕ → List ℕ
encode_g711 [] payload_type = []
encode_g711 (s ∷ ss) payload_type =
    (if payload_type == 8 then pcm_to_a_law s else pcm_to_mu_law s) ∷ encode_g711 ss payload_type

abbrev pub sum : List ℤ → ℤ
sum [] = pos 0
sum (x ∷ xs) = x +ℤ sum xs

-- The loop of `Downsample48To8`: an average for each six samples, and for the rest.
pub downsample_loop : ℕ → List ℤ → List ℤ
downsample_loop zero rest = []
downsample_loop (suc fuel) [] = []
downsample_loop (suc fuel) (x ∷ rest) =
    let chunk = take 6 (x ∷ rest) in
    to_int16 (quot_ℤ (sum chunk) (length chunk)) ∷ downsample_loop fuel (drop 6 (x ∷ rest))

-- Each round takes a sample at least.
unfoldable pub downsample_48_to_8 : List ℤ → List ℤ
unfolding downsample_loop
downsample_48_to_8 samples = downsample_loop (length samples) samples
