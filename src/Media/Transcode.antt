-- ===== src/Media/Transcode.antt =====
-- `DecodeG711` and `EncodeG711` on whole payloads.
use talk_telephony_gateway_p.Base.{
  ℕ, ◌+◌, ◌/◌, ◌≤◌, ◌⊎◌, ◌≡◌, refl, Bool, true, List, [], ◌∷◌, map, length, ◌==◌, ltb, ◌^◌,
  if◌then◌else◌, arith, All, Bool-cases, inl, inr,
}
use talk_telephony_gateway_p.Base.Int.{ℤ, pos, negsuc, IsInt16}
use talk_telephony_gateway_p.Base.Bytes.{IsByte, all_below, all_below_sound}
use talk_telephony_gateway_p.Media.{
  magnitude, is_negative, mu_law_to_pcm, a_law_to_pcm, pcm_to_mu_law, pcm_to_a_law, decode_g711,
  encode_g711,
}
use talk_telephony_gateway_p.Media.Codec.{
  pcm_to_a_law-a_law_to_pcm, pcm_to_mu_law-mu_law_to_pcm, a_law_error, mu_law_error,
}

-- What a round trip through samples does to a byte.
abbrev pub settled_byte : ℕ → ℕ → ℕ
settled_byte payload_type b = if payload_type == 8 then b else if b == 0x7f then 0xff else b

-- Decoding a payload and encoding it again with the same codec gives the payload, except that
-- mu-law turns each 0x7f into 0xff.
pub encode-decode_g711 :
    (payload : List ℕ) (payload_type : ℕ)
    → All IsByte payload
    → encode_g711 (decode_g711 payload payload_type) payload_type
      ≡ map (settled_byte payload_type) payload
unfolding encode_g711 decode_g711
encode-decode_g711 [] t h = refl
encode-decode_g711 (b ∷ bs) t (hb, hbs) = ground (
  arith,
  encode-decode_g711 bs t hbs,
  pcm_to_a_law-a_law_to_pcm b hb,
  pcm_to_mu_law-mu_law_to_pcm b hb,
)

is_int16 : ℤ → Bool
is_int16 (pos a) = ltb a (2 ^ 15)
is_int16 (negsuc a) = ltb a (2 ^ 15)

is_int16-IsInt16 : (a : ℤ) → is_int16 a ≡ true → IsInt16 a
unfolding is_int16
is_int16-IsInt16 (pos a) h = ground arith
is_int16-IsInt16 (negsuc a) h = ground arith

a_law_range : all_below 256 (λ b. is_int16 (a_law_to_pcm b)) ≡ true
unfolding all_below is_int16 a_law_to_pcm
a_law_range = refl

mu_law_range : all_below 256 (λ b. is_int16 (mu_law_to_pcm b)) ≡ true
unfolding all_below is_int16 mu_law_to_pcm
mu_law_range = refl

a_law_to_pcm-IsInt16 : (b : ℕ) → IsByte b → IsInt16 (a_law_to_pcm b)
a_law_to_pcm-IsInt16 b h = is_int16-IsInt16 _ (all_below_sound 256 _ b a_law_range h)

mu_law_to_pcm-IsInt16 : (b : ℕ) → IsByte b → IsInt16 (mu_law_to_pcm b)
mu_law_to_pcm-IsInt16 b h = is_int16-IsInt16 _ (all_below_sound 256 _ b mu_law_range h)

pub decode_g711-IsInt16 :
    (payload : List ℕ) (payload_type : ℕ)
    → All IsByte payload
    → All IsInt16 (decode_g711 payload payload_type)
unfolding decode_g711
decode_g711-IsInt16 [] t h = tt
decode_g711-IsInt16 (b ∷ bs) t (hb, h) = (
  elim (Bool-cases (t == 8)) [
    | inl e ↦ rw e (a_law_to_pcm-IsInt16 b hb)
    | inr e ↦ rw e (mu_law_to_pcm-IsInt16 b hb)
  ],
  decode_g711-IsInt16 bs t h,
)

encode_g711-IsByte :
    (samples : List ℤ) (payload_type : ℕ)
    → All IsInt16 samples
    → All IsByte (encode_g711 samples payload_type)
unfolding encode_g711
encode_g711-IsByte [] t h = tt
encode_g711-IsByte (s ∷ ss) t (hs, h) = (
  elim (Bool-cases (t == 8)) [
    | inl e ↦ rw e (a_law_error s hs).0
    | inr e ↦ rw e (mu_law_error s hs).0
  ],
  encode_g711-IsByte ss t h,
)

pub length-encode_g711 :
    (samples : List ℤ) (t : ℕ) → length (encode_g711 samples t) ≡ length samples
unfolding encode_g711
length-encode_g711 [] t = refl
length-encode_g711 (s ∷ ss) t = omega (arith, length-encode_g711 ss t)

pub length-decode_g711 :
    (payload : List ℕ) (t : ℕ) → length (decode_g711 payload t) ≡ length payload
unfolding decode_g711
length-decode_g711 [] t = refl
length-decode_g711 (b ∷ bs) t = omega (arith, length-decode_g711 bs t)

-- Transcoding a payload of bytes from one codec to another keeps its length and gives bytes.
pub transcode_shape :
    (payload : List ℕ) (from to : ℕ)
    → All IsByte payload
    → All IsByte (encode_g711 (decode_g711 payload from) to)
      × (length (encode_g711 (decode_g711 payload from) to) ≡ length payload)
transcode_shape payload from to h = (
  encode_g711-IsByte _ to (decode_g711-IsInt16 payload from h),
  omega (arith, length-encode_g711 (decode_g711 payload from) to, length-decode_g711 payload from),
)

-- Two samples that sound alike: the same sign unless the second is zero, and magnitudes that differ
-- by 8 and a 32nd of the first at most.
pub IsNear : ℤ → ℤ → Type 0
IsNear s t =
    ((magnitude t ≡ 0) ⊎ (is_negative t ≡ is_negative s))
    × (magnitude t ≤ magnitude s + (8 + magnitude s / 32))
    × (magnitude s ≤ magnitude t + (8 + magnitude s / 32))

-- As many samples, each near its own.
pub AreNear : List ℤ → List ℤ → Type 0
AreNear [] [] = Unit {0}
AreNear [] (t ∷ ts) = ⊥
AreNear (s ∷ ss) [] = ⊥
AreNear (s ∷ ss) (t ∷ ts) = IsNear s t × AreNear ss ts

decoded-IsNear :
    (s : ℤ) (payload_type : ℕ)
    → IsInt16 s
    → IsNear s (
        if payload_type == 8
        then a_law_to_pcm (if payload_type == 8 then pcm_to_a_law s else pcm_to_mu_law s)
        else mu_law_to_pcm (if payload_type == 8 then pcm_to_a_law s else pcm_to_mu_law s))
unfolding IsNear
decoded-IsNear s t h = elim (Bool-cases (t == 8)) [
  | inl e ↦ let (_, sign, above, below) = a_law_error s h in rw e (inr sign, above, below)
  | inr e ↦
      let (_, sign, above, below) = mu_law_error s h in
      rw e (sign, omega (arith, above), omega (arith, below))
]

-- What is encoded is heard as samples near its own.
pub decode-encode_g711-AreNear :
    (samples : List ℤ) (payload_type : ℕ)
    → All IsInt16 samples
    → AreNear samples (decode_g711 (encode_g711 samples payload_type) payload_type)
unfolding decode_g711 encode_g711 AreNear
decode-encode_g711-AreNear [] t h = tt
decode-encode_g711-AreNear (s ∷ ss) t (hs, h) =
    (decoded-IsNear s t hs, decode-encode_g711-AreNear ss t h)
