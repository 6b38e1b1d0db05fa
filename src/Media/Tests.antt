-- ===== src/Media/Tests.antt =====
-- The codecs' theorems at concrete samples and payloads.
use talk_telephony_gateway_p.Base.{ℕ, ◌≡◌, ◌≤◌, ◌/◌, ◌+◌, ◌⊎◌, List, [], ◌∷◌, map, arith}
use talk_telephony_gateway_p.Base.Int.{ℤ, pos, negsuc}
use talk_telephony_gateway_p.Base.Bytes.{IsByte}
use talk_telephony_gateway_p.Media.{
  is_negative, magnitude, a_law_to_pcm, pcm_to_a_law, mu_law_to_pcm, pcm_to_mu_law, decode_g711,
  encode_g711,
}
use talk_telephony_gateway_p.Media.Codec.{g711_error}
use talk_telephony_gateway_p.Media.Transcode.{settled_byte, encode-decode_g711}

abbrev voice : List ℕ
voice = 0x55 ∷ 0x7f ∷ 0x80 ∷ []

encode-decode_g711_example : encode_g711 (decode_g711 voice 0) 0 ≡ map (settled_byte 0) voice
encode-decode_g711_example =
    encode-decode_g711 voice 0 (omega arith, (omega arith, (omega arith, tt)))

abbrev wave : List ℤ
wave = pos 100 ∷ negsuc 99 ∷ pos 50 ∷ pos 7 ∷ pos 0 ∷ pos 3 ∷ negsuc 20 ∷ []

g711_error_example :
    (IsByte (pcm_to_a_law (negsuc 999))
      × (is_negative (a_law_to_pcm (pcm_to_a_law (negsuc 999))) ≡ is_negative (negsuc 999))
      × (magnitude (a_law_to_pcm (pcm_to_a_law (negsuc 999)))
          ≤ magnitude (negsuc 999) + (8 + magnitude (negsuc 999) / 32))
      × (magnitude (negsuc 999)
          ≤ magnitude (a_law_to_pcm (pcm_to_a_law (negsuc 999)))
            + (8 + magnitude (negsuc 999) / 32)))
    × (IsByte (pcm_to_mu_law (negsuc 999))
        × ((magnitude (mu_law_to_pcm (pcm_to_mu_law (negsuc 999))) ≡ 0)
            ⊎ (is_negative (mu_law_to_pcm (pcm_to_mu_law (negsuc 999))) ≡ is_negative (negsuc 999)))
        × (magnitude (mu_law_to_pcm (pcm_to_mu_law (negsuc 999)))
            ≤ magnitude (negsuc 999) + (magnitude (negsuc 999) + 132) / 32)
        × (magnitude (negsuc 999)
            ≤ magnitude (mu_law_to_pcm (pcm_to_mu_law (negsuc 999)))
              + (magnitude (negsuc 999) + 132) / 32))
g711_error_example = g711_error (negsuc 999) (omega arith, omega arith)
