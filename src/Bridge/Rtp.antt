-- ===== src/Bridge/Rtp.antt =====
-- cmd/gateway/rtc_bridge.go: the bytes of an RTP packet.
use talk_telephony_gateway_p.Base.{
  ℕ, ◌<◌, ◌^◌, ◌≡◌, refl, List, ◌∷◌, ◌++◌, true, Result, ok, err, length, ltb, if◌then◌else◌, arith,
  take, drop, bit_and,
}
use talk_telephony_gateway_p.Base.{◌==◌, ==_iff}
use talk_telephony_gateway_p.Base.Bytes.{all_below, all_below_sound}
use talk_telephony_gateway_p.Ws.{put_be, be_from}

pub data RtpError : Type 0 where
  too_short : RtpError

unfoldable pub payload_type_of : List ℕ → Result RtpError ℕ
payload_type_of (a ∷ b ∷ rest) = ok (bit_and b 0x7f)
payload_type_of l = err too_short

-- `firstRTPPayloadType`
unfoldable pub first_rtp_payload_type : List ℕ → Result RtpError ℕ
first_rtp_payload_type raw = if ltb (length raw) 12 then err too_short else payload_type_of raw

-- `buildRTPPacket`
pub build_rtp_packet : (pt seq ts ssrc : ℕ) → List ℕ → List ℕ
unfolding put_be
build_rtp_packet pt seq ts ssrc payload =
    0x80 ∷ pt ∷ (put_be 2 seq ++ (put_be 4 ts ++ (put_be 4 ssrc ++ payload)))

seven_bits : all_below 128 (λ b. bit_and b 0x7f == b) ≡ true
unfolding all_below
seven_bits = refl

bit_and-seven : (pt : ℕ) → pt < 128 → bit_and pt 0x7f ≡ pt
bit_and-seven pt h =
    (==_iff _ pt).0 (all_below_sound 128 (λ b. bit_and b 0x7f == b) pt seven_bits h)

-- A packet that is built is read back, field by field.
pub record IsRead (p : List ℕ) (pt seq ts ssrc : ℕ) (payload : List ℕ) : Type 0 where
  pub type_read : first_rtp_payload_type p ≡ ok pt
  pub seq_read : be_from 0 (take 2 (drop 2 p)) ≡ seq
  pub ts_read : be_from 0 (take 4 (drop 4 p)) ≡ ts
  pub ssrc_read : be_from 0 (take 4 (drop 8 p)) ≡ ssrc
  pub payload_read : drop 12 p ≡ payload

-- A packet that is built has its fields where RFC 3550 has them: the payload type is the one that
-- `firstRTPPayloadType` reads, and the sequence number, the timestamp, the source and the payload
-- stand behind it, if the numbers fit their fields.
pub build_rtp_packet-IsRead :
    (pt seq ts ssrc : ℕ) (payload : List ℕ)
    → pt < 128
    → seq < 2 ^ 16
    → ts < 2 ^ 32
    → ssrc < 2 ^ 32
    → IsRead (build_rtp_packet pt seq ts ssrc payload) pt seq ts ssrc payload
unfolding build_rtp_packet first_rtp_payload_type payload_type_of put_be be_from
build_rtp_packet-IsRead pt seq ts ssrc payload a b c d = record {
  type_read = ground (arith, bit_and-seven pt a);
  seq_read = omega (arith, b);
  ts_read = omega (arith, c);
  ssrc_read = omega (arith, d);
  payload_read = refl;
}
