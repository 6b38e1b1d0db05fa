-- ===== src/Sip/Sdp.antt =====
-- cmd/gateway/main.go and cmd/gateway/inbound.go: the session descriptions of a call. The resolver
-- of addresses is a parameter.
pub mod Lines
pub mod Answer
use talk_telephony_gateway_p.Base.{
  ℕ, ◌≡◌, refl, Bool, true, false, not, ◌&&◌, ◌||◌, List, [], ◌∷◌, ◌++◌, Option, none, some, ltb,
  ◌==◌, if◌then◌else◌, Result, ok, err, any, arith, drop, length,
}
use talk_telephony_gateway_p.Base.Int.{ℤ, pos, negsuc}
use talk_telephony_gateway_p.Text.{
  Text, codes, is_empty, has_prefix, trim_space, split, replace_crlf, fields,
}
use talk_telephony_gateway_p.Text.Decimal.{atoi, atoi_value, itoa}
use talk_telephony_gateway_p.Sip.{crlf}

-- What the loop over the lines has found so far.
pub record Found : Type 0 where
  pub conn_ip : Text
  pub port : ℤ
  pub payloads : List ℤ

pub data SdpError : Type 0 where
  no_address no_payload not_resolved : SdpError

-- The payload types that are numbers.
unfoldable pub numbers : List Text → List ℤ
unfolding atoi
numbers [] = []
numbers (p ∷ ps) = let rest = numbers ps in elim (atoi p) [ none ↦ rest | some n ↦ n ∷ rest ]

-- The words of an m=audio line, if there are four at least.
unfoldable pub read_media : List Text → Found → Found
unfolding atoi_value
read_media (m ∷ p ∷ proto ∷ first ∷ others) s = record s {
  port = atoi_value p;
  payloads = s.payloads ++ numbers (first ∷ others);
}
read_media _ s = s

unfoldable pub read_line : Text → Found → Found
unfolding trim_space has_prefix fields
read_line raw s =
    let line = trim_space raw in
    let t =
      if has_prefix (codes "c=IN IP4 ") line
      then record s { conn_ip = trim_space (drop (length (codes "c=IN IP4 ")) line) }
      else s in
    if has_prefix (codes "m=audio ") line then read_media (fields line) t else t

unfoldable pub read_lines : List Text → Found → Found
read_lines [] s = s
read_lines (l ∷ ls) s = read_lines ls (read_line l s)

abbrev is_payload : ℕ → ℤ → Bool
is_payload n (pos m) = n == m
is_payload n (negsuc m) = false

-- The loop over the payload types: 8 ends it, 0 is kept until then.
unfoldable pub choose_payload : Option ℕ → List ℤ → Option ℕ
choose_payload chosen [] = chosen
choose_payload chosen (p ∷ ps) =
    let kept = choose_payload chosen ps in
    let zero_chosen = choose_payload (some 0) ps in
    if is_payload 8 p
    then some 8
    else if is_payload 0 p && elim chosen [ none ↦ true | some n ↦ false ]
    then zero_chosen
    else kept

abbrev pub is_positive : ℤ → Bool
is_positive (pos n) = ltb 0 n
is_positive (negsuc n) = false

module _ {ℓ} {Addr : Type ℓ} (resolve : Text → ℤ → Option Addr) where
  unfoldable pub parse_sdp_answer : Text → Result SdpError (Addr × ℕ)
  unfolding replace_crlf split
  parse_sdp_answer body =
      let (first, others) = split b'\n' (replace_crlf body) in
      let found =
        read_lines (first ∷ others) (record { conn_ip = []; port = pos 0; payloads = [] }) in
      if is_empty found.conn_ip || not (is_positive found.port)
      then err no_address
      else elim (choose_payload none found.payloads) [
        | none ↦ err no_payload
        | some pt ↦ elim (resolve found.conn_ip found.port) [
          | none ↦ err not_resolved
          | some a ↦ ok (a, pt)
        ]
      ]

-- What stands in both descriptions before the media line.
unfoldable pub session_lines : ℕ → Text → Text
unfolding itoa
session_lines session ip =
    codes "v=0"
    ++ (crlf
        ++ (codes "o=talkgateway "
            ++ (itoa session
                ++ (b' '
                    ∷ (itoa session
                        ++ (codes " IN IP4 "
                            ++ (ip
                                ++ (crlf
                                    ++ (codes "s=Nextcloud Talk Telephony Gateway"
                                        ++ (crlf
                                            ++ (codes "c=IN IP4 "
                                                ++ (ip
                                                    ++ (crlf ++ (codes "t=0 0" ++ crlf))))))))))))))

unfoldable pub closing_lines : Text
closing_lines =
    codes "a=rtpmap:101 telephone-event/8000"
    ++ (crlf
        ++ (codes "a=fmtp:101 0-16"
            ++ (crlf ++ (codes "a=ptime:20" ++ (crlf ++ (codes "a=sendrecv" ++ crlf))))))

unfoldable pub build_sdp_offer : ℕ → Text → ℕ → Text
unfolding itoa session_lines closing_lines
build_sdp_offer now ip port =
    session_lines now ip
    ++ (codes "m=audio "
        ++ (itoa port
            ++ (codes " RTP/AVP 8 0 101"
                ++ (crlf
                    ++ (codes "a=rtpmap:8 PCMA/8000"
                        ++ (crlf ++ (codes "a=rtpmap:0 PCMU/8000" ++ (crlf ++ closing_lines))))))))

unfoldable pub build_sdp_answer : ℕ → Text → ℕ → ℕ → Text
unfolding itoa session_lines closing_lines
build_sdp_answer now ip port pt =
    let codec = if pt == 8 then codes "PCMA" else codes "PCMU" in
    session_lines now ip
    ++ (codes "m=audio "
        ++ (itoa port
            ++ (codes " RTP/AVP "
                ++ (itoa pt
                    ++ (codes " 101"
                        ++ (crlf
                            ++ (codes "a=rtpmap:"
                                ++ (itoa pt
                                    ++ (b' '
                                        ∷ (codec
                                            ++ (codes "/8000" ++ (crlf ++ closing_lines))))))))))))

abbrev pub offers : ℕ → List ℤ → Bool
offers n ps = any (is_payload n) ps

choose_payload-some :
    (ps : List ℤ) → choose_payload (some 0) ps ≡ (if offers 8 ps then some 8 else some 0)
unfolding choose_payload
choose_payload-some [] = refl
choose_payload-some (p ∷ ps) = ground (arith, choose_payload-some ps)

-- Of the payload types of an answer, PCMA is taken if it is among them, wherever it stands; PCMU
-- if it is and PCMA is not; and none is taken if neither is.
pub choose_payload_lem :
    (ps : List ℤ)
    → choose_payload none ps
      ≡ (if offers 8 ps then some 8 else if offers 0 ps then some 0 else none)
unfolding choose_payload
choose_payload_lem [] = refl
choose_payload_lem (p ∷ ps) = ground (arith, choose_payload_lem ps, choose_payload-some ps)
