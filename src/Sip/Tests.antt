-- ===== src/Sip/Tests.antt =====
-- The SIP theorems at a concrete call.
use talk_telephony_gateway_p.Base.{
  arith, ◌≡◌, refl, true, false, List, [], ◌∷◌, ◌++◌, Option, none, some, ok, err,
}
use talk_telephony_gateway_p.Base.Int.{ℤ, pos}
use talk_telephony_gateway_p.Text.{
  Text, codes, replace_crlf, split, trim_space, trim_left, trim_right, has_prefix, equal_fold,
  text_eq, to_lower, cut, ends_with_byte, fields, before, split_blank_line, to_upper,
}
use talk_telephony_gateway_p.Text.Decimal.{atoi, atoi_value, digits_value, itoa, itoa_fuel}
use talk_telephony_gateway_p.Dict.{lookup, insert}
use talk_telephony_gateway_p.Sip.{
  crlf, values, add_headers, add_header, header, first_value, SipRequest, SipResponse, body_of,
  request_line, status_code, parse_sip_request, parse_sip_response, bare_uri, extract_sip_uri,
  behind_scheme, sip_user, is_bracket, contains, via_lines, tagged, sip_response,
}
use talk_telephony_gateway_p.Sip.Sdp.Answer.{at_address, parse_sdp_answer-build_sdp_answer}
use talk_telephony_gateway_p.Sip.Sdp.{
  numbers, read_media, read_line, read_lines, choose_payload, parse_sdp_answer, build_sdp_offer,
  build_sdp_answer, session_lines, closing_lines,
}
use talk_telephony_gateway_p.Sip.Digest.{
  DigestChallenge, parse_digest_challenge, challenge_of, parse_auth_params, add_params, add_param,
  param, offers_auth, unquote, without_last, quoted_fields, build_digest_authorization, digest_hash,
  authorization_parts, colon,
}
use talk_telephony_gateway_p.Text.{join}
use talk_telephony_gateway_p.Sip.Dialout.{
  Dialling, invite_text, ack_text, ack_target, ack_to, via, bracketed,
}
use talk_telephony_gateway_p.Sip.Dialout.Loop.{
  Read, read_timeout, datagram, Services, Dialout, new_call, dial_loop, primary_nextcloud_user,
  dialout_caller,
}
use talk_telephony_gateway_p.Sip.Dialout.Loop.Progress.{
  HasEnded, new_call-IsGoing, dial_loop-HasEnded,
}

abbrev header_lines : List Text
header_lines = codes "Via: one" ∷ codes "broken" ∷ codes "VIA : two" ∷ codes "To: x" ∷ []

abbrev challenge : Text
challenge = codes "Digest realm=\"a,b\", nonce=\"n\", qop=\"auth,auth-int\""

abbrev parsed : DigestChallenge
parsed = record {
  realm = codes "a,b";
  nonce = codes "n";
  algorithm = codes "MD5";
  qop = codes "auth";
  opaque_value = [];
}

challenge_lem : parse_digest_challenge challenge ≡ ok parsed
unfolding parse_digest_challenge challenge_of parse_auth_params add_params add_param param
    offers_auth unquote without_last quoted_fields trim_space trim_left trim_right equal_fold
    to_lower text_eq cut insert lookup split ends_with_byte
challenge_lem = refl

abbrev dialling : Dialling
dialling = record {
  host = codes "10.0.0.1";
  port = 5060;
  uri = codes "sip:1@pbx";
  from_uri = codes "sip:100@pbx";
  contact_uri = codes "sip:gw@10.0.0.1";
  tag = codes "t1";
  sip_call_id = codes "c1";
  sdp_offer = codes "v=0";
  auth_user = codes "100";
  password = codes "secret";
}

abbrev services : Services Text
services = record {
  md5_hex = λ s. s;
  sha256_hex = λ s. s;
  nonce = λ n. some (codes "cnonce");
  new_branch = λ n. n ∷ [];
  resolve = λ host port. some host;
}

abbrev end_line : Text
end_line = crlf

-- A call that rings twice, is challenged, and is answered.
abbrev reads : List Read
reads =
    datagram (codes "SIP/2.0 180 Ringing" ++ (crlf ++ crlf)) true true
    ∷ read_timeout
    ∷ datagram (codes "SIP/2.0 183 Session Progress" ++ (crlf ++ crlf)) true true
    ∷ datagram
        (codes "SIP/2.0 401 Unauthorized"
          ++ (crlf ++ (codes "WWW-Authenticate: " ++ (challenge ++ (crlf ++ crlf)))))
        true true
    ∷ datagram
        (codes "SIP/2.0 200 OK"
          ++ (crlf
              ++ (crlf
                  ++ (codes "c=IN IP4 10.0.0.2" ++ (crlf ++ codes "m=audio 4000 RTP/AVP 0 8")))))
        true true
    ∷ []

dial_loop-HasEnded_example :
    HasEnded
      (dial_loop services dialling reads (new_call [])).0
      (dial_loop services dialling reads (new_call [])).1
dial_loop-HasEnded_example =
    dial_loop-HasEnded services dialling reads (new_call []) (new_call-IsGoing [])

abbrev dialout : Dialout
dialout = record {
  has_request = true;
  is_accepted_sent = true;
  sip_server = codes "pbx";
  sip_from_user = codes "gw";
  option_caller = none;
  session = some (record { self_id = codes "gw"; virtual_id = codes "phone" }, []);
}

sip_user_test : sip_user (codes "\"Bob\" <sip:bob@pbx;x=1>;tag=7") ≡ codes "bob"
unfolding sip_user extract_sip_uri bare_uri behind_scheme is_bracket trim_space trim_left trim_right
    cut before has_prefix to_lower
sip_user_test = refl

abbrev bye : Text
bye =
    codes "BYE sip:gw SIP/2.0"
    ++ (crlf
        ++ (codes "Call-ID: c7"
            ++ (crlf ++ (codes "To: <sip:gw>" ++ (crlf ++ (crlf ++ codes "body"))))))

abbrev bye_request : SipRequest
bye_request = record {
  method = codes "BYE";
  uri = codes "sip:gw";
  version = codes "SIP/2.0";
  headers = (codes "call-id", codes "c7" ∷ []) ∷ (codes "to", codes "<sip:gw>" ∷ []) ∷ [];
  body = codes "body";
}

parse_sip_request_test : parse_sip_request bye ≡ ok bye_request
unfolding parse_sip_request replace_crlf split_blank_line split fields request_line add_headers
    add_header body_of values has_prefix trim_space trim_left trim_right cut lookup insert to_lower
    text_eq
parse_sip_request_test = refl

-- What the gateway answers to it, read back.
abbrev ok_response : SipResponse
ok_response = record {
  status_line = codes "SIP/2.0 200 OK";
  code = pos 200;
  headers =
      (codes "from", [] ∷ [])
      ∷ (codes "to", codes "<sip:gw>;tag=t1" ∷ [])
      ∷ (codes "call-id", codes "c7" ∷ [])
      ∷ (codes "cseq", [] ∷ [])
      ∷ (codes "server", codes "nextcloud-talk-telephony-gateway-poc/0.9.1" ∷ [])
      ∷ (codes "content-length", codes "0" ∷ [])
      ∷ [];
  body = [];
}

sip_response_test :
    parse_sip_response (sip_response bye_request 200 (codes "OK") (codes "t1") [] [])
    ≡ ok ok_response
unfolding sip_response parse_sip_response replace_crlf split_blank_line split fields status_code
    add_headers add_header body_of values header first_value via_lines tagged contains has_prefix
    trim_space trim_left trim_right cut lookup insert to_lower text_eq itoa itoa_fuel atoi
    digits_value
sip_response_test = refl

abbrev anywhere : Text → ℤ → Option (Text × ℤ)
anywhere host port = some (host, port)

build_sdp_answer_test :
    parse_sdp_answer anywhere (build_sdp_answer 17 (codes "10.0.0.1") 4000 8)
    ≡ ok ((codes "10.0.0.1", pos 4000), 8)
unfolding parse_sdp_answer build_sdp_answer session_lines closing_lines numbers read_media read_line
    read_lines choose_payload replace_crlf split fields has_prefix trim_space trim_left trim_right
    itoa itoa_fuel atoi atoi_value digits_value
build_sdp_answer_test = refl

parse_sdp_answer-build_sdp_answer_example :
    (parse_sdp_answer anywhere (build_sdp_answer 17 (codes "h") 4000 8)
      ≡ at_address (anywhere (codes "h") (pos 4000)) 8)
    × (parse_sdp_answer anywhere (build_sdp_answer 17 (codes "h") 4000 0)
        ≡ at_address (anywhere (codes "h") (pos 4000)) 0)
parse_sdp_answer-build_sdp_answer_example =
    parse_sdp_answer-build_sdp_answer anywhere 17 (codes "h") 4000 (refl, tt) refl (omega arith)
      (omega arith)

build_sdp_offer_test :
    parse_sdp_answer anywhere (build_sdp_offer 17 (codes "10.0.0.1") 4002)
    ≡ ok ((codes "10.0.0.1", pos 4002), 8)
unfolding parse_sdp_answer build_sdp_offer session_lines closing_lines numbers read_media read_line
    read_lines choose_payload replace_crlf split fields has_prefix trim_space trim_left trim_right
    itoa itoa_fuel atoi atoi_value digits_value
build_sdp_offer_test = refl

abbrev method_of : Text → Text
method_of raw = elim (parse_sip_request raw) [ err e ↦ [] | ok r ↦ r.method ]

invite_text_test : method_of (invite_text dialling 1 (codes "b1") []) ≡ codes "INVITE"
unfolding invite_text via bracketed parse_sip_request replace_crlf split_blank_line split fields
    request_line add_headers add_header body_of values has_prefix trim_space trim_left trim_right
    cut lookup insert to_lower text_eq itoa itoa_fuel
invite_text_test = refl

ack_text_test :
    method_of (
      ack_text dialling
        (ack_target dialling ok_response)
        (ack_to dialling ok_response)
        (codes "b1")
        1)
    ≡ codes "ACK"
unfolding ack_text ack_target ack_to extract_sip_uri bare_uri header first_value via bracketed
    parse_sip_request replace_crlf split_blank_line split fields request_line add_headers add_header
    body_of values has_prefix trim_space trim_left trim_right cut before lookup insert to_lower
    text_eq itoa itoa_fuel
ack_text_test = refl

build_digest_authorization_test :
    build_digest_authorization
      (λ s. s)
      (λ s. s)
      (record parsed { qop = [] })
      (codes "u")
      (codes "p")
      (codes "BYE")
      (codes "x")
      (some [])
    ≡ ok (
        codes
          "Digest username=\"u\", realm=\"a,b\", nonce=\"n\", uri=\"x\", response=\"u:a,b:p:n:BYE:x\", algorithm=MD5")
unfolding build_digest_authorization digest_hash authorization_parts colon join to_upper text_eq
build_digest_authorization_test = refl

primary_nextcloud_user_test :
    primary_nextcloud_user
      (record { self_id = codes "gw"; virtual_id = codes "phone" })
      (record { session_id = codes "gw"; user_id = codes "bot"; is_phone = false }
        ∷ record { session_id = codes "s2"; user_id = codes "caller"; is_phone = true }
        ∷ record { session_id = codes "s3"; user_id = codes "alice"; is_phone = false }
        ∷ [])
    ≡ codes "alice"
unfolding primary_nextcloud_user text_eq
primary_nextcloud_user_test = refl

dialout_caller_test :
    dialout_caller (record dialout { option_caller = some (codes " +49 ") }) ≡ codes "+49"
unfolding dialout_caller trim_space trim_left trim_right
dialout_caller_test = refl
