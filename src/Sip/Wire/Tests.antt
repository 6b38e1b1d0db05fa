-- ===== src/Sip/Wire/Tests.antt =====
-- The theorems on messages on the wire at concrete messages.
use talk_telephony_gateway_p.Base.{◌≡◌, refl, [], ◌∷◌, ◌++◌, ok, arith}
use talk_telephony_gateway_p.Base.Int.{pos}
use talk_telephony_gateway_p.Text.{Text, codes, text_eq}
use talk_telephony_gateway_p.Text.Laws.{has_no_space-NoSpace, has_no_space}
use talk_telephony_gateway_p.Text.Lines.{written}
use talk_telephony_gateway_p.Text.Trim.{NoSpace-IsTrimmed}
use talk_telephony_gateway_p.Sip.{
  SipRequest, parse_sip_request, parse_sip_response, sip_response, crlf, request_line, add_headers,
  add_header, body_of, values,
}
use talk_telephony_gateway_p.Sip.Wire.Echo.{IsEcho, parse_sip_response-sip_response}
use talk_telephony_gateway_p.Sip.Dialout.{Dialling, invite_text}
use talk_telephony_gateway_p.Sip.Dialout.Written.{IsWritable, read_invite, invite_text_read}
use talk_telephony_gateway_p.Sip.Dialout.Exchange.{IsAnswer, invite_text-IsAnswer}
use talk_telephony_gateway_p.Sip.Register.{Registering, register_text}
use talk_telephony_gateway_p.Sip.Register.Written.{
  IsSendable, IsRegister, parse_sip_request-register_text,
}

abbrev options : Text
options =
    codes "OPTIONS sip:gw SIP/2.0"
    ++ (crlf ++ (codes "Via: v1" ++ (crlf ++ (codes "Call-ID: c7" ++ (crlf ++ crlf)))))

abbrev options_request : SipRequest
options_request = record {
  method = codes "OPTIONS";
  uri = codes "sip:gw";
  version = codes "SIP/2.0";
  headers = (codes "via", codes "v1" ∷ []) ∷ (codes "call-id", codes "c7" ∷ []) ∷ [];
  body = [];
}

options_read : parse_sip_request options ≡ ok options_request
unfolding parse_sip_request request_line add_headers body_of add_header text_eq values
options_read = refl

parse_sip_response-sip_response_example : IsEcho options_request 200 (codes "t1") [] [] (
    parse_sip_response (sip_response options_request 200 (codes "OK") (codes "t1") (written []) []))
parse_sip_response-sip_response_example =
    parse_sip_response-sip_response options options_request 200 (codes "OK") (codes "t1") [] []
      options_read (omega arith) (refl, (refl, tt)) (refl, (refl, tt)) tt

abbrev registering : Registering
registering = record {
  uri = codes "sip:pbx";
  aor = codes "sip:u@pbx";
  local_ip = codes "h";
  local_port = 5070;
  register_call_id = codes "id";
  tag = codes "t";
  contact = codes "sip:u@h";
  expires = pos 300;
}

registering-IsSendable : IsSendable registering (codes "b") []
unfolding has_no_space
registering-IsSendable = record {
  uri_word = has_no_space-NoSpace (codes "sip:pbx") refl;
  has_uri = refl;
  tag_word = (refl, tt);
  id_value = (NoSpace-IsTrimmed (codes "id") (refl, (refl, tt)), (refl, (refl, tt)));
  auth_value = (NoSpace-IsTrimmed [] tt, tt);
  aor_line = (refl, (refl, (refl, (refl, (refl, (refl, (refl, (refl, (refl, tt)))))))));
  ip_line = (refl, tt);
  contact_line = (refl, (refl, (refl, (refl, (refl, (refl, (refl, tt)))))));
  branch_line = (refl, tt);
}

parse_sip_request-register_text_example :
    IsRegister registering 1 [] (parse_sip_request (register_text registering 1 (codes "b") []))
parse_sip_request-register_text_example =
    parse_sip_request-register_text registering 1 (codes "b") [] registering-IsSendable

abbrev dialling : Dialling
dialling = record {
  host = codes "h";
  port = 5060;
  uri = codes "sip:7@p";
  from_uri = codes "f";
  contact_uri = codes "c";
  tag = codes "t";
  sip_call_id = codes "id";
  sdp_offer = codes "v=0";
  auth_user = [];
  password = [];
}

dialling-IsWritable : IsWritable dialling (codes "b") []
unfolding has_no_space
dialling-IsWritable = record {
  uri_word = has_no_space-NoSpace (codes "sip:7@p") refl;
  has_uri = refl;
  tag_word = (refl, tt);
  id_value = (NoSpace-IsTrimmed (codes "id") (refl, (refl, tt)), (refl, (refl, tt)));
  from_line = (refl, tt);
  contact_line = (refl, tt);
  host_line = (refl, tt);
  branch_line = (refl, tt);
  authorization_line = tt;
}

abbrev invite : Text
invite = invite_text dialling 1 (codes "b") []

abbrev request : SipRequest
request = read_invite dialling 1 (codes "b") []

invite_text-IsAnswer_example :
    IsAnswer dialling 1 180 []
      (parse_sip_response (sip_response request 180 (codes "Ringing") (codes "t1") (written []) []))
invite_text-IsAnswer_example =
    invite_text-IsAnswer dialling 1 (codes "b") [] dialling-IsWritable request 180 (codes "Ringing")
      (codes "t1") [] [] (invite_text_read dialling 1 (codes "b") [] dialling-IsWritable)
      (omega arith) (refl, (refl, (refl, (refl, (refl, (refl, (refl, tt))))))) (refl, (refl, tt)) tt
