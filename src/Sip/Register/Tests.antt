-- ===== src/Sip/Register/Tests.antt =====
-- The theorems on registrations at a registration that is challenged once.
use talk_telephony_gateway_p.Text.Decimal.{itoa}
use talk_telephony_gateway_p.Sip.Digest.{
  parse_digest_challenge, challenge_of, param, parse_auth_params, quoted_fields, add_param, unquote,
  build_digest_authorization, digest_hash,
}
use talk_telephony_gateway_p.Base.{
  ℕ, ◌≡◌, ◌*◌, refl, true, false, List, [], ◌∷◌, none, some, ok, err, length,
}
use talk_telephony_gateway_p.Base.Int.{pos, negsuc}
use talk_telephony_gateway_p.Text.{codes, text_eq}
use talk_telephony_gateway_p.Accounts.{SipAccount}
use talk_telephony_gateway_p.Sip.{SipResponse, header, first_value}
use talk_telephony_gateway_p.Sip.Register.{
  Settings, Library, Registering, Arrival, timed_out, cancelled, no_server, register_text, granted,
  with_port, contact_host_port, contact_uri, register_branch, authorization, register_again,
  respond, register_loop, registering, first_register, no_attempt, register, unregister, settle,
  show_int,
}
use talk_telephony_gateway_p.Sip.Register.Rounds.{finals, two_rounds, register_loop-two_rounds}
use talk_telephony_gateway_p.Sip.Register.Refresh.{
  second, lifetime, goes_on, Turn, IsPaced, registration_loop, registration_loop-IsPaced,
}

abbrev lib : Library ℕ
lib = record {
  resolve = λ t. some 1;
  ip_text = λ a. codes "10.0.0.1";
  local_ip_for = λ a. codes "10.0.0.2";
  port_part = λ t. codes "5070";
  md5_hex = λ t. codes "abc";
  sha256_hex = λ t. codes "def";
  nonce = λ n. some (codes "cn");
  new_id = λ p n. p;
}

abbrev account : SipAccount
account = record {
  extension = codes "7";
  username = codes "u7";
  auth_user = codes "u7";
  password = codes "pw";
  caller_id = [];
  nextcloud_user = codes "alice";
  is_default = false;
  enabled = none;
}

abbrev settings : Settings
settings = record {
  sip_server = codes "pbx";
  sip_domain = [];
  sip_contact_ip = [];
  sip_inbound_listen = codes "0.0.0.0:5070";
  sip_register_expires = pos 300;
  transport_port = some 5070;
}

abbrev trying : SipResponse
trying = record {
  status_line = codes "SIP/2.0 100 Trying";
  code = pos 100;
  headers = [];
  body = [];
}

abbrev challenge : SipResponse
challenge = record {
  status_line = codes "SIP/2.0 401 Unauthorized";
  code = pos 401;
  headers = (codes "www-authenticate", codes "Digest realm=\"r\", nonce=\"n\"" ∷ []) ∷ [];
  body = [];
}

abbrev accepted : SipResponse
accepted = record {
  status_line = codes "SIP/2.0 200 OK";
  code = pos 200;
  headers = (codes "expires", codes "120" ∷ []) ∷ [];
  body = [];
}

abbrev arrive : SipResponse → Arrival
arrive r = record { response = r; is_written = true }

abbrev arrivals : List Arrival
arrivals = arrive trying ∷ arrive challenge ∷ arrive trying ∷ arrive accepted ∷ []

abbrev dialogue : Registering
dialogue = record {
  uri = codes "sip:pbx";
  aor = codes "sip:u7@pbx";
  local_ip = codes "10.0.0.2";
  local_port = 5070;
  register_call_id = codes "reg@talk-gateway";
  tag = codes "rt";
  contact = codes "sip:7@10.0.0.2:5070";
  expires = pos 300;
}

register_loop-two_rounds_example :
    register_loop lib dialogue account timed_out arrivals (first_register lib dialogue)
    ≡ two_rounds lib dialogue account timed_out (finals arrivals)
register_loop-two_rounds_example = register_loop-two_rounds lib dialogue account timed_out arrivals

abbrev turns : List Turn
turns =
    record { result = err timed_out; took = 8 * second; is_ended = false; is_elapsed = true }
    ∷ record { result = ok (pos 120); took = second; is_ended = false; is_elapsed = true }
    ∷ record { result = ok (pos 0); took = second; is_ended = false; is_elapsed = true }
    ∷ record { result = err cancelled; took = second; is_ended = true; is_elapsed = true }
    ∷ []

registration_loop-IsPaced_example : IsPaced (pos 300) (registration_loop (pos 300) 0 turns)
registration_loop-IsPaced_example = registration_loop-IsPaced (pos 300) 0 turns

-- Four turns, the third with the configured lifetime.
registration_loop_test : length (registration_loop (pos 300) 0 turns) ≡ 4
unfolding registration_loop goes_on
registration_loop_test = refl

lifetime_test : lifetime (pos 300) (negsuc 4) ≡ pos 300
unfolding lifetime
lifetime_test = refl

granted_test : granted (pos 300) accepted ≡ pos 120
unfolding granted header first_value text_eq
granted_test = refl

contact_uri_test : contact_uri lib settings account ≡ codes "sip:7@10.0.0.2:5070"
unfolding contact_uri contact_host_port with_port show_int itoa
contact_uri_test = refl

no_server_test :
    (register
      (record lib { resolve = λ t. none })
      settings
      account
      (pos 300)
      true
      timed_out
      arrivals).1
    ≡ err no_server
unfolding register
no_server_test = refl

unregister_test :
    unregister lib settings account true timed_out arrivals
    ≡ register lib settings account (pos 0) true timed_out arrivals
unfolding unregister
unregister_test = refl

register_test : (register lib settings account (pos 300) true timed_out arrivals).1 ≡ ok (pos 120)
unfolding register registering contact_uri contact_host_port with_port register_loop first_register
    no_attempt register_text register_branch respond authorization register_again granted settle
    parse_digest_challenge header first_value challenge_of param parse_auth_params quoted_fields
    add_param unquote build_digest_authorization digest_hash
register_test = refl
