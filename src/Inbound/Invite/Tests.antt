-- ===== src/Inbound/Invite/Tests.antt =====
-- The theorems on an INVITE, at a call that the Talk side ends.
use talk_telephony_gateway_p.Base.{ℕ, ◌≡◌, refl, true, false, [], ◌∷◌, none, some, ok}
use talk_telephony_gateway_p.Base.Int.{pos}
use talk_telephony_gateway_p.Text.{Text, codes, text_eq}
use talk_telephony_gateway_p.Accounts.{SipAccount, Table, empty_table}
use talk_telephony_gateway_p.Session.{Message, Signaling}
use talk_telephony_gateway_p.Sip.{
  SipRequest, extract_sip_uri, header, first_value, sip_user, behind_scheme, bare_uri,
}
use talk_telephony_gateway_p.Inbound.DialIn.{
  Nextcloud, check_envelope, check_response, dial_in_request, direct_dial_in,
}
use talk_telephony_gateway_p.Inbound.Invite.{
  Services, talk_ended, caller_of, called_of, remote_target, handle_inbound_invite,
}
use talk_telephony_gateway_p.Inbound.Invite.Answers.{finals, final_of, handle_inbound_invite_final}
use talk_telephony_gateway_p.Inbound.Invite.Release.{IsReleased, handle_inbound_invite-IsReleased}

abbrev signaling : Signaling
signaling = record {
  internal_secret = codes "s";
  nextcloud_url = codes "https://cloud/";
  hmac_hex = λ secret t. codes "mac";
  random = some (codes "rnd");
  new_id = λ p n. p;
  can_write = λ n. true;
}

abbrev plain_message : Text → Text → Message
plain_message id kind = record {
  id = id;
  kind = kind;
  event = none;
  hello_session = some (codes "own");
  room = some (codes "r1");
}

abbrev answering : Message
answering = record {
  id = [];
  kind = codes "event";
  event = some (record {
    target = codes "room";
    action = codes "join";
    joined = record { session_id = codes "s2"; user_id = codes "alice"; is_phone = false } ∷ [];
  });
  hello_session = none;
  room = none;
}

abbrev nextcloud : Nextcloud
nextcloud = record {
  url = codes "https://cloud/";
  secret = codes "s";
  hmac_hex = λ secret t. codes "mac";
  random_hex = some (codes "rnd");
  exchange = λ r. some (record {
    status = 200;
    decoded = some (record {
      room = record { id = pos 4; token = codes "r1"; actor_id = []; actor_type = [] };
      meta_status = pos 200;
    });
  });
}

abbrev account : SipAccount
account = record {
  extension = codes "7";
  username = codes "u7";
  auth_user = codes "u7";
  password = codes "pw";
  caller_id = [];
  nextcloud_user = codes "alice";
  is_default = false;
  enabled = none;
}

abbrev table : Table
table = record (empty_table 1) {
  by_extension = (codes "7", record { address = 0; target = account }) ∷ [];
}

abbrev services : Services ℕ
services = record {
  accounts = table;
  nextcloud = nextcloud;
  signaling = signaling;
  messages =
      plain_message [] (codes "welcome")
      ∷ plain_message (codes "call-hello") (codes "hello")
      ∷ plain_message (codes "room") (codes "room")
      ∷ answering
      ∷ [];
  is_connected = true;
  is_context_error = false;
  is_written = true;
  is_bridged = true;
  is_bye_written = true;
  call_end = talk_ended;
  resolve = λ ip p. some 9;
  rtp_port = some 4002;
  advertised_ip = [];
  peer_side_ip = codes "10.0.0.2";
  sip_port = 5060;
  now = 1;
  new_id = λ p. p;
}

abbrev invite : SipRequest
invite = record {
  method = codes "INVITE";
  uri = codes "sip:7@gw";
  version = codes "SIP/2.0";
  headers =
      (codes "call-id", codes "c1" ∷ [])
      ∷ (codes "from", codes "<sip:bob@pbx>" ∷ [])
      ∷ (codes "contact", codes "<sip:bob@10.0.0.9>" ∷ [])
      ∷ [];
  body = codes "v=0\nc=IN IP4 10.0.0.9\nm=audio 4000 RTP/AVP 0 8\n";
}

handle_inbound_invite_final_example :
    finals (handle_inbound_invite services invite).written
    ≡ final_of (handle_inbound_invite services invite).result
handle_inbound_invite_final_example = handle_inbound_invite_final services invite

handle_inbound_invite-IsReleased_example :
    IsReleased (handle_inbound_invite services invite).session
handle_inbound_invite-IsReleased_example = handle_inbound_invite-IsReleased services invite

called_test : called_of invite ≡ codes "7"
unfolding called_of sip_user behind_scheme extract_sip_uri bare_uri
called_test = refl

caller_test : caller_of invite ≡ codes "bob"
unfolding caller_of sip_user behind_scheme extract_sip_uri header first_value text_eq bare_uri
caller_test = refl

dial_in_test :
    direct_dial_in nextcloud (codes "7") (codes "bob")
    ≡ ok (record { id = pos 4; token = codes "r1"; actor_id = []; actor_type = [] })
unfolding direct_dial_in dial_in_request check_response check_envelope
dial_in_test = refl

target_test : remote_target invite ≡ codes "sip:bob@10.0.0.9"
unfolding remote_target extract_sip_uri header first_value text_eq
target_test = refl
