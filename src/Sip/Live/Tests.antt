-- ===== src/Sip/Live/Tests.antt =====
-- The end of an answered call, at a CANCEL after two packets.
use talk_telephony_gateway_p.Base.{◌≡◌, refl, true, false, List, [], ◌∷◌, none, some, err}
use talk_telephony_gateway_p.Text.{Text, codes}
use talk_telephony_gateway_p.Bridge.Rtp.{first_rtp_payload_type, payload_type_of}
use talk_telephony_gateway_p.Sip.Live.{
  simple_value, simple_200, build_simple_200, Dialog, SipRead, quiet, datagram, Live, bye_text,
  send_sip_bye, live_loop, fail, bridge_call, run_rtp_bridge, no_first_packet,
}

abbrev dialog : Dialog
dialog = record {
  remote_target = codes "sip:bob@pbx";
  from_uri = codes "sip:7@pbx";
  tag = codes "t";
  to_header = [];
  sip_call_id = codes "c1";
  contact_host = codes "10.0.0.2";
  sip_port = 5060;
}

abbrev answered : Live
answered = record { written = []; cseq = 2; result = none }

abbrev cancel_text : Text
cancel_text = codes "CANCEL sip:7 SIP/2.0\r\nVIA: v\r\nCall-ID:  c1 \r\n\r\n"

abbrev reads : List SipRead
reads = quiet false ∷ datagram (codes "SIP/2.0 200 OK") ∷ datagram cancel_text ∷ quiet true ∷ []

build_simple_200_test :
    build_simple_200 cancel_text
    ≡ codes
        "SIP/2.0 200 OK\r\nVia: v\r\nFrom: \r\nTo: \r\nCall-ID: c1\r\nCSeq: \r\nContent-Length: 0\r\n\r\n"
unfolding build_simple_200 simple_200 simple_value
build_simple_200_test = refl

no_packet_test :
    (run_rtp_bridge dialog (codes "b") true none true true reads answered).result
    ≡ some (err no_first_packet)
unfolding run_rtp_bridge fail
no_packet_test = refl

bye_test :
    (run_rtp_bridge dialog
      (codes "b")
      true
      (some (0x80 ∷ 8 ∷ 0 ∷ 0 ∷ 0 ∷ 0 ∷ 0 ∷ 0 ∷ 0 ∷ 0 ∷ 0 ∷ 0 ∷ []))
      true
      true
      (quiet true ∷ [])
      answered).cseq
    ≡ 3
unfolding run_rtp_bridge bridge_call live_loop send_sip_bye bye_text first_rtp_payload_type
    payload_type_of
bye_test = refl
