-- ===== src/Bridge/Tests.antt =====
-- The bridge's theorems at concrete packets, events and failures.
use talk_telephony_gateway_p.Base.{
  Option, List, ◌≡◌, ◌↔◌, refl, true, false, [], ◌∷◌, ◌++◌, none, some, err, inl, arith,
}
use talk_telephony_gateway_p.Text.{Text, codes, has_prefix, to_lower, text_eq}
use talk_telephony_gateway_p.Bridge.{RoomSession, Identity, Packet, is_participant}
use talk_telephony_gateway_p.Bridge.Talk.{
  Talk, RoomEvent, Notice, room, on_track, handle_event, notify, notify_all, on_track_one_session,
}
use talk_telephony_gateway_p.Bridge.Publish.{
  Publisher, written, publish_sip_rtp, Carries, SoundsLike, publish_sip_rtp-Carries, IsAudio,
  IsOneCodec,
}
use talk_telephony_gateway_p.Bridge.Forward.{
  Stream, pcmu, packet, read_failed, forward_talk_track, IsStream, Follows,
  forward_talk_track-Follows, samples_of, other_mime,
}
use talk_telephony_gateway_p.Bridge.Peers.{
  RtcMessage, accept_offer, SubscriberAnswers, timed_out, gathered, close_peer, open_peer, remove,
  accept_begin, accept_finish, send_message, handle_rtc_message, deliver, usable_sdp, close_all,
  close_publisher, close,
}
use talk_telephony_gateway_p.Bridge.Reading.{
  Turn, Bridge, event, read_loop, IsEnding, heard, read_loop-IsEnding,
}
use talk_telephony_gateway_p.Bridge.Peers.Offers.{no_offers}
use talk_telephony_gateway_p.Dict.{lookup, insert}
use talk_telephony_gateway_p.Bridge.Peers.Start.{
  gathering_timed_out, PublisherAnswers, wait_cancelled, start_media_bridge, start_publisher,
  start_media_bridge_err, finish_start, new_bridge,
}

abbrev own : Identity
own = record { self_id = codes "gw"; virtual_id = codes "phone" }

abbrev alice : RoomSession
alice = record { session_id = codes "alice"; user_id = codes "a"; is_phone = false }

abbrev joined : Notice
joined = room (
    some (record {
      target = codes "room";
      kind = codes "join";
      join = alice ∷ [];
      change = [];
      leave = [];
    }))

abbrev left_event : Option RoomEvent
left_event = some (record {
  target = codes "room";
  kind = codes "leave";
  join = [];
  change = [];
  leave = codes "alice" ∷ [];
})

abbrev quiet : Talk
quiet = record { active = []; talk_ended = false; requested = [] }

abbrev talking : Talk
talking = record quiet { active = codes "alice" }

alice_forwarded : (on_track (codes "alice") (codes "audio/opus") quiet).1 ≡ true
unfolding on_track has_prefix to_lower text_eq
alice_forwarded = refl

alice_again :
    (on_track
      (codes "alice")
      (codes "audio/PCMA")
      (notify_all own (joined ∷ []) (on_track (codes "alice") (codes "audio/opus") quiet).0)).1
    ≡ true
unfolding on_track notify_all notify handle_event is_participant has_prefix to_lower text_eq
alice_again = refl

on_track_one_session_example : codes "alice" ≡ codes "alice"
on_track_one_session_example =
    on_track_one_session own (codes "alice") (codes "alice") (codes "audio/opus")
      (codes "audio/PCMA") (joined ∷ []) quiet refl alice_forwarded alice_again

-- An RTP packet of twelve bytes of header and one of payload.
abbrev raw : Text
raw = 128 ∷ 0 ∷ 0 ∷ 5 ∷ 0 ∷ 0 ∷ 0 ∷ 80 ∷ 0 ∷ 0 ∷ 0 ∷ 9 ∷ 200 ∷ []

abbrev speech : Packet
speech = record {
  payload_type = 0;
  sequence_number = 5;
  timestamp = 80;
  ssrc = 9;
  payload = 200 ∷ [];
}

abbrev offered : Publisher
offered = record { track = true; publisher_pt = 8; rx_sip = 0; tx_webrtc = 0; published = [] }

speech-IsAudio : IsAudio speech
unfolding IsAudio
speech-IsAudio = inl refl

publish_sip_rtp-Carries_example :
    (q : Packet) × Carries 8 speech q
    × SoundsLike speech q
    × ((publish_sip_rtp (λ r. some speech) raw written offered).0.published ≡ [] ++ q ∷ [])
publish_sip_rtp-Carries_example =
    publish_sip_rtp-Carries (λ r. some speech) raw speech offered (omega arith) refl
      (omega arith, tt) speech-IsAudio refl

offered-IsOneCodec : IsOneCodec offered
unfolding IsOneCodec
offered-IsOneCodec = tt

-- A stream at the end of both counters.
abbrev silent : Stream
silent = record {
  sip_pt = 8;
  tx_seq = 65535;
  tx_ts = 4294967295;
  tx_ssrc = 9;
  rx_webrtc = 0;
  tx_sip = 0;
  forwarded = [];
}

silent-Follows : Follows 65535 4294967295 silent
unfolding Follows IsStream
silent-Follows = (refl, refl)

forward_talk_track-Follows_example : Follows 65535 4294967295 (
    forward_talk_track
      (λ r. some speech)
      (λ r. none)
      pcmu
      false
      (packet raw true true ∷ packet raw false true ∷ packet raw true true ∷ read_failed ∷ [])
      silent)
forward_talk_track-Follows_example =
    forward_talk_track-Follows (λ r. some speech) (λ r. none) pcmu false
      (packet raw true true ∷ packet raw false true ∷ packet raw true true ∷ read_failed ∷ []) 65535
      4294967295 silent silent-Follows

-- A publisher whose candidates are never gathered.
abbrev stuck : PublisherAnswers
stuck = record {
  is_created = true;
  has_track = true;
  has_sender = true;
  has_offer = true;
  local_set = true;
  gathering = timed_out;
  sid = codes "rtc-pub";
  is_sent = true;
  answer = wait_cancelled;
}

stuck_lem : (start_media_bridge (codes "gw") 8 stuck).1 ≡ err gathering_timed_out
unfolding start_media_bridge start_publisher finish_start
stuck_lem = refl

start_media_bridge_err_example : (start_media_bridge (codes "gw") 8 stuck).0.open_peers ≡ []
start_media_bridge_err_example =
    start_media_bridge_err (codes "gw") 8 stuck gathering_timed_out stuck_lem

abbrev agreed : SubscriberAnswers
agreed = record { remote_set = true; answer_created = true; local_set = true; gathering = gathered }

abbrev offered_by : Text → RtcMessage
offered_by sid = record {
  sender = codes "alice";
  kind = codes "offer";
  sid = sid;
  sdp = some (codes "v=0");
  candidate = none;
}

handle_rtc_message_test :
    (handle_rtc_message (some (offered_by (codes "s1"))) new_bridge).1
    ≡ accept_offer (codes "alice") (codes "s1") (codes "v=0")
unfolding handle_rtc_message usable_sdp text_eq new_bridge
handle_rtc_message_test = refl

abbrev answered_for : Text → RtcMessage
answered_for sid = record {
  sender = codes "gw";
  kind = codes "answer";
  sid = sid;
  sdp = some (codes "v=1");
  candidate = none;
}

deliver_test :
    (handle_rtc_message
      (some (answered_for (codes "p")))
      (record new_bridge { answers = (codes "p", none) ∷ [] })).0.answers
    ≡ (codes "p", some (codes "v=1")) ∷ []
unfolding handle_rtc_message usable_sdp deliver text_eq new_bridge lookup insert
deliver_test = refl

-- A second offer of one identifier that begins before the first is finished takes the first one's
-- place in the map, and closing the bridge leaves the first connection open.
two_offers_test :
    (close (
      accept_finish (codes "alice") (codes "s1") 1 agreed (
        accept_finish
          (codes "alice")
          (codes "s1")
          0
          agreed
          (accept_begin
            (codes "s1")
            true
            (accept_begin (codes "s1") true new_bridge).0).0))).open_peers
    ≡ 0 ∷ []
unfolding close accept_begin accept_finish send_message open_peer close_peer remove close_all
    close_publisher new_bridge lookup insert text_eq
two_offers_test = refl

samples_of_test : samples_of (λ r. none) other_mime raw ≡ none
unfolding samples_of
samples_of_test = refl

abbrev heard_talk : Bridge
heard_talk = record { talk = talking; offers = no_offers }

abbrev leaving : List Turn
leaving = record { is_stopped = false; envelope = some (event left_event) } ∷ []

read_loop-IsEnding_example :
    ((read_loop own leaving heard_talk).talk.talk_ended ≡ true) ↔ IsEnding talking (heard leaving)
read_loop-IsEnding_example = read_loop-IsEnding own leaving heard_talk
