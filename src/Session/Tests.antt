-- ===== src/Session/Tests.antt =====
-- The theorems on a call's session, at a session that is opened and answered.
use talk_telephony_gateway_p.Base.{◌≡◌, refl, true, false, List, [], ◌∷◌, none, some, ok, length}
use talk_telephony_gateway_p.Text.{Text, codes}
use talk_telephony_gateway_p.Bridge.{RoomSession, is_participant}
use talk_telephony_gateway_p.Session.{
  Message, CallSession, Signaling, joined_sessions, read_welcome, hello_loop, confirms, join_loop,
  actor_of, write, say_hello, hello_message, open_steps, and_then, close_on_error, new_session,
  open_call_session, close_session, with_joined, named, own_identity, first_participant,
  note_joined, joined_or, wait_further, wait_loop, wait_for_talk_participant, join_message,
  in_call_message, add_message,
}
use talk_telephony_gateway_p.Session.Opening.{IsOpened, open_call_session-IsOpened}
use talk_telephony_gateway_p.Session.Waiting.{
  all_joined, id_of, answered_by, wait_for_talk_participant-first,
}

abbrev signaling : Signaling
signaling = record {
  internal_secret = codes "s";
  nextcloud_url = codes "https://cloud/";
  hmac_hex = λ secret t. codes "mac";
  random = some (codes "rnd");
  new_id = λ p n. p;
  can_write = λ n. true;
}

abbrev plain : Text → Text → Message
plain id kind = record {
  id = id;
  kind = kind;
  event = none;
  hello_session = some (codes "own");
  room = some (codes "r1");
}

abbrev member : Text → RoomSession
member id = record { session_id = id; user_id = codes "alice"; is_phone = false }

abbrev joining : List RoomSession → Message
joining xs = record {
  id = [];
  kind = codes "event";
  event = some (record { target = codes "room"; action = codes "join"; joined = xs });
  hello_session = none;
  room = none;
}

abbrev greeting : List Message
greeting =
    plain [] (codes "welcome")
    ∷ plain (codes "call-hello") (codes "hello")
    ∷ joining (member (codes "own") ∷ [])
    ∷ plain (codes "room") (codes "room")
    ∷ []

abbrev opened : CallSession
opened = record {
  session_id = codes "own";
  virtual_id = codes "call";
  room_id = codes "r1";
  initial_sessions = member (codes "own") ∷ [];
  is_open = true;
  is_closed_once = false;
  ids = 4;
  sent = [];
}

open_call_session-IsOpened_example :
    IsOpened signaling
      (codes "r1")
      (codes "call")
      (codes "7")
      []
      []
      (open_call_session signaling true (codes "r1") (codes "call") (codes "7") [] [] greeting)
open_call_session-IsOpened_example =
    open_call_session-IsOpened signaling (codes "r1") (codes "call") (codes "7") [] [] true greeting

wait_for_talk_participant-first_example :
    answered_by (
      wait_for_talk_participant opened
        (joining (member (codes "call") ∷ member (codes "s2") ∷ []) ∷ []))
    ≡ id_of (
        first_participant (own_identity opened) (
          member (codes "own")
          ∷ all_joined (joining (member (codes "call") ∷ member (codes "s2") ∷ []) ∷ [])))
wait_for_talk_participant-first_example =
    wait_for_talk_participant-first opened
      (joining (member (codes "call") ∷ member (codes "s2") ∷ []) ∷ [])

actor_test : actor_of (codes "a") (codes "users") ≡ some (codes "a", codes "users")
unfolding actor_of
actor_test = refl

open_test :
    (open_call_session signaling true (codes "r1") (codes "call") (codes "7") [] [] greeting).1
    ≡ ok []
unfolding open_call_session open_steps close_on_error new_session and_then read_welcome say_hello
    write hello_message hello_loop named join_loop joined_sessions with_joined confirms join_message
    in_call_message add_message actor_of
open_test = refl

wait_test :
    answered_by (wait_for_talk_participant opened (joining (member (codes "s2") ∷ []) ∷ []))
    ≡ some (codes "s2")
unfolding wait_for_talk_participant wait_loop wait_further first_participant note_joined joined_or
    joined_sessions own_identity with_joined answered_by is_participant
wait_test = refl

close_test : length (close_session signaling opened).sent ≡ 1
unfolding close_session
close_test = refl
