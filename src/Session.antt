-- ===== src/Session.antt =====
-- cmd/gateway/main.go: `talkCallSession`, the signaling connection of one call. What is read from
-- the connection is a list of messages, at whose end a read fails; the hash, the random source and
-- the identifiers are parameters. The pings of its goroutine are not modelled.
pub mod Opening
pub mod Waiting
mod Tests
use talk_telephony_gateway_p.Base.{
  ℕ, ◌+◌, Bool, true, false, not, ◌&&◌, List, [], ◌∷◌, ◌++◌, Option, none, some, if◌then◌else◌,
  Result, ok, err,
}
use talk_telephony_gateway_p.Text.{Text, codes, text_eq, is_empty}
use talk_telephony_gateway_p.Bridge.{RoomSession, Identity, is_participant}

-- The fields of a `serverMessage` that are read here.
pub record RoomEvent : Type 0 where
  pub target : Text
  pub action : Text
  pub joined : List RoomSession

pub record Message : Type 0 where
  pub id : Text
  pub kind : Text
  pub event : Option RoomEvent
  pub hello_session : Option Text
  pub room : Option Text

-- The messages that are written; the numbers are the flags of a session in the call.
pub data ClientMessage : Type 0 where
  hello : (id random token backend : Text) → ClientMessage
  join_room : (id room : Text) → ClientMessage
  in_call : (id : Text) (flags : ℕ) → ClientMessage
  add_session :
      (id virtual_id room number : Text) (actor : Option (Text × Text)) (flags : ℕ) → ClientMessage
  remove_session : (id virtual_id room : Text) → ClientMessage

pub data OpenError : Type 0 where
  no_connection no_welcome no_random not_sent read_failed hello_rejected join_rejected : OpenError

-- `ids` counts the calls of `newID`, `is_open` tells whether the connection is.
pub record CallSession : Type 0 where
  pub session_id : Text
  pub virtual_id : Text
  pub room_id : Text
  pub initial_sessions : List RoomSession
  pub is_open : Bool
  pub is_closed_once : Bool
  pub ids : ℕ
  pub sent : List ClientMessage

-- What the gateway is configured with, and the library that the code calls; `can_write n` tells
-- whether the write of message number n works.
pub record Signaling : Type 0 where
  pub internal_secret : Text
  pub nextcloud_url : Text
  pub hmac_hex : Text → Text → Text
  pub random : Option Text
  pub new_id : Text → ℕ → Text
  pub can_write : ℕ → Bool

-- What a step leaves: the session, with the messages that are still to be read or the error.
abbrev pub Progress : Type 0
Progress = CallSession × Result OpenError (List Message)

pub and_then : Progress → (CallSession → List Message → Progress) → Progress
and_then (s, err e) next = (s, err e)
and_then (s, ok messages) next = next s messages

-- The sessions that a message tells to have joined the room, if it tells that.
pub joined_sessions : Message → Option (List RoomSession)
unfolding text_eq
joined_sessions m =
    if text_eq m.kind (codes "event")
    then elim m.event [
      | none ↦ none
      | some e ↦
          if text_eq e.target (codes "room") && text_eq e.action (codes "join")
          then some e.joined
          else none
    ]
    else none

pub named : Option Text → CallSession → CallSession
named none s = s
named (some id) s = record s { session_id = id }

pub read_welcome : CallSession → List Message → Progress
read_welcome s [] = (s, err no_welcome)
read_welcome s (m ∷ ms) = (s, ok ms)

-- The loop behind the hello.
pub hello_loop : Text → CallSession → List Message → Progress
unfolding text_eq
hello_loop id s [] = (s, err read_failed)
hello_loop id s (m ∷ ms) =
    let rest = hello_loop id s ms in
    if text_eq m.kind (codes "error")
    then (s, err hello_rejected)
    else if text_eq m.kind (codes "hello") && text_eq m.id id
    then (named m.hello_session s, ok ms)
    else rest

pub confirms : Text → Message → Bool
unfolding text_eq
confirms room m = elim m.room [
  | none ↦ false
  | some r ↦ text_eq m.kind (codes "room") && text_eq r room
]

pub with_joined : List RoomSession → CallSession → CallSession
with_joined xs s = record s { initial_sessions = s.initial_sessions ++ xs }

-- The loop behind the request to join the room.
pub join_loop : Text → CallSession → List Message → Progress
unfolding text_eq
join_loop id s [] = (s, err read_failed)
join_loop id s (m ∷ ms) =
    let rest = join_loop id s ms in
    elim (joined_sessions m) [
      | some xs ↦ join_loop id (with_joined xs s) ms
      | none ↦
          if not (text_eq m.id id)
          then rest
          else if text_eq m.kind (codes "error")
          then (s, err join_rejected)
          else if confirms s.room_id m
          then (s, ok ms)
          else rest
    ]

-- `actor` as the options of the added session have it.
pub actor_of : (actor_id actor_type : Text) → Option (Text × Text)
actor_of actor_id actor_type =
    if not (is_empty actor_id) && not (is_empty actor_type)
    then some (actor_id, actor_type)
    else none

pub close_on_error : Progress → Progress
close_on_error (s, err e) = (record s { is_open = false }, err e)
close_on_error (s, ok ms) = (s, ok ms)

pub new_session : Bool → (room call_id : Text) → CallSession
new_session is_connected room call_id = record {
  session_id = [];
  virtual_id = call_id;
  room_id = room;
  initial_sessions = [];
  is_open = is_connected;
  is_closed_once = false;
  ids = 0;
  sent = [];
}

module _ (signaling : Signaling) where
  -- `WriteJSON`, as message number n.
  pub write : ℕ → ClientMessage → CallSession → List Message → Progress
  write n message s ms =
      if signaling.can_write n
      then (record s { sent = s.sent ++ message ∷ []; ids = s.ids + 1 }, ok ms)
      else (record s { ids = s.ids + 1 }, err not_sent)

  pub hello_message : Text → ClientMessage
  hello_message rnd =
      hello (signaling.new_id (codes "call-hello") 0) rnd
        (signaling.hmac_hex signaling.internal_secret rnd) signaling.nextcloud_url

  pub say_hello : Option Text → CallSession → List Message → Progress
  say_hello none s ms = (s, err no_random)
  say_hello (some rnd) s ms = write 0 (hello_message rnd) s ms

  pub join_message : Text → ClientMessage
  join_message room = join_room (signaling.new_id (codes "room") 1) room

  pub in_call_message : ClientMessage
  in_call_message = in_call (signaling.new_id (codes "incall") 2) 3

  pub add_message : (virtual room number actor_id actor_type : Text) → ClientMessage
  add_message virtual room number actor_id actor_type =
      add_session (signaling.new_id (codes "add") 3) virtual room number
        (actor_of actor_id actor_type) 9

  -- The steps on a connection, from the welcome to the added session.
  pub open_steps : (number actor_id actor_type : Text) → CallSession → List Message → Progress
  open_steps number actor_id actor_type start messages =
      and_then (read_welcome start messages) (λ s ms.
        and_then (say_hello signaling.random s ms) (λ s ms.
          and_then (hello_loop (signaling.new_id (codes "call-hello") 0) s ms) (λ s ms.
            and_then (write 1 (join_message s.room_id) s ms) (λ s ms.
              and_then (join_loop (signaling.new_id (codes "room") 1) s ms) (λ s ms.
                and_then (write 2 in_call_message s ms) (λ s ms.
                  write 3 (add_message s.virtual_id s.room_id number actor_id actor_type) s ms))))))

  -- `openTalkCallSession`; the first argument tells whether the connection is made.
  pub open_call_session :
      Bool → (room call_id number actor_id actor_type : Text) → List Message → Progress
  open_call_session false room call_id number actor_id actor_type messages =
      (new_session false room call_id, err no_connection)
  open_call_session true room call_id number actor_id actor_type messages =
      close_on_error
        (open_steps number actor_id actor_type (new_session true room call_id) messages)

  -- `Close`. The source drops the error of the write: the message counts as sent in any case.
  pub close_session : CallSession → CallSession
  close_session s =
      let message =
        remove_session (signaling.new_id (codes "remove") s.ids) s.virtual_id s.room_id in
      if s.is_closed_once then s else record s {
        is_closed_once = true;
        is_open = false;
        ids = s.ids + 1;
        sent = s.sent ++ message ∷ [];
      }

pub own_identity : CallSession → Identity
own_identity s = record { self_id = s.session_id; virtual_id = s.virtual_id }

-- The loops over the sessions, which end at the first participant.
pub first_participant : Identity → List RoomSession → Option RoomSession
first_participant own [] = none
first_participant own (p ∷ ps) =
    let rest = first_participant own ps in if is_participant own p then some p else rest

-- The sessions of a message up to the first participant, who is returned too.
pub note_joined : Identity → List RoomSession → List RoomSession × Option RoomSession
note_joined own [] = ([], none)
note_joined own (p ∷ ps) =
    let (noted, found) = note_joined own ps in
    if is_participant own p then (p ∷ [], some p) else (p ∷ noted, found)

abbrev Wait : Type 0
Wait = CallSession × Option (Text × List Message)

pub joined_or : Option (List RoomSession) → List RoomSession
joined_or none = []
joined_or (some xs) = xs

-- How a message leaves the loop.
pub wait_further : CallSession → List Message → Option RoomSession → Wait → Wait
wait_further s ms (some p) rest = (s, some (p.session_id, ms))
wait_further s ms none rest = rest

-- The loop over the messages; `none` where a read fails.
pub wait_loop : CallSession → List Message → Wait
wait_loop s [] = (s, none)
wait_loop s (m ∷ ms) =
    let (noted, found) = note_joined (own_identity s) (joined_or (joined_sessions m)) in
    wait_further (with_joined noted s) ms found (wait_loop (with_joined noted s) ms)

-- `WaitForTalkParticipant`
pub wait_for_talk_participant : CallSession → List Message → Wait
wait_for_talk_participant s ms =
    wait_further s ms (first_participant (own_identity s) s.initial_sessions) (wait_loop s ms)
