-- ===== src/Session/Waiting.antt =====
-- Whom a call waits for.
use talk_telephony_gateway_p.Base.{
  ◌≡◌, refl, sym, ap, ◌∙◌, false, List, [], ◌∷◌, ◌++◌, Option, none, some, Bool-cases, inl, inr,
}
use talk_telephony_gateway_p.Text.{Text}
use talk_telephony_gateway_p.Bridge.{RoomSession, Identity, is_participant}
use talk_telephony_gateway_p.Session.{
  Message, CallSession, joined_sessions, joined_or, with_joined, own_identity, first_participant,
  note_joined, wait_further, wait_loop, wait_for_talk_participant,
}

-- Everyone whom the messages tell to have joined the room.
pub all_joined : List Message → List RoomSession
all_joined [] = []
all_joined (m ∷ ms) = joined_or (joined_sessions m) ++ all_joined ms

pub or_next : Option RoomSession → Option RoomSession → Option RoomSession
or_next none next = next
or_next (some p) next = some p

pub id_of : Option RoomSession → Option Text
id_of none = none
id_of (some p) = some p.session_id

-- The session that a wait returns.
unfoldable pub answered_by : CallSession × Option (Text × List Message) → Option Text
answered_by (s, none) = none
answered_by (s, some (id, ms)) = some id

first_participant-append :
    (own : Identity) (xs ys : List RoomSession)
    → first_participant own (xs ++ ys)
      ≡ or_next (first_participant own xs) (first_participant own ys)
unfolding first_participant or_next
first_participant-append own [] ys = refl
first_participant-append own (x ∷ xs) ys = elim (Bool-cases (is_participant own x)) [
  | inl e ↦ rw e refl
  | inr e ↦ rw e (first_participant-append own xs ys)
]

note_joined-found :
    (own : Identity) (xs : List RoomSession) → (note_joined own xs).1 ≡ first_participant own xs
unfolding note_joined first_participant
note_joined-found own [] = refl
note_joined-found own (x ∷ xs) = elim (Bool-cases (is_participant own x)) [
  | inl e ↦ rw e refl
  | inr e ↦ rw e (note_joined-found own xs)
]

answered-wait_further :
    (s : CallSession) (ms : List Message) (o next : Option RoomSession)
    (rest : CallSession × Option (Text × List Message))
    → answered_by rest ≡ id_of next
    → answered_by (wait_further s ms o rest) ≡ id_of (or_next o next)
unfolding wait_further or_next id_of answered_by
answered-wait_further s ms none next rest h = h
answered-wait_further s ms (some p) next rest h = refl

wait_loop-first :
    (s : CallSession) (ms : List Message)
    → answered_by (wait_loop s ms) ≡ id_of (first_participant (own_identity s) (all_joined ms))
unfolding wait_loop all_joined first_participant own_identity with_joined answered_by id_of
wait_loop-first s [] = refl
wait_loop-first s (m ∷ ms) =
    let own = own_identity s in
    let xs = joined_or (joined_sessions m) in
    let (noted, found) = note_joined own xs in
    answered-wait_further (with_joined noted s) ms (note_joined own xs).1
      (first_participant own (all_joined ms)) (wait_loop (with_joined noted s) ms)
      (wait_loop-first (with_joined noted s) ms)
    ∙ ap (λ (o : Option RoomSession). id_of (or_next o (first_participant own (all_joined ms))))
        (note_joined-found own xs)
    ∙ ap id_of (sym (first_participant-append own xs (all_joined ms)))

-- The wait returns the first participant among those who were in the room and those who join it,
-- in the order in which the server named them; it fails when there is none before a read fails.
pub wait_for_talk_participant-first :
    (s : CallSession) (ms : List Message)
    → answered_by (wait_for_talk_participant s ms)
      ≡ id_of (first_participant (own_identity s) (s.initial_sessions ++ all_joined ms))
unfolding wait_for_talk_participant
wait_for_talk_participant-first s ms =
    let own = own_identity s in
    answered-wait_further s ms (first_participant own s.initial_sessions)
      (first_participant own (all_joined ms)) (wait_loop s ms) (wait_loop-first s ms)
    ∙ ap id_of (sym (first_participant-append own s.initial_sessions (all_joined ms)))

wait_further-once :
    (s : CallSession) (ms : List Message) (o : Option RoomSession)
    (rest : CallSession × Option (Text × List Message))
    → s.is_closed_once ≡ false
    → rest.0.is_closed_once ≡ false
    → (wait_further s ms o rest).0.is_closed_once ≡ false
unfolding wait_further
wait_further-once s ms none rest h g = g
wait_further-once s ms (some p) rest h g = h

wait_loop-once :
    (s : CallSession) (ms : List Message)
    → s.is_closed_once ≡ false
    → (wait_loop s ms).0.is_closed_once ≡ false
unfolding wait_loop with_joined
wait_loop-once s [] h = h
wait_loop-once s (m ∷ ms) h =
    let (noted, found) = note_joined (own_identity s) (joined_or (joined_sessions m)) in
    let t = with_joined noted s in
    wait_further-once t ms found (wait_loop t ms) h (wait_loop-once t ms h)

-- Waiting does not close the session.
pub wait_for_talk_participant-once :
    (s : CallSession) (ms : List Message)
    → s.is_closed_once ≡ false
    → (wait_for_talk_participant s ms).0.is_closed_once ≡ false
unfolding wait_for_talk_participant
wait_for_talk_participant-once s ms h =
    wait_further-once s ms (first_participant (own_identity s) s.initial_sessions) (wait_loop s ms)
      h (wait_loop-once s ms h)
