-- ===== src/Bridge/Talk.antt =====
-- The room's side of the bridge: which participants are asked for their audio, whose audio is
-- forwarded, and when the call ends because that participant leaves.
use talk_telephony_gateway_p.Base.{
  ◌≡◌, ◌≢◌, refl, Bool, true, false, not, ◌&&◌, ◌||◌, List, [], ◌∷◌, ◌++◌, Option, none, some, any,
  sym, ap, ◌∙◌, All-append, if◌then◌else◌, arith, All, Bool-cases, inl, inr, ◌↔◌, ◌⊎◌,
}
use talk_telephony_gateway_p.Text.{Text, codes, text_eq, is_empty, has_prefix, to_lower}
use talk_telephony_gateway_p.Text.Laws.{text_eq_iff}
use talk_telephony_gateway_p.Bridge.{RoomSession, Identity, is_participant}

pub record RoomEvent : Type 0 where
  pub target : Text
  pub kind : Text
  pub join : List RoomSession
  pub change : List RoomSession
  pub leave : List Text

-- `talk_ended` tells whether the channel is closed; `requested` lists the sessions whose audio
-- `requestOffer` has asked for.
pub record Talk : Type 0 where
  pub active : Text
  pub talk_ended : Bool
  pub requested : List Text

-- The sessions of an event or of the room that `requestOffer` is started for.
pub request_offers : Identity → List RoomSession → List Text
request_offers own [] = []
request_offers own (s ∷ ss) =
    let rest = request_offers own ss in if is_participant own s then s.session_id ∷ rest else rest

-- The branch of a leave event.
pub handle_leave : List Text → Talk → Talk
handle_leave sessions t = record t {
  talk_ended = t.talk_ended || any (λ s. not (is_empty t.active) && text_eq s t.active) sessions;
}

unfoldable pub handle_event : Identity → Option RoomEvent → Talk → Talk
handle_event own none t = t
handle_event own (some ev) t =
    if not (text_eq ev.target (codes "room"))
    then t
    else if text_eq ev.kind (codes "leave")
    then handle_leave ev.leave t
    else if text_eq ev.kind (codes "change")
    then record t { requested = t.requested ++ request_offers own ev.change }
    else if text_eq ev.kind (codes "join")
    then record t { requested = t.requested ++ request_offers own ev.join }
    else t

-- `OnTrack` of the subscriber for a publisher's session, on a track with this MIME type: the
-- state, and whether the track is forwarded.
unfoldable pub on_track : Text → Text → Talk → Talk × Bool
unfolding has_prefix
on_track publisher mime t =
    if not (has_prefix (codes "audio/") (to_lower mime))
    then (t, false)
    else let u = if is_empty t.active then record t { active = publisher } else t in
      (u, text_eq u.active publisher)

-- What reaches the room's side: events of the room, and tracks of subscribers.
pub data Notice : Type 0 where
  room : Option RoomEvent → Notice
  track : (publisher mime : Text) → Notice

unfoldable pub notify : Identity → Notice → Talk → Talk
notify own (room ev) t = handle_event own ev t
notify own (track publisher mime) t = (on_track publisher mime t).0

unfoldable pub notify_all : Identity → List Notice → Talk → Talk
notify_all own [] t = t
notify_all own (n ∷ ns) t = notify_all own ns (notify own n t)

-- An event of the room that the session `a` has left.
pub Leaves : Text → Notice → Type 0
Leaves a (room none) = ⊥
Leaves a (room (some ev)) =
    (ev.target ≡ codes "room")
    × (ev.kind ≡ codes "leave")
    × (any (λ s. text_eq s a) ev.leave ≡ true)
Leaves a (track publisher mime) = ⊥

any_active :
    (a : Text) (ss : List Text)
    → (any (λ s. not (is_empty a) && text_eq s a) ss ≡ true)
      ↔ ((is_empty a ≡ false) × (any (λ s. text_eq s a) ss ≡ true))
any_active a [] = (λ h. ground arith, λ h. ground arith)
any_active a (s ∷ ss) = elim (Bool-cases (is_empty a)) [
  | inl e ↦ ground (arith, any_active a ss)
  | inr e ↦ ground (arith, any_active a ss)
]

handle_leave-ends :
    (ss : List Text) (t : Talk)
    → ((handle_leave ss t).talk_ended ≡ true) ↔ (
        (t.talk_ended ≡ true)
        ⊎ ((is_empty t.active ≡ false) × (any (λ s. text_eq s t.active) ss ≡ true)))
unfolding handle_leave
handle_leave-ends ss t = ground (arith, any_active t.active ss)

handle_event_leave :
    (own : Identity) (ev : RoomEvent) (t : Talk)
    → ((handle_event own (some ev) t).talk_ended ≡ true)
      ↔ ((t.talk_ended ≡ true) ⊎ ((is_empty t.active ≡ false) × Leaves t.active (room (some ev))))
unfolding handle_event Leaves
handle_event_leave own ev t = elim (Bool-cases (text_eq ev.target (codes "room"))) [
  | inr e ↦ ground (arith, e, text_eq_iff ev.target (codes "room"))
  | inl e ↦ elim (Bool-cases (text_eq ev.kind (codes "leave"))) [
    | inr f ↦ ground (arith, e, f, text_eq_iff ev.kind (codes "leave"))
    | inl f ↦ ground (
      arith,
      e,
      f,
      handle_leave-ends ev.leave t,
      text_eq_iff ev.kind (codes "leave"),
      text_eq_iff ev.target (codes "room"),
    )
  ]
]

on_track-active : (p mime : Text) (t : Talk) → is_empty t.active ≡ false → (on_track p mime t).0 ≡ t
unfolding on_track
on_track-active p mime t h = ground (arith, h)

on_track-talk_ended : (p mime : Text) (t : Talk) → (on_track p mime t).0.talk_ended ≡ t.talk_ended
unfolding on_track
on_track-talk_ended p mime t = ground arith

-- After a notice the call is told to end if it was before, or if the notice is an event of the room
-- that says that the session whose audio is forwarded has left, and otherwise not.
pub notify-talk_ended :
    (own : Identity) (n : Notice) (t : Talk)
    → ((notify own n t).talk_ended ≡ true)
      ↔ ((t.talk_ended ≡ true) ⊎ ((is_empty t.active ≡ false) × Leaves t.active n))
unfolding notify handle_event Leaves
notify-talk_ended own (room none) t = (λ h. inl h, λ h. ground arith)
notify-talk_ended own (room (some ev)) t = handle_event_leave own ev t
notify-talk_ended own (track p mime) t = ground (arith, on_track-talk_ended p mime t)

pub handle_event-active :
    (own : Identity) (ev : Option RoomEvent) (t : Talk) → (handle_event own ev t).active ≡ t.active
unfolding handle_event handle_leave
handle_event-active own none t = refl
handle_event-active own (some ev) t = ground arith

notify-active :
    (own : Identity) (n : Notice) (t : Talk)
    → is_empty t.active ≡ false
    → (notify own n t).active ≡ t.active
unfolding notify
notify-active own (room ev) t h = handle_event-active own ev t
notify-active own (track p mime) t h = ap (λ (u : Talk). u.active) (on_track-active p mime t h)

notify_all-active :
    (own : Identity) (ns : List Notice) (t : Talk)
    → is_empty t.active ≡ false
    → (notify_all own ns t).active ≡ t.active
unfolding notify_all
notify_all-active own [] t h = refl
notify_all-active own (n ∷ ns) t h =
    notify_all-active own ns (notify own n t) (rw (notify-active own n t h) h)
    ∙ notify-active own n t h

on_track_forwards :
    (p mime : Text) (t : Talk) → (on_track p mime t).1 ≡ true → (on_track p mime t).0.active ≡ p
unfolding on_track
on_track_forwards p mime t h = ground (arith, text_eq_iff t.active p)

-- Of two tracks that the bridge forwards, the first from a session whose name is not empty, the
-- later one comes from the same session, whatever happens in the room in between.
pub on_track_one_session :
    (own : Identity) (p q mime mime' : Text) (ns : List Notice) (t : Talk)
    → is_empty p ≡ false
    → (on_track p mime t).1 ≡ true
    → (on_track q mime' (notify_all own ns (on_track p mime t).0)).1 ≡ true
    → q ≡ p
on_track_one_session own p q mime mime' ns t hp h g =
    let first = on_track_forwards p mime t h in
    let kept = notify_all-active own ns (on_track p mime t).0 (rw first hp) in
    sym (on_track_forwards q mime' (notify_all own ns (on_track p mime t).0) g)
    ∙ ap (λ (u : Talk). u.active)
        (on_track-active q mime' (notify_all own ns (on_track p mime t).0) (rw (kept, first) hp))
    ∙ kept
    ∙ first

-- Not the gateway's own session, nor the phone's virtual one.
pub IsRequestable : Identity → Text → Type 0
IsRequestable own id = (is_empty id ≡ false) × (id ≢ own.self_id) × (id ≢ own.virtual_id)

is_participant-IsRequestable :
    (own : Identity) (s : RoomSession)
    → is_participant own s ≡ true
    → IsRequestable own s.session_id
unfolding is_participant IsRequestable
is_participant-IsRequestable own s h =
    ground (arith, text_eq_iff s.session_id own.self_id, text_eq_iff s.session_id own.virtual_id)

request_offers-IsRequestable :
    (own : Identity) (ss : List RoomSession) → All (IsRequestable own) (request_offers own ss)
unfolding request_offers
request_offers-IsRequestable own [] = tt
request_offers-IsRequestable own (s ∷ ss) = elim (Bool-cases (is_participant own s)) [
  | inl e ↦ rw e (is_participant-IsRequestable own s e, request_offers-IsRequestable own ss)
  | inr e ↦ rw e (request_offers-IsRequestable own ss)
]

handle_event-requested :
    (own : Identity) (ev : RoomEvent) (t : Talk)
    → All (IsRequestable own) t.requested
    → All (IsRequestable own) (handle_event own (some ev) t).requested
unfolding handle_event handle_leave
handle_event-requested own ev t h = ground (
  arith,
  h,
  All-append (IsRequestable own) t.requested (request_offers own ev.change) h
      (request_offers-IsRequestable own ev.change),
  All-append (IsRequestable own) t.requested (request_offers own ev.join) h
      (request_offers-IsRequestable own ev.join),
)

on_track-requested : (p mime : Text) (t : Talk) → (on_track p mime t).0.requested ≡ t.requested
unfolding on_track
on_track-requested p mime t = ground arith

-- If the sessions asked for audio so far are neither the bridge's own nor the phone's virtual one
-- nor empty, this stays so whatever happens in the room.
pub notify_all-requested :
    (own : Identity) (ns : List Notice) (t : Talk)
    → All (IsRequestable own) t.requested
    → All (IsRequestable own) (notify_all own ns t).requested
unfolding notify_all notify handle_event
notify_all-requested own [] t h = h
notify_all-requested own (room none ∷ ns) t h = notify_all-requested own ns t h
notify_all-requested own (room (some ev) ∷ ns) t h =
    notify_all-requested own ns (handle_event own (some ev) t) (handle_event-requested own ev t h)
notify_all-requested own (track p mime ∷ ns) t h =
    notify_all-requested own ns (on_track p mime t).0 (rw (on_track-requested p mime t) h)
