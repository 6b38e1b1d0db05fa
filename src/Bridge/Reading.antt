-- ===== src/Bridge/Reading.antt =====
-- `readLoop`, `requestOffer` and `sendMessage`: what the bridge reads from the signaling server, and
-- what it asks for. What `ReadJSON` gives in each turn is a list.
use talk_telephony_gateway_p.Base.{
  ◌⊎◌, ◌↔◌, ◌≡◌, refl, sym, subst, ◌∙◌, Bool, true, false, List, [], ◌∷◌, Option, none, some,
  if◌then◌else◌, arith, Bool-cases, Option-cases, inl, inr,
}
use talk_telephony_gateway_p.Text.{Text, is_empty}
use talk_telephony_gateway_p.Bridge.{Identity}
use talk_telephony_gateway_p.Bridge.Talk.{
  RoomEvent, Talk, Leaves, handle_event-active, notify-talk_ended, Notice, room, handle_event,
  notify, notify_all,
}
use talk_telephony_gateway_p.Bridge.Peers.{RtcMessage}
use talk_telephony_gateway_p.Bridge.Peers.Offers.{Offers, receive}

-- An envelope by its type.
pub data Envelope : Type 0 where
  event : Option RoomEvent → Envelope
  message : (content : Option RtcMessage) (is_created : Bool) → Envelope
  server_error : Envelope
  other_type : Envelope

-- A turn of the loop: whether the context is done or the bridge closed at its start, and what is
-- read, if the read succeeds.
pub record Turn : Type 0 where
  pub is_stopped : Bool
  pub envelope : Option Envelope

pub record Bridge : Type 0 where
  pub talk : Talk
  pub offers : Offers

pub handle_envelope : Identity → Envelope → Bridge → Bridge
unfolding handle_event
handle_envelope own (event ev) b = record b { talk = handle_event own ev b.talk }
handle_envelope own (message m is_created) b = record b { offers = receive m is_created b.offers }
handle_envelope own server_error b = b
handle_envelope own other_type b = b

pub read_loop : Identity → List Turn → Bridge → Bridge
read_loop own [] b = b
read_loop own (t ∷ ts) b =
    if t.is_stopped
    then b
    else elim t.envelope [ none ↦ b | some e ↦ read_loop own ts (handle_envelope own e b) ]

-- The envelopes that are read before the loop stops.
pub heard : List Turn → List Envelope
heard [] = []
heard (t ∷ ts) = if t.is_stopped then [] else elim t.envelope [ none ↦ [] | some e ↦ e ∷ heard ts ]

-- The notices of the room among them, and the messages in their order.
pub notices : List Envelope → List Notice
notices [] = []
notices (event ev ∷ es) = room ev ∷ notices es
notices (message m is_created ∷ es) = notices es
notices (server_error ∷ es) = notices es
notices (other_type ∷ es) = notices es

pub receive_all : List Envelope → Offers → Offers
receive_all [] s = s
receive_all (message m is_created ∷ es) s = receive_all es (receive m is_created s)
receive_all (event ev ∷ es) s = receive_all es s
receive_all (server_error ∷ es) s = receive_all es s
receive_all (other_type ∷ es) s = receive_all es s

handle_all : Identity → List Envelope → Bridge → Bridge
handle_all own [] b = b
handle_all own (e ∷ es) b = handle_all own es (handle_envelope own e b)

read_loop-handle_all :
    (own : Identity) (ts : List Turn) (b : Bridge)
    → read_loop own ts b ≡ handle_all own (heard ts) b
unfolding read_loop handle_all heard
read_loop-handle_all own [] b = refl
read_loop-handle_all own (t ∷ ts) b = elim (Bool-cases t.is_stopped) [
  | inl e ↦ rw (e, read_loop, heard)
  | inr e ↦ elim (Option-cases t.envelope) [
    | inl f ↦ rw (e, f, read_loop, heard)
    | inr (x, f) ↦
        rw (e, f, read_loop, heard) (read_loop-handle_all own ts (handle_envelope own x b))
  ]
]

handle_all-parts :
    (own : Identity) (es : List Envelope) (b : Bridge)
    → handle_all own es b
      ≡ record { talk = notify_all own (notices es) b.talk; offers = receive_all es b.offers }
unfolding handle_all notices receive_all notify_all notify handle_envelope
handle_all-parts own [] b = refl
handle_all-parts own (event ev ∷ es) b = handle_all-parts own es _
handle_all-parts own (message m is_created ∷ es) b = handle_all-parts own es _
handle_all-parts own (server_error ∷ es) b = handle_all-parts own es _
handle_all-parts own (other_type ∷ es) b = handle_all-parts own es _

-- The loop hands the events it reads to the room's side and the messages to the peers, each in
-- their order.
pub read_loop-parts :
    (own : Identity) (ts : List Turn) (b : Bridge)
    → read_loop own ts b ≡ record {
      talk = notify_all own (notices (heard ts)) b.talk;
      offers = receive_all (heard ts) b.offers;
    }
read_loop-parts own ts b = read_loop-handle_all own ts b ∙ handle_all-parts own (heard ts) b

-- One of the envelopes is an event of the room that the session `a` has left.
pub AnyLeaves : Text → List Envelope → Type 0
AnyLeaves a [] = ⊥
AnyLeaves a (event ev ∷ es) = Leaves a (room ev) ⊎ AnyLeaves a es
AnyLeaves a (message m is_created ∷ es) = AnyLeaves a es
AnyLeaves a (server_error ∷ es) = AnyLeaves a es
AnyLeaves a (other_type ∷ es) = AnyLeaves a es

-- The call is to end, or the session that is heard leaves.
abbrev pub IsEnding : Talk → List Envelope → Type 0
IsEnding t es = (t.talk_ended ≡ true) ⊎ ((is_empty t.active ≡ false) × AnyLeaves t.active es)

join_ends :
    {E K L M N X : Type 0} → (X ↔ (K ⊎ (N × M))) → (K ↔ (E ⊎ (N × L))) → (X ↔ (E ⊎ (N × (L ⊎ M))))
join_ends h g = ground (arith, h, g)

handle_all-talk_ended :
    (own : Identity) (es : List Envelope) (b : Bridge)
    → ((handle_all own es b).talk.talk_ended ≡ true) ↔ IsEnding b.talk es
unfolding handle_all handle_envelope AnyLeaves notify
handle_all-talk_ended own [] b = (λ h. inl h, λ h. ground arith)
handle_all-talk_ended own (event ev ∷ es) b =
    let next = record b { talk = handle_event own ev b.talk } in
    let later = handle_all-talk_ended own es next in
    join_ends
      (subst
        (λ a.
          ((handle_all own es next).talk.talk_ended ≡ true)
          ↔ ((next.talk.talk_ended ≡ true) ⊎ ((is_empty a ≡ false) × AnyLeaves a es)))
        (handle_event-active own ev b.talk) later)
      (notify-talk_ended own (room ev) b.talk)
handle_all-talk_ended own (message m is_created ∷ es) b = handle_all-talk_ended own es _
handle_all-talk_ended own (server_error ∷ es) b = handle_all-talk_ended own es b
handle_all-talk_ended own (other_type ∷ es) b = handle_all-talk_ended own es b

-- While no track arrives, after `readLoop` the call is told to end if it was before, or if a session
-- is heard and one of the envelopes that were read before the loop stopped is an event of the room
-- that this session has left, and otherwise not.
pub read_loop-IsEnding :
    (own : Identity) (ts : List Turn) (b : Bridge)
    → ((read_loop own ts b).talk.talk_ended ≡ true) ↔ IsEnding b.talk (heard ts)
read_loop-IsEnding own ts b =
    subst (λ (c : Bridge). (c.talk.talk_ended ≡ true) ↔ IsEnding b.talk (heard ts))
      (sym (read_loop-handle_all own ts b)) (handle_all-talk_ended own (heard ts) b)
