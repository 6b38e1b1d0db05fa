-- ===== src/Session/Opening.antt =====
-- The messages by which a session is opened and closed.
use talk_telephony_gateway_p.Base.{
  ℕ, ◌≡◌, refl, ap, ◌∙◌, Bool, true, false, not, ◌&&◌, List, [], ◌∷◌, ◌++◌, Option, none, some, ok,
  err, take, Bool-cases, Option-cases, inl, inr,
}
use talk_telephony_gateway_p.Text.{Text, codes, text_eq}
use talk_telephony_gateway_p.Bridge.{RoomSession}
use talk_telephony_gateway_p.Session.{
  Message, ClientMessage, CallSession, Signaling, Progress, and_then, joined_sessions, named,
  read_welcome, hello_loop, confirms, with_joined, join_loop, write, hello_message, say_hello,
  join_message, in_call_message, add_message, open_steps, close_on_error, new_session,
  open_call_session, close_session, remove_session,
}

module _ (signaling : Signaling) (room call_id number actor_id actor_type : Text) where
  -- The four messages of a session, in their order.
  pub protocol : Text → List ClientMessage
  protocol rnd =
      hello_message signaling rnd
      ∷ join_message signaling room
      ∷ in_call_message signaling
      ∷ add_message signaling call_id room number actor_id actor_type
      ∷ []

  -- The random text, if there is one.
  random_text : Option Text → Text
  random_text none = []
  random_text (some rnd) = rnd

  pub messages_of : List ClientMessage
  unfolding random_text
  messages_of = protocol (random_text signaling.random)

  -- An open session that has sent the first n messages.
  pub record Stage (n : ℕ) (s : CallSession) : Type 0 where
    pub wrote : s.sent ≡ take n messages_of
    pub is_live : s.is_open ≡ true
    pub same_call : s.virtual_id ≡ call_id
    pub same_room : s.room_id ≡ room
    pub not_closed : s.is_closed_once ≡ false

  pub OnStage : ℕ → Progress → Type 0
  OnStage n (s, ok ms) = Stage n s
  OnStage n (s, err e) = (k : ℕ) × (s.sent ≡ take k messages_of)

  and_then-OnStage :
      (n m : ℕ) (p : Progress) (next : CallSession → List Message → Progress)
      → OnStage n p
      → ((s : CallSession) (ms : List Message) → Stage n s → OnStage m (next s ms))
      → OnStage m (and_then p next)
  unfolding OnStage and_then
  and_then-OnStage n m (s, err e) next h f = h
  and_then-OnStage n m (s, ok ms) next h f = f s ms h

  write-OnStage :
      (n m : ℕ) (message : ClientMessage) (s : CallSession) (ms : List Message)
      → take n messages_of ++ message ∷ [] ≡ take m messages_of
      → Stage n s
      → OnStage m (write signaling n message s ms)
  unfolding OnStage write
  write-OnStage n m message s ms e h = elim (Bool-cases (signaling.can_write n)) [
    | inl f ↦ rw f (record {
      wrote = ap (λ (l : List ClientMessage). l ++ message ∷ []) h.wrote ∙ e;
      is_live = h.is_live;
      same_call = h.same_call;
      same_room = h.same_room;
      not_closed = h.not_closed;
    })
    | inr f ↦ rw f (n, h.wrote)
  ]

  named-Stage : (n : ℕ) (o : Option Text) (s : CallSession) → Stage n s → Stage n (named o s)
  unfolding named
  named-Stage n none s h = h
  named-Stage n (some id) s h = record {
    wrote = h.wrote;
    is_live = h.is_live;
    same_call = h.same_call;
    same_room = h.same_room;
    not_closed = h.not_closed;
  }

  with_joined-Stage :
      (n : ℕ) (xs : List RoomSession) (s : CallSession) → Stage n s → Stage n (with_joined xs s)
  unfolding with_joined
  with_joined-Stage n xs s h = record {
    wrote = h.wrote;
    is_live = h.is_live;
    same_call = h.same_call;
    same_room = h.same_room;
    not_closed = h.not_closed;
  }

  hello_loop-OnStage :
      (n : ℕ) (id : Text) (s : CallSession) (ms : List Message)
      → Stage n s
      → OnStage n (hello_loop id s ms)
  unfolding hello_loop OnStage
  hello_loop-OnStage n id s [] h = (n, h.wrote)
  hello_loop-OnStage n id s (m ∷ ms) h = elim (Bool-cases (text_eq m.kind (codes "error"))) [
    | inl e ↦ rw e (n, h.wrote)
    | inr e ↦ elim (Bool-cases (text_eq m.kind (codes "hello") && text_eq m.id id)) [
      | inl f ↦ rw (e, f) (named-Stage n m.hello_session s h)
      | inr f ↦ rw (e, f) (hello_loop-OnStage n id s ms h)
    ]
  ]

  join_loop-OnStage :
      (n : ℕ) (id : Text) (s : CallSession) (ms : List Message)
      → Stage n s
      → OnStage n (join_loop id s ms)
  unfolding join_loop OnStage
  join_loop-OnStage n id s [] h = (n, h.wrote)
  join_loop-OnStage n id s (m ∷ ms) h = elim (Option-cases (joined_sessions m)) [
    | inr (xs, e) ↦
        rw (e, join_loop)
          (join_loop-OnStage n id (with_joined xs s) ms (with_joined-Stage n xs s h))
    | inl e ↦ elim (Bool-cases (not (text_eq m.id id))) [
      | inl f ↦ rw (e, join_loop, f) (join_loop-OnStage n id s ms h)
      | inr f ↦ elim (Bool-cases (text_eq m.kind (codes "error"))) [
        | inl g ↦ rw (e, join_loop, f, g) (n, h.wrote)
        | inr g ↦ elim (Bool-cases (confirms s.room_id m)) [
          | inl i ↦ rw (e, join_loop, f, g, i) h
          | inr i ↦ rw (e, join_loop, f, g, i) (join_loop-OnStage n id s ms h)
        ]
      ]
    ]
  ]

  read_welcome-OnStage :
      (s : CallSession) (ms : List Message) → Stage 0 s → OnStage 0 (read_welcome s ms)
  unfolding read_welcome OnStage
  read_welcome-OnStage s [] h = (0, h.wrote)
  read_welcome-OnStage s (m ∷ ms) h = h

  say_hello-OnStage :
      (o : Option Text) (s : CallSession) (ms : List Message)
      → random_text o ≡ random_text signaling.random
      → Stage 0 s
      → OnStage 1 (say_hello signaling o s ms)
  unfolding say_hello OnStage messages_of protocol random_text
  say_hello-OnStage none s ms e h = (0, h.wrote)
  say_hello-OnStage (some rnd) s ms e h =
      write-OnStage 0 1 (hello_message signaling rnd) s ms
        (ap (λ (x : Text). hello_message signaling x ∷ []) e) h

  open_steps-OnStage :
      (s : CallSession) (ms : List Message)
      → Stage 0 s
      → OnStage 4 (open_steps signaling number actor_id actor_type s ms)
  unfolding open_steps messages_of protocol
  open_steps-OnStage s ms h = and_then-OnStage 0 4 _ _ (read_welcome-OnStage s ms h) λ s ms h.
      and_then-OnStage 1 4 _ _ (say_hello-OnStage signaling.random s ms refl h) λ s ms h.
        and_then-OnStage 1 4 _ _ (hello_loop-OnStage 1 _ s ms h) λ s ms h.
          and_then-OnStage 2 4 _ _ (write-OnStage 1 2 _ s ms (rw h.same_room refl) h) λ s ms h.
            and_then-OnStage 2 4 _ _ (join_loop-OnStage 2 _ s ms h) λ s ms h.
              and_then-OnStage 3 4 _ _ (write-OnStage 2 3 _ s ms refl h)
                λ s ms h. write-OnStage 3 4 _ s ms (rw (h.same_room, h.same_call) refl) h

  -- An open session has sent the four messages; one that could not be opened has sent the first of
  -- them, and its connection is closed.
  unfoldable pub IsOpened : Progress → Type 0
  IsOpened (s, ok ms) = (s.is_open ≡ true) × ((s.is_closed_once ≡ false) × (s.sent ≡ messages_of))
  IsOpened (s, err e) = (s.is_open ≡ false) × ((k : ℕ) × (s.sent ≡ take k messages_of))

  close_on_error-IsOpened : (p : Progress) → OnStage 4 p → IsOpened (close_on_error p)
  unfolding IsOpened close_on_error OnStage messages_of protocol
  close_on_error-IsOpened (s, ok ms) h = (h.is_live, (h.not_closed, h.wrote))
  close_on_error-IsOpened (s, err e) h = (refl, h)

  -- Opening a session either gives an open connection on which the hello, the request to join, the
  -- flags of the gateway and the added phone session were sent, in this order and nothing else, or
  -- an error and a closed connection on which the first of these messages were sent, whatever
  -- messages are read and whichever write fails.
  pub open_call_session-IsOpened :
      (is_connected : Bool) (messages : List Message)
      → IsOpened (
          open_call_session signaling is_connected room call_id number actor_id actor_type messages)
  unfolding open_call_session IsOpened new_session
  open_call_session-IsOpened false messages = (refl, (0, refl))
  open_call_session-IsOpened true messages = close_on_error-IsOpened _ (
      open_steps-OnStage (new_session true room call_id) messages (record {
        wrote = refl;
        is_live = refl;
        same_call = refl;
        same_room = refl;
        not_closed = refl;
      }))

closed_already :
    (signaling : Signaling) (s : CallSession)
    → s.is_closed_once ≡ true
    → close_session signaling s ≡ s
unfolding close_session
closed_already signaling s e = rw e refl

is_closed-close_session :
    (signaling : Signaling) (s : CallSession) → (close_session signaling s).is_closed_once ≡ true
unfolding close_session
is_closed-close_session signaling s = elim (Bool-cases s.is_closed_once) [
  | inl e ↦ rw (closed_already signaling s e) e
  | inr e ↦ rw e refl
]

-- Closing a session a second time does nothing; the first time asks for the removal of the phone
-- session, behind what was sent before, and closes the connection.
pub close_session_once :
    (signaling : Signaling) (s : CallSession)
    → s.is_closed_once ≡ false
    → (close_session signaling (close_session signaling s) ≡ close_session signaling s)
      × (((close_session signaling s).is_open ≡ false)
          × ((close_session signaling s).sent
              ≡ s.sent
                ++ remove_session (signaling.new_id (codes "remove") s.ids) s.virtual_id s.room_id
                  ∷ []))
unfolding close_session
close_session_once signaling s e = (
  closed_already signaling (close_session signaling s) (is_closed-close_session signaling s),
  (rw e refl, rw e refl),
)
