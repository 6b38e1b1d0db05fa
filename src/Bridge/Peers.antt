-- ===== src/Bridge/Peers.antt =====
-- The peer connections of the bridge: the publisher of the phone's audio, and a subscriber for
-- each offer of the room. A connection is a number; `open_peers` are those that are not closed.
-- What pion answers to each call comes with the call.
pub mod Start
pub mod Offers
use talk_telephony_gateway_p.Base.{
  ℕ, ◌+◌, ◌≡◌, refl, Bool, true, false, not, List, [], ◌∷◌, ◌++◌, Option, none, some, ◌==◌,
  if◌then◌else◌, Result, ok, err,
}
use talk_telephony_gateway_p.Text.{Text, codes, text_eq, is_empty}
use talk_telephony_gateway_p.Dict.{lookup, insert}

-- A message that the bridge sends through the signaling server.
pub record Sent : Type 0 where
  pub recipient : Text
  pub kind : Text
  pub sid : Text

-- `peers` and `answers` are the maps of that name; an answer channel has room for one answer.
pub record Peers : Type 0 where
  pub peers : List (Text × ℕ)
  pub answers : List (Text × Option Text)
  pub next_peer : ℕ
  pub open_peers : List ℕ
  pub publisher : Option ℕ
  pub publisher_pt : ℕ
  pub is_closed : Bool
  pub sent : List Sent

-- `pc.Close()`
unfoldable pub remove : ℕ → List ℕ → List ℕ
remove n [] = []
remove n (m ∷ ms) = let rest = remove n ms in if m == n then rest else m ∷ rest

unfoldable pub close_peer : ℕ → Peers → Peers
close_peer n b = record b { open_peers = remove n b.open_peers }

-- `newPeerConnection`, when pion makes one: the connection is `b.next_peer`.
unfoldable pub open_peer : Peers → Peers
open_peer b = record b { next_peer = b.next_peer + 1; open_peers = b.next_peer ∷ b.open_peers }

unfoldable pub close_all : List (Text × ℕ) → List ℕ → List ℕ
close_all [] live = live
close_all ((sid, n) ∷ ps) live = close_all ps (remove n live)

unfoldable pub close_publisher : Option ℕ → List ℕ → List ℕ
close_publisher none live = live
close_publisher (some n) live = remove n live

-- `Close`, which has an effect once.
unfoldable pub close : Peers → Peers
close b = if b.is_closed then b else record b {
  is_closed = true;
  open_peers = close_publisher b.publisher (close_all b.peers b.open_peers);
}

-- The source only logs the error of the write: the message counts as sent in any case.
unfoldable pub send_message : Text → Text → Text → Peers → Peers
send_message recipient kind sid b = record b {
  sent = b.sent ++ record { recipient = recipient; kind = kind; sid = sid } ∷ [];
}

-- What the calls of `acceptSubscriberOffer` after the connection is made answer.
pub data Gathering : Type 0 where
  gathered timed_out cancelled : Gathering

pub record SubscriberAnswers : Type 0 where
  pub remote_set : Bool
  pub answer_created : Bool
  pub local_set : Bool
  pub gathering : Gathering

-- The lookup under the first lock, and the connection made after it; none where the offer is
-- dropped.
unfoldable pub accept_begin : Text → Bool → Peers → Peers × Option ℕ
unfolding lookup
accept_begin sid is_created b = elim (lookup sid b.peers) [
  | some n ↦ (b, none)
  | none ↦ if is_created then (open_peer b, some b.next_peer) else (b, none)
]

-- The rest, which runs concurrently with other offers: the connection is registered and answered,
-- or closed.
unfoldable pub accept_finish : Text → Text → ℕ → SubscriberAnswers → Peers → Peers
unfolding insert
accept_finish publisher_session sid n answers b =
    if not answers.remote_set
    then close_peer n b
    else if not answers.answer_created
    then close_peer n b
    else if not answers.local_set
    then close_peer n b
    else elim answers.gathering [
      | gathered ↦
          send_message publisher_session (codes "answer") sid
            (record b { peers = insert sid n b.peers })
      | timed_out ↦ close_peer n b
      | cancelled ↦ close_peer n b
    ]

-- A signaling message, as `handleRTCMessage` decodes it: of a payload the SDP, or a candidate.
pub record RtcMessage : Type 0 where
  pub sender : Text
  pub kind : Text
  pub sid : Text
  pub sdp : Option Text
  pub candidate : Option Text

-- What a message makes the bridge do.
pub data Effect : Type 0 where
  no_effect : Effect
  accept_offer : (session sid sdp : Text) → Effect
  add_candidate : (peer : ℕ) (candidate : Text) → Effect

unfoldable pub deliver : Text → Text → Peers → Peers
unfolding lookup insert
deliver sid sdp b = elim (lookup sid b.answers) [
  | none ↦ b
  | some none ↦ record b { answers = insert sid (some sdp) b.answers }
  | some (some pending) ↦ b
]

-- The SDP of a payload that has one.
unfoldable pub usable_sdp : Option Text → Option Text
usable_sdp none = none
usable_sdp (some s) = if is_empty s then none else some s

unfoldable pub handle_rtc_message : Option RtcMessage → Peers → Peers × Effect
unfolding lookup
handle_rtc_message none b = (b, no_effect)
handle_rtc_message (some m) b =
    if text_eq m.kind (codes "answer")
    then elim (usable_sdp m.sdp) [
      | none ↦ (b, no_effect)
      | some sdp ↦ (deliver m.sid sdp b, no_effect)
    ]
    else if text_eq m.kind (codes "offer")
    then (if is_empty m.sender then (b, no_effect) else elim (usable_sdp m.sdp) [
      | none ↦ (b, no_effect)
      | some sdp ↦ (b, accept_offer m.sender m.sid sdp)
    ])
    else if text_eq m.kind (codes "candidate")
    then elim m.candidate [
      | none ↦ (b, no_effect)
      | some c ↦ elim (lookup m.sid b.peers) [
        | none ↦ (b, no_effect)
        | some n ↦ (b, add_candidate n c)
      ]
    ]
    else (b, no_effect)
