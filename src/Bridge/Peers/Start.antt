-- ===== src/Bridge/Peers/Start.antt =====
-- `StartMediaBridge` and `startPublisher`: the offer of the phone's audio, and what is closed when
-- it fails.
use talk_telephony_gateway_p.Base.{
  ℕ, ◌≡◌, refl, Bool, true, false, not, ◌&&◌, [], none, some, ◌==◌, if◌then◌else◌, Result, ok, err,
  arith, Bool-cases, inl, inr,
}
use talk_telephony_gateway_p.Text.{Text, codes}
use talk_telephony_gateway_p.Dict.{insert}
use talk_telephony_gateway_p.Bridge.Peers.{
  Peers, Gathering, gathered, timed_out, cancelled, remove, close_peer, open_peer, close_all,
  close_publisher, close, send_message,
}

pub data StartError : Type 0 where
  bad_payload_type not_created no_track no_sender no_offer no_local_description : StartError
  gathering_cancelled gathering_timed_out not_sent bad_answer answer_cancelled answer_timed_out :
      StartError

-- What the wait for the publisher's answer ends with.
pub data AnswerWait : Type 0 where
  answered : (is_accepted : Bool) → AnswerWait
  wait_cancelled wait_timed_out : AnswerWait

pub record PublisherAnswers : Type 0 where
  pub is_created : Bool
  pub has_track : Bool
  pub has_sender : Bool
  pub has_offer : Bool
  pub local_set : Bool
  pub gathering : Gathering
  pub sid : Text
  pub is_sent : Bool
  pub answer : AnswerWait

-- From the second lock on: the connection `n` is registered, offered and answered.
unfoldable pub offer_publisher :
    Text → ℕ → ℕ → PublisherAnswers → Peers → Peers × Result StartError (Unit {0})
unfolding insert
offer_publisher self_id sip_pt n w b =
    let c = record b {
      publisher = some n;
      publisher_pt = sip_pt;
      peers = insert w.sid n b.peers;
      answers = insert w.sid none b.answers;
    } in
    let d = send_message self_id (codes "offer") w.sid c in
    if not w.is_sent then (c, err not_sent) else elim w.answer [
      | answered true ↦ (d, ok tt)
      | answered false ↦ (d, err bad_answer)
      | wait_cancelled ↦ (d, err answer_cancelled)
      | wait_timed_out ↦ (d, err answer_timed_out)
    ]

unfoldable pub start_publisher :
    Text → ℕ → PublisherAnswers → Peers → Peers × Result StartError (Unit {0})
start_publisher self_id sip_pt w b =
    let n = b.next_peer in
    let c = open_peer b in
    if not w.is_created
    then (b, err not_created)
    else if not w.has_track
    then (close_peer n c, err no_track)
    else if not w.has_sender
    then (close_peer n c, err no_sender)
    else if not w.has_offer
    then (close_peer n c, err no_offer)
    else if not w.local_set
    then (close_peer n c, err no_local_description)
    else elim w.gathering [
      | gathered ↦ offer_publisher self_id sip_pt n w c
      | cancelled ↦ (close_peer n c, err gathering_cancelled)
      | timed_out ↦ (close_peer n c, err gathering_timed_out)
    ]

-- A bridge without a connection.
unfoldable pub new_bridge : Peers
new_bridge = record {
  peers = [];
  answers = [];
  next_peer = 0;
  open_peers = [];
  publisher = none;
  publisher_pt = 0;
  is_closed = false;
  sent = [];
}

-- What `StartMediaBridge` does when the publisher has started or not.
unfoldable pub finish_start :
    Peers × Result StartError (Unit {0}) → Peers × Result StartError (Unit {0})
finish_start (b, ok u) = (b, ok tt)
finish_start (b, err e) = (close b, err e)

-- Without the offers of the room that are accepted meanwhile; the requests for the sessions that
-- are in the room already are `request_offers`.
unfoldable pub start_media_bridge :
    Text → ℕ → PublisherAnswers → Peers × Result StartError (Unit {0})
start_media_bridge self_id sip_source_pt w =
    if not (sip_source_pt == 0) && not (sip_source_pt == 8)
    then (new_bridge, err bad_payload_type)
    else finish_start (start_publisher self_id sip_source_pt w new_bridge)

start_publisher_err :
    (self_id : Text) (pt : ℕ) (w : PublisherAnswers) (e : StartError)
    → (start_publisher self_id pt w new_bridge).1 ≡ err e
    → (close (start_publisher self_id pt w new_bridge).0).open_peers ≡ []
unfolding start_publisher offer_publisher new_bridge close open_peer close_peer remove close_all
    close_publisher send_message insert
start_publisher_err self_id pt w e h = ground (arith, h)

finish_start_err :
    (p : Peers × Result StartError (Unit {0})) (e : StartError)
    → ((d : StartError) → p.1 ≡ err d → (close p.0).open_peers ≡ [])
    → (finish_start p).1 ≡ err e
    → (finish_start p).0.open_peers ≡ []
unfolding finish_start
finish_start_err (b, ok u) e k h = ground (arith, h)
finish_start_err (b, err d) e k h = k d refl

-- When `StartMediaBridge` returns an error, every peer connection that it made is closed.
pub start_media_bridge_err :
    (self_id : Text) (pt : ℕ) (w : PublisherAnswers) (e : StartError)
    → (start_media_bridge self_id pt w).1 ≡ err e
    → (start_media_bridge self_id pt w).0.open_peers ≡ []
unfolding start_media_bridge new_bridge
start_media_bridge_err self_id pt w e h = elim (Bool-cases (not (pt == 0) && not (pt == 8))) [
  | inl c ↦ rw c refl
  | inr c ↦ rw c (
      finish_start_err (start_publisher self_id pt w new_bridge) e
        (start_publisher_err self_id pt w) (rw c at h))
]
