-- ===== src/Bridge/Peers/Offers.antt =====
-- `acceptSubscriberOffer` in goroutines: the offers of the room that are being accepted at the same
-- time, beside `StartMediaBridge`'s publisher and `Close`. Each step runs under the bridge's lock
-- or on a connection of its own.
pub mod Counting
pub mod Accounted
pub mod Publishing
pub mod Reached
pub mod Overlap
mod Tests
use talk_telephony_gateway_p.Base.{
  ℕ, ◌≡◌, Bool, true, false, ◌&&◌, ◌||◌, List, [], ◌∷◌, ◌++◌, Option, none, some, ◌==◌, Result, ok,
  err,
}
use talk_telephony_gateway_p.Text.{Text, text_eq}
use talk_telephony_gateway_p.Dict.{lookup}
use talk_telephony_gateway_p.Bridge.Peers.{
  Peers, RtcMessage, Effect, no_effect, accept_offer, add_candidate, SubscriberAnswers, Gathering,
  gathered, timed_out, cancelled, handle_rtc_message, accept_begin, accept_finish, close,
}
use talk_telephony_gateway_p.Bridge.Peers.Start.{PublisherAnswers, start_publisher, new_bridge}

-- An offer between its connection and its end.
pub record Offer : Type 0 where
  pub session : Text
  pub sid : Text
  pub peer : ℕ

pub record Offers : Type 0 where
  pub bridge : Peers
  pub pending : List Offer

pub no_offers : Offers
no_offers = record { bridge = new_bridge; pending = [] }

abbrev begun : Text → Text → List Offer → Peers × Option ℕ → Offers
begun session sid pending (b, none) = record { bridge = b; pending = pending }
begun session sid pending (b, some n) = record {
  bridge = b;
  pending = record { session = session; sid = sid; peer = n } ∷ pending;
}

-- The goroutine that an offer starts, up to its connection.
pub run_effect : List Offer → Bool → Peers × Effect → Offers
unfolding accept_begin
run_effect pending is_created (b, no_effect) = record { bridge = b; pending = pending }
run_effect pending is_created (b, add_candidate n c) = record { bridge = b; pending = pending }
run_effect pending is_created (b, accept_offer session sid sdp) =
    begun session sid pending (accept_begin sid is_created b)

-- One message of `readLoop`, and the goroutine it starts.
pub receive : Option RtcMessage → Bool → Offers → Offers
unfolding handle_rtc_message
receive m is_created s = run_effect s.pending is_created (handle_rtc_message m s.bridge)

-- An offer with this identifier is being accepted.
pub is_accepting : Text → List Offer → Bool
unfolding text_eq
is_accepting sid [] = false
is_accepting sid (o ∷ os) = text_eq o.sid sid || is_accepting sid os

-- The message is an offer that overlaps with another one of the same identifier.
pub overlaps : List Offer → Effect → Bool
overlaps pending no_effect = false
overlaps pending (add_candidate n c) = false
overlaps pending (accept_offer session sid sdp) = is_accepting sid pending

-- The offer is registered once these answers have come.
pub is_registered_by : SubscriberAnswers → Bool
is_registered_by answers =
    answers.remote_set
    && answers.answer_created
    && answers.local_set
    && elim answers.gathering [ gathered ↦ true | timed_out ↦ false | cancelled ↦ false ]

-- The steps of a run in which no two offers with one identifier overlap, the publisher's identifier
-- is a new one, and nothing is registered after `Close`.
pub data Step : Offers → Offers → Type 0 where
  received :
      (s : Offers) (m : Option RtcMessage) (is_created : Bool)
      → overlaps s.pending (handle_rtc_message m s.bridge).1 ≡ false
      → Step s (receive m is_created s)
  finished :
      (b : Peers) (first others : List Offer) (o : Offer) (answers : SubscriberAnswers)
      → (b.is_closed && is_registered_by answers) ≡ false
      → Step
          (record { bridge = b; pending = first ++ o ∷ others })
          (record {
            bridge = accept_finish o.session o.sid o.peer answers b;
            pending = first ++ others;
          })
  published :
      (s : Offers) (self_id : Text) (pt : ℕ) (w : PublisherAnswers)
      → s.bridge.publisher ≡ none
      → s.bridge.is_closed ≡ false
      → lookup w.sid s.bridge.peers ≡ none
      → is_accepting w.sid s.pending ≡ false
      → Step s (record { bridge = (start_publisher self_id pt w s.bridge).0; pending = s.pending })
  closed : (s : Offers) → Step s (record { bridge = close s.bridge; pending = s.pending })

pub data Reach : Offers → Type 0 where
  start : Reach no_offers
  step : {s t : Offers} → Reach s → Step s t → Reach t

-- The connection is open.
unfoldable pub holds : ℕ → List ℕ → Bool
holds n [] = false
holds n (m ∷ ms) = m == n || holds n ms

-- The connection is one of the map `peers`.
unfoldable pub is_registered : ℕ → List (Text × ℕ) → Bool
is_registered n [] = false
is_registered n ((sid, m) ∷ ps) = m == n || is_registered n ps

unfoldable pub is_publisher : ℕ → Option ℕ → Bool
is_publisher n none = false
is_publisher n (some m) = m == n

-- The connection is one of an offer that is being accepted.
unfoldable pub is_pending : ℕ → List Offer → Bool
is_pending n [] = false
is_pending n (o ∷ os) = o.peer == n || is_pending n os
