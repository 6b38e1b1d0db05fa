-- ===== src/Sip/Dialout/Place/Placed.antt =====
-- The composition of an outgoing call: what `handleDialout` reports and leaves behind.
use talk_telephony_gateway_p.Base.{
  ◌≡◌, refl, ap, ◌∙◌, Bool, true, false, not, List, [], ◌∷◌, Option, none, some, ok, err,
  if◌then◌else◌,
}
use talk_telephony_gateway_p.Text.{Text, is_empty}
use talk_telephony_gateway_p.Accounts.{Table}
use talk_telephony_gateway_p.Session.{CallSession, Message, Progress, Signaling, open_call_session}
use talk_telephony_gateway_p.Session.Opening.{
  IsOpened, open_call_session-IsOpened, close_session_once,
}
use talk_telephony_gateway_p.Base.Int.{pos}
use talk_telephony_gateway_p.Sip.Dialout.{Status, accepted, Sent, status}
use talk_telephony_gateway_p.Sip.Dialout.Loop.{
  Services, Read, handle_dialout, with_session, simulated, dialout_caller,
}
use talk_telephony_gateway_p.Sip.Dialout.Loop.Progress.{statuses}
use talk_telephony_gateway_p.Sip.Dialout.Loop.Cleared.{IsCleared, handle_dialout-IsCleared}
use talk_telephony_gateway_p.Sip.Dialout.Place.{
  Route, Network, Request, Outcome, prepare, opened_room, dialout_of, dial_from, run_dialout,
}

-- No session, or one whose connection is closed.
pub IsReleased : Option CallSession → Type 0
IsReleased none = Unit {0}
IsReleased (some s) = s.is_open ≡ false

abbrev nothing : Outcome
nothing = record { sent = []; session = none }

abbrev simulation : Outcome
simulation = record { sent = status accepted [] (pos 0) ∷ simulated; session = none }

-- The guards of a request.
abbrev choose : (has_request is_sent is_simulated : Bool) → Outcome → Outcome
choose has_request is_sent is_simulated o =
    if not has_request
    then nothing
    else if not is_sent
    then nothing
    else if is_simulated
    then simulation
    else o

chosen :
    (P : Outcome → Type 0) (a b c : Bool) (o : Outcome)
    → P nothing
    → P simulation
    → P o
    → P (choose a b c o)
chosen P false b c o hn hs ho = hn
chosen P true false c o hn hs ho = hn
chosen P true true true o hn hs ho = hs
chosen P true true false o hn hs ho = ho

chosen_sent :
    (a b c : Bool) (o : Outcome) (ss : List Sent)
    → o.sent ≡ status accepted [] (pos 0) ∷ ss
    → (choose a b c o).sent ≡ (
        if not a
        then []
        else if not b
        then []
        else status accepted [] (pos 0) ∷ (if c then simulated else ss))
chosen_sent false b c o ss e = refl
chosen_sent true false c o ss e = refl
chosen_sent true true true o ss e = refl
chosen_sent true true false o ss e = e

module _ {ℓ} {Addr : Type ℓ} (net : Network Addr) (route : Route) (signaling : Signaling)
    (services : Services Addr) (table : Table) (call_id : Text) (r : Request) (is_connected : Bool)
    (messages : List Message) (is_written : Bool) (reads : List Read) where
  abbrev opened : Progress
  opened =
      open_call_session signaling is_connected r.room call_id r.number r.actor_id r.actor_type
        messages

  dial_from-sent :
      (p : Progress)
      → (dial_from net route signaling services table call_id r p is_written reads).sent
        ≡ status accepted [] (pos 0)
          ∷ with_session services
              (prepare net route call_id r.number)
              table
              (dialout_of route r (opened_room p))
              (opened_room p)
              is_written
              reads
  unfolding dial_from with_session opened_room dialout_caller
  dial_from-sent (s, err e) = refl
  dial_from-sent (s, ok ms) = refl

  dial_from-IsReleased :
      (p : Progress)
      → IsOpened signaling r.room call_id r.number r.actor_id r.actor_type p
      → IsReleased
          (dial_from net route signaling services table call_id r p is_written reads).session
  unfolding dial_from IsReleased IsOpened
  dial_from-IsReleased (s, err e) h = h.0
  dial_from-IsReleased (s, ok ms) h = (close_session_once signaling s h.1.0).1.0

  -- With the session that is opened, a request is the one of `handle_dialout`.
  run_dialout-sent :
      (run_dialout net route signaling services table call_id r is_connected messages is_written
        reads).sent
      ≡ handle_dialout services
          (prepare net route call_id r.number)
          table
          (dialout_of route r (opened_room opened))
          is_written
          reads
  unfolding run_dialout handle_dialout
  run_dialout-sent =
      chosen_sent r.has_request r.is_accepted_sent (is_empty route.sip_server) _ _
        (dial_from-sent opened)

  run_dialout-IsReleased :
      IsReleased
        (run_dialout net route signaling services table call_id r is_connected messages is_written
          reads).session
  unfolding run_dialout IsReleased
  run_dialout-IsReleased =
      chosen (λ o. IsReleased o.session) r.has_request r.is_accepted_sent
        (is_empty route.sip_server) _ tt tt
        (dial_from-IsReleased opened (
          open_call_session-IsOpened signaling r.room call_id r.number r.actor_id r.actor_type
            is_connected messages))

  -- However a dialout request that has a payload and whose first status is sent ends, it leaves no open
  -- signaling connection behind, and its statuses are accepted, then ringing and connected at most
  -- once each and in this order, and then cleared, exactly once and last: whatever the signaling
  -- server, the network, the accounts and the SIP server do.
  pub run_dialout-IsCleared :
      r.has_request ≡ true
      → r.is_accepted_sent ≡ true
      → IsReleased
          (run_dialout net route signaling services table call_id r is_connected messages is_written
            reads).session
        × ((ss : List Status) × (statuses
                (run_dialout net route signaling services table call_id r is_connected messages
                  is_written reads).sent
              ≡ accepted ∷ ss)
            × IsCleared ss)
  run_dialout-IsCleared h k =
      let (ss, told, clear) =
        handle_dialout-IsCleared services (prepare net route call_id r.number) table
          (dialout_of route r (opened_room opened)) is_written reads h k in
      (run_dialout-IsReleased, (ss, ap statuses run_dialout-sent ∙ told, clear))
