-- ===== src/Inbound.antt =====
-- cmd/gateway/inbound.go: the requests of the SIP server on the shared transport. A call that an
-- INVITE starts runs in a goroutine of its own, under a context; a context is a number.
pub mod Calls
pub mod DialIn
pub mod Hangup
pub mod Invite
pub mod Reinvite
pub mod Transport
mod Tests
use talk_telephony_gateway_p.Base.{
  ℕ, ◌+◌, Bool, true, false, ◌&&◌, ◌||◌, List, [], ◌∷◌, ◌++◌, Option, none, some, ◌==◌,
  if◌then◌else◌,
}
use talk_telephony_gateway_p.Text.{Text, codes, text_eq, to_upper, is_empty}
use talk_telephony_gateway_p.Dict.{lookup, insert, erase}
use talk_telephony_gateway_p.Sip.{SipRequest, header, sip_response}

-- `calls` is the map of `inboundRegistry`, a call under its Call-ID with the context that its
-- cancel function cancels. `running` lists the goroutines, `cancelled` the contexts that are
-- cancelled, `sent` what is written to the peer.
pub record Registry : Type 0 where
  pub calls : List (Text × ℕ)
  pub running : List (Text × ℕ)
  pub cancelled : List ℕ
  pub next_context : ℕ
  pub sent : List Text

pub call_id : SipRequest → Text
call_id req = header req.headers (codes "call-id")

pub reply : SipRequest → ℕ → Text → Registry → Registry
reply req code phrase r = record r { sent = r.sent ++ sip_response req code phrase [] [] [] ∷ [] }

-- The goroutine is started under a new context.
pub begin_call : Text → Registry → Registry
unfolding insert
begin_call id r = record r {
  calls = insert id r.next_context r.calls;
  running = (id, r.next_context) ∷ r.running;
  next_context = r.next_context + 1;
}

pub cancel_call : Text → Registry → Registry
unfolding lookup
cancel_call id r = elim (lookup id r.calls) [
  | none ↦ r
  | some n ↦ record r { cancelled = r.cancelled ++ n ∷ [] }
]

pub leave : Text → ℕ → List (Text × ℕ) → List (Text × ℕ)
leave id n [] = []
leave id n ((j, m) ∷ cs) =
    let rest = leave id n cs in if text_eq j id && m == n then rest else (j, m) ∷ rest

-- The deferred function of a goroutine.
pub end_call : Text → ℕ → Registry → Registry
unfolding erase
end_call id n r = record r {
  calls = erase id r.calls;
  running = leave id n r.running;
  cancelled = r.cancelled ++ n ∷ [];
}

abbrev pub is_method : Text → SipRequest → Bool
is_method name req = text_eq (to_upper req.method) name

-- `handleSharedSIPRequest`
pub handle_request : SipRequest → Registry → Registry
handle_request req r =
    if is_method (codes "OPTIONS") req || is_method (codes "NOTIFY") req
    then reply req 200 (codes "OK") r
    else if is_method (codes "INVITE") req
    then (if is_empty (call_id req)
        then reply req 400 (codes "Bad Request") r
        else begin_call (call_id req) (reply req 100 (codes "Trying") r))
    else if is_method (codes "CANCEL") req || is_method (codes "BYE") req
    then cancel_call (call_id req) (reply req 200 (codes "OK") r)
    else if is_method (codes "ACK") req
    then r
    else reply req 405 (codes "Method Not Allowed") r
