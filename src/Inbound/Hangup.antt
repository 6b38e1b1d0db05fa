-- ===== src/Inbound/Hangup.antt =====
-- What a BYE or a CANCEL does.
use talk_telephony_gateway_p.Base.{
  ℕ, ◌≡◌, ◌⊎◌, refl, sym, ap, ◌∙◌, true, false, List, [], ◌∷◌, ◌++◌, Option, none, some, arith,
  Option-cases, inl, inr, append-nil,
}
use talk_telephony_gateway_p.Text.{Text, codes, text_eq, to_upper}
use talk_telephony_gateway_p.Text.Laws.{text_eq_iff}
use talk_telephony_gateway_p.Dict.{lookup}
use talk_telephony_gateway_p.Sip.{SipRequest, sip_response}
use talk_telephony_gateway_p.Inbound.{
  Registry, call_id, reply, cancel_call, is_method, handle_request,
}
use talk_telephony_gateway_p.Inbound.Calls.{Reach, Reach-IsTracked}

-- A BYE or a CANCEL.
unfoldable pub IsHangup : SipRequest → Type 0
IsHangup req =
    (text_eq (to_upper req.method) (codes "BYE") ≡ true)
    ⊎ (text_eq (to_upper req.method) (codes "CANCEL") ≡ true)

pub methods_differ :
    (req : SipRequest) (a b : Text)
    → text_eq a b ≡ false
    → is_method a req ≡ true
    → is_method b req ≡ false
methods_differ req a b ne h = ground (
  arith,
  ne,
  h,
  text_eq_iff a b,
  text_eq_iff (to_upper req.method) a,
  text_eq_iff (to_upper req.method) b,
)

pub handle_hangup :
    (req : SipRequest) (r : Registry)
    → IsHangup req
    → handle_request req r ≡ cancel_call (call_id req) (reply req 200 (codes "OK") r)
unfolding handle_request IsHangup text_eq
handle_hangup req r (inl h) = ground (
  arith,
  h,
  methods_differ req (codes "BYE") (codes "OPTIONS") refl h,
  methods_differ req (codes "BYE") (codes "NOTIFY") refl h,
  methods_differ req (codes "BYE") (codes "INVITE") refl h,
)
handle_hangup req r (inr h) = ground (
  arith,
  h,
  methods_differ req (codes "CANCEL") (codes "OPTIONS") refl h,
  methods_differ req (codes "CANCEL") (codes "NOTIFY") refl h,
  methods_differ req (codes "CANCEL") (codes "INVITE") refl h,
)

-- The contexts that a hangup of a call cancels.
abbrev pub context_of : Option ℕ → List ℕ
context_of none = []
context_of (some n) = n ∷ []

pub hangup-cancelled :
    (id : Text) (r : Registry)
    → (cancel_call id r).cancelled ≡ r.cancelled ++ context_of (lookup id r.calls)
unfolding cancel_call
hangup-cancelled id r = elim (Option-cases (lookup id r.calls)) [
  | inl e ↦ rw (e, cancel_call) (sym (append-nil r.cancelled))
  | inr (n, e) ↦ rw (e, cancel_call) refl
]

hangup-sent : (id : Text) (r : Registry) → (cancel_call id r).sent ≡ r.sent
unfolding cancel_call
hangup-sent id r = elim (Option-cases (lookup id r.calls)) [
  | inl e ↦ rw (e, cancel_call) refl
  | inr (n, e) ↦ rw (e, cancel_call) refl
]

-- While no INVITE repeats the Call-ID of a call that runs, a BYE or a CANCEL is answered by 200 and
-- cancels the context of the call that runs under its Call-ID, if there is one, and no other.
pub handle_request_hangup :
    {r : Registry}
    → Reach r
    → (req : SipRequest) → IsHangup req
    → ((handle_request req r).sent ≡ r.sent ++ sip_response req 200 (codes "OK") [] [] [] ∷ [])
      × ((handle_request req r).cancelled
          ≡ r.cancelled ++ context_of (lookup (call_id req) r.running))
unfolding reply
handle_request_hangup {r} reach req h =
    let t = Reach-IsTracked reach in
    let s = reply req 200 (codes "OK") r in
    rw (handle_hangup req r h) (
      hangup-sent (call_id req) s,
      hangup-cancelled (call_id req) s
          ∙ ap (λ (o : Option ℕ). r.cancelled ++ context_of o) (t.known (call_id req)),
    )
