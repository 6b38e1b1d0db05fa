-- ===== src/Inbound/Reinvite.antt =====
-- An INVITE that repeats the Call-ID of a call that runs: a retransmission, or a re-INVITE.
use talk_telephony_gateway_p.Base.{
  ℕ, ◌+◌, ◌≡◌, refl, ap, ◌∙◌, true, false, ◌∷◌, ◌++◌, Option, none, some, arith, append-nil,
}
use talk_telephony_gateway_p.Text.{Text, codes, text_eq, is_empty}
use talk_telephony_gateway_p.Text.Laws.{text_eq_refl}
use talk_telephony_gateway_p.Dict.{lookup, insert, lookup-erase}
use talk_telephony_gateway_p.Sip.{SipRequest}
use talk_telephony_gateway_p.Inbound.{
  Registry, call_id, reply, begin_call, leave, end_call, is_method, handle_request,
}
use talk_telephony_gateway_p.Inbound.Hangup.{
  IsHangup, methods_differ, handle_hangup, hangup-cancelled, context_of,
}

handle_invite :
    (req : SipRequest) (r : Registry)
    → is_method (codes "INVITE") req ≡ true
    → is_empty (call_id req) ≡ false
    → handle_request req r ≡ begin_call (call_id req) (reply req 100 (codes "Trying") r)
unfolding handle_request text_eq
handle_invite req r h g = ground (
  arith,
  h,
  g,
  methods_differ req (codes "INVITE") (codes "OPTIONS") refl h,
  methods_differ req (codes "INVITE") (codes "NOTIFY") refl h,
)

-- The state after an INVITE, another INVITE with its Call-ID, and the end of the first call.
abbrev pub reinvited : SipRequest → SipRequest → Registry → Registry
reinvited first second r =
    end_call (call_id first) r.next_context (handle_request second (handle_request first r))

-- The same state, by its calls.
twice : Text → SipRequest → SipRequest → Registry → Registry
twice id first second r = end_call id r.next_context (
    begin_call id
      (reply second 100 (codes "Trying") (begin_call id (reply first 100 (codes "Trying") r))))

-- The second INVITE starts a call beside the first.
both_running :
    (first second : SipRequest) (r : Registry)
    → is_method (codes "INVITE") first ≡ true
    → is_method (codes "INVITE") second ≡ true
    → is_empty (call_id first) ≡ false
    → call_id second ≡ call_id first
    → (handle_request second (handle_request first r)).running
      ≡ (call_id first, r.next_context + 1) ∷ (call_id first, r.next_context) ∷ r.running
unfolding begin_call reply
both_running first second r h h' ne same =
    ap (λ (s : Registry). s.running) (handle_invite second (handle_request first r) h' (rw same ne))
    ∙ ap
        (λ (s : Registry).
          (begin_call (call_id second) (reply second 100 (codes "Trying") s)).running)
        (handle_invite first r h ne)
    ∙ rw same refl

reinvited_lem :
    (first second : SipRequest) (r : Registry)
    → is_method (codes "INVITE") first ≡ true
    → is_method (codes "INVITE") second ≡ true
    → is_empty (call_id first) ≡ false
    → call_id second ≡ call_id first
    → reinvited first second r ≡ twice (call_id first) first second r
unfolding twice
reinvited_lem first second r h h' ne same =
    let id = call_id first in
    ap (λ (s : Registry). end_call id r.next_context s)
      (handle_invite second (handle_request first r) h' (rw same ne)
        ∙ ap
            (λ (k : Text).
              begin_call k (reply second 100 (codes "Trying") (handle_request first r)))
            same
        ∙ ap (λ (s : Registry). begin_call id (reply second 100 (codes "Trying") s))
            (handle_invite first r h ne))

twice_running :
    (id : Text) (first second : SipRequest) (r : Registry)
    → lookup id (twice id first second r).running ≡ some (r.next_context + 1)
unfolding twice end_call begin_call reply leave lookup
twice_running id first second r = ground (arith, text_eq_refl id)

twice_unknown :
    (id : Text) (first second : SipRequest) (r : Registry)
    → lookup id (twice id first second r).calls ≡ none
unfolding twice end_call begin_call reply
twice_unknown id first second r = ground (
  arith,
  text_eq_refl id,
  lookup-erase id id (insert id (r.next_context + 1) (insert id r.next_context r.calls)),
)

-- When an INVITE is repeated while its call runs, both calls run, and when the first ends the
-- second is forgotten: it runs on, and neither a BYE nor a CANCEL cancels it any more.
pub reinvite_forgets :
    (first second bye : SipRequest) (r : Registry)
    → is_method (codes "INVITE") first ≡ true
    → is_method (codes "INVITE") second ≡ true
    → is_empty (call_id first) ≡ false
    → call_id second ≡ call_id first
    → call_id bye ≡ call_id first
    → IsHangup bye
    → ((handle_request second (handle_request first r)).running
        ≡ (call_id first, r.next_context + 1) ∷ (call_id first, r.next_context) ∷ r.running)
      × (lookup (call_id first) (reinvited first second r).running ≡ some (r.next_context + 1))
      × ((handle_request bye (reinvited first second r)).cancelled
          ≡ (reinvited first second r).cancelled)
unfolding reply
reinvite_forgets first second bye r h h' ne same same' g =
    let after = reinvited_lem first second r h h' ne same in
    (
      both_running first second r h h' ne same,
      ap (λ (s : Registry). lookup (call_id first) s.running) after
          ∙ twice_running (call_id first) first second r,
      ap (λ (s : Registry). s.cancelled) (handle_hangup bye (reinvited first second r) g)
          ∙ hangup-cancelled (call_id bye) (reply bye 200 (codes "OK") (reinvited first second r))
          ∙ ap (λ (o : Option ℕ). (reinvited first second r).cancelled ++ context_of o)
              (ap (λ (k : Text). lookup k (reinvited first second r).calls) same'
                ∙ ap (λ (s : Registry). lookup (call_id first) s.calls) after
                ∙ twice_unknown (call_id first) first second r)
          ∙ append-nil (reinvited first second r).cancelled,
    )
