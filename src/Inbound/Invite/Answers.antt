-- ===== src/Inbound/Invite/Answers.antt =====
-- The final response of an INVITE.
use talk_telephony_gateway_p.Base.{
  ℕ, ◌≡◌, refl, ap, sym, ◌∙◌, Bool, true, false, List, [], ◌∷◌, Option, none, some, leb,
  if◌then◌else◌, Result, ok, err, Bool-cases, Option-cases, Result-cases, inl, inr,
}
use talk_telephony_gateway_p.Text.{Text, codes, is_empty}
use talk_telephony_gateway_p.Accounts.{account_by_extension}
use talk_telephony_gateway_p.Session.{Message, Progress, wait_for_talk_participant}
use talk_telephony_gateway_p.Sip.{SipRequest}
use talk_telephony_gateway_p.Sip.Sdp.{parse_sdp_answer}
use talk_telephony_gateway_p.Inbound.DialIn.{
  Room, DialInError, direct_dial_in, not_found, unauthorized, no_random, no_response, bad_status,
  bad_body, refused, no_room_id,
}
use talk_telephony_gateway_p.Inbound.Invite.{
  CallEnd, hung_up, talk_ended, media_stopped, Services, Written, response, bye, InviteError,
  no_number, no_account, bad_sdp, no_socket, not_written, bridge_failed, no_room, not_opened,
  wait_failed, Ended, Outcome, plain, refuse, called_of, caller_of, dial_in_refusal, then_write,
  remote_target, send_inbound_bye, live_call, ok_response, answer_call, after_wait, with_session,
  with_room, handle_inbound_invite, bye_text, contact_uri, contact_ip,
}

-- The final responses among what is written.
pub finals : List Written → List ℕ
finals [] = []
finals (response code phrase to_tag extra body ∷ ws) =
    let rest = finals ws in if leb 200 code then code ∷ rest else rest
finals (bye text ∷ ws) = finals ws

-- The ends of a call that the peer is told by no final response.
pub is_silent : Result InviteError (Unit {0}) → Bool
is_silent (err no_socket) = true
is_silent (err not_written) = true
is_silent (err (wait_failed false)) = true
is_silent r = false

-- The final response that belongs to a result.
pub final_of : Result InviteError (Unit {0}) → List ℕ
final_of (err no_number) = 400 ∷ []
final_of (err no_account) = 404 ∷ []
final_of (err (no_room not_found)) = 404 ∷ []
final_of (err (no_room unauthorized)) = 403 ∷ []
final_of (err (no_room e)) = 500 ∷ []
final_of (err (not_opened e)) = 500 ∷ []
final_of (err (wait_failed true)) = 480 ∷ []
final_of (err bad_sdp) = 488 ∷ []
final_of (err (wait_failed false)) = []
final_of (err no_socket) = []
final_of (err not_written) = []
final_of r = 200 ∷ []

-- The final responses that were written are those that belong to the result.
pub IsAnswered : Ended → Type 0
IsAnswered e = finals e.0 ≡ final_of e.1

-- After the 200 no final response is written, and none other belongs to the result.
IsLive : Ended → Type 0
IsLive e = (finals e.0 ≡ []) × (final_of e.1 ≡ 200 ∷ [])

dial_in-IsAnswered : (e : DialInError) → IsAnswered (dial_in_refusal e ∷ [], err (no_room e))
unfolding IsAnswered finals final_of dial_in_refusal plain
dial_in-IsAnswered no_random = refl
dial_in-IsAnswered no_response = refl
dial_in-IsAnswered not_found = refl
dial_in-IsAnswered unauthorized = refl
dial_in-IsAnswered bad_status = refl
dial_in-IsAnswered bad_body = refl
dial_in-IsAnswered refused = refl
dial_in-IsAnswered no_room_id = refl

module _ {ℓ} {Addr : Type ℓ} (services : Services Addr) (req : SipRequest) where
  bye-IsLive : IsLive (send_inbound_bye services req)
  unfolding IsLive finals final_of send_inbound_bye
  bye-IsLive = elim (Bool-cases (is_empty (remote_target req))) [
    | inl e ↦ rw e (refl, refl)
    | inr e ↦ elim (Bool-cases services.is_bye_written) [
      | inl f ↦ rw (e, f) (refl, refl)
      | inr f ↦ rw (e, f) (refl, refl)
    ]
  ]

  live_call-IsLive : (end : CallEnd) → IsLive (live_call services req end)
  unfolding IsLive finals final_of live_call
  live_call-IsLive hung_up = (refl, refl)
  live_call-IsLive talk_ended = unfold IsLive in bye-IsLive
  live_call-IsLive media_stopped = (refl, refl)

  bridge-IsLive : IsLive (
      if services.is_bridged
      then live_call services req services.call_end
      else ([], err bridge_failed))
  unfolding IsLive finals final_of live_call send_inbound_bye bye_text contact_uri contact_ip
  bridge-IsLive = elim (Bool-cases services.is_bridged) [
    | inl e ↦ rw e (unfold IsLive in live_call-IsLive services.call_end)
    | inr e ↦ rw e (refl, refl)
  ]

  ok_response-IsAnswered :
      (port pt : ℕ) (e : Ended)
      → IsLive e
      → IsAnswered (then_write (ok_response services req port pt) e)
  unfolding IsLive IsAnswered finals final_of then_write ok_response
  ok_response-IsAnswered port pt (ws, r) (h, g) = ap (λ (l : List ℕ). 200 ∷ l) h ∙ sym g

  answer_call-IsAnswered : IsAnswered (answer_call services req)
  unfolding answer_call IsAnswered finals final_of plain ok_response live_call contact_uri
      contact_ip send_inbound_bye bye_text
  answer_call-IsAnswered = elim (Result-cases (parse_sdp_answer services.resolve req.body)) [
    | inr (e, f) ↦ rw (f, answer_call) refl
    | inl ((remote, pt), f) ↦ elim (Option-cases services.rtp_port) [
      | inl g ↦ rw (f, g, answer_call) refl
      | inr (port, g) ↦ elim (Bool-cases services.is_written) [
        | inl i ↦
            rw (f, g, answer_call, i)
              (unfold IsAnswered in ok_response-IsAnswered port pt _ bridge-IsLive)
        | inr i ↦ rw (f, g, answer_call, i) refl
      ]
    ]
  ]

  after_wait-IsAnswered :
      (o : Option (Text × List Message)) → IsAnswered (after_wait services req o)
  unfolding after_wait IsAnswered finals final_of plain
  after_wait-IsAnswered (some answered) = unfold IsAnswered in answer_call-IsAnswered
  after_wait-IsAnswered none = elim (Bool-cases services.is_context_error) [
    | inl e ↦ rw e refl
    | inr e ↦ rw e refl
  ]

  ringing-IsAnswered :
      (e : Ended) → IsAnswered e → IsAnswered (then_write (plain 180 (codes "Ringing")) e)
  unfolding IsAnswered finals then_write plain
  ringing-IsAnswered (ws, r) h = h

  Answered : Outcome → Type 0
  Answered o = finals o.written ≡ final_of o.result

  with_session-Answered : (p : Progress) → Answered (with_session services req p)
  unfolding Answered with_session finals final_of plain
  with_session-Answered (s, err e) = refl
  with_session-Answered (s, ok ms) =
      unfold IsAnswered in
      ringing-IsAnswered _ (after_wait-IsAnswered (wait_for_talk_participant s ms).1)

  with_room-Answered : (r : Result DialInError Room) → Answered (with_room services req r)
  unfolding with_room Answered refuse
  with_room-Answered (err e) = unfold IsAnswered in dial_in-IsAnswered e
  with_room-Answered (ok room) = unfold Answered in with_session-Answered _

  -- The final responses to an INVITE are those that belong to the result: one, whose code tells the
  -- peer what happened, and none where the RTP socket cannot be opened, the 200 cannot be written or
  -- the wait fails with another error than the context's.
  pub handle_inbound_invite_final :
      finals (handle_inbound_invite services req).written
      ≡ final_of (handle_inbound_invite services req).result
  unfolding handle_inbound_invite refuse finals final_of plain
  handle_inbound_invite_final = elim (Bool-cases (is_empty (called_of req))) [
    | inl e ↦ rw e refl
    | inr e ↦ elim (Option-cases (account_by_extension services.accounts (called_of req))) [
      | inl f ↦ rw (e, f, handle_inbound_invite) refl
      | inr (account, f) ↦
          rw (e, f, handle_inbound_invite)
            (unfold Answered in
              with_room-Answered
                (direct_dial_in services.nextcloud (called_of req) (caller_of req)))
    ]
  ]
