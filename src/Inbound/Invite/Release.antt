-- ===== src/Inbound/Invite/Release.antt =====
-- The session of a call, when its INVITE is handled.
use talk_telephony_gateway_p.Base.{
  ◌≡◌, false, Option, none, some, Result, ok, err, Bool-cases, Option-cases, inl, inr,
}
use talk_telephony_gateway_p.Text.{Text, is_empty}
use talk_telephony_gateway_p.Accounts.{account_by_extension}
use talk_telephony_gateway_p.Session.{CallSession, Progress, wait_for_talk_participant}
use talk_telephony_gateway_p.Session.Waiting.{wait_for_talk_participant-once}
use talk_telephony_gateway_p.Session.Opening.{
  IsOpened, open_call_session-IsOpened, close_session_once,
}
use talk_telephony_gateway_p.Sip.{SipRequest}
use talk_telephony_gateway_p.Inbound.DialIn.{Room, DialInError, direct_dial_in}
use talk_telephony_gateway_p.Inbound.Invite.{
  Services, refuse, called_of, caller_of, with_session, with_room, handle_inbound_invite,
}

-- No session, or one whose connection is closed.
pub IsReleased : Option CallSession → Type 0
IsReleased none = Unit {0}
IsReleased (some s) = s.is_open ≡ false

module _ {ℓ} {Addr : Type ℓ} (services : Services Addr) (req : SipRequest) where
  with_session-IsReleased :
      (room call_id number actor_id actor_type : Text) (p : Progress)
      → IsOpened services.signaling room call_id number actor_id actor_type p
      → IsReleased (with_session services req p).session
  unfolding with_session IsReleased IsOpened
  with_session-IsReleased room call_id number actor_id actor_type (s, err e) h = h.0
  with_session-IsReleased room call_id number actor_id actor_type (s, ok ms) h =
      (close_session_once services.signaling (wait_for_talk_participant s ms).0
        (wait_for_talk_participant-once s ms h.1.0)).1.0

  with_room-IsReleased :
      (r : Result DialInError Room) → IsReleased (with_room services req r).session
  unfolding with_room IsReleased refuse
  with_room-IsReleased (err e) = tt
  with_room-IsReleased (ok room) =
      unfold IsReleased in
      with_session-IsReleased room.token _ (caller_of req) room.actor_id room.actor_type _ (
        open_call_session-IsOpened services.signaling room.token _ (caller_of req) room.actor_id
          room.actor_type services.is_connected services.messages)

  -- However an INVITE ends, it leaves no open signaling connection behind.
  pub handle_inbound_invite-IsReleased : IsReleased (handle_inbound_invite services req).session
  unfolding handle_inbound_invite refuse IsReleased
  handle_inbound_invite-IsReleased = elim (Bool-cases (is_empty (called_of req))) [
    | inl e ↦ rw e tt
    | inr e ↦ elim (Option-cases (account_by_extension services.accounts (called_of req))) [
      | inl f ↦ rw (e, f, handle_inbound_invite) tt
      | inr (account, f) ↦
          rw (e, f, handle_inbound_invite)
            (unfold IsReleased in
              with_room-IsReleased
                (direct_dial_in services.nextcloud (called_of req) (caller_of req)))
    ]
  ]
