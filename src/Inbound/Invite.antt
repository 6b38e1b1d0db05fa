-- ===== src/Inbound/Invite.antt =====
-- cmd/gateway/inbound.go: `handleInboundINVITE`, a call from its INVITE to its end. The services
-- that it calls stand in a record, with what they answer during the call.
pub mod Answers
pub mod Release
mod Tests
use talk_telephony_gateway_p.Base.{
  ℕ, Bool, true, false, List, [], ◌∷◌, ◌++◌, Option, none, some, ◌==◌, if◌then◌else◌, Result, ok,
  err,
}
use talk_telephony_gateway_p.Base.Int.{ℤ}
use talk_telephony_gateway_p.Text.{Text, codes, is_empty}
use talk_telephony_gateway_p.Text.Decimal.{itoa}
use talk_telephony_gateway_p.Accounts.{Table, account_by_extension}
use talk_telephony_gateway_p.Session.{
  Message, CallSession, OpenError, Signaling, Progress, open_call_session, close_session,
  wait_for_talk_participant,
}
use talk_telephony_gateway_p.Sip.{
  SipRequest, header, sip_user, extract_sip_uri, line, crlf, user_agent,
}
use talk_telephony_gateway_p.Sip.Sdp.{parse_sdp_answer, build_sdp_answer}
use talk_telephony_gateway_p.Inbound.DialIn.{
  Room, DialInError, not_found, unauthorized, Nextcloud, direct_dial_in,
}

-- How an answered call ends: by its context, by the room, or by its RTP.
pub data CallEnd : Type 0 where
  hung_up talk_ended media_stopped : CallEnd

-- `messages` is what the signaling server sends on the connection of the call. The Boolean fields
-- tell whether the connection is made, a failed read is an error of the context, the write of the
-- 200 works, the media bridge starts, and the write of a BYE works.
pub record Services {ℓ} (Addr : Type ℓ) : Type ℓ where
  pub accounts : Table
  pub nextcloud : Nextcloud
  pub signaling : Signaling
  pub messages : List Message
  pub is_connected : Bool
  pub is_context_error : Bool
  pub is_written : Bool
  pub is_bridged : Bool
  pub is_bye_written : Bool
  pub call_end : CallEnd
  pub resolve : Text → ℤ → Option Addr
  pub rtp_port : Option ℕ
  pub advertised_ip : Text
  pub peer_side_ip : Text
  pub sip_port : ℕ
  pub now : ℕ
  pub new_id : Text → Text

-- What is written to the peer.
pub data Written : Type 0 where
  response : (code : ℕ) (phrase to_tag extra body : Text) → Written
  bye : (text : Text) → Written

pub data InviteError : Type 0 where
  no_number no_account bad_sdp no_socket not_written bridge_failed : InviteError
  no_target bye_not_written rtp_stopped : InviteError
  no_room : (e : DialInError) → InviteError
  not_opened : (e : OpenError) → InviteError
  wait_failed : (is_context_error : Bool) → InviteError

abbrev pub Ended : Type 0
Ended = List Written × Result InviteError (Unit {0})

-- The session is the one of the call, as the handler leaves it.
pub record Outcome : Type 0 where
  pub written : List Written
  pub session : Option CallSession
  pub result : Result InviteError (Unit {0})

pub plain : ℕ → Text → Written
plain code phrase = response code phrase [] [] []

pub refuse : Written → InviteError → Outcome
refuse w e = record { written = w ∷ []; session = none; result = err e }

pub caller_of : SipRequest → Text
caller_of req =
    let asserted = sip_user (header req.headers (codes "p-asserted-identity")) in
    let from = sip_user (header req.headers (codes "from")) in
    let caller = if is_empty asserted then from else asserted in
    if is_empty caller then codes "anonymous" else caller

pub called_of : SipRequest → Text
called_of req =
    let target = sip_user req.uri in
    if is_empty target then sip_user (header req.headers (codes "to")) else target

pub dial_in_refusal : DialInError → Written
dial_in_refusal not_found = plain 404 (codes "Not Found")
dial_in_refusal unauthorized = plain 403 (codes "Forbidden")
dial_in_refusal e = plain 500 (codes "Server Internal Error")

pub then_write : Written → Ended → Ended
then_write w (ws, r) = (w ∷ ws, r)

-- The target of a BYE.
pub remote_target : SipRequest → Text
remote_target req =
    let contact = extract_sip_uri (header req.headers (codes "contact")) in
    if is_empty contact then extract_sip_uri (header req.headers (codes "from")) else contact

module _ {ℓ} {Addr : Type ℓ} (services : Services Addr) (req : SipRequest) where
  pub contact_ip : Text
  contact_ip =
      if is_empty services.advertised_ip then services.peer_side_ip else services.advertised_ip

  pub contact_uri : Text
  unfolding itoa
  contact_uri = codes "sip:talk@" ++ (contact_ip ++ (b':' ∷ itoa services.sip_port))

  pub bye_text : Text → Text
  unfolding itoa
  bye_text target =
      codes "BYE "
      ++ (target
          ++ (codes " SIP/2.0"
              ++ (crlf
                  ++ (line (codes "Via") (
                        codes "SIP/2.0/UDP "
                        ++ (services.peer_side_ip
                            ++ (b':'
                                ∷ (itoa services.sip_port
                                    ++ (codes ";branch=z9hG4bK-"
                                        ++ (services.new_id (codes "bye") ++ codes ";rport"))))))
                      ++ (line (codes "Max-Forwards") (codes "70")
                          ++ (line (codes "From") (
                                b'<'
                                ∷ (contact_uri ++ (codes ">;tag=" ++ services.new_id (codes "it"))))
                              ++ (line (codes "To") (header req.headers (codes "from"))
                                  ++ (line (codes "Call-ID") (header req.headers (codes "call-id"))
                                      ++ (line (codes "CSeq") (codes "2 BYE")
                                          ++ (line (codes "User-Agent") user_agent
                                              ++ (line (codes "Content-Length") (codes "0")
                                                  ++ crlf)))))))))))

  -- `sendInboundBYE`
  pub send_inbound_bye : Ended
  send_inbound_bye =
      let target = remote_target req in
      if is_empty target
      then ([], err no_target)
      else if services.is_bye_written
      then (bye (bye_text target) ∷ [], ok tt)
      else ([], err bye_not_written)

  -- The loop at the end of an answered call.
  pub live_call : CallEnd → Ended
  live_call hung_up = ([], ok tt)
  live_call talk_ended = send_inbound_bye
  live_call media_stopped = ([], err rtp_stopped)

  pub ok_response : (port pt : ℕ) → Written
  unfolding build_sdp_answer
  ok_response port pt =
      response 200 (codes "OK") (services.new_id (codes "it"))
        (line (codes "Contact") (b'<' ∷ (contact_uri ++ codes ">"))
          ++ line (codes "Content-Type") (codes "application/sdp"))
        (build_sdp_answer services.now contact_ip port pt)

  -- From the answer of the room on.
  pub answer_call : Ended
  unfolding parse_sdp_answer
  answer_call = elim (parse_sdp_answer services.resolve req.body) [
    | err e ↦ (plain 488 (codes "Not Acceptable Here") ∷ [], err bad_sdp)
    | ok (remote, pt) ↦ elim services.rtp_port [
      | none ↦ ([], err no_socket)
      | some port ↦
          if services.is_written
          then then_write (ok_response port pt)
              (if services.is_bridged then live_call services.call_end else ([], err bridge_failed))
          else ([], err not_written)
    ]
  ]

  -- The wait has ended. Whether its error is one of the context is left open: the deadline of the
  -- socket gives one of the `os` package, for which no 480 is written.
  pub after_wait : Option (Text × List Message) → Ended
  after_wait none =
      if services.is_context_error
      then (plain 480 (codes "Temporarily Unavailable") ∷ [], err (wait_failed true))
      else ([], err (wait_failed false))
  after_wait (some answered) = answer_call

  -- The session is open, or could not be opened; the deferred call closes it.
  pub with_session : Progress → Outcome
  with_session (s, err e) = record {
    written = plain 500 (codes "Server Internal Error") ∷ [];
    session = some s;
    result = err (not_opened e);
  }
  with_session (s, ok ms) =
      let waited = wait_for_talk_participant s ms in
      let ended = then_write (plain 180 (codes "Ringing")) (after_wait waited.1) in
      record {
        written = ended.0;
        session = some (close_session services.signaling waited.0);
        result = ended.1;
      }

  pub with_room : Result DialInError Room → Outcome
  with_room (err e) = refuse (dial_in_refusal e) (no_room e)
  with_room (ok room) = with_session (
      open_call_session services.signaling services.is_connected room.token
        (services.new_id (codes "sip-in")) (caller_of req) room.actor_id room.actor_type
        services.messages)

  -- `handleInboundINVITE`
  pub handle_inbound_invite : Outcome
  handle_inbound_invite =
      if is_empty (called_of req)
      then refuse (plain 400 (codes "Bad Request")) no_number
      else elim (account_by_extension services.accounts (called_of req)) [
        | none ↦ refuse (plain 404 (codes "Not Found")) no_account
        | some account ↦
            with_room (direct_dial_in services.nextcloud (called_of req) (caller_of req))
      ]
