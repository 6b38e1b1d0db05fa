-- ===== src/Sip/Dialout/Loop.antt =====
-- The response loop of `sipDial`, and `handleDialout` around it. The hashes, the sources of
-- identifiers and nonces, the resolver and the media bridge are parameters.
pub mod Progress
pub mod Cleared
use talk_telephony_gateway_p.Base.{
  ℕ, ◌+◌, Bool, true, false, not, ◌&&◌, ◌||◌, List, [], ◌∷◌, ◌++◌, Option, none, some,
  if◌then◌else◌, Result, ok, err, ◌>>=◌,
}
use talk_telephony_gateway_p.Base.Int.{ℤ, pos}
use talk_telephony_gateway_p.Text.{Text, codes, is_empty, text_eq, trim_space}
use talk_telephony_gateway_p.Accounts.{Pointer, Table, AccountError, select_outbound}
use talk_telephony_gateway_p.Bridge.{RoomSession, Identity}
use talk_telephony_gateway_p.Sip.{SipResponse, header, parse_sip_response, extract_sip_uri}
use talk_telephony_gateway_p.Sip.Sdp.{parse_sdp_answer}
use talk_telephony_gateway_p.Sip.Digest.{parse_digest_challenge, build_digest_authorization}
use talk_telephony_gateway_p.Sip.Dialout.{
  Dialling, Status, accepted, ringing, connected, cleared, Sent, invite, ack, status, DialoutError,
  no_socket, not_sent, read_failed, rejected_after_retry, no_credentials, no_challenge,
  bad_challenge, no_authorization, bad_sdp, bridge_failed, rejected, timed_out, Call, is_code,
  is_at_least, is_success, send, send_ack, ring,
}

-- What a read answers before the deadline. With a datagram come what the write of an INVITE
-- answers and what the media bridge returns, should they be reached.
pub data Read : Type 0 where
  read_timeout : Read
  read_error : Read
  datagram : (raw : Text) (is_written is_bridged : Bool) → Read

-- The services that the code calls.
pub record Services {ℓ} (Addr : Type ℓ) : Type ℓ where
  pub md5_hex : Text → Text
  pub sha256_hex : Text → Text
  pub nonce : ℕ → Option Text
  pub new_branch : ℕ → Text
  pub resolve : Text → ℤ → Option Addr

-- How a response leaves the loop: `none` for the next read.
abbrev pub Ending : Type 0
Ending = Option (Result DialoutError (Unit {0}))

pub new_call : Text → Call
new_call b = record {
  ringing_sent = false;
  auth_tried = false;
  cseq = 1;
  branch = b;
  ids = 1;
  sent = [];
}

-- A response either ends the loop or leaves it to the next read.
pub leave :
    Call × Ending → Call × Result DialoutError (Unit {0}) → Call × Result DialoutError (Unit {0})
leave (t, none) rest = rest
leave (t, some r) rest = (t, r)

module _ {ℓ} {Addr : Type ℓ} (services : Services Addr) (d : Dialling) where
  -- The authorization header of the second INVITE.
  pub authorize : SipResponse → Call → Result DialoutError Text
  authorize resp c =
      let is_proxy = is_code 407 resp.code in
      let challenge =
        header resp.headers
          (if is_proxy then codes "proxy-authenticate" else codes "www-authenticate") in
      if c.auth_tried
      then err rejected_after_retry
      else if is_empty d.auth_user || is_empty d.password
      then err no_credentials
      else if is_empty challenge
      then err no_challenge
      else elim (parse_digest_challenge challenge) [
        | err e ↦ err bad_challenge
        | ok parsed ↦
            elim (build_digest_authorization services.md5_hex services.sha256_hex parsed d.auth_user
              d.password (codes "INVITE") d.uri (services.nonce c.ids)) [
                | err e ↦ err no_authorization
                | ok value ↦ ok (
                    (if is_proxy then codes "Proxy-Authorization" else codes "Authorization")
                    ++ (codes ": " ++ value))
              ]
      ]

  -- The second INVITE.
  pub retry : Bool → Result DialoutError Text → Call → Call × Ending
  retry is_written (err e) c = (c, some (err e))
  retry is_written (ok authorization) c =
      let b = services.new_branch c.ids in
      let t = record c { auth_tried = true; cseq = c.cseq + 1; branch = b; ids = c.ids + 1 } in
      if is_written
      then (send (invite t.cseq b authorization) t, none)
      else (t, some (err not_sent))

  -- The case of 401 and 407.
  pub challenged : Bool → SipResponse → Call → Call × Ending
  challenged is_written resp c = retry is_written (authorize resp c) (send_ack d resp c.branch c)

  -- The case of a 2xx.
  pub answered : Bool → SipResponse → Call → Call × Ending
  answered is_bridged resp c =
      let a = send_ack d resp (services.new_branch c.ids) c in
      let t = send (status connected [] resp.code) a in
      elim (parse_sdp_answer services.resolve resp.body) [
        | err e ↦ (t, some (err bad_sdp))
        | ok (remote, pt) ↦
            if is_bridged
            then (send (status cleared (codes "normal-clearing") (pos 200)) t, some (ok tt))
            else (t, some (err bridge_failed))
      ]

  pub respond : (is_written is_bridged : Bool) → SipResponse → Call → Call × Ending
  respond is_written is_bridged resp c =
      if is_code 180 resp.code || is_code 183 resp.code
      then (ring resp c, none)
      else if is_code 401 resp.code || is_code 407 resp.code
      then challenged is_written resp c
      else if is_success resp.code
      then answered is_bridged resp c
      else if is_at_least 300 resp.code
      then (send_ack d resp c.branch c, some (err rejected))
      else (c, none)

  -- One datagram: what is no response is passed over.
  pub receive : Text → (is_written is_bridged : Bool) → Call → Call × Ending
  receive raw is_written is_bridged c = elim (parse_sip_response raw) [
    | err e ↦ (c, none)
    | ok resp ↦ respond is_written is_bridged resp c
  ]

  -- The loop; its list ends where the deadline is reached.
  pub dial_loop : List Read → Call → Call × Result DialoutError (Unit {0})
  dial_loop [] c = (c, err timed_out)
  dial_loop (read_timeout ∷ reads) c = dial_loop reads c
  dial_loop (read_error ∷ reads) c = (c, err read_failed)
  dial_loop (datagram raw is_written is_bridged ∷ reads) c =
      let t = receive raw is_written is_bridged c in leave t (dial_loop reads t.0)

  -- From the first INVITE on.
  pub sip_dial : Bool → List Read → Call × Result DialoutError (Unit {0})
  sip_dial is_written reads =
      let c = new_call (services.new_branch 0) in
      let started = dial_loop reads (send (invite 1 c.branch []) c) in
      if is_written then started else (c, err not_sent)

-- A dialout request as `handleDialout` finds it: whether it has a payload, whether the first status
-- is sent, the configured server and user, the caller of its options, and the room's session if it
-- opens: the identity of the phone and the sessions that are in the room.
pub record Dialout : Type 0 where
  pub has_request : Bool
  pub is_accepted_sent : Bool
  pub sip_server : Text
  pub sip_from_user : Text
  pub option_caller : Option Text
  pub session : Option (Identity × List RoomSession)

-- `PrimaryNextcloudUser`
unfoldable pub primary_nextcloud_user : Identity → List RoomSession → Text
unfolding text_eq
primary_nextcloud_user own [] = []
primary_nextcloud_user own (p ∷ ps) =
    let rest = primary_nextcloud_user own ps in
    if is_empty p.user_id || text_eq p.session_id own.self_id || text_eq p.session_id own.virtual_id
    then rest
    else if p.is_phone
    then rest
    else p.user_id

unfoldable pub dialout_caller : Dialout → Text
unfolding trim_space
dialout_caller r = elim r.option_caller [
  | none ↦ r.sip_from_user
  | some caller ↦ if is_empty (trim_space caller) then r.sip_from_user else trim_space caller
]

-- A failed call is reported as cleared.
pub report : Call × Result DialoutError (Unit {0}) → List Sent
report (c, ok u) = c.sent
report (c, err e) = c.sent ++ status cleared (codes "sip-error") (pos 500) ∷ []

pub simulated : List Sent
simulated =
    status ringing [] (pos 0)
    ∷ status connected [] (pos 0)
    ∷ status cleared (codes "poc-complete") (pos 200)
    ∷ []

module _ {ℓ} {Addr : Type ℓ} (services : Services Addr) (prepare : Pointer → Option Dialling) where
  -- The sockets and addresses of a call for an account, if there are any, and the call.
  pub place_call : Option Dialling → Bool → List Read → List Sent
  place_call none is_written reads = status cleared (codes "sip-error") (pos 500) ∷ []
  place_call (some d) is_written reads = report (sip_dial services d is_written reads)

  pub with_account : Result AccountError Pointer → Bool → List Read → List Sent
  with_account (err e) is_written reads =
      status cleared (codes "account-selection-error") (pos 500) ∷ []
  with_account (ok account) is_written reads = place_call (prepare account) is_written reads

  unfoldable pub with_session :
      Table → Dialout → Option (Identity × List RoomSession) → Bool → List Read → List Sent
  with_session table r none is_written reads =
      status cleared (codes "talk-session-error") (pos 500) ∷ []
  with_session table r (some (own, sessions)) is_written reads =
      with_account (select_outbound table (dialout_caller r) (primary_nextcloud_user own sessions))
        is_written reads

  -- Everything that the request makes the gateway send.
  unfoldable pub handle_dialout : Table → Dialout → Bool → List Read → List Sent
  handle_dialout table r is_written reads =
      if not r.has_request
      then []
      else if not r.is_accepted_sent
      then []
      else status accepted [] (pos 0)
        ∷ (if is_empty r.sip_server
            then simulated
            else with_session table r r.session is_written reads)
