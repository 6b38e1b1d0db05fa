-- ===== src/Sip/Dialout.antt =====
-- `sipDial`: an outgoing call, from its INVITE to its end. What the socket reads before the
-- deadline is a list; the texts are written by `invite_text` and `ack_text`.
pub mod Loop
pub mod Written
pub mod Place
pub mod Exchange
use talk_telephony_gateway_p.Base.{
  ℕ, ◌+◌, Bool, true, false, not, ◌&&◌, ◌||◌, List, [], ◌∷◌, ◌++◌, Option, none, some, length, ltb,
  leb, ◌==◌, if◌then◌else◌, Result, ok, err, ◌>>=◌,
}
use talk_telephony_gateway_p.Base.Int.{ℤ, pos, negsuc}
use talk_telephony_gateway_p.Text.{Text, codes, is_empty}
use talk_telephony_gateway_p.Text.Decimal.{itoa}
use talk_telephony_gateway_p.Sip.{
  SipResponse, Headers, header, parse_sip_response, extract_sip_uri, line, crlf, user_agent,
}
use talk_telephony_gateway_p.Sip.Sdp.{parse_sdp_answer}
use talk_telephony_gateway_p.Sip.Digest.{parse_digest_challenge, build_digest_authorization}

-- What does not change during the call.
pub record Dialling : Type 0 where
  pub host : Text
  pub port : ℕ
  pub uri : Text
  pub from_uri : Text
  pub contact_uri : Text
  pub tag : Text
  pub sip_call_id : Text
  pub sdp_offer : Text
  pub auth_user : Text
  pub password : Text

-- The statuses of a dialout.
pub data Status : Type 0 where
  accepted ringing connected cleared : Status

-- What is sent: a request to the SIP server, or a status to the signaling server.
pub data Sent : Type 0 where
  invite : (cseq : ℕ) (branch authorization : Text) → Sent
  ack : (target to branch : Text) (cseq : ℕ) → Sent
  status : (kind : Status) (cause : Text) (code : ℤ) → Sent

pub data DialoutError : Type 0 where
  no_socket not_sent read_failed rejected_after_retry no_credentials no_challenge : DialoutError
  bad_challenge no_authorization bad_sdp bridge_failed rejected timed_out : DialoutError

-- `ids` counts the calls of `newID`.
pub record Call : Type 0 where
  pub ringing_sent : Bool
  pub auth_tried : Bool
  pub cseq : ℕ
  pub branch : Text
  pub ids : ℕ
  pub sent : List Sent

unfoldable pub via : Dialling → Text → Text
via d branch = line (codes "Via") (
    codes "SIP/2.0/UDP "
    ++ (d.host ++ (b':' ∷ (itoa d.port ++ (codes ";branch=" ++ (branch ++ codes ";rport"))))))

unfoldable pub bracketed : Text → Text
bracketed s = b'<' ∷ (s ++ b'>' ∷ [])

-- `buildInvite`
unfoldable pub invite_text : Dialling → ℕ → Text → Text → Text
unfolding via bracketed
invite_text d cseq branch authorization =
    codes "INVITE "
    ++ (d.uri
        ++ (codes " SIP/2.0"
            ++ (crlf
                ++ (via d branch
                    ++ (line (codes "Max-Forwards") (codes "70")
                        ++ (line (codes "From") (bracketed d.from_uri ++ (codes ";tag=" ++ d.tag))
                            ++ (line (codes "To") (bracketed d.uri)
                                ++ (line (codes "Call-ID") d.sip_call_id
                                    ++ (line (codes "CSeq") (itoa cseq ++ codes " INVITE")
                                        ++ (line (codes "Contact") (bracketed d.contact_uri)
                                            ++ (line (codes "User-Agent") user_agent
                                                ++ (line (codes "Allow") (
                                                      codes
                                                        "INVITE, ACK, CANCEL, BYE, OPTIONS, INFO")
                                                    ++ (line (codes "Supported") (codes "timer")
                                                        ++ ((if is_empty authorization
                                                            then []
                                                            else authorization ++ crlf)
                                                            ++ (line (codes "Content-Type")
                                                            (codes "application/sdp")
                                                            ++ (line (codes "Content-Length")
                                                            (itoa (length d.sdp_offer))
                                                            ++ (crlf ++ d.sdp_offer)))))))))))))))))

abbrev pub is_code : ℕ → ℤ → Bool
is_code n (pos m) = m == n
is_code n (negsuc m) = false

abbrev pub is_at_least : ℕ → ℤ → Bool
is_at_least n (pos m) = leb n m
is_at_least n (negsuc m) = false

abbrev pub is_success : ℤ → Bool
is_success c = is_at_least 200 c && not (is_at_least 300 c)

-- `buildACK`: what the acknowledgement is addressed to, and its text.
unfoldable pub ack_target : Dialling → SipResponse → Text
ack_target d resp =
    let contact = extract_sip_uri (header resp.headers (codes "contact")) in
    if not (is_empty contact) && is_success resp.code then contact else d.uri

unfoldable pub ack_to : Dialling → SipResponse → Text
unfolding bracketed
ack_to d resp =
    let to = header resp.headers (codes "to") in if is_empty to then bracketed d.uri else to

unfoldable pub ack_text : Dialling → (target to branch : Text) → ℕ → Text
unfolding via bracketed
ack_text d target to branch cseq =
    codes "ACK "
    ++ (target
        ++ (codes " SIP/2.0"
            ++ (crlf
                ++ (via d branch
                    ++ (line (codes "Max-Forwards") (codes "70")
                        ++ (line (codes "From") (bracketed d.from_uri ++ (codes ";tag=" ++ d.tag))
                            ++ (line (codes "To") to
                                ++ (line (codes "Call-ID") d.sip_call_id
                                    ++ (line (codes "CSeq") (itoa cseq ++ codes " ACK")
                                        ++ (line (codes "Content-Length") (codes "0")
                                            ++ crlf))))))))))

pub send : Sent → Call → Call
send m c = record c { sent = c.sent ++ m ∷ [] }

pub send_ack : Dialling → SipResponse → Text → Call → Call
send_ack d resp branch c = send (ack (ack_target d resp) (ack_to d resp) branch c.cseq) c

-- The case of 180 and 183.
pub ring : SipResponse → Call → Call
ring resp c =
    if c.ringing_sent
    then c
    else send (status ringing [] resp.code) (record c { ringing_sent = true })
