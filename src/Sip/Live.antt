-- ===== src/Sip/Live.antt =====
-- cmd/gateway/main.go: `runRTPWebRTCBridge`, an outgoing call while it is answered, and the BYE that
-- ends it. What the SIP socket reads is a list; the media bridge and the identifiers are parameters.
pub mod Ends
mod Tests
use talk_telephony_gateway_p.Base.{
  ℕ, ◌+◌, ◌%◌, ◌≡◌, refl, Bool, true, false, not, ◌&&◌, ◌||◌, List, [], ◌∷◌, ◌++◌, Option, none,
  some, if◌then◌else◌, ◌==◌, Result, ok, err, length, drop, ltb, Bool-cases, inl, inr, arith,
}
use talk_telephony_gateway_p.Text.{
  Text, codes, is_empty, has_prefix, to_lower, trim_space, split, replace_crlf,
}
use talk_telephony_gateway_p.Text.Decimal.{itoa}
use talk_telephony_gateway_p.Bridge.Rtp.{RtpError, first_rtp_payload_type}
use talk_telephony_gateway_p.Sip.{line, crlf, user_agent}

-- The value of the first line that begins with this name and a colon; the name is in small letters.
pub simple_value : Text → List Text → Text
unfolding has_prefix to_lower trim_space
simple_value prefix [] = []
simple_value prefix (l ∷ ls) =
    let rest = simple_value prefix ls in
    if has_prefix prefix (to_lower l) then trim_space (drop (length prefix) l) else rest

-- `buildSimpleSIP200`
pub simple_200 : List Text → Text
simple_200 lines =
    codes "SIP/2.0 200 OK"
    ++ (crlf
        ++ (line (codes "Via") (simple_value (codes "via:") lines)
            ++ (line (codes "From") (simple_value (codes "from:") lines)
                ++ (line (codes "To") (simple_value (codes "to:") lines)
                    ++ (line (codes "Call-ID") (simple_value (codes "call-id:") lines)
                        ++ (line (codes "CSeq") (simple_value (codes "cseq:") lines)
                            ++ (line (codes "Content-Length") (codes "0") ++ crlf)))))))

pub build_simple_200 : Text → Text
unfolding split replace_crlf
build_simple_200 req =
    let (first, others) = split b'\n' (replace_crlf req) in simple_200 (first ∷ others)

-- The call, as its BYE names it.
pub record Dialog : Type 0 where
  pub remote_target : Text
  pub from_uri : Text
  pub tag : Text
  pub to_header : Text
  pub sip_call_id : Text
  pub contact_host : Text
  pub sip_port : ℕ

pub data LiveError : Type 0 where
  no_first_packet short_packet bad_payload_type no_bridge not_published bye_not_sent read_failed :
      LiveError

-- What the SIP socket gives: nothing for half a second, with whether the Talk side has ended by
-- then, an error, or a datagram.
pub data SipRead : Type 0 where
  quiet : (talk_ended : Bool) → SipRead
  failed : SipRead
  datagram : (raw : Text) → SipRead

-- `result` is none while the call goes on.
pub record Live : Type 0 where
  pub written : List Text
  pub cseq : ℕ
  pub result : Option (Result LiveError (Unit {0}))

-- The text of the BYE.
pub bye_text : Dialog → (branch : Text) → ℕ → Text
unfolding itoa
bye_text d branch cseq =
    codes "BYE "
    ++ (d.remote_target
        ++ (codes " SIP/2.0"
            ++ (crlf
                ++ (line (codes "Via") (
                      codes "SIP/2.0/UDP "
                      ++ (d.contact_host
                          ++ (b':'
                              ∷ (itoa d.sip_port
                                  ++ (codes ";branch=" ++ (branch ++ codes ";rport"))))))
                    ++ (line (codes "Max-Forwards") (codes "70")
                        ++ (line (codes "From") (b'<' ∷ (d.from_uri ++ (codes ">;tag=" ++ d.tag)))
                            ++ (line (codes "To") (
                                  if is_empty d.to_header
                                  then b'<' ∷ (d.remote_target ++ codes ">")
                                  else d.to_header)
                                ++ (line (codes "Call-ID") d.sip_call_id
                                    ++ (line (codes "CSeq") (itoa cseq ++ codes " BYE")
                                        ++ (line (codes "User-Agent") user_agent
                                            ++ (line (codes "Content-Length") (codes "0")
                                                ++ crlf)))))))))))

pub is_hangup : Text → Bool
unfolding has_prefix
is_hangup raw = has_prefix (codes "BYE ") raw || has_prefix (codes "CANCEL ") raw

-- Whether a read ends the call.
pub is_end : SipRead → Bool
is_end (quiet talk_ended) = talk_ended
is_end failed = true
is_end (datagram raw) = is_hangup raw

pub answer_hangup : Text → Live → Live
unfolding build_simple_200
answer_hangup raw c = record c {
  written = c.written ++ build_simple_200 raw ∷ [];
  result = some (ok tt);
}

pub fail : LiveError → Live → Live
fail e c = record c { result = some (err e) }

module _ (d : Dialog) (branch : Text) (is_bye_written : Bool) where
  -- `sendSIPBye`
  pub send_sip_bye : Live → Live
  send_sip_bye c =
      let n = c.cseq + 1 in
      if is_bye_written
      then record c {
        written = c.written ++ bye_text d branch n ∷ [];
        cseq = n;
        result = some (ok tt);
      }
      else record c { cseq = n; result = some (err bye_not_sent) }

  -- The loop over the SIP socket.
  pub live_loop : List SipRead → Live → Live
  live_loop [] c = c
  live_loop (quiet talk_ended ∷ reads) c =
      let rest = live_loop reads c in if talk_ended then send_sip_bye c else rest
  live_loop (failed ∷ reads) c = record c { result = some (err read_failed) }
  live_loop (datagram raw ∷ reads) c =
      let rest = live_loop reads c in if is_hangup raw then answer_hangup raw c else rest

  -- From the payload type of the first packet on; the flags tell whether the media bridge starts
  -- and takes the packet.
  pub bridge_call :
      (is_started is_published : Bool) → Result RtpError ℕ → List SipRead → Live → Live
  bridge_call is_started is_published (err e) reads c = fail short_packet c
  bridge_call is_started is_published (ok pt) reads c =
      if not (pt == 0) && not (pt == 8)
      then fail bad_payload_type c
      else if not is_started
      then fail no_bridge c
      else if not is_published
      then fail not_published c
      else live_loop reads c

  -- `runRTPWebRTCBridge`; the first RTP packet comes first.
  pub run_rtp_bridge :
      Option (List ℕ) → (is_started is_published : Bool) → List SipRead → Live → Live
  run_rtp_bridge none is_started is_published reads c = fail no_first_packet c
  run_rtp_bridge (some raw) is_started is_published reads c =
      bridge_call is_started is_published (first_rtp_payload_type raw) reads c
