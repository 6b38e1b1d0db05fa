-- ===== src/Sip/Dialout/Exchange.antt =====
-- An INVITE of `sipDial` and the response that `writeSIPResponseWithTag` gives to it.
use talk_telephony_gateway_p.Base.{ℕ, ◌≡◌, ◌∙◌, List, subst, Result, ok, err, ◌<◌, ◌^◌, All}
use talk_telephony_gateway_p.Base.Int.{pos}
use talk_telephony_gateway_p.Text.{Text, codes, replace_crlf}
use talk_telephony_gateway_p.Text.Laws.{NoSpace}
use talk_telephony_gateway_p.Text.Lines.{IsLine, Lacks, written}
use talk_telephony_gateway_p.Sip.{
  ParseError, SipRequest, SipResponse, header, parse_sip_request, parse_sip_response, sip_response,
}
use talk_telephony_gateway_p.Sip.Wire.Echo.{IsEcho, parse_sip_response-sip_response}
use talk_telephony_gateway_p.Sip.Dialout.{Dialling, invite_text}
use talk_telephony_gateway_p.Sip.Dialout.Written.{
  IsWritable, IsInvite, cseq_value, from_value, parse_sip_request-invite_text,
}

-- The response is one to the INVITE of the call, and carries the code and the body.
pub IsAnswer : Dialling → ℕ → ℕ → Text → Result ParseError SipResponse → Type 0
IsAnswer d cseq code body (err e) = ⊥
IsAnswer d cseq code body (ok resp) =
    (resp.code ≡ pos code)
    × (header resp.headers (codes "from") ≡ from_value d)
    × (header resp.headers (codes "call-id") ≡ d.sip_call_id)
    × (header resp.headers (codes "cseq") ≡ cseq_value cseq)
    × (resp.body ≡ replace_crlf body)

echo-IsAnswer :
    (d : Dialling) (cseq code : ℕ) (to_tag : Text) (extra : List Text) (body : Text)
    (req : SipRequest) (answer : Result ParseError SipResponse)
    → IsInvite d cseq (ok req)
    → IsEcho req code to_tag extra body answer
    → IsAnswer d cseq code body answer
unfolding IsEcho IsInvite IsAnswer
echo-IsAnswer d cseq code to_tag extra body req (err e) asked echo = echo
echo-IsAnswer d cseq code to_tag extra body req (ok resp) asked echo =
    let (m, u, from, to, id, number, contact, supported, offer) = asked in
    let (status, vias, echo_from, echo_to, echo_id, echo_number, echo_body) = echo in
    (status, echo_from ∙ from, echo_id ∙ id, echo_number ∙ number, echo_body)

-- A response that is written to the INVITE of a call, once it has been read, is read back by the
-- caller as an answer to that INVITE: with the code that was given, the From, Call-ID and number of
-- the INVITE, and the body, each CR LF of it turned into LF. The texts of the call and of the
-- response are well formed.
pub invite_text-IsAnswer :
    (d : Dialling) (cseq : ℕ) (branch authorization : Text)
    (writable : IsWritable d branch authorization) (req : SipRequest) (code : ℕ)
    (phrase to_tag : Text) (extra : List Text) (body : Text)
    → parse_sip_request (invite_text d cseq branch authorization) ≡ ok req
    → code < 2 ^ 63
    → Lacks b'\n' phrase
    → NoSpace to_tag
    → All IsLine extra
    → IsAnswer d cseq code body
        (parse_sip_response (sip_response req code phrase to_tag (written extra) body))
invite_text-IsAnswer d cseq branch authorization writable req code phrase to_tag extra body is_read
      in_range one_line tag_word form =
    echo-IsAnswer d cseq code to_tag extra body req _
      (subst (IsInvite d cseq) is_read
        (parse_sip_request-invite_text d cseq branch authorization writable))
      (parse_sip_response-sip_response _ req code phrase to_tag extra body is_read in_range one_line
        tag_word form)
