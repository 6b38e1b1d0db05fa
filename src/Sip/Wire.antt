-- ===== src/Sip/Wire.antt =====
-- Messages on the wire: what `parseSIPRequest` and `parseSIPResponse` read of a text in lines, and
-- what `writeSIPResponseWithTag` writes in lines.
pub mod Values
pub mod Echo
mod Tests
use talk_telephony_gateway_p.Base.{
  ◌≡◌, refl, false, ap, sym, ◌∙◌, ℕ, List, [], ◌∷◌, ◌++◌, Option, none, some, append_assoc, All,
  All-append, length, Result, ok, err, ◌>>=◌,
}
use talk_telephony_gateway_p.Text.{
  Text, codes, is_empty, contains_byte, has_prefix, trim_space, split, split_blank_line,
  replace_crlf, fields,
}
use talk_telephony_gateway_p.Text.Lines.{
  IsLine, Lacks, contains_byte-Lacks, fields-word, written, written-append,
  split_blank_line-written, split-written,
}
use talk_telephony_gateway_p.Text.Laws.{NoSpace}
use talk_telephony_gateway_p.Text.Decimal.{itoa}
use talk_telephony_gateway_p.Sip.{
  ParseError, SipRequest, SipResponse, header, values, add_headers, body_of, status_code,
  request_line, parse_sip_request, parse_sip_response, via_lines, tagged, crlf, user_agent,
  sip_response, line,
}

-- A text in lines is read by its first line, its other lines and its body.
module _ (first : Text) (lines : List Text) (body : Text) (form : All IsLine (first ∷ lines)) where
  abbrev message : Text
  message = written (first ∷ lines) ++ (crlf ++ body)

  pub parse_sip_response-written : parse_sip_response message ≡ (
      status_code (fields first) >>= λ c. ok (record {
        status_line = trim_space first;
        code = c;
        headers = add_headers lines [];
        body = replace_crlf body;
      }))
  unfolding parse_sip_response status_code add_headers body_of
  parse_sip_response-written =
      rw (split_blank_line-written first lines body form, split-written first lines form)

  pub parse_sip_request-written : parse_sip_request message ≡ (
      request_line (fields first) >>= λ (m, u, v). ok (record {
        method = m;
        uri = u;
        version = v;
        headers = add_headers lines [];
        body = replace_crlf body;
      }))
  unfolding parse_sip_request request_line add_headers body_of
  parse_sip_request-written =
      rw (split_blank_line-written first lines body form, split-written first lines form)

-- A header line without its line break.
abbrev pub entry : Text → Text → Text
entry name value = name ++ (b':' ∷ b' ' ∷ value)

pub entry-IsLine :
    (name v : Text) → contains_byte b'\n' name ≡ false → Lacks b'\n' v → Lacks b'\n' (entry name v)
entry-IsLine name v e h = All-append _ name _ (contains_byte-Lacks b'\n' name e) (refl, (refl, h))

-- The first line of a request.
abbrev pub request_start : Text → Text → Text
request_start method uri = method ++ (b' ' ∷ (uri ++ (b' ' ∷ codes "SIP/2.0")))

pub request_line-start :
    (method uri : Text)
    → NoSpace method
    → is_empty method ≡ false
    → NoSpace uri
    → is_empty uri ≡ false
    → request_line (fields (request_start method uri)) ≡ ok (method, uri, codes "SIP/2.0")
unfolding request_line has_prefix fields
request_line-start method uri hm em hu eu = rw (
  fields-word method (uri ++ (b' ' ∷ codes "SIP/2.0")) hm em,
  fields-word uri (codes "SIP/2.0") hu eu,
)

abbrev pub via_entries : List Text → List Text
via_entries [] = []
via_entries (v ∷ vs) = entry (codes "Via") v ∷ via_entries vs

via_lines-written : (vs : List Text) → via_lines vs ≡ written (via_entries vs)
unfolding via_lines
via_lines-written [] = refl
via_lines-written (v ∷ vs) = rw (via_lines-written vs)

abbrev pub start_line : ℕ → Text → Text
start_line code phrase = codes "SIP/2.0 " ++ (itoa code ++ (b' ' ∷ phrase))

abbrev pub own_entries : SipRequest → Text → List Text
own_entries req to_tag =
    entry (codes "From") (header req.headers (codes "from"))
    ∷ entry (codes "To") (tagged (header req.headers (codes "to")) to_tag)
    ∷ entry (codes "Call-ID") (header req.headers (codes "call-id"))
    ∷ entry (codes "CSeq") (header req.headers (codes "cseq"))
    ∷ entry (codes "Server") user_agent
    ∷ []

abbrev pub length_entry : Text → Text
length_entry body = entry (codes "Content-Length") (itoa (length body))

abbrev pub response_entries : SipRequest → Text → List Text → Text → List Text
response_entries req to_tag extra body =
    via_entries (values req.headers (codes "via"))
    ++ (own_entries req to_tag ++ (extra ++ length_entry body ∷ []))

pub sip_response-written :
    (req : SipRequest) (code : ℕ) (phrase to_tag : Text) (extra : List Text) (body : Text)
    → sip_response req code phrase to_tag (written extra) body
      ≡ written (start_line code phrase ∷ response_entries req to_tag extra body) ++ (crlf ++ body)
unfolding sip_response
sip_response-written req code phrase to_tag extra body =
    simp (append_assoc, written-append, via_lines-written)
