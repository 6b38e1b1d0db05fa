-- ===== src/Sip.antt =====
-- SIP messages: cmd/gateway/inbound.go and cmd/gateway/main.go, the parsers, the URI helpers and
-- the messages that are written. A message is the list of its bytes.
pub mod Headers
pub mod Wire
pub mod Sdp
pub mod Digest
pub mod Dialout
pub mod Live
pub mod Register
mod Tests
use talk_telephony_gateway_p.Base.{
  ℕ, ◌+◌, Bool, true, false, not, ◌&&◌, ◌||◌, List, [], ◌∷◌, ◌++◌, Option, none, some, length, ltb,
  leb, ◌==◌, if◌then◌else◌, Result, ok, err, ◌>>=◌, any,
}
use talk_telephony_gateway_p.Base.Int.{ℤ}
use talk_telephony_gateway_p.Text.{
  Text, codes, text_eq, is_empty, to_lower, to_upper, has_prefix, trim_space, trim_left, trim_right,
  cut, before, split, replace_crlf, split_blank_line, fields,
}
use talk_telephony_gateway_p.Text.Decimal.{atoi, itoa}
use talk_telephony_gateway_p.Dict.{lookup, insert}

-- `map[string][]string`
abbrev pub Headers : Type 0
Headers = List (Text × List Text)

pub data ParseError : Type 0 where
  not_a_request not_a_response bad_code : ParseError

pub record SipRequest : Type 0 where
  pub method : Text
  pub uri : Text
  pub version : Text
  pub headers : Headers
  pub body : Text

pub record SipResponse : Type 0 where
  pub status_line : Text
  pub code : ℤ
  pub headers : Headers
  pub body : Text

-- The first value of a header, or the empty text.
unfoldable pub first_value : Option (List Text) → Text
first_value none = []
first_value (some []) = []
first_value (some (v ∷ vs)) = v

unfoldable pub header : Headers → Text → Text
unfolding to_lower lookup
header headers name = first_value (lookup (to_lower name) headers)

pub values : Headers → Text → List Text
unfolding lookup
values headers name = elim (lookup name headers) [ none ↦ [] | some vs ↦ vs ]

-- One line of the loop over the header lines: a line with its first colon at its start, or with
-- none, is passed over.
pub add_header : Text → Headers → Headers
unfolding cut to_lower trim_space insert
add_header line headers = elim (cut b':' line) [
  | none ↦ headers
  | some (n, v) ↦
      if is_empty n
      then headers
      else insert (to_lower (trim_space n))
          (values headers (to_lower (trim_space n)) ++ trim_space v ∷ []) headers
]

pub add_headers : List Text → Headers → Headers
add_headers [] headers = headers
add_headers (line ∷ lines) headers = add_headers lines (add_header line headers)

-- The body behind the blank line, or the empty text.
pub body_of : Option Text → Text
body_of none = []
body_of (some body) = body

pub request_line : List Text → Result ParseError (Text × Text × Text)
unfolding has_prefix
request_line (m ∷ u ∷ v ∷ []) =
    if has_prefix (codes "SIP/") v then ok (m, u, v) else err not_a_request
request_line _ = err not_a_request

pub parse_sip_request : Text → Result ParseError SipRequest
unfolding replace_crlf split_blank_line split fields
parse_sip_request raw =
    let (head, rest) = split_blank_line (replace_crlf raw) in
    let (first, lines) = split b'\n' head in
    request_line (fields first) >>= λ (m, u, v). ok (record {
      method = m;
      uri = u;
      version = v;
      headers = add_headers lines [];
      body = body_of rest;
    })

pub status_code : List Text → Result ParseError ℤ
unfolding has_prefix atoi
status_code (p ∷ c ∷ ws) =
    if has_prefix (codes "SIP/") p
    then elim (atoi c) [ none ↦ err bad_code | some n ↦ ok n ]
    else err not_a_response
status_code _ = err not_a_response

pub parse_sip_response : Text → Result ParseError SipResponse
unfolding replace_crlf split_blank_line split fields trim_space
parse_sip_response raw =
    let (head, rest) = split_blank_line (replace_crlf raw) in
    let (first, lines) = split b'\n' head in
    status_code (fields first) >>= λ c. ok (record {
      status_line = trim_space first;
      code = c;
      headers = add_headers lines [];
      body = body_of rest;
    })

-- What stands before the first semicolon, trimmed.
unfoldable pub bare_uri : Text → Text
unfolding before trim_space
bare_uri v = trim_space (before b';' v)

unfoldable pub extract_sip_uri : Text → Text
unfolding trim_space cut
extract_sip_uri raw =
    let v = trim_space raw in
    elim (cut b'<' v) [
      | none ↦ bare_uri v
      | some (a, inner) ↦ elim (cut b'>' inner) [
        | none ↦ bare_uri v
        | some (uri, b) ↦ trim_space uri
      ]
    ]

-- What stands behind the first "sip:", in any case, or the whole text.
unfoldable pub behind_scheme : Text → Text → Text
unfolding has_prefix to_lower
behind_scheme whole [] = whole
behind_scheme whole (c ∷ v) =
    let later = behind_scheme whole v in
    if has_prefix (codes "sip:") (to_lower (c ∷ v)) then skip_scheme (c ∷ v) else later
  where
    skip_scheme : Text → Text
    skip_scheme (s ∷ i ∷ p ∷ colon ∷ rest) = rest
    skip_scheme _ = []

abbrev pub is_bracket : ℕ → Bool
is_bracket c = c == b' ' || c == b'<' || c == b'>' || c == b'"'

unfoldable pub sip_user : Text → Text
unfolding before trim_left trim_right
sip_user raw =
    let v = extract_sip_uri raw in
    trim_right is_bracket (trim_left is_bracket (before b';' (before b'@' (behind_scheme v v))))

abbrev pub crlf : Text
crlf = b'\r' ∷ b'\n' ∷ []

abbrev pub user_agent : Text
user_agent = codes "nextcloud-talk-telephony-gateway-poc/0.9.1"

-- `strings.Contains s p`
pub contains : Text → Text → Bool
unfolding has_prefix
contains p [] = has_prefix p []
contains p (c ∷ s) = has_prefix p (c ∷ s) || contains p s

pub via_lines : List Text → Text
via_lines [] = []
via_lines (v ∷ vs) = codes "Via: " ++ (v ++ (crlf ++ via_lines vs))

pub tagged : Text → Text → Text
unfolding to_lower
tagged to to_tag =
    if not (is_empty to_tag) && not (contains (codes ";tag=") (to_lower to))
    then to ++ (codes ";tag=" ++ to_tag)
    else to

-- One header line.
abbrev pub line : Text → Text → Text
line name value = name ++ (b':' ∷ b' ' ∷ (value ++ crlf))

-- The text that `writeSIPResponseWithTag` sends.
pub sip_response : SipRequest → ℕ → Text → Text → Text → Text → Text
sip_response req code phrase to_tag extra body =
    codes "SIP/2.0 "
    ++ (itoa code
        ++ (b' '
            ∷ (phrase
                ++ (crlf
                    ++ (via_lines (values req.headers (codes "via"))
                        ++ (line (codes "From") (header req.headers (codes "from"))
                            ++ (line (codes "To") (tagged (header req.headers (codes "to")) to_tag)
                                ++ (line (codes "Call-ID") (header req.headers (codes "call-id"))
                                    ++ (line (codes "CSeq") (header req.headers (codes "cseq"))
                                        ++ (line (codes "Server") user_agent
                                            ++ (extra
                                                ++ (line (codes "Content-Length")
                                                      (itoa (length body))
                                                    ++ (crlf ++ body)))))))))))))
