-- ===== src/Sip/Dialout/Written.antt =====
-- The INVITE that `buildInvite` writes, as a reader of requests finds it.
use talk_telephony_gateway_p.Base.{
  length, ◌≡◌, refl, ap, sym, ◌∙◌, ℕ, false, List, [], ◌∷◌, ◌++◌, append_assoc, All, All-append,
  Result, ok, err, subst,
}
use talk_telephony_gateway_p.Text.{
  Text, codes, is_empty, text_eq, trim_space, to_lower, cut, contains_byte, replace_crlf, trim_left,
  trim_right,
}
use talk_telephony_gateway_p.Text.Laws.{NoSpace, has_no_space, has_no_space-NoSpace}
use talk_telephony_gateway_p.Text.Lines.{IsLine, Lacks, contains_byte-Lacks, NoSpace-Lacks, written}
use talk_telephony_gateway_p.Text.Trim.{trim_space-space}
use talk_telephony_gateway_p.Text.Decimal.{itoa}
use talk_telephony_gateway_p.Text.Decimal.Digits.{itoa-NoSpace, itoa-is_empty}
use talk_telephony_gateway_p.Sip.{
  ParseError, SipRequest, header, add_headers, parse_sip_request, crlf, user_agent,
}
use talk_telephony_gateway_p.Sip.Headers.{line_values}
use talk_telephony_gateway_p.Sip.Wire.{
  entry, entry-IsLine, request_start, request_line-start, parse_sip_request-written,
}
use talk_telephony_gateway_p.Sip.Wire.Values.{
  IsValue, via_value, via_value-Lacks, line-Lacks, word-NoSpace, framed-IsValue, header-read,
}
use talk_telephony_gateway_p.Sip.Dialout.{Dialling, via, bracketed, invite_text}

-- The texts of a call are words and lines.
pub record IsWritable (d : Dialling) (branch authorization : Text) : Type 0 where
  pub uri_word : NoSpace d.uri
  pub has_uri : is_empty d.uri ≡ false
  pub tag_word : NoSpace d.tag
  pub id_value : IsValue d.sip_call_id
  pub from_line : Lacks b'\n' d.from_uri
  pub contact_line : Lacks b'\n' d.contact_uri
  pub host_line : Lacks b'\n' d.host
  pub branch_line : Lacks b'\n' branch
  pub authorization_line : Lacks b'\n' authorization

abbrev pub authorization_lines : Text → List Text
authorization_lines [] = []
authorization_lines (c ∷ a) = (c ∷ a) ∷ []

authorization_lines-IsLine : (a : Text) → Lacks b'\n' a → All IsLine (authorization_lines a)
authorization_lines-IsLine [] h = tt
authorization_lines-IsLine (c ∷ a) h = (h, tt)

abbrev pub from_value : Dialling → Text
from_value d = codes "<" ++ (d.from_uri ++ (codes ">;tag=" ++ d.tag))

abbrev pub uri_value : Text → Text
uri_value uri = codes "<" ++ (uri ++ codes ">")

abbrev pub cseq_value : ℕ → Text
cseq_value cseq = itoa cseq ++ codes " INVITE"

-- The entries up to the authorization, and those behind it.
abbrev pub first_entries : Dialling → ℕ → Text → List Text
first_entries d cseq branch =
    entry (codes "Via") (via_value d.host d.port branch)
    ∷ entry (codes "Max-Forwards") (codes "70")
    ∷ entry (codes "From") (from_value d)
    ∷ entry (codes "To") (uri_value d.uri)
    ∷ entry (codes "Call-ID") d.sip_call_id
    ∷ entry (codes "CSeq") (cseq_value cseq)
    ∷ entry (codes "Contact") (uri_value d.contact_uri)
    ∷ entry (codes "User-Agent") user_agent
    ∷ entry (codes "Allow") (codes "INVITE, ACK, CANCEL, BYE, OPTIONS, INFO")
    ∷ entry (codes "Supported") (codes "timer")
    ∷ []

abbrev pub last_entries : Text → List Text
last_entries offer =
    entry (codes "Content-Type") (codes "application/sdp")
    ∷ entry (codes "Content-Length") (itoa (length offer))
    ∷ []

abbrev pub invite_entries : Dialling → ℕ → Text → Text → List Text
invite_entries d cseq branch authorization =
    first_entries d cseq branch ++ (authorization_lines authorization ++ last_entries d.sdp_offer)

invite_text-written :
    (d : Dialling) (cseq : ℕ) (branch authorization : Text)
    → invite_text d cseq branch authorization
      ≡ written (request_start (codes "INVITE") d.uri ∷ invite_entries d cseq branch authorization)
        ++ (crlf ++ d.sdp_offer)
unfolding invite_text via bracketed
invite_text-written d cseq branch [] = simp (append_assoc)
invite_text-written d cseq branch (c ∷ a) = simp (append_assoc)

-- What a reader finds in an INVITE.
unfoldable pub IsInvite : Dialling → ℕ → Result ParseError SipRequest → Type 0
IsInvite d cseq (err e) = ⊥
IsInvite d cseq (ok req) =
    (req.method ≡ codes "INVITE")
    × (req.uri ≡ d.uri)
    × (header req.headers (codes "from") ≡ from_value d)
    × (header req.headers (codes "to") ≡ uri_value d.uri)
    × (header req.headers (codes "call-id") ≡ d.sip_call_id)
    × (header req.headers (codes "cseq") ≡ cseq_value cseq)
    × (header req.headers (codes "contact") ≡ uri_value d.contact_uri)
    × (header req.headers (codes "supported") ≡ codes "timer")
    × (req.body ≡ replace_crlf d.sdp_offer)

cseq_value-IsValue : (cseq : ℕ) → IsValue (cseq_value cseq)
unfolding has_no_space
cseq_value-IsValue cseq =
    framed-IsValue (itoa cseq) (codes " ") (codes "INVITE") (itoa-NoSpace cseq) (itoa-is_empty cseq)
      (refl, tt) (has_no_space-NoSpace (codes "INVITE") refl) refl

uri_value-IsValue : (uri : Text) → Lacks b'\n' uri → IsValue (uri_value uri)
uri_value-IsValue uri h =
    framed-IsValue (codes "<") uri (codes ">") (refl, tt) refl h (refl, tt) refl

abbrev pub read_invite : Dialling → ℕ → Text → Text → SipRequest
read_invite d cseq branch authorization = record {
  method = codes "INVITE";
  uri = d.uri;
  version = codes "SIP/2.0";
  headers = add_headers (invite_entries d cseq branch authorization) [];
  body = replace_crlf d.sdp_offer;
}

module _ (d : Dialling) (cseq : ℕ) (branch authorization : Text)
    (writable : IsWritable d branch authorization) where
  from_value-IsValue : IsValue (from_value d)
  unfolding has_no_space
  from_value-IsValue =
      framed-IsValue (codes "<") d.from_uri _ (refl, tt) refl writable.from_line
        (word-NoSpace (codes ">;tag=") d.tag refl writable.tag_word) refl

  to_value-IsValue : IsValue (uri_value d.uri)
  to_value-IsValue = uri_value-IsValue d.uri (NoSpace-Lacks d.uri writable.uri_word)

  first_entries-IsLine : All IsLine (first_entries d cseq branch)
  unfolding contains_byte
  first_entries-IsLine =
      let via_line = via_value-Lacks d.host d.port branch writable.host_line writable.branch_line in
      (
        entry-IsLine (codes "Via") (via_value d.host d.port branch) refl via_line,
        (
          contains_byte-Lacks b'\n' (entry (codes "Max-Forwards") (codes "70")) refl,
          (
            entry-IsLine (codes "From") (from_value d) refl from_value-IsValue.1,
            (
              entry-IsLine (codes "To") (uri_value d.uri) refl to_value-IsValue.1,
              (
                entry-IsLine (codes "Call-ID") _ refl writable.id_value.1,
                (
                  entry-IsLine (codes "CSeq") _ refl (cseq_value-IsValue cseq).1,
                  (
                    entry-IsLine (codes "Contact") (uri_value d.contact_uri) refl
                        (uri_value-IsValue d.contact_uri writable.contact_line).1,
                    (
                      contains_byte-Lacks b'\n' (entry (codes "User-Agent") user_agent) refl,
                      (
                        contains_byte-Lacks b'\n'
                            (entry (codes "Allow")
                              (codes "INVITE, ACK, CANCEL, BYE, OPTIONS, INFO"))
                            refl,
                        (
                          contains_byte-Lacks b'\n' (entry (codes "Supported") (codes "timer"))
                              refl,
                          tt,
                        ),
                      ),
                    ),
                  ),
                ),
              ),
            ),
          ),
        ),
      )

  invite_entries-IsLine : All IsLine (invite_entries d cseq branch authorization)
  unfolding contains_byte
  invite_entries-IsLine =
      let type_line =
        contains_byte-Lacks b'\n' (entry (codes "Content-Type") (codes "application/sdp")) refl in
      let size = NoSpace-Lacks (itoa (length d.sdp_offer)) (itoa-NoSpace (length d.sdp_offer)) in
      let size_line = entry-IsLine (codes "Content-Length") (itoa (length d.sdp_offer)) refl size in
      let signed = authorization_lines-IsLine authorization writable.authorization_line in
      All-append IsLine (first_entries d cseq branch) _ first_entries-IsLine (
        All-append IsLine (authorization_lines authorization) (last_entries d.sdp_offer) signed
          (type_line, (size_line, tt)))

  pub invite_text_read :
      parse_sip_request (invite_text d cseq branch authorization)
      ≡ ok (read_invite d cseq branch authorization)
  unfolding contains_byte has_no_space
  invite_text_read =
      let method = has_no_space-NoSpace (codes "INVITE") refl in
      let version = contains_byte-Lacks b'\n' (codes " SIP/2.0") refl in
      let target =
        All-append _ d.uri (codes " SIP/2.0") (NoSpace-Lacks _ writable.uri_word) version in
      let start = line-Lacks (codes "INVITE ") _ refl target in
      ap parse_sip_request (invite_text-written d cseq branch authorization)
      ∙ parse_sip_request-written (request_start (codes "INVITE") d.uri)
          (invite_entries d cseq branch authorization) d.sdp_offer (start, invite_entries-IsLine)
      ∙ rw
          (request_line-start (codes "INVITE") d.uri method refl writable.uri_word writable.has_uri)

  read_invite-IsInvite : IsInvite d cseq (ok (read_invite d cseq branch authorization))
  unfolding IsInvite line_values cut to_lower trim_space trim_left trim_right text_eq
  read_invite-IsInvite =
      let found = header-read (invite_entries d cseq branch authorization) in
      (
        refl,
        refl,
        found (codes "from") ∙ trim_space-space _ from_value-IsValue.0,
        found (codes "to") ∙ trim_space-space _ to_value-IsValue.0,
        found (codes "call-id") ∙ trim_space-space _ writable.id_value.0,
        found (codes "cseq") ∙ trim_space-space _ (cseq_value-IsValue cseq).0,
        found (codes "contact")
            ∙ trim_space-space _ (uri_value-IsValue d.contact_uri writable.contact_line).0,
        found (codes "supported"),
        refl,
      )

  -- The INVITE of a call is read back as an INVITE of its URI, with its From, To, Call-ID, number,
  -- contact and support of timers, and its offer, each CR LF of it turned into LF, whatever the
  -- authorization line. The URI and the tag are without white space, the Call-ID without white
  -- space at its ends, and all texts but the offer without line breaks.
  pub parse_sip_request-invite_text :
      IsInvite d cseq (parse_sip_request (invite_text d cseq branch authorization))
  parse_sip_request-invite_text =
      subst (IsInvite d cseq) (sym invite_text_read) read_invite-IsInvite
