-- ===== src/Sip/Register/Written.antt =====
-- The REGISTER that `build` writes, as a reader of requests finds it.
use talk_telephony_gateway_p.Base.{
  ◌≡◌, refl, ap, sym, ◌∙◌, ℕ, suc, false, List, [], ◌∷◌, ◌++◌, append_assoc, All, All-append,
  Result, ok, err, subst,
}
use talk_telephony_gateway_p.Base.Int.{ℤ, pos, negsuc}
use talk_telephony_gateway_p.Text.{
  Text, codes, is_empty, text_eq, trim_space, to_lower, cut, contains_byte, replace_crlf, trim_left,
  trim_right,
}
use talk_telephony_gateway_p.Text.Laws.{NoSpace, has_no_space, has_no_space-NoSpace}
use talk_telephony_gateway_p.Text.Lines.{IsLine, Lacks, contains_byte-Lacks, NoSpace-Lacks, written}
use talk_telephony_gateway_p.Text.Trim.{NoSpace-IsTrimmed, trim_space-space}
use talk_telephony_gateway_p.Text.Decimal.{itoa}
use talk_telephony_gateway_p.Text.Decimal.Digits.{itoa-NoSpace, itoa-is_empty}
use talk_telephony_gateway_p.Sip.{
  ParseError, SipRequest, header, add_headers, parse_sip_request, crlf, user_agent,
}
use talk_telephony_gateway_p.Sip.Headers.{line_values}
use talk_telephony_gateway_p.Sip.Wire.{
  entry, entry-IsLine, request_start, request_line-start, parse_sip_request-written,
}
use talk_telephony_gateway_p.Sip.Wire.Values.{
  IsValue, via_value, via_value-Lacks, line-Lacks, word-NoSpace, framed-IsValue, first_of,
  header-read,
}
use talk_telephony_gateway_p.Sip.Register.{Registering, register_text, show_int}

-- The texts of a registration are words and lines.
pub record IsSendable (d : Registering) (branch auth : Text) : Type 0 where
  pub uri_word : NoSpace d.uri
  pub has_uri : is_empty d.uri ≡ false
  pub tag_word : NoSpace d.tag
  pub id_value : IsValue d.register_call_id
  pub auth_value : IsValue auth
  pub aor_line : Lacks b'\n' d.aor
  pub ip_line : Lacks b'\n' d.local_ip
  pub contact_line : Lacks b'\n' d.contact
  pub branch_line : Lacks b'\n' branch

abbrev auth_entries : Text → List Text
auth_entries [] = []
auth_entries (c ∷ a) = entry (codes "Authorization") (c ∷ a) ∷ []

abbrev from_value : Registering → Text
from_value d = codes "<" ++ (d.aor ++ (codes ">;tag=" ++ d.tag))

abbrev to_value : Registering → Text
to_value d = codes "<" ++ (d.aor ++ codes ">")

abbrev cseq_value : ℕ → Text
cseq_value cseq = itoa cseq ++ codes " REGISTER"

abbrev contact_value : Registering → Text
contact_value d = codes "<" ++ (d.contact ++ (codes ">;expires=" ++ show_int d.expires))

abbrev register_entries : Registering → ℕ → Text → Text → List Text
register_entries d cseq branch auth =
    entry (codes "Via") (via_value d.local_ip d.local_port branch)
    ∷ entry (codes "Max-Forwards") (codes "70")
    ∷ entry (codes "From") (from_value d)
    ∷ entry (codes "To") (to_value d)
    ∷ entry (codes "Call-ID") d.register_call_id
    ∷ entry (codes "CSeq") (cseq_value cseq)
    ∷ entry (codes "Contact") (contact_value d)
    ∷ entry (codes "Expires") (show_int d.expires)
    ∷ entry (codes "User-Agent") user_agent
    ∷ (auth_entries auth ++ entry (codes "Content-Length") (codes "0") ∷ [])

register_text-written :
    (d : Registering) (cseq : ℕ) (branch auth : Text)
    → register_text d cseq branch auth
      ≡ written (request_start (codes "REGISTER") d.uri ∷ register_entries d cseq branch auth)
        ++ (crlf ++ [])
unfolding register_text
register_text-written d cseq branch [] = simp (append_assoc)
register_text-written d cseq branch (c ∷ auth) = simp (append_assoc)

-- What a reader finds in a REGISTER.
pub IsRegister : Registering → ℕ → Text → Result ParseError SipRequest → Type 0
IsRegister d cseq auth (err e) = ⊥
IsRegister d cseq auth (ok req) =
    (req.method ≡ codes "REGISTER")
    × (req.uri ≡ d.uri)
    × (header req.headers (codes "from") ≡ from_value d)
    × (header req.headers (codes "to") ≡ to_value d)
    × (header req.headers (codes "call-id") ≡ d.register_call_id)
    × (header req.headers (codes "cseq") ≡ cseq_value cseq)
    × (header req.headers (codes "contact") ≡ contact_value d)
    × (header req.headers (codes "expires") ≡ show_int d.expires)
    × (header req.headers (codes "authorization") ≡ auth)
    × (req.body ≡ [])

show_int-NoSpace : (z : ℤ) → NoSpace (show_int z)
show_int-NoSpace (pos n) = itoa-NoSpace n
show_int-NoSpace (negsuc n) = (refl, itoa-NoSpace (suc n))

cseq_value-IsValue : (cseq : ℕ) → IsValue (cseq_value cseq)
unfolding has_no_space
cseq_value-IsValue cseq =
    framed-IsValue (itoa cseq) (codes " ") (codes "REGISTER") (itoa-NoSpace cseq)
      (itoa-is_empty cseq) (refl, tt) (has_no_space-NoSpace (codes "REGISTER") refl) refl

auth_entry : (auth : Text) → IsValue auth → All IsLine (auth_entries auth)
unfolding contains_byte
auth_entry [] h = tt
auth_entry (c ∷ a) h = (entry-IsLine (codes "Authorization") (c ∷ a) refl h.1, tt)

abbrev read_register : Registering → ℕ → Text → Text → SipRequest
read_register d cseq branch auth = record {
  method = codes "REGISTER";
  uri = d.uri;
  version = codes "SIP/2.0";
  headers = add_headers (register_entries d cseq branch auth) [];
  body = [];
}

auth_found :
    (auth : Text)
    → IsValue auth
    → first_of (
        line_values
          (codes "authorization")
          (auth_entries auth ++ entry (codes "Content-Length") (codes "0") ∷ []))
      ≡ auth
unfolding line_values cut to_lower trim_space trim_left trim_right text_eq
auth_found [] h = refl
auth_found (c ∷ a) h = trim_space-space (c ∷ a) h.0

module _ (d : Registering) (cseq : ℕ) (branch auth : Text)
    (writable : IsSendable d branch auth) where
  from_value-IsValue : IsValue (from_value d)
  unfolding has_no_space
  from_value-IsValue =
      framed-IsValue (codes "<") d.aor _ (refl, tt) refl writable.aor_line
        (word-NoSpace (codes ">;tag=") d.tag refl writable.tag_word) refl

  to_value-IsValue : IsValue (to_value d)
  unfolding has_no_space
  to_value-IsValue =
      framed-IsValue (codes "<") d.aor (codes ">") (refl, tt) refl writable.aor_line (refl, tt) refl

  contact_value-IsValue : IsValue (contact_value d)
  unfolding has_no_space
  contact_value-IsValue =
      framed-IsValue (codes "<") d.contact _ (refl, tt) refl writable.contact_line
        (word-NoSpace (codes ">;expires=") (show_int d.expires) refl (show_int-NoSpace d.expires))
        refl

  auth_entries-IsLine : All IsLine (auth_entries auth)
  auth_entries-IsLine = auth_entry auth writable.auth_value

  register_entries-IsLine : All IsLine (register_entries d cseq branch auth)
  unfolding contains_byte
  register_entries-IsLine = (
    entry-IsLine (codes "Via") (via_value d.local_ip d.local_port branch) refl
        (via_value-Lacks d.local_ip d.local_port branch writable.ip_line writable.branch_line),
    (
      contains_byte-Lacks b'\n' (entry (codes "Max-Forwards") (codes "70")) refl,
      (
        entry-IsLine (codes "From") (from_value d) refl from_value-IsValue.1,
        (
          entry-IsLine (codes "To") (to_value d) refl to_value-IsValue.1,
          (
            entry-IsLine (codes "Call-ID") _ refl writable.id_value.1,
            (
              entry-IsLine (codes "CSeq") _ refl (cseq_value-IsValue cseq).1,
              (
                entry-IsLine (codes "Contact") (contact_value d) refl contact_value-IsValue.1,
                (
                  entry-IsLine (codes "Expires") _ refl
                      (NoSpace-Lacks _ (show_int-NoSpace d.expires)),
                  (
                    contains_byte-Lacks b'\n' (entry (codes "User-Agent") user_agent) refl,
                    All-append IsLine (auth_entries auth)
                        (entry (codes "Content-Length") (codes "0") ∷ []) auth_entries-IsLine
                        (
                          contains_byte-Lacks b'\n' (entry (codes "Content-Length") (codes "0"))
                              refl,
                          tt,
                        ),
                  ),
                ),
              ),
            ),
          ),
        ),
      ),
    ),
  )

  register_text_read :
      parse_sip_request (
        written (request_start (codes "REGISTER") d.uri ∷ register_entries d cseq branch auth)
        ++ (crlf ++ []))
      ≡ ok (read_register d cseq branch auth)
  unfolding contains_byte has_no_space replace_crlf
  register_text_read =
      let method = has_no_space-NoSpace (codes "REGISTER") refl in
      let version = contains_byte-Lacks b'\n' (codes " SIP/2.0") refl in
      let start =
        line-Lacks (codes "REGISTER ") _ refl
          (All-append _ d.uri (codes " SIP/2.0") (NoSpace-Lacks _ writable.uri_word) version) in
      parse_sip_request-written (request_start (codes "REGISTER") d.uri)
        (register_entries d cseq branch auth) [] (start, register_entries-IsLine)
      ∙ rw (
          request_line-start (codes "REGISTER") d.uri method refl writable.uri_word
            writable.has_uri)

  read_register-IsRegister : IsRegister d cseq auth (ok (read_register d cseq branch auth))
  unfolding IsRegister line_values cut to_lower trim_space trim_left trim_right text_eq
  read_register-IsRegister =
      let found = header-read (register_entries d cseq branch auth) in
      (
        refl,
        refl,
        found (codes "from") ∙ trim_space-space _ from_value-IsValue.0,
        found (codes "to") ∙ trim_space-space _ to_value-IsValue.0,
        found (codes "call-id") ∙ trim_space-space _ writable.id_value.0,
        found (codes "cseq") ∙ trim_space-space _ (cseq_value-IsValue cseq).0,
        found (codes "contact") ∙ trim_space-space _ contact_value-IsValue.0,
        found (codes "expires")
            ∙ trim_space-space _ (NoSpace-IsTrimmed _ (show_int-NoSpace d.expires)),
        found (codes "authorization") ∙ auth_found auth writable.auth_value,
        refl,
      )

  -- The REGISTER of a registration is read back as a REGISTER of its URI, with the address of
  -- record in From and To, its Call-ID, number, contact, lifetime and Authorization, and no body,
  -- whatever the branch. The URI and the tag are without white space, the Call-ID and the
  -- Authorization without white space at their ends, and all texts without line breaks.
  pub parse_sip_request-register_text :
      IsRegister d cseq auth (parse_sip_request (register_text d cseq branch auth))
  parse_sip_request-register_text =
      subst (IsRegister d cseq auth)
        (sym (ap parse_sip_request (register_text-written d cseq branch auth) ∙ register_text_read))
        read_register-IsRegister
