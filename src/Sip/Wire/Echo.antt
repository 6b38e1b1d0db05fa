-- ===== src/Sip/Wire/Echo.antt =====
-- A response that `writeSIPResponseWithTag` writes to a request that was read, as a reader of the
-- response finds it.
use talk_telephony_gateway_p.Base.{
  ◌≡◌, refl, ap, sym, ◌∙◌, ℕ, false, List, [], ◌∷◌, ◌++◌, append-nil, All, length, Result, ok, err,
  subst, ◌<◌, ◌^◌, All-append, Bool-cases, Option-cases, inl, inr,
}
use talk_telephony_gateway_p.Base.Int.{pos}
use talk_telephony_gateway_p.Text.{
  Text, codes, is_empty, text_eq, trim_space, to_lower, cut, contains_byte, replace_crlf, fields,
  trim_left, trim_right, has_prefix,
}
use talk_telephony_gateway_p.Text.Laws.{NoSpace}
use talk_telephony_gateway_p.Text.Lines.{
  IsLine, Lacks, contains_byte-Lacks, NoSpace-Lacks, written, fields-word,
}
use talk_telephony_gateway_p.Text.Trim.{trim_space-space}
use talk_telephony_gateway_p.Text.Decimal.{itoa}
use talk_telephony_gateway_p.Text.Decimal.Digits.{itoa-NoSpace, atoi-itoa, itoa-is_empty}
use talk_telephony_gateway_p.Sip.{
  ParseError, SipRequest, SipResponse, header, values, add_headers, status_code, parse_sip_request,
  parse_sip_response, tagged, user_agent, sip_response,
}
use talk_telephony_gateway_p.Sip.Headers.{line_values}
use talk_telephony_gateway_p.Sip.Wire.Values.{
  IsValue, first_of, values-read, header-values, parse_sip_request-IsValue, first_of-IsValue,
  tagged-IsValue,
}
use talk_telephony_gateway_p.Sip.Wire.{
  entry-IsLine, via_entries, start_line, own_entries, length_entry, response_entries,
  parse_sip_response-written, sip_response-written,
}

via_entries-IsLine : (vs : List Text) → All IsValue vs → All IsLine (via_entries vs)
unfolding contains_byte
via_entries-IsLine [] h = tt
via_entries-IsLine (v ∷ vs) (h, hs) =
    (entry-IsLine (codes "Via") v refl h.1, via_entries-IsLine vs hs)

-- The Via lines give their values under their name, and nothing under another.
line_values-via :
    (vs ls : List Text)
    → All IsValue vs
    → line_values (codes "via") (via_entries vs ++ ls) ≡ vs ++ line_values (codes "via") ls
unfolding line_values cut to_lower text_eq trim_space trim_left trim_right
line_values-via [] ls h = refl
line_values-via (v ∷ vs) ls (h, hs) = rw (trim_space-space v h.0, line_values-via vs ls hs)

line_values-others :
    (name : Text) (vs ls : List Text)
    → text_eq (codes "via") name ≡ false
    → line_values name (via_entries vs ++ ls) ≡ line_values name ls
unfolding line_values cut to_lower trim_space trim_left trim_right
line_values-others name [] ls e = refl
line_values-others name (v ∷ vs) ls e = rw (e, line_values-others name vs ls e)

line_values-append :
    (name : Text) (ks ls : List Text)
    → line_values name (ks ++ ls) ≡ line_values name ks ++ line_values name ls
unfolding line_values
line_values-append name [] ls = refl
line_values-append name (k ∷ ks) ls =
    let later = line_values-append name ks ls in
    elim (Option-cases (cut b':' k)) [
      | inl e ↦ rw (e, line_values) later
      | inr ((n, v), e) ↦ elim (Bool-cases (is_empty n)) [
        | inl f ↦ rw (e, f, line_values) later
        | inr f ↦ elim (Bool-cases (text_eq (to_lower (trim_space n)) name)) [
          | inr g ↦ rw (e, f, g, line_values) later
          | inl g ↦ rw (e, f, g, line_values, later)
        ]
      ]
    ]

-- What a reader finds in the response: the code, the Via lines, From, Call-ID and CSeq of the
-- request, its To with the tag, and the body with its line breaks in one byte.
unfoldable pub IsEcho :
    SipRequest → ℕ → Text → List Text → Text → Result ParseError SipResponse → Type 0
IsEcho req code to_tag extra body (err e) = ⊥
IsEcho req code to_tag extra body (ok resp) =
    (resp.code ≡ pos code)
    × (values resp.headers (codes "via")
        ≡ values req.headers (codes "via") ++ line_values (codes "via") extra)
    × (header resp.headers (codes "from") ≡ header req.headers (codes "from"))
    × (header resp.headers (codes "to") ≡ tagged (header req.headers (codes "to")) to_tag)
    × (header resp.headers (codes "call-id") ≡ header req.headers (codes "call-id"))
    × (header resp.headers (codes "cseq") ≡ header req.headers (codes "cseq"))
    × (resp.body ≡ replace_crlf body)

abbrev echoed : SipRequest → ℕ → Text → Text → List Text → Text → SipResponse
echoed req code phrase to_tag extra body = record {
  status_line = trim_space (start_line code phrase);
  code = pos code;
  headers = add_headers (response_entries req to_tag extra body) [];
  body = replace_crlf body;
}

module _ (raw : Text) (req : SipRequest) (code : ℕ) (phrase to_tag : Text) (extra : List Text)
    (body : Text) (is_read : parse_sip_request raw ≡ ok req) (in_range : code < 2 ^ 63)
    (one_line : Lacks b'\n' phrase) (tag_word : NoSpace to_tag) (form : All IsLine extra) where
  header-IsValue : (name : Text) → IsValue (header req.headers name)
  header-IsValue name =
      rw (header-values req.headers name)
        (first_of-IsValue _ (parse_sip_request-IsValue raw (to_lower name) req is_read))

  to-IsValue : IsValue (tagged (header req.headers (codes "to")) to_tag)
  to-IsValue = tagged-IsValue _ to_tag (header-IsValue (codes "to")) tag_word

  own_entries-IsLine : All IsLine (own_entries req to_tag)
  unfolding contains_byte
  own_entries-IsLine = (
    entry-IsLine (codes "From") _ refl (header-IsValue (codes "from")).1,
    (
      entry-IsLine (codes "To") _ refl to-IsValue.1,
      (
        entry-IsLine (codes "Call-ID") _ refl (header-IsValue (codes "call-id")).1,
        (
          entry-IsLine (codes "CSeq") _ refl (header-IsValue (codes "cseq")).1,
          (
            entry-IsLine (codes "Server") user_agent refl
                (contains_byte-Lacks b'\n' user_agent refl),
            tt,
          ),
        ),
      ),
    ),
  )

  entries-IsLine : All IsLine (start_line code phrase ∷ response_entries req to_tag extra body)
  unfolding contains_byte
  entries-IsLine =
      let vias = via_entries-IsLine _ (parse_sip_request-IsValue raw (codes "via") req is_read) in
      let size =
        entry-IsLine (codes "Content-Length") (itoa (length body)) refl
          (NoSpace-Lacks _ (itoa-NoSpace (length body))) in
      let start =
        All-append _ (itoa code) (b' ' ∷ phrase) (NoSpace-Lacks _ (itoa-NoSpace code))
          (refl, one_line) in
      let rest = All-append IsLine extra (length_entry body ∷ []) form (size, tt) in
      (
        All-append _ (codes "SIP/2.0 ") _ (contains_byte-Lacks b'\n' (codes "SIP/2.0 ") refl) start,
        All-append IsLine _ _ vias
            (All-append IsLine (own_entries req to_tag) _ own_entries-IsLine rest),
      )

  status_code-start_line : status_code (fields (start_line code phrase)) ≡ ok (pos code)
  unfolding status_code has_prefix
  status_code-start_line = rw (
    fields-word (codes "SIP/2.0") (itoa code ++ (b' ' ∷ phrase))
        (refl, (refl, (refl, (refl, (refl, (refl, (refl, tt))))))) refl,
    fields-word (itoa code) phrase (itoa-NoSpace code) (itoa-is_empty code),
    atoi-itoa code in_range,
  )

  via-echo :
      line_values (codes "via") (response_entries req to_tag extra body)
      ≡ values req.headers (codes "via") ++ line_values (codes "via") extra
  unfolding line_values cut to_lower trim_space trim_left trim_right text_eq
  via-echo =
      line_values-via _ _ (parse_sip_request-IsValue raw (codes "via") req is_read)
      ∙ ap (λ vs. values req.headers (codes "via") ++ vs)
          (line_values-append (codes "via") extra _ ∙ append-nil _)

  -- The first value under a name that is not Via.
  own-echo :
      (name : Text)
      → text_eq (codes "via") (to_lower name) ≡ false
      → header (add_headers (response_entries req to_tag extra body) []) name
        ≡ first_of (
            line_values
              (to_lower name)
              (own_entries req to_tag ++ (extra ++ length_entry body ∷ [])))
  own-echo name e =
      header-values _ name
      ∙ ap first_of (
          values-read (response_entries req to_tag extra body) (to_lower name)
          ∙ line_values-others (to_lower name) (values req.headers (codes "via")) _ e)

  echoed-IsEcho : IsEcho req code to_tag extra body (ok (echoed req code phrase to_tag extra body))
  unfolding IsEcho line_values cut to_lower trim_space trim_left trim_right text_eq
  echoed-IsEcho = (
    refl,
    values-read (response_entries req to_tag extra body) (codes "via") ∙ via-echo,
    own-echo (codes "from") refl ∙ trim_space-space _ (header-IsValue (codes "from")).0,
    own-echo (codes "to") refl ∙ trim_space-space _ to-IsValue.0,
    own-echo (codes "call-id") refl ∙ trim_space-space _ (header-IsValue (codes "call-id")).0,
    own-echo (codes "cseq") refl ∙ trim_space-space _ (header-IsValue (codes "cseq")).0,
    refl,
  )

  parse_sip_response-read :
      parse_sip_response (sip_response req code phrase to_tag (written extra) body)
      ≡ ok (echoed req code phrase to_tag extra body)
  parse_sip_response-read =
      ap parse_sip_response (sip_response-written req code phrase to_tag extra body)
      ∙ parse_sip_response-written (start_line code phrase) (response_entries req to_tag extra body)
          body entries-IsLine
      ∙ rw (status_code-start_line)

  -- A response that is written to a request that was read is read back with its code, with the Via
  -- values of the request in their order, then those of the extra lines, with the From, Call-ID
  -- and CSeq of the request, its To with the tag where it had none, and the body, each CR LF of it
  -- turned into LF. The code fits an int64, no line break stands in the phrase, no white space in
  -- the tag, and the extra lines are not empty and hold no line break.
  pub parse_sip_response-sip_response :
      IsEcho req code to_tag extra body
        (parse_sip_response (sip_response req code phrase to_tag (written extra) body))
  unfolding IsEcho
  parse_sip_response-sip_response =
      subst (IsEcho req code to_tag extra body) (sym parse_sip_response-read) echoed-IsEcho
