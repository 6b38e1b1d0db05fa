-- ===== src/Sip/Wire/Values.antt =====
-- The header values of a request that was read.
use talk_telephony_gateway_p.Base.{
  true, ℕ, false, ◌∙◌, ◌≡◌, refl, ap, sym, not, ◌&&◌, List, [], ◌∷◌, ◌++◌, Option, none, some, All,
  Result, ok, err, ◌>>=◌, subst, All-append, Bool-cases, Option-cases, inl, inr,
}
use talk_telephony_gateway_p.Text.{
  Text, codes, contains_byte, is_empty, text_eq, trim_space, to_lower, cut, split, split_blank_line,
  replace_crlf, fields, trim_right,
}
use talk_telephony_gateway_p.Text.Laws.{NoSpace, has_no_space, has_no_space-NoSpace}
use talk_telephony_gateway_p.Text.Decimal.{itoa}
use talk_telephony_gateway_p.Text.Decimal.Digits.{itoa-NoSpace}
use talk_telephony_gateway_p.Text.Lines.{Lacks, contains_byte-Lacks, NoSpace-Lacks, split-Lacks}
use talk_telephony_gateway_p.Text.Trim.{
  framed-IsTrimmed, IsTrimmed, IsTrimmed-append, trim_space-IsTrimmed, trim_space-Lacks, cut-Lacks,
}
use talk_telephony_gateway_p.Dict.{lookup}
use talk_telephony_gateway_p.Sip.{
  ParseError, Headers, SipRequest, header, first_value, values, add_headers, body_of, request_line,
  parse_sip_request, tagged, contains,
}
use talk_telephony_gateway_p.Sip.Headers.{line_values, values-add_headers}

-- A header value as the parser leaves it: no white space at its ends and no line break.
abbrev pub IsValue : Text → Type 0
IsValue v = IsTrimmed v × Lacks b'\n' v

abbrev pub first_of : List Text → Text
first_of [] = []
first_of (v ∷ vs) = v

pub header-values :
    (headers : Headers) (name : Text)
    → header headers name ≡ first_of (values headers (to_lower name))
unfolding header values first_value
header-values headers name = first_found (lookup (to_lower name) headers)
  where
    first_found :
        (found : Option (List Text))
        → first_value found ≡ first_of (elim found [ none ↦ [] | some vs ↦ vs ])
    first_found none = refl
    first_found (some []) = refl
    first_found (some (v ∷ vs)) = refl

line_values-IsValue :
    (name : Text) (lines : List Text)
    → All (Lacks b'\n') lines
    → All IsValue (line_values name lines)
unfolding line_values
line_values-IsValue name [] h = tt
line_values-IsValue name (l ∷ lines) (hl, h) =
    let rest = line_values-IsValue name lines h in
    elim (Option-cases (cut b':' l)) [
      | inl e ↦ rw (e, All) rest
      | inr ((n, v), e) ↦ elim (Bool-cases (is_empty n)) [
        | inl f ↦ rw (e, f, All) rest
        | inr f ↦ elim (Bool-cases (text_eq (to_lower (trim_space n)) name)) [
          | inr g ↦ rw (e, f, g, All) rest
          | inl g ↦
              rw (e, f, g, All)
                (
                  (
                    trim_space-IsTrimmed v,
                    trim_space-Lacks b'\n' v (cut-Lacks b'\n' b':' l n v hl e),
                  ),
                  rest,
                )
        ]
      ]
    ]

-- The values of a message that was read are those of its lines.
pub values-read :
    (lines : List Text) (name : Text) → values (add_headers lines []) name ≡ line_values name lines
unfolding values
values-read lines name = values-add_headers lines name []

-- The first value under a name.
pub header-read :
    (lines : List Text) (name : Text)
    → header (add_headers lines []) name ≡ first_of (line_values (to_lower name) lines)
header-read lines name =
    header-values (add_headers lines []) name ∙ ap first_of (values-read lines (to_lower name))

headers_of : {E : Type 0} → Result E SipRequest → Headers
headers_of (ok req) = req.headers
headers_of (err e) = []

request_headers :
    (start : Result ParseError (Text × Text × Text)) (hs : Headers) (body : Text) (req : SipRequest)
    → (start >>= λ (m, u, v).
        ok (record { method = m; uri = u; version = v; headers = hs; body = body }))
      ≡ ok req
    → hs ≡ req.headers
unfolding headers_of
request_headers (ok (m, u, v)) hs body req e = ap headers_of e
request_headers (err f) hs body req e = cc

-- Every value of a request that was read is trimmed and in one line.
pub parse_sip_request-IsValue :
    (raw name : Text) (req : SipRequest)
    → parse_sip_request raw ≡ ok req
    → All IsValue (values req.headers name)
unfolding parse_sip_request values
parse_sip_request-IsValue raw name req e =
    let parts = split_blank_line (replace_crlf raw) in
    let lines = split b'\n' parts.0 in
    let found = values-add_headers lines.1 name [] in
    let each = line_values-IsValue name lines.1 (split-Lacks parts.0).1 in
    subst (λ hs. All IsValue (values hs name))
      (request_headers (request_line (fields lines.0)) (add_headers lines.1 []) (body_of parts.1)
        req e)
      (subst (All IsValue) (sym found) each)

pub first_of-IsValue : (vs : List Text) → All IsValue vs → IsValue (first_of vs)
unfolding trim_right
first_of-IsValue [] h = ((tt, refl), tt)
first_of-IsValue (v ∷ vs) (h, hs) = h

pub tagged-IsValue : (to to_tag : Text) → IsValue to → NoSpace to_tag → IsValue (tagged to to_tag)
unfolding tagged
tagged-IsValue to to_tag h g =
    elim (Bool-cases (not (is_empty to_tag) && not (contains (codes ";tag=") (to_lower to)))) [
      | inr e ↦ rw e h
      | inl e ↦
          let tag =
            All-append _ (codes ";tag=") to_tag (refl, (refl, (refl, (refl, (refl, tt))))) g in
          rw e (
            IsTrimmed-append to (codes ";tag=" ++ to_tag) h.0 tag refl,
            All-append _ to _ h.1 (NoSpace-Lacks (codes ";tag=" ++ to_tag) tag),
          )
    ]

-- A line between two words is a value.
pub framed-IsValue :
    (v s w : Text)
    → NoSpace v
    → is_empty v ≡ false
    → Lacks b'\n' s
    → NoSpace w
    → is_empty w ≡ false
    → IsValue (v ++ (s ++ w))
framed-IsValue v s w hv ev hs hw ew = (
  framed-IsTrimmed v s w hv ev hw ew,
  All-append _ v _ (NoSpace-Lacks v hv) (All-append _ s w hs (NoSpace-Lacks w hw)),
)

pub line-Lacks : (s t : Text) → contains_byte b'\n' s ≡ false → Lacks b'\n' t → Lacks b'\n' (s ++ t)
line-Lacks s t e h = All-append _ s t (contains_byte-Lacks b'\n' s e) h

pub word-NoSpace : (s t : Text) → has_no_space s ≡ true → NoSpace t → NoSpace (s ++ t)
word-NoSpace s t e h = All-append _ s t (has_no_space-NoSpace s e) h

-- The value of the Via line of a request.
abbrev pub via_value : Text → ℕ → Text → Text
via_value host port branch =
    codes "SIP/2.0/UDP "
    ++ (host ++ (b':' ∷ (itoa port ++ (codes ";branch=" ++ (branch ++ codes ";rport")))))

pub via_value-Lacks :
    (host : Text) (port : ℕ) (branch : Text)
    → Lacks b'\n' host
    → Lacks b'\n' branch
    → Lacks b'\n' (via_value host port branch)
unfolding contains_byte
via_value-Lacks host port branch hh hb =
    let digits = NoSpace-Lacks (itoa port) (itoa-NoSpace port) in
    let rport = contains_byte-Lacks b'\n' (codes ";rport") refl in
    let ending = All-append _ branch (codes ";rport") hb rport in
    let marked = line-Lacks (codes ";branch=") (branch ++ codes ";rport") refl ending in
    line-Lacks (codes "SIP/2.0/UDP ") _ refl
      (All-append _ host (b':' ∷ _) hh (refl, All-append _ (itoa port) _ digits marked))
