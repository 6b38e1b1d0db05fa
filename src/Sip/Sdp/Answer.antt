-- ===== src/Sip/Sdp/Answer.antt =====
-- The session description of an answer, read back by `parseSDPAnswer`.
use talk_telephony_gateway_p.Base.{
  inr, inl, Option-cases, ltb, ℕ, ◌≡◌, refl, ap, ◌∙◌, true, false, not, ◌||◌, [], ◌∷◌, ◌++◌, Option,
  none, some, ◌<◌, ◌^◌, if◌then◌else◌, Result, ok, err, All, All-append, arith,
}
use talk_telephony_gateway_p.Base.Int.{ℤ, pos}
use talk_telephony_gateway_p.Text.{
  Text, codes, is_empty, contains_byte, has_prefix, trim_space, trim_left, trim_right, split,
  replace_crlf,
}
use talk_telephony_gateway_p.Text.Laws.{NoSpace}
use talk_telephony_gateway_p.Text.Lines.{
  Lacks, contains_byte-Lacks, NoSpace-Lacks, written, parts, split-lines,
}
use talk_telephony_gateway_p.Text.Decimal.{atoi, digits_value, itoa, itoa_fuel}
use talk_telephony_gateway_p.Text.Decimal.Digits.{itoa-NoSpace, itoa-is_empty}
use talk_telephony_gateway_p.Sip.Sdp.{
  is_positive, Found, SdpError, no_address, no_payload, not_resolved, numbers, read_line,
  read_lines, choose_payload, parse_sdp_answer, build_sdp_answer,
}
use talk_telephony_gateway_p.Sip.Sdp.Lines.{
  codec_line, answer_lines, build_sdp_answer-written, read_line-other, nothing_found, all_found,
  first_lines, last_lines, last_lines-other,
}

answer_lines-Lacks :
    (now : ℕ) (ip : Text) (port pt : ℕ)
    → NoSpace ip
    → Lacks b'\n' (codec_line pt)
    → All (Lacks b'\n') (answer_lines now ip port pt)
unfolding contains_byte
answer_lines-Lacks now ip port pt h codec =
    let address = NoSpace-Lacks ip h in
    let number = NoSpace-Lacks (itoa now) (itoa-NoSpace now) in
    let at_ip =
      All-append _ (codes " IN IP4 ") ip (contains_byte-Lacks b'\n' (codes " IN IP4 ") refl)
        address in
    let twice = All-append _ (itoa now) (codes " IN IP4 " ++ ip) number at_ip in
    let payload =
      All-append _ (itoa pt) (codes " 101") (NoSpace-Lacks _ (itoa-NoSpace pt))
        (contains_byte-Lacks b'\n' (codes " 101") refl) in
    let profile =
      All-append _ (codes " RTP/AVP ") (itoa pt ++ codes " 101")
        (contains_byte-Lacks b'\n' (codes " RTP/AVP ") refl) payload in
    (
      contains_byte-Lacks b'\n' (codes "v=0") refl,
      (
        All-append _ (codes "o=talkgateway ") _
            (contains_byte-Lacks b'\n' (codes "o=talkgateway ") refl)
            (All-append _ (itoa now) (b' ' ∷ (itoa now ++ (codes " IN IP4 " ++ ip))) number
              (refl, twice)),
        (
          contains_byte-Lacks b'\n' (codes "s=Nextcloud Talk Telephony Gateway") refl,
          (
            All-append _ (codes "c=IN IP4 ") ip (contains_byte-Lacks b'\n' (codes "c=IN IP4 ") refl)
                address,
            (
              contains_byte-Lacks b'\n' (codes "t=0 0") refl,
              (
                All-append _ (codes "m=audio ") _
                    (contains_byte-Lacks b'\n' (codes "m=audio ") refl)
                    (All-append _ (itoa port) _ (NoSpace-Lacks _ (itoa-NoSpace port)) profile),
                (
                  codec,
                  (
                    contains_byte-Lacks b'\n' (codes "a=rtpmap:101 telephone-event/8000") refl,
                    (
                      contains_byte-Lacks b'\n' (codes "a=fmtp:101 0-16") refl,
                      (
                        contains_byte-Lacks b'\n' (codes "a=ptime:20") refl,
                        (contains_byte-Lacks b'\n' (codes "a=sendrecv") refl, tt),
                      ),
                    ),
                  ),
                ),
              ),
            ),
          ),
        ),
      ),
    )

-- The answer with the codec, where its address resolves.
abbrev pub at_address {ℓ} : {Addr : Type ℓ} → Option Addr → ℕ → Result SdpError (Addr × ℕ)
at_address none pt = err not_resolved
at_address (some a) pt = ok (a, pt)

module _ {ℓ} {Addr : Type ℓ} (resolve : Text → ℤ → Option Addr) where
  conclude : Found → Result SdpError (Addr × ℕ)
  conclude found =
      if is_empty found.conn_ip || not (is_positive found.port)
      then err no_address
      else elim (choose_payload none found.payloads) [
        | none ↦ err no_payload
        | some pt ↦ elim (resolve found.conn_ip found.port) [
          | none ↦ err not_resolved
          | some a ↦ ok (a, pt)
        ]
      ]

  parse_sdp_answer-conclude :
      (body : Text)
      → parse_sdp_answer resolve body
        ≡ conclude (read_lines (parts (split b'\n' (replace_crlf body))) nothing_found)
  unfolding parse_sdp_answer conclude
  parse_sdp_answer-conclude body = refl

  module _ (now : ℕ) (ip : Text) (port : ℕ) (ip_word : NoSpace ip) (has_ip : is_empty ip ≡ false)
      (is_used : 0 < port) (in_range : port < 2 ^ 63) where
    conclude-all_found :
        (pt : ℕ)
        → choose_payload none (pos pt ∷ pos 101 ∷ []) ≡ some pt
        → conclude (all_found ip port pt) ≡ at_address (resolve ip (pos port)) pt
    unfolding conclude
    conclude-all_found pt e =
        let used : ltb 0 port ≡ true = ground (arith, is_used) in
        elim (Option-cases (resolve ip (pos port))) [
          | inl f ↦ rw (has_ip, used, e, f)
          | inr (a, f) ↦ rw (has_ip, used, e, f)
        ]

    answer_read :
        (pt : ℕ)
        → All (Lacks b'\n') (answer_lines now ip port pt)
        → numbers (itoa pt ∷ codes "101" ∷ []) ≡ pos pt ∷ pos 101 ∷ []
        → read_line (codec_line pt) (all_found ip port pt) ≡ all_found ip port pt
        → choose_payload none (pos pt ∷ pos 101 ∷ []) ≡ some pt
        → parse_sdp_answer resolve (written (answer_lines now ip port pt))
          ≡ at_address (resolve ip (pos port)) pt
    answer_read pt h e f g =
        parse_sdp_answer-conclude (written (answer_lines now ip port pt))
        ∙ ap (λ ls. conclude (read_lines ls nothing_found))
            (split-lines (answer_lines now ip port pt) h)
        ∙ ap conclude (
            first_lines ip port ip_word has_ip in_range now (itoa pt) (last_lines (codec_line pt))
              (itoa-NoSpace pt) (itoa-is_empty pt))
        ∙ ap
            (λ ps. conclude (
              read_lines (last_lines (codec_line pt))
                (record { conn_ip = ip; port = pos port; payloads = ps })))
            e
        ∙ ap conclude (last_lines-other (codec_line pt) (all_found ip port pt) f)
        ∙ conclude-all_found pt g

    -- The session description of an answer is read back as its address and its codec, where the
    -- address resolves: PCMA and PCMU, for an IP that is a word and a port from 1 to 2 ^ 63 - 1.
    pub parse_sdp_answer-build_sdp_answer :
        (parse_sdp_answer resolve (build_sdp_answer now ip port 8)
          ≡ at_address (resolve ip (pos port)) 8)
        × (parse_sdp_answer resolve (build_sdp_answer now ip port 0)
            ≡ at_address (resolve ip (pos port)) 0)
    unfolding numbers itoa itoa_fuel atoi digits_value has_prefix trim_space trim_left trim_right
        choose_payload contains_byte
    parse_sdp_answer-build_sdp_answer =
        let (eight, zero_type) = build_sdp_answer-written now ip port in
        (
          ap (parse_sdp_answer resolve) eight
              ∙ answer_read 8
                  (answer_lines-Lacks now ip port 8 ip_word
                    (contains_byte-Lacks b'\n' (codec_line 8) refl))
                  refl (read_line-other (codec_line 8) _ refl refl) refl,
          ap (parse_sdp_answer resolve) zero_type
              ∙ answer_read 0
                  (answer_lines-Lacks now ip port 0 ip_word
                    (contains_byte-Lacks b'\n' (codec_line 0) refl))
                  refl (read_line-other (codec_line 0) _ refl refl) refl,
        )
