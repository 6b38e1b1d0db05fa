-- ===== src/Sip/Sdp/Lines.antt =====
-- The lines of a session description, as `parseSDPAnswer` reads them.
use talk_telephony_gateway_p.Base.{
  ℕ, ◌≡◌, refl, ap, ◌∙◌, subst, false, List, [], ◌∷◌, ◌++◌, ◌<◌, ◌^◌, ◌==◌, if◌then◌else◌,
  append_assoc, drop, length,
}
use talk_telephony_gateway_p.Base.Int.{ℤ, pos}
use talk_telephony_gateway_p.Text.{
  Text, codes, is_empty, has_prefix, trim_space, trim_left, trim_right, fields,
}
use talk_telephony_gateway_p.Text.Laws.{
  NoSpace, has_no_space, has_no_space-NoSpace, trim_space-NoSpace,
}
use talk_telephony_gateway_p.Text.Lines.{written, fields-word}
use talk_telephony_gateway_p.Text.Trim.{IsTrimmed, framed-IsTrimmed, trim_space_trimmed}
use talk_telephony_gateway_p.Text.Decimal.{itoa}
use talk_telephony_gateway_p.Text.Decimal.Digits.{itoa-NoSpace, itoa-is_empty, atoi_value-itoa}
use talk_telephony_gateway_p.Sip.Sdp.{
  Found, numbers, read_media, read_line, read_lines, session_lines, closing_lines, build_sdp_answer,
}

-- A line without white space at its ends.
abbrev read_trimmed : Text → Found → Found
read_trimmed line s =
    let t =
      if has_prefix (codes "c=IN IP4 ") line
      then record s { conn_ip = trim_space (drop (length (codes "c=IN IP4 ")) line) }
      else s in
    if has_prefix (codes "m=audio ") line then read_media (fields line) t else t

read_line-trimmed : (l : Text) (s : Found) → read_line l s ≡ read_trimmed (trim_space l) s
unfolding read_line
read_line-trimmed l s = refl

read_line-connection :
    (ip : Text) (s : Found)
    → NoSpace ip
    → is_empty ip ≡ false
    → read_line (codes "c=IN IP4 " ++ ip) s ≡ record s { conn_ip = ip }
unfolding has_prefix
read_line-connection ip s h e =
    let whole =
      framed-IsTrimmed (codes "c=IN") (codes " IP4 ") ip (refl, (refl, (refl, (refl, tt)))) refl h
        e in
    read_line-trimmed (codes "c=IN IP4 " ++ ip) s
    ∙ ap (λ (l : Text). read_trimmed l s) (trim_space_trimmed (codes "c=IN IP4 " ++ ip) whole)
    ∙ ap (λ (i : Text). record s { conn_ip = i }) (trim_space-NoSpace ip h)

abbrev pub media_line : ℕ → Text → Text
media_line port pt = codes "m=audio " ++ (itoa port ++ (codes " RTP/AVP " ++ (pt ++ codes " 101")))

media_line-fields :
    (port : ℕ) (pt : Text)
    → NoSpace pt
    → is_empty pt ≡ false
    → fields (media_line port pt)
      ≡ codes "m=audio" ∷ itoa port ∷ codes "RTP/AVP" ∷ pt ∷ codes "101" ∷ []
unfolding fields has_no_space
media_line-fields port pt h e =
    fields-word (codes "m=audio") (itoa port ++ (codes " RTP/AVP " ++ (pt ++ codes " 101")))
      (has_no_space-NoSpace (codes "m=audio") refl) refl
    ∙ ap (λ (ws : List Text). codes "m=audio" ∷ ws)
        (fields-word (itoa port) (codes "RTP/AVP " ++ (pt ++ codes " 101")) (itoa-NoSpace port)
            (itoa-is_empty port)
          ∙ ap (λ (ws : List Text). itoa port ∷ ws)
              (fields-word (codes "RTP/AVP") (pt ++ codes " 101")
                  (has_no_space-NoSpace (codes "RTP/AVP") refl) refl
                ∙ ap (λ (ws : List Text). codes "RTP/AVP" ∷ ws) (fields-word pt (codes "101") h e)))

media_line-frame :
    (port : ℕ) (pt : Text)
    → codes "m=audio"
        ++ ((b' ' ∷ (itoa port ++ (codes " RTP/AVP " ++ (pt ++ codes " ")))) ++ codes "101")
      ≡ media_line port pt
media_line-frame port pt = simp (append_assoc)

media_line-IsTrimmed : (port : ℕ) (pt : Text) → IsTrimmed (media_line port pt)
unfolding has_no_space
media_line-IsTrimmed port pt =
    let middle = b' ' ∷ (itoa port ++ (codes " RTP/AVP " ++ (pt ++ codes " "))) in
    subst IsTrimmed (media_line-frame port pt) (
      framed-IsTrimmed (codes "m=audio") middle (codes "101")
        (has_no_space-NoSpace (codes "m=audio") refl) refl (has_no_space-NoSpace (codes "101") refl)
        refl)

read_line-media :
    (port : ℕ) (pt : Text) (s : Found)
    → NoSpace pt
    → is_empty pt ≡ false
    → port < 2 ^ 63
    → read_line (media_line port pt) s
      ≡ record s { port = pos port; payloads = s.payloads ++ numbers (pt ∷ codes "101" ∷ []) }
unfolding has_prefix read_media
read_line-media port pt s h e b =
    let trimmed = trim_space_trimmed (media_line port pt) (media_line-IsTrimmed port pt) in
    read_line-trimmed (media_line port pt) s
    ∙ ap (λ (l : Text). read_trimmed l s) trimmed
    ∙ ap (λ (ws : List Text). read_media ws s) (media_line-fields port pt h e)
    ∙ ap
        (λ (p : ℤ). record s { port = p; payloads = s.payloads ++ numbers (pt ∷ codes "101" ∷ []) })
        (atoi_value-itoa port b)

abbrev pub origin : ℕ → Text → Text
origin now ip =
    codes "o=talkgateway " ++ (itoa now ++ (b' ' ∷ (itoa now ++ (codes " IN IP4 " ++ ip))))

-- The lines of an answer with one of the two codecs.
abbrev pub codec_line : ℕ → Text
codec_line pt = if pt == 8 then codes "a=rtpmap:8 PCMA/8000" else codes "a=rtpmap:0 PCMU/8000"

abbrev pub answer_lines : ℕ → Text → ℕ → ℕ → List Text
answer_lines now ip port pt =
    codes "v=0"
    ∷ origin now ip
    ∷ codes "s=Nextcloud Talk Telephony Gateway"
    ∷ (codes "c=IN IP4 " ++ ip)
    ∷ codes "t=0 0"
    ∷ media_line port (itoa pt)
    ∷ codec_line pt
    ∷ codes "a=rtpmap:101 telephone-event/8000"
    ∷ codes "a=fmtp:101 0-16"
    ∷ codes "a=ptime:20"
    ∷ codes "a=sendrecv"
    ∷ []

pub build_sdp_answer-written :
    (now : ℕ) (ip : Text) (port : ℕ)
    → (build_sdp_answer now ip port 8 ≡ written (answer_lines now ip port 8))
      × (build_sdp_answer now ip port 0 ≡ written (answer_lines now ip port 0))
unfolding build_sdp_answer session_lines closing_lines
build_sdp_answer-written now ip port = (simp (append_assoc), simp (append_assoc))

-- A line of another kind is passed over.
pub read_line-other :
    (l : Text) (s : Found)
    → has_prefix (codes "c=IN IP4 ") (trim_space l) ≡ false
    → has_prefix (codes "m=audio ") (trim_space l) ≡ false
    → read_line l s ≡ s
unfolding read_line
read_line-other l s e f = rw (e, f)

abbrev pub nothing_found : Found
nothing_found = record { conn_ip = []; port = pos 0; payloads = [] }

abbrev pub all_found : Text → ℕ → ℕ → Found
all_found ip port pt = record { conn_ip = ip; port = pos port; payloads = pos pt ∷ pos 101 ∷ [] }

origin_line : (now : ℕ) (ip : Text) (s : Found) → read_line (origin now ip) s ≡ s
unfolding has_prefix trim_space trim_left trim_right
origin_line now ip s = read_line-other _ s refl refl

module _ (ip : Text) (port : ℕ) (ip_word : NoSpace ip) (has_ip : is_empty ip ≡ false)
    (in_range : port < 2 ^ 63) where
  abbrev after_connection : Found → Found
  after_connection s = read_line (codes "t=0 0") (read_line (codes "c=IN IP4 " ++ ip) s)

  -- What the lines up to the media line leave.
  pub first_lines :
      (now : ℕ) (pt : Text) (ls : List Text)
      → NoSpace pt
      → is_empty pt ≡ false
      → read_lines
          (codes "v=0"
            ∷ origin now ip
            ∷ codes "s=Nextcloud Talk Telephony Gateway"
            ∷ (codes "c=IN IP4 " ++ ip)
            ∷ codes "t=0 0"
            ∷ media_line port pt
            ∷ ls)
          nothing_found
        ≡ read_lines ls
            (record { conn_ip = ip; port = pos port; payloads = numbers (pt ∷ codes "101" ∷ []) })
  unfolding read_lines has_prefix trim_space trim_left trim_right
  first_lines now pt ls h e =
      let version = read_line-other (codes "v=0") nothing_found refl refl in
      let name =
        read_line-other (codes "s=Nextcloud Talk Telephony Gateway") nothing_found refl refl in
      let connected = read_line-connection ip nothing_found ip_word has_ip in
      let time =
        read_line-other (codes "t=0 0") (record nothing_found { conn_ip = ip }) refl refl in
      ap (λ s. read_lines ls (read_line (media_line port pt) s))
        (ap
            (λ s. after_connection (
              read_line (codes "s=Nextcloud Talk Telephony Gateway") (read_line (origin now ip) s)))
            version
          ∙ ap (λ s. after_connection (read_line (codes "s=Nextcloud Talk Telephony Gateway") s))
              (origin_line now ip nothing_found)
          ∙ ap after_connection name
          ∙ ap (read_line (codes "t=0 0")) connected
          ∙ time)
      ∙ ap (read_lines ls)
          (read_line-media port pt (record nothing_found { conn_ip = ip }) h e in_range)

-- What stands behind the media line is passed over.
abbrev pub last_lines : Text → List Text
last_lines codec =
    codec
    ∷ codes "a=rtpmap:101 telephone-event/8000"
    ∷ codes "a=fmtp:101 0-16"
    ∷ codes "a=ptime:20"
    ∷ codes "a=sendrecv"
    ∷ []
    ∷ []

pub last_lines-other :
    (codec : Text) (s : Found) → read_line codec s ≡ s → read_lines (last_lines codec) s ≡ s
unfolding read_lines has_prefix trim_space trim_left trim_right
last_lines-other codec s e =
    let event = read_line-other (codes "a=rtpmap:101 telephone-event/8000") s refl refl in
    let format = read_line-other (codes "a=fmtp:101 0-16") s refl refl in
    let time = read_line-other (codes "a=ptime:20") s refl refl in
    let send = read_line-other (codes "a=sendrecv") s refl refl in
    let blank = read_line-other [] s refl refl in rw (e, event, format, time, send, blank)
