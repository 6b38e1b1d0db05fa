-- ===== src/Bridge/Forward.antt =====
-- `forwardTalkTrack`: the audio of a Talk track becomes one RTP stream towards the SIP side. What
-- the RTP parser and the Opus decoder answer is a parameter; what the marshaller and the socket
-- answer comes with each packet.
use talk_telephony_gateway_p.Base.{
  ℕ, ◌+◌, ◌%◌, ◌^◌, ◌≡◌, ◌⊎◌, refl, Bool, true, false, List, [], ◌∷◌, ◌++◌, Option, none, some,
  length, if◌then◌else◌, Bool-cases, Option-cases, inl, inr, sym, ap, ◌∙◌,
}
use talk_telephony_gateway_p.Base.Int.{ℤ}
use talk_telephony_gateway_p.Text.{Text, is_empty}
use talk_telephony_gateway_p.Media.{decode_g711, encode_g711, downsample_48_to_8}
use talk_telephony_gateway_p.Media.Transcode.{length-encode_g711}
use talk_telephony_gateway_p.Bridge.{Packet, bump}

-- `forwarded` lists the packets that were sent.
pub record Stream : Type 0 where
  pub sip_pt : ℕ
  pub tx_seq : ℕ
  pub tx_ts : ℕ
  pub tx_ssrc : ℕ
  pub rx_webrtc : ℕ
  pub tx_sip : ℕ
  pub forwarded : List Packet

-- The MIME type of the track, among those the switch names.
pub data Mime : Type 0 where
  pcmu pcma opus other_mime : Mime

-- What `track.Read` answers, and whether the packet made of it can be marshalled and sent.
pub data Arrival : Type 0 where
  read_failed : Arrival
  packet : (raw : Text) (is_marshalled is_sent : Bool) → Arrival

-- The samples at 8 kHz, if there are any.
unfoldable pub samples_of : (Text → Option (List ℤ)) → Mime → Text → Option (List ℤ)
samples_of decode_opus pcmu payload = some (decode_g711 payload 0)
samples_of decode_opus pcma payload = some (decode_g711 payload 8)
samples_of decode_opus opus payload = elim (decode_opus payload) [
  | none ↦ none
  | some pcm48 ↦ some (downsample_48_to_8 pcm48)
]
samples_of decode_opus other_mime payload = none

pub next_packet : Text → Stream → Packet
next_packet payload s = record {
  payload_type = s.sip_pt;
  sequence_number = s.tx_seq;
  timestamp = s.tx_ts;
  ssrc = s.tx_ssrc;
  payload = payload;
}

-- The state after the samples, and whether the loop goes on.
pub send_samples : Bool → Bool → List ℤ → Stream → Stream × Bool
send_samples is_marshalled is_sent pcm8 s =
    let payload = encode_g711 pcm8 s.sip_pt in
    if is_empty payload
    then (s, true)
    else if is_marshalled
    then (if is_sent
        then (
          record s {
            tx_sip = bump s.tx_sip;
            tx_seq = (s.tx_seq + 1) % 2 ^ 16;
            tx_ts = (s.tx_ts + length pcm8 % 2 ^ 32) % 2 ^ 32;
            forwarded = s.forwarded ++ next_packet payload s ∷ [];
          },
          true,
        )
        else (s, false))
    else (s, true)

module _ (unmarshal : Text → Option Packet) (decode_opus : Text → Option (List ℤ))
    (mime : Mime) where
  pub forward_packet : Text → Bool → Bool → Stream → Stream × Bool
  forward_packet raw is_marshalled is_sent s = elim (unmarshal raw) [
    | none ↦ (s, true)
    | some p ↦
        let t = record s { rx_webrtc = bump s.rx_webrtc } in
        elim (samples_of decode_opus mime p.payload) [
          | none ↦ (t, true)
          | some pcm8 ↦ send_samples is_marshalled is_sent pcm8 t
        ]
  ]

  pub forward_loop : List Arrival → Stream → Stream
  forward_loop [] s = s
  forward_loop (read_failed ∷ rest) s = s
  forward_loop (packet raw is_marshalled is_sent ∷ rest) s =
      let (t, goes_on) = forward_packet raw is_marshalled is_sent s in
      let u = forward_loop rest t in if goes_on then u else t

  -- An Opus track needs a decoder.
  pub forward_talk_track : Bool → List Arrival → Stream → Stream
  forward_talk_track has_decoder arrivals s =
      let t = forward_loop arrivals s in elim mime [ opus ↦ if has_decoder then t else s | _ ↦ t ]

-- One RTP stream: the sequence numbers and the timestamps from (seq, ts) to (seq', ts') without
-- a gap, each timestamp later by the number of samples in the packet before.
unfoldable pub IsStream : (pt ssrc seq ts : ℕ) → List Packet → (seq' ts' : ℕ) → Type 0
IsStream pt ssrc seq ts [] seq' ts' = (seq ≡ seq') × (ts ≡ ts')
IsStream pt ssrc seq ts (p ∷ ps) seq' ts' =
    (p.payload_type ≡ pt)
    × (p.ssrc ≡ ssrc)
    × (p.sequence_number ≡ seq)
    × (p.timestamp ≡ ts)
    × IsStream pt ssrc ((seq + 1) % 2 ^ 16) ((ts + length p.payload % 2 ^ 32) % 2 ^ 32) ps seq' ts'

-- The stream that starts at (seq, ts) continues at the state's next number and time.
unfoldable pub Follows : (seq ts : ℕ) → Stream → Type 0
Follows seq ts s = IsStream s.sip_pt s.tx_ssrc seq ts s.forwarded s.tx_seq s.tx_ts

IsStream-snoc :
    (pt ssrc seq ts : ℕ) (ps : List Packet) (seq' ts' : ℕ) (p : Packet)
    → IsStream pt ssrc seq ts ps seq' ts'
    → (p.payload_type ≡ pt) × (p.ssrc ≡ ssrc) × (p.sequence_number ≡ seq') × (p.timestamp ≡ ts')
    → IsStream pt ssrc seq ts
        (ps ++ p ∷ [])
        ((seq' + 1) % 2 ^ 16)
        ((ts' + length p.payload % 2 ^ 32) % 2 ^ 32)
unfolding IsStream
IsStream-snoc pt ssrc seq ts [] seq' ts' p (hs, ht) (a, b, c, d) = (
  a,
  b,
  c ∙ sym hs,
  d ∙ sym ht,
  (
    ap (λ (n : ℕ). (n + 1) % 2 ^ 16) hs,
    ap (λ (n : ℕ). (n + length p.payload % 2 ^ 32) % 2 ^ 32) ht,
  ),
)
IsStream-snoc pt ssrc seq ts (q ∷ ps) seq' ts' p (a, b, c, d, h) g = (
  a,
  b,
  c,
  d,
  IsStream-snoc pt ssrc ((seq + 1) % 2 ^ 16) ((ts + length q.payload % 2 ^ 32) % 2 ^ 32) ps seq' ts'
      p h g,
)

send_samples-Follows :
    (m t : Bool) (pcm8 : List ℤ) (seq ts : ℕ) (s : Stream)
    → Follows seq ts s
    → Follows seq ts (send_samples m t pcm8 s).0
unfolding send_samples Follows next_packet
send_samples-Follows m t pcm8 seq ts s h =
    let next =
      IsStream-snoc s.sip_pt s.tx_ssrc seq ts s.forwarded s.tx_seq s.tx_ts
        (next_packet (encode_g711 pcm8 s.sip_pt) s) h (refl, refl, refl, refl) in
    let sent = rw (length-encode_g711 pcm8 s.sip_pt) at next in
    elim (Bool-cases (is_empty (encode_g711 pcm8 s.sip_pt))) [
      | inl e ↦ rw e h
      | inr e ↦ elim (Bool-cases m) [
        | inr f ↦ rw (e, f) h
        | inl f ↦ elim (Bool-cases t) [ inr g ↦ rw (e, f, g) h | inl g ↦ rw (e, f, g) sent ]
      ]
    ]

decoder_cases :
    (unmarshal : Text → Option Packet) (decode_opus : Text → Option (List ℤ)) (mime : Mime)
    (has_decoder : Bool) (arrivals : List Arrival) (s : Stream)
    → (forward_talk_track unmarshal decode_opus mime has_decoder arrivals s
        ≡ forward_loop unmarshal decode_opus mime arrivals s)
      ⊎ (forward_talk_track unmarshal decode_opus mime has_decoder arrivals s ≡ s)
unfolding forward_talk_track
decoder_cases unmarshal decode_opus opus true arrivals s = inl refl
decoder_cases unmarshal decode_opus opus false arrivals s = inr refl
decoder_cases unmarshal decode_opus pcmu has_decoder arrivals s = inl refl
decoder_cases unmarshal decode_opus pcma has_decoder arrivals s = inl refl
decoder_cases unmarshal decode_opus other_mime has_decoder arrivals s = inl refl

heard-Follows :
    (seq ts : ℕ) (s : Stream)
    → Follows seq ts s
    → Follows seq ts (record s { rx_webrtc = bump s.rx_webrtc })
unfolding Follows
heard-Follows seq ts s h = h

module _ (unmarshal : Text → Option Packet) (decode_opus : Text → Option (List ℤ))
    (mime : Mime) where
  forward_packet-Follows :
      (raw : Text) (m t : Bool) (seq ts : ℕ) (s : Stream)
      → Follows seq ts s
      → Follows seq ts (forward_packet unmarshal decode_opus mime raw m t s).0
  unfolding forward_packet
  forward_packet-Follows raw m t seq ts s h = elim (Option-cases (unmarshal raw)) [
    | inl e ↦ rw (e, forward_packet) h
    | inr (p, e) ↦ elim (Option-cases (samples_of decode_opus mime p.payload)) [
      | inl f ↦ rw (e, f, forward_packet) (heard-Follows seq ts s h)
      | inr (pcm8, f) ↦
          rw (e, f, forward_packet)
            (send_samples-Follows m t pcm8 seq ts (record s { rx_webrtc = bump s.rx_webrtc })
              (heard-Follows seq ts s h))
    ]
  ]

  forward_loop-Follows :
      (arrivals : List Arrival) (seq ts : ℕ) (s : Stream)
      → Follows seq ts s
      → Follows seq ts (forward_loop unmarshal decode_opus mime arrivals s)
  unfolding forward_loop
  forward_loop-Follows [] seq ts s h = h
  forward_loop-Follows (read_failed ∷ rest) seq ts s h = h
  forward_loop-Follows (packet raw m t ∷ rest) seq ts s h =
      let g = forward_packet-Follows raw m t seq ts s h in
      elim (Bool-cases (forward_packet unmarshal decode_opus mime raw m t s).1) [
        | inl e ↦ simp e (
            forward_loop-Follows rest seq ts (forward_packet unmarshal decode_opus mime raw m t s).0
              g)
        | inr e ↦ simp e g
      ]

  -- Whatever a track delivers, what is sent to the SIP side, if it was before, stays one RTP stream of one codec and
  -- source, without a gap in its sequence numbers and with timestamps that count its samples,
  -- both with the wrap of their width.
  pub forward_talk_track-Follows :
      (has_decoder : Bool) (arrivals : List Arrival) (seq ts : ℕ) (s : Stream)
      → Follows seq ts s
      → Follows seq ts (forward_talk_track unmarshal decode_opus mime has_decoder arrivals s)
  forward_talk_track-Follows has_decoder arrivals seq ts s h =
      let g = forward_loop-Follows arrivals seq ts s h in
      elim (decoder_cases unmarshal decode_opus mime has_decoder arrivals s) [
        | inl e ↦ rw e g
        | inr e ↦ rw e h
      ]
