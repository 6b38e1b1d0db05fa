-- ===== src/Bridge/Publish.antt =====
-- `PublishSIPRTP`: an RTP packet of the SIP side becomes a packet of the published track. The RTP
-- parser is a parameter; what the write to the track answers comes with the packet.
use talk_telephony_gateway_p.Base.{
  ℕ, ◌≤◌, ◌≡◌, ◌≢◌, ◌⊎◌, refl, Bool, true, false, not, ◌&&◌, List, [], ◌∷◌, ◌++◌, Option, none,
  some, length, ltb, ◌==◌, if◌then◌else◌, arith, All, All-append, Bool-cases, Option-cases, inl,
  inr,
}
use talk_telephony_gateway_p.Text.{Text}
use talk_telephony_gateway_p.Media.{decode_g711, encode_g711}
use talk_telephony_gateway_p.Media.Transcode.{
  AreNear, decode-encode_g711-AreNear, decode_g711-IsInt16, length-encode_g711, length-decode_g711,
}
use talk_telephony_gateway_p.Base.Bytes.{IsByte}
use talk_telephony_gateway_p.Bridge.{Packet, bump}

-- `track` tells whether `publisherTrack` is set; `published` lists what was written to it.
pub record Publisher : Type 0 where
  pub track : Bool
  pub publisher_pt : ℕ
  pub rx_sip : ℕ
  pub tx_webrtc : ℕ
  pub published : List Packet

-- What `WriteRTP` answers; `closed_pipe` is `io.ErrClosedPipe`.
pub data TrackWrite : Type 0 where
  written closed_pipe write_failed : TrackWrite

-- The packet as it is published.
pub with_payload_type : ℕ → Packet → Packet
with_payload_type pt p = if p.payload_type == pt then p else record p {
  payload_type = pt;
  payload = encode_g711 (decode_g711 p.payload p.payload_type) pt;
}

pub write_track : TrackWrite → Packet → Publisher → Publisher × Bool
write_track written p b =
    (record b { tx_webrtc = bump b.tx_webrtc; published = b.published ++ p ∷ [] }, true)
write_track closed_pipe p b = (record b { tx_webrtc = bump b.tx_webrtc }, true)
write_track write_failed p b = (b, false)

-- Behind the test whether there is a track.
pub relay_packet : Bool → TrackWrite → Packet → Publisher → Publisher × Bool
relay_packet false outcome p b = (b, true)
relay_packet true outcome p b = write_track outcome (with_payload_type b.publisher_pt p) b

pub publish_packet : TrackWrite → Packet → Publisher → Publisher × Bool
publish_packet outcome p b =
    if not (p.payload_type == 0) && not (p.payload_type == 8)
    then (b, true)
    else let c = record b { rx_sip = bump b.rx_sip } in relay_packet c.track outcome p c

-- The state after a packet, and whether the result is nil.
pub publish_sip_rtp : (Text → Option Packet) → Text → TrackWrite → Publisher → Publisher × Bool
publish_sip_rtp unmarshal raw outcome b =
    let packet = unmarshal raw in
    if ltb (length raw) 12
    then (b, true)
    else elim packet [ none ↦ (b, true) | some p ↦ publish_packet outcome p b ]

-- Packets one after another.
pub publish_all : (Text → Option Packet) → List (Text × TrackWrite) → Publisher → Publisher
publish_all unmarshal [] b = b
publish_all unmarshal ((raw, outcome) ∷ rest) b =
    publish_all unmarshal rest (publish_sip_rtp unmarshal raw outcome b).0

-- The same packet of a stream with another payload of the same duration.
pub Carries : ℕ → Packet → Packet → Type 0
Carries pt p q =
    (q.payload_type ≡ pt)
    × (q.sequence_number ≡ p.sequence_number)
    × (q.timestamp ≡ p.timestamp)
    × (q.ssrc ≡ p.ssrc)
    × (length q.payload ≡ length p.payload)

with_payload_type-Carries : (pt : ℕ) (p : Packet) → Carries pt p (with_payload_type pt p)
unfolding with_payload_type Carries
with_payload_type-Carries pt p = ground (
  arith,
  length-encode_g711 (decode_g711 p.payload p.payload_type) pt,
  length-decode_g711 p.payload p.payload_type,
)

-- What is heard of the second packet is what is heard of the first: the very payload where the codec
-- is the same, and otherwise near samples, decoded by the codec that each packet names.
pub SoundsLike : Packet → Packet → Type 0
SoundsLike p q =
    ((q.payload_type ≡ p.payload_type) × (q.payload ≡ p.payload))
    ⊎ ((q.payload_type ≢ p.payload_type)
        × AreNear (decode_g711 p.payload p.payload_type) (decode_g711 q.payload q.payload_type))

with_payload_type-SoundsLike :
    (pt : ℕ) (p : Packet) → All IsByte p.payload → SoundsLike p (with_payload_type pt p)
unfolding SoundsLike with_payload_type
with_payload_type-SoundsLike pt p h = elim (Bool-cases (p.payload_type == pt)) [
  | inl e ↦ inl (rw e (refl, refl))
  | inr e ↦ inr (
      rw e (
        λ k. ground (arith, e, k),
        decode-encode_g711-AreNear _ pt (decode_g711-IsInt16 p.payload p.payload_type h),
      ))
]

unfoldable pub IsAudio : Packet → Type 0
IsAudio p = (p.payload_type ≡ 0) ⊎ (p.payload_type ≡ 8)

-- If there is a track and its write succeeds, a G.711 packet of at least twelve bytes is published
-- as one packet of the published codec, with the same sequence number, timestamp, source and number
-- of samples; its payload is the same if the codec is, and otherwise it is decoded, by the published
-- codec, to samples near those of the packet: within 8 and a 32nd in magnitude, and of the same sign
-- or zero.
pub publish_sip_rtp-Carries :
    (unmarshal : Text → Option Packet) (raw : Text) (p : Packet) (b : Publisher)
    → 12 ≤ length raw
    → unmarshal raw ≡ some p
    → All IsByte p.payload
    → IsAudio p
    → b.track ≡ true
    → (q : Packet) × Carries b.publisher_pt p q
      × SoundsLike p q
      × ((publish_sip_rtp unmarshal raw written b).0.published ≡ b.published ++ q ∷ [])
unfolding publish_sip_rtp publish_packet relay_packet write_track IsAudio
publish_sip_rtp-Carries unmarshal raw p b long parsed bytes audio ready = (
  with_payload_type b.publisher_pt p,
  with_payload_type-Carries b.publisher_pt p,
  with_payload_type-SoundsLike b.publisher_pt p bytes,
  ground (arith, long, parsed, audio, ready),
)

unfoldable pub HasType : ℕ → Packet → Type 0
HasType pt p = p.payload_type ≡ pt

write_track-HasType :
    (outcome : TrackWrite) (pt : ℕ) (p : Packet) (b : Publisher)
    → HasType pt p
    → All (HasType pt) b.published
    → All (HasType pt) (write_track outcome p b).0.published
unfolding write_track
write_track-HasType written pt p b hp h = All-append (HasType pt) b.published (p ∷ []) h (hp, tt)
write_track-HasType closed_pipe pt p b hp h = h
write_track-HasType write_failed pt p b hp h = h

write_track-publisher_pt :
    (outcome : TrackWrite) (p : Packet) (b : Publisher)
    → (write_track outcome p b).0.publisher_pt ≡ b.publisher_pt
unfolding write_track
write_track-publisher_pt written p b = refl
write_track-publisher_pt closed_pipe p b = refl
write_track-publisher_pt write_failed p b = refl

-- Every packet of the track is of the codec the track was offered with.
unfoldable pub IsOneCodec : Publisher → Type 0
IsOneCodec b = All (HasType b.publisher_pt) b.published

relay_packet-IsOneCodec :
    (ready : Bool) (outcome : TrackWrite) (p : Packet) (b : Publisher)
    → IsOneCodec b
    → IsOneCodec (relay_packet ready outcome p b).0
      × ((relay_packet ready outcome p b).0.publisher_pt ≡ b.publisher_pt)
unfolding relay_packet IsOneCodec Carries HasType
relay_packet-IsOneCodec false outcome p b h = (h, refl)
relay_packet-IsOneCodec true outcome p b h =
    let q = with_payload_type b.publisher_pt p in
    let hq =
      write_track-HasType outcome b.publisher_pt q b (with_payload_type-Carries b.publisher_pt p).0
        h in
    let kept = write_track-publisher_pt outcome q b in (rw kept hq, kept)

publish_packet-IsOneCodec :
    (outcome : TrackWrite) (p : Packet) (b : Publisher)
    → IsOneCodec b
    → IsOneCodec (publish_packet outcome p b).0
      × ((publish_packet outcome p b).0.publisher_pt ≡ b.publisher_pt)
unfolding publish_packet IsOneCodec
publish_packet-IsOneCodec outcome p b h =
    elim (Bool-cases (not (p.payload_type == 0) && not (p.payload_type == 8))) [
      | inl e ↦ rw e (h, refl)
      | inr e ↦
          rw e (relay_packet-IsOneCodec b.track outcome p (record b { rx_sip = bump b.rx_sip }) h)
    ]

publish_sip_rtp-IsOneCodec :
    (unmarshal : Text → Option Packet) (raw : Text) (outcome : TrackWrite) (b : Publisher)
    → IsOneCodec b
    → IsOneCodec (publish_sip_rtp unmarshal raw outcome b).0
      × ((publish_sip_rtp unmarshal raw outcome b).0.publisher_pt ≡ b.publisher_pt)
unfolding publish_sip_rtp
publish_sip_rtp-IsOneCodec unmarshal raw outcome b h = elim (Bool-cases (ltb (length raw) 12)) [
  | inl e ↦ rw e (h, refl)
  | inr e ↦ elim (Option-cases (unmarshal raw)) [
    | inl f ↦ rw (e, f) (h, refl)
    | inr (p, f) ↦ rw (e, f) (publish_packet-IsOneCodec outcome p b h)
  ]
]

-- If every packet written so far is of the codec that the track was offered with, this stays so
-- whatever arrives from the SIP side and whatever the writes answer.
pub publish_all-IsOneCodec :
    (unmarshal : Text → Option Packet) (arrivals : List (Text × TrackWrite)) (b : Publisher)
    → IsOneCodec b
    → IsOneCodec (publish_all unmarshal arrivals b)
unfolding publish_all
publish_all-IsOneCodec unmarshal [] b h = h
publish_all-IsOneCodec unmarshal ((raw, outcome) ∷ rest) b h =
    publish_all-IsOneCodec unmarshal rest (publish_sip_rtp unmarshal raw outcome b).0
      (publish_sip_rtp-IsOneCodec unmarshal raw outcome b h).0
