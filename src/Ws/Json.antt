-- ===== src/Ws/Json.antt =====
-- `ReadJSON`: the loop over messages that answers pings. The decoder of JSON is a parameter, and
-- the n-th answer meets the n-th value of `ios`.
use talk_telephony_gateway_p.Base.{
  ℕ, zero, suc, ◌+◌, ◌^◌, ◌≤◌, ◌<◌, ◌≡◌, refl, sym, ap, ◌∙◌, true, false, List, [], ◌∷◌, ◌++◌,
  Option, none, some, append_assoc, append-nil, length, length-append, ◌==◌, if◌then◌else◌, arith,
  Result, ok, err,
}
use talk_telephony_gateway_p.Ws.{
  Mask, Io, Conn, WsError, out_of_fuel, closed, bad_json, read_message, write_frame,
}
use talk_telephony_gateway_p.Ws.Frame.{wire_frame, sound_io, write_frame-wire_frame}
use talk_telephony_gateway_p.Ws.Read.{
  Sendable, AllSendable, wire_message, joined, read_message-wire_message, read_message_control,
  read_message_interleaved, wire_frame-two,
}

-- `return json.Unmarshal(payload, v)`
abbrev pub decoded : {V : Type 0} → Option V → Result WsError V
decoded none = err bad_json
decoded (some v) = ok v

module _ {V : Type 0} (unmarshal : List ℕ → Option V) (ios : ℕ → Io) where
  -- The fuel counts messages, which take two bytes each at least.
  pub read_json_loop : ℕ → ℕ → Conn → Conn × Result WsError V
  read_json_loop zero n c = (c, err out_of_fuel)
  read_json_loop (suc fuel) n c = elim (read_message c.received) [
    | err e ↦ (c, err e)
    | ok (opcode, payload, rest) ↦
        let c' = record c { received = rest } in
        let (c'', written) = write_frame (ios n) c' 0xA payload in
        let after_pong = read_json_loop fuel (n + 1) c'' in
        let skipped = read_json_loop fuel n c' in
        if opcode == 0x1
        then (c', decoded (unmarshal payload))
        else if opcode == 0x8
        then (c', err closed)
        else if opcode == 0x9
        then (elim written [ ok _ ↦ after_pong | err e ↦ (c'', err e) ])
        else skipped
  ]

  pub read_json : Conn → Conn × Result WsError V
  read_json c = read_json_loop (suc (length c.received)) 0 c

abbrev pub wire_pings : List (Option Mask × List ℕ) → List ℕ
wire_pings [] = []
wire_pings ((m, q) ∷ ps) = wire_frame true 0x9 m q ++ wire_pings ps

-- The pongs for a list of pings, with the masks drawn from the n-th on.
abbrev pub wire_pongs : (ℕ → Mask) → ℕ → List (Option Mask × List ℕ) → List ℕ
wire_pongs masks n [] = []
wire_pongs masks n ((m, q) ∷ ps) =
    wire_frame true 0xA (some (masks n)) q ++ wire_pongs masks (n + 1) ps

abbrev pub connected : List ℕ → List ℕ → Conn
connected sent received = record { is_open = true; sent = some sent; received = received }

pings_fuel :
    (ps : List (Option Mask × List ℕ)) (rest : List ℕ) → length ps ≤ length (wire_pings ps ++ rest)
pings_fuel [] rest = omega arith
pings_fuel ((m, q) ∷ ps) rest = rw (append_assoc (wire_frame true 0x9 m q) (wire_pings ps) rest) (
    omega (
      arith,
      pings_fuel ps rest,
      wire_frame-two true 0x9 m q,
      length-append (wire_frame true 0x9 m q) (wire_pings ps ++ rest),
    ))

two_below : (n : ℕ) → 2 ≤ n → (k : ℕ) × (n ≡ suc (suc k))
two_below zero h = absurd (omega arith)
two_below (suc zero) h = absurd (omega arith)
two_below (suc (suc k)) h = (k, refl)

Sendable-fits : {m : Option Mask} {p : List ℕ} → Sendable m p → length p < 2 ^ 64
Sendable-fits s = omega (arith, s.short)

module _ {V : Type 0} (unmarshal : List ℕ → Option V) (masks : ℕ → Mask) where
  abbrev loop : ℕ → ℕ → Conn → Conn × Result WsError V
  loop = read_json_loop unmarshal (λ k. sound_io (masks k))

  -- One round on a text message, on a ping and on the end of a message that lost its beginning.
  read_json_loop_text :
      (fuel n : ℕ) (sent received payload rest : List ℕ)
      → read_message received ≡ ok (0x1, payload, rest)
      → loop (suc fuel) n (connected sent received)
        ≡ (connected sent rest, decoded (unmarshal payload))
  unfolding read_json_loop
  read_json_loop_text fuel n sent received payload rest e = rw (e, read_json_loop)

  read_json_loop_ping :
      (fuel n : ℕ) (sent received payload rest : List ℕ)
      → read_message received ≡ ok (0x9, payload, rest)
      → length payload < 2 ^ 64
      → loop (suc fuel) n (connected sent received)
        ≡ loop fuel (n + 1) (connected (sent ++ wire_frame true 0xA (some (masks n)) payload) rest)
  unfolding read_json_loop
  read_json_loop_ping fuel n sent received payload rest e h =
      let written = write_frame-wire_frame (masks n) sent rest 0xA payload (omega arith) h in
      rw (e, written, read_json_loop)
        (ap (λ (t : Conn × Result WsError (Unit {0})). loop fuel (n + 1) t.0) written)

  read_json_loop_skip :
      (fuel n : ℕ) (sent received payload rest : List ℕ)
      → read_message received ≡ ok (0x0, payload, rest)
      → loop (suc fuel) n (connected sent received) ≡ loop fuel n (connected sent rest)
  unfolding read_json_loop
  read_json_loop_skip fuel n sent received payload rest e = rw (e, read_json_loop)

  read_json_loop-pings :
      (ps : List (Option Mask × List ℕ)) (fuel n : ℕ) (sent rest : List ℕ) (m : Option Mask)
      (p : List ℕ) (fs : List (Option Mask × List ℕ))
      → length ps < fuel
      → AllSendable ps
      → Sendable m p
      → AllSendable fs
      → read_json_loop unmarshal
          (λ k. sound_io (masks k))
          fuel
          n
          (connected sent (wire_pings ps ++ (wire_message 0x1 ((m, p) ∷ fs) ++ rest)))
        ≡ (connected (sent ++ wire_pongs masks n ps) rest, decoded (unmarshal (p ++ joined fs)))
  read_json_loop-pings ps zero n sent rest m p fs lt hs s h = absurd (omega arith)
  read_json_loop-pings [] (suc fuel) n sent rest m p fs lt hs s h =
      read_json_loop_text fuel n sent _ _ rest
        (read_message-wire_message 0x1 m p fs rest (omega arith) s h)
      ∙ ap (λ (t : List ℕ). (connected t rest, decoded (unmarshal (p ++ joined fs))))
          (sym (append-nil sent))
  read_json_loop-pings ((m', q) ∷ ps) (suc fuel) n sent rest m p fs lt (s', hs) s h =
      let after = wire_message 0x1 ((m, p) ∷ fs) ++ rest in
      let pong = wire_frame true 0xA (some (masks n)) q in
      ap (λ (t : List ℕ). loop (suc fuel) n (connected sent t))
        (append_assoc (wire_frame true 0x9 m' q) (wire_pings ps) after)
      ∙ read_json_loop_ping fuel n sent _ q _
          (read_message_control 0x9 m' q (wire_pings ps ++ after) refl s') (Sendable-fits s')
      ∙ read_json_loop-pings ps fuel (n + 1) (sent ++ pong) rest m p fs (omega arith) hs s h
      ∙ ap (λ (t : List ℕ). (connected t rest, decoded (unmarshal (p ++ joined fs))))
          (append_assoc sent pong (wire_pongs masks (n + 1) ps))

  -- With writes that succeed and no frame above 16 MiB, before a text message `ReadJSON` answers each ping, in order, by a masked pong with the same
  -- payload, and then decodes the joined payloads of the message and leaves what follows it.
  pub read_json-pings :
      (ps : List (Option Mask × List ℕ)) (sent rest : List ℕ) (m : Option Mask) (p : List ℕ)
      (fs : List (Option Mask × List ℕ))
      → AllSendable ps
      → Sendable m p
      → AllSendable fs
      → read_json unmarshal
          (λ k. sound_io (masks k))
          (connected sent (wire_pings ps ++ (wire_message 0x1 ((m, p) ∷ fs) ++ rest)))
        ≡ (connected (sent ++ wire_pongs masks 0 ps) rest, decoded (unmarshal (p ++ joined fs)))
  unfolding read_json
  read_json-pings ps sent rest m p fs hs s h =
      read_json_loop-pings ps _ 0 sent rest m p fs
        (omega (arith, pings_fuel ps (wire_message 0x1 ((m, p) ∷ fs) ++ rest))) hs s h

  -- With writes that succeed, a ping between the two fragments of a text message makes `ReadJSON` lose that message: it
  -- answers the ping, skips the last fragment, and returns the next text message instead.
  pub read_json_loses_message :
      (sent rest : List ℕ) (m m' m'' n : Option Mask) (p q r next : List ℕ)
      → Sendable m p
      → Sendable m' q
      → Sendable m'' r
      → Sendable n next
      → read_json unmarshal
          (λ k. sound_io (masks k))
          (connected sent (
            wire_frame false 0x1 m p
            ++ (wire_frame true 0x9 m' q
                ++ (wire_message 0x0 ((m'', r) ∷ [])
                    ++ (wire_message 0x1 ((n, next) ∷ []) ++ rest)))))
        ≡ (
          connected (sent ++ wire_frame true 0xA (some (masks 0)) q) rest,
          decoded (unmarshal (next ++ [])),
        )
  unfolding read_json
  read_json_loses_message sent rest m m' m'' n p q r next s s' s'' sn =
      let last = wire_message 0x1 ((n, next) ∷ []) ++ rest in
      let tail = wire_message 0x0 ((m'', r) ∷ []) ++ last in
      let pong = wire_frame true 0xA (some (masks 0)) q in
      let start = wire_frame false 0x1 m p ++ (wire_frame true 0x9 m' q ++ tail) in
      let (k, e) = two_below (length start) (
        omega (
          arith,
          length-append (wire_frame false 0x1 m p) (wire_frame true 0x9 m' q ++ tail),
          wire_frame-two false 0x1 m p,
        )) in
      ap (λ (t : ℕ). loop (suc t) 0 (connected sent start)) e
      ∙ read_json_loop_ping (suc (suc k)) 0 sent start q tail
          (read_message_interleaved 0x1 0x9 m m' p q tail (omega arith) refl s s')
          (Sendable-fits s')
      ∙ read_json_loop_skip (suc k) (0 + 1) (sent ++ pong) tail (r ++ []) last
          (read_message-wire_message 0x0 m'' r [] last (omega arith) s'' tt)
      ∙ read_json_loop_text k (0 + 1) (sent ++ pong) last (next ++ []) rest
          (read_message-wire_message 0x1 n next [] rest (omega arith) sn tt)
