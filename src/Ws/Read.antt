-- ===== src/Ws/Read.antt =====
-- `readMessage`: fragments are put together, control frames come alone, and the loop ends.
use talk_telephony_gateway_p.Base.{
  ℕ, zero, suc, ◌+◌, ◌≤◌, ◌<◌, ◌≡◌, ◌≢◌, refl, ap, ◌∙◌, Bool, true, false, not, List, [], ◌∷◌, ◌++◌,
  Option, append_assoc, append-nil, All, length, length-append, ◌==◌, if◌then◌else◌, inl, inr,
  bit_and, arith, ok, err, Result-cases,
}
use talk_telephony_gateway_p.Base.Bytes.{IsByte}
use talk_telephony_gateway_p.Ws.{
  Mask, read_full, read_length, read_payload, read_frame, read_loop, read_message, RawFrame,
  max_frame, is_control, out_of_fuel,
}
use talk_telephony_gateway_p.Ws.Frame.{wire_frame, MaskFits, read_frame-wire_frame}

-- A frame may carry the payload.
pub record Sendable (mask : Option Mask) (p : List ℕ) : Type 0 where
  pub mask_fits : MaskFits mask
  pub bytes : All IsByte p
  pub short : length p ≤ max_frame

abbrev pub is_nil {ℓ} : {A : Type ℓ} → List A → Bool
is_nil [] = true
is_nil (x ∷ xs) = false

-- A message cut into fragments: the first has the opcode, the others 0, the last the fin bit.
abbrev pub wire_message : ℕ → List (Option Mask × List ℕ) → List ℕ
wire_message opcode [] = []
wire_message opcode ((m, p) ∷ fs) = wire_frame (is_nil fs) opcode m p ++ wire_message 0 fs

abbrev pub joined : List (Option Mask × List ℕ) → List ℕ
joined [] = []
joined ((m, p) ∷ fs) = p ++ joined fs

abbrev pub AllSendable : List (Option Mask × List ℕ) → Type 0
AllSendable [] = Unit {0}
AllSendable ((m, p) ∷ fs) = Sendable m p × AllSendable fs

opcode_not_control : (opcode : ℕ) → opcode < 8 → is_control opcode ≡ false
opcode_not_control opcode h = ground arith

read_loop-wire_message :
    (fs : List (Option Mask × List ℕ)) (m : Option Mask) (p : List ℕ) (fuel opcode before : ℕ)
    (message rest : List ℕ)
    → opcode < 8
    → Sendable m p
    → AllSendable fs
    → length fs < fuel
    → read_loop fuel before message (wire_message opcode ((m, p) ∷ fs) ++ rest)
      ≡ ok (if opcode == 0 then before else opcode, message ++ (p ++ joined fs), rest)
unfolding read_loop
read_loop-wire_message fs m p zero opcode before message rest ho s h lt = absurd (omega arith)
read_loop-wire_message [] m p (suc fuel) opcode before message rest ho s h lt = rw (
  append-nil (wire_frame true opcode m p),
  read_frame-wire_frame true opcode m p rest (omega arith) s.mask_fits s.bytes s.short,
  append-nil p,
  opcode_not_control opcode ho,
)
read_loop-wire_message ((m', p') ∷ fs) m p (suc fuel) opcode before message rest ho s (s', h) lt =
    rw
      (
        append_assoc (wire_frame false opcode m p) (wire_message 0 ((m', p') ∷ fs)) rest,
        read_frame-wire_frame false opcode m p (wire_message 0 ((m', p') ∷ fs) ++ rest)
            (omega arith) s.mask_fits s.bytes s.short,
      )
      (rw (opcode_not_control opcode ho) (
        read_loop-wire_message fs m' p' fuel 0 _ (message ++ p) rest (omega arith) s' h
          (omega arith)
        ∙ ap (λ (t : List ℕ). ok (if opcode == 0 then before else opcode, t, rest))
            (append_assoc message p (p' ++ joined fs))))

read_full-shorter :
    (n : ℕ) (s : List ℕ) {xs r : List ℕ} → read_full n s ≡ ok (xs, r) → length s ≡ n + length r
unfolding read_full
read_full-shorter zero s h = ground arith
read_full-shorter (suc n) [] h = cc
read_full-shorter (suc n) (b ∷ s) h = elim (Result-cases (read_full n s)) [
  | inl ((bs, r), e) ↦ ground (arith, read_full-shorter n s e)
  | inr (x, e) ↦ cc
]

read_length-shorter :
    (len : ℕ) (s : List ℕ) {n : ℕ} {r : List ℕ}
    → read_length len s ≡ ok (n, r)
    → length r ≤ length s
unfolding read_length
read_length-shorter len s h = elim (Result-cases (read_full 2 s)) [
  | inl ((x2, r2), e2) ↦ elim (Result-cases (read_full 8 s)) [
    | inl ((x8, r8), e8) ↦ ground (arith, read_full-shorter 2 s e2, read_full-shorter 8 s e8)
    | inr (_, e8) ↦ ground (arith, read_full-shorter 2 s e2)
  ]
  | inr (_, e2) ↦ elim (Result-cases (read_full 8 s)) [
    | inl ((x8, r8), e8) ↦ ground (arith, read_full-shorter 8 s e8)
    | inr (_, e8) ↦ ground arith
  ]
]

read_payload-shorter :
    (masked : Bool) (len : ℕ) (s : List ℕ) {p r : List ℕ}
    → read_payload masked len s ≡ ok (p, r)
    → length r ≤ length s
unfolding read_payload
read_payload-shorter false len s h = omega (arith, read_full-shorter len s h)
read_payload-shorter true len s h = elim (Result-cases (read_full 4 s)) [
  | inl ((x, r), e) ↦ elim (Result-cases (read_full len r)) [
    | inl ((y, r'), e') ↦ ground (arith, read_full-shorter 4 s e, read_full-shorter len r e')
    | inr (_, e') ↦ ground arith
  ]
  | inr (_, e) ↦ ground arith
]

read_frame-shorter :
    (s : List ℕ) {f : RawFrame} {r : List ℕ} → read_frame s ≡ ok (f, r) → length r < length s
unfolding read_frame
read_frame-shorter [] h = cc
read_frame-shorter (a ∷ []) h = cc
read_frame-shorter (a ∷ b ∷ s) h = elim (Result-cases (read_length (bit_and b 0x7f) s)) [
  | inl ((len, r), e) ↦ elim (Result-cases (read_payload (not (bit_and b 0x80 == 0)) len r)) [
    | inl ((p, r'), e') ↦ ground (arith, read_length-shorter _ s e, read_payload-shorter _ len r e')
    | inr (_, e') ↦ ground arith
  ]
  | inr (_, e) ↦ ground arith
]

suc_add : (a b : ℕ) → suc a + b ≡ suc (a + b)
suc_add a b = omega arith

read_full_no_fuel : (n : ℕ) (s : List ℕ) → read_full n s ≢ err out_of_fuel
unfolding read_full
read_full_no_fuel zero s h = cc
read_full_no_fuel (suc n) [] h = cc
read_full_no_fuel (suc n) (b ∷ s) h = ground (arith, read_full_no_fuel n s)

read_length_no_fuel : (len : ℕ) (s : List ℕ) → read_length len s ≢ err out_of_fuel
unfolding read_length
read_length_no_fuel len s h = ground (arith, read_full_no_fuel 2 s, read_full_no_fuel 8 s)

read_payload_no_fuel :
    (masked : Bool) (len : ℕ) (s : List ℕ) → read_payload masked len s ≢ err out_of_fuel
unfolding read_payload
read_payload_no_fuel false len s h = read_full_no_fuel len s h
read_payload_no_fuel true len s h = elim (Result-cases (read_full 4 s)) [
  | inl ((x, r), e) ↦ ground (arith, read_full_no_fuel len r)
  | inr (_, e) ↦ ground (arith, read_full_no_fuel 4 s)
]

-- An error of one round is one of the code.
read_frame_no_fuel : (s : List ℕ) → read_frame s ≢ err out_of_fuel
unfolding read_frame
read_frame_no_fuel [] h = cc
read_frame_no_fuel (a ∷ []) h = cc
read_frame_no_fuel (a ∷ b ∷ s) h = elim (Result-cases (read_length (bit_and b 0x7f) s)) [
  | inl ((len, r), e) ↦ ground (arith, read_payload_no_fuel (not (bit_and b 0x80 == 0)) len r)
  | inr (_, e) ↦ ground (arith, read_length_no_fuel (bit_and b 0x7f) s)
]

-- With more fuel than the input has bytes, the loop of `readMessage` ends by itself: it does not
-- run out of fuel, and still more fuel changes nothing.
pub read_loop_fuel :
    (fuel more opcode : ℕ) (message s : List ℕ)
    → length s < fuel
    → (read_loop fuel opcode message s ≢ err out_of_fuel)
      × (read_loop (fuel + more) opcode message s ≡ read_loop fuel opcode message s)
unfolding read_loop
read_loop_fuel zero more opcode message s h = absurd (omega arith)
read_loop_fuel (suc fuel) more opcode message s h = elim (Result-cases (read_frame s)) [
  | inl ((f, rest), e) ↦
      let ih =
        read_loop_fuel fuel more (if f.opcode == 0 then opcode else f.opcode) (message ++ f.payload)
          rest (omega (arith, read_frame-shorter s e)) in
      rw (suc_add fuel more, e, ih.1) (λ k. ground (arith, ih.0, k), refl)
  | inr (x, e) ↦ rw (suc_add fuel more, e) (λ k. read_frame_no_fuel s (ground (arith, e, k)), refl)
]

pub wire_frame-two :
    (fin : Bool) (opcode : ℕ) (m : Option Mask) (p : List ℕ)
    → 2 ≤ length (wire_frame fin opcode m p)
unfolding wire_frame
wire_frame-two fin opcode m p = omega arith

fragments_fuel :
    (opcode : ℕ) (m : Option Mask) (p : List ℕ) (fs : List (Option Mask × List ℕ)) (rest : List ℕ)
    → length fs < length (wire_message opcode ((m, p) ∷ fs) ++ rest)
fragments_fuel opcode m p [] rest = omega (
  arith,
  length-append (wire_frame true opcode m p ++ []) rest,
  wire_frame-two true opcode m p,
  length-append (wire_frame true opcode m p) [],
)
fragments_fuel opcode m p ((m', p') ∷ fs) rest =
    rw (append_assoc (wire_frame false opcode m p) (wire_message 0 ((m', p') ∷ fs)) rest) (
      omega (
        arith,
        fragments_fuel 0 m' p' fs rest,
        length-append (wire_frame false opcode m p) (wire_message 0 ((m', p') ∷ fs) ++ rest),
        wire_frame-two false opcode m p,
      ))

fuel_suc : {a b : ℕ} → a < b → a < suc b
fuel_suc h = omega arith

-- A data message that comes whole or in fragments, each of them masked or not and none above
-- 16 MiB, is read as one: with the
-- opcode of the first frame, the payloads joined, and what follows the last frame left alone.
pub read_message-wire_message :
    (opcode : ℕ) (m : Option Mask) (p : List ℕ) (fs : List (Option Mask × List ℕ)) (rest : List ℕ)
    → opcode < 8
    → Sendable m p
    → AllSendable fs
    → read_message (wire_message opcode ((m, p) ∷ fs) ++ rest) ≡ ok (opcode, p ++ joined fs, rest)
unfolding read_message
read_message-wire_message opcode m p fs rest ho s h =
    rw
      (read_loop-wire_message fs m p _ opcode 0 [] rest ho s h
        (fuel_suc (fragments_fuel opcode m p fs rest)))
      (ground arith)

read_loop_control :
    (fuel opcode before : ℕ) (m : Option Mask) (message q rest : List ℕ)
    → 0 < fuel
    → is_control opcode ≡ true
    → Sendable m q
    → read_loop fuel before message (wire_frame true opcode m q ++ rest) ≡ ok (opcode, q, rest)
unfolding read_loop
read_loop_control zero opcode before m message q rest h c s = absurd (omega arith)
read_loop_control (suc fuel) opcode before m message q rest h c s =
    rw (read_frame-wire_frame true opcode m q rest (ground arith) s.mask_fits s.bytes s.short, c)

-- A control frame is delivered at once, also between two fragments: what the fragments before it
-- brought is dropped.
pub read_message_control :
    (opcode : ℕ) (m : Option Mask) (q rest : List ℕ)
    → is_control opcode ≡ true
    → Sendable m q
    → read_message (wire_frame true opcode m q ++ rest) ≡ ok (opcode, q, rest)
unfolding read_message
read_message_control opcode m q rest c s =
    read_loop_control _ opcode 0 m [] q rest (omega arith) c s

pub frame_ne_empty :
    (opcode : ℕ) (m : Option Mask) (p rest : List ℕ)
    → 0 < length (wire_frame false opcode m p ++ rest)
frame_ne_empty opcode m p rest =
    omega (arith, length-append (wire_frame false opcode m p) rest, wire_frame-two false opcode m p)

pub read_message_interleaved :
    (opcode control : ℕ) (m m' : Option Mask) (p q rest : List ℕ)
    → opcode < 8
    → is_control control ≡ true
    → Sendable m p
    → Sendable m' q
    → read_message (wire_frame false opcode m p ++ (wire_frame true control m' q ++ rest))
      ≡ ok (control, q, rest)
unfolding read_message read_loop
read_message_interleaved opcode control m m' p q rest ho c s s' =
    rw
      (
        read_frame-wire_frame false opcode m p (wire_frame true control m' q ++ rest) (omega arith)
            s.mask_fits s.bytes s.short,
        opcode_not_control opcode ho,
      )
      (read_loop_control _ control _ m' p q rest
        (frame_ne_empty opcode m p (wire_frame true control m' q ++ rest)) c s')
