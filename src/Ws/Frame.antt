-- ===== src/Ws/Frame.antt =====
-- The wire form of a frame, written out from RFC 6455, and the two directions of the code against it.
use talk_telephony_gateway_p.Base.{
  ℕ, zero, suc, ◌+◌, ◌/◌, ◌%◌, ◌^◌, ◌≤◌, ◌<◌, ◌≡◌, refl, sym, ap, ◌∙◌, Bool, true, false, List, [],
  ◌∷◌, ◌++◌, Option, none, some, append_assoc, All, length, ltb, leb, if◌then◌else◌, Bool-cases,
  inl, inr, bit_or, bit_xor, arith, ok,
}
use talk_telephony_gateway_p.Base.Bytes.{IsByte, byte-xor_twice}
use talk_telephony_gateway_p.Ws.{
  Mask, mask_at, xor_mask, put_be, be_from, frame_header, read_full, read_length, read_payload,
  read_frame, max_frame, Io, all_sent, write_frame,
}
use talk_telephony_gateway_p.Ws.Bits.{
  first_byte_opcode, first_byte_fin, second_byte_length, second_byte_masked, plain_byte_length,
  plain_byte_unmasked, opcode_masked, be_from-put_be_eight,
}

-- The seven bits of the second byte, and the extended length behind it.
pub wire_code : ℕ → ℕ
wire_code n = if ltb n 126 then n else if leb n 65535 then 126 else 127

pub wire_extension : ℕ → List ℕ
wire_extension n =
    if ltb n 126
    then []
    else if leb n 65535
    then (n / 0x100) ∷ (n % 0x100) ∷ []
    else (n / 0x100000000000000 % 0x100)
      ∷ (n / 0x1000000000000 % 0x100)
      ∷ (n / 0x10000000000 % 0x100)
      ∷ (n / 0x100000000 % 0x100)
      ∷ (n / 0x1000000 % 0x100)
      ∷ (n / 0x10000 % 0x100)
      ∷ (n / 0x100 % 0x100)
      ∷ (n % 0x100)
      ∷ []

-- The key that applies from the next byte on: its four bytes come in turn.
abbrev pub turned : Mask → Mask
turned m = record { m0 = m.m1; m1 = m.m2; m2 = m.m3; m3 = m.m0 }

pub masked : Mask → List ℕ → List ℕ
masked m [] = []
masked m (b ∷ bs) = bit_xor b m.m0 ∷ masked (turned m) bs

abbrev pub wire_payload : Option Mask → List ℕ → List ℕ
wire_payload none p = p
wire_payload (some m) p = m.m0 ∷ m.m1 ∷ m.m2 ∷ m.m3 ∷ masked m p

abbrev pub mask_bit : Option Mask → ℕ → ℕ
mask_bit none code = code
mask_bit (some m) code = bit_or 0x80 code

-- A frame on the wire, masked or not.
unfoldable pub wire_frame : Bool → ℕ → Option Mask → List ℕ → List ℕ
wire_frame fin opcode mask p =
    bit_or (if fin then 0x80 else 0) opcode
    ∷ mask_bit mask (wire_code (length p))
    ∷ (wire_extension (length p) ++ wire_payload mask p)

abbrev pub IsMask : Mask → Type 0
IsMask m = IsByte m.m0 × IsByte m.m1 × IsByte m.m2 × IsByte m.m3

abbrev pub MaskFits : Option Mask → Type 0
MaskFits none = Unit {0}
MaskFits (some m) = IsMask m

pub length-masked : (m : Mask) (p : List ℕ) → length (masked m p) ≡ length p
unfolding masked
length-masked m [] = refl
length-masked m (b ∷ p) = ap suc (length-masked (turned m) p)

-- The key as it stands at an index.
abbrev turned_to : Mask → ℕ → Mask
turned_to m i = record {
  m0 = mask_at m i;
  m1 = mask_at m (i + 1);
  m2 = mask_at m (i + 2);
  m3 = mask_at m (i + 3);
}

mask_at_four : (m : Mask) (i : ℕ) → mask_at m i ≡ mask_at m (i + 4)
mask_at_four m i = ground arith

turned-turned_to : (m : Mask) (i : ℕ) → turned (turned_to m i) ≡ turned_to m (i + 1)
turned-turned_to m i =
    let next : i + 4 ≡ i + 1 + 3 = omega arith in
    let second : i + 2 ≡ i + 1 + 1 = omega arith in
    let third : i + 3 ≡ i + 1 + 2 = omega arith in
    cc (mask_at_four m i, ap (mask_at m) next, ap (mask_at m) second, ap (mask_at m) third)

-- The loop of the code over an index masks with the turning key.
xor_mask-masked : (m : Mask) (i : ℕ) (p : List ℕ) → xor_mask m i p ≡ masked (turned_to m i) p
unfolding xor_mask masked
xor_mask-masked m i [] = refl
xor_mask-masked m i (b ∷ p) =
    ap (λ (t : List ℕ). bit_xor b (mask_at m i) ∷ t)
      (xor_mask-masked m (i + 1) p ∙ ap (λ (k : Mask). masked k p) (sym (turned-turned_to m i)))

masked_lem : (m : Mask) (p : List ℕ) → xor_mask m 0 p ≡ masked m p
masked_lem m p = xor_mask-masked m 0 p

-- Unmasking undoes masking.
masked_twice : (m : Mask) (p : List ℕ) → IsMask m → All IsByte p → masked m (masked m p) ≡ p
unfolding masked
masked_twice m [] hm hp = refl
masked_twice m (b ∷ p) hm (hb, hp) =
    cc (byte-xor_twice b m.m0 hb hm.0, masked_twice (turned m) p (hm.1, hm.2, hm.3, hm.0) hp)

pub read_full-append :
    (n : ℕ) (xs ys : List ℕ) → n ≡ length xs → read_full n (xs ++ ys) ≡ ok (xs, ys)
unfolding read_full
read_full-append zero [] ys e = refl
read_full-append zero (x ∷ xs) ys e = absurd (omega arith)
read_full-append (suc n) [] ys e = absurd (omega arith)
read_full-append (suc n) (x ∷ xs) ys e = rw (read_full-append n xs ys (omega arith))

-- The bytes that the code writes and reads are those of the wire form.
div_one : (n : ℕ) → n / 1 ≡ n
div_one n = omega arith

put_be_two : (n : ℕ) → n ≤ 65535 → put_be 2 (n % 2 ^ 16) ≡ (n / 0x100) ∷ (n % 0x100) ∷ []
unfolding put_be
put_be_two n h =
    let high : n % 2 ^ 16 / 256 % 256 ≡ n / 0x100 = omega arith in
    let low : n % 2 ^ 16 / 1 % 256 ≡ n % 0x100 = omega arith in rw (high, low)

put_be_eight :
    (n : ℕ)
    → n < 2 ^ 64
    → ltb n 126 ≡ false
    → leb n 65535 ≡ false
    → put_be 8 (n % 2 ^ 64) ≡ wire_extension n
unfolding put_be wire_extension
put_be_eight n h long longer =
    let whole : n % 2 ^ 64 ≡ n = omega arith in rw (long, longer, whole, div_one n)

be_from_two : (n : ℕ) → be_from 0 ((n / 0x100) ∷ (n % 0x100) ∷ []) ≡ n
unfolding be_from
be_from_two n = omega arith

be_from_eight :
    (n : ℕ)
    → n < 2 ^ 64
    → ltb n 126 ≡ false
    → leb n 65535 ≡ false
    → be_from 0 (wire_extension n) ≡ n
be_from_eight n h long longer =
    let whole : n % 2 ^ 64 ≡ n = omega arith in
    ap (be_from 0) (sym (put_be_eight n h long longer))
    ∙ ap (λ (t : ℕ). be_from 0 (put_be 8 t)) whole
    ∙ be_from-put_be_eight n h

read_length_eight :
    (n : ℕ) (s : List ℕ)
    → n < 2 ^ 64
    → ltb n 126 ≡ false
    → leb n 65535 ≡ false
    → read_length 127 (wire_extension n ++ s) ≡ ok (n, s)
unfolding read_length
read_length_eight n s h long longer =
    let eight : 8 ≡ length (wire_extension n) = unfold wire_extension in rw (long, longer) in
    rw (read_full-append 8 (wire_extension n) s eight, be_from_eight n h long longer)

read_length-wire :
    (n : ℕ) (s : List ℕ)
    → n < 2 ^ 64
    → read_length (wire_code n) (wire_extension n ++ s) ≡ ok (n, s)
unfolding read_length
read_length-wire n s h = elim (Bool-cases (ltb n 126)) [
  | inl e ↦
      let code : wire_code n ≡ n = unfold wire_code in rw e in
      let ext : wire_extension n ≡ [] = unfold wire_extension in rw e in
      rw (code, ext) (ground arith)
  | inr e ↦ elim (Bool-cases (leb n 65535)) [
    | inl f ↦
        let bytes = (n / 0x100) ∷ (n % 0x100) ∷ [] in
        let code : wire_code n ≡ 126 = unfold wire_code in rw (e, f) in
        let ext : wire_extension n ≡ bytes = unfold wire_extension in rw (e, f) in
        rw (code, ext, read_full-append 2 bytes s refl, be_from_two n)
    | inr f ↦
        let code : wire_code n ≡ 127 = unfold wire_code in rw (e, f) in
        rw code (read_length_eight n s h e f)
  ]
]

wire_code-lt : (n : ℕ) → wire_code n < 128
unfolding wire_code
wire_code-lt n = ground arith

read_payload-wire :
    (mask : Option Mask) (p rest : List ℕ)
    → MaskFits mask
    → All IsByte p
    → read_payload
        (elim mask [ none ↦ false | some m ↦ true ])
        (length p)
        (wire_payload mask p ++ rest)
      ≡ ok (p, rest)
unfolding read_payload
read_payload-wire none p rest hm hp = read_full-append (length p) p rest refl
read_payload-wire (some m) p rest hm hp =
    rw
      (
        read_full-append 4 (m.m0 ∷ m.m1 ∷ m.m2 ∷ m.m3 ∷ []) (masked m p ++ rest) refl,
        read_full-append (length p) (masked m p) rest (sym (length-masked m p)),
      )
      (rw (masked_lem m (masked m p), masked_twice m p hm hp))

leb-true : (a b : ℕ) → a ≤ b → leb a b ≡ true
leb-true a b h = ground arith

-- The reader takes one frame of at most 16 MiB off the front of its input, whatever the length, masked or not, and
-- leaves what follows it.
pub read_frame-wire_frame :
    (fin : Bool) (opcode : ℕ) (mask : Option Mask) (p rest : List ℕ)
    → opcode < 16
    → MaskFits mask
    → All IsByte p
    → length p ≤ max_frame
    → read_frame (wire_frame fin opcode mask p ++ rest)
      ≡ ok (record { fin = fin; opcode = opcode; payload = p }, rest)
unfolding read_frame wire_frame
read_frame-wire_frame fin opcode none p rest ho hm hp hl = rw (
  append_assoc (wire_extension (length p)) p rest,
  first_byte_opcode fin opcode ho,
  first_byte_fin fin opcode ho,
  plain_byte_length (wire_code (length p)) (wire_code-lt (length p)),
  plain_byte_unmasked (wire_code (length p)) (wire_code-lt (length p)),
  read_length-wire (length p) (p ++ rest) (omega arith),
  leb-true _ _ hl,
  read_payload-wire none p rest hm hp,
)
read_frame-wire_frame fin opcode (some m) p rest ho hm hp hl = rw (
  append_assoc (wire_extension (length p)) (wire_payload (some m) p) rest,
  first_byte_opcode fin opcode ho,
  first_byte_fin fin opcode ho,
  second_byte_length (wire_code (length p)) (wire_code-lt (length p)),
  second_byte_masked (wire_code (length p)) (wire_code-lt (length p)),
  read_length-wire (length p) (wire_payload (some m) p ++ rest) (omega arith),
  leb-true _ _ hl,
  read_payload-wire (some m) p rest hm hp,
)

frame_header_lem :
    (opcode n : ℕ)
    → opcode < 16
    → n < 2 ^ 64
    → frame_header opcode n ≡ bit_or 0x80 opcode ∷ bit_or 0x80 (wire_code n) ∷ wire_extension n
unfolding frame_header
frame_header_lem opcode n ho hn = elim (Bool-cases (ltb n 126)) [
  | inl e ↦
      let small : n % 256 ≡ n = ground arith in
      let code : wire_code n ≡ n = unfold wire_code in rw e in
      let ext : wire_extension n ≡ [] = unfold wire_extension in rw e in
      rw (opcode_masked opcode ho, code, ext, e, small)
  | inr e ↦ elim (Bool-cases (leb n 65535)) [
    | inl f ↦
        let code : wire_code n ≡ 126 = unfold wire_code in rw (e, f) in
        let ext : wire_extension n ≡ (n / 0x100) ∷ (n % 0x100) ∷ [] =
          unfold wire_extension in rw (e, f) in
        rw (opcode_masked opcode ho, code, ext, e, f, put_be_two n (ground arith))
    | inr f ↦
        let code : wire_code n ≡ 127 = unfold wire_code in rw (e, f) in
        rw (opcode_masked opcode ho, code, e, f, put_be_eight n hn e f)
  ]
]

-- What `writeFrameLocked` sends when nothing fails.
pub sound_io : Mask → Io
sound_io m = record {
  deadline_set = true;
  random = some m;
  header_write = all_sent;
  payload_write = all_sent;
}

-- On an open connection and when nothing fails, the writer appends exactly the final frame of
-- RFC 6455 for the opcode and the payload: the shortest of the three forms of the length, the four
-- bytes of the key, and the payload masked by these bytes in turn.
pub write_frame-wire_frame :
    (m : Mask) (sent received : List ℕ) (opcode : ℕ) (p : List ℕ)
    → opcode < 16
    → length p < 2 ^ 64
    → write_frame
        (sound_io m)
        (record { is_open = true; sent = some sent; received = received })
        opcode
        p
      ≡ (
        record {
          is_open = true;
          sent = some (sent ++ wire_frame true opcode (some m) p);
          received = received;
        },
        ok tt,
      )
unfolding write_frame sound_io wire_frame
write_frame-wire_frame m sent received opcode p ho hl =
    rw (frame_header_lem opcode (length p) ho hl, masked_lem m p, append_assoc, append_assoc)
