-- ===== src/Ws.antt =====
-- internal/simplews/simplews.go: RFC 6455 frames of a websocket client.
-- A net.Conn is the bytes sent so far and the bytes still to be received. What the system does
-- on each write (the deadline, the random mask, a write that breaks off) is a value of `Io`.
pub mod Frame
mod Bits
mod Tests
pub mod Read
pub mod Json
pub mod Dial
use talk_telephony_gateway_p.Base.{
  ℕ, zero, suc, ◌+◌, ◌*◌, ◌/◌, ◌%◌, ◌^◌, Bool, true, false, not, ◌&&◌, ◌||◌, List, [], ◌∷◌, ◌++◌,
  Option, none, some, length, take, ltb, leb, ◌==◌, if◌then◌else◌, bit_and, bit_or, bit_xor, Result,
  ok, err, ◌>>=◌, ◌>>◌, guard,
}

-- `out_of_fuel` is no error of the code: a loop of the model that does not end returns it.
pub data WsError : Type 0 where
  out_of_fuel : WsError
  nil_conn deadline_failed random_failed write_failed read_failed closed bad_json : WsError
  frame_too_large : ℕ → WsError

-- `var mask [4]byte`
pub record Mask : Type 0 where
  pub m0 : ℕ
  pub m1 : ℕ
  pub m2 : ℕ
  pub m3 : ℕ

abbrev pub mask_bytes : Mask → List ℕ
mask_bytes m = m.m0 ∷ m.m1 ∷ m.m2 ∷ m.m3 ∷ []

-- A `Write` sends all of its bytes, or the first n of them and then fails.
pub data WriteOutcome : Type 0 where
  all_sent : WriteOutcome
  cut_after : ℕ → WriteOutcome

pub record Io : Type 0 where
  pub deadline_set : Bool
  pub random : Option Mask
  pub header_write : WriteOutcome
  pub payload_write : WriteOutcome

-- `sent` is `none` for the nil connection of `c.conn == nil`. Once the socket is closed, setting a
-- deadline on it fails.
pub record Conn : Type 0 where
  pub is_open : Bool
  pub sent : Option (List ℕ)
  pub received : List ℕ

-- `mask[i%4]`
abbrev pub mask_at : Mask → ℕ → ℕ
mask_at m i =
    if i % 4 == 0 then m.m0 else if i % 4 == 1 then m.m1 else if i % 4 == 2 then m.m2 else m.m3

-- `masked[i] = payload[i] ^ mask[i%4]`, from index i on
pub xor_mask : Mask → ℕ → List ℕ → List ℕ
xor_mask m i [] = []
xor_mask m i (b ∷ bs) = bit_xor b (mask_at m i) ∷ xor_mask m (i + 1) bs

-- `binary.BigEndian.PutUint16` and `PutUint64`: k bytes, the highest first
unfoldable pub put_be : ℕ → ℕ → List ℕ
put_be zero n = []
put_be (suc k) n = (n / 256 ^ k % 256) ∷ put_be k n

-- `binary.BigEndian.Uint16` and `Uint64`
unfoldable pub be_from : ℕ → List ℕ → ℕ
be_from acc [] = acc
be_from acc (b ∷ bs) = be_from (acc * 256 + b) bs

-- The header of `writeFrameLocked` up to the mask. A `len` fits 64 bits.
pub frame_header : ℕ → ℕ → List ℕ
frame_header opcode len =
    bit_or 0x80 (bit_and opcode 0x0f)
    ∷ (if ltb len 126
        then bit_or 0x80 (len % 256) ∷ []
        else if leb len 65535
        then bit_or 0x80 126 ∷ put_be 2 (len % 2 ^ 16)
        else bit_or 0x80 127 ∷ put_be 8 (len % 2 ^ 64))

-- One `Write` of `bytes` behind what is sent already, and whether it failed.
abbrev pub send : WriteOutcome → List ℕ → List ℕ → List ℕ × Bool
send all_sent sent bytes = (sent ++ bytes, true)
send (cut_after n) sent bytes = (sent ++ take n bytes, false)

-- The two writes at the end of `writeFrameLocked`.
abbrev pub write_parts : Io → List ℕ → List ℕ → List ℕ → List ℕ × Result WsError (Unit {0})
write_parts io sent header masked =
    let (s, header_ok) = send io.header_write sent header in
    let (s', payload_ok) = send io.payload_write s masked in
    if header_ok
    then (if payload_ok then (s', ok tt) else (s', err write_failed))
    else (s, err write_failed)

abbrev pub write_random :
    Io → Option Mask → List ℕ → ℕ → List ℕ → List ℕ × Result WsError (Unit {0})
write_random io none sent opcode payload = (sent, err random_failed)
write_random io (some mask) sent opcode payload =
    write_parts io sent (frame_header opcode (length payload) ++ mask_bytes mask)
      (xor_mask mask 0 payload)

abbrev pub write_open :
    Io → Bool → Option (List ℕ) → ℕ → List ℕ → Option (List ℕ) × Result WsError (Unit {0})
write_open io is_open none opcode payload = (none, err nil_conn)
write_open io is_open (some sent) opcode payload =
    if is_open && io.deadline_set
    then (let (s, r) = write_random io io.random sent opcode payload in (some s, r))
    else (some sent, err deadline_failed)

-- `writeFrameLocked`: the connection after the call, and its error.
pub write_frame : Io → Conn → ℕ → List ℕ → Conn × Result WsError (Unit {0})
write_frame io c opcode payload =
    let (s, r) = write_open io c.is_open c.sent opcode payload in (record c { sent = s }, r)

-- `io.ReadFull` of n bytes
pub read_full : ℕ → List ℕ → Result WsError (List ℕ × List ℕ)
read_full zero s = ok ([], s)
read_full (suc n) [] = err read_failed
read_full (suc n) (b ∷ s) = do (bs, rest) ← read_full n s; ok (b ∷ bs, rest)

pub record RawFrame : Type 0 where
  pub fin : Bool
  pub opcode : ℕ
  pub payload : List ℕ

-- The extended length: `case 126`, `case 127`, or the length itself.
pub read_length : ℕ → List ℕ → Result WsError (ℕ × List ℕ)
read_length len s =
    if len == 126
    then (do (ext, r) ← read_full 2 s; ok (be_from 0 ext, r))
    else if len == 127
    then (do (ext, r) ← read_full 8 s; ok (be_from 0 ext, r))
    else ok (len, s)

abbrev pub as_mask : List ℕ → Mask
as_mask (a ∷ b ∷ c ∷ d ∷ _) = record { m0 = a; m1 = b; m2 = c; m3 = d }
as_mask _ = record { m0 = 0; m1 = 0; m2 = 0; m3 = 0 }

-- The payload, unmasked if the frame is masked.
pub read_payload : Bool → ℕ → List ℕ → Result WsError (List ℕ × List ℕ)
read_payload true len s = do
  (mask, r) ← read_full 4 s
  (payload, r') ← read_full len r
  ok (xor_mask (as_mask mask) 0 payload, r')
read_payload false len s = read_full len s

abbrev pub max_frame : ℕ
max_frame = 16 * 1024 * 1024

-- One round of the loop of `readMessage`, up to the switch on the opcode.
pub read_frame : List ℕ → Result WsError (RawFrame × List ℕ)
read_frame [] = err read_failed
read_frame (_ ∷ []) = err read_failed
read_frame (h0 ∷ h1 ∷ s) = do
  (len, r) ← read_length (bit_and h1 0x7f) s
  guard (leb len max_frame) (frame_too_large len)
  (payload, r') ← read_payload (not (bit_and h1 0x80 == 0)) len r
  ok (record { fin = not (bit_and h0 0x80 == 0); opcode = bit_and h0 0x0f; payload = payload }, r')

abbrev pub is_control : ℕ → Bool
is_control opcode = opcode == 0x8 || opcode == 0x9 || opcode == 0xA

-- The loop of `readMessage`, with the opcode and the message so far. Each round takes two bytes
-- at least, so more rounds than `length s` are enough.
pub read_loop : ℕ → ℕ → List ℕ → List ℕ → Result WsError (ℕ × List ℕ × List ℕ)
read_loop zero opcode message s = err out_of_fuel
read_loop (suc fuel) opcode message s = do
  (f, rest) ← read_frame s
  let opcode' = if f.opcode == 0 then opcode else f.opcode
  let message' = message ++ f.payload
  let more = read_loop fuel opcode' message' rest
  if is_control f.opcode
      then ok (f.opcode, f.payload, rest)
      else if f.fin
      then ok (opcode', message', rest)
      else more

-- `readMessage`: the opcode, the payload and the bytes that follow.
pub read_message : List ℕ → Result WsError (ℕ × List ℕ × List ℕ)
read_message s = read_loop (suc (length s)) 0 [] s

-- `Close` (a close frame, and the socket is closed), `WritePing` and `WriteJSON` of marshalled data
pub close : Io → Conn → Conn
close io c = record (write_frame io c 0x8 []).0 { is_open = false }

pub write_ping : Io → Conn → List ℕ → Conn × Result WsError (Unit {0})
write_ping io c payload = write_frame io c 0x9 payload

pub write_json : Io → Conn → Option (List ℕ) → Conn × Result WsError (Unit {0})
write_json io c none = (c, err bad_json)
write_json io c (some marshalled) = write_frame io c 0x1 marshalled
