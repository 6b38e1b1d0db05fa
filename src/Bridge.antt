-- ===== src/Bridge.antt =====
-- cmd/gateway/rtc_bridge.go: the bridge between the RTP of a SIP call and the WebRTC peers of a
-- Talk room. Each part of the `rtcBridge` record that has operations of its own is a record here.
pub mod Talk
pub mod Publish
pub mod Forward
pub mod Peers
pub mod Reading
pub mod Rtp
mod Tests
use talk_telephony_gateway_p.Base.{ℕ, ◌+◌, ◌%◌, ◌^◌, Bool, not, ◌&&◌}
use talk_telephony_gateway_p.Text.{Text, text_eq, is_empty}

-- `rtcRoomSession`; of the `User` map only the test `User["type"] == "phone"` is read.
pub record RoomSession : Type 0 where
  pub session_id : Text
  pub user_id : Text
  pub is_phone : Bool

-- The gateway's own session in the room, and the virtual session of the phone.
pub record Identity : Type 0 where
  pub self_id : Text
  pub virtual_id : Text

-- A participant, as `handleEvent`, `StartMediaBridge` and `isRealTalkSession` tell one.
unfoldable pub is_participant : Identity → RoomSession → Bool
is_participant own s =
    not (is_empty s.session_id)
    && not (text_eq s.session_id own.self_id)
    && not (text_eq s.session_id own.virtual_id)
    && not s.is_phone

-- The fields of an `rtp.Packet` that the bridge reads or writes.
pub record Packet : Type 0 where
  pub payload_type : ℕ
  pub sequence_number : ℕ
  pub timestamp : ℕ
  pub ssrc : ℕ
  pub payload : Text

-- `Add(1)` on an `atomic.Uint64`
abbrev pub bump : ℕ → ℕ
bump n = (n + 1) % 2 ^ 64
