-- ===== src/Ws/Tests.antt =====
-- The WebSocket's theorems at concrete frames.
use talk_telephony_gateway_p.Base.{
  ℕ, ◌≡◌, ◌≢◌, refl, true, false, List, [], ◌∷◌, ◌++◌, Option, none, some, ok, err, arith, ◌+◌,
  take,
}
use talk_telephony_gateway_p.Text.{Text, codes, equal_fold, to_lower, text_eq}
use talk_telephony_gateway_p.Ws.{
  Mask, out_of_fuel, read_message, write_frame, read_loop, write_ping, write_json,
}
use talk_telephony_gateway_p.Ws.Frame.{wire_frame, sound_io, write_frame-wire_frame}
use talk_telephony_gateway_p.Ws.Read.{
  Sendable, wire_message, read_loop_fuel, read_message-wire_message,
}
use talk_telephony_gateway_p.Ws.Json.{
  read_json, wire_pings, wire_pongs, connected, decoded, read_json-pings, read_json_loses_message,
}
use talk_telephony_gateway_p.Ws.Dial.{
  Url, HttpResponse, World, dial, check_response, expected_accept, dial_port, dial-accepted,
  upgrade_request, Carries, websocket_guid, request_path,
}

abbrev mask : Mask
mask = record { m0 = 1; m1 = 2; m2 = 3; m3 = 250 }

abbrev hello : List ℕ
hello = 104 ∷ 105 ∷ []

abbrev world : List ℕ
world = 33 ∷ []

hello-Sendable : Sendable (some mask) hello
hello-Sendable = record {
  mask_fits = (omega arith, omega arith, omega arith, omega arith);
  bytes = (omega arith, (omega arith, tt));
  short = omega arith;
}

world-Sendable : Sendable none world
world-Sendable = record { mask_fits = tt; bytes = (omega arith, tt); short = omega arith }

write_frame-wire_frame_example :
    write_frame (sound_io mask) (connected world []) 1 hello
    ≡ (connected (world ++ wire_frame true 1 (some mask) hello) [], ok tt)
write_frame-wire_frame_example =
    write_frame-wire_frame mask world [] 1 hello (omega arith) (omega arith)

read_loop_fuel_example :
    (read_loop 3 0 [] hello ≢ err out_of_fuel)
    × (read_loop (3 + 4) 0 [] hello ≡ read_loop 3 0 [] hello)
read_loop_fuel_example = read_loop_fuel 3 4 0 [] hello (omega arith)

read_message-wire_message_example :
    read_message (wire_message 1 ((some mask, hello) ∷ (none, world) ∷ []) ++ hello)
    ≡ ok (1, hello ++ (world ++ []), hello)
read_message-wire_message_example =
    read_message-wire_message 1 (some mask) hello ((none, world) ∷ []) hello (omega arith)
      hello-Sendable (world-Sendable, tt)

abbrev first_byte : List ℕ → Option ℕ
first_byte [] = none
first_byte (c ∷ s) = some c

read_json-pings_example :
    read_json first_byte
      (λ k. sound_io mask)
      (connected []
        (wire_pings ((none, world) ∷ []) ++ (wire_message 1 ((some mask, hello) ∷ []) ++ world)))
    ≡ (
      connected ([] ++ wire_pongs (λ k. mask) 0 ((none, world) ∷ [])) world,
      decoded (first_byte (hello ++ [])),
    )
read_json-pings_example =
    read_json-pings first_byte (λ k. mask) ((none, world) ∷ []) [] world (some mask) hello []
      (world-Sendable, tt) hello-Sendable tt

read_json_loses_message_example :
    read_json first_byte
      (λ k. sound_io mask)
      (connected [] (
        wire_frame false 1 (some mask) hello
        ++ (wire_frame true 9 none world
            ++ (wire_message 0 ((none, world) ∷ [])
                ++ (wire_message 1 ((none, world) ∷ []) ++ [])))))
    ≡ (
      connected ([] ++ wire_frame true 10 (some mask) world) [],
      decoded (first_byte (world ++ [])),
    )
read_json_loses_message_example =
    read_json_loses_message first_byte (λ k. mask) [] [] (some mask) none none none hello world
      world world hello-Sendable world-Sendable world-Sendable world-Sendable

abbrev url : Url
url = record {
  scheme = codes "wss";
  hostname = codes "hpb";
  port = [];
  host = codes "hpb";
  escaped_path = codes "/spreed";
  raw_query = [];
}

abbrev answer : HttpResponse
answer = record { status_code = 101; upgrade = codes "WebSocket"; accept = 7 ∷ 7 ∷ websocket_guid }

-- A world in which base64 is the identity and SHA-1 keeps its input.
abbrev calm : World
calm = record {
  parsed = some url;
  tcp_connects = λ h p. true;
  tls_accepts = true;
  random_key = some (7 ∷ 7 ∷ []);
  request_sent = true;
  response = some answer;
}

calm_lem : (dial (λ s. s) (λ s. s) calm []).outcome ≡ ok tt
unfolding dial check_response expected_accept dial_port equal_fold to_lower text_eq
calm_lem = refl

dial-accepted_example :
    (u : Url) × (bytes : Text) × (resp : HttpResponse) × (calm.parsed ≡ some u)
    × (calm.random_key ≡ some bytes)
    × (calm.response ≡ some resp)
    × (resp.status_code ≡ 101)
    × (equal_fold resp.upgrade (codes "websocket") ≡ true)
    × (resp.accept ≡ bytes ++ websocket_guid)
    × ((dial (λ s. s) (λ s. s) calm []).request ≡ some (upgrade_request u bytes []))
    × Carries bytes (upgrade_request u bytes [])
dial-accepted_example = dial-accepted (λ s. s) (λ s. s) calm [] calm_lem

write_ping_test :
    write_ping (sound_io mask) (connected [] []) hello
    ≡ write_frame (sound_io mask) (connected [] []) 0x9 hello
unfolding write_ping
write_ping_test = refl

write_json_test :
    write_json (sound_io mask) (connected [] []) (some hello)
    ≡ write_frame (sound_io mask) (connected [] []) 0x1 hello
unfolding write_json
write_json_test = refl

upgrade_request_test : take 20 (upgrade_request url hello []) ≡ codes "GET /spreed HTTP/1.1"
unfolding upgrade_request request_path
upgrade_request_test = refl
