-- ===== src/Ws/Dial.antt =====
-- `Dial`: the opening handshake. What the URL parser, the network, the random source and the HTTP
-- reader answer is a value of `World`; base64 and SHA-1 are parameters.
use talk_telephony_gateway_p.Base.{
  ℕ, ◌≡◌, Bool, true, false, not, ◌&&◌, [], ◌∷◌, ◌++◌, Option, none, some, ◌==◌, if◌then◌else◌,
  arith, Result, ok, err, inl, inr, refl, sym, ap, ◌∙◌, Option-cases, append_assoc,
}
use talk_telephony_gateway_p.Text.{Text, codes, text_eq, equal_fold, is_empty}
use talk_telephony_gateway_p.Text.Laws.{text_eq→eq}

-- The parts of a `url.URL` that `Dial` reads.
pub record Url : Type 0 where
  pub scheme : Text
  pub hostname : Text
  pub port : Text
  pub host : Text
  pub escaped_path : Text
  pub raw_query : Text

pub record HttpResponse : Type 0 where
  pub status_code : ℕ
  pub upgrade : Text
  pub accept : Text

pub record World : Type 0 where
  pub parsed : Option Url
  pub tcp_connects : Text → Text → Bool
  pub tls_accepts : Bool
  pub random_key : Option Text
  pub request_sent : Bool
  pub response : Option HttpResponse

pub data DialError : Type 0 where
  bad_url bad_scheme no_connection no_handshake no_random not_sent no_response : DialError
  not_upgraded bad_upgrade bad_accept : DialError

-- The TCP connection of the call.
pub data Socket : Type 0 where
  unopened open_socket closed_socket : Socket

-- What `Dial` leaves behind: its socket, the request that it sent, and its result.
pub record Dialled : Type 0 where
  pub socket : Socket
  pub request : Option Text
  pub outcome : Result DialError (Unit {0})

abbrev pub websocket_guid : Text
websocket_guid = codes "258EAFA5-E914-47DA-95CA-C5AB0DC85B11"

abbrev crlf : Text
crlf = b'\r' ∷ b'\n' ∷ []

unfoldable pub dial_port : Url → Text
dial_port u =
    if is_empty u.port
    then (if text_eq u.scheme (codes "wss") then codes "443" else codes "80")
    else u.port

unfoldable pub request_path : Url → Text
request_path u =
    (if is_empty u.escaped_path then codes "/" else u.escaped_path)
    ++ (if is_empty u.raw_query then [] else codes "?" ++ u.raw_query)

unfoldable pub upgrade_request : Url → Text → Text → Text
upgrade_request u key user_agent =
    codes "GET "
    ++ (request_path u
        ++ (codes " HTTP/1.1"
            ++ (crlf
                ++ (codes "Host: "
                    ++ (u.host
                        ++ (crlf
                            ++ (codes "Upgrade: websocket"
                                ++ (crlf
                                    ++ (codes "Connection: Upgrade"
                                        ++ (crlf
                                            ++ (codes "Sec-WebSocket-Key: "
                                                ++ (key
                                                    ++ (crlf
                                                        ++ (codes "Sec-WebSocket-Version: 13"
                                                            ++ (crlf
                                                            ++ ((if is_empty user_agent
                                                            then []
                                                            else codes "User-Agent: "
                                                            ++ (user_agent ++ crlf))
                                                            ++ crlf))))))))))))))))

-- The request is a GET that asks for websocket and has a line with the key.
pub record Carries (key request : Text) : Type 0 where
  pub before : Text
  pub after : Text
  pub written :
      request
      ≡ codes "GET "
        ++ (before
            ++ (codes "\r\nUpgrade: websocket\r\nConnection: Upgrade\r\nSec-WebSocket-Key: "
                ++ (key ++ (codes "\r\n" ++ after))))

upgrade_request-Carries :
    (u : Url) (key user_agent : Text) → Carries key (upgrade_request u key user_agent)
unfolding upgrade_request
upgrade_request-Carries u key user_agent = record {
  before = request_path u ++ (codes " HTTP/1.1\r\nHost: " ++ u.host);
  after =
      codes "Sec-WebSocket-Version: 13\r\n"
      ++ ((if is_empty user_agent then [] else codes "User-Agent: " ++ (user_agent ++ crlf))
          ++ crlf);
  written = simp (append_assoc);
}

module _ (base64 sha1 : Text → Text) where
  unfoldable pub expected_accept : Text → Text
  expected_accept key = base64 (sha1 (key ++ websocket_guid))

  abbrev failed : Socket → Option Text → DialError → Dialled
  failed s r e = record { socket = s; request = r; outcome = err e }

  -- The checks of the answer, from `resp.StatusCode` on.
  unfoldable pub check_response : Text → Text → HttpResponse → Dialled
  check_response key request resp =
      if not (resp.status_code == 101)
      then failed closed_socket (some request) not_upgraded
      else if not (equal_fold resp.upgrade (codes "websocket"))
      then failed closed_socket (some request) bad_upgrade
      else if not (text_eq resp.accept (expected_accept key))
      then failed closed_socket (some request) bad_accept
      else record { socket = open_socket; request = some request; outcome = ok tt }

  abbrev read_answer : Text → Text → Option HttpResponse → Dialled
  read_answer key request none = failed closed_socket (some request) no_response
  read_answer key request (some resp) = check_response key request resp

  abbrev with_key : World → Url → Text → Option Text → Dialled
  with_key w u user_agent none = failed closed_socket none no_random
  with_key w u user_agent (some bytes) =
      let key = base64 bytes in
      let request = upgrade_request u key user_agent in
      if w.request_sent
      then read_answer key request w.response
      else failed closed_socket (some request) not_sent

  abbrev with_url : World → Text → Option Url → Dialled
  with_url w user_agent none = failed unopened none bad_url
  with_url w user_agent (some u) =
      if not (text_eq u.scheme (codes "ws")) && not (text_eq u.scheme (codes "wss"))
      then failed unopened none bad_scheme
      else if not (w.tcp_connects u.hostname (dial_port u))
      then failed unopened none no_connection
      else if text_eq u.scheme (codes "wss") && not w.tls_accepts
      then failed closed_socket none no_handshake
      else with_key w u user_agent w.random_key

  unfoldable pub dial : World → Text → Dialled
  dial w user_agent = with_url w user_agent w.parsed

  abbrev pub succeeds : Dialled → Bool
  succeeds d = elim d.outcome [ ok _ ↦ true | err _ ↦ false ]

  abbrev pub holds_socket : Dialled → Bool
  holds_socket d = elim d.socket [ open_socket ↦ true | _ ↦ false ]

  -- `Dial` leaves an open socket exactly when it succeeds: on every error the socket was never
  -- opened or is closed again.
  pub dial_socket :
      (w : World) (user_agent : Text)
      → holds_socket (dial w user_agent) ≡ succeeds (dial w user_agent)
  unfolding dial check_response
  dial_socket w user_agent = ground arith

  check_response_lem :
      (key request : Text) (resp : HttpResponse)
      → (check_response key request resp).outcome ≡ ok tt
      → (resp.status_code ≡ 101)
        × (equal_fold resp.upgrade (codes "websocket") ≡ true)
        × (resp.accept ≡ expected_accept key)
        × ((check_response key request resp).request ≡ some request)
  unfolding check_response
  check_response_lem key request resp h =
      ground (arith, text_eq→eq resp.accept (expected_accept key))

  with_key_lem :
      (w : World) (u : Url) (user_agent : Text) (k : Option Text)
      → (with_key w u user_agent k).outcome ≡ ok tt
      → (bytes : Text) × (resp : HttpResponse) × (k ≡ some bytes)
        × (w.response ≡ some resp)
        × (resp.status_code ≡ 101)
        × (equal_fold resp.upgrade (codes "websocket") ≡ true)
        × (resp.accept ≡ expected_accept (base64 bytes))
        × ((with_key w u user_agent k).request ≡ some (upgrade_request u (base64 bytes) user_agent))
  with_key_lem w u user_agent none h = cc
  with_key_lem w u user_agent (some bytes) h = elim (Option-cases w.response) [
    | inl e ↦ ground arith
    | inr (resp, e) ↦
        let l =
          check_response_lem (base64 bytes) (upgrade_request u (base64 bytes) user_agent) resp in
        (
          bytes,
          resp,
          refl,
          e,
          ground (arith, l),
          ground (arith, l),
          ground (arith, l),
          ground (arith, l),
        )
  ]

  dial-with_key :
      (w : World) (u : Url) (user_agent : Text)
      → w.parsed ≡ some u
      → (dial w user_agent).outcome ≡ ok tt
      → dial w user_agent ≡ with_key w u user_agent w.random_key
  unfolding dial
  dial-with_key w u user_agent e h = ground arith

  -- When `Dial` succeeds, it sent a GET that asks for websocket and has a line with a random key, and
  -- the server switched protocols to websocket and answered the digest of this key.
  pub dial-accepted :
      (w : World) (user_agent : Text)
      → (dial w user_agent).outcome ≡ ok tt
      → (u : Url) × (bytes : Text) × (resp : HttpResponse) × (w.parsed ≡ some u)
        × (w.random_key ≡ some bytes)
        × (w.response ≡ some resp)
        × (resp.status_code ≡ 101)
        × (equal_fold resp.upgrade (codes "websocket") ≡ true)
        × (resp.accept ≡ base64 (sha1 (base64 bytes ++ websocket_guid)))
        × ((dial w user_agent).request ≡ some (upgrade_request u (base64 bytes) user_agent))
        × Carries (base64 bytes) (upgrade_request u (base64 bytes) user_agent)
  unfolding dial expected_accept
  dial-accepted w user_agent h = elim (Option-cases w.parsed) [
    | inl e ↦ ground arith
    | inr (u, e) ↦
        let same = dial-with_key w u user_agent e h in
        let r =
          with_key_lem w u user_agent w.random_key
            (ap (λ (d : Dialled). d.outcome) (sym same) ∙ h) in
        (
          u,
          r.0,
          r.1,
          e,
          r.2,
          r.3,
          r.4,
          r.5,
          r.6,
          ap (λ (d : Dialled). d.request) same ∙ r.7,
          upgrade_request-Carries u (base64 r.0) user_agent,
        )
  ]
