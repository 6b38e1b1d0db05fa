-- ===== src/Sip/Register.antt =====
-- cmd/gateway/accounts.go: `register`, from its first REGISTER to the answer. What the waiter of its
-- Call-ID finds in its channel is a list; the resolver, the hashes and the sources of identifiers
-- and nonces are parameters.
pub mod Rounds
pub mod Refresh
pub mod Written
mod Tests
use talk_telephony_gateway_p.Base.{
  ℕ, suc, ◌+◌, Bool, true, false, ◌||◌, ◌==◌, List, [], ◌∷◌, ◌++◌, Option, none, some,
  if◌then◌else◌, Result, ok, err,
}
use talk_telephony_gateway_p.Base.Int.{ℤ, pos, negsuc}
use talk_telephony_gateway_p.Text.{Text, codes, is_empty, text_eq, trim_space, contains_byte}
use talk_telephony_gateway_p.Text.Decimal.{itoa, atoi, atoi_value}
use talk_telephony_gateway_p.Accounts.{SipAccount}
use talk_telephony_gateway_p.Sip.{SipResponse, header, line, crlf, user_agent}
use talk_telephony_gateway_p.Sip.Digest.{parse_digest_challenge, build_digest_authorization}
use talk_telephony_gateway_p.Sip.Dialout.{is_code, is_at_least, is_success}

-- The fields of `config` that are read here; `transport_port` is the local port of the shared
-- transport, if there is one.
pub record Settings : Type 0 where
  pub sip_server : Text
  pub sip_domain : Text
  pub sip_contact_ip : Text
  pub sip_inbound_listen : Text
  pub sip_register_expires : ℤ
  pub transport_port : Option ℕ

-- The library that the code calls: `net.ResolveUDPAddr`, the text of an address's IP, the local
-- address of a route, the port that `net.SplitHostPort` gives, hashes and random texts.
pub record Library {ℓ} (Addr : Type ℓ) : Type ℓ where
  pub resolve : Text → Option Addr
  pub ip_text : Addr → Text
  pub local_ip_for : Addr → Text
  pub port_part : Text → Text
  pub md5_hex : Text → Text
  pub sha256_hex : Text → Text
  pub nonce : ℕ → Option Text
  pub new_id : Text → ℕ → Text

pub data RegisterError : Type 0 where
  no_server no_transport not_sent cancelled timed_out : RegisterError
  authentication_rejected bad_challenge no_authorization rejected : RegisterError

-- What one registration does not change.
pub record Registering : Type 0 where
  pub uri : Text
  pub aor : Text
  pub local_ip : Text
  pub local_port : ℕ
  pub register_call_id : Text
  pub tag : Text
  pub contact : Text
  pub expires : ℤ

-- `ids` counts the calls of `newID`.
pub record Attempt : Type 0 where
  pub auth_tried : Bool
  pub cseq : ℕ
  pub ids : ℕ
  pub sent : List Text

-- A response, with what the write of a second REGISTER answers should it be reached.
pub record Arrival : Type 0 where
  pub response : SipResponse
  pub is_written : Bool

-- Nothing is sent yet.
pub no_attempt : Attempt
no_attempt = record { auth_tried = false; cseq = 1; ids = 0; sent = [] }

-- `%d` of a signed number.
abbrev pub show_int : ℤ → Text
show_int (pos n) = itoa n
show_int (negsuc n) = b'-' ∷ itoa (suc n)

unfoldable pub with_port : Text → Text
unfolding contains_byte
with_port server = if contains_byte b':' server then server else server ++ codes ":5060"

abbrev default_port : ℤ → ℤ
default_port (pos n) = if n == 0 then pos 5060 else pos n
default_port (negsuc n) = negsuc n

abbrev or_local : Text → Text
or_local host = if is_empty host then codes "127.0.0.1" else host

-- `build`
pub register_text : Registering → ℕ → Text → Text → Text
register_text d cseq branch auth =
    codes "REGISTER "
    ++ (d.uri
        ++ (codes " SIP/2.0"
            ++ (crlf
                ++ (line (codes "Via") (
                      codes "SIP/2.0/UDP "
                      ++ (d.local_ip
                          ++ (b':'
                              ∷ (itoa d.local_port
                                  ++ (codes ";branch=" ++ (branch ++ codes ";rport"))))))
                    ++ (line (codes "Max-Forwards") (codes "70")
                        ++ (line (codes "From") (b'<' ∷ (d.aor ++ (codes ">;tag=" ++ d.tag)))
                            ++ (line (codes "To") (b'<' ∷ (d.aor ++ codes ">"))
                                ++ (line (codes "Call-ID") d.register_call_id
                                    ++ (line (codes "CSeq") (itoa cseq ++ codes " REGISTER")
                                        ++ (line (codes "Contact") (
                                              b'<'
                                              ∷ (d.contact
                                                  ++ (codes ">;expires=" ++ show_int d.expires)))
                                            ++ (line (codes "Expires") (show_int d.expires)
                                                ++ (line (codes "User-Agent") user_agent
                                                    ++ ((if is_empty auth
                                                          then []
                                                          else line (codes "Authorization") auth)
                                                        ++ (line (codes "Content-Length")
                                                            (codes "0")
                                                            ++ crlf))))))))))))))

-- The lifetime that a 2xx grants.
pub granted : ℤ → SipResponse → ℤ
unfolding trim_space atoi
granted expires resp =
    let h = header resp.headers (codes "expires") in
    if is_empty h then expires else elim (atoi (trim_space h)) [ none ↦ expires | some n ↦ n ]

abbrev pub is_challenge : SipResponse → Bool
is_challenge resp = is_code 401 resp.code || is_code 407 resp.code

-- How a response leaves the loop: `none` for the next one.
abbrev pub Ending : Type 0
Ending = Option (Result RegisterError ℤ)

abbrev pub Outcome : Type 0
Outcome = Attempt × Result RegisterError ℤ

unfoldable pub settle : Attempt × Ending → Outcome → Outcome
settle (t, none) rest = rest
settle (t, some r) rest = (t, r)

module _ {ℓ} {Addr : Type ℓ} (lib : Library Addr) where
  pub contact_host_port : Settings → Text × ℤ
  unfolding trim_space atoi_value
  contact_host_port s =
      let host = trim_space s.sip_contact_ip in
      (
        or_local (
            if is_empty host
            then elim (lib.resolve (with_port s.sip_server)) [
              | none ↦ host
              | some raddr ↦ lib.local_ip_for raddr
            ]
            else host),
        default_port (atoi_value (lib.port_part s.sip_inbound_listen)),
      )

  pub contact_uri : Settings → SipAccount → Text
  contact_uri s a =
      codes "sip:"
      ++ (a.extension
          ++ (b'@' ∷ ((contact_host_port s).0 ++ (b':' ∷ show_int (contact_host_port s).1))))

  pub register_branch : ℕ → Text
  register_branch ids = codes "z9hG4bK-" ++ lib.new_id (codes "reg") ids

  -- The header's value of the second REGISTER.
  pub authorization : Registering → SipAccount → SipResponse → ℕ → Result RegisterError Text
  authorization d a resp ids =
      let challenge =
        header resp.headers (
          if is_code 407 resp.code then codes "proxy-authenticate" else codes "www-authenticate") in
      elim (parse_digest_challenge challenge) [
        | err e ↦ err bad_challenge
        | ok parsed ↦
            elim (build_digest_authorization lib.md5_hex lib.sha256_hex parsed a.auth_user
              a.password (codes "REGISTER") d.uri (lib.nonce ids)) [
                | err e ↦ err no_authorization
                | ok value ↦ ok value
              ]
      ]

  -- The second REGISTER.
  pub register_again : Registering → Bool → Result RegisterError Text → Attempt → Attempt × Ending
  register_again d is_written (err e) c = (c, some (err e))
  register_again d is_written (ok auth) c =
      let t = record c { auth_tried = true; cseq = c.cseq + 1; ids = c.ids + 1 } in
      let text = register_text d t.cseq (register_branch c.ids) auth in
      if is_written
      then (record t { sent = t.sent ++ text ∷ [] }, none)
      else (t, some (err not_sent))

  pub respond : Registering → SipAccount → Arrival → Attempt → Attempt × Ending
  respond d a arrival c =
      let resp = arrival.response in
      if is_challenge resp
      then (if c.auth_tried
          then (c, some (err authentication_rejected))
          else register_again d arrival.is_written (authorization d a resp c.ids) c)
      else if is_success resp.code
      then (c, some (ok (granted d.expires resp)))
      else if is_at_least 300 resp.code
      then (c, some (err rejected))
      else (c, none)

  -- The loop; behind the responses comes the end of the context or of the timer.
  unfoldable pub register_loop :
      Registering → SipAccount → RegisterError → List Arrival → Attempt → Outcome
  register_loop d a stop [] c = (c, err stop)
  register_loop d a stop (arrival ∷ arrivals) c =
      let t = respond d a arrival c in settle t (register_loop d a stop arrivals t.0)

  -- The texts of a registration over a transport at this local port.
  pub registering : Settings → Addr → ℕ → SipAccount → ℤ → Registering
  unfolding trim_space text_eq
  registering s raddr port a seconds =
      let domain = if is_empty s.sip_domain then lib.ip_text raddr else s.sip_domain in
      let ip = trim_space s.sip_contact_ip in
      record {
        uri = codes "sip:" ++ domain;
        aor = codes "sip:" ++ (a.username ++ (b'@' ∷ domain));
        local_ip =
            if is_empty ip || text_eq ip (codes "0.0.0.0") then lib.local_ip_for raddr else ip;
        local_port = port;
        register_call_id = lib.new_id (codes "reg") 0 ++ codes "@talk-gateway";
        tag = lib.new_id (codes "rt") 1;
        contact = contact_uri s a;
        expires = seconds;
      }

  -- The first REGISTER.
  pub first_register : Registering → Attempt
  first_register d = record no_attempt {
    ids = 3;
    sent = register_text d 1 (register_branch 2) [] ∷ [];
  }

  pub register : Settings → SipAccount → ℤ → Bool → RegisterError → List Arrival → Outcome
  register s a seconds is_written stop arrivals = elim (lib.resolve (with_port s.sip_server)) [
    | none ↦ (no_attempt, err no_server)
    | some raddr ↦ elim s.transport_port [
      | none ↦ (no_attempt, err no_transport)
      | some port ↦
          let d = registering s raddr port a seconds in
          if is_written
          then register_loop d a stop arrivals (first_register d)
          else (record no_attempt { ids = 3 }, err not_sent)
    ]
  ]

  pub unregister : Settings → SipAccount → Bool → RegisterError → List Arrival → Outcome
  unregister s a is_written stop arrivals = register s a (pos 0) is_written stop arrivals
