-- ===== src/Sip/Dialout/Place.antt =====
-- The head of `sipDial`, which finds the addresses of a call, and `handleDialout` with the room's
-- session and the account it takes. The network is a parameter: the resolver, what a socket is bound
-- to, and the local address of a route.
pub mod Placed
pub mod Addressed
mod Tests
use talk_telephony_gateway_p.Base.{
  ℕ, Bool, true, false, not, ◌||◌, List, [], ◌∷◌, ◌++◌, Option, none, some, if◌then◌else◌, Result,
  ok, err,
}
use talk_telephony_gateway_p.Base.Int.{pos}
use talk_telephony_gateway_p.Text.{Text, codes, is_empty, text_eq}
use talk_telephony_gateway_p.Text.Decimal.{itoa}
use talk_telephony_gateway_p.Accounts.{SipAccount, Pointer, Table, AccountError, select_outbound}
use talk_telephony_gateway_p.Bridge.{RoomSession, Identity}
use talk_telephony_gateway_p.Session.{
  CallSession, Message, Progress, Signaling, open_call_session, close_session, own_identity,
}
use talk_telephony_gateway_p.Sip.Sdp.{build_sdp_offer}
use talk_telephony_gateway_p.Sip.Register.{with_port}
use talk_telephony_gateway_p.Sip.Dialout.{Dialling, Sent, status, accepted, cleared}
use talk_telephony_gateway_p.Sip.Dialout.Loop.{
  Services, Read, Dialout, dialout_caller, primary_nextcloud_user, simulated, with_account,
}

-- The fields of `config` that are read here.
pub record Route : Type 0 where
  pub sip_server : Text
  pub sip_local_addr : Text
  pub sip_domain : Text
  pub sip_from_user : Text
  pub rtp_local_addr : Text
  pub rtp_advertise_ip : Text

-- The library: a socket is bound to an IP and a port, if it can be opened.
pub record Network {ℓ} (Addr : Type ℓ) : Type ℓ where
  pub resolve : Text → Option Addr
  pub ip_text : Addr → Text
  pub listen_sip : Addr → Option (Text × ℕ)
  pub listen_rtp : Addr → Option (Text × ℕ)
  pub probe : Addr → Option Text
  pub now : ℕ
  pub new_id : Text → Text

pub is_wildcard : Text → Bool
unfolding text_eq
is_wildcard ip = text_eq ip (codes "0.0.0.0") || text_eq ip (codes "::")

pub probed : Text → Option Text → Text
probed ip none = ip
probed ip (some local) = local

pub or_loopback : Text → Text
or_loopback ip = if is_wildcard ip || is_empty ip then codes "127.0.0.1" else ip

-- The host that the gateway names itself by: the address of its socket, or that of the route where
-- the socket has none, or the loopback address.
pub contact_host : Text → Option Text → Text
contact_host ip route = or_loopback (if is_wildcard ip then probed ip route else ip)

abbrev pub listen_on {ℓ} :
    {Addr : Type ℓ} → (Addr → Option (Text × ℕ)) → Option Addr → Option (Text × ℕ)
listen_on listen none = none
listen_on listen (some a) = listen a

pub domain_of {ℓ} : {Addr : Type ℓ} → Network Addr → Route → Addr → Text
domain_of net route raddr =
    if is_empty route.sip_domain then net.ip_text raddr else route.sip_domain

module _ {ℓ} {Addr : Type ℓ} (net : Network Addr) (route : Route) (call_id number : Text) where
  -- The texts of a call over a SIP socket and an RTP socket.
  pub dialling_of : SipAccount → Addr → Text × ℕ → Text × ℕ → Dialling
  unfolding build_sdp_offer itoa
  dialling_of account raddr (sip_ip, sip_port) (rtp_ip, rtp_port) =
      let domain = domain_of net route raddr in
      let contact = contact_host sip_ip (net.probe raddr) in
      record {
        host = contact;
        port = sip_port;
        uri = codes "sip:" ++ (number ++ (b'@' ∷ domain));
        from_uri = codes "sip:" ++ (account.username ++ (b'@' ∷ domain));
        contact_uri =
            codes "sip:" ++ (route.sip_from_user ++ (b'@' ∷ (contact ++ (b':' ∷ itoa sip_port))));
        tag = net.new_id (codes "t");
        sip_call_id = call_id ++ codes "@talk-gateway";
        sdp_offer =
            build_sdp_offer net.now
              (if is_empty route.rtp_advertise_ip then contact else route.rtp_advertise_ip)
              rtp_port;
        auth_user = account.auth_user;
        password = account.password;
      }

  abbrev pub over : SipAccount → Addr → Option (Text × ℕ) → Option (Text × ℕ) → Option Dialling
  over account raddr none rtp = none
  over account raddr (some sip) none = none
  over account raddr (some sip) (some rtp) = some (dialling_of account raddr sip rtp)

  abbrev pub from_server : SipAccount → Option Addr → Option Dialling
  from_server account none = none
  from_server account (some raddr) =
      over account raddr (listen_on net.listen_sip (net.resolve route.sip_local_addr))
        (listen_on net.listen_rtp (net.resolve route.rtp_local_addr))

  -- The call for an account, where the addresses resolve and the sockets open.
  pub prepare : Pointer → Option Dialling
  unfolding with_port
  prepare account = from_server account.target (net.resolve (with_port route.sip_server))

-- A dialout request: its payload, and its options as far as they are read.
pub record Request : Type 0 where
  pub has_request : Bool
  pub is_accepted_sent : Bool
  pub room : Text
  pub number : Text
  pub caller : Option Text
  pub actor_id : Text
  pub actor_type : Text

-- The room's session, as the call sees it.
pub opened_room : Progress → Option (Identity × List RoomSession)
opened_room (s, err e) = none
opened_room (s, ok messages) = some (own_identity s, s.initial_sessions)

-- What is sent, and the room's session as the handler leaves it.
pub record Outcome : Type 0 where
  pub sent : List Sent
  pub session : Option CallSession

abbrev pub dialout_of : Route → Request → Option (Identity × List RoomSession) → Dialout
dialout_of route r opened = record {
  has_request = r.has_request;
  is_accepted_sent = r.is_accepted_sent;
  sip_server = route.sip_server;
  sip_from_user = route.sip_from_user;
  option_caller = r.caller;
  session = opened;
}

module _ {ℓ} {Addr : Type ℓ} (net : Network Addr) (route : Route) (signaling : Signaling)
    (services : Services Addr) (table : Table) (call_id : Text) (r : Request) where
  abbrev select : CallSession → Result AccountError Pointer
  select s =
      select_outbound table (dialout_caller (dialout_of route r none))
        (primary_nextcloud_user (own_identity s) s.initial_sessions)

  -- From the room's session on.
  pub dial_from : Progress → Bool → List Read → Outcome
  dial_from (s, err e) is_written reads = record {
    sent = status accepted [] (pos 0) ∷ status cleared (codes "talk-session-error") (pos 500) ∷ [];
    session = some s;
  }
  dial_from (s, ok messages) is_written reads = record {
    sent =
        status accepted [] (pos 0)
        ∷ with_account services (prepare net route call_id r.number) (select s) is_written reads;
    session = some (close_session signaling s);
  }

  -- `handleDialout`
  pub run_dialout : Bool → List Message → Bool → List Read → Outcome
  run_dialout is_connected messages is_written reads =
      if not r.has_request
      then record { sent = []; session = none }
      else if not r.is_accepted_sent
      then record { sent = []; session = none }
      else if is_empty route.sip_server
      then record { sent = status accepted [] (pos 0) ∷ simulated; session = none }
      else dial_from
          (open_call_session signaling is_connected r.room call_id r.number r.actor_id r.actor_type
            messages)
          is_written reads
