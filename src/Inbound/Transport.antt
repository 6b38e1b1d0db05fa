-- ===== src/Inbound/Transport.antt =====
-- cmd/gateway/sip_transport.go: the shared socket, which hands responses to those that wait for
-- them and requests to `handleSharedSIPRequest`. Addresses are compared by a parameter.
pub mod Delivery
pub mod Trust
pub mod Inbox
pub mod Registers
use talk_telephony_gateway_p.Base.{
  ℕ, Bool, true, false, not, List, [], ◌∷◌, ◌++◌, Option, none, some, length, ltb, if◌then◌else◌,
  Result, ok, err,
}
use talk_telephony_gateway_p.Text.{Text, codes, has_prefix}
use talk_telephony_gateway_p.Dict.{lookup, insert, erase}
use talk_telephony_gateway_p.Sip.{
  SipRequest, SipResponse, header, parse_sip_request, parse_sip_response,
}
use talk_telephony_gateway_p.Sip.Register.{with_port}
use talk_telephony_gateway_p.Inbound.{Registry, handle_request}

-- `waiters` holds the channel of each waiter, as the responses that it has not taken yet.
pub record Transport (Ip : Type 0) : Type 0 where
  pub trusted : Option Ip
  pub waiters : List (Text × List SipResponse)

abbrev pub channel_capacity : ℕ
channel_capacity = 8

-- A send to a channel that is full is dropped.
pub offer : SipResponse → List SipResponse → List SipResponse
offer resp queue = if ltb (length queue) channel_capacity then queue ++ resp ∷ [] else queue

-- A waiter takes the oldest response.
pub rest_of : List SipResponse → List SipResponse
rest_of [] = []
rest_of (resp ∷ queue) = queue

-- `newSIPTransport`; `resolve` gives an address with its IP, if it has one, and `is_bound` tells
-- whether the socket is opened.
unfoldable pub new_sip_transport :
    {Ip : Type 0}
    → (Text → Option (Option Ip))
    → (is_bound : Bool) → (listen server : Text) → Option (Transport Ip)
unfolding with_port
new_sip_transport resolve is_bound listen server = elim (resolve listen) [
  | none ↦ none
  | some laddr ↦
      if is_bound
      then elim (resolve (with_port server)) [
        | none ↦ none
        | some ip ↦ some (record { trusted = ip; waiters = [] })
      ]
      else none
]

module _ {Ip : Type 0} where
  unfoldable pub register_waiter : Text → Transport Ip → Transport Ip
  unfolding insert
  register_waiter id t = record t { waiters = insert id [] t.waiters }

  -- The function that `registerWaiter` returns.
  pub forget_waiter : Text → Transport Ip → Transport Ip
  unfolding erase
  forget_waiter id t = record t { waiters = erase id t.waiters }

  pub deliver : SipResponse → Transport Ip → Transport Ip
  unfolding lookup insert
  deliver resp t =
      let id = header resp.headers (codes "call-id") in
      elim (lookup id t.waiters) [
        | none ↦ t
        | some queue ↦ record t { waiters = insert id (offer resp queue) t.waiters }
      ]

  pub take_response : Text → Transport Ip → Transport Ip
  unfolding lookup insert
  take_response id t = elim (lookup id t.waiters) [
    | none ↦ t
    | some queue ↦ record t { waiters = insert id (rest_of queue) t.waiters }
  ]

  module _ (same_ip : Ip → Ip → Bool) where
    unfoldable pub is_trusted : Option Ip → Ip → Bool
    is_trusted none peer = true
    is_trusted (some ip) peer = same_ip peer ip

    -- One round of `run`, on a datagram: the transport, and the request that it hands on.
    unfoldable pub receive : Ip → Text → Transport Ip → Transport Ip × Option SipRequest
    unfolding has_prefix
    receive peer raw t =
        if not (is_trusted t.trusted peer)
        then (t, none)
        else if has_prefix (codes "SIP/2.0") raw
        then elim (parse_sip_response raw) [ err e ↦ (t, none) | ok resp ↦ (deliver resp t, none) ]
        else elim (parse_sip_request raw) [ err e ↦ (t, none) | ok req ↦ (t, some req) ]

    unfoldable pub handle : Option SipRequest → Registry → Registry
    handle none r = r
    handle (some req) r = handle_request req r

    -- The transport with the handler of the gateway.
    unfoldable pub serve : Ip → Text → Transport Ip × Registry → Transport Ip × Registry
    serve peer raw (t, r) = let (t', req) = receive peer raw t in (t', handle req r)
