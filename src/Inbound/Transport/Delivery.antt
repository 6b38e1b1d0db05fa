-- ===== src/Inbound/Transport/Delivery.antt =====
-- What the waiters of the shared transport find in their channels.
use talk_telephony_gateway_p.Base.{
  ◌≡◌, ◌≤◌, refl, Bool, not, List, [], ◌∷◌, Option, none, some, length, ltb, arith, subst, All,
  All-append, Bool-cases, Option-cases, Result-cases, inl, inr, length-append,
}
use talk_telephony_gateway_p.Text.{Text, codes, text_eq, has_prefix}
use talk_telephony_gateway_p.Text.Laws.{text_eq→eq}
use talk_telephony_gateway_p.Dict.{lookup, insert, lookup-insert, lookup-erase}
use talk_telephony_gateway_p.Sip.{SipResponse, header, parse_sip_request, parse_sip_response}
use talk_telephony_gateway_p.Inbound.{Registry}
use talk_telephony_gateway_p.Inbound.Transport.{
  Transport, channel_capacity, offer, register_waiter, forget_waiter, deliver, rest_of,
  take_response, is_trusted, receive, serve,
}

-- The response belongs to the waiter of this Call-ID.
pub IsFor : Text → SipResponse → Type 0
IsFor id resp = header resp.headers (codes "call-id") ≡ id

-- A channel of a waiter: it is not above its capacity, and holds only responses to that waiter.
unfoldable pub IsChannel : Text → List SipResponse → Type 0
IsChannel id queue = (length queue ≤ channel_capacity) × All (IsFor id) queue

-- What is found under a Call-ID, if anything, is a channel of it.
unfoldable pub Fits : Text → Option (List SipResponse) → Type 0
unfolding IsChannel
Fits id none = Unit {0}
Fits id (some queue) = IsChannel id queue

unfoldable pub IsDelivered : {Ip : Type 0} → Transport Ip → Type 0
IsDelivered t = (id : Text) → Fits id (lookup id t.waiters)

offer-IsChannel :
    (id : Text) (resp : SipResponse) (queue : List SipResponse)
    → IsFor id resp
    → IsChannel id queue
    → IsChannel id (offer resp queue)
unfolding offer IsChannel
offer-IsChannel id resp queue h (short, mine) =
    elim (Bool-cases (ltb (length queue) channel_capacity)) [
      | inl e ↦
          rw (e, offer)
            (
              ground (arith, e, length-append queue (resp ∷ [])),
              All-append (IsFor id) queue (resp ∷ []) mine (h, tt),
            )
      | inr e ↦ rw (e, offer) (short, mine)
    ]

rest_of-IsChannel :
    (id : Text) (queue : List SipResponse) → IsChannel id queue → IsChannel id (rest_of queue)
unfolding rest_of IsChannel
rest_of-IsChannel id [] h = h
rest_of-IsChannel id (resp ∷ queue) (short, (h, mine)) = (omega (arith, short), mine)

pub found :
    {Ip : Type 0} (t : Transport Ip) (id : Text) (queue : List SipResponse)
    → IsDelivered t
    → lookup id t.waiters ≡ some queue
    → IsChannel id queue
unfolding IsDelivered Fits
found t id queue d e = subst (λ (x : Option (List SipResponse)). Fits id x) e (d id)

module _ {Ip : Type 0} where
  -- A new channel under one Call-ID leaves the others as they are.
  insert-IsDelivered :
      (k : Text) (queue : List SipResponse) (t : Transport Ip)
      → IsChannel k queue
      → IsDelivered t
      → IsDelivered (record t { waiters = insert k queue t.waiters })
  unfolding IsDelivered Fits
  insert-IsDelivered k queue t h d id = elim (Bool-cases (text_eq k id)) [
    | inl f ↦
        rw (lookup-insert k id queue t.waiters, f)
          (subst (λ (x : Text). IsChannel x queue) (text_eq→eq k id f) h)
    | inr f ↦ rw (lookup-insert k id queue t.waiters, f) (d id)
  ]

  pub register_waiter-IsDelivered :
      (id : Text) (t : Transport Ip) → IsDelivered t → IsDelivered (register_waiter id t)
  unfolding register_waiter IsChannel
  register_waiter-IsDelivered id t d = insert-IsDelivered id [] t (omega arith, tt) d

  forget_waiter-IsDelivered :
      (k : Text) (t : Transport Ip) → IsDelivered t → IsDelivered (forget_waiter k t)
  unfolding forget_waiter IsDelivered Fits
  forget_waiter-IsDelivered k t d id = elim (Bool-cases (text_eq k id)) [
    | inl f ↦ rw (lookup-erase k id t.waiters, f) tt
    | inr f ↦ rw (lookup-erase k id t.waiters, f) (d id)
  ]

  deliver-IsDelivered :
      (resp : SipResponse) (t : Transport Ip) → IsDelivered t → IsDelivered (deliver resp t)
  unfolding deliver
  deliver-IsDelivered resp t d =
      let id = header resp.headers (codes "call-id") in
      elim (Option-cases (lookup id t.waiters)) [
        | inl e ↦ rw (e, deliver) d
        | inr (queue, e) ↦
            rw (e, deliver)
              (insert-IsDelivered id (offer resp queue) t
                (offer-IsChannel id resp queue (unfold IsFor in refl) (found t id queue d e)) d)
      ]

  pub take_response-IsDelivered :
      (id : Text) (t : Transport Ip) → IsDelivered t → IsDelivered (take_response id t)
  unfolding take_response
  take_response-IsDelivered id t d = elim (Option-cases (lookup id t.waiters)) [
    | inl e ↦ rw (e, take_response) d
    | inr (queue, e) ↦
        rw (e, take_response)
          (insert-IsDelivered id (rest_of queue) t
            (rest_of-IsChannel id queue (found t id queue d e)) d)
  ]

  module _ (same_ip : Ip → Ip → Bool) where
    receive-IsDelivered :
        (peer : Ip) (raw : Text) (t : Transport Ip)
        → IsDelivered t
        → IsDelivered (receive same_ip peer raw t).0
    unfolding receive
    receive-IsDelivered peer raw t d = elim (Bool-cases (not (is_trusted same_ip t.trusted peer))) [
      | inl e ↦ rw e d
      | inr e ↦ elim (Bool-cases (has_prefix (codes "SIP/2.0") raw)) [
        | inl f ↦ elim (Result-cases (parse_sip_response raw)) [
          | inl (resp, g) ↦ rw (e, f, g) (deliver-IsDelivered resp t d)
          | inr (x, g) ↦ rw (e, f, g) d
        ]
        | inr f ↦ elim (Result-cases (parse_sip_request raw)) [
          | inl (req, g) ↦ rw (e, f, g) d
          | inr (x, g) ↦ rw (e, f, g) d
        ]
      ]
    ]

-- What happens at the transport.
pub data Event (Ip : Type 0) : Type 0 where
  datagram : (peer : Ip) (raw : Text) → Event Ip
  waits : (id : Text) → Event Ip
  takes : (id : Text) → Event Ip
  forgets : (id : Text) → Event Ip

module _ {Ip : Type 0} (same_ip : Ip → Ip → Bool) where
  unfoldable pub happen : Event Ip → Transport Ip × Registry → Transport Ip × Registry
  happen (datagram peer raw) s = serve same_ip peer raw s
  happen (waits id) (t, r) = (register_waiter id t, r)
  happen (takes id) (t, r) = (take_response id t, r)
  happen (forgets id) (t, r) = (forget_waiter id t, r)

  unfoldable pub happen_all : List (Event Ip) → Transport Ip × Registry → Transport Ip × Registry
  happen_all [] s = s
  happen_all (e ∷ es) s = happen_all es (happen e s)

  happen-IsDelivered :
      (e : Event Ip) (s : Transport Ip × Registry) → IsDelivered s.0 → IsDelivered (happen e s).0
  unfolding happen serve
  happen-IsDelivered (datagram peer raw) (t, r) d = receive-IsDelivered same_ip peer raw t d
  happen-IsDelivered (waits id) (t, r) d = register_waiter-IsDelivered id t d
  happen-IsDelivered (takes id) (t, r) d = take_response-IsDelivered id t d
  happen-IsDelivered (forgets id) (t, r) d = forget_waiter-IsDelivered id t d

  -- If every channel of a waiter holds eight responses at most, and only those with the waiter's
  -- Call-ID, this stays so whatever datagrams come and whoever waits, takes or stops waiting.
  pub happen_all-IsDelivered :
      (es : List (Event Ip)) (s : Transport Ip × Registry)
      → IsDelivered s.0
      → IsDelivered (happen_all es s).0
  unfolding happen_all
  happen_all-IsDelivered [] s d = d
  happen_all-IsDelivered (e ∷ es) s d =
      happen_all-IsDelivered es (happen e s) (happen-IsDelivered e s d)
