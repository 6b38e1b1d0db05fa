-- ===== src/Inbound/Transport/Inbox.antt =====
-- The channel of one waiter of the shared transport, as if it were a queue of its own: at most eight
-- of the responses that the SIP server sends under the waiter's Call-ID, in their order.
use talk_telephony_gateway_p.Base.{
  ◌≡◌, ◌≤◌, refl, sym, ap, ◌∙◌, Bool, false, ◌&&◌, List, [], ◌∷◌, ◌++◌, Option, some, length, take,
  ltb, if◌then◌else◌, arith, All, Bool-cases, Option-cases, Result-cases, inl, inr, ok, err,
  append-nil, ℕ, zero, suc, Result,
}
use talk_telephony_gateway_p.Text.{Text, codes, text_eq, has_prefix}
use talk_telephony_gateway_p.Text.Laws.{text_eq→eq, text_eq_refl}
use talk_telephony_gateway_p.Dict.{lookup, insert, lookup-insert, lookup-erase}
use talk_telephony_gateway_p.Sip.{
  ParseError, SipResponse, header, parse_sip_request, parse_sip_response,
}
use talk_telephony_gateway_p.Inbound.{Registry}
use talk_telephony_gateway_p.Inbound.Transport.{
  Transport, offer, register_waiter, forget_waiter, deliver, rest_of, take_response, is_trusted,
  receive, serve,
}
use talk_telephony_gateway_p.Inbound.Transport.Delivery.{
  Event, datagram, waits, takes, forgets, happen, happen_all,
}

-- Eight responses are held, and what comes beyond them is lost.
pub held : List SipResponse → List SipResponse
held queue = take 8 queue

take_all : (n : ℕ) (queue : List SipResponse) → length queue ≤ n → take n queue ≡ queue
take_all zero [] h = refl
take_all (suc n) [] h = refl
take_all zero (r ∷ queue) h = absurd (omega arith)
take_all (suc n) (r ∷ queue) h =
    ap (λ (t : List SipResponse). r ∷ t) (take_all n queue (omega arith))

take_full :
    (n : ℕ) (resp : SipResponse) (queue : List SipResponse)
    → length queue ≤ n
    → take n (queue ++ resp ∷ []) ≡ (if ltb (length queue) n then queue ++ resp ∷ [] else queue)
take_full zero resp [] h = refl
take_full (suc n) resp [] h = ground (arith, take_all n [] (omega arith))
take_full zero resp (r ∷ queue) h = absurd (omega arith)
take_full (suc n) resp (r ∷ queue) h = ground (arith, take_full n resp queue)

length-take_le : (n : ℕ) (queue : List SipResponse) → length (take n queue) ≤ n
length-take_le zero queue = omega arith
length-take_le (suc n) [] = omega arith
length-take_le (suc n) (r ∷ queue) = omega (arith, length-take_le n queue)

-- The response, if it is one under the Call-ID.
pub under : Text → Result ParseError SipResponse → List SipResponse
under id (err e) = []
under id (ok resp) = if text_eq (header resp.headers (codes "call-id")) id then resp ∷ [] else []

-- The waiter has this queue, and the transport trusts this address.
pub record Holds {Ip : Type 0} (trusted : Option Ip) (id : Text) (queue : List SipResponse)
    (t : Transport Ip) : Type 0 where
  pub waiting : lookup id t.waiters ≡ some queue
  pub trust : t.trusted ≡ trusted
  pub short : length queue ≤ 8

-- The event is of the server or of other clients: no other client has this Call-ID.
unfoldable pub IsOthers : {Ip : Type 0} → Text → Event Ip → Type 0
IsOthers id (datagram peer raw) = Unit {0}
IsOthers id (waits k) = text_eq k id ≡ false
IsOthers id (takes k) = text_eq k id ≡ false
IsOthers id (forgets k) = text_eq k id ≡ false

module _ {Ip : Type 0} (trusted : Option Ip) (id : Text) where
  insert-Holds :
      (k : Text) (other queue : List SipResponse) (t : Transport Ip)
      → text_eq k id ≡ false
      → Holds trusted id queue t
      → Holds trusted id queue (record t { waiters = insert k other t.waiters })
  insert-Holds k other queue t e h = record {
    waiting = rw (lookup-insert k id other t.waiters, e) h.waiting;
    trust = h.trust;
    short = h.short;
  }

  forget-Holds :
      (k : Text) (queue : List SipResponse) (t : Transport Ip)
      → text_eq k id ≡ false
      → Holds trusted id queue t
      → Holds trusted id queue (forget_waiter k t)
  unfolding forget_waiter
  forget-Holds k queue t e h = record {
    waiting = rw (lookup-erase k id t.waiters, e) h.waiting;
    trust = h.trust;
    short = h.short;
  }

  take-Holds :
      (k : Text) (queue : List SipResponse) (t : Transport Ip)
      → text_eq k id ≡ false
      → Holds trusted id queue t
      → Holds trusted id queue (take_response k t)
  unfolding take_response
  take-Holds k queue t e h = elim (Option-cases (lookup k t.waiters)) [
    | inl f ↦ rw (f, take_response) h
    | inr (other, f) ↦ rw (f, take_response) (insert-Holds k (rest_of other) queue t e h)
  ]

  -- The waiter takes its oldest response.
  pub take_own-Holds :
      (resp : SipResponse) (queue : List SipResponse) (t : Transport Ip)
      → Holds trusted id (resp ∷ queue) t
      → Holds trusted id queue (take_response id t)
  unfolding take_response rest_of
  take_own-Holds resp queue t h =
      rw (h.waiting, take_response)
        (record {
          waiting = rw (lookup-insert id id queue t.waiters, text_eq_refl id);
          trust = h.trust;
          short = omega (arith, h.short);
        })

  held-Holds :
      (queue : List SipResponse) (t : Transport Ip)
      → Holds trusted id queue t
      → Holds trusted id (held (queue ++ [])) t
  unfolding held
  held-Holds queue t h = rw (append-nil queue, take_all 8 queue h.short) h

  -- A response goes to the waiter of its Call-ID.
  deliver-Holds :
      (resp : SipResponse) (queue : List SipResponse) (t : Transport Ip)
      → Holds trusted id queue t
      → Holds trusted id (held (queue ++ under id (ok resp))) (deliver resp t)
  unfolding under deliver
  deliver-Holds resp queue t h =
      let k = header resp.headers (codes "call-id") in
      elim (Bool-cases (text_eq k id)) [
        | inl e ↦
            let mine : lookup k t.waiters ≡ some queue =
              ap (λ (x : Text). lookup x t.waiters) (text_eq→eq k id e) ∙ h.waiting in
            rw (e, mine, deliver)
              (record {
                waiting =
                    lookup-insert k id (offer resp queue) t.waiters
                    ∙ rw e (unfold held offer in ap some (sym (take_full 8 resp queue h.short)));
                trust = h.trust;
                short = unfold held in length-take_le 8 (queue ++ resp ∷ []);
              })
        | inr e ↦ rw e (
            held-Holds queue (deliver resp t) (elim (Option-cases (lookup k t.waiters)) [
              | inl f ↦ rw (f, deliver) h
              | inr (other, f) ↦ rw (f, deliver) (insert-Holds k (offer resp other) queue t e h)
            ]))
      ]

module _ {Ip : Type 0} (same_ip : Ip → Ip → Bool) (trusted : Option Ip) (id : Text) where
  -- What an event puts in the waiter's queue: a response under its Call-ID, from a trusted address.
  pub came : Event Ip → List SipResponse
  came (datagram peer raw) =
      if is_trusted same_ip trusted peer && has_prefix (codes "SIP/2.0") raw
      then under id (parse_sip_response raw)
      else []
  came (waits k) = []
  came (takes k) = []
  came (forgets k) = []

  pub inbox : List (Event Ip) → List SipResponse → List SipResponse
  unfolding held came
  inbox [] queue = queue
  inbox (e ∷ es) queue = inbox es (held (queue ++ came e))

  receive-Holds :
      (peer : Ip) (raw : Text) (queue : List SipResponse) (t : Transport Ip)
      → Holds trusted id queue t
      → Holds trusted id (held (queue ++ came (datagram peer raw))) (receive same_ip peer raw t).0
  unfolding receive came
  receive-Holds peer raw queue t h = elim (Bool-cases (is_trusted same_ip trusted peer)) [
    | inr e ↦
        let own = ap (λ (x : Option Ip). is_trusted same_ip x peer) h.trust ∙ e in
        rw (own, e) (held-Holds trusted id queue t h)
    | inl e ↦
        let own = ap (λ (x : Option Ip). is_trusted same_ip x peer) h.trust ∙ e in
        elim (Bool-cases (has_prefix (codes "SIP/2.0") raw)) [
          | inl f ↦ elim (Result-cases (parse_sip_response raw)) [
            | inl (resp, g) ↦ rw (own, e, f, g) (deliver-Holds trusted id resp queue t h)
            | inr (x, g) ↦ rw (own, e, f, g) (unfold under in held-Holds trusted id queue t h)
          ]
          | inr f ↦ elim (Result-cases (parse_sip_request raw)) [
            | inl (req, g) ↦ rw (own, e, f, g) (held-Holds trusted id queue t h)
            | inr (x, g) ↦ rw (own, e, f, g) (held-Holds trusted id queue t h)
          ]
        ]
  ]

  happen-Holds :
      (e : Event Ip) (queue : List SipResponse) (s : Transport Ip × Registry)
      → IsOthers id e
      → Holds trusted id queue s.0
      → Holds trusted id (held (queue ++ came e)) (happen same_ip e s).0
  unfolding happen serve IsOthers came
  happen-Holds (datagram peer raw) queue (t, r) o h = receive-Holds peer raw queue t h
  happen-Holds (waits k) queue (t, r) o h =
      held-Holds trusted id queue _
        (unfold register_waiter in insert-Holds trusted id k [] queue t o h)
  happen-Holds (takes k) queue (t, r) o h =
      held-Holds trusted id queue _ (take-Holds trusted id k queue t o h)
  happen-Holds (forgets k) queue (t, r) o h =
      held-Holds trusted id queue _ (forget-Holds trusted id k queue t o h)

  -- While no other client uses the Call-ID, the waiter's channel is its inbox.
  pub happen_all-Holds :
      (es : List (Event Ip)) (queue : List SipResponse) (s : Transport Ip × Registry)
      → All (IsOthers id) es
      → Holds trusted id queue s.0
      → Holds trusted id (inbox es queue) (happen_all same_ip es s).0
  unfolding happen_all inbox
  happen_all-Holds [] queue s o h = h
  happen_all-Holds (e ∷ es) queue s (o, os) h =
      happen_all-Holds es _ (happen same_ip e s) os (happen-Holds e queue s o h)
