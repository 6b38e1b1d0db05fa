-- ===== src/Inbound/Transport/Trust.antt =====
-- Datagrams from other addresses than the SIP server's.
use talk_telephony_gateway_p.Base.{
  ◌≡◌, refl, ap, ◌∙◌, Bool, false, not, List, [], ◌∷◌, Option, if◌then◌else◌, Bool-cases,
  Option-cases, Result-cases, inl, inr,
}
use talk_telephony_gateway_p.Text.{Text, codes, has_prefix}
use talk_telephony_gateway_p.Dict.{lookup}
use talk_telephony_gateway_p.Sip.{SipResponse, header, parse_sip_request, parse_sip_response}
use talk_telephony_gateway_p.Inbound.{Registry}
use talk_telephony_gateway_p.Inbound.Transport.{
  Transport, register_waiter, forget_waiter, deliver, take_response, is_trusted, receive, handle,
  serve,
}
use talk_telephony_gateway_p.Inbound.Transport.Delivery.{
  Event, datagram, waits, takes, forgets, happen, happen_all,
}

deliver-trusted :
    {Ip : Type 0} (resp : SipResponse) (t : Transport Ip) → (deliver resp t).trusted ≡ t.trusted
unfolding deliver
deliver-trusted resp t =
    elim (Option-cases (lookup (header resp.headers (codes "call-id")) t.waiters)) [
      | inl e ↦ rw (e, deliver) refl
      | inr (queue, e) ↦ rw (e, deliver) refl
    ]

take_response-trusted :
    {Ip : Type 0} (id : Text) (t : Transport Ip) → (take_response id t).trusted ≡ t.trusted
unfolding take_response
take_response-trusted id t = elim (Option-cases (lookup id t.waiters)) [
  | inl e ↦ rw (e, take_response) refl
  | inr (queue, e) ↦ rw (e, take_response) refl
]

module _ {Ip : Type 0} (same_ip : Ip → Ip → Bool) where
  receive-trusted :
      (peer : Ip) (raw : Text) (t : Transport Ip)
      → (receive same_ip peer raw t).0.trusted ≡ t.trusted
  unfolding receive
  receive-trusted peer raw t = elim (Bool-cases (not (is_trusted same_ip t.trusted peer))) [
    | inl e ↦ rw e refl
    | inr e ↦ elim (Bool-cases (has_prefix (codes "SIP/2.0") raw)) [
      | inl f ↦ elim (Result-cases (parse_sip_response raw)) [
        | inl (resp, g) ↦ rw (e, f, g) (deliver-trusted resp t)
        | inr (x, g) ↦ rw (e, f, g) refl
      ]
      | inr f ↦ elim (Result-cases (parse_sip_request raw)) [
        | inl (req, g) ↦ rw (e, f, g) refl
        | inr (x, g) ↦ rw (e, f, g) refl
      ]
    ]
  ]

  happen-trusted :
      (e : Event Ip) (s : Transport Ip × Registry) → (happen same_ip e s).0.trusted ≡ s.0.trusted
  unfolding happen serve register_waiter forget_waiter
  happen-trusted (datagram peer raw) (t, r) = receive-trusted peer raw t
  happen-trusted (waits id) (t, r) = refl
  happen-trusted (takes id) (t, r) = take_response-trusted id t
  happen-trusted (forgets id) (t, r) = refl

  serve_untrusted :
      (peer : Ip) (raw : Text) (s : Transport Ip × Registry)
      → is_trusted same_ip s.0.trusted peer ≡ false
      → serve same_ip peer raw s ≡ s
  unfolding serve receive handle
  serve_untrusted peer raw (t, r) h = rw h refl

  -- The events without the datagrams of other addresses than the trusted one.
  pub trusted_only : Option Ip → List (Event Ip) → List (Event Ip)
  trusted_only trusted [] = []
  trusted_only trusted (datagram peer raw ∷ es) =
      let rest = trusted_only trusted es in
      if is_trusted same_ip trusted peer then datagram peer raw ∷ rest else rest
  trusted_only trusted (waits id ∷ es) = waits id ∷ trusted_only trusted es
  trusted_only trusted (takes id ∷ es) = takes id ∷ trusted_only trusted es
  trusted_only trusted (forgets id ∷ es) = forgets id ∷ trusted_only trusted es

  next_trusted :
      (e : Event Ip) (es : List (Event Ip)) (s : Transport Ip × Registry)
      → trusted_only (happen same_ip e s).0.trusted es ≡ trusted_only s.0.trusted es
  next_trusted e es s = ap (λ (o : Option Ip). trusted_only o es) (happen-trusted e s)

  -- A datagram from another address than the SIP server's has no effect: what happens to the
  -- transport and to the calls is what happens without the datagrams that are not trusted.
  pub happen_all-trusted_only :
      (es : List (Event Ip)) (s : Transport Ip × Registry)
      → happen_all same_ip es s ≡ happen_all same_ip (trusted_only s.0.trusted es) s
  unfolding happen_all trusted_only happen
  happen_all-trusted_only [] s = refl
  happen_all-trusted_only (datagram peer raw ∷ es) s =
      let ih =
        happen_all-trusted_only es (serve same_ip peer raw s)
        ∙ ap (λ (l : List (Event Ip)). happen_all same_ip l (serve same_ip peer raw s))
            (next_trusted (datagram peer raw) es s) in
      elim (Bool-cases (is_trusted same_ip s.0.trusted peer)) [
        | inl e ↦ rw e ih
        | inr e ↦ rw e (
            ap (λ (u : Transport Ip × Registry). happen_all same_ip es u)
              (serve_untrusted peer raw s e)
            ∙ happen_all-trusted_only es s)
      ]
  happen_all-trusted_only (waits id ∷ es) s =
      happen_all-trusted_only es (happen same_ip (waits id) s)
      ∙ ap (λ (l : List (Event Ip)). happen_all same_ip l (happen same_ip (waits id) s))
          (next_trusted (waits id) es s)
  happen_all-trusted_only (takes id ∷ es) s =
      happen_all-trusted_only es (happen same_ip (takes id) s)
      ∙ ap (λ (l : List (Event Ip)). happen_all same_ip l (happen same_ip (takes id) s))
          (next_trusted (takes id) es s)
  happen_all-trusted_only (forgets id ∷ es) s =
      happen_all-trusted_only es (happen same_ip (forgets id) s)
      ∙ ap (λ (l : List (Event Ip)). happen_all same_ip l (happen same_ip (forgets id) s))
          (next_trusted (forgets id) es s)
