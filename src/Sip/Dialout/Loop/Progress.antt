-- ===== src/Sip/Dialout/Loop/Progress.antt =====
-- What an outgoing call tells the SIP server and the signaling server, and in which order.
use talk_telephony_gateway_p.Base.{
  ℕ, ◌+◌, ◌≡◌, refl, sym, ap, ◌∙◌, Bool, true, false, ◌||◌, List, [], ◌∷◌, ◌++◌, none, some,
  if◌then◌else◌, Result, ok, err, arith, append_assoc, append-nil, Bool-cases, Result-cases, inl,
  inr,
}
use talk_telephony_gateway_p.Base.Int.{pos}
use talk_telephony_gateway_p.Text.{Text, codes, is_empty}
use talk_telephony_gateway_p.Sip.{SipResponse, parse_sip_response}
use talk_telephony_gateway_p.Sip.Sdp.{parse_sdp_answer}
use talk_telephony_gateway_p.Sip.Dialout.{
  Dialling, Status, ringing, connected, cleared, Sent, invite, ack, status, DialoutError, rejected,
  timed_out, read_failed, Call, is_code, is_at_least, is_success, send, send_ack, ring, ack_target,
  ack_to,
}
use talk_telephony_gateway_p.Sip.Dialout.Loop.{
  Read, read_timeout, read_error, datagram, Services, Ending, authorize, retry, challenged,
  answered, respond, receive, leave, new_call, dial_loop,
}

-- The statuses among what is sent.
unfoldable pub statuses : List Sent → List Status
statuses [] = []
statuses (invite cseq branch authorization ∷ ms) = statuses ms
statuses (ack target to branch cseq ∷ ms) = statuses ms
statuses (status kind cause code ∷ ms) = kind ∷ statuses ms

pub statuses-append : (ms ns : List Sent) → statuses (ms ++ ns) ≡ statuses ms ++ statuses ns
unfolding statuses
statuses-append [] ns = refl
statuses-append (invite c b a ∷ ms) ns = statuses-append ms ns
statuses-append (ack t o b c ∷ ms) ns = statuses-append ms ns
statuses-append (status k cause code ∷ ms) ns =
    ap (λ (l : List Status). k ∷ l) (statuses-append ms ns)

-- The INVITEs with an authorization header.
unfoldable pub authorizations : List Sent → ℕ
authorizations [] = 0
authorizations (invite cseq branch authorization ∷ ms) =
    let n = authorizations ms in if is_empty authorization then n else n + 1
authorizations (ack target to branch cseq ∷ ms) = authorizations ms
authorizations (status kind cause code ∷ ms) = authorizations ms

authorizations-append :
    (ms ns : List Sent) → authorizations (ms ++ ns) ≡ authorizations ms + authorizations ns
unfolding authorizations
authorizations-append [] ns = omega arith
authorizations-append (invite c b a ∷ ms) ns = ground (arith, authorizations-append ms ns)
authorizations-append (ack t o b c ∷ ms) ns = authorizations-append ms ns
authorizations-append (status k cause code ∷ ms) ns = authorizations-append ms ns

-- What the flags of a call that goes on say of what it has sent.
pub IsGoing : Call → Type 0
IsGoing c =
    (statuses c.sent ≡ (if c.ringing_sent then ringing ∷ [] else []))
    × (authorizations c.sent ≡ (if c.auth_tried then 1 else 0))

-- The statuses of a call that has ended: ringing at most once, then connected at most once, and
-- cleared exactly if the call ended well; and one authorization at most.
unfoldable pub HasEnded : Call → Result DialoutError (Unit {0}) → Type 0
HasEnded c r =
    ((rung : Bool) × (up : Bool) × (statuses c.sent
        ≡ (if rung then ringing ∷ [] else [])
          ++ ((if up then connected ∷ [] else []) ++ elim r [ ok u ↦ cleared ∷ [] | err e ↦ [] ])))
    × ((once : Bool) × (authorizations c.sent ≡ (if once then 1 else 0)))

send_ack-IsGoing :
    (d : Dialling) (resp : SipResponse) (branch : Text) (c : Call)
    → IsGoing c
    → IsGoing (send_ack d resp branch c)
unfolding IsGoing send_ack send statuses authorizations
send_ack-IsGoing d resp branch c (hs, ha) =
    let m = ack (ack_target d resp) (ack_to d resp) branch c.cseq in
    (
      statuses-append c.sent (m ∷ []) ∙ append-nil (statuses c.sent) ∙ hs,
      omega (arith, authorizations-append c.sent (m ∷ []), ha),
    )

pub IsGoing-HasEnded : (c : Call) (e : DialoutError) → IsGoing c → HasEnded c (err e)
unfolding IsGoing HasEnded
IsGoing-HasEnded c e (hs, ha) = (
  (c.ringing_sent, false, hs ∙ sym (append-nil (if c.ringing_sent then ringing ∷ [] else []))),
  (c.auth_tried, ha),
)

ring-IsGoing : (resp : SipResponse) (c : Call) → IsGoing c → IsGoing (ring resp c)
unfolding IsGoing ring send statuses authorizations
ring-IsGoing resp c (hs, ha) =
    let m = status ringing [] resp.code in
    ground (arith, hs, ha, statuses-append c.sent (m ∷ []), authorizations-append c.sent (m ∷ []))

pub new_call-IsGoing : (b : Text) → IsGoing (new_call b)
unfolding IsGoing new_call statuses authorizations
new_call-IsGoing b = (refl, refl)

pub invited-IsGoing : (b : Text) → IsGoing (send (invite 1 b []) (new_call b))
unfolding IsGoing new_call send statuses authorizations
invited-IsGoing b = (refl, refl)

-- The state after a response fits its ending.
pub Fits : Call × Ending → Type 0
Fits (c, none) = IsGoing c
Fits (c, some r) = HasEnded c r

module _ {ℓ} {Addr : Type ℓ} (services : Services Addr) (d : Dialling) where
  authorize_ok :
      (resp : SipResponse) (c : Call) (t : Text)
      → authorize services d resp c ≡ ok t
      → (c.auth_tried ≡ false) × (is_empty t ≡ false)
  unfolding authorize
  authorize_ok resp c t h = ground (arith, h)

  retry-Fits :
      (w : Bool) (c : Call) (a : Result DialoutError Text)
      → IsGoing c
      → ((t : Text) → a ≡ ok t → (c.auth_tried ≡ false) × (is_empty t ≡ false))
      → Fits (retry services d w a c)
  unfolding retry Fits IsGoing HasEnded send statuses authorizations
  retry-Fits w c (err e) h k = IsGoing-HasEnded c e h
  retry-Fits false c (ok t) (hs, ha) k = (
    (c.ringing_sent, false, hs ∙ sym (append-nil (if c.ringing_sent then ringing ∷ [] else []))),
    (c.auth_tried, ha),
  )
  retry-Fits true c (ok t) (hs, ha) k =
      let m = invite (c.cseq + 1) (services.new_branch c.ids) t in
      (
        statuses-append c.sent (m ∷ []) ∙ append-nil (statuses c.sent) ∙ hs,
        ground (arith, authorizations-append c.sent (m ∷ []), ha, k t refl),
      )

  challenged-Fits :
      (w : Bool) (resp : SipResponse) (c : Call) → IsGoing c → Fits (challenged services d w resp c)
  unfolding challenged send_ack send
  challenged-Fits w resp c h =
      retry-Fits w (send_ack d resp c.branch c) (authorize services d resp c)
        (send_ack-IsGoing d resp c.branch c h) (authorize_ok resp c)

  answered-Fits :
      (w : Bool) (resp : SipResponse) (c : Call) → IsGoing c → Fits (answered services d w resp c)
  unfolding answered Fits HasEnded IsGoing send statuses authorizations send_ack
  answered-Fits w resp c h =
      let a = send_ack d resp (services.new_branch c.ids) c in
      let (hs, ha) = send_ack-IsGoing d resp (services.new_branch c.ids) c h in
      let up = status connected [] resp.code in
      let down = status cleared (codes "normal-clearing") (pos 200) in
      let up_statuses =
        statuses-append a.sent (up ∷ []) ∙ ap (λ (l : List Status). l ++ connected ∷ []) hs in
      let up_count = authorizations-append a.sent (up ∷ []) in
      let down_statuses =
        statuses-append (a.sent ++ up ∷ []) (down ∷ [])
        ∙ ap (λ (l : List Status). l ++ cleared ∷ []) up_statuses
        ∙ append_assoc (if c.ringing_sent then ringing ∷ [] else []) (connected ∷ [])
            (cleared ∷ []) in
      let down_count = authorizations-append (a.sent ++ up ∷ []) (down ∷ []) in
      elim (Result-cases (parse_sdp_answer services.resolve resp.body)) [
        | inr (e, f) ↦
            rw (f, answered)
              ((c.ringing_sent, true, up_statuses), (c.auth_tried, omega (arith, up_count, ha)))
        | inl ((remote, pt), f) ↦ elim (Bool-cases w) [
          | inl g ↦
              rw (f, g, answered)
                (
                  (c.ringing_sent, true, down_statuses),
                  (c.auth_tried, omega (arith, down_count, up_count, ha)),
                )
          | inr g ↦
              rw (f, g, answered)
                ((c.ringing_sent, true, up_statuses), (c.auth_tried, omega (arith, up_count, ha)))
        ]
      ]

  respond-Fits :
      (w g : Bool) (resp : SipResponse) (c : Call)
      → IsGoing c
      → Fits (respond services d w g resp c)
  unfolding respond Fits IsGoing
  respond-Fits w g resp c h =
      let acked =
        IsGoing-HasEnded (send_ack d resp c.branch c) rejected
          (send_ack-IsGoing d resp c.branch c h) in
      elim (Bool-cases (is_code 180 resp.code || is_code 183 resp.code)) [
        | inl e ↦ rw e (ring-IsGoing resp c h)
        | inr e ↦ elim (Bool-cases (is_code 401 resp.code || is_code 407 resp.code)) [
          | inl f ↦ rw (e, f) (challenged-Fits w resp c h)
          | inr f ↦ elim (Bool-cases (is_success resp.code)) [
            | inl i ↦ rw (e, f, i) (answered-Fits g resp c h)
            | inr i ↦ elim (Bool-cases (is_at_least 300 resp.code)) [
              | inl j ↦ rw (e, f, i, j) acked
              | inr j ↦ rw (e, f, i, j) h
            ]
          ]
        ]
      ]

  receive-Fits :
      (raw : Text) (w g : Bool) (c : Call) → IsGoing c → Fits (receive services d raw w g c)
  unfolding receive Fits IsGoing
  receive-Fits raw w g c h = elim (Result-cases (parse_sip_response raw)) [
    | inr (e, f) ↦ rw (f, receive) h
    | inl (resp, f) ↦ rw (f, receive) (respond-Fits w g resp c h)
  ]

  leave-HasEnded :
      (p : Call × Ending) (rest : Call × Result DialoutError (Unit {0}))
      → Fits p
      → (IsGoing p.0 → HasEnded rest.0 rest.1)
      → HasEnded (leave p rest).0 (leave p rest).1
  unfolding leave Fits
  leave-HasEnded (t, none) rest h k = k h
  leave-HasEnded (t, some r) rest h k = h

  -- Whatever the socket delivers before the deadline, a call that has sent what its flags say ends
  -- with the statuses ringing, at most once, then connected, at most once, and then cleared exactly
  -- if the call ended well; and it has sent its credentials once at most.
  pub dial_loop-HasEnded :
      (reads : List Read) (c : Call)
      → IsGoing c
      → HasEnded (dial_loop services d reads c).0 (dial_loop services d reads c).1
  unfolding dial_loop
  dial_loop-HasEnded [] c h = IsGoing-HasEnded c timed_out h
  dial_loop-HasEnded (read_timeout ∷ reads) c h = dial_loop-HasEnded reads c h
  dial_loop-HasEnded (read_error ∷ reads) c h = IsGoing-HasEnded c read_failed h
  dial_loop-HasEnded (datagram raw w g ∷ reads) c h =
      leave-HasEnded (receive services d raw w g c)
        (dial_loop services d reads (receive services d raw w g c).0) (receive-Fits raw w g c h)
        (dial_loop-HasEnded reads (receive services d raw w g c).0)
