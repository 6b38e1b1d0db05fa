-- ===== src/Inbound/Transport/Registers.antt =====
-- cmd/gateway/accounts.go: `register` as a client of the shared transport. It waits under its
-- Call-ID while datagrams come and other clients wait and take, and stops waiting at its end.
use talk_telephony_gateway_p.Base.{
  ◌≡◌, refl, ap, ◌∙◌, Bool, List, [], ◌∷◌, Option, none, some, err, All, inl, inr, arith, subst,
  ◌⊎◌,
}
use talk_telephony_gateway_p.Text.{Text}
use talk_telephony_gateway_p.Text.Laws.{text_eq_refl}
use talk_telephony_gateway_p.Dict.{lookup, lookup-insert, lookup-erase}
use talk_telephony_gateway_p.Accounts.{SipAccount}
use talk_telephony_gateway_p.Sip.{SipResponse}
use talk_telephony_gateway_p.Sip.Register.{
  Library, Registering, Attempt, Arrival, RegisterError, Ending, Outcome, settle, respond,
  register_loop, first_register,
}
use talk_telephony_gateway_p.Inbound.{Registry}
use talk_telephony_gateway_p.Inbound.Transport.{
  Transport, register_waiter, forget_waiter, take_response,
}
use talk_telephony_gateway_p.Inbound.Transport.Delivery.{Event, happen_all}
use talk_telephony_gateway_p.Inbound.Transport.Inbox.{
  inbox, Holds, IsOthers, take_own-Holds, happen_all-Holds,
}

-- What happens before the loop looks at its channel, and what the write of a second REGISTER
-- answers should it be reached.
pub record Round (Ip : Type 0) : Type 0 where
  pub events : List (Event Ip)
  pub is_written : Bool

abbrev pub World : Type 0 → Type 0
World Ip = Transport Ip × Registry

unfoldable pub oldest : Option (List SipResponse) → Option SipResponse
oldest none = none
oldest (some []) = none
oldest (some (resp ∷ queue)) = some resp

abbrev arrival : {Ip : Type 0} → Round Ip → SipResponse → Arrival
arrival round resp = record { response = resp; is_written = round.is_written }

abbrev taken : {Ip : Type 0} → Text → World Ip → World Ip
taken id (t, r) = (take_response id t, r)

-- How a response leaves the loop, beside the transport.
unfoldable pub settle_world :
    {Ip : Type 0} → World Ip → Attempt × Ending → World Ip × Outcome → World Ip × Outcome
settle_world w (c, none) rest = rest
settle_world w (c, some r) rest = (w, (c, r))

settle_world-settle :
    {Ip : Type 0} (w : World Ip) (t : Attempt × Ending) (rest : World Ip × Outcome)
    → (settle_world w t rest).1 ≡ settle t rest.1
unfolding settle_world settle
settle_world-settle w (c, none) rest = refl
settle_world-settle w (c, some r) rest = refl

-- What the loop takes: in each round the oldest response of its inbox, if there is one.
pub arrivals_in :
    {Ip : Type 0} (same_ip : Ip → Ip → Bool) (trusted : Option Ip) (id : Text)
    → List (Round Ip)
    → List SipResponse
    → List Arrival
arrivals_in same_ip trusted id [] queue = []
arrivals_in same_ip trusted id (round ∷ rounds) queue =
    elim (inbox same_ip trusted id round.events queue) [
      | [] ↦ arrivals_in same_ip trusted id rounds []
      | resp ∷ rest ↦ arrival round resp ∷ arrivals_in same_ip trusted id rounds rest
    ]

-- No other client uses the Call-ID meanwhile.
unfoldable pub IsAlone : {Ip : Type 0} → Text → List (Round Ip) → Type 0
IsAlone id rounds = All (λ round. All (IsOthers id) round.events) rounds

List-cases :
    (queue : List SipResponse)
    → (queue ≡ []) ⊎ ((resp : SipResponse) × (rest : List SipResponse) × (queue ≡ resp ∷ rest))
List-cases [] = inl refl
List-cases (resp ∷ rest) = inr (resp, rest, refl)

module _ {ℓ} {Addr : Type ℓ} {Ip : Type 0} (same_ip : Ip → Ip → Bool) (lib : Library Addr)
    (d : Registering) (a : SipAccount) where
  -- The loop over what the channel holds.
  unfoldable pub register_rounds :
      RegisterError → List (Round Ip) → World Ip → Attempt → World Ip × Outcome
  unfolding lookup
  register_rounds stop [] w c = (w, (c, err stop))
  register_rounds stop (round ∷ rounds) w c =
      let now = happen_all same_ip round.events w in
      elim (oldest (lookup d.register_call_id now.0.waiters)) [
        | none ↦ register_rounds stop rounds now c
        | some resp ↦
            let after = taken d.register_call_id now in
            let t = respond lib d a (arrival round resp) c in
            settle_world after t (register_rounds stop rounds after t.0)
      ]

  unfoldable pub forget_after : World Ip × Outcome → World Ip × Outcome
  forget_after ((t, r), o) = ((forget_waiter d.register_call_id t, r), o)

  -- From the first REGISTER, which was sent, to the end of the wait.
  unfoldable pub register_shared : RegisterError → List (Round Ip) → World Ip → World Ip × Outcome
  register_shared stop rounds (t, r) =
      forget_after (
        register_rounds stop rounds (register_waiter d.register_call_id t, r)
          (first_register lib d))

  -- The loop over the shared transport is the one over what its inbox gives.
  register_rounds-register_loop :
      (stop : RegisterError) (rounds : List (Round Ip)) (w : World Ip) (c : Attempt)
      (trusted : Option Ip) (queue : List SipResponse)
      → IsAlone d.register_call_id rounds
      → Holds trusted d.register_call_id queue w.0
      → (register_rounds stop rounds w c).1
        ≡ register_loop lib d a stop (arrivals_in same_ip trusted d.register_call_id rounds queue) c
  unfolding register_rounds register_loop arrivals_in IsAlone
  register_rounds-register_loop stop [] w c trusted queue o h = refl
  register_rounds-register_loop stop (round ∷ rounds) w c trusted queue (o, os) h =
      let id = d.register_call_id in
      let now = happen_all same_ip round.events w in
      let held = happen_all-Holds same_ip trusted id round.events queue w o h in
      elim (List-cases (inbox same_ip trusted id round.events queue)) [
        | inl e ↦
            let held' = subst (λ (q : List SipResponse). Holds trusted id q now.0) e held in
            let none_yet : oldest (lookup id now.0.waiters) ≡ none =
              unfold oldest in ap oldest held'.waiting in
            rw (e, none_yet, register_rounds, arrivals_in)
              (register_rounds-register_loop stop rounds now c trusted [] os held')
        | inr (resp, rest, e) ↦
            let held' = subst (λ (q : List SipResponse). Holds trusted id q now.0) e held in
            let first : oldest (lookup id now.0.waiters) ≡ some resp =
              unfold oldest in ap oldest held'.waiting in
            let t = respond lib d a (arrival round resp) c in
            rw (e, first, register_rounds, arrivals_in)
              (settle_world-settle (taken id now) t (register_rounds stop rounds (taken id now) t.0)
                ∙ ap (settle t) (
                    register_rounds-register_loop stop rounds (taken id now) t.0 trusted rest os
                      (take_own-Holds trusted id resp rest now.0 held')))
      ]

  forget_after-none :
      (x : World Ip × Outcome) → lookup d.register_call_id (forget_after x).0.0.waiters ≡ none
  unfolding forget_after forget_waiter
  forget_after-none ((t, r), o) =
      rw
        (
          lookup-erase d.register_call_id d.register_call_id t.waiters,
          text_eq_refl d.register_call_id,
        )
        refl

  forget_after-outcome : (x : World Ip × Outcome) → (forget_after x).1 ≡ x.1
  unfolding forget_after
  forget_after-outcome ((t, r), o) = refl

  waiter-Holds :
      (t : Transport Ip)
      → Holds t.trusted d.register_call_id [] (register_waiter d.register_call_id t)
  unfolding register_waiter
  waiter-Holds t = record {
    waiting =
        rw
          (
            lookup-insert d.register_call_id d.register_call_id [] t.waiters,
            text_eq_refl d.register_call_id,
          )
          refl;
    trust = refl;
    short = omega arith;
  }

  -- While no other client uses its Call-ID, a registration over the shared transport has the outcome
  -- of the response loop on what an inbox of its own would give it: the responses that come from a
  -- trusted address under its Call-ID, in their order, up to eight at a time, one to each round that
  -- finds one; whatever else happens at the transport meanwhile. Its waiter is gone in the end.
  pub register_shared-register_loop :
      (stop : RegisterError) (rounds : List (Round Ip)) (w : World Ip)
      → IsAlone d.register_call_id rounds
      → ((register_shared stop rounds w).1
          ≡ register_loop lib d a stop
              (arrivals_in same_ip w.0.trusted d.register_call_id rounds [])
              (first_register lib d))
        × (lookup d.register_call_id (register_shared stop rounds w).0.0.waiters ≡ none)
  unfolding register_shared
  register_shared-register_loop stop rounds (t, r) o =
      let x =
        register_rounds stop rounds (register_waiter d.register_call_id t, r)
          (first_register lib d) in
      (
        forget_after-outcome x
            ∙ register_rounds-register_loop stop rounds (register_waiter d.register_call_id t, r)
                (first_register lib d) t.trusted [] o (waiter-Holds t),
        forget_after-none x,
      )
