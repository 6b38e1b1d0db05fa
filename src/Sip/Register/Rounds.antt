-- ===== src/Sip/Register/Rounds.antt =====
-- What decides a registration: at most two of the final responses.
use talk_telephony_gateway_p.Base.{
  ◌≡◌, refl, Bool, true, false, ◌||◌, List, [], ◌∷◌, none, some, if◌then◌else◌, Result, ok, err,
  arith, Bool-cases, inl, inr, ==_iff,
}
use talk_telephony_gateway_p.Base.Int.{ℤ, pos, negsuc}
use talk_telephony_gateway_p.Text.{Text}
use talk_telephony_gateway_p.Accounts.{SipAccount}
use talk_telephony_gateway_p.Sip.{SipResponse}
use talk_telephony_gateway_p.Sip.Dialout.{is_code, is_at_least, is_success}
use talk_telephony_gateway_p.Sip.Register.{
  Library, Registering, Attempt, Arrival, RegisterError, authentication_rejected, rejected,
  not_sent, granted, is_challenge, Outcome, settle, register_text, register_branch, authorization,
  register_again, respond, register_loop, first_register, no_attempt,
}

-- The responses from 200 on.
pub finals : List Arrival → List Arrival
finals [] = []
finals (x ∷ xs) = let rest = finals xs in if is_at_least 200 x.response.code then x ∷ rest else rest

-- A final response that is no challenge.
pub verdict : Registering → SipResponse → Result RegisterError ℤ
verdict d resp = if is_success resp.code then ok (granted d.expires resp) else err rejected

-- The first final response after the second REGISTER.
pub second_round : Registering → RegisterError → List Arrival → Result RegisterError ℤ
second_round d stop [] = err stop
second_round d stop (x ∷ xs) =
    if is_challenge x.response then err authentication_rejected else verdict d x.response

-- A final response is a challenge, a success or a code from 300 on; others are none of these.
codes_apart :
    (c : ℤ)
    → (is_at_least 200 c ≡ false → (is_code 401 c || is_code 407 c) ≡ false)
      × ((is_at_least 200 c ≡ false → is_success c ≡ false)
          × (is_at_least 200 c ≡ false → is_at_least 300 c ≡ false))
codes_apart (pos n) = (
  λ h. ground (arith, h, ==_iff n 401, ==_iff n 407),
  (λ h. ground (arith, h), λ h. ground (arith, h)),
)
codes_apart (negsuc n) = (λ h. refl, (λ h. refl, λ h. refl))

above : (c : ℤ) → is_at_least 200 c ≡ true → is_success c ≡ false → is_at_least 300 c ≡ true
above (pos n) h g = ground (arith, h, g)
above (negsuc n) h g = ground (arith, h)

module _ {ℓ} {Addr : Type ℓ} (lib : Library Addr) (d : Registering) (a : SipAccount) where
  -- The first final response after the first REGISTER.
  answer_challenge : Result RegisterError Text → Bool → RegisterError → List Arrival → Outcome
  answer_challenge (err e) is_written stop xs = (first_register lib d, err e)
  answer_challenge (ok auth) false stop xs =
      (record (first_register lib d) { auth_tried = true; cseq = 2; ids = 4 }, err not_sent)
  answer_challenge (ok auth) true stop xs = (
    record (first_register lib d) {
      auth_tried = true;
      cseq = 2;
      ids = 4;
      sent =
          register_text d 1 (register_branch lib 2) []
          ∷ register_text d 2 (register_branch lib 3) auth
          ∷ [];
    },
    second_round d stop xs,
  )

  pub two_rounds : RegisterError → List Arrival → Outcome
  two_rounds stop [] = (first_register lib d, err stop)
  two_rounds stop (x ∷ xs) =
      if is_challenge x.response
      then answer_challenge (authorization lib d a x.response 3) x.is_written stop xs
      else (first_register lib d, verdict d x.response)

  respond_skips :
      (x : Arrival) (c : Attempt)
      → is_at_least 200 x.response.code ≡ false
      → respond lib d a x c ≡ (c, none)
  unfolding respond
  respond_skips x c h = let (e, (f, g)) = codes_apart x.response.code in rw (e h, f h, g h) refl

  respond_decides :
      (x : Arrival) (c : Attempt)
      → is_at_least 200 x.response.code ≡ true
      → is_challenge x.response ≡ false
      → respond lib d a x c ≡ (c, some (verdict d x.response))
  unfolding respond verdict
  respond_decides x c h g = elim (Bool-cases (is_success x.response.code)) [
    | inl e ↦ rw (g, e) refl
    | inr e ↦ rw (g, e, above x.response.code h e) refl
  ]

  respond_again :
      (x : Arrival) (c : Attempt)
      → is_challenge x.response ≡ true
      → c.auth_tried ≡ true
      → respond lib d a x c ≡ (c, some (err authentication_rejected))
  unfolding respond
  respond_again x c h t = rw (h, t) refl

  respond_first :
      (x : Arrival)
      → is_challenge x.response ≡ true
      → respond lib d a x (first_register lib d)
        ≡ register_again lib d x.is_written
            (authorization lib d a x.response 3)
            (first_register lib d)
  unfolding respond first_register no_attempt
  respond_first x h = rw h refl

  loop_again :
      (stop : RegisterError) (xs : List Arrival) (c : Attempt)
      → c.auth_tried ≡ true
      → register_loop lib d a stop xs c ≡ (c, second_round d stop (finals xs))
  unfolding register_loop settle finals second_round
  loop_again stop [] c t = refl
  loop_again stop (x ∷ xs) c t = elim (Bool-cases (is_at_least 200 x.response.code)) [
    | inr e ↦ rw (e, respond_skips x c e) (loop_again stop xs c t)
    | inl e ↦ elim (Bool-cases (is_challenge x.response)) [
      | inr f ↦ rw (e, f, respond_decides x c e f) refl
      | inl f ↦ rw (e, f, respond_again x c f t) refl
    ]
  ]

  settle_challenge :
      (r : Result RegisterError Text) (is_written : Bool) (stop : RegisterError) (xs : List Arrival)
      → settle (register_again lib d is_written r (first_register lib d)) (
          register_loop lib d a stop xs
            (register_again lib d is_written r (first_register lib d)).0)
        ≡ answer_challenge r is_written stop (finals xs)
  unfolding settle register_again answer_challenge first_register no_attempt
  settle_challenge (err e) is_written stop xs = refl
  settle_challenge (ok auth) false stop xs = refl
  settle_challenge (ok auth) true stop xs =
      loop_again stop xs
        (record (first_register lib d) {
          auth_tried = true;
          cseq = 2;
          ids = 4;
          sent =
              register_text d 1 (register_branch lib 2) []
              ∷ register_text d 2 (register_branch lib 3) auth
              ∷ [];
        })
        refl

  -- A registration is decided by its final responses alone, the first or, when that is a challenge
  -- that can be answered, the second; responses below 200 change nothing. It sends one REGISTER, or
  -- two when it answers a challenge, numbered 1 and 2.
  pub register_loop-two_rounds :
      (stop : RegisterError) (xs : List Arrival)
      → register_loop lib d a stop xs (first_register lib d) ≡ two_rounds stop (finals xs)
  unfolding register_loop settle finals two_rounds
  register_loop-two_rounds stop [] = refl
  register_loop-two_rounds stop (x ∷ xs) = elim (Bool-cases (is_at_least 200 x.response.code)) [
    | inr e ↦ rw (e, respond_skips x (first_register lib d) e) (register_loop-two_rounds stop xs)
    | inl e ↦ elim (Bool-cases (is_challenge x.response)) [
      | inr f ↦ rw (e, f, respond_decides x (first_register lib d) e f) refl
      | inl f ↦
          rw (e, f, respond_first x f)
            (settle_challenge (authorization lib d a x.response 3) x.is_written stop xs)
    ]
  ]
