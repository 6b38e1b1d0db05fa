-- ===== src/Inbound/Calls.antt =====
-- The registry of calls under every interleaving of requests and ends of calls.
use talk_telephony_gateway_p.Base.{
  ℕ, ◌≡◌, refl, true, ◌||◌, ◌&&◌, List, [], ◌∷◌, none, some, ◌==◌, if◌then◌else◌, arith, Bool-cases,
  Option-cases, inl, inr, ==_refl,
}
use talk_telephony_gateway_p.Text.{Text, codes, text_eq, is_empty}
use talk_telephony_gateway_p.Text.Laws.{text_eq_iff}
use talk_telephony_gateway_p.Dict.{lookup, lookup-insert, lookup-erase}
use talk_telephony_gateway_p.Sip.{SipRequest}
use talk_telephony_gateway_p.Inbound.{
  Registry, call_id, reply, begin_call, cancel_call, leave, end_call, is_method, handle_request,
}

-- No two calls of the list have the same Call-ID.
pub IsSingle : List (Text × ℕ) → Type 0
unfolding lookup
IsSingle [] = Unit {0}
IsSingle ((id, n) ∷ cs) = (lookup id cs ≡ none) × IsSingle cs

leave_absent : (id : Text) (n : ℕ) (cs : List (Text × ℕ)) → lookup id cs ≡ none → leave id n cs ≡ cs
unfolding lookup leave
leave_absent id n [] h = refl
leave_absent id n ((j, m) ∷ cs) h = ground (arith, h, leave_absent id n cs)

leave-none :
    (id j : Text) (n : ℕ) (cs : List (Text × ℕ))
    → lookup j cs ≡ none
    → lookup j (leave id n cs) ≡ none
unfolding lookup leave
leave-none id j n [] h = refl
leave-none id j n ((i, m) ∷ cs) h = ground (arith, h, leave-none id j n cs)

leave-IsSingle : (id : Text) (n : ℕ) (cs : List (Text × ℕ)) → IsSingle cs → IsSingle (leave id n cs)
unfolding IsSingle leave
leave-IsSingle id n [] h = tt
leave-IsSingle id n ((j, m) ∷ cs) (hj, h) = elim (Bool-cases (text_eq j id && m == n)) [
  | inl e ↦ rw e (leave-IsSingle id n cs h)
  | inr e ↦ rw e (leave-none id j n cs hj, leave-IsSingle id n cs h)
]

lookup-leave :
    (id k : Text) (n : ℕ) (cs : List (Text × ℕ))
    → IsSingle cs
    → lookup id cs ≡ some n
    → lookup k (leave id n cs) ≡ (if text_eq id k then none else lookup k cs)
unfolding IsSingle lookup leave
lookup-leave id k n [] s h = cc
lookup-leave id k n ((j, m) ∷ cs) (sj, s) h = ground (
  arith,
  h,
  sj,
  lookup-leave id k n cs s,
  leave_absent id n cs,
  text_eq_iff j id,
  text_eq_iff id k,
  text_eq_iff j k,
  ==_refl n,
)

-- The map knows exactly the calls that run, each under its Call-ID.
pub record IsTracked (r : Registry) : Type 0 where
  pub single : IsSingle r.running
  pub known : (k : Text) → lookup k r.calls ≡ lookup k r.running

-- An INVITE of a call that runs already is no step.
pub data Step (r : Registry) : Registry → Type 0 where
  request :
      (req : SipRequest)
      → (is_method (codes "INVITE") req ≡ true → lookup (call_id req) r.running ≡ none)
      → Step r (handle_request req r)
  finish : (id : Text) (n : ℕ) → lookup id r.running ≡ some n → Step r (end_call id n r)

unfoldable pub no_calls : Registry
no_calls = record { calls = []; running = []; cancelled = []; next_context = 0; sent = [] }

pub data Reach : Registry → Type 0 where
  start : Reach no_calls
  later : {r s : Registry} → Reach r → Step r s → Reach s

begin_call-IsTracked :
    (id : Text) (r : Registry)
    → lookup id r.running ≡ none
    → IsTracked r
    → IsTracked (begin_call id r)
unfolding begin_call IsSingle lookup
begin_call-IsTracked id r h t = record {
  single = (h, t.single);
  known = λ k. ground (arith, lookup-insert id k r.next_context r.calls, t.known k);
}

end_call-IsTracked :
    (id : Text) (n : ℕ) (r : Registry)
    → lookup id r.running ≡ some n
    → IsTracked r
    → IsTracked (end_call id n r)
unfolding end_call
end_call-IsTracked id n r h t = record {
  single = leave-IsSingle id n r.running t.single;
  known = λ k.
      ground
        (arith, lookup-erase id k r.calls, t.known k, lookup-leave id k n r.running t.single h);
}

reply-IsTracked :
    (req : SipRequest) (code : ℕ) (phrase : Text) (r : Registry)
    → IsTracked r
    → IsTracked (reply req code phrase r)
unfolding reply
reply-IsTracked req code phrase r t = record { single = t.single; known = t.known }

cancel_call-IsTracked : (id : Text) (r : Registry) → IsTracked r → IsTracked (cancel_call id r)
unfolding cancel_call
cancel_call-IsTracked id r t = elim (Option-cases (lookup id r.calls)) [
  | inl e ↦ rw (e, cancel_call) t
  | inr (n, e) ↦ rw (e, cancel_call) (record { single = t.single; known = t.known })
]

handle_request-IsTracked :
    (req : SipRequest) (r : Registry)
    → (is_method (codes "INVITE") req ≡ true → lookup (call_id req) r.running ≡ none)
    → IsTracked r
    → IsTracked (handle_request req r)
unfolding handle_request
handle_request-IsTracked req r fresh t =
    elim (Bool-cases (is_method (codes "OPTIONS") req || is_method (codes "NOTIFY") req)) [
      | inl e ↦ rw e (reply-IsTracked req 200 (codes "OK") r t)
      | inr e ↦ elim (Bool-cases (is_method (codes "INVITE") req)) [
        | inl f ↦ elim (Bool-cases (is_empty (call_id req))) [
          | inl g ↦ rw (e, f, g) (reply-IsTracked req 400 (codes "Bad Request") r t)
          | inr g ↦
              rw (e, f, g)
                (begin_call-IsTracked (call_id req) (reply req 100 (codes "Trying") r)
                  (unfold reply in fresh f) (reply-IsTracked req 100 (codes "Trying") r t))
        ]
        | inr f ↦
            elim (Bool-cases (is_method (codes "CANCEL") req || is_method (codes "BYE") req)) [
              | inl g ↦
                  rw (e, f, g)
                    (cancel_call-IsTracked (call_id req) (reply req 200 (codes "OK") r)
                      (reply-IsTracked req 200 (codes "OK") r t))
              | inr g ↦ elim (Bool-cases (is_method (codes "ACK") req)) [
                | inl i ↦ rw (e, f, g, i) t
                | inr i ↦ rw (e, f, g, i) (reply-IsTracked req 405 (codes "Method Not Allowed") r t)
              ]
            ]
      ]
    ]

Step-IsTracked : {r s : Registry} → Step r s → IsTracked r → IsTracked s
Step-IsTracked {r} (request req fresh) t = handle_request-IsTracked req r fresh t
Step-IsTracked {r} (finish id n h) t = end_call-IsTracked id n r h t

no_calls-IsTracked : IsTracked no_calls
unfolding no_calls IsSingle
no_calls-IsTracked = record { single = tt; known = λ k. refl }

-- While no INVITE repeats the Call-ID of a call that runs, the registry knows exactly the calls
-- that run, whatever other requests come and in whatever order calls begin and end.
pub Reach-IsTracked : {r : Registry} → Reach r → IsTracked r
Reach-IsTracked start = no_calls-IsTracked
Reach-IsTracked (later reach st) = Step-IsTracked st (Reach-IsTracked reach)
