-- ===== src/Sip/Register/Refresh.antt =====
-- cmd/gateway/accounts.go: `registrationLoop`, in nanoseconds of a clock. Three quarters of a
-- lifetime are exact, as those of a float64 are below 2 ^ 51; the product with a second wraps in
-- an int64.
use talk_telephony_gateway_p.Base.{
  ℕ, zero, suc, ◌+◌, ◌-◌, ◌*◌, ◌/◌, ◌%◌, ◌^◌, ◌≤◌, ◌<◌, ◌≡◌, ◌↔◌, ◌⊎◌, refl, Bool, not, ◌&&◌, ◌||◌,
  List, [], ◌∷◌, if◌then◌else◌, Result, ok, err, arith, Bool-cases, inl, inr, leb, ltb,
  Result-cases,
}
use talk_telephony_gateway_p.Base.Int.{ℤ, pos, negsuc}
use talk_telephony_gateway_p.Sip.Register.{RegisterError}

abbrev pub second : ℕ
second = 10 ^ 9

abbrev least_pause : ℕ
least_pause = 30 * second

-- A Duration of 64 bits that is below 30 seconds or negative is raised.
at_least_30 : ℕ → ℕ
at_least_30 p = if leb (2 ^ 63) p || ltb p least_pause then least_pause else p

-- The pause before a registration is refreshed.
unfoldable pub refresh : ℤ → ℕ
unfolding at_least_30
refresh (pos n) = at_least_30 ((n * 3 / 4 * second) % 2 ^ 64)
refresh (negsuc n) = at_least_30 ((2 ^ 64 - (suc n * 3 / 4 * second) % 2 ^ 64) % 2 ^ 64)

-- The lifetime in seconds: the configured one, if the granted one is not positive.
unfoldable pub lifetime : ℤ → ℤ → ℤ
lifetime configured (pos zero) = configured
lifetime configured (pos (suc n)) = pos (suc n)
lifetime configured (negsuc n) = configured

-- One turn of the loop: what `register` returns and how long it takes, whether the context has
-- ended by then, and whether the pause elapses before the context ends.
pub record Turn : Type 0 where
  pub result : Result RegisterError ℤ
  pub took : ℕ
  pub is_ended : Bool
  pub is_elapsed : Bool

-- A registration that was tried, with what `register` returned.
pub record Try : Type 0 where
  pub begun : ℕ
  pub ended : ℕ
  pub result : Result RegisterError ℤ

unfoldable pub goes_on : Turn → Result RegisterError ℤ → Bool
goes_on turn (err e) = not turn.is_ended && turn.is_elapsed
goes_on turn (ok n) = turn.is_elapsed

pub pause : ℤ → Result RegisterError ℤ → ℕ
pause configured (err e) = 5 * second
pause configured (ok n) = refresh (lifetime configured n)

unfoldable pub registration_loop : ℤ → ℕ → List Turn → List Try
registration_loop configured now [] = []
registration_loop configured now (turn ∷ turns) =
    let rest =
      registration_loop configured (now + turn.took + pause configured turn.result) turns in
    record { begun = now; ended = now + turn.took; result = turn.result }
    ∷ (if goes_on turn turn.result then rest else [])

-- A registration that lasts from 1 to 2 ^ 33 - 1 seconds is refreshed before it is over exactly if it
-- lasts more than 30.
pub refresh_in_time : (n : ℕ) → 0 < n → n < 2 ^ 33 → (refresh (pos n) < n * second) ↔ (30 < n)
unfolding refresh at_least_30
refresh_in_time n h g = (λ k. ground (arith, h, g, k), λ k. ground (arith, h, g, k))

refresh_least : (z : ℤ) → least_pause ≤ refresh z
unfolding refresh at_least_30
refresh_least (pos n) = ground arith
refresh_least (negsuc n) = ground arith

-- A lifetime of more than 30 seconds, and less than 2 ^ 33, is not over when it is refreshed.
pub IsBefore : ℤ → (ended begun : ℕ) → Type 0
IsBefore (negsuc n) ended begun = Unit {0}
IsBefore (pos n) ended begun = (n ≤ 30) ⊎ ((2 ^ 33 ≤ n) ⊎ (begun < ended + n * second))

-- A success is refreshed within the seconds that the server grants, or within the configured ones
-- where it grants none.
pub IsRefreshed : ℤ → Result RegisterError ℤ → (ended begun : ℕ) → Type 0
unfolding IsBefore
IsRefreshed configured (err e) ended begun = Unit {0}
IsRefreshed configured (ok (pos zero)) ended begun = IsBefore configured ended begun
IsRefreshed configured (ok (pos (suc n))) ended begun = IsBefore (pos (suc n)) ended begun
IsRefreshed configured (ok (negsuc n)) ended begun = IsBefore configured ended begun

-- The second of two tries comes 5 seconds after the first at the earliest, and refreshes it.
pub record Follows (configured : ℤ) (x y : Try) : Type 0 where
  pub paused : x.ended + 5 * second ≤ y.begun
  pub refreshed : IsRefreshed configured x.result x.ended y.begun

pub IsPaced : ℤ → List Try → Type 0
IsPaced configured [] = Unit {0}
IsPaced configured (x ∷ []) = Unit {0}
IsPaced configured (x ∷ y ∷ ys) = Follows configured x y × IsPaced configured (y ∷ ys)

refresh-IsBefore : (z : ℤ) (ended : ℕ) → IsBefore z ended (ended + refresh z)
unfolding IsBefore
refresh-IsBefore (negsuc n) ended = tt
refresh-IsBefore (pos n) ended = elim (Bool-cases (leb n 30)) [
  | inl e ↦ inl (ground (arith, e))
  | inr e ↦ elim (Bool-cases (leb (2 ^ 33) n)) [
    | inl f ↦ inr (inl (ground (arith, f)))
    | inr f ↦
        let k = (refresh_in_time n (ground (arith, e)) (ground (arith, f))).1 (ground (arith, e)) in
        inr (inr (omega (arith, k)))
  ]
]

refresh-IsRefreshed :
    (configured granted : ℤ) (ended : ℕ)
    → IsRefreshed configured (ok granted) ended (ended + refresh (lifetime configured granted))
unfolding IsRefreshed lifetime
refresh-IsRefreshed configured (pos zero) ended = refresh-IsBefore configured ended
refresh-IsRefreshed configured (pos (suc n)) ended = refresh-IsBefore (pos (suc n)) ended
refresh-IsRefreshed configured (negsuc n) ended = refresh-IsBefore configured ended

-- The next try begins after the pause.
pause-Follows :
    (configured : ℤ) (now : ℕ) (turn : Turn) (y : Try)
    → y.begun ≡ now + turn.took + pause configured turn.result
    → Follows configured (record { begun = now; ended = now + turn.took; result = turn.result }) y
unfolding pause IsRefreshed
pause-Follows configured now turn y h = elim (Result-cases turn.result) [
  | inr (x, e) ↦ record { paused = ground (arith, rw e at h); refreshed = rw e tt }
  | inl (z, e) ↦ record {
    paused = ground (arith, rw e at h, refresh_least (lifetime configured z));
    refreshed = rw (h, e) (refresh-IsRefreshed configured z (now + turn.took));
  }
]

IsPaced-cons :
    (configured : ℤ) (x : Try) (now : ℕ) (turns : List Turn)
    → ((y : Try) → y.begun ≡ now → Follows configured x y)
    → IsPaced configured (registration_loop configured now turns)
    → IsPaced configured (x ∷ registration_loop configured now turns)
unfolding IsPaced registration_loop
IsPaced-cons configured x now [] h p = tt
IsPaced-cons configured x now (turn ∷ turns) h p =
    (h (record { begun = now; ended = now + turn.took; result = turn.result }) refl, p)

-- A REGISTER follows another at least 5 seconds after its end. After one that the server granted
-- some seconds, it comes before these are over, and after one that succeeded and was granted none,
-- before the configured ones are over, if they are more than 30 and less than 2 ^ 33.
pub registration_loop-IsPaced :
    (configured : ℤ) (now : ℕ) (turns : List Turn)
    → IsPaced configured (registration_loop configured now turns)
unfolding IsPaced registration_loop
registration_loop-IsPaced configured now [] = tt
registration_loop-IsPaced configured now (turn ∷ turns) =
    let next = now + turn.took + pause configured turn.result in
    elim (Bool-cases (goes_on turn turn.result)) [
      | inr e ↦ rw e tt
      | inl e ↦ rw e (
          IsPaced-cons configured
            (record { begun = now; ended = now + turn.took; result = turn.result }) next turns
            (pause-Follows configured now turn) (registration_loop-IsPaced configured next turns))
    ]
