-- ===== src/Text/Decimal/Digits.antt =====
-- `%d` and `strconv.Atoi`: a written number is read again.
use talk_telephony_gateway_p.Base.{
  ◌≡◌, refl, ap, ◌∙◌, ℕ, zero, suc, ◌+◌, ◌-◌, ◌*◌, ◌/◌, ◌%◌, ◌^◌, ◌<◌, true, false, [], ◌∷◌, ◌++◌,
  some, ltb, arith, All, All-append, Bool-cases, inl, inr,
}
use talk_telephony_gateway_p.Base.Int.{pos}
use talk_telephony_gateway_p.Text.{Text, is_empty}
use talk_telephony_gateway_p.Text.Laws.{NoSpace}
use talk_telephony_gateway_p.Text.Decimal.{
  is_digit, digits_value, itoa_fuel, itoa, atoi, atoi_value,
}

digits_value-append :
    (a : Text) (acc v c : ℕ)
    → digits_value acc a ≡ some v
    → is_digit c ≡ true
    → digits_value acc (a ++ c ∷ []) ≡ some (v * 10 + (c - b'0'))
unfolding digits_value
digits_value-append [] acc v c e h = ground arith
digits_value-append (d ∷ a) acc v c e h =
    ground (arith, digits_value-append a (acc * 10 + (d - b'0')) v c)

digits_value-itoa_fuel : (fuel n : ℕ) → n < 10 ^ fuel → digits_value 0 (itoa_fuel fuel n) ≡ some n
unfolding itoa_fuel digits_value
digits_value-itoa_fuel zero n h = ap some (omega (arith, h))
digits_value-itoa_fuel (suc fuel) n h = elim (Bool-cases (ltb n 10)) [
  | inl e ↦ ground arith
  | inr e ↦
      let high = digits_value-itoa_fuel fuel (n / 10) (omega (arith, h)) in
      let low =
        digits_value-append (itoa_fuel fuel (n / 10)) 0 (n / 10) (n % 10 + b'0') high
          (ground arith) in
      rw e (low ∙ ap some (omega arith))
]

is_empty-append : (a : Text) (c : ℕ) → is_empty (a ++ c ∷ []) ≡ false
is_empty-append [] c = refl
is_empty-append (d ∷ a) c = refl

itoa_fuel-is_empty : (fuel n : ℕ) → is_empty (itoa_fuel (suc fuel) n) ≡ false
unfolding itoa_fuel
itoa_fuel-is_empty fuel n = elim (Bool-cases (ltb n 10)) [
  | inl e ↦ rw e
  | inr e ↦ rw e (is_empty-append (itoa_fuel fuel (n / 10)) (n % 10 + b'0'))
]

digits_value-digits :
    (s : Text) (acc v : ℕ) → digits_value acc s ≡ some v → All (λ c. is_digit c ≡ true) s
unfolding digits_value
digits_value-digits [] acc v e = tt
digits_value-digits (c ∷ s) acc v e = elim (Bool-cases (is_digit c)) [
  | inl h ↦ (h, digits_value-digits s _ v (rw h at e))
  | inr h ↦ ground arith
]

-- A digit is neither a sign nor white space.
digits-NoSpace : (s : Text) → All (λ c. is_digit c ≡ true) s → NoSpace s
digits-NoSpace [] h = tt
digits-NoSpace (c ∷ s) (hc, h) = (ground (arith, hc), digits-NoSpace s h)

atoi_digits :
    (s : Text) (n : ℕ)
    → is_empty s ≡ false
    → digits_value 0 s ≡ some n
    → n < 2 ^ 63
    → atoi s ≡ some (pos n)
unfolding atoi
atoi_digits [] n h e b = cc
atoi_digits (c ∷ s) n h e b =
    let (digit, others) = digits_value-digits (c ∷ s) 0 n e in ground (arith, digit, e)

itoa_fuel-digits : (fuel n : ℕ) → All (λ c. is_digit c ≡ true) (itoa_fuel fuel n)
unfolding itoa_fuel
itoa_fuel-digits zero n = tt
itoa_fuel-digits (suc fuel) n =
    let high = itoa_fuel-digits fuel (n / 10) in
    elim (Bool-cases (ltb n 10)) [
      | inl e ↦ rw (e, All) (ground arith, tt)
      | inr e ↦ rw (e, All) (All-append _ (itoa_fuel fuel (n / 10)) _ high (ground arith, tt))
    ]

-- The text of a number is a word of digits, and it is read as the number.
pub itoa-NoSpace : (n : ℕ) → NoSpace (itoa n)
unfolding itoa
itoa-NoSpace n = digits-NoSpace (itoa_fuel 20 n) (itoa_fuel-digits 20 n)

pub atoi-itoa : (n : ℕ) → n < 2 ^ 63 → atoi (itoa n) ≡ some (pos n)
unfolding itoa
atoi-itoa n in_range =
    atoi_digits (itoa n) n (itoa_fuel-is_empty 19 n)
      (digits_value-itoa_fuel 20 n (omega (arith, in_range))) in_range

pub itoa-is_empty : (n : ℕ) → is_empty (itoa n) ≡ false
unfolding itoa
itoa-is_empty n = itoa_fuel-is_empty 19 n

atoi_value_digits :
    (s : Text) (n : ℕ)
    → is_empty s ≡ false
    → digits_value 0 s ≡ some n
    → n < 2 ^ 63
    → atoi_value s ≡ pos n
unfolding atoi_value
atoi_value_digits [] n h e b = cc
atoi_value_digits (c ∷ s) n h e b =
    let (digit, others) = digits_value-digits (c ∷ s) 0 n e in ground (arith, digit, e)

pub atoi_value-itoa : (n : ℕ) → n < 2 ^ 63 → atoi_value (itoa n) ≡ pos n
unfolding itoa
atoi_value-itoa n in_range =
    atoi_value_digits (itoa n) n (itoa_fuel-is_empty 19 n)
      (digits_value-itoa_fuel 20 n (omega (arith, in_range))) in_range
