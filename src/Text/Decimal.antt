-- ===== src/Text/Decimal.antt =====
-- `strconv.Atoi` and the decimal form that `%d` writes.
pub mod Digits
use talk_telephony_gateway_p.Base.{
  ℕ, zero, suc, ◌+◌, ◌-◌, ◌*◌, ◌/◌, ◌%◌, ◌^◌, Bool, true, false, ◌&&◌, [], ◌∷◌, ◌++◌, Option, none,
  some, ltb, leb, ◌==◌, if◌then◌else◌,
}
use talk_telephony_gateway_p.Base.Int.{ℤ, pos, sub_ℕ}
use talk_telephony_gateway_p.Text.{Text}

abbrev pub is_digit : ℕ → Bool
is_digit c = leb b'0' c && leb c b'9'

-- The digits of a text, read behind the value so far.
unfoldable pub digits_value : ℕ → Text → Option ℕ
digits_value acc [] = some acc
digits_value acc (c ∷ s) =
    let rest = digits_value (acc * 10 + (c - b'0')) s in if is_digit c then rest else none

abbrev in_int64 : Bool → Option ℕ → Option ℤ
in_int64 negative none = none
in_int64 false (some n) = if ltb n (2 ^ 63) then some (pos n) else none
in_int64 true (some n) = if leb n (2 ^ 63) then some (sub_ℕ 0 n) else none

abbrev unsigned : Bool → Text → Option ℤ
unsigned negative [] = none
unsigned negative (c ∷ s) = in_int64 negative (digits_value 0 (c ∷ s))

-- `strconv.Atoi`: a sign or none, one digit at least, and a value that fits an int64.
unfoldable pub atoi : Text → Option ℤ
unfolding digits_value
atoi [] = none
atoi (c ∷ s) =
    if c == b'-'
    then unsigned true s
    else if c == b'+'
    then unsigned false s
    else unsigned false (c ∷ s)

-- `%d` of a number below 10 ^ fuel
unfoldable pub itoa_fuel : ℕ → ℕ → Text
itoa_fuel zero n = []
itoa_fuel (suc fuel) n =
    let high = itoa_fuel fuel (n / 10) in
    if ltb n 10 then (n + b'0') ∷ [] else high ++ (n % 10 + b'0') ∷ []

-- `%d`, or `strconv.Itoa` of a number that is not negative; an int64 has 19 digits at most.
unfoldable pub itoa : ℕ → Text
unfolding itoa_fuel
itoa n = itoa_fuel 20 n

-- The value that `strconv.Atoi` gives besides its error: 0 for a text that is no number, the
-- nearest int64 for one out of range.
abbrev saturated : Bool → Option ℕ → ℤ
saturated negative none = pos 0
saturated false (some n) = if ltb n (2 ^ 63) then pos n else pos (2 ^ 63 - 1)
saturated true (some n) = if leb n (2 ^ 63) then sub_ℕ 0 n else sub_ℕ 0 (2 ^ 63)

abbrev unsigned_value : Bool → Text → ℤ
unsigned_value negative [] = pos 0
unsigned_value negative (c ∷ s) = saturated negative (digits_value 0 (c ∷ s))

unfoldable pub atoi_value : Text → ℤ
unfolding digits_value
atoi_value [] = pos 0
atoi_value (c ∷ s) =
    if c == b'-'
    then unsigned_value true s
    else if c == b'+'
    then unsigned_value false s
    else unsigned_value false (c ∷ s)
