-- ===== src/Media/Downsample.antt =====
-- `Downsample48To8`: one sample for six, and none louder than the loudest of the input.
use talk_telephony_gateway_p.Base.{
  ℕ, zero, suc, ◌+◌, ◌*◌, ◌/◌, ◌≤◌, ◌≡◌, refl, List, [], ◌∷◌, length, take, drop, length-drop,
  arith, All,
}
use talk_telephony_gateway_p.Base.Int.{
  ℤ, pos, negsuc, ◌+ℤ◌, quot_ℤ, to_int16, to_int16_lem, IsInt16,
}
use native.Mathlib.Nat.{div-le_of_le-mul}
use talk_telephony_gateway_p.Media.{magnitude, sum, downsample_loop, downsample_48_to_8}

length-downsample_loop :
    (fuel : ℕ) (samples : List ℤ)
    → length samples ≤ fuel
    → length (downsample_loop fuel samples) ≡ (length samples + 5) / 6
unfolding downsample_loop
length-downsample_loop zero [] h = omega arith
length-downsample_loop zero (x ∷ xs) h = absurd (omega arith)
length-downsample_loop (suc fuel) [] h = omega arith
length-downsample_loop (suc fuel) (x ∷ xs) h = omega (
  arith,
  length-drop 5 xs,
  length-downsample_loop fuel (drop 5 xs) (omega (arith, length-drop 5 xs)),
)

abbrev pub IsWithin : ℕ → ℤ → Type 0
IsWithin m x = magnitude x ≤ m

magnitude-add : (a b : ℤ) → magnitude (a +ℤ b) ≤ magnitude a + magnitude b
magnitude-add a b = ground arith

magnitude-sum : (m : ℕ) (xs : List ℤ) → All (IsWithin m) xs → magnitude (sum xs) ≤ m * length xs
magnitude-sum m [] h = omega arith
magnitude-sum m (x ∷ xs) (hx, h) = omega (arith, magnitude-add x (sum xs), magnitude-sum m xs h)

magnitude-quot : (a : ℤ) (n : ℕ) → magnitude (quot_ℤ a n) ≡ magnitude a / n
magnitude-quot (pos a) n = refl
magnitude-quot (negsuc a) n = ground arith

module _ (m : ℕ) where
  All-take : (n : ℕ) (xs : List ℤ) → All (IsWithin m) xs → All (IsWithin m) (take n xs)
  All-take zero xs h = tt
  All-take (suc n) [] h = tt
  All-take (suc n) (x ∷ xs) (hx, h) = (hx, All-take n xs h)

  All-drop : (n : ℕ) (xs : List ℤ) → All (IsWithin m) xs → All (IsWithin m) (drop n xs)
  All-drop zero xs h = h
  All-drop (suc n) [] h = tt
  All-drop (suc n) (x ∷ xs) (hx, h) = All-drop n xs h

div_within : (m a n : ℕ) → a ≤ m * suc n → a / suc n ≤ m
div_within m a n h = div-le_of_le-mul (suc n) (omega (arith, h))

length-take_le : (n : ℕ) (xs : List ℤ) → length (take n xs) ≤ n
length-take_le zero xs = omega arith
length-take_le (suc n) [] = omega arith
length-take_le (suc n) (x ∷ xs) = omega (arith, length-take_le n xs)

IsWithin-IsInt16 : (m : ℕ) (a : ℤ) → m ≤ 32767 → IsWithin m a → IsInt16 a
IsWithin-IsInt16 m (pos a) hm h = omega (arith, h, hm)
IsWithin-IsInt16 m (negsuc a) hm h = omega (arith, h, hm)

length-chunk : (x : ℤ) (xs : List ℤ) → length (take 6 (x ∷ xs)) ≡ suc (length (take 5 xs))
length-chunk x xs = refl

quotient-IsWithin :
    (m : ℕ) (x : ℤ) (xs : List ℤ)
    → All (IsWithin m) (x ∷ xs)
    → IsWithin m (quot_ℤ (sum (x ∷ xs)) (suc (length xs)))
quotient-IsWithin m x xs h =
    rw (magnitude-quot (sum (x ∷ xs)) (suc (length xs)))
      (div_within m (magnitude (sum (x ∷ xs))) (length xs) (magnitude-sum m (x ∷ xs) h))

int16-IsWithin : (m : ℕ) (a : ℤ) → m ≤ 32767 → IsWithin m a → IsWithin m (to_int16 a)
int16-IsWithin m a hm h = rw (to_int16_lem a (IsWithin-IsInt16 m a hm h)) h

average-IsWithin :
    (m : ℕ) (x : ℤ) (xs : List ℤ)
    → m ≤ 32767
    → All (IsWithin m) (x ∷ xs)
    → IsWithin m (to_int16 (quot_ℤ (sum (x ∷ xs)) (length (x ∷ xs))))
average-IsWithin m x xs hm h =
    int16-IsWithin m (quot_ℤ (sum (x ∷ xs)) (suc (length xs))) hm (quotient-IsWithin m x xs h)

downsample_loop-IsWithin :
    (m fuel : ℕ) (samples : List ℤ)
    → m ≤ 32767
    → All (IsWithin m) samples
    → All (IsWithin m) (downsample_loop fuel samples)
unfolding downsample_loop
downsample_loop-IsWithin m zero samples hm h = tt
downsample_loop-IsWithin m (suc fuel) [] hm h = tt
downsample_loop-IsWithin m (suc fuel) (x ∷ xs) hm (hx, h) = (
  average-IsWithin m x (take 5 xs) hm (hx, All-take m 5 xs h),
  downsample_loop-IsWithin m fuel (drop 5 xs) hm (All-drop m 5 xs h),
)

-- Downsampling makes one sample of each six, the last, shorter chunk included, and none of them is
-- louder than a bound of int16 that the input keeps.
pub downsample_48_to_8-IsWithin :
    (m : ℕ) (samples : List ℤ)
    → m ≤ 32767
    → All (IsWithin m) samples
    → (length (downsample_48_to_8 samples) ≡ (length samples + 5) / 6)
      × All (IsWithin m) (downsample_48_to_8 samples)
unfolding downsample_48_to_8
downsample_48_to_8-IsWithin m samples hm h = (
  length-downsample_loop (length samples) samples (omega arith),
  downsample_loop-IsWithin m (length samples) samples hm h,
)
