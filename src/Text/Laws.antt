-- ===== src/Text/Laws.antt =====
-- Laws of text equality, and of text without white space.
use talk_telephony_gateway_p.Base.{
  Bool, not, ◌&&◌, ◌≡◌, refl, ◌↔◌, true, false, [], ◌∷◌, arith, All,
}
use talk_telephony_gateway_p.Text.{Text, text_eq, is_space, trim_left, trim_right, trim_space}

pub text_eq→eq : (a b : Text) → text_eq a b ≡ true → a ≡ b
unfolding text_eq
text_eq→eq [] [] h = refl
text_eq→eq [] (y ∷ ys) h = cc
text_eq→eq (x ∷ xs) [] h = cc
text_eq→eq (x ∷ xs) (y ∷ ys) h = ground (arith, text_eq→eq xs ys)

pub text_eq_refl : (a : Text) → text_eq a a ≡ true
unfolding text_eq
text_eq_refl [] = refl
text_eq_refl (x ∷ xs) = ground (arith, text_eq_refl xs)

pub eq→text_eq : {a b : Text} → a ≡ b → text_eq a b ≡ true
eq→text_eq {a} e = rw (← e) (text_eq_refl a)

pub text_eq_iff : (a b : Text) → (text_eq a b ≡ true) ↔ (a ≡ b)
text_eq_iff a b = (text_eq→eq a b, eq→text_eq)

-- No byte of the text is white space.
abbrev pub NoSpace : Text → Type 0
NoSpace = All (λ c. is_space c ≡ false)

trim_left-NoSpace : (s : Text) → NoSpace s → trim_left is_space s ≡ s
unfolding trim_left
trim_left-NoSpace [] h = refl
trim_left-NoSpace (c ∷ s) (hc, hs) = rw hc

pub trim_right-NoSpace : (s : Text) → NoSpace s → trim_right is_space s ≡ s
unfolding trim_right
trim_right-NoSpace [] h = refl
trim_right-NoSpace (c ∷ s) (hc, hs) = rw (hc, trim_right-NoSpace s hs)

pub trim_space-NoSpace : (s : Text) → NoSpace s → trim_space s ≡ s
unfolding trim_space
trim_space-NoSpace s h = rw (trim_left-NoSpace s h) (trim_right-NoSpace s h)

-- The same as a test, for texts that are given.
unfoldable pub has_no_space : Text → Bool
has_no_space [] = true
has_no_space (c ∷ s) = not (is_space c) && has_no_space s

pub has_no_space-NoSpace : (s : Text) → has_no_space s ≡ true → NoSpace s
unfolding has_no_space
has_no_space-NoSpace [] e = tt
has_no_space-NoSpace (c ∷ s) e = (ground arith, has_no_space-NoSpace s (ground arith))
