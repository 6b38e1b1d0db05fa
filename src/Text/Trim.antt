-- ===== src/Text/Trim.antt =====
-- What `strings.TrimSpace` gives: text without white space at its ends.
use talk_telephony_gateway_p.Base.{
  append_assoc, ◌≡◌, refl, ap, ℕ, Bool, true, false, [], ◌∷◌, ◌++◌, some, ◌==◌, ◌&&◌, Bool-cases,
  Option-cases, inl, inr, subst,
}
use mathlib.Core.Option.{some_inj}
use talk_telephony_gateway_p.Text.{Text, is_empty, is_space, trim_left, trim_right, trim_space, cut}
use talk_telephony_gateway_p.Text.Laws.{NoSpace, trim_right-NoSpace}
use talk_telephony_gateway_p.Text.Lines.{Lacks}

-- The text starts with no white space, and its end is kept by a trim.
abbrev StartsBare : Text → Type 0
StartsBare [] = Unit
StartsBare (c ∷ s) = is_space c ≡ false

abbrev pub IsTrimmed : Text → Type 0
IsTrimmed s = StartsBare s × (trim_right is_space s ≡ s)

trim_left-StartsBare : (s : Text) → StartsBare (trim_left is_space s)
unfolding trim_left
trim_left-StartsBare [] = tt
trim_left-StartsBare (c ∷ s) = elim (Bool-cases (is_space c)) [
  | inl e ↦ rw e (trim_left-StartsBare s)
  | inr e ↦ rw e e
]

trim_right-StartsBare : (s : Text) → StartsBare s → StartsBare (trim_right is_space s)
unfolding trim_right
trim_right-StartsBare [] h = tt
trim_right-StartsBare (c ∷ s) h = rw h h

trim_right-trim_right :
    (s : Text) → trim_right is_space (trim_right is_space s) ≡ trim_right is_space s
unfolding trim_right
trim_right-trim_right [] = refl
trim_right-trim_right (c ∷ s) =
    let again = trim_right-trim_right s in
    elim (Bool-cases (is_space c && is_empty (trim_right is_space s))) [
      | inl e ↦ rw e
      | inr e ↦ rw (e, again, e)
    ]

pub trim_space-IsTrimmed : (s : Text) → IsTrimmed (trim_space s)
unfolding trim_space
trim_space-IsTrimmed s =
    (trim_right-StartsBare _ (trim_left-StartsBare s), trim_right-trim_right (trim_left is_space s))

trim_left_bare : (s : Text) → StartsBare s → trim_left is_space s ≡ s
unfolding trim_left
trim_left_bare [] h = refl
trim_left_bare (c ∷ s) h = rw h

pub trim_space_trimmed : (s : Text) → IsTrimmed s → trim_space s ≡ s
unfolding trim_space
trim_space_trimmed s (h, e) = rw (trim_left_bare s h) e

-- A space in front of a trimmed text is dropped.
pub trim_space-space : (s : Text) → IsTrimmed s → trim_space (b' ' ∷ s) ≡ s
unfolding trim_space trim_left
trim_space-space s h = trim_space_trimmed s h

trim_right-bare :
    (s w : Text) → NoSpace w → is_empty w ≡ false → trim_right is_space (s ++ w) ≡ s ++ w
unfolding trim_right
trim_right-bare [] [] h e = cc
trim_right-bare [] (c ∷ w) (hc, h) e = rw (hc, trim_right-NoSpace w h)
trim_right-bare (c ∷ s) w h e =
    let rest = trim_right-bare s w h e in rw (rest, not_empty s w e, and_false (is_space c))
  where
    not_empty : (s w : Text) → is_empty w ≡ false → is_empty (s ++ w) ≡ false
    not_empty [] w e = e
    not_empty (c ∷ s) w e = refl

    and_false : (b : Bool) → (b && false) ≡ false
    and_false true = refl
    and_false false = refl

-- A trimmed text stays trimmed with a word behind it.
pub IsTrimmed-append :
    (s w : Text) → IsTrimmed s → NoSpace w → is_empty w ≡ false → IsTrimmed (s ++ w)
IsTrimmed-append [] [] g h e = cc
IsTrimmed-append [] (c ∷ w) g (hc, h) e = (hc, trim_right-bare [] (c ∷ w) (hc, h) e)
IsTrimmed-append (d ∷ s) w g h e = (g.0, trim_right-bare (d ∷ s) w h e)

pub NoSpace-IsTrimmed : (s : Text) → NoSpace s → IsTrimmed s
unfolding trim_right
NoSpace-IsTrimmed [] h = (tt, refl)
NoSpace-IsTrimmed (c ∷ s) (hc, h) = (hc, trim_right-NoSpace (c ∷ s) (hc, h))

-- A text between two words is trimmed.
pub framed-IsTrimmed :
    (v s w : Text)
    → NoSpace v
    → is_empty v ≡ false
    → NoSpace w
    → is_empty w ≡ false
    → IsTrimmed (v ++ (s ++ w))
framed-IsTrimmed [] s w g d h e = cc
framed-IsTrimmed (c ∷ v) s w (gc, g) d h e = (
  gc,
  subst (λ (t : Text). trim_right is_space t ≡ t) (append_assoc (c ∷ v) s w)
      (trim_right-bare ((c ∷ v) ++ s) w h e),
)

-- Bytes that a text lacks, its parts lack.
trim_left-Lacks : (b : ℕ) (s : Text) → Lacks b s → Lacks b (trim_left is_space s)
unfolding trim_left
trim_left-Lacks b [] h = tt
trim_left-Lacks b (c ∷ s) (hc, h) = elim (Bool-cases (is_space c)) [
  | inl e ↦ rw e (trim_left-Lacks b s h)
  | inr e ↦ rw e (hc, h)
]

trim_right-Lacks : (b : ℕ) (s : Text) → Lacks b s → Lacks b (trim_right is_space s)
unfolding trim_right
trim_right-Lacks b [] h = tt
trim_right-Lacks b (c ∷ s) (hc, h) =
    elim (Bool-cases (is_space c && is_empty (trim_right is_space s))) [
      | inl e ↦ rw e tt
      | inr e ↦ rw e (hc, trim_right-Lacks b s h)
    ]

pub trim_space-Lacks : (b : ℕ) (s : Text) → Lacks b s → Lacks b (trim_space s)
unfolding trim_space
trim_space-Lacks b s h = trim_right-Lacks b _ (trim_left-Lacks b s h)

-- What stands behind the first byte `d`.
pub cut-Lacks : (b d : ℕ) (s n v : Text) → Lacks b s → cut d s ≡ some (n, v) → Lacks b v
unfolding cut
cut-Lacks b d [] n v h e = cc
cut-Lacks b d (c ∷ s) n v (hc, h) e = elim (Bool-cases (d == c)) [
  | inl f ↦ subst (Lacks b) (ap (λ (r : Text × Text). r.1) (some_inj.0 (rw f at e))) h
  | inr f ↦ elim (Option-cases (cut d s)) [
    | inl g ↦ cc
    | inr ((m, w), g) ↦
        subst (Lacks b) (ap (λ (r : Text × Text). r.1) (some_inj.0 (rw (f, g) at e)))
          (cut-Lacks b d s m w h g)
  ]
]
