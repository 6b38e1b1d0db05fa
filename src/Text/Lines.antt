-- ===== src/Text/Lines.antt =====
-- Text in lines: what the functions that take a message apart give on a message written in lines.
use talk_telephony_gateway_p.Base.{
  ◌≡◌, refl, ap, sym, ◌∙◌, ℕ, false, List, [], ◌∷◌, ◌++◌, Option, some, ◌==◌, if◌then◌else◌, arith,
  append-nil, append_assoc, All, or_false, Bool-cases, inl, inr,
}
use talk_telephony_gateway_p.Text.{
  Text, contains_byte, push_word, is_empty, is_space, split, replace_crlf, split_blank_line, fields,
}
use talk_telephony_gateway_p.Text.Laws.{NoSpace}

-- The byte does not stand in the text.
abbrev pub Lacks : ℕ → Text → Type 0
Lacks b = All (λ c. (b == c) ≡ false)

-- The same, as `strings.IndexByte` decides it.
pub contains_byte-Lacks : (b : ℕ) (s : Text) → contains_byte b s ≡ false → Lacks b s
unfolding contains_byte
contains_byte-Lacks b [] e = tt
contains_byte-Lacks b (c ∷ s) e =
    let (here, later) = or_false (b == c) (contains_byte b s) e in
    (here, contains_byte-Lacks b s later)

pub NoSpace-Lacks : (s : Text) → NoSpace s → Lacks b'\n' s
NoSpace-Lacks [] h = tt
NoSpace-Lacks (c ∷ s) (hc, h) = (ground (arith, hc), NoSpace-Lacks s h)

-- A header line: it is not empty, and no line break stands in it.
abbrev pub IsLine : Text → Type 0
IsLine [] = ⊥
IsLine (c ∷ s) = Lacks b'\n' (c ∷ s)

pub IsLine-Lacks : (l : Text) → IsLine l → Lacks b'\n' l
IsLine-Lacks [] h = tt
IsLine-Lacks (c ∷ s) h = h

-- Lines that each end in CR LF.
abbrev pub written : List Text → Text
written [] = []
written (l ∷ ls) = l ++ (b'\r' ∷ b'\n' ∷ written ls)

pub written-append : (ks ls : List Text) → written (ks ++ ls) ≡ written ks ++ written ls
written-append [] ls = refl
written-append (k ∷ ks) ls = rw (written-append ks ls) (sym (append_assoc k _ (written ls)))

-- Lines that each end in LF.
abbrev ended : List Text → Text
ended [] = []
ended (l ∷ ls) = l ++ (b'\n' ∷ ended ls)

-- Lines with an LF between them.
abbrev joined : Text → List Text → Text
joined l [] = l
joined l (m ∷ ls) = l ++ (b'\n' ∷ joined m ls)

replace_crlf-lf : (s : Text) → replace_crlf (b'\n' ∷ s) ≡ b'\n' ∷ replace_crlf s
unfolding replace_crlf
replace_crlf-lf [] = refl
replace_crlf-lf (c ∷ s) = refl

replace_crlf-line :
    (l s : Text)
    → Lacks b'\n' l
    → replace_crlf (l ++ (b'\r' ∷ b'\n' ∷ s)) ≡ l ++ (b'\n' ∷ replace_crlf s)
unfolding replace_crlf
replace_crlf-line [] s h = replace_crlf-lf s
replace_crlf-line (c ∷ []) s h = ground (arith, replace_crlf-lf s)
replace_crlf-line (c ∷ d ∷ l) s (hc, (hd, h)) =
    ground (arith, hd, replace_crlf-line (d ∷ l) s (hd, h))

replace_crlf-written :
    (ls : List Text) (s : Text)
    → All (Lacks b'\n') ls
    → replace_crlf (written ls ++ (b'\r' ∷ b'\n' ∷ s)) ≡ ended ls ++ (b'\n' ∷ replace_crlf s)
replace_crlf-written [] s h = replace_crlf-line [] s tt
replace_crlf-written (l ∷ ls) s (hl, h) =
    ap replace_crlf (append_assoc l _ _)
    ∙ replace_crlf-line l _ hl
    ∙ ap (λ (t : Text). l ++ (b'\n' ∷ t)) (replace_crlf-written ls s h)
    ∙ sym (append_assoc l _ _)

split_blank_line-byte :
    (c : ℕ) (s : Text)
    → (b'\n' == c) ≡ false
    → split_blank_line (c ∷ s) ≡ (c ∷ (split_blank_line s).0, (split_blank_line s).1)
unfolding split_blank_line
split_blank_line-byte c [] h = refl
split_blank_line-byte c (d ∷ s) h = ground arith

split_blank_line-text :
    (l s : Text)
    → Lacks b'\n' l
    → split_blank_line (l ++ s) ≡ (l ++ (split_blank_line s).0, (split_blank_line s).1)
split_blank_line-text [] s h = refl
split_blank_line-text (c ∷ l) s (hc, h) =
    rw (split_blank_line-byte c (l ++ s) hc, split_blank_line-text l s h)

-- A line break in front of a byte that is none.
split_blank_line-lf :
    (c : ℕ) (s : Text)
    → (b'\n' == c) ≡ false
    → split_blank_line (b'\n' ∷ c ∷ s)
      ≡ (b'\n' ∷ (split_blank_line (c ∷ s)).0, (split_blank_line (c ∷ s)).1)
unfolding split_blank_line
split_blank_line-lf c s h = ground arith

split_blank_line-ended :
    (l : Text) (ls : List Text) (s : Text)
    → IsLine l
    → All IsLine ls
    → split_blank_line (ended (l ∷ ls) ++ (b'\n' ∷ s)) ≡ (joined l ls, some s)
unfolding split_blank_line
split_blank_line-ended l [] s h g =
    ap split_blank_line (append_assoc l _ _)
    ∙ split_blank_line-text l _ (IsLine-Lacks l h)
    ∙ rw (append-nil l)
split_blank_line-ended l ([] ∷ ls) s h (g, gs) = absurd g
split_blank_line-ended l ((c ∷ m) ∷ ls) s h ((gc, g), gs) =
    let rest = split_blank_line-ended (c ∷ m) ls s (gc, g) gs in
    let step = split_blank_line-lf c (m ++ (b'\n' ∷ ended ls) ++ (b'\n' ∷ s)) gc in
    ap split_blank_line (append_assoc l _ _)
    ∙ split_blank_line-text l _ (IsLine-Lacks l h)
    ∙ ap (λ (r : Text × Option Text). (l ++ r.0, r.1))
        (step ∙ ap (λ (r : Text × Option Text). (b'\n' ∷ r.0, r.1)) rest)

split-line :
    (l s : Text)
    → Lacks b'\n' l
    → split b'\n' (l ++ (b'\n' ∷ s)) ≡ (l, (split b'\n' s).0 ∷ (split b'\n' s).1)
unfolding split
split-line [] s h = refl
split-line (c ∷ l) s (hc, h) = rw (hc, split-line l s h)

split-joined :
    (l : Text) (ls : List Text)
    → Lacks b'\n' l
    → All (Lacks b'\n') ls
    → split b'\n' (joined l ls) ≡ (l, ls)
unfolding split
split-joined [] [] h g = refl
split-joined (c ∷ l) [] (hc, h) g = rw (hc, split-joined l [] h g)
split-joined l (m ∷ ls) h (g, gs) = rw (split-line l (joined m ls) h, split-joined m ls g gs)

lines-Lacks : (ls : List Text) → All IsLine ls → All (Lacks b'\n') ls
lines-Lacks [] h = tt
lines-Lacks (l ∷ ls) (h, hs) = (IsLine-Lacks l h, lines-Lacks ls hs)

-- A message written in lines is taken apart into its lines and its body.
pub split_blank_line-written :
    (l : Text) (ls : List Text) (body : Text)
    → All IsLine (l ∷ ls)
    → split_blank_line (replace_crlf (written (l ∷ ls) ++ (b'\r' ∷ b'\n' ∷ body)))
      ≡ (joined l ls, some (replace_crlf body))
split_blank_line-written l ls body (h, hs) =
    ap split_blank_line (replace_crlf-written (l ∷ ls) body (lines-Lacks (l ∷ ls) (h, hs)))
    ∙ split_blank_line-ended l ls (replace_crlf body) h hs

pub split-written :
    (l : Text) (ls : List Text) → All IsLine (l ∷ ls) → split b'\n' (joined l ls) ≡ (l, ls)
split-written l ls (h, hs) = split-joined l ls (IsLine-Lacks l h) (lines-Lacks ls hs)

-- No part of a split text holds the separator.
pub split-Lacks : (s : Text) → Lacks b'\n' (split b'\n' s).0 × All (Lacks b'\n') (split b'\n' s).1
unfolding split
split-Lacks [] = (tt, tt)
split-Lacks (c ∷ s) =
    let (h, hs) = split-Lacks s in
    elim (Bool-cases (b'\n' == c)) [ inl e ↦ rw e (tt, (h, hs)) | inr e ↦ rw e ((e, h), hs) ]

-- A word in front of a space is a field.
pub fields-word :
    (w s : Text) → NoSpace w → is_empty w ≡ false → fields (w ++ (b' ' ∷ s)) ≡ w ∷ fields s
unfolding fields
fields-word [] s h e = cc
fields-word (c ∷ []) s (hc, h) e = rw hc
fields-word (c ∷ d ∷ w) s (hc, (hd, h)) e =
    ap (λ (ws : List Text). if is_space c then ws else push_word c (is_space d) ws)
      (fields-word (d ∷ w) s (hd, h) refl)
    ∙ rw (hc, hd)

-- A text in lines, without a blank one behind them, is split into its lines and an empty text.
replace_crlf-lines : (ls : List Text) → All (Lacks b'\n') ls → replace_crlf (written ls) ≡ ended ls
unfolding replace_crlf
replace_crlf-lines [] h = refl
replace_crlf-lines (l ∷ ls) (hl, h) =
    replace_crlf-line l (written ls) hl
    ∙ ap (λ (t : Text). l ++ (b'\n' ∷ t)) (replace_crlf-lines ls h)

-- The parts of a split text.
abbrev pub parts : Text × List Text → List Text
parts (first, others) = first ∷ others

split-ended :
    (ls : List Text) → All (Lacks b'\n') ls → parts (split b'\n' (ended ls)) ≡ ls ++ [] ∷ []
unfolding split
split-ended [] h = refl
split-ended (l ∷ ls) (hl, h) =
    ap parts (split-line l (ended ls) hl) ∙ ap (λ (ps : List Text). l ∷ ps) (split-ended ls h)

pub split-lines :
    (ls : List Text)
    → All (Lacks b'\n') ls
    → parts (split b'\n' (replace_crlf (written ls))) ≡ ls ++ [] ∷ []
split-lines ls h =
    ap (λ (t : Text). parts (split b'\n' t)) (replace_crlf-lines ls h) ∙ split-ended ls h
