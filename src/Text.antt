-- ===== src/Text.antt =====
-- The functions of Go's `strings` and `strconv` that the gateway calls. A string is the list of
-- its bytes. Case and white space are those of ASCII: the other letters and spaces of Unicode,
-- which Go's functions also know, are not modelled.
pub mod Laws
pub mod Lines
pub mod Trim
pub mod Decimal
use Prim.Native.Char.{code}
use Prim.Native.String.{String}
use talk_telephony_gateway_p.Base.{
  ℕ, zero, suc, ◌+◌, ◌-◌, ◌*◌, Bool, true, false, not, ◌&&◌, ◌||◌, List, [], ◌∷◌, ◌++◌, map, Option,
  none, some, ltb, leb, ◌==◌, if◌then◌else◌,
}

abbrev pub Text : Type 0
Text = List ℕ

-- The bytes of an ASCII literal.
abbrev pub codes : String → Text
codes String.[] = []
codes (String.◌∷◌ first others) = code first ∷ codes others

-- `a == b`
unfoldable pub text_eq : Text → Text → Bool
text_eq [] [] = true
text_eq [] (y ∷ ys) = false
text_eq (x ∷ xs) [] = false
text_eq (x ∷ xs) (y ∷ ys) = x == y && text_eq xs ys

-- `s == ""`
abbrev pub is_empty : Text → Bool
is_empty [] = true
is_empty (c ∷ s) = false

-- `strings.ToLower` and `strings.ToUpper` on one byte
abbrev pub lower_byte : ℕ → ℕ
lower_byte c = if leb b'A' c && leb c b'Z' then c + 32 else c

abbrev pub upper_byte : ℕ → ℕ
upper_byte c = if leb b'a' c && leb c b'z' then c - 32 else c

unfoldable pub to_lower : Text → Text
to_lower = map lower_byte

unfoldable pub to_upper : Text → Text
to_upper = map upper_byte

-- `strings.EqualFold`
unfoldable pub equal_fold : Text → Text → Bool
unfolding to_lower text_eq
equal_fold a b = text_eq (to_lower a) (to_lower b)

-- `strings.HasPrefix s p` and `strings.HasSuffix`, in the order p, s
unfoldable pub has_prefix : Text → Text → Bool
has_prefix [] s = true
has_prefix (c ∷ p) [] = false
has_prefix (c ∷ p) (d ∷ s) = c == d && has_prefix p s

unfoldable pub ends_with_byte : ℕ → Text → Bool
ends_with_byte c [] = false
ends_with_byte c (d ∷ []) = c == d
ends_with_byte c (d ∷ e ∷ s) = ends_with_byte c (e ∷ s)

abbrev pub is_space : ℕ → Bool
is_space c = (leb 9 c && leb c 13) || c == b' '

unfoldable pub trim_left : (ℕ → Bool) → Text → Text
trim_left p [] = []
trim_left p (c ∷ s) = let rest = trim_left p s in if p c then rest else c ∷ s

unfoldable pub trim_right : (ℕ → Bool) → Text → Text
trim_right p [] = []
trim_right p (c ∷ s) = let r = trim_right p s in if p c && is_empty r then [] else c ∷ r

-- `strings.TrimSpace`, `strings.Trim` and `strings.TrimRight`
unfoldable pub trim_space : Text → Text
unfolding trim_left trim_right
trim_space s = trim_right is_space (trim_left is_space s)

-- `s[:i]` and `s[i+1:]` around the first byte `c`
unfoldable pub cut : ℕ → Text → Option (Text × Text)
cut c [] = none
cut c (d ∷ s) =
    let rest = cut c s in
    if c == d then some ([], s) else elim rest [ none ↦ none | some (a, b) ↦ some (d ∷ a, b) ]

-- `s[:i]` if the byte is there, else all of `s`
unfoldable pub before : ℕ → Text → Text
before c [] = []
before c (d ∷ s) = if c == d then [] else d ∷ before c s

unfoldable pub contains_byte : ℕ → Text → Bool
contains_byte c [] = false
contains_byte c (d ∷ s) = c == d || contains_byte c s

-- `strings.Split s c` at a one-byte separator: the first part and the others
unfoldable pub split : ℕ → Text → Text × List Text
split c [] = ([], [])
split c (d ∷ s) =
    let (first, others) = split c s in if c == d then ([], first ∷ others) else (d ∷ first, others)

-- `strings.ReplaceAll s "\r\n" "\n"`
unfoldable pub replace_crlf : Text → Text
replace_crlf [] = []
replace_crlf (c ∷ []) = c ∷ []
replace_crlf (c ∷ d ∷ s) =
    let tail = replace_crlf (d ∷ s) in if c == b'\r' && d == b'\n' then tail else c ∷ tail

-- `strings.SplitN s "\n\n" 2`: what stands before the first blank line, and behind it if there is one
unfoldable pub split_blank_line : Text → Text × Option Text
split_blank_line [] = ([], none)
split_blank_line (c ∷ []) = (c ∷ [], none)
split_blank_line (c ∷ d ∷ s) =
    let (head, body) = split_blank_line (d ∷ s) in
    if c == b'\n' && d == b'\n' then ([], some s) else (c ∷ head, body)

-- `strings.Fields`: the words between runs of white space
abbrev pub push_word : ℕ → Bool → List Text → List Text
push_word c true ws = (c ∷ []) ∷ ws
push_word c false [] = (c ∷ []) ∷ []
push_word c false (w ∷ ws) = (c ∷ w) ∷ ws

abbrev starts_word : Text → Bool
starts_word [] = true
starts_word (c ∷ s) = is_space c

unfoldable pub fields : Text → List Text
fields [] = []
fields (c ∷ s) = let ws = fields s in if is_space c then ws else push_word c (starts_word s) ws

-- `strings.Join parts sep`
unfoldable pub join : Text → List Text → Text
join sep [] = []
join sep (p ∷ []) = p
join sep (p ∷ q ∷ ps) = p ++ (sep ++ join sep (q ∷ ps))
