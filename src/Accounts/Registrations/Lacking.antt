-- ===== src/Accounts/Registrations/Lacking.antt =====
-- The pointers of one account list that another list lacks: those whose loops `reconcileRegistrations`
-- ends and begins.
use talk_telephony_gateway_p.Base.{
  ◌≡◌, ◌≢◌, ◌⊎◌, refl, sym, ap, ◌∙◌, subst, Bool, true, false, not, List, [], ◌∷◌, some,
  if◌then◌else◌, Option-cases, Bool-cases, inl, inr, arith, All,
}
use mathlib.Core.Option.{some_inj}
use talk_telephony_gateway_p.Text.{Text}
use talk_telephony_gateway_p.Text.Laws.{text_eq_refl, text_eq_iff}
use talk_telephony_gateway_p.Dict.{lookup, Distinct, NotIn, index, keys}
use talk_telephony_gateway_p.Accounts.{Pointer, SipAccount, extension_of, account_equivalent}
use talk_telephony_gateway_p.Accounts.Install.{Among}
use talk_telephony_gateway_p.Accounts.Preserve.{IsSettled}
use talk_telephony_gateway_p.Accounts.Select.{lookup-index-Among}
use talk_telephony_gateway_p.Accounts.Registrations.{is_stale, is_fresh}

-- The second list holds, in their order, exactly the pointers of the first that the map does not
-- hold under their extension.
pub Lacking : List (Text × Pointer) → List Pointer → List Pointer → Type 0
Lacking other [] gone = gone ≡ []
Lacking other (p ∷ ps) gone =
    ((lookup (extension_of p) other ≡ some p) × Lacking other ps gone)
    ⊎ ((lookup (extension_of p) other ≢ some p)
        × ((rest : List Pointer) × (gone ≡ p ∷ rest) × Lacking other ps rest))

-- The list that is so, by a test.
unfoldable pub kept_by : (Pointer → Bool) → List Pointer → List Pointer
kept_by test [] = []
kept_by test (p ∷ ps) = let rest = kept_by test ps in if test p then p ∷ rest else rest

-- The test is whether the map lacks the pointer.
abbrev pub Tells : List (Text × Pointer) → (Pointer → Bool) → Pointer → Type 0
Tells other test p =
    ((test p ≡ true) × (lookup (extension_of p) other ≢ some p))
    ⊎ ((test p ≡ false) × (lookup (extension_of p) other ≡ some p))

pub kept_by-Lacking :
    (other : List (Text × Pointer)) (test : Pointer → Bool) (ps : List Pointer)
    → All (Tells other test) ps
    → Lacking other ps (kept_by test ps)
unfolding kept_by Lacking
kept_by-Lacking other test [] h = refl
kept_by-Lacking other test (p ∷ ps) (inl (e, n), h) =
    rw e (inr (n, (kept_by test ps, refl, kept_by-Lacking other test ps h)))
kept_by-Lacking other test (p ∷ ps) (inr (e, f), h) =
    rw e (inl (f, kept_by-Lacking other test ps h))

-- A pointer stands in the map under its extension.
abbrev pub IsFound : List (Text × Pointer) → Pointer → Type 0
IsFound m p = lookup (extension_of p) m ≡ some p

IsFound-behind :
    (p : Pointer) (m : List (Text × Pointer)) (ps : List Pointer)
    → NotIn (extension_of p) (keys extension_of ps)
    → All (IsFound m) ps
    → All (IsFound ((extension_of p, p) ∷ m)) ps
unfolding lookup
IsFound-behind p m [] n h = tt
IsFound-behind p m (q ∷ ps) (e, n) (f, h) = (
  ground (
    arith,
    e,
    f,
    text_eq_iff (extension_of p) (extension_of q),
    text_eq_iff (extension_of q) (extension_of p),
  ),
  IsFound-behind p m ps n h,
)

-- In a map by different extensions every pointer is found.
pub index-IsFound :
    (ps : List Pointer) → Distinct (keys extension_of ps) → All (IsFound (index extension_of ps)) ps
unfolding lookup
index-IsFound [] d = tt
index-IsFound (p ∷ ps) (n, d) = (
  rw (text_eq_refl (extension_of p)),
  IsFound-behind p (index extension_of ps) ps n (index-IsFound ps d),
)

pub IsFound-Lacking :
    (m : List (Text × Pointer)) (ps : List Pointer) → All (IsFound m) ps → Lacking m ps []
unfolding Lacking
IsFound-Lacking m [] h = refl
IsFound-Lacking m (p ∷ ps) (f, h) = inl (f, IsFound-Lacking m ps h)

account_equivalent_refl : (a : SipAccount) → account_equivalent a a ≡ true
unfolding account_equivalent
account_equivalent_refl a = ground (
  arith,
  text_eq_refl a.extension,
  text_eq_refl a.username,
  text_eq_refl a.auth_user,
  text_eq_refl a.password,
  text_eq_refl a.caller_id,
  text_eq_refl a.nextcloud_user,
)

changed_ne : (o a : Pointer) → account_equivalent o.target a.target ≡ false → o ≢ a
changed_ne o a h e =
    let same : account_equivalent o.target a.target ≡ true =
      subst (λ (x : Pointer). account_equivalent o.target x.target ≡ true) e
        (account_equivalent_refl o.target) in
    cc

-- Every pointer of the new list whose account did not change is the old one.
Among-IsSettled :
    (old : List (Text × Pointer)) (ps : List Pointer) (a : Pointer)
    → All (IsSettled old) ps
    → Among a ps
    → IsSettled old a
Among-IsSettled old [] a s h = absurd h
Among-IsSettled old (p ∷ ps) a s (inl e) = subst (IsSettled old) (sym e) s.0
Among-IsSettled old (p ∷ ps) a s (inr h) = Among-IsSettled old ps a s.1 h

pub settled_at :
    (old : List (Text × Pointer)) (ps : List Pointer) (a o : Pointer) (k : Text)
    → All (IsSettled old) ps
    → lookup k (index extension_of ps) ≡ some a
    → lookup k old ≡ some o
    → account_equivalent o.target a.target ≡ true
    → o ≡ a
settled_at old ps a o k s e e' q =
    let (listed, key) = lookup-index-Among extension_of k ps a e in
    Among-IsSettled old ps a s listed o (ap (λ (j : Text). lookup j old) key ∙ e') q

abbrev pub stale_in : List (Text × Pointer) → Pointer → Bool
stale_in new o = is_stale (lookup (extension_of o) new) o

abbrev pub fresh_in : List (Text × Pointer) → Pointer → Bool
fresh_in old a = is_fresh (lookup (extension_of a) old) a

-- Where unchanged accounts kept their pointers, the test of the first loop tells which are gone.
stale-Tells :
    (old : List (Text × Pointer)) (ps : List Pointer) (o : Pointer)
    → All (IsSettled old) ps
    → IsFound old o
    → Tells (index extension_of ps) (stale_in (index extension_of ps)) o
stale-Tells old ps o s f =
    let k = extension_of o in
    elim (Option-cases (lookup k (index extension_of ps))) [
      | inl e ↦ rw e (inl (refl, λ h. cc))
      | inr (a, e) ↦ elim (Bool-cases (account_equivalent o.target a.target)) [
        | inl q ↦ rw e (inr (ap not q, ap some (sym (settled_at old ps a o k s e f q))))
        | inr q ↦ rw e (inl (ap not q, λ h. changed_ne o a q (sym (some_inj.0 h))))
      ]
    ]

fresh-Tells :
    (old : List (Text × Pointer)) (a : Pointer) → IsSettled old a → Tells old (fresh_in old) a
fresh-Tells old a s = elim (Option-cases (lookup (extension_of a) old)) [
  | inl e ↦ rw e (inl (refl, λ h. cc))
  | inr (o, e) ↦ elim (Bool-cases (account_equivalent o.target a.target)) [
    | inl q ↦ rw e (inr (ap not q, ap some (s o e q)))
    | inr q ↦ rw e (inl (ap not q, λ h. changed_ne o a q (some_inj.0 h)))
  ]
]

pub stale-All :
    (old : List (Text × Pointer)) (ps os : List Pointer)
    → All (IsSettled old) ps
    → All (IsFound old) os
    → All (Tells (index extension_of ps) (stale_in (index extension_of ps))) os
stale-All old ps [] s h = tt
stale-All old ps (o ∷ os) s (f, h) = (stale-Tells old ps o s f, stale-All old ps os s h)

pub fresh-All :
    (old : List (Text × Pointer)) (ps : List Pointer)
    → All (IsSettled old) ps
    → All (Tells old (fresh_in old)) ps
fresh-All old [] s = tt
fresh-All old (a ∷ ps) (h, s) = (fresh-Tells old a h, fresh-All old ps s)
