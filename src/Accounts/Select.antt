-- ===== src/Accounts/Select.antt =====
-- `AccountByExtension` and `SelectOutbound` against what they promise on a consistent table.
use talk_telephony_gateway_p.Base.{
  ◌≡◌, refl, sym, ap, ◌∙◌, true, false, not, ◌&&◌, List, [], ◌∷◌, Option, none, some, if◌then◌else◌,
  Result, ok, err, Option-cases, Bool-cases, ◌⊎◌, ◌↔◌, inl, inr, arith,
}
use talk_telephony_gateway_p.Text.{Text, text_eq, trim_space, is_empty}
use talk_telephony_gateway_p.Text.Laws.{text_eq→eq, text_eq_refl, text_eq_iff}
use talk_telephony_gateway_p.Dict.{lookup, Distinct, NotIn, index, keys, lookup-index-none}
use talk_telephony_gateway_p.Accounts.{
  AccountError, no_account, Pointer, extension_of, user_of, Table, account_by_extension,
  match_caller, select_outbound,
}
use talk_telephony_gateway_p.Accounts.Install.{Among, IsConsistent}

module _ (f : Pointer → Text) where
  pub lookup-index-Among :
      (k : Text) (ps : List Pointer) (p : Pointer)
      → lookup k (index f ps) ≡ some p
      → Among p ps × (f p ≡ k)
  unfolding lookup
  lookup-index-Among k [] p h = cc
  lookup-index-Among k (q ∷ ps) p h = elim (Bool-cases (text_eq (f q) k)) [
    | inl e ↦
        let same : q ≡ p = ground arith in (inl (sym same), ap f (sym same) ∙ text_eq→eq _ k e)
    | inr e ↦ let r = lookup-index-Among k ps p (ground arith) in (inr r.0, r.1)
  ]

  NotIn-Among :
      (k : Text) (ps : List Pointer) (p : Pointer)
      → NotIn k (keys f ps)
      → Among p ps
      → text_eq (f p) k ≡ false
  NotIn-Among k [] p n h = absurd h
  NotIn-Among k (q ∷ ps) p n (inl e) = rw e n.0
  NotIn-Among k (q ∷ ps) p n (inr h) = NotIn-Among k ps p n.1 h

  pub Among-lookup :
      (ps : List Pointer) (p : Pointer)
      → Distinct (keys f ps)
      → Among p ps
      → lookup (f p) (index f ps) ≡ some p
  unfolding lookup
  Among-lookup [] p d h = absurd h
  Among-lookup (q ∷ ps) p d (inl e) = rw (e, text_eq_refl (f q))
  Among-lookup (q ∷ ps) p d (inr h) = ground (
    arith,
    NotIn-Among (f q) ps p d.0 h,
    text_eq_iff (f q) (f p),
    text_eq_iff (f p) (f q),
    Among-lookup ps p d.1 h,
  )

-- On a consistent table the extension of an INVITE, trimmed, finds an account exactly if the table lists it.
pub account_by_extension_iff :
    (t : Table) (extension : Text) (p : Pointer)
    → IsConsistent t
    → (account_by_extension t extension ≡ some p)
      ↔ (Among p t.accounts × (extension_of p ≡ trim_space extension))
unfolding account_by_extension
account_by_extension_iff t extension p c = (
  (λ h.
      lookup-index-Among extension_of (trim_space extension) t.accounts p (rw c.by_extension at h)),
  (λ h.
      ap (λ (m : List (Text × Pointer)). lookup (trim_space extension) m) c.by_extension
      ∙ ap (λ (k : Text). lookup k (index extension_of t.accounts)) (sym h.1)
      ∙ Among-lookup extension_of t.accounts p c.extensions_differ h.0),
)

-- The accounts with the caller's number as their caller id.
abbrev pub matching : Text → List Pointer → List Pointer
matching caller [] = []
matching caller (a ∷ ps) =
    if not (is_empty a.target.caller_id) && text_eq a.target.caller_id caller
    then a ∷ matching caller ps
    else matching caller ps

abbrev pub single : List Pointer → Option Pointer
single (p ∷ []) = some p
single _ = none

abbrev none_left : Pointer → List Pointer → Option Pointer
none_left a [] = some a
none_left a (q ∷ ps) = none

match_caller_found :
    (caller : Text) (ps : List Pointer) (a : Pointer)
    → match_caller caller ps (some a) ≡ none_left a (matching caller ps)
unfolding match_caller
match_caller_found caller [] a = refl
match_caller_found caller (p ∷ ps) a = ground (arith, match_caller_found caller ps a)

none_left-single : (a : Pointer) (ps : List Pointer) → none_left a ps ≡ single (a ∷ ps)
none_left-single a [] = refl
none_left-single a (p ∷ ps) = refl

-- The loop over caller ids finds an account exactly if it is the only one that matches.
pub match_caller-single :
    (caller : Text) (ps : List Pointer) → match_caller caller ps none ≡ single (matching caller ps)
unfolding match_caller
match_caller-single caller [] = refl
match_caller-single caller (p ∷ ps) =
    elim (Bool-cases (not (is_empty p.target.caller_id) && text_eq p.target.caller_id caller)) [
      | inl e ↦ rw (e, match_caller_found caller ps p) (none_left-single p (matching caller ps))
      | inr e ↦ rw (e, match_caller-single caller ps)
    ]

-- No account belongs to the user, or no user is named.
abbrev pub NoUser : Text → List Pointer → Type 0
NoUser user ps = (is_empty user ≡ true) ⊎ NotIn user (keys user_of ps)

abbrev pub NoSingleCaller : Text → List Pointer → Type 0
NoSingleCaller caller ps = (is_empty caller ≡ true) ⊎ (single (matching caller ps) ≡ none)

-- Which account an outgoing call takes.
pub data Selected (t : Table) (caller user : Text) (p : Pointer) : Type 0 where
  by_user : is_empty user ≡ false → Among p t.accounts → user_of p ≡ user → Selected t caller user p
  by_caller :
      NoUser user t.accounts
      → is_empty caller ≡ false
      → matching caller t.accounts ≡ p ∷ []
      → Selected t caller user p
  by_default :
      NoUser user t.accounts
      → NoSingleCaller caller t.accounts
      → t.def ≡ some p
      → Selected t caller user p

single-some : (ps : List Pointer) (p : Pointer) → single ps ≡ some p → ps ≡ p ∷ []
single-some [] p h = cc
single-some (q ∷ []) p h = ground arith
single-some (q ∷ r ∷ ps) p h = cc

mapped_cases :
    (t : Table) (user : Text)
    → IsConsistent t
    → (NoUser user t.accounts × ((if is_empty user then none else lookup user t.by_user) ≡ none))
      ⊎ ((p : Pointer) × ((if is_empty user then none else lookup user t.by_user) ≡ some p)
          × (is_empty user ≡ false)
          × Among p t.accounts
          × (user_of p ≡ user))
mapped_cases t user c = elim (Bool-cases (is_empty user)) [
  | inl e ↦ inl (inl e, rw e)
  | inr e ↦ elim (Option-cases (lookup user t.by_user)) [
    | inl l ↦ inl (
      inr (
          lookup-index-none user_of user t.accounts
            (ap (λ (m : List (Text × Pointer)). lookup user m) (sym c.by_user) ∙ l)),
      rw (e, l),
    )
    | inr (p, l) ↦
        let r =
          lookup-index-Among user_of user t.accounts p
            (ap (λ (m : List (Text × Pointer)). lookup user m) (sym c.by_user) ∙ l) in
        inr (p, rw (e, l), e, r.0, r.1)
  ]
]

matched_cases :
    (t : Table) (caller : Text)
    → (NoSingleCaller caller t.accounts
        × ((if is_empty caller then none else match_caller caller t.accounts none) ≡ none))
      ⊎ ((p : Pointer) × ((if is_empty caller then none else match_caller caller t.accounts none)
            ≡ some p)
          × (is_empty caller ≡ false)
          × (matching caller t.accounts ≡ p ∷ []))
matched_cases t caller = elim (Bool-cases (is_empty caller)) [
  | inl e ↦ inl (inl e, rw e)
  | inr e ↦ elim (Option-cases (single (matching caller t.accounts))) [
    | inl l ↦ inl (inr l, rw (e, match_caller-single caller t.accounts) l)
    | inr (p, l) ↦ inr (p, rw (e, match_caller-single caller t.accounts) l, e, single-some _ p l)
  ]
]

-- The account that `SelectOutbound` returns, or the reasons for which it returns none.
abbrev pub Answers : Table → Text → Text → Result AccountError Pointer → Type 0
Answers t caller user (ok p) = Selected t caller user p
Answers t caller user (err e) =
    (e ≡ no_account) × NoUser user t.accounts × NoSingleCaller caller t.accounts × (t.def ≡ none)

-- On a consistent table `SelectOutbound` takes the account of the Nextcloud user; if there is none,
-- the only account with the caller's number; if there is not exactly one, the default account; and
-- it fails only without a default.
pub select_outbound-Answers :
    (t : Table) (caller user : Text)
    → IsConsistent t
    → Answers t (trim_space caller) (trim_space user) (select_outbound t caller user)
unfolding select_outbound
select_outbound-Answers t caller user c = elim (mapped_cases t (trim_space user) c) [
  | inr (p, e, ne, listed, same) ↦ rw e (Selected.by_user ne listed same)
  | inl (no_user, e) ↦ elim (matched_cases t (trim_space caller)) [
    | inr (p, e', ne, only) ↦ rw (e, e') (by_caller no_user ne only)
    | inl (no_single, e') ↦ elim (Option-cases t.def) [
      | inl d ↦ rw (e, e', d) (refl, no_user, no_single, refl)
      | inr (p, d) ↦ rw (e, e', d) (by_default no_user no_single refl)
    ]
  ]
]
