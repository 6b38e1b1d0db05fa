-- ===== src/Accounts/Preserve.antt =====
-- The loop of `installAccounts` that keeps the pointers of unchanged accounts.
use talk_telephony_gateway_p.Base.{
  ◌≡◌, ◌≢◌, refl, sym, ap, ◌∙◌, subst, true, false, List, [], ◌∷◌, ◌++◌, Option, none, some, ◌==◌,
  if◌then◌else◌, ok, Result-cases, Option-cases, Bool-cases, inl, inr, arith, All, append_assoc,
  append-nil,
}
use talk_telephony_gateway_p.Text.{Text}
use talk_telephony_gateway_p.Text.Laws.{text_eq→eq}
use talk_telephony_gateway_p.Dict.{lookup, keys, insert-index, NotIn-sym, keys-append}
use talk_telephony_gateway_p.Accounts.{
  SipAccount, Pointer, extension_of, user_of, Table, normalize_accounts, account_equivalent,
  kept_pointer, keep, preserve_loop, preserve, install_accounts, same_pointer,
}
use talk_telephony_gateway_p.Accounts.Install.{
  IsNormalized, Among, Listed, IsConsistent, normalize_accounts-IsConsistent,
}

-- All fields but `enabled` agree.
pub account_equivalent_lem :
    (a b : SipAccount)
    → account_equivalent a b ≡ true
    → (a.extension ≡ b.extension)
      × (a.username ≡ b.username)
      × (a.auth_user ≡ b.auth_user)
      × (a.password ≡ b.password)
      × (a.caller_id ≡ b.caller_id)
      × (a.nextcloud_user ≡ b.nextcloud_user)
      × (a.is_default ≡ b.is_default)
unfolding account_equivalent
account_equivalent_lem a b h = ground (
  arith,
  text_eq→eq a.extension b.extension,
  text_eq→eq a.username b.username,
  text_eq→eq a.auth_user b.auth_user,
  text_eq→eq a.password b.password,
  text_eq→eq a.caller_id b.caller_id,
  text_eq→eq a.nextcloud_user b.nextcloud_user,
)

equivalent-IsNormalized :
    (a b : SipAccount) → account_equivalent a b ≡ true → IsNormalized b → IsNormalized a
equivalent-IsNormalized a b h n =
    let e = account_equivalent_lem a b h in
    (rw e.0 n.0, rw e.1 n.1, rw e.2 n.2, rw e.3 n.3, rw e.5 n.4)

-- No account of the old map under the same extension is equivalent to this one but itself.
abbrev pub IsSettled : List (Text × Pointer) → Pointer → Type 0
IsSettled old p =
    (o : Pointer)
    → lookup (extension_of p) old ≡ some o
    → account_equivalent o.target p.target ≡ true
    → o ≡ p

kept_pointer-none :
    (old : List (Text × Pointer)) (a : Pointer) → kept_pointer old a ≡ none → IsSettled old a
unfolding kept_pointer
kept_pointer-none old a h o e q = ground arith

kept_pointer-some :
    (old : List (Text × Pointer)) (a o : Pointer)
    → kept_pointer old a ≡ some o
    → (lookup (extension_of a) old ≡ some o) × (account_equivalent o.target a.target ≡ true)
unfolding kept_pointer
kept_pointer-some old a o h = elim (Option-cases (lookup (extension_of a) old)) [
  | inl e ↦ ground arith
  | inr (p, e) ↦ ground arith
]

module _ (f : Pointer → Text) where
  keys_swap :
      (before after : List Pointer) (v w : Pointer)
      → f w ≡ f v
      → keys f (before ++ w ∷ after) ≡ keys f (before ++ v ∷ after)
  keys_swap [] after v w e = rw e
  keys_swap (b ∷ before) after v w e = rw (keys_swap before after v w e)

Among-swap :
    (p : Pointer) (before after : List Pointer) (v w : Pointer)
    → p ≢ v
    → Among p (before ++ v ∷ after)
    → Among p (before ++ w ∷ after)
Among-swap p [] after v w n (inl e) = absurd (n e)
Among-swap p [] after v w n (inr h) = inr h
Among-swap p (b ∷ before) after v w n (inl e) = inl e
Among-swap p (b ∷ before) after v w n (inr h) = inr (Among-swap p before after v w n h)

Among-middle : (before after : List Pointer) (w : Pointer) → Among w (before ++ w ∷ after)
Among-middle [] after w = inl refl
Among-middle (b ∷ before) after w = inr (Among-middle before after w)

address_differs : (p v : Pointer) → (p.address == v.address) ≡ false → p ≢ v
address_differs p v h e = ground arith

def-Listed :
    (d : Option Pointer) (before after : List Pointer) (v w : Pointer)
    → Listed d (before ++ v ∷ after)
    → Listed (if same_pointer d v then some w else d) (before ++ w ∷ after)
def-Listed none before after v w h = tt
def-Listed (some p) before after v w h = elim (Bool-cases (p.address == v.address)) [
  | inl e ↦ rw e (Among-middle before after w)
  | inr e ↦ rw e (Among-swap p before after v w (address_differs p v e) h)
]

All-swap {ℓ} :
    (P : Pointer → Type ℓ) (before after : List Pointer) (v w : Pointer)
    → P w
    → All P (before ++ v ∷ after)
    → All P (before ++ w ∷ after)
All-swap P [] after v w hw (h, hs) = (hw, hs)
All-swap P (b ∷ before) after v w hw (h, hs) = (h, All-swap P before after v w hw hs)

All_middle {ℓ} :
    (P : Pointer → Type ℓ) (before after : List Pointer) (v : Pointer)
    → All P (before ++ v ∷ after)
    → P v
All_middle P [] after v h = h.0
All_middle P (b ∷ before) after v h = All_middle P before after v h.1

All-snoc {ℓ} :
    (P : Pointer → Type ℓ) (xs : List Pointer) (x : Pointer) → All P xs → P x → All P (xs ++ x ∷ [])
All-snoc P [] x h hx = (hx, tt)
All-snoc P (y ∷ ys) x (hy, h) hx = (hy, All-snoc P ys x h hx)

-- The table in the middle of the loop: what it passed and what is left make a consistent table.
record Passing (old : List (Text × Pointer)) (rest : List Pointer) (t : Table) : Type 0 where
  whole : IsConsistent (record t { accounts = t.accounts ++ rest })
  settled : All (IsSettled old) t.accounts

snoc_regroup : (ps rest : List Pointer) (p : Pointer) → (ps ++ p ∷ []) ++ rest ≡ ps ++ p ∷ rest
snoc_regroup ps rest p = append_assoc ps (p ∷ []) rest

keep-Passing :
    (old : List (Text × Pointer)) (a : Pointer) (rest : List Pointer) (t : Table)
    (k : Option Pointer)
    → kept_pointer old a ≡ k
    → Passing old (a ∷ rest) t
    → Passing old rest (keep k a t)
keep-Passing old a rest t none e s = record {
  whole =
      subst (λ (ps : List Pointer). IsConsistent (record t { accounts = ps }))
        (sym (snoc_regroup t.accounts rest a)) s.whole;
  settled = All-snoc (IsSettled old) t.accounts a s.settled (kept_pointer-none old a e);
}
keep-Passing old a rest t (some o) e s = record {
  whole =
      subst (λ (ps : List Pointer). IsConsistent (record kept { accounts = ps }))
        (sym (snoc_regroup t.accounts rest o))
        (record {
          by_extension = rw s.whole.by_extension (
              insert-index extension_of t.accounts rest a o same.0 (
                NotIn-sym (extension_of a) _ (keys extension_of rest) (
                  rw (keys-append extension_of t.accounts (a ∷ rest)) at
                    s.whole.extensions_differ)));
          by_user = rw s.whole.by_user (
              insert-index user_of t.accounts rest a o same.5 (
                NotIn-sym (user_of a) _ (keys user_of rest)
                  (rw (keys-append user_of t.accounts (a ∷ rest)) at s.whole.users_differ)));
          extensions_differ =
              rw (keys_swap extension_of t.accounts rest a o same.0) s.whole.extensions_differ;
          users_differ = rw (keys_swap user_of t.accounts rest a o same.5) s.whole.users_differ;
          def_listed = def-Listed t.def t.accounts rest a o s.whole.def_listed;
          normalized =
              All-swap (λ (p : Pointer). IsNormalized p.target) t.accounts rest a o
                (equivalent-IsNormalized o.target a.target found.1 (
                  All_middle (λ (p : Pointer). IsNormalized p.target) t.accounts rest a
                    s.whole.normalized))
                s.whole.normalized;
        });
  settled = All-snoc (IsSettled old) t.accounts o s.settled o_settled;
}
  where
    found : (lookup (extension_of a) old ≡ some o) × (account_equivalent o.target a.target ≡ true)
    found = kept_pointer-some old a o e

    same :
        (o.target.extension ≡ a.target.extension)
        × (o.target.username ≡ a.target.username)
        × (o.target.auth_user ≡ a.target.auth_user)
        × (o.target.password ≡ a.target.password)
        × (o.target.caller_id ≡ a.target.caller_id)
        × (o.target.nextcloud_user ≡ a.target.nextcloud_user)
        × (o.target.is_default ≡ a.target.is_default)
    same = account_equivalent_lem o.target a.target found.1

    kept : Table
    kept = keep (some o) a t

    o_settled : IsSettled old o
    o_settled o' e' q = cc (sym e' ∙ ap (λ (k : Text). lookup k old) same.0 ∙ found.0)

preserve_loop-Passing :
    (old : List (Text × Pointer)) (rest : List Pointer) (t : Table)
    → Passing old rest t
    → Passing old [] (preserve_loop old rest t)
unfolding preserve_loop
preserve_loop-Passing old [] t s = s
preserve_loop-Passing old (a ∷ rest) t s =
    preserve_loop-Passing old rest (keep (kept_pointer old a) a t)
      (keep-Passing old a rest t (kept_pointer old a) refl s)

preserve-Passing :
    (old : List (Text × Pointer)) (t : Table) → IsConsistent t → Passing old [] (preserve old t)
unfolding preserve
preserve-Passing old t c =
    preserve_loop-Passing old t.accounts (record t { accounts = [] })
      (record { whole = c; settled = tt })

passed :
    {old : List (Text × Pointer)} (t : Table)
    → Passing old [] t
    → IsConsistent t × All (IsSettled old) t.accounts
passed t s = (
  subst (λ (ps : List Pointer). IsConsistent (record t { accounts = ps })) (append-nil t.accounts)
      s.whole,
  s.settled,
)

-- A refresh leaves a consistent account table consistent, whether it is accepted or refused.
pub install_accounts-IsConsistent :
    (input : List SipAccount) (t : Table)
    → IsConsistent t
    → IsConsistent (install_accounts input t).0
unfolding install_accounts
install_accounts-IsConsistent input t c =
    elim (Result-cases (normalize_accounts t.next_address input)) [
      | inr (x, e) ↦ rw (e, install_accounts) c
      | inl (fresh, e) ↦
          rw (e, install_accounts)
            (passed _
              (preserve-Passing t.by_extension fresh (normalize_accounts-IsConsistent _ input e))).0
    ]

-- After an accepted refresh an account that did not change is the very pointer that the old map
-- held under its extension.
pub install_accounts-IsSettled :
    (input : List SipAccount) (t : Table)
    → (install_accounts input t).1 ≡ ok tt
    → All (IsSettled t.by_extension) (install_accounts input t).0.accounts
unfolding install_accounts
install_accounts-IsSettled input t h =
    elim (Result-cases (normalize_accounts t.next_address input)) [
      | inr (x, e) ↦ ground arith
      | inl (fresh, e) ↦
          rw (e, install_accounts)
            (passed _
              (preserve-Passing t.by_extension fresh (normalize_accounts-IsConsistent _ input e))).1
    ]
