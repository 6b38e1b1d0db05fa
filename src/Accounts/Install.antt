-- ===== src/Accounts/Install.antt =====
-- `normalizeAccounts` and `installAccounts` keep the account table consistent.
use talk_telephony_gateway_p.Base.{
  ℕ, suc, ◌≡◌, refl, sym, subst, Bool, true, false, List, [], ◌∷◌, ◌++◌, Option, none, some,
  if◌then◌else◌, ok, Result-cases, Bool-cases, ◌⊎◌, inl, inr, arith, All,
}
use talk_telephony_gateway_p.Text.{is_empty}
use talk_telephony_gateway_p.Dict.{
  lookup, insert, insert_new, Distinct, index, keys, index-append, keys-append, lookup-index-none,
  Distinct-snoc,
}
use talk_telephony_gateway_p.Accounts.{
  SipAccount, is_enabled, normalize, Pointer, extension_of, user_of, Table, add_account,
  normalize_loop, empty_table, sole_default, normalize_accounts,
}

-- What `normalize` promises of an account.
abbrev pub IsNormalized : SipAccount → Type 0
IsNormalized a =
    (is_empty a.extension ≡ false)
    × (is_empty a.username ≡ false)
    × (is_empty a.auth_user ≡ false)
    × (is_empty a.password ≡ false)
    × (is_empty a.nextcloud_user ≡ false)

pub normalize-IsNormalized : (a : SipAccount) {b : SipAccount} → normalize a ≡ ok b → IsNormalized b
unfolding normalize
normalize-IsNormalized a h = ground arith

-- The pointer stands in the list.
abbrev pub Among : Pointer → List Pointer → Type 0
Among p [] = ⊥
Among p (q ∷ ps) = (p ≡ q) ⊎ Among p ps

abbrev pub Listed : Option Pointer → List Pointer → Type 0
Listed none ps = Unit {0}
Listed (some p) ps = Among p ps

-- The maps are those of the account list, by keys that differ, and the default is an account of it.
pub record IsConsistent (t : Table) : Type 0 where
  pub by_extension : t.by_extension ≡ index extension_of t.accounts
  pub by_user : t.by_user ≡ index user_of t.accounts
  pub extensions_differ : Distinct (keys extension_of t.accounts)
  pub users_differ : Distinct (keys user_of t.accounts)
  pub def_listed : Listed t.def t.accounts
  pub normalized : All (λ p. IsNormalized p.target) t.accounts

Among-snoc : (q : Pointer) (ps : List Pointer) (p : Pointer) → Among q ps → Among q (ps ++ p ∷ [])
Among-snoc q [] p h = absurd h
Among-snoc q (r ∷ ps) p (inl e) = inl e
Among-snoc q (r ∷ ps) p (inr h) = inr (Among-snoc q ps p h)

Among-last : (ps : List Pointer) (p : Pointer) → Among p (ps ++ p ∷ [])
Among-last [] p = inl refl
Among-last (q ∷ ps) p = inr (Among-last ps p)

Listed-choice :
    (b : Bool) (d : Option Pointer) (ps : List Pointer) (p : Pointer)
    → Listed d ps
    → Listed (if b then some p else d) (ps ++ p ∷ [])
Listed-choice true d ps p h = Among-last ps p
Listed-choice false none ps p h = tt
Listed-choice false (some q) ps p h = Among-snoc q ps p h

All-snoc {ℓ κ} :
    {A : Type ℓ} (P : A → Type κ) (xs : List A) (x : A) → All P xs → P x → All P (xs ++ x ∷ [])
All-snoc P [] x h hx = (hx, tt)
All-snoc P (y ∷ ys) x (hy, h) hx = (hy, All-snoc P ys x h hx)

added : SipAccount → Table → Table
added a t =
    let p : Pointer = record { address = t.next_address; target = a } in
    record {
      accounts = t.accounts ++ p ∷ [];
      by_extension = insert a.extension p t.by_extension;
      by_user = insert a.nextcloud_user p t.by_user;
      def = if a.is_default then some p else t.def;
      next_address = suc t.next_address;
    }

add_account_lem :
    (a : SipAccount) (t : Table) {t' : Table}
    → add_account a t ≡ ok t'
    → (lookup a.extension t.by_extension ≡ none)
      × (lookup a.nextcloud_user t.by_user ≡ none)
      × (t' ≡ added a t)
unfolding add_account added
add_account_lem a t h = ground arith

added-IsConsistent :
    (a : SipAccount) (t : Table)
    → lookup a.extension t.by_extension ≡ none
    → lookup a.nextcloud_user t.by_user ≡ none
    → IsNormalized a
    → IsConsistent t
    → IsConsistent (added a t)
unfolding added
added-IsConsistent a t new_ext new_user n c = record {
  by_extension =
      rw (insert_new a.extension p t.by_extension new_ext, c.by_extension)
        (sym (index-append extension_of t.accounts (p ∷ [])));
  by_user =
      rw (insert_new a.nextcloud_user p t.by_user new_user, c.by_user)
        (sym (index-append user_of t.accounts (p ∷ [])));
  extensions_differ = rw (keys-append extension_of t.accounts (p ∷ [])) (
      Distinct-snoc _ a.extension c.extensions_differ
        (lookup-index-none extension_of a.extension t.accounts (rw c.by_extension at new_ext)));
  users_differ = rw (keys-append user_of t.accounts (p ∷ [])) (
      Distinct-snoc _ a.nextcloud_user c.users_differ
        (lookup-index-none user_of a.nextcloud_user t.accounts (rw c.by_user at new_user)));
  def_listed = Listed-choice a.is_default t.def t.accounts p c.def_listed;
  normalized = All-snoc (λ (q : Pointer). IsNormalized q.target) t.accounts p c.normalized n;
}
  where
    p : Pointer
    p = record { address = t.next_address; target = a }

normalize_loop-IsConsistent :
    (input : List SipAccount) (t : Table) {t' : Table}
    → normalize_loop input t ≡ ok t'
    → IsConsistent t
    → IsConsistent t'
unfolding normalize_loop
normalize_loop-IsConsistent [] t h c = subst IsConsistent (cc) c
normalize_loop-IsConsistent (a ∷ input) t h c = elim (Bool-cases (is_enabled a)) [
  | inr e ↦ normalize_loop-IsConsistent input t (ground arith) c
  | inl e ↦ elim (Result-cases (normalize a)) [
    | inr (x, n) ↦ ground arith
    | inl (a', n) ↦ elim (Result-cases (add_account a' t)) [
      | inr (x, m) ↦ ground arith
      | inl (t', m) ↦
          let (new_ext, new_user, same) = add_account_lem a' t m in
          normalize_loop-IsConsistent input t' (ground arith) (
            subst IsConsistent (sym same)
              (added-IsConsistent a' t new_ext new_user (normalize-IsNormalized a n) c))
    ]
  ]
]

pub empty_table-IsConsistent : (next : ℕ) → IsConsistent (empty_table next)
empty_table-IsConsistent next = record {
  by_extension = refl;
  by_user = refl;
  extensions_differ = tt;
  users_differ = tt;
  def_listed = tt;
  normalized = tt;
}

sole_default-Listed :
    (ps : List Pointer) (d : Option Pointer) → Listed d ps → Listed (sole_default ps d) ps
sole_default-Listed [] d h = h
sole_default-Listed (p ∷ []) none h = inl refl
sole_default-Listed (p ∷ []) (some q) h = h
sole_default-Listed (p ∷ q ∷ ps) d h = h

-- Whatever `normalizeAccounts` accepts is consistent: the extensions differ and so do the users,
-- both maps hold exactly the listed accounts, and every account is normalized.
pub normalize_accounts-IsConsistent :
    (next : ℕ) (input : List SipAccount) {t : Table}
    → normalize_accounts next input ≡ ok t
    → IsConsistent t
unfolding normalize_accounts
normalize_accounts-IsConsistent next input h =
    elim (Result-cases (normalize_loop input (empty_table next))) [
      | inr (x, e) ↦ ground arith
      | inl (t', e) ↦
          let c =
            normalize_loop-IsConsistent input (empty_table next) e
              (empty_table-IsConsistent next) in
          subst IsConsistent {x = record t' { def = sole_default t'.accounts t'.def }}
            (ground arith)
            (record {
              by_extension = c.by_extension;
              by_user = c.by_user;
              extensions_differ = c.extensions_differ;
              users_differ = c.users_differ;
              def_listed = sole_default-Listed t'.accounts t'.def c.def_listed;
              normalized = c.normalized;
            })
    ]
