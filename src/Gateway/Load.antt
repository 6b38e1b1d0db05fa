-- ===== src/Gateway/Load.antt =====
-- cmd/gateway/accounts.go: `fetchAccounts` and `loadAccountManager`. The exchange of the request for
-- a response is a parameter, with what `json.Unmarshal` reads from the body.
use talk_telephony_gateway_p.Base.{
  ℕ, ◌≡◌, ap, subst, Bool, true, false, not, ◌||◌, List, [], ◌∷◌, ◌++◌, Option, none, some,
  if◌then◌else◌, ◌==◌, Result, ok, err, ◌>>=◌, Bool-cases, Result-cases, inl, inr, arith,
}
use talk_telephony_gateway_p.Base.Int.{ℤ, pos, negsuc}
use talk_telephony_gateway_p.Text.{Text, codes}
use talk_telephony_gateway_p.Accounts.{
  SipAccount, AccountError, Pointer, Table, empty_table, install_accounts,
}
use talk_telephony_gateway_p.Accounts.Install.{IsConsistent, empty_table-IsConsistent}
use talk_telephony_gateway_p.Accounts.Preserve.{install_accounts-IsConsistent}

-- `accountsConfig`
pub record AccountsConfig : Type 0 where
  pub version : ℤ
  pub accounts : List SipAccount

pub record Request : Type 0 where
  pub url : Text
  pub bearer : Text

pub record Response : Type 0 where
  pub status : ℕ
  pub is_readable : Bool
  pub decoded : Option AccountsConfig

pub data LoadError : Type 0 where
  no_response unreadable bad_status bad_body bad_version no_accounts : LoadError
  not_installed : (e : AccountError) → LoadError

abbrev pub is_known : ℤ → Bool
is_known (pos n) = n == 0 || n == 1
is_known (negsuc n) = false

unfoldable pub check_version : AccountsConfig → Result LoadError AccountsConfig
check_version ac = if is_known ac.version then ok ac else err bad_version

unfoldable pub check_response : Response → Result LoadError AccountsConfig
check_response r =
    if not r.is_readable
    then err unreadable
    else if r.status == 200
    then elim r.decoded [ none ↦ err bad_body | some ac ↦ check_version ac ]
    else err bad_status

abbrev has_none : List Pointer → Bool
has_none [] = true
has_none (p ∷ ps) = false

-- What follows the installing of the accounts.
pub finish_load : Table × Result AccountError (Unit {0}) → Result LoadError Table
finish_load (t, err e) = err (not_installed e)
finish_load (t, ok done) = if has_none t.accounts then err no_accounts else ok t

module _ (exchange : Request → Option Response) where
  unfoldable pub fetch_accounts : Text → Text → Result LoadError AccountsConfig
  fetch_accounts url token =
      elim (exchange (record { url = url; bearer = codes "Bearer " ++ token })) [
        | none ↦ err no_response
        | some r ↦ check_response r
      ]

  -- The table is numbered from `next` on.
  unfoldable pub load_account_manager : Text → Text → ℕ → Result LoadError Table
  load_account_manager url token next = fetch_accounts url token >>= λ ac.
      finish_load (install_accounts ac.accounts (empty_table next))

-- A table that serves: it is consistent, and has an account.
pub record IsLoaded (t : Table) : Type 0 where
  pub is_consistent : IsConsistent t
  pub has_account : has_none t.accounts ≡ false

loaded : Table → Result LoadError Table → Table
loaded t (ok u) = u
loaded t (err e) = t

finish_load-IsLoaded :
    (p : Table × Result AccountError (Unit {0})) (t : Table)
    → IsConsistent p.0
    → finish_load p ≡ ok t
    → IsLoaded t
unfolding finish_load loaded
finish_load-IsLoaded (u, err e) t c h = ground (arith, h)
finish_load-IsLoaded (u, ok done) t c h = elim (Bool-cases (has_none u.accounts)) [
  | inl e ↦ ground (arith, rw e at h)
  | inr e ↦
      subst IsLoaded (ap (loaded u) (rw e at h)) (record { is_consistent = c; has_account = e })
]

module _ (exchange : Request → Option Response) where
  -- When the accounts are loaded, the table is consistent and has an account.
  pub load_account_manager-IsLoaded :
      (url token : Text) (next : ℕ) (t : Table)
      → load_account_manager exchange url token next ≡ ok t
      → IsLoaded t
  unfolding load_account_manager
  load_account_manager-IsLoaded url token next t h =
      elim (Result-cases (fetch_accounts exchange url token)) [
        | inr (e, f) ↦ ground (arith, rw f at h)
        | inl (ac, f) ↦
            finish_load-IsLoaded (install_accounts ac.accounts (empty_table next)) t
              (install_accounts-IsConsistent ac.accounts (empty_table next)
                (empty_table-IsConsistent next))
              (rw f at h)
      ]
