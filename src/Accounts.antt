-- ===== src/Accounts.antt =====
-- cmd/gateway/accounts.go: the table of SIP accounts and the choice of an account for a call.
-- A `*sipAccount` is an address with the account it points to: an account does not change once
-- its address is published, so only the identity of a pointer is state. Texts are bytes.
pub mod Install
pub mod Preserve
pub mod Select
pub mod Registrations
mod Tests
use talk_telephony_gateway_p.Base.{
  ℕ, zero, suc, ◌+◌, Bool, true, false, not, ◌&&◌, ◌||◌, List, [], ◌∷◌, ◌++◌, Option, none, some,
  ◌==◌, if◌then◌else◌, Result, ok, err, ◌>>=◌, ◌>>◌, guard,
}
use talk_telephony_gateway_p.Text.{Text, text_eq, trim_space, is_empty}
use talk_telephony_gateway_p.Dict.{lookup, insert}

-- `Enabled *bool` is `none` for nil.
pub record SipAccount : Type 0 where
  pub extension : Text
  pub username : Text
  pub auth_user : Text
  pub password : Text
  pub caller_id : Text
  pub nextcloud_user : Text
  pub is_default : Bool
  pub enabled : Option Bool

pub data AccountError : Type 0 where
  extension_required password_required user_required : AccountError
  duplicate_extension duplicate_user two_defaults : AccountError
  no_account : AccountError

-- `isEnabled` on a pointer that is not nil
pub is_enabled : SipAccount → Bool
is_enabled a = elim a.enabled [ none ↦ true | some b ↦ b ]

abbrev or_else : Text → Text → Text
or_else a b = if is_empty a then b else a

-- `normalize`: the account after the call, or its error.
pub normalize : SipAccount → Result AccountError SipAccount
normalize a = do
  let extension = trim_space a.extension
  let username = or_else (trim_space a.username) extension
  let auth_user = or_else (trim_space a.auth_user) username
  let nextcloud_user = trim_space a.nextcloud_user
  guard (not (is_empty extension)) extension_required
  guard (not (is_empty a.password)) password_required
  guard (not (is_empty nextcloud_user)) user_required
  ok (record a {
    extension = extension;
    username = username;
    auth_user = auth_user;
    caller_id = trim_space a.caller_id;
    nextcloud_user = nextcloud_user;
  })

pub record Pointer : Type 0 where
  pub address : ℕ
  pub target : SipAccount

abbrev pub extension_of : Pointer → Text
extension_of p = p.target.extension

abbrev pub user_of : Pointer → Text
user_of p = p.target.nextcloud_user

-- `p == q` on pointers
abbrev same_pointer : Option Pointer → Pointer → Bool
same_pointer none q = false
same_pointer (some p) q = p.address == q.address

-- The account fields of `accountManager`, and the next free address.
pub record Table : Type 0 where
  pub accounts : List Pointer
  pub by_extension : List (Text × Pointer)
  pub by_user : List (Text × Pointer)
  pub def : Option Pointer
  pub next_address : ℕ

abbrev is_none {ℓ} : {A : Type ℓ} → Option A → Bool
is_none none = true
is_none (some a) = false

-- The end of a round of `normalizeAccounts`, for an account that is enabled and normalized.
pub add_account : SipAccount → Table → Result AccountError Table
add_account a t = do
  guard (is_none (lookup a.extension t.by_extension)) duplicate_extension
  guard (is_none (lookup a.nextcloud_user t.by_user)) duplicate_user
  let p : Pointer = record { address = t.next_address; target = a }
  guard (not a.is_default || is_none t.def) two_defaults
  ok (record {
    accounts = t.accounts ++ p ∷ [];
    by_extension = insert a.extension p t.by_extension;
    by_user = insert a.nextcloud_user p t.by_user;
    def = if a.is_default then some p else t.def;
    next_address = suc t.next_address;
  })

pub normalize_loop : List SipAccount → Table → Result AccountError Table
normalize_loop [] t = ok t
normalize_loop (a ∷ input) t =
    if is_enabled a
    then (do a' ← normalize a; t' ← add_account a' t; normalize_loop input t')
    else normalize_loop input t

-- `if def == nil && len(accounts) == 1`
abbrev pub sole_default : List Pointer → Option Pointer → Option Pointer
sole_default (p ∷ []) none = some p
sole_default _ def = def

abbrev pub empty_table : ℕ → Table
empty_table next = record {
  accounts = [];
  by_extension = [];
  by_user = [];
  def = none;
  next_address = next;
}

pub normalize_accounts : ℕ → List SipAccount → Result AccountError Table
normalize_accounts next input = do
  t ← normalize_loop input (empty_table next)
  ok (record t { def = sole_default t.accounts t.def })

-- `accountEquivalent` on two accounts; it is false where one pointer is nil and the other not.
unfoldable pub account_equivalent : SipAccount → SipAccount → Bool
account_equivalent a b =
    text_eq a.extension b.extension
    && (text_eq a.username b.username
        && (text_eq a.auth_user b.auth_user
            && (text_eq a.password b.password
                && (text_eq a.caller_id b.caller_id
                    && (text_eq a.nextcloud_user b.nextcloud_user
                        && (if a.is_default then b.is_default else not b.is_default))))))

-- The old pointer that the loop of `installAccounts` keeps in place of `a`, if any.
pub kept_pointer : List (Text × Pointer) → Pointer → Option Pointer
kept_pointer old a = elim (lookup (extension_of a) old) [
  | none ↦ none
  | some o ↦ if account_equivalent o.target a.target then some o else none
]

abbrev keep : Option Pointer → Pointer → Table → Table
keep none a t = record t { accounts = t.accounts ++ a ∷ [] }
keep (some o) a t = record t {
  accounts = t.accounts ++ o ∷ [];
  by_extension = insert (extension_of a) o t.by_extension;
  by_user = insert (user_of a) o t.by_user;
  def = if same_pointer t.def a then some o else t.def;
}

-- The loop; `t.accounts` is the part of the slice that it has passed.
pub preserve_loop : List (Text × Pointer) → List Pointer → Table → Table
preserve_loop old [] t = t
preserve_loop old (a ∷ rest) t = preserve_loop old rest (keep (kept_pointer old a) a t)

pub preserve : List (Text × Pointer) → Table → Table
preserve old t = preserve_loop old t.accounts (record t { accounts = [] })

-- `installAccounts` without its last step: a refused input leaves the table as it was.
pub install_accounts : List SipAccount → Table → Table × Result AccountError (Unit {0})
install_accounts input t = elim (normalize_accounts t.next_address input) [
  | err e ↦ (t, err e)
  | ok fresh ↦ (preserve t.by_extension fresh, ok tt)
]

-- `AccountByExtension`
pub account_by_extension : Table → Text → Option Pointer
account_by_extension t ext = lookup (trim_space ext) t.by_extension

-- The loop over the accounts in `SelectOutbound`, with `match` so far; a second match ends it.
pub match_caller : Text → List Pointer → Option Pointer → Option Pointer
match_caller caller [] found = found
match_caller caller (a ∷ rest) found =
    let next = match_caller caller rest (some a) in
    let skipped = match_caller caller rest found in
    if not (is_empty a.target.caller_id) && text_eq a.target.caller_id caller
    then (if is_none found then next else none)
    else skipped

abbrev pub first_some {ℓ} : {A : Type ℓ} → Option A → Option A → Option A
first_some none b = b
first_some (some a) b = some a

abbrev pub or_no_account : Option Pointer → Result AccountError Pointer
or_no_account none = err no_account
or_no_account (some p) = ok p

-- `SelectOutbound`
pub select_outbound : Table → Text → Text → Result AccountError Pointer
select_outbound t caller nextcloud_user =
    let caller' = trim_space caller in
    let user' = trim_space nextcloud_user in
    let mapped = if is_empty user' then none else lookup user' t.by_user in
    let matched = if is_empty caller' then none else match_caller caller' t.accounts none in
    or_no_account (first_some mapped (first_some matched t.def))
