-- ===== src/Accounts/Registrations.antt =====
-- The registration loops that accounts.go keeps for the accounts, and the refresh of both.
-- A loop is the pointer that it runs for; that it was started, that it was cancelled and that an
-- unregister was sent are the logs of `Registrar`. Go visits a map in any order: here in the order of the account list.
pub mod Changes
pub mod Lacking
pub mod Logs
pub mod Sync
pub mod Ticks
use talk_telephony_gateway_p.Base.{
  Bool, true, false, not, ◌||◌, List, [], ◌∷◌, ◌++◌, Option, none, some, if◌then◌else◌, Result, ok,
  err,
}
use talk_telephony_gateway_p.Text.{Text}
use talk_telephony_gateway_p.Dict.{lookup, insert, erase}
use talk_telephony_gateway_p.Accounts.{
  SipAccount, AccountError, Pointer, extension_of, Table, account_equivalent, install_accounts,
}

-- `running` says that `runCtx` is set and not done.
pub record Registrar : Type 0 where
  pub running : Bool
  pub regs : List (Text × Pointer)
  pub started : List Pointer
  pub cancelled : List Pointer
  pub unregistered : List Pointer

-- `accountManager`
pub record Manager : Type 0 where
  pub table : Table
  pub registrar : Registrar

abbrev pub start_new : Pointer → Registrar → Option Pointer → Registrar
start_new a r (some p) = r
start_new a r none = record r {
  regs = insert (extension_of a) a r.regs;
  started = r.started ++ a ∷ [];
}

unfoldable pub start_registration : Pointer → Registrar → Registrar
start_registration a r = if r.running then start_new a r (lookup (extension_of a) r.regs) else r

abbrev log_cancel : Option Pointer → List Pointer → List Pointer
log_cancel none ps = ps
log_cancel (some p) ps = ps ++ p ∷ []

-- `stopRegistration` with `sendUnregister` set, as it is called
pub stop_registration : Text → Pointer → Registrar → Registrar
stop_registration ext a r = record r {
  regs = erase ext r.regs;
  cancelled = log_cancel (lookup ext r.regs) r.cancelled;
  unregistered = r.unregistered ++ a ∷ [];
}

-- `other == nil || !accountEquivalent(..)`
abbrev pub is_stale : Option Pointer → Pointer → Bool
is_stale none o = true
is_stale (some a) o = not (account_equivalent o.target a.target)

abbrev pub is_fresh : Option Pointer → Pointer → Bool
is_fresh none a = true
is_fresh (some o) a = not (account_equivalent o.target a.target)

-- The first and the second loop of `reconcileRegistrations`.
pub stop_stale : List (Text × Pointer) → List (Text × Pointer) → Registrar → Registrar
stop_stale new [] r = r
stop_stale new ((ext, o) ∷ old) r =
    stop_stale new old (if is_stale (lookup ext new) o then stop_registration ext o r else r)

pub start_fresh : List (Text × Pointer) → List (Text × Pointer) → Registrar → Registrar
start_fresh old [] r = r
start_fresh old ((ext, a) ∷ new) r =
    start_fresh old new (if is_fresh (lookup ext old) a then start_registration a r else r)

pub reconcile_registrations : List (Text × Pointer) → List (Text × Pointer) → Registrar → Registrar
reconcile_registrations old new r = start_fresh old new (stop_stale new old r)

unfoldable pub start_all : List Pointer → Registrar → Registrar
start_all [] r = r
start_all (a ∷ ps) r = start_all ps (start_registration a r)

-- `RunRegistrations`, before its goroutines
unfoldable pub run_registrations : Manager → Manager
run_registrations m = record m {
  registrar = start_all m.table.accounts (record m.registrar { running = true });
}

abbrev pointers : List (Text × Pointer) → List Pointer
pointers [] = []
pointers ((k, p) ∷ m) = p ∷ pointers m

-- `stopAllRegistrations`, once the context is done
unfoldable pub stop_all_registrations : Manager → Manager
stop_all_registrations m = record m {
  registrar = record {
    running = false;
    regs = [];
    started = m.registrar.started;
    cancelled = m.registrar.cancelled ++ pointers m.registrar.regs;
    unregistered = m.registrar.unregistered ++ pointers m.registrar.regs;
  };
}

abbrev pub reconciled : Manager → Table × Result AccountError (Unit {0}) → Manager
reconciled m (t, err e) = m
reconciled m (t, ok _) = record {
  table = t;
  registrar = reconcile_registrations m.table.by_extension t.by_extension m.registrar;
}

-- A tick of `refreshLoop`; `none` is a fetch that failed.
pub refresh : Option (List SipAccount) → Manager → Manager
refresh none m = m
refresh (some input) m = reconciled m (install_accounts input m.table)
