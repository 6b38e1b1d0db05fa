-- ===== src/Accounts/Registrations/Ticks.antt =====
-- A tick of the refresh loop: what it ends and what it begins.
use talk_telephony_gateway_p.Base.{
  ◌≡◌, refl, sym, ◌∙◌, subst, true, List, [], ◌∷◌, Option, none, some, Result, ok, err,
  Option-cases, Bool-cases, inl, inr, arith, All, append-nil,
}
use talk_telephony_gateway_p.Text.{Text}
use talk_telephony_gateway_p.Dict.{lookup, Distinct, index, keys}
use talk_telephony_gateway_p.Accounts.{
  SipAccount, AccountError, Pointer, extension_of, Table, account_equivalent, install_accounts,
}
use talk_telephony_gateway_p.Accounts.Install.{IsConsistent}
use talk_telephony_gateway_p.Accounts.Preserve.{
  IsSettled, install_accounts-IsConsistent, install_accounts-IsSettled,
}
use talk_telephony_gateway_p.Accounts.Registrations.{
  Registrar, Manager, stop_stale, start_fresh, reconcile_registrations, refresh, reconciled,
}
use talk_telephony_gateway_p.Accounts.Registrations.Lacking.{
  Lacking, kept_by, kept_by-Lacking, IsFound, index-IsFound, IsFound-Lacking, stale_in, fresh_in,
  stale-All, fresh-All,
}
use talk_telephony_gateway_p.Accounts.Registrations.Logs.{
  Logged, Logged-nil, Logged-append, IsFree, stop_stale-Logged, start_fresh-Logged,
}
use talk_telephony_gateway_p.Accounts.Registrations.Sync.{IsRunning, reconciled-IsRunning}
use talk_telephony_gateway_p.Accounts.Registrations.Changes.{
  stops, lookup-stop_stale, stop_stale-running, stale_of, stops-index,
}

-- From one table to the next, the loops whose pointers the new one lacks were cancelled, each with an
-- unregister, and loops were started for the pointers that the old one lacks; for no others.
pub record IsChange (m m' : Manager) : Type 0 where
  pub gone : List Pointer
  pub come : List Pointer
  pub gone_lacking : Lacking m'.table.by_extension m.table.accounts gone
  pub come_lacking : Lacking m.table.by_extension m'.table.accounts come
  pub logged : Logged m.registrar m'.registrar gone come

-- A pointer of the table has its loop.
synced-IsFound :
    (regs m : List (Text × Pointer)) (ps : List Pointer)
    → ((k : Text) → lookup k regs ≡ lookup k m)
    → All (IsFound m) ps
    → All (IsFound regs) ps
synced-IsFound regs m [] h f = tt
synced-IsFound regs m (p ∷ ps) h (e, f) = (h (extension_of p) ∙ e, synced-IsFound regs m ps h f)

consistent-IsFound : (t : Table) → IsConsistent t → All (IsFound t.by_extension) t.accounts
consistent-IsFound t c =
    subst (λ (m : List (Text × Pointer)). All (IsFound m) t.accounts) (sym c.by_extension)
      (index-IsFound t.accounts c.extensions_differ)

IsChange-same : (m : Manager) → IsRunning m → IsChange m m
IsChange-same m h =
    let none_lacking =
      IsFound-Lacking m.table.by_extension m.table.accounts
        (consistent-IsFound m.table h.consistent) in
    record {
      gone = [];
      come = [];
      gone_lacking = none_lacking;
      come_lacking = none_lacking;
      logged = Logged-nil m.registrar;
    }

-- After the first loop the extensions of what is to be started are free.
stopped-IsFree :
    (old : List (Text × Pointer)) (olds ps later : List Pointer) (r : Registrar)
    → old ≡ index extension_of olds
    → Distinct (keys extension_of olds)
    → ((k : Text) → lookup k r.regs ≡ lookup k old)
    → All (IsFound (index extension_of ps)) later
    → All (IsFree old (stop_stale (index extension_of ps) old r).regs) later
stopped-IsFree old olds ps [] r same d synced f = tt
stopped-IsFree old olds ps (a ∷ later) r same d synced (e, f) =
    let new = index extension_of ps in
    let k = extension_of a in
    let stopped : stops new old k ≡ stale_of new k (lookup k old) =
      subst (λ (m : List (Text × Pointer)). stops new m k ≡ stale_of new k (lookup k m)) (sym same)
        (stops-index new olds k d) in
    let found = lookup-stop_stale new old k r in
    (
      elim (Option-cases (lookup k old)) [
        | inl g ↦ inr (found ∙ ground (arith, synced k, g))
        | inr (o, g) ↦ elim (Bool-cases (account_equivalent o.target a.target)) [
          | inl q ↦ inl (ground (arith, g, q))
          | inr q ↦ inr (found ∙ ground (arith, stopped, g, e, q))
        ]
      ],
      stopped-IsFree old olds ps later r same d synced f,
    )

reconcile-Logged :
    (old : List (Text × Pointer)) (olds ps : List Pointer) (r : Registrar)
    → old ≡ index extension_of olds
    → Distinct (keys extension_of olds)
    → Distinct (keys extension_of ps)
    → r.running ≡ true
    → ((k : Text) → lookup k r.regs ≡ lookup k old)
    → All (IsFound old) olds
    → Logged r
        (reconcile_registrations old (index extension_of ps) r)
        (kept_by (stale_in (index extension_of ps)) olds)
        (kept_by (fresh_in old) ps)
unfolding reconcile_registrations
reconcile-Logged old olds ps r same d d' h synced found =
    let new = index extension_of ps in
    let s = stop_stale new old r in
    let first : Logged r s (kept_by (stale_in new) olds) [] =
      subst
        (λ (m : List (Text × Pointer)).
          Logged r (stop_stale new m r) (kept_by (stale_in new) olds) [])
        (sym same) (stop_stale-Logged new olds r d (synced-IsFound r.regs old olds synced found)) in
    let second =
      start_fresh-Logged old ps s (stop_stale-running new old r ∙ h) d'
        (stopped-IsFree old olds ps ps r same d synced (index-IsFound ps d')) in
    subst
      (λ (gone : List Pointer). Logged r (start_fresh old new s) gone (kept_by (fresh_in old) ps))
      (append-nil (kept_by (stale_in new) olds))
      (Logged-append r s (start_fresh old new s) (kept_by (stale_in new) olds) [] []
        (kept_by (fresh_in old) ps) first second)

reconciled-IsChange :
    (m : Manager)
    → IsRunning m
    → (r : Table × Result AccountError (Unit {0})) → IsConsistent r.0
    → (r.1 ≡ ok tt → All (IsSettled m.table.by_extension) r.0.accounts)
    → IsChange m (reconciled m r)
reconciled-IsChange m h (t, err e) c s = IsChange-same m h
reconciled-IsChange m h (t, ok u) c s =
    let old = m.table.by_extension in
    let found = consistent-IsFound m.table h.consistent in
    record {
      gone = kept_by (stale_in (index extension_of t.accounts)) m.table.accounts;
      come = kept_by (fresh_in old) t.accounts;
      gone_lacking =
          subst
            (λ (new : List (Text × Pointer)).
              Lacking new m.table.accounts
                (kept_by (stale_in (index extension_of t.accounts)) m.table.accounts))
            (sym c.by_extension)
            (kept_by-Lacking _ _ m.table.accounts
              (stale-All old t.accounts m.table.accounts (s refl) found));
      come_lacking = kept_by-Lacking old _ t.accounts (fresh-All old t.accounts (s refl));
      logged =
          subst
            (λ (new : List (Text × Pointer)).
              Logged m.registrar (reconcile_registrations old new m.registrar)
                (kept_by (stale_in (index extension_of t.accounts)) m.table.accounts)
                (kept_by (fresh_in old) t.accounts))
            (sym c.by_extension)
            (reconcile-Logged old m.table.accounts t.accounts m.registrar h.consistent.by_extension
              h.consistent.extensions_differ c.extensions_differ h.up h.synced found);
    }

-- Every tick of the refresh loop, whatever the server sends and also when it sends nothing usable,
-- keeps a running gateway running, its account table consistent and under each extension of the
-- table, and only there, the loop of its account. It cancels exactly the loops of the accounts that
-- the new table lacks, and sends an unregister for each; it starts exactly one loop for each account
-- that the old table lacks; a changed account is lacking as the old one in the new table and as the
-- new one in the old table, and the loops of unchanged accounts are left alone.
pub refresh-IsRunning :
    (fetched : Option (List SipAccount)) (m : Manager)
    → IsRunning m
    → IsRunning (refresh fetched m) × IsChange m (refresh fetched m)
unfolding refresh
refresh-IsRunning none m h = (h, IsChange-same m h)
refresh-IsRunning (some input) m h =
    let c = install_accounts-IsConsistent input m.table h.consistent in
    let s = install_accounts-IsSettled input m.table in
    (
      reconciled-IsRunning m h (install_accounts input m.table) c s,
      reconciled-IsChange m h (install_accounts input m.table) c s,
    )
