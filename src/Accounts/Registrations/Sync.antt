-- ===== src/Accounts/Registrations/Sync.antt =====
-- While the gateway runs, the registration loops are those of the account table, and a refresh ends
-- and begins those that it must.
use talk_telephony_gateway_p.Base.{
  ◌≡◌, refl, sym, ap, ap₂, ◌∙◌, subst, Bool, true, List, [], ◌∷◌, Option, none, if◌then◌else◌,
  Result, ok, err, Option-cases, Bool-cases, inl, inr, arith, All,
}
use talk_telephony_gateway_p.Text.{Text}
use talk_telephony_gateway_p.Dict.{lookup, Distinct, index, keys}
use talk_telephony_gateway_p.Accounts.{
  AccountError, Pointer, extension_of, Table, account_equivalent, first_some,
}
use talk_telephony_gateway_p.Accounts.Install.{IsConsistent}
use talk_telephony_gateway_p.Accounts.Preserve.{IsSettled}
use talk_telephony_gateway_p.Accounts.Registrations.{
  Registrar, Manager, start_registration, stop_stale, start_fresh, reconcile_registrations,
  start_all, run_registrations, reconciled,
}
use talk_telephony_gateway_p.Accounts.Registrations.Lacking.{settled_at}
use talk_telephony_gateway_p.Accounts.Registrations.Changes.{
  lookup-start, start-running, stops, lookup-stop_stale, stop_stale-running, stale_of, fresh_of,
  stops-index, first_some-none, lookup-start_fresh,
}

-- A loop runs for exactly the pointers of the table, each under its extension.
abbrev pub IsSynced : Manager → Type 0
IsSynced m = (k : Text) → lookup k m.registrar.regs ≡ lookup k m.table.by_extension

reconciled_key :
    (old : List (Text × Pointer)) (ps : List Pointer) (k : Text)
    → All (IsSettled old) ps
    → first_some
        (if stale_of (index extension_of ps) k (lookup k old) then none else lookup k old)
        (fresh_of old k (lookup k (index extension_of ps)))
      ≡ lookup k (index extension_of ps)
reconciled_key old ps k s = elim (Option-cases (lookup k (index extension_of ps))) [
  | inl e ↦ elim (Option-cases (lookup k old)) [
    | inl e' ↦ ground arith
    | inr (o, e') ↦ ground arith
  ]
  | inr (a, e) ↦ elim (Option-cases (lookup k old)) [
    | inl e' ↦ ground arith
    | inr (o, e') ↦ elim (Bool-cases (account_equivalent o.target a.target)) [
      | inl q ↦ ground (arith, settled_at old ps a o k s e e' q)
      | inr q ↦ ground arith
    ]
  ]
]

reconcile-synced :
    (old : List (Text × Pointer)) (olds ps : List Pointer) (r : Registrar)
    → old ≡ index extension_of olds
    → Distinct (keys extension_of olds)
    → Distinct (keys extension_of ps)
    → All (IsSettled old) ps
    → r.running ≡ true
    → ((k : Text) → lookup k r.regs ≡ lookup k old)
    → (k : Text)
    → lookup k (reconcile_registrations old (index extension_of ps) r).regs
      ≡ lookup k (index extension_of ps)
unfolding reconcile_registrations
reconcile-synced old olds ps r same d d' s h synced k =
    let new = index extension_of ps in
    let stopped : stops new old k ≡ stale_of new k (lookup k old) =
      subst (λ (m : List (Text × Pointer)). stops new m k ≡ stale_of new k (lookup k m)) (sym same)
        (stops-index new olds k d) in
    lookup-start_fresh old ps k (stop_stale new old r) (stop_stale-running new old r ∙ h) d'
    ∙ ap (λ (t : Option Pointer). first_some t (fresh_of old k (lookup k new)))
        (lookup-stop_stale new old k r
          ∙ ap₂ (λ (b : Bool) (t : Option Pointer). if b then none else t) stopped (synced k))
    ∙ reconciled_key old ps k s

start_fresh-running :
    (old new : List (Text × Pointer)) (r : Registrar) → (start_fresh old new r).running ≡ r.running
unfolding start_fresh
start_fresh-running old [] r = refl
start_fresh-running old ((ext, a) ∷ new) r = ground (
  arith,
  start_fresh-running old new (start_registration a r),
  start_fresh-running old new r,
  start-running a r,
)

reconcile-running :
    (old new : List (Text × Pointer)) (r : Registrar)
    → (reconcile_registrations old new r).running ≡ r.running
unfolding reconcile_registrations
reconcile-running old new r =
    start_fresh-running old new (stop_stale new old r) ∙ stop_stale-running new old r

-- The gateway is up, its account table is consistent, and its loops are those of the table.
pub record IsRunning (m : Manager) : Type 0 where
  pub up : m.registrar.running ≡ true
  pub consistent : IsConsistent m.table
  pub synced : IsSynced m

start_all-lookup :
    (ps : List Pointer) (k : Text) (r : Registrar)
    → r.running ≡ true
    → (lookup k (start_all ps r).regs
        ≡ first_some (lookup k r.regs) (lookup k (index extension_of ps)))
      × ((start_all ps r).running ≡ true)
unfolding start_all lookup
start_all-lookup [] k r h = (first_some-none _, h)
start_all-lookup (p ∷ ps) k r h =
    let ih = start_all-lookup ps k (start_registration p r) (start-running p r ∙ h) in
    (ground (arith, ih.0, lookup-start k p r h), ih.1)

-- On a consistent table and with no loop yet, `RunRegistrations` starts one loop for each account.
pub run_registrations-IsRunning :
    (m : Manager) → IsConsistent m.table → m.registrar.regs ≡ [] → IsRunning (run_registrations m)
unfolding run_registrations
run_registrations-IsRunning m c e = record {
  up = (start_all-lookup m.table.accounts [] (record m.registrar { running = true }) refl).1;
  consistent = c;
  synced = λ k.
      (start_all-lookup m.table.accounts k (record m.registrar { running = true }) refl).0
      ∙ ap
          (λ (t : List (Text × Pointer)).
            first_some (lookup k t) (lookup k (index extension_of m.table.accounts)))
          e
      ∙ unfold lookup in ap (λ (t : List (Text × Pointer)). lookup k t) (sym c.by_extension);
}

pub reconciled-IsRunning :
    (m : Manager)
    → IsRunning m
    → (r : Table × Result AccountError (Unit {0})) → IsConsistent r.0
    → (r.1 ≡ ok tt → All (IsSettled m.table.by_extension) r.0.accounts)
    → IsRunning (reconciled m r)
reconciled-IsRunning m h (t, err e) c s = h
reconciled-IsRunning m h (t, ok u) c s = record {
  up = reconcile-running m.table.by_extension t.by_extension m.registrar ∙ h.up;
  consistent = c;
  synced = λ k.
      ap
        (λ (new : List (Text × Pointer)).
          lookup k (reconcile_registrations m.table.by_extension new m.registrar).regs)
        c.by_extension
      ∙ reconcile-synced m.table.by_extension m.table.accounts t.accounts m.registrar
          h.consistent.by_extension h.consistent.extensions_differ c.extensions_differ (s refl) h.up
          h.synced k
      ∙ ap (λ (t : List (Text × Pointer)). lookup k t) (sym c.by_extension);
}
