-- ===== src/Accounts/Registrations/Changes.antt =====
-- The registration loops after those of removed and changed accounts are stopped and new ones started.
use talk_telephony_gateway_p.Base.{
  ◌≡◌, refl, sym, ap, ◌∙◌, subst, Bool, true, false, ◌||◌, ◌&&◌, List, [], ◌∷◌, Option, none, some,
  if◌then◌else◌, Option-cases, Bool-cases, inl, inr, arith,
}
use talk_telephony_gateway_p.Text.{Text, text_eq}
use talk_telephony_gateway_p.Text.Laws.{text_eq→eq, text_eq_refl}
use talk_telephony_gateway_p.Dict.{
  lookup, lookup-insert, lookup-erase, Distinct, index, keys, lookup-NotIn,
}
use talk_telephony_gateway_p.Accounts.{Pointer, extension_of, first_some}
use talk_telephony_gateway_p.Accounts.Registrations.{
  Registrar, start_new, start_registration, stop_registration, is_stale, is_fresh, stop_stale,
  start_fresh,
}

lookup-stop :
    (ext k : Text) (o : Pointer) (r : Registrar)
    → lookup k (stop_registration ext o r).regs ≡ (if text_eq ext k then none else lookup k r.regs)
unfolding stop_registration
lookup-stop ext k o r = lookup-erase ext k r.regs

start_new-lookup :
    (k : Text) (a : Pointer) (r : Registrar)
    → lookup k (start_new a r (lookup (extension_of a) r.regs)).regs
      ≡ first_some (lookup k r.regs) (if text_eq (extension_of a) k then some a else none)
start_new-lookup k a r = elim (Option-cases (lookup (extension_of a) r.regs)) [
  | inl e ↦
      rw (e, start_new)
        (lookup-insert (extension_of a) k a r.regs
          ∙ ground (
            arith,
            text_eq→eq (extension_of a) k,
            e,
            λ (h : extension_of a ≡ k). sym (ap (λ (j : Text). lookup j r.regs) h) ∙ e,
          ))
  | inr (p, e) ↦
      rw (e, start_new)
        (ground (
          arith,
          text_eq→eq (extension_of a) k,
          e,
          λ (h : extension_of a ≡ k). sym (ap (λ (j : Text). lookup j r.regs) h) ∙ e,
        ))
]

pub lookup-start :
    (k : Text) (a : Pointer) (r : Registrar)
    → r.running ≡ true
    → lookup k (start_registration a r).regs
      ≡ first_some (lookup k r.regs) (if text_eq (extension_of a) k then some a else none)
unfolding start_registration
lookup-start k a r h = simp h (start_new-lookup k a r)

pub start-running : (a : Pointer) (r : Registrar) → (start_registration a r).running ≡ r.running
unfolding start_registration
start-running a r = ground arith

-- Whether `stopRegistration` is called for the key.
pub stops : List (Text × Pointer) → List (Text × Pointer) → Text → Bool
stops new [] k = false
stops new ((ext, o) ∷ old) k = (text_eq ext k && is_stale (lookup ext new) o) || stops new old k

pub lookup-stop_stale :
    (new old : List (Text × Pointer)) (k : Text) (r : Registrar)
    → lookup k (stop_stale new old r).regs ≡ (if stops new old k then none else lookup k r.regs)
unfolding stop_stale stops
lookup-stop_stale new [] k r = refl
lookup-stop_stale new ((ext, o) ∷ old) k r = ground (
  arith,
  lookup-stop_stale new old k (stop_registration ext o r),
  lookup-stop_stale new old k r,
  lookup-stop ext k o r,
)

pub stop_stale-running :
    (new old : List (Text × Pointer)) (r : Registrar) → (stop_stale new old r).running ≡ r.running
unfolding stop_stale stop_registration
stop_stale-running new [] r = refl
stop_stale-running new ((ext, o) ∷ old) r =
    ground
      (arith, stop_stale-running new old (stop_registration ext o r), stop_stale-running new old r)

abbrev pub stale_of : List (Text × Pointer) → Text → Option Pointer → Bool
stale_of new k none = false
stale_of new k (some o) = is_stale (lookup k new) o

abbrev pub fresh_of : List (Text × Pointer) → Text → Option Pointer → Option Pointer
fresh_of old k none = none
fresh_of old k (some a) = if is_fresh (lookup k old) a then some a else none

pub stops-index :
    (new : List (Text × Pointer)) (ps : List Pointer) (k : Text)
    → Distinct (keys extension_of ps)
    → stops new (index extension_of ps) k ≡ stale_of new k (lookup k (index extension_of ps))
unfolding stops lookup
stops-index new [] k d = refl
stops-index new (p ∷ ps) k d = elim (Bool-cases (text_eq (extension_of p) k)) [
  | inl e ↦
      subst
        (λ (j : Text).
          stops new (index extension_of (p ∷ ps)) j
          ≡ stale_of new j (lookup j (index extension_of (p ∷ ps))))
        (text_eq→eq _ k e)
        (ground (
          arith,
          text_eq_refl (extension_of p),
          lookup-NotIn extension_of (extension_of p) ps d.0,
          stops-index new ps (extension_of p) d.1,
        ))
  | inr e ↦ rw e (stops-index new ps k d.1)
]

pub first_some-none {ℓ} : {A : Type ℓ} (o : Option A) → o ≡ first_some o none
first_some-none none = refl
first_some-none (some a) = refl

abbrev start_if : Bool → Pointer → Registrar → Registrar
start_if b p r = if b then start_registration p r else r

lookup-start_if :
    (b : Bool) (k : Text) (p : Pointer) (r : Registrar)
    → r.running ≡ true
    → (lookup k (start_if b p r).regs
        ≡ first_some (lookup k r.regs) (if b && text_eq (extension_of p) k then some p else none))
      × ((start_if b p r).running ≡ true)
lookup-start_if true k p r h = (lookup-start k p r h, start-running p r ∙ h)
lookup-start_if false k p r h = (first_some-none _, h)

first_some_assoc {ℓ} :
    {A : Type ℓ} (a b c : Option A) → first_some (first_some a b) c ≡ first_some a (first_some b c)
first_some_assoc none b c = refl
first_some_assoc (some a) b c = refl

fresh_head :
    (old : List (Text × Pointer)) (p : Pointer) (ps : List Pointer) (k : Text)
    → Distinct (keys extension_of (p ∷ ps))
    → first_some
        (if is_fresh (lookup (extension_of p) old) p && text_eq (extension_of p) k
          then some p
          else none)
        (fresh_of old k (lookup k (index extension_of ps)))
      ≡ fresh_of old k (lookup k (index extension_of (p ∷ ps)))
unfolding lookup
fresh_head old p ps k d = elim (Bool-cases (text_eq (extension_of p) k)) [
  | inl e ↦
      subst
        (λ (j : Text).
          first_some
            (if is_fresh (lookup (extension_of p) old) p && text_eq (extension_of p) j
              then some p
              else none)
            (fresh_of old j (lookup j (index extension_of ps)))
          ≡ fresh_of old j (lookup j (index extension_of (p ∷ ps))))
        (text_eq→eq _ k e)
        (ground
          (arith, text_eq_refl (extension_of p), lookup-NotIn extension_of (extension_of p) ps d.0))
  | inr e ↦ ground arith
]

pub lookup-start_fresh :
    (old : List (Text × Pointer)) (ps : List Pointer) (k : Text) (r : Registrar)
    → r.running ≡ true
    → Distinct (keys extension_of ps)
    → lookup k (start_fresh old (index extension_of ps) r).regs
      ≡ first_some (lookup k r.regs) (fresh_of old k (lookup k (index extension_of ps)))
unfolding start_fresh lookup
lookup-start_fresh old [] k r h d = first_some-none _
lookup-start_fresh old (p ∷ ps) k r h d =
    let b = is_fresh (lookup (extension_of p) old) p in
    let step = lookup-start_if b k p r h in
    lookup-start_fresh old ps k (if b then start_registration p r else r) step.1 d.1
    ∙ ap (λ (t : Option Pointer). first_some t (fresh_of old k (lookup k (index extension_of ps))))
        step.0
    ∙ first_some_assoc (lookup k r.regs) (if b && text_eq (extension_of p) k then some p else none)
        (fresh_of old k (lookup k (index extension_of ps)))
    ∙ ap (first_some (lookup k r.regs)) (fresh_head old p ps k d)
