-- ===== src/Accounts/Registrations/Logs.antt =====
-- What the two loops of `reconcileRegistrations` add to the logs: the loops that they cancel, with an
-- unregister for each, and those that they start.
use talk_telephony_gateway_p.Base.{
  ◌≡◌, ◌⊎◌, refl, sym, ◌∙◌, subst, Bool, true, false, List, [], ◌∷◌, ◌++◌, none, append_assoc,
  append-nil, if◌then◌else◌, Bool-cases, inl, inr, arith, All,
}
use talk_telephony_gateway_p.Text.{Text}
use talk_telephony_gateway_p.Text.Laws.{text_eq_iff}
use talk_telephony_gateway_p.Dict.{lookup, lookup-erase, Distinct, NotIn, index, keys}
use talk_telephony_gateway_p.Accounts.{Pointer, extension_of}
use talk_telephony_gateway_p.Accounts.Registrations.{
  Registrar, start_new, start_registration, stop_registration, is_stale, is_fresh, stop_stale,
  start_fresh,
}
use talk_telephony_gateway_p.Accounts.Registrations.Changes.{lookup-start, start-running}
use talk_telephony_gateway_p.Accounts.Registrations.Lacking.{kept_by, IsFound, stale_in, fresh_in}

-- The logs grow by these pointers.
pub record Logged (r r' : Registrar) (gone come : List Pointer) : Type 0 where
  pub cancels : r'.cancelled ≡ r.cancelled ++ gone
  pub unregisters : r'.unregistered ≡ r.unregistered ++ gone
  pub starts : r'.started ≡ r.started ++ come

pub Logged-nil : (r : Registrar) → Logged r r [] []
Logged-nil r = record {
  cancels = sym (append-nil r.cancelled);
  unregisters = sym (append-nil r.unregistered);
  starts = sym (append-nil r.started);
}

pub Logged-append :
    (r s t : Registrar) (gone come gone' come' : List Pointer)
    → Logged r s gone come
    → Logged s t gone' come'
    → Logged r t (gone ++ gone') (come ++ come')
Logged-append r s t gone come gone' come' h g = record {
  cancels = rw (g.cancels, h.cancels) (append_assoc r.cancelled gone gone');
  unregisters = rw (g.unregisters, h.unregisters) (append_assoc r.unregistered gone gone');
  starts = rw (g.starts, h.starts) (append_assoc r.started come come');
}

stop-Logged :
    (o : Pointer) (r : Registrar)
    → IsFound r.regs o
    → Logged r (stop_registration (extension_of o) o r) (o ∷ []) []
unfolding stop_registration
stop-Logged o r f = record {
  cancels = rw f refl;
  unregisters = refl;
  starts = sym (append-nil r.started);
}

-- Stopping one loop leaves the others.
stop-IsFound :
    (o : Pointer) (r : Registrar) (os : List Pointer)
    → NotIn (extension_of o) (keys extension_of os)
    → All (IsFound r.regs) os
    → All (IsFound (stop_registration (extension_of o) o r).regs) os
unfolding stop_registration
stop-IsFound o r [] n h = tt
stop-IsFound o r (q ∷ os) (e, n) (f, h) = (
  lookup-erase (extension_of o) (extension_of q) r.regs
      ∙ ground (
        arith,
        e,
        f,
        text_eq_iff (extension_of o) (extension_of q),
        text_eq_iff (extension_of q) (extension_of o),
      ),
  stop-IsFound o r os n h,
)

pub stop_stale-Logged :
    (new : List (Text × Pointer)) (os : List Pointer) (r : Registrar)
    → Distinct (keys extension_of os)
    → All (IsFound r.regs) os
    → Logged r (stop_stale new (index extension_of os) r) (kept_by (stale_in new) os) []
unfolding stop_stale kept_by
stop_stale-Logged new [] r d h = Logged-nil r
stop_stale-Logged new (o ∷ os) r (n, d) (f, h) =
    let s = stop_registration (extension_of o) o r in
    let rest = kept_by (stale_in new) os in
    let by_test = λ (b : Bool).
      Logged r (stop_stale new (index extension_of os) (if b then s else r))
        (if b then o ∷ rest else rest) [] in
    elim (Bool-cases (is_stale (lookup (extension_of o) new) o)) [
      | inl e ↦ subst by_test (sym e) (
          Logged-append r s (stop_stale new (index extension_of os) s) (o ∷ []) []
            (kept_by (stale_in new) os) [] (stop-Logged o r f)
            (stop_stale-Logged new os s d (stop-IsFound o r os n h)))
      | inr e ↦ subst by_test (sym e) (stop_stale-Logged new os r d h)
    ]

-- No loop runs under the extension of an account that is to be started.
abbrev pub IsFree : List (Text × Pointer) → List (Text × Pointer) → Pointer → Type 0
IsFree old regs a = (fresh_in old a ≡ false) ⊎ (lookup (extension_of a) regs ≡ none)

start-Logged :
    (a : Pointer) (r : Registrar)
    → r.running ≡ true
    → lookup (extension_of a) r.regs ≡ none
    → Logged r (start_registration a r) [] (a ∷ [])
unfolding start_registration
start-Logged a r h e =
    rw (h, e, start_new)
      (record {
        cancels = sym (append-nil r.cancelled);
        unregisters = sym (append-nil r.unregistered);
        starts = refl;
      })

start-IsFree :
    (old : List (Text × Pointer)) (a : Pointer) (r : Registrar) (ps : List Pointer)
    → r.running ≡ true
    → lookup (extension_of a) r.regs ≡ none
    → NotIn (extension_of a) (keys extension_of ps)
    → All (IsFree old r.regs) ps
    → All (IsFree old (start_registration a r).regs) ps
start-IsFree old a r [] g e n h = tt
start-IsFree old a r (p ∷ ps) g e (x, n) (inl f, h) = (inl f, start-IsFree old a r ps g e n h)
start-IsFree old a r (p ∷ ps) g e (x, n) (inr f, h) = (
  inr (
      lookup-start (extension_of p) a r g
      ∙ ground (
        arith,
        f,
        x,
        text_eq_iff (extension_of a) (extension_of p),
        text_eq_iff (extension_of p) (extension_of a),
      )),
  start-IsFree old a r ps g e n h,
)

pub start_fresh-Logged :
    (old : List (Text × Pointer)) (ps : List Pointer) (r : Registrar)
    → r.running ≡ true
    → Distinct (keys extension_of ps)
    → All (IsFree old r.regs) ps
    → Logged r (start_fresh old (index extension_of ps) r) [] (kept_by (fresh_in old) ps)
unfolding start_fresh kept_by
start_fresh-Logged old [] r g d h = Logged-nil r
start_fresh-Logged old (a ∷ ps) r g (n, d) (free, h) =
    let rest = kept_by (fresh_in old) ps in
    let by_test = λ (b : Bool).
      Logged r (start_fresh old (index extension_of ps) (if b then start_registration a r else r))
        [] (if b then a ∷ rest else rest) in
    elim (Bool-cases (is_fresh (lookup (extension_of a) old) a)) [
      | inl e ↦ subst by_test (sym e) (
          let none_there : lookup (extension_of a) r.regs ≡ none = elim free [
            | inl f ↦ cc
            | inr f ↦ f
          ] in
          let s = start_registration a r in
          Logged-append r s (start_fresh old (index extension_of ps) s) [] (a ∷ []) []
            (kept_by (fresh_in old) ps) (start-Logged a r g none_there)
            (start_fresh-Logged old ps s (start-running a r ∙ g) d
              (start-IsFree old a r ps g none_there n h)))
      | inr e ↦ subst by_test (sym e) (start_fresh-Logged old ps r g d h)
    ]
