-- ===== src/Dict.antt =====
-- Go's `map[string]V` as an association list, in which a key stands once.
use talk_telephony_gateway_p.Base.{
  ◌≡◌, refl, ap, false, List, [], ◌∷◌, ◌++◌, Option, none, some, if◌then◌else◌, arith, All,
  Bool-cases, inl, inr,
}
use talk_telephony_gateway_p.Text.{Text, text_eq}
use talk_telephony_gateway_p.Text.Laws.{text_eq→eq, text_eq_refl, text_eq_iff}

module _ {ℓ} {V : Type ℓ} where
  -- `m[k]`
  unfoldable pub lookup : Text → List (Text × V) → Option V
  lookup k [] = none
  lookup k ((j, v) ∷ m) = if text_eq j k then some v else lookup k m

  -- `m[k] = v`
  unfoldable pub insert : Text → V → List (Text × V) → List (Text × V)
  insert k v [] = (k, v) ∷ []
  insert k v ((j, w) ∷ m) = if text_eq j k then (k, v) ∷ m else (j, w) ∷ insert k v m

  -- `delete(m, k)`
  unfoldable pub erase : Text → List (Text × V) → List (Text × V)
  erase k [] = []
  erase k ((j, w) ∷ m) = if text_eq j k then erase k m else (j, w) ∷ erase k m

  pub lookup-insert :
      (k j : Text) (v : V) (m : List (Text × V))
      → lookup j (insert k v m) ≡ (if text_eq k j then some v else lookup j m)
  unfolding lookup insert
  lookup-insert k j v [] = refl
  lookup-insert k j v ((i, w) ∷ m) =
      ground (arith, text_eq_iff k j, text_eq_iff i k, text_eq_iff i j, lookup-insert k j v m)

  pub lookup-erase :
      (k j : Text) (m : List (Text × V))
      → lookup j (erase k m) ≡ (if text_eq k j then none else lookup j m)
  unfolding lookup erase
  lookup-erase k j [] = ground arith
  lookup-erase k j ((i, w) ∷ m) =
      ground (arith, text_eq_iff k j, text_eq_iff i k, text_eq_iff i j, lookup-erase k j m)

  -- An assignment to a new key adds it at the end.
  pub insert_new :
      (k : Text) (v : V) (m : List (Text × V)) → lookup k m ≡ none → insert k v m ≡ m ++ (k, v) ∷ []
  unfolding lookup insert
  insert_new k v [] h = refl
  insert_new k v ((j, w) ∷ m) h = elim (Bool-cases (text_eq j k)) [
    | inl e ↦ ground arith
    | inr e ↦ rw (e, insert_new k v m (ground arith))
  ]

-- Pairwise different keys.
abbrev pub NotIn : Text → List Text → Type 0
NotIn k ks = All (λ j. text_eq j k ≡ false) ks

abbrev pub Distinct : List Text → Type 0
Distinct [] = Unit
Distinct (k ∷ ks) = NotIn k ks × Distinct ks

module _ {ℓ} {V : Type ℓ} (key : V → Text) where
  -- The map that holds each value of a list under its key.
  abbrev pub index : List V → List (Text × V)
  index [] = []
  index (v ∷ vs) = (key v, v) ∷ index vs

  abbrev pub keys : List V → List Text
  keys [] = []
  keys (v ∷ vs) = key v ∷ keys vs

  pub index-append : (vs ws : List V) → index (vs ++ ws) ≡ index vs ++ index ws
  index-append [] ws = refl
  index-append (v ∷ vs) ws = rw (index-append vs ws)

  pub keys-append : (vs ws : List V) → keys (vs ++ ws) ≡ keys vs ++ keys ws
  keys-append [] ws = refl
  keys-append (v ∷ vs) ws = rw (keys-append vs ws)

  pub lookup-index-none : (k : Text) (vs : List V) → lookup k (index vs) ≡ none → NotIn k (keys vs)
  unfolding lookup
  lookup-index-none k [] h = tt
  lookup-index-none k (v ∷ vs) h = elim (Bool-cases (text_eq (key v) k)) [
    | inl e ↦ ground arith
    | inr e ↦ (e, lookup-index-none k vs (ground arith))
  ]

  pub lookup-NotIn : (k : Text) (vs : List V) → NotIn k (keys vs) → lookup k (index vs) ≡ none
  unfolding lookup
  lookup-NotIn k [] h = refl
  lookup-NotIn k (v ∷ vs) (hv, h) = rw (hv, lookup-NotIn k vs h)

  -- A new value with the key of an old one takes its place.
  pub insert-index :
      (before after : List V) (v w : V)
      → key w ≡ key v
      → NotIn (key v) (keys before)
      → insert (key v) w (index (before ++ v ∷ after)) ≡ index (before ++ w ∷ after)
  unfolding insert
  insert-index [] after v w e h = rw (text_eq_refl (key v), e)
  insert-index (b ∷ before) after v w e (hb, h) = rw (hb, insert-index before after v w e h)

  -- A value is found under its key, and whatever is found stands in the list under that key.
  pub lookup-index :
      (k : Text) (vs : List V) (v : V)
      → lookup k (index vs) ≡ some v
      → (before : List V) × (after : List V) × (vs ≡ before ++ v ∷ after) × (key v ≡ k)
  unfolding lookup
  lookup-index k [] v h = cc
  lookup-index k (w ∷ vs) v h = elim (Bool-cases (text_eq (key w) k)) [
    | inl e ↦ ([], vs, ground arith, text_eq→eq _ k (ground arith))
    | inr e ↦
        let (before, after, e', e'') = lookup-index k vs v (ground arith) in
        (w ∷ before, after, ap (λ (t : List V). w ∷ t) e', e'')
  ]

pub NotIn-head : (k j : Text) (ks : List Text) → NotIn k (ks ++ j ∷ []) → text_eq j k ≡ false
NotIn-head k j [] h = h.0
NotIn-head k j (i ∷ ks) h = NotIn-head k j ks h.1

pub NotIn-sym : (k : Text) (ks : List Text) (js : List Text) → Distinct (ks ++ k ∷ js) → NotIn k ks
NotIn-sym k [] js h = tt
NotIn-sym k (i ∷ ks) js (h, hs) = (flip k i ks js h, NotIn-sym k ks js hs)
  where
    flip : (k i : Text) (ks js : List Text) → NotIn i (ks ++ k ∷ js) → text_eq i k ≡ false
    flip k i [] js h = ground (arith, text_eq_iff k i, text_eq_iff i k, h.0)
    flip k i (x ∷ ks) js h = flip k i ks js h.1

pub Distinct-snoc : (ks : List Text) (k : Text) → Distinct ks → NotIn k ks → Distinct (ks ++ k ∷ [])
Distinct-snoc [] k d h = (tt, tt)
Distinct-snoc (j ∷ ks) k (dj, d) (hj, h) = (NotIn_snoc j k ks dj hj, Distinct-snoc ks k d h)
  where
    NotIn_snoc :
        (j k : Text) (ks : List Text) → NotIn j ks → text_eq j k ≡ false → NotIn j (ks ++ k ∷ [])
    NotIn_snoc j k [] n e = (ground (arith, text_eq_iff k j, text_eq_iff j k), tt)
    NotIn_snoc j k (i ∷ ks) n e = (n.0, NotIn_snoc j k ks n.1 e)
