-- ===== src/Bridge/Peers/Offers/Counting.antt =====
-- Which connections are open, registered or of a pending offer, after each change.
use talk_telephony_gateway_p.Base.{
  ℕ, ◌≡◌, refl, ap, ◌∙◌, false, not, ◌&&◌, ◌||◌, List, [], ◌∷◌, ◌++◌, Option, none, some, ◌==◌, All,
  arith,
}
use talk_telephony_gateway_p.Text.{Text, text_eq}
use talk_telephony_gateway_p.Text.Laws.{text_eq_iff}
use talk_telephony_gateway_p.Dict.{lookup, insert, insert_new, lookup-insert}
use talk_telephony_gateway_p.Bridge.Peers.{close_all, close_publisher, remove}
use talk_telephony_gateway_p.Bridge.Peers.Offers.{
  Offer, is_accepting, holds, is_registered, is_publisher, is_pending,
}

pub holds-remove : (n m : ℕ) (ms : List ℕ) → holds n (remove m ms) ≡ (holds n ms && not (m == n))
unfolding holds remove
holds-remove n m [] = refl
holds-remove n m (k ∷ ms) = ground (arith, holds-remove n m ms)

pub holds-close_all :
    (n : ℕ) (ps : List (Text × ℕ)) (live : List ℕ)
    → holds n (close_all ps live) ≡ (holds n live && not (is_registered n ps))
unfolding close_all is_registered
holds-close_all n [] live = ground arith
holds-close_all n ((sid, m) ∷ ps) live =
    ground (arith, holds-close_all n ps (remove m live), holds-remove n m live)

pub holds-close_publisher :
    (n : ℕ) (p : Option ℕ) (live : List ℕ)
    → holds n (close_publisher p live) ≡ (holds n live && not (is_publisher n p))
unfolding close_publisher is_publisher
holds-close_publisher n none live = ground arith
holds-close_publisher n (some m) live = holds-remove n m live

is_registered-append :
    (n : ℕ) (ps qs : List (Text × ℕ))
    → is_registered n (ps ++ qs) ≡ (is_registered n ps || is_registered n qs)
unfolding is_registered
is_registered-append n [] qs = refl
is_registered-append n ((sid, m) ∷ ps) qs = ground (arith, is_registered-append n ps qs)

pub is_registered-insert :
    (n m : ℕ) (sid : Text) (ps : List (Text × ℕ))
    → lookup sid ps ≡ none
    → is_registered n (insert sid m ps) ≡ (is_registered n ps || m == n)
unfolding is_registered
is_registered-insert n m sid ps e =
    ap (is_registered n) (insert_new sid m ps e)
    ∙ is_registered-append n ps ((sid, m) ∷ [])
    ∙ ground arith

-- No two of the offers have one identifier.
unfoldable pub AreApart : List Offer → Type 0
AreApart [] = Unit
AreApart (o ∷ os) = (is_accepting o.sid os ≡ false) × AreApart os

pub is_accepting-lookup :
    (sid : Text) (n : ℕ) (ps : List (Text × ℕ)) (os : List Offer)
    → is_accepting sid os ≡ false
    → All (λ o. lookup o.sid ps ≡ none) os
    → All (λ o. lookup o.sid (insert sid n ps) ≡ none) os
unfolding is_accepting
is_accepting-lookup sid n ps [] e h = tt
is_accepting-lookup sid n ps (o ∷ os) e (ho, h) = (
  ground (arith, lookup-insert sid o.sid n ps, text_eq_iff o.sid sid, text_eq_iff sid o.sid, ho, e),
  is_accepting-lookup sid n ps os (ground (arith, e)) h,
)

-- The offers around one that ends.
pub All-middle :
    (P : Offer → Type 0) (first others : List Offer) (o : Offer)
    → All P (first ++ o ∷ others)
    → P o × All P (first ++ others)
All-middle P [] others o (ho, h) = (ho, h)
All-middle P (x ∷ first) others o (hx, h) =
    let (ho, rest) = All-middle P first others o h in (ho, (hx, rest))

pub is_accepting-middle :
    (sid : Text) (first others : List Offer) (o : Offer)
    → is_accepting sid (first ++ o ∷ others) ≡ false
    → (is_accepting sid (first ++ others) ≡ false) × (text_eq o.sid sid ≡ false)
unfolding is_accepting
is_accepting-middle sid [] others o e = (ground arith, ground arith)
is_accepting-middle sid (x ∷ first) others o e =
    let (rest, here) = is_accepting-middle sid first others o (ground arith) in
    (ground (arith, rest), here)

pub AreApart-middle :
    (first others : List Offer) (o : Offer)
    → AreApart (first ++ o ∷ others)
    → AreApart (first ++ others) × (is_accepting o.sid (first ++ others) ≡ false)
unfolding AreApart is_accepting
AreApart-middle [] others o (e, h) = (h, e)
AreApart-middle (x ∷ first) others o (e, h) =
    let (rest, apart) = AreApart-middle first others o h in
    let (ex, xo) = is_accepting-middle x.sid first others o e in
    ((ex, rest), ground (arith, apart, xo, text_eq_iff o.sid x.sid, text_eq_iff x.sid o.sid))

pub is_pending-middle :
    (n : ℕ) (first others : List Offer) (o : Offer)
    → is_pending n (first ++ o ∷ others) ≡ (is_pending n (first ++ others) || o.peer == n)
unfolding is_pending
is_pending-middle n [] others o = ground arith
is_pending-middle n (x ∷ first) others o = ground (arith, is_pending-middle n first others o)
