-- ===== src/Bridge/Peers/Offers/Overlap.antt =====
-- Two offers with one identifier that are accepted at the same time.
use talk_telephony_gateway_p.Base.{
  ◌+◌, ℕ, ◌≡◌, sym, ap, ◌∙◌, subst, true, false, List, [], ◌∷◌, Option, none, Bool-cases, inl, inr,
  arith,
}
use talk_telephony_gateway_p.Text.{Text, text_eq}
use talk_telephony_gateway_p.Text.Laws.{text_eq_refl}
use talk_telephony_gateway_p.Dict.{lookup, insert}
use talk_telephony_gateway_p.Bridge.Peers.{
  Peers, SubscriberAnswers, gathered, accept_begin, accept_finish, close, close_all, open_peer,
  send_message,
}
use talk_telephony_gateway_p.Bridge.Peers.Offers.{holds, is_registered, is_publisher}
use talk_telephony_gateway_p.Bridge.Peers.Offers.Accounted.{accept_begin_new, answers_of}
use talk_telephony_gateway_p.Bridge.Peers.Offers.Counting.{
  holds-close_all, holds-close_publisher, is_registered-insert,
}

insert-insert :
    (k : Text) (n m : ℕ) (ps : List (Text × ℕ)) → insert k m (insert k n ps) ≡ insert k m ps
unfolding insert
insert-insert k n m [] = rw (text_eq_refl k)
insert-insert k n m ((j, i) ∷ ps) = elim (Bool-cases (text_eq j k)) [
  | inl e ↦ rw (e, text_eq_refl k)
  | inr e ↦ rw (e, e, insert-insert k n m ps)
]

-- The answers by which an offer is registered.
abbrev pub accepted : SubscriberAnswers
accepted = answers_of true true true gathered

-- Two offers with one identifier of which the second begins before the first ends.
abbrev finish_both : (first second sid : Text) → ℕ → Peers → Peers
finish_both first second sid n b =
    accept_finish second sid (n + 1) accepted (accept_finish first sid n accepted b)

unfoldable pub overlapping : (first second sid : Text) → Peers → Peers
unfolding accept_begin accept_finish
overlapping first second sid b =
    finish_both first second sid b.next_peer (accept_begin sid true (accept_begin sid true b).0).0

abbrev overlapped : (first second sid : Text) → Peers → Peers
overlapped first second sid b = finish_both first second sid b.next_peer (open_peer (open_peer b))

overlapping_lem :
    (first second sid : Text) (b : Peers)
    → lookup sid b.peers ≡ none
    → overlapping first second sid b ≡ overlapped first second sid b
unfolding overlapping open_peer
overlapping_lem first second sid b e =
    ap
      (λ (r : Peers × Option ℕ).
        finish_both first second sid b.next_peer (accept_begin sid true r.0).0)
      (accept_begin_new sid b e).0
    ∙ ap (λ (r : Peers × Option ℕ). finish_both first second sid b.next_peer r.0)
        (accept_begin_new sid (open_peer b) e).0

overlapped-holds :
    (first second sid : Text) (b : Peers)
    → lookup sid b.peers ≡ none
    → b.is_closed ≡ false
    → is_registered b.next_peer b.peers ≡ false
    → is_publisher b.next_peer b.publisher ≡ false
    → holds b.next_peer (close (overlapped first second sid b)).open_peers ≡ true
unfolding accept_finish send_message open_peer close holds
overlapped-holds first second sid b e not_closed unregistered other =
    let ps = insert sid (b.next_peer + 1) (insert sid b.next_peer b.peers) in
    let live = (b.next_peer + 1) ∷ b.next_peer ∷ b.open_peers in
    ground (
      arith,
      not_closed,
      unregistered,
      other,
      ap (is_registered b.next_peer) (insert-insert sid b.next_peer (b.next_peer + 1) b.peers),
      is_registered-insert b.next_peer (b.next_peer + 1) sid b.peers e,
      holds-close_all b.next_peer ps live,
      holds-close_publisher b.next_peer b.publisher (close_all ps live),
    )

-- If two offers with one identifier, which no registered connection has, overlap and both are
-- accepted, the connection of the first is still open after `Close`, provided that the bridge is
-- not closed and the number of that connection is a new one.
pub overlapping-leaks :
    (first second sid : Text) (b : Peers)
    → lookup sid b.peers ≡ none
    → b.is_closed ≡ false
    → is_registered b.next_peer b.peers ≡ false
    → is_publisher b.next_peer b.publisher ≡ false
    → holds b.next_peer (close (overlapping first second sid b)).open_peers ≡ true
overlapping-leaks first second sid b e not_closed unregistered other =
    subst (λ c. holds b.next_peer (close c).open_peers ≡ true)
      (sym (overlapping_lem first second sid b e))
      (overlapped-holds first second sid b e not_closed unregistered other)
