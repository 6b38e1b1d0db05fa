-- ===== src/Bridge/Peers/Offers/Publishing.antt =====
-- The publisher's connection is accounted for.
use talk_telephony_gateway_p.Base.{
  Result, ok, err, ℕ, ◌≡◌, Bool, true, false, not, List, ◌∷◌, none, some, if◌then◌else◌, arith,
}
use talk_telephony_gateway_p.Text.{Text}
use talk_telephony_gateway_p.Dict.{lookup, insert}
use talk_telephony_gateway_p.Bridge.Peers.{
  Peers, Sent, Gathering, gathered, timed_out, cancelled, open_peer, close_peer, send_message,
}
use talk_telephony_gateway_p.Bridge.Peers.Start.{
  StartError, gathering_timed_out, gathering_cancelled, AnswerWait, answered, wait_cancelled,
  wait_timed_out, bad_answer, answer_cancelled, answer_timed_out, PublisherAnswers, start_publisher,
  offer_publisher,
}
use talk_telephony_gateway_p.Bridge.Peers.Offers.{Offers, is_accepting, holds, is_publisher}
use talk_telephony_gateway_p.Bridge.Peers.Offers.Counting.{
  holds-remove, is_registered-insert, is_accepting-lookup,
}
use talk_telephony_gateway_p.Bridge.Peers.Offers.Accounted.{IsHeld, IsAccounted, offers}

-- A result of one of two branches.
either :
    {A : Type 0} (P : Peers → Type 0) (c : Bool) (x y : Peers × A)
    → P x.0
    → P y.0
    → P (if c then x else y).0
either P true x y hx hy = hx
either P false x y hx hy = hy

abbrev gathering_branch :
    Text → ℕ → PublisherAnswers → Peers → Gathering → Peers × Result StartError (Unit {0})
gathering_branch self_id pt w b g = elim g [
  | gathered ↦ offer_publisher self_id pt b.next_peer w (open_peer b)
  | timed_out ↦ (close_peer b.next_peer (open_peer b), err gathering_timed_out)
  | cancelled ↦ (close_peer b.next_peer (open_peer b), err gathering_cancelled)
]

module _ (P : Peers → Type 0) (self_id : Text) (pt : ℕ) (w : PublisherAnswers) (b : Peers)
    (not_made : P b) (dropped : P (close_peer b.next_peer (open_peer b)))
    (offered : P (offer_publisher self_id pt b.next_peer w (open_peer b)).0) where
  start_publisher_cases : P (start_publisher self_id pt w b).0
  unfolding start_publisher
  start_publisher_cases = either P (not w.is_created) _ _ not_made (
      either P (not w.has_track) _ _ dropped (
        either P (not w.has_sender) _ _ dropped (
          either P (not w.has_offer) _ _ dropped
            (either P (not w.local_set) _ _ dropped (by_gathering w.gathering)))))
    where
      by_gathering : (g : Gathering) → P (gathering_branch self_id pt w b g).0
      by_gathering gathered = offered
      by_gathering timed_out = dropped
      by_gathering cancelled = dropped

-- The state in which the publisher is registered.
abbrev publishing : ℕ → Text → List Sent → Peers → Peers
publishing pt sid messages b = record (open_peer b) {
  publisher = some b.next_peer;
  publisher_pt = pt;
  peers = insert sid b.next_peer b.peers;
  answers = insert sid none b.answers;
  sent = messages;
}

abbrev answer_branch : Peers → AnswerWait → Peers × Result StartError (Unit {0})
answer_branch b a = elim a [
  | answered true ↦ (b, ok tt)
  | answered false ↦ (b, err bad_answer)
  | wait_cancelled ↦ (b, err answer_cancelled)
  | wait_timed_out ↦ (b, err answer_timed_out)
]

answer_branch-keeps :
    (P : Peers → Type 0) (b : Peers) (a : AnswerWait) → P b → P (answer_branch b a).0
answer_branch-keeps P b (answered true) h = h
answer_branch-keeps P b (answered false) h = h
answer_branch-keeps P b wait_cancelled h = h
answer_branch-keeps P b wait_timed_out h = h

offer_publisher_cases :
    (P : Peers → Type 0) (self_id : Text) (pt : ℕ) (w : PublisherAnswers) (b : Peers)
    → ((messages : List Sent) → P (publishing pt w.sid messages b))
    → P (offer_publisher self_id pt b.next_peer w (open_peer b)).0
unfolding offer_publisher send_message open_peer
offer_publisher_cases P self_id pt w b h =
    either P (not w.is_sent) _ _ (h b.sent) (answer_branch-keeps P _ w.answer (h _))

module _ (s : Offers) (self_id : Text) (pt : ℕ) (w : PublisherAnswers) (h : IsAccounted s)
    (none_yet : s.bridge.publisher ≡ none) (not_closed : s.bridge.is_closed ≡ false)
    (fresh : lookup w.sid s.bridge.peers ≡ none)
    (alone : is_accepting w.sid s.pending ≡ false) where
  unpublished-IsAccounted :
      IsAccounted (offers (close_peer s.bridge.next_peer (open_peer s.bridge)) s.pending)
  unfolding IsAccounted IsHeld open_peer close_peer holds
  unpublished-IsAccounted = (
    λ n held. ground (
      arith,
      h.0 n,
      held,
      holds-remove n s.bridge.next_peer (s.bridge.next_peer ∷ s.bridge.open_peers),
    ),
    h.1,
    h.2,
  )

  publishing-IsAccounted :
      (messages : List Sent)
      → IsAccounted (offers (publishing pt w.sid messages s.bridge) s.pending)
  unfolding IsAccounted IsHeld open_peer holds is_publisher
  publishing-IsAccounted messages = (
    λ n held. ground (
      arith,
      h.0 n,
      held,
      not_closed,
      none_yet,
      is_registered-insert n s.bridge.next_peer w.sid s.bridge.peers fresh,
    ),
    is_accepting-lookup w.sid s.bridge.next_peer s.bridge.peers s.pending alone h.1,
    h.2,
  )

  pub publish-IsAccounted : IsAccounted (offers (start_publisher self_id pt w s.bridge).0 s.pending)
  unfolding IsAccounted
  publish-IsAccounted =
      let P = λ (b : Peers). IsAccounted (offers b s.pending) in
      start_publisher_cases P self_id pt w s.bridge h unpublished-IsAccounted
        (offer_publisher_cases P self_id pt w s.bridge publishing-IsAccounted)
