-- ===== src/Bridge/Peers/Offers/Accounted.antt =====
-- Every open connection is accounted for: an invariant that messages, the end of an offer and
-- `Close` keep.
use talk_telephony_gateway_p.Base.{
  ℕ, ◌≡◌, refl, sym, subst, Bool, true, false, not, ◌&&◌, ◌||◌, List, ◌∷◌, ◌++◌, Option, none, some,
  All, Bool-cases, Option-cases, inl, inr, arith,
}
use talk_telephony_gateway_p.Text.{Text}
use talk_telephony_gateway_p.Dict.{lookup, insert}
use talk_telephony_gateway_p.Bridge.Peers.{
  Peers, Sent, RtcMessage, Effect, no_effect, accept_offer, add_candidate, SubscriberAnswers,
  Gathering, gathered, timed_out, cancelled, handle_rtc_message, accept_begin, accept_finish, close,
  close_all, close_publisher, open_peer, close_peer, send_message, deliver,
}
use talk_telephony_gateway_p.Bridge.Peers.Offers.{
  Offer, Offers, run_effect, receive, is_accepting, overlaps, is_registered_by, holds,
  is_registered, is_publisher, is_pending, begun,
}
use talk_telephony_gateway_p.Bridge.Peers.Offers.Counting.{
  holds-remove, holds-close_all, holds-close_publisher, is_registered-insert, is_accepting-lookup,
  All-middle, AreApart, AreApart-middle, is_pending-middle,
}

-- An open connection is one of an offer, or, before `Close`, a registered one or the publisher's.
unfoldable pub IsHeld : Offers → ℕ → Type 0
IsHeld s n =
    holds n s.bridge.open_peers ≡ true
    → (is_pending n s.pending
        || (not s.bridge.is_closed
            && (is_registered n s.bridge.peers || is_publisher n s.bridge.publisher)))
      ≡ true

unfoldable pub IsAccounted : Offers → Type 0
IsAccounted s =
    ((n : ℕ) → IsHeld s n)
    × All (λ o. lookup o.sid s.bridge.peers ≡ none) s.pending
    × AreApart s.pending

abbrev pub offers : Peers → List Offer → Offers
offers b pending = record { bridge = b; pending = pending }

-- A signaling message alone changes no connection.
handle_rtc_message-keeps :
    (m : Option RtcMessage) (b : Peers)
    → (answers : List (Text × Option Text)) × ((handle_rtc_message m b).0
        ≡ record b { answers = answers })
unfolding handle_rtc_message deliver
handle_rtc_message-keeps none b = (b.answers, refl)
handle_rtc_message-keeps (some m) b = ((handle_rtc_message (some m) b).0.answers, ground arith)

accept_begin_taken :
    (sid : Text) (is_created : Bool) (b : Peers) (n : ℕ)
    → lookup sid b.peers ≡ some n
    → accept_begin sid is_created b ≡ (b, none)
unfolding accept_begin
accept_begin_taken sid is_created b n e = rw (e, accept_begin)

pub accept_begin_new :
    (sid : Text) (b : Peers)
    → lookup sid b.peers ≡ none
    → (accept_begin sid true b ≡ (open_peer b, some b.next_peer))
      × (accept_begin sid false b ≡ (b, none))
unfolding accept_begin
accept_begin_new sid b e = (rw (e, accept_begin), rw (e, accept_begin))

run_effect-IsAccounted :
    (b : Peers) (pending : List Offer) (is_created : Bool) (effect : Effect)
    → IsAccounted (offers b pending)
    → overlaps pending effect ≡ false
    → IsAccounted (run_effect pending is_created (b, effect))
unfolding run_effect IsAccounted IsHeld AreApart is_pending holds open_peer overlaps
run_effect-IsAccounted b pending is_created no_effect h e = h
run_effect-IsAccounted b pending is_created (add_candidate n c) h e = h
run_effect-IsAccounted b pending is_created (accept_offer session sid sdp) h e =
    elim (Option-cases (lookup sid b.peers)) [
      | inr (n, f) ↦
          subst (λ r. IsAccounted (begun session sid pending r))
            (sym (accept_begin_taken sid is_created b n f)) h
      | inl f ↦ begin_offer session sid is_created h e f
    ]
  where
    begin_offer :
        (session sid : Text) (is_created : Bool)
        → IsAccounted (offers b pending)
        → is_accepting sid pending ≡ false
        → lookup sid b.peers ≡ none
        → IsAccounted (begun session sid pending (accept_begin sid is_created b))
    begin_offer session sid false h e f =
        subst (λ r. IsAccounted (begun session sid pending r)) (sym (accept_begin_new sid b f).1) h
    begin_offer session sid true h e f =
        subst (λ r. IsAccounted (begun session sid pending r)) (sym (accept_begin_new sid b f).0)
          (λ n held. ground (arith, h.0 n, held), (f, h.1), (e, h.2))

pub receive-IsAccounted :
    (s : Offers) (m : Option RtcMessage) (is_created : Bool)
    → IsAccounted s
    → overlaps s.pending (handle_rtc_message m s.bridge).1 ≡ false
    → IsAccounted (receive m is_created s)
unfolding receive IsAccounted IsHeld
receive-IsAccounted s m is_created h e =
    let (answers, kept) = handle_rtc_message-keeps m s.bridge in
    subst
      (λ b. IsAccounted (run_effect s.pending is_created (b, (handle_rtc_message m s.bridge).1)))
      (sym kept)
      (run_effect-IsAccounted (record s.bridge { answers = answers }) s.pending is_created
        (handle_rtc_message m s.bridge).1 h e)

abbrev pub answers_of : Bool → Bool → Bool → Gathering → SubscriberAnswers
answers_of is_set is_answered is_local g = record {
  remote_set = is_set;
  answer_created = is_answered;
  local_set = is_local;
  gathering = g;
}

module _ (b : Peers) (first others : List Offer) (o : Offer)
    (h : IsAccounted (offers b (first ++ o ∷ others))) where
  -- The connection of the offer is closed.
  dropped-IsAccounted : IsAccounted (offers (close_peer o.peer b) (first ++ others))
  unfolding IsAccounted IsHeld close_peer
  dropped-IsAccounted = (
    λ n held. ground (
      arith,
      h.0 n,
      held,
      holds-remove n o.peer b.open_peers,
      is_pending-middle n first others o,
    ),
    (All-middle (λ x. lookup x.sid b.peers ≡ none) first others o h.1).1,
    (AreApart-middle first others o h.2).0,
  )

  -- The offer is registered.
  kept-IsAccounted :
      (message : List Sent)
      → b.is_closed ≡ false
      → IsAccounted (
          offers
            (record b { peers = insert o.sid o.peer b.peers; sent = message })
            (first ++ others))
  unfolding IsAccounted IsHeld
  kept-IsAccounted message open_bridge =
      let (free, others_free) = All-middle (λ x. lookup x.sid b.peers ≡ none) first others o h.1 in
      let (apart, alone) = AreApart-middle first others o h.2 in
      (
        λ n held. ground (
          arith,
          h.0 n,
          held,
          open_bridge,
          is_registered-insert n o.peer o.sid b.peers free,
          is_pending-middle n first others o,
        ),
        is_accepting-lookup o.sid o.peer b.peers (first ++ others) alone others_free,
        apart,
      )

  pub finish-IsAccounted :
      (is_set is_answered is_local : Bool) (g : Gathering)
      → (b.is_closed && is_registered_by (answers_of is_set is_answered is_local g)) ≡ false
      → IsAccounted (
          offers
            (accept_finish o.session o.sid o.peer (answers_of is_set is_answered is_local g) b)
            (first ++ others))
  unfolding accept_finish is_registered_by send_message
  finish-IsAccounted false is_answered is_local g e = dropped-IsAccounted
  finish-IsAccounted true false is_local g e = dropped-IsAccounted
  finish-IsAccounted true true false g e = dropped-IsAccounted
  finish-IsAccounted true true true timed_out e = dropped-IsAccounted
  finish-IsAccounted true true true cancelled e = dropped-IsAccounted
  finish-IsAccounted true true true gathered e = kept-IsAccounted _ (ground (arith, e))

close_once : (b : Peers) → b.is_closed ≡ true → close b ≡ b
unfolding close
close_once b e = rw e

close_first :
    (b : Peers)
    → b.is_closed ≡ false
    → close b ≡ record b {
      is_closed = true;
      open_peers = close_publisher b.publisher (close_all b.peers b.open_peers);
    }
unfolding close
close_first b e = rw e

pub close-IsAccounted :
    (s : Offers) → IsAccounted s → IsAccounted (offers (close s.bridge) s.pending)
unfolding IsAccounted IsHeld
close-IsAccounted s h = elim (Bool-cases s.bridge.is_closed) [
  | inl e ↦ subst (λ b. IsAccounted (offers b s.pending)) (sym (close_once s.bridge e)) h
  | inr e ↦
      subst (λ b. IsAccounted (offers b s.pending)) (sym (close_first s.bridge e))
        (
          λ n held. ground (
            arith,
            h.0 n,
            held,
            e,
            holds-close_all n s.bridge.peers s.bridge.open_peers,
            holds-close_publisher n s.bridge.publisher
                (close_all s.bridge.peers s.bridge.open_peers),
          ),
          h.1,
          h.2,
        )
]
