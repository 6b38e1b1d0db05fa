-- ===== src/Bridge/Peers/Offers/Reached.antt =====
-- What `Close` leaves open.
use talk_telephony_gateway_p.Base.{ℕ, ◌≡◌, true, arith}
use talk_telephony_gateway_p.Bridge.Peers.{Peers, close}
use talk_telephony_gateway_p.Bridge.Peers.Start.{new_bridge}
use talk_telephony_gateway_p.Bridge.Peers.Offers.{
  Offers, no_offers, Step, received, finished, published, closed, Reach, start, step, holds,
  is_pending,
}
use talk_telephony_gateway_p.Bridge.Peers.Offers.Accounted.{
  IsHeld, IsAccounted, receive-IsAccounted, finish-IsAccounted, close-IsAccounted,
}
use talk_telephony_gateway_p.Bridge.Peers.Offers.Counting.{AreApart}
use talk_telephony_gateway_p.Bridge.Peers.Offers.Publishing.{publish-IsAccounted}

step-IsAccounted : (s t : Offers) → Step s t → IsAccounted s → IsAccounted t
step-IsAccounted _ _ (received s m is_created apart) h = receive-IsAccounted s m is_created h apart
step-IsAccounted _ _ (finished b first others o answers e) h =
    finish-IsAccounted b first others o h answers.remote_set answers.answer_created
      answers.local_set answers.gathering e
step-IsAccounted _ _ (published s self_id pt w none_yet not_closed fresh alone) h =
    publish-IsAccounted s self_id pt w h none_yet not_closed fresh alone
step-IsAccounted _ _ (closed s) h = close-IsAccounted s h

Reach-IsAccounted : (s : Offers) → Reach s → IsAccounted s
unfolding IsAccounted IsHeld no_offers new_bridge holds AreApart
Reach-IsAccounted _ start = (λ n held. cc, tt, tt)
Reach-IsAccounted _ (step r w) = step-IsAccounted _ _ w (Reach-IsAccounted _ r)

close-is_closed : (b : Peers) → (close b).is_closed ≡ true
unfolding close
close-is_closed b = ground arith

-- In a run in which no two offers with one identifier overlap, the publisher's identifier is new
-- and no offer is registered after `Close`, a connection that is open after `Close` is one of an
-- offer that is still being accepted.
pub close-holds_pending :
    (s : Offers) (n : ℕ)
    → Reach s
    → holds n (close s.bridge).open_peers ≡ true
    → is_pending n s.pending ≡ true
unfolding IsAccounted IsHeld
close-holds_pending s n r held =
    let kept = (close-IsAccounted s (Reach-IsAccounted s r)).0 n held in
    ground (arith, kept, close-is_closed s.bridge)
