-- ===== src/Bridge/Peers/Offers/Tests.antt =====
-- The theorems on offers at concrete offers.
use talk_telephony_gateway_p.Dict.{lookup}
use talk_telephony_gateway_p.Base.{◌≡◌, refl, true, none, some}
use talk_telephony_gateway_p.Text.{codes, text_eq}
use talk_telephony_gateway_p.Bridge.Peers.{
  RtcMessage, close, handle_rtc_message, usable_sdp, open_peer, close_publisher, close_all,
}
use talk_telephony_gateway_p.Bridge.Peers.Start.{new_bridge}
use talk_telephony_gateway_p.Bridge.Peers.Offers.{
  Offers, no_offers, receive, Reach, start, step, received, holds, is_pending, overlaps,
  is_accepting, run_effect, is_registered, is_publisher,
}
use talk_telephony_gateway_p.Bridge.Peers.Offers.Reached.{close-holds_pending}
use talk_telephony_gateway_p.Bridge.Peers.Offers.Overlap.{overlapping, overlapping-leaks}

abbrev offer : RtcMessage
offer = record {
  sender = codes "s";
  kind = codes "offer";
  sid = codes "x";
  sdp = some (codes "v");
  candidate = none;
}

abbrev one_offer : Offers
one_offer = receive (some offer) true no_offers

one_offer-Reach : Reach one_offer
unfolding overlaps handle_rtc_message text_eq usable_sdp is_accepting no_offers
one_offer-Reach = step start (received no_offers (some offer) true refl)

close-holds_pending_example : is_pending 0 one_offer.pending ≡ true
unfolding holds close receive run_effect text_eq usable_sdp no_offers new_bridge open_peer
    close_publisher close_all
close-holds_pending_example = close-holds_pending one_offer 0 one_offer-Reach refl

overlapping-leaks_example :
    holds 0 (close (overlapping (codes "s") (codes "t") (codes "x") new_bridge)).open_peers ≡ true
unfolding lookup new_bridge is_registered is_publisher
overlapping-leaks_example =
    overlapping-leaks (codes "s") (codes "t") (codes "x") new_bridge refl refl refl refl
