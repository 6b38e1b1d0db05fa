-- ===== src/Sip/Live/Ends.antt =====
-- How an answered outgoing call ends.
use talk_telephony_gateway_p.Base.{
  ◌≡◌, refl, Bool, true, false, List, [], ◌∷◌, Option, none, some, if◌then◌else◌, err, Bool-cases,
  inl, inr,
}
use talk_telephony_gateway_p.Text.{Text}
use talk_telephony_gateway_p.Sip.Live.{
  Dialog, SipRead, quiet, failed, datagram, Live, read_failed, is_hangup, is_end, send_sip_bye,
  answer_hangup, live_loop,
}

module _ (d : Dialog) (branch : Text) (is_bye_written : Bool) where
  -- What the read that ends the call makes of it.
  pub ended_by : SipRead → Live → Live
  ended_by (quiet talk_ended) c = send_sip_bye d branch is_bye_written c
  ended_by failed c = record c { result = some (err read_failed) }
  ended_by (datagram raw) c = answer_hangup raw c

  pub first_end : List SipRead → Option SipRead
  first_end [] = none
  first_end (r ∷ rs) = let rest = first_end rs in if is_end r then some r else rest

  pub after_end : Option SipRead → Live → Live
  after_end none c = c
  after_end (some r) c = ended_by r c

  -- The first read that ends the call decides alone: the end of the Talk side is followed by one
  -- BYE, a BYE or a CANCEL of the peer by one 200, an error by nothing; before it nothing is written,
  -- and what comes after it is not answered.
  pub live_loop-first_end :
      (reads : List SipRead) (c : Live)
      → live_loop d branch is_bye_written reads c ≡ after_end (first_end reads) c
  unfolding live_loop first_end after_end ended_by is_end
  live_loop-first_end [] c = refl
  live_loop-first_end (quiet true ∷ reads) c = refl
  live_loop-first_end (quiet false ∷ reads) c = live_loop-first_end reads c
  live_loop-first_end (failed ∷ reads) c = refl
  live_loop-first_end (datagram raw ∷ reads) c = elim (Bool-cases (is_hangup raw)) [
    | inl e ↦ rw e refl
    | inr e ↦ rw e (live_loop-first_end reads c)
  ]
