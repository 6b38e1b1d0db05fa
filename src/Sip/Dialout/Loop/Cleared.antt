-- ===== src/Sip/Dialout/Loop/Cleared.antt =====
-- `handleDialout`: what the signaling server learns of a call.
use talk_telephony_gateway_p.Base.{
  ◌≡◌, refl, ap, ◌∙◌, Bool, true, false, List, [], ◌∷◌, ◌++◌, Option, none, some, if◌then◌else◌,
  Result, ok, err, Bool-cases, inl, inr,
}
use talk_telephony_gateway_p.Base.Int.{pos}
use talk_telephony_gateway_p.Text.{codes, is_empty}
use talk_telephony_gateway_p.Accounts.{Pointer, Table, AccountError, select_outbound}
use talk_telephony_gateway_p.Bridge.{RoomSession, Identity}
use talk_telephony_gateway_p.Sip.Dialout.{
  Dialling, Status, accepted, ringing, connected, cleared, invite, status, DialoutError, not_sent,
  Call, send,
}
use talk_telephony_gateway_p.Sip.Dialout.Loop.{
  Read, Services, new_call, sip_dial, Dialout, dialout_caller, primary_nextcloud_user, report,
  simulated, place_call, with_account, with_session, handle_dialout,
}
use talk_telephony_gateway_p.Sip.Dialout.Loop.Progress.{
  statuses, statuses-append, HasEnded, IsGoing-HasEnded, dial_loop-HasEnded, new_call-IsGoing,
  invited-IsGoing,
}

-- Ringing and connected, each at most once and in this order, and then cleared.
pub IsCleared : List Status → Type 0
IsCleared ss =
    (rung : Bool) × (up : Bool) × (ss
      ≡ (if rung then ringing ∷ [] else [])
        ++ ((if up then connected ∷ [] else []) ++ cleared ∷ []))

only_cleared : IsCleared (cleared ∷ [])
unfolding IsCleared
only_cleared = (false, false, refl)

module _ {ℓ} {Addr : Type ℓ} (services : Services Addr) where
  sip_dial-HasEnded :
      (d : Dialling) (w : Bool) (reads : List Read)
      → HasEnded (sip_dial services d w reads).0 (sip_dial services d w reads).1
  unfolding sip_dial new_call
  sip_dial-HasEnded d w reads =
      let b = services.new_branch 0 in
      elim (Bool-cases w) [
        | inl e ↦
            rw (e, sip_dial)
              (dial_loop-HasEnded services d reads (send (invite 1 b []) (new_call b))
                (invited-IsGoing b))
        | inr e ↦ rw (e, sip_dial) (IsGoing-HasEnded (new_call b) not_sent (new_call-IsGoing b))
      ]

  report-IsCleared :
      (p : Call × Result DialoutError (Unit {0}))
      → HasEnded p.0 p.1
      → IsCleared (statuses (report p))
  unfolding report HasEnded IsCleared statuses
  report-IsCleared (c, ok u) ((rung, up, h), g) = (rung, up, h)
  report-IsCleared (c, err e) ((rung, up, h), g) = (
    rung,
    up,
    statuses-append c.sent (status cleared (codes "sip-error") (pos 500) ∷ [])
        ∙ ap (λ (l : List Status). l ++ cleared ∷ []) h
        ∙ ended rung up,
  )
    where
      ended :
          (rung up : Bool)
          → ((if rung then ringing ∷ [] else []) ++ ((if up then connected ∷ [] else []) ++ []))
              ++ cleared ∷ []
            ≡ (if rung then ringing ∷ [] else [])
              ++ ((if up then connected ∷ [] else []) ++ cleared ∷ [])
      ended true true = refl
      ended true false = refl
      ended false true = refl
      ended false false = refl

  module _ (prepare : Pointer → Option Dialling) where
    place_call-IsCleared :
        (o : Option Dialling) (w : Bool) (reads : List Read)
        → IsCleared (statuses (place_call services prepare o w reads))
    unfolding place_call statuses
    place_call-IsCleared none w reads = only_cleared
    place_call-IsCleared (some d) w reads =
        report-IsCleared (sip_dial services d w reads) (sip_dial-HasEnded d w reads)

    with_account-IsCleared :
        (r : Result AccountError Pointer) (w : Bool) (reads : List Read)
        → IsCleared (statuses (with_account services prepare r w reads))
    unfolding with_account statuses
    with_account-IsCleared (err e) w reads = only_cleared
    with_account-IsCleared (ok a) w reads = place_call-IsCleared (prepare a) w reads

    with_session-IsCleared :
        (table : Table) (r : Dialout) (s : Option (Identity × List RoomSession)) (w : Bool)
        (reads : List Read)
        → IsCleared (statuses (with_session services prepare table r s w reads))
    unfolding with_session statuses
    with_session-IsCleared table r none w reads = only_cleared
    with_session-IsCleared table r (some (own, sessions)) w reads =
        with_account-IsCleared
          (select_outbound table (dialout_caller r) (primary_nextcloud_user own sessions)) w reads

    simulated-IsCleared : IsCleared (statuses simulated)
    unfolding IsCleared simulated statuses
    simulated-IsCleared = (true, true, refl)

    -- Every dialout that is accepted is reported to its end: whatever the room, the accounts and the
    -- SIP server do, the statuses are accepted, then ringing and connected at most once each and in
    -- this order, and then cleared, which is reported exactly once and last.
    pub handle_dialout-IsCleared :
        (table : Table) (r : Dialout) (w : Bool) (reads : List Read)
        → r.has_request ≡ true
        → r.is_accepted_sent ≡ true
        → (ss : List Status) × (statuses (handle_dialout services prepare table r w reads)
            ≡ accepted ∷ ss)
          × IsCleared ss
    unfolding handle_dialout statuses
    handle_dialout-IsCleared table r w reads h k = elim (Bool-cases (is_empty r.sip_server)) [
      | inl e ↦ (statuses simulated, simp (h, k, e) refl, simulated-IsCleared)
      | inr e ↦ (
        statuses (with_session services prepare table r r.session w reads),
        simp (h, k, e) refl,
        with_session-IsCleared table r r.session w reads,
      )
    ]
