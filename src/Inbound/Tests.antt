-- ===== src/Inbound/Tests.antt =====
-- The theorems on the SIP server, at two INVITEs, a BYE and a call that is answered.
use talk_telephony_gateway_p.Base.Int.{pos}
use talk_telephony_gateway_p.Accounts.{SipAccount}
use talk_telephony_gateway_p.Base.{
  err, ℕ, ◌+◌, ◌≡◌, refl, inl, true, false, List, [], ◌∷◌, ◌++◌, none, some, ◌==◌,
}
use talk_telephony_gateway_p.Text.{Text, codes, text_eq, to_upper, to_lower}
use talk_telephony_gateway_p.Dict.{lookup}
use talk_telephony_gateway_p.Sip.{SipRequest, header, first_value, sip_response}
use talk_telephony_gateway_p.Inbound.{
  call_id, reply, begin_call, cancel_call, leave, end_call, is_method, handle_request,
}
use talk_telephony_gateway_p.Inbound.Calls.{
  IsTracked, request, Reach, start, later, no_calls, Reach-IsTracked,
}
use talk_telephony_gateway_p.Inbound.Hangup.{context_of, handle_request_hangup, IsHangup}
use talk_telephony_gateway_p.Inbound.Reinvite.{reinvited, reinvite_forgets}
use talk_telephony_gateway_p.Sip.Register.{
  Library, Registering, timed_out, first_register, register_loop,
}
use talk_telephony_gateway_p.Inbound.Transport.{
  Transport, is_trusted, new_sip_transport, register_waiter, receive, handle, serve,
}
use talk_telephony_gateway_p.Inbound.Transport.Registers.{
  Round, register_rounds, register_shared, forget_after, settle_world, oldest, arrivals_in, IsAlone,
  register_shared-register_loop,
}
use talk_telephony_gateway_p.Inbound.Transport.Delivery.{
  IsDelivered, Fits, Event, datagram, waits, takes, forgets, happen, happen_all,
  happen_all-IsDelivered,
}
use talk_telephony_gateway_p.Inbound.Transport.Inbox.{IsOthers}
use talk_telephony_gateway_p.Inbound.Transport.Trust.{trusted_only, happen_all-trusted_only}

abbrev named_request : Text → SipRequest
named_request m = record {
  method = m;
  uri = codes "sip:7@gw";
  version = codes "SIP/2.0";
  headers =
      (codes "call-id", codes "c1" ∷ [])
      ∷ (codes "from", codes "<sip:bob@pbx>" ∷ [])
      ∷ (codes "contact", codes "<sip:bob@10.0.0.9>" ∷ [])
      ∷ [];
  body = codes "v=0\nc=IN IP4 10.0.0.9\nm=audio 4000 RTP/AVP 0 8\n";
}

abbrev invite : SipRequest
invite = named_request (codes "INVITE")

abbrev bye : SipRequest
bye = named_request (codes "BYE")

unknown : lookup (call_id invite) no_calls.running ≡ none
unfolding lookup no_calls
unknown = refl

one_call : Reach (handle_request invite no_calls)
one_call = later start (request invite (λ h. unknown))

Reach-IsTracked_example : IsTracked (handle_request invite no_calls)
Reach-IsTracked_example = Reach-IsTracked one_call

bye-IsHangup : IsHangup bye
unfolding IsHangup text_eq to_upper
bye-IsHangup = inl refl

handle_request_hangup_example :
    ((handle_request bye (handle_request invite no_calls)).sent
      ≡ (handle_request invite no_calls).sent ++ sip_response bye 200 (codes "OK") [] [] [] ∷ [])
    × ((handle_request bye (handle_request invite no_calls)).cancelled
        ≡ (handle_request invite no_calls).cancelled
          ++ context_of (lookup (call_id bye) (handle_request invite no_calls).running))
handle_request_hangup_example = handle_request_hangup one_call bye bye-IsHangup

invite_method : is_method (codes "INVITE") invite ≡ true
unfolding text_eq to_upper
invite_method = refl

invite_id : call_id invite ≡ codes "c1"
unfolding call_id header first_value lookup text_eq to_lower
invite_id = refl

same_id : call_id bye ≡ call_id invite
unfolding call_id header first_value lookup text_eq to_lower
same_id = refl

reinvite_forgets_example :
    ((handle_request invite (handle_request invite no_calls)).running
      ≡ (call_id invite, no_calls.next_context + 1)
        ∷ (call_id invite, no_calls.next_context)
        ∷ no_calls.running)
    × (lookup (call_id invite) (reinvited invite invite no_calls).running
        ≡ some (no_calls.next_context + 1))
    × ((handle_request bye (reinvited invite invite no_calls)).cancelled
        ≡ (reinvited invite invite no_calls).cancelled)
reinvite_forgets_example =
    reinvite_forgets invite invite bye no_calls invite_method invite_method (rw invite_id refl) refl
      same_id bye-IsHangup

-- A BYE of the call cancels its context.
hangup_test : (handle_request bye (handle_request invite no_calls)).cancelled ≡ 0 ∷ []
unfolding handle_request begin_call cancel_call reply call_id no_calls header first_value lookup
    text_eq to_lower to_upper
hangup_test = refl

end_test : (end_call (codes "c1") 0 (handle_request invite no_calls)).running ≡ []
unfolding end_call leave handle_request begin_call reply call_id no_calls header first_value lookup
    text_eq to_lower to_upper
end_test = refl

abbrev answer_text : Text
answer_text = codes "SIP/2.0 200 OK\r\nCall-ID: c1\r\n\r\n"

abbrev events : List (Event ℕ)
events =
    waits (codes "c1")
    ∷ datagram 2 answer_text
    ∷ datagram 1 answer_text
    ∷ takes (codes "c1")
    ∷ forgets (codes "c1")
    ∷ []

abbrev quiet_transport : Transport ℕ
quiet_transport = record { trusted = some 1; waiters = [] }

quiet-IsDelivered : IsDelivered quiet_transport
unfolding IsDelivered Fits lookup
quiet-IsDelivered id = tt

happen_all-IsDelivered_example :
    IsDelivered (happen_all (λ a b. a == b) events (quiet_transport, no_calls)).0
happen_all-IsDelivered_example =
    happen_all-IsDelivered (λ a b. a == b) events (quiet_transport, no_calls) quiet-IsDelivered

happen_all-trusted_only_example :
    happen_all (λ a b. a == b) events (quiet_transport, no_calls)
    ≡ happen_all
        (λ a b. a == b)
        (trusted_only (λ a b. a == b) (some 1) events)
        (quiet_transport, no_calls)
happen_all-trusted_only_example =
    happen_all-trusted_only (λ a b. a == b) events (quiet_transport, no_calls)

trust_test : is_trusted (λ a b. a == b) (some 1) 2 ≡ false
unfolding is_trusted
trust_test = refl

abbrev rounds : List (Round ℕ)
rounds =
    record { events = datagram 2 answer_text ∷ []; is_written = true }
    ∷ record { events = datagram 1 answer_text ∷ waits (codes "c2") ∷ []; is_written = true }
    ∷ []

abbrev register_dialogue : Registering
register_dialogue = record {
  uri = codes "sip:pbx";
  aor = codes "sip:u7@pbx";
  local_ip = codes "10.0.0.2";
  local_port = 5070;
  register_call_id = codes "c1";
  tag = codes "rt";
  contact = codes "sip:7@10.0.0.2:5070";
  expires = pos 300;
}

abbrev register_library : Library ℕ
register_library = record {
  resolve = λ t. some 1;
  ip_text = λ a. codes "10.0.0.1";
  local_ip_for = λ a. codes "10.0.0.2";
  port_part = λ t. codes "5070";
  md5_hex = λ t. codes "abc";
  sha256_hex = λ t. codes "def";
  nonce = λ n. some (codes "cn");
  new_id = λ p n. p;
}

abbrev register_account : SipAccount
register_account = record {
  extension = codes "7";
  username = codes "u7";
  auth_user = codes "u7";
  password = codes "pw";
  caller_id = [];
  nextcloud_user = codes "alice";
  is_default = false;
  enabled = none;
}

rounds-IsAlone : IsAlone (codes "c1") rounds
unfolding IsAlone IsOthers text_eq
rounds-IsAlone = ((tt, tt), ((tt, (refl, tt)), tt))

register_shared-register_loop_example :
    ((register_shared
        (λ a b. a == b)
        register_library
        register_dialogue
        register_account
        timed_out
        rounds
        (quiet_transport, no_calls)).1
      ≡ register_loop register_library register_dialogue register_account timed_out
          (arrivals_in (λ a b. a == b) (some 1) (codes "c1") rounds [])
          (first_register register_library register_dialogue))
    × (lookup
          (codes "c1")
          (register_shared
            (λ a b. a == b)
            register_library
            register_dialogue
            register_account
            timed_out
            rounds
            (quiet_transport, no_calls)).0.0.waiters
        ≡ none)
register_shared-register_loop_example =
    register_shared-register_loop (λ a b. a == b) register_library register_dialogue
      register_account timed_out rounds (quiet_transport, no_calls) rounds-IsAlone

-- A response of another address does not end the registration.
register_shared_test :
    (register_shared
      (λ a b. a == b)
      register_library
      register_dialogue
      register_account
      timed_out
      (record { events = datagram 2 answer_text ∷ []; is_written = true } ∷ [])
      (quiet_transport, no_calls)).1.1
    ≡ err timed_out
unfolding register_shared register_rounds forget_after settle_world oldest happen_all happen serve
    receive is_trusted handle register_waiter text_eq
register_shared_test = refl

transport_test :
    new_sip_transport {Ip = ℕ} (λ t. some (some 3)) true (codes "0.0.0.0:5060") (codes "pbx")
    ≡ some (record { trusted = some 3; waiters = [] })
unfolding new_sip_transport
transport_test = refl
