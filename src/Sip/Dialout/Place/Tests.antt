-- ===== src/Sip/Dialout/Place/Tests.antt =====
-- The theorems on whole outgoing calls at concrete calls.
use talk_telephony_gateway_p.Base.{subst, ap, ℕ, ◌≡◌, refl, true, List, [], ◌∷◌, none, some}
use mathlib.Core.Option.{some_inj}
use talk_telephony_gateway_p.Text.{Text, codes, contains_byte}
use talk_telephony_gateway_p.Text.Laws.{has_no_space-NoSpace, has_no_space}
use talk_telephony_gateway_p.Text.Lines.{Lacks, contains_byte-Lacks}
use talk_telephony_gateway_p.Accounts.{Pointer, empty_table}
use talk_telephony_gateway_p.Session.{Signaling}
use talk_telephony_gateway_p.Sip.Dialout.{Status, accepted}
use talk_telephony_gateway_p.Sip.Dialout.Loop.{Services, read_timeout}
use talk_telephony_gateway_p.Sip.Dialout.Loop.Progress.{statuses}
use talk_telephony_gateway_p.Sip.Dialout.Loop.Cleared.{IsCleared}
use talk_telephony_gateway_p.Sip.Dialout.Place.{
  Route, Network, Request, prepare, run_dialout, probed,
}
use talk_telephony_gateway_p.Sip.Dialout.Place.Placed.{IsReleased, run_dialout-IsCleared}
use talk_telephony_gateway_p.Sip.Dialout.Place.Addressed.{IsPlain, IsAddressed, prepare-IsAddressed}

abbrev net : Network ℕ
net = record {
  resolve = λ name. some 1;
  ip_text = λ a. codes "p";
  listen_sip = λ a. some (codes "0.0.0.0", 5070);
  listen_rtp = λ a. some (codes "0.0.0.0", 4000);
  probe = λ a. none;
  now = 17;
  new_id = λ prefix. codes "t";
}

abbrev route : Route
route = record {
  sip_server = codes "pbx";
  sip_local_addr = codes ":0";
  sip_domain = [];
  sip_from_user = codes "gw";
  rtp_local_addr = codes ":0";
  rtp_advertise_ip = [];
}

abbrev account : Pointer
account = record {
  address = 0;
  target = record {
    extension = codes "7";
    username = codes "u";
    auth_user = codes "u";
    password = codes "p";
    caller_id = [];
    nextcloud_user = [];
    is_default = true;
    enabled = none;
  };
}

account-IsPlain : IsPlain net route (codes "c") (codes "12") account.target
unfolding has_no_space probed contains_byte
account-IsPlain = record {
  number_word = (refl, (refl, tt));
  domain_word = tt;
  server_word = λ a. has_no_space-NoSpace (codes "p") refl;
  tag_word = (refl, tt);
  id_word = (refl, tt);
  user_line = (refl, tt);
  from_user_line = (refl, (refl, tt));
  socket_line = λ a ip port e.
      subst (Lacks b'\n') (ap (λ (r : Text × ℕ). r.0) (some_inj.0 e))
        (contains_byte-Lacks b'\n' (codes "0.0.0.0") refl);
  probe_line = λ a ip h. h;
}

prepare-IsAddressed_example :
    IsAddressed net route
      (codes "12")
      1
      (codes "b")
      []
      (prepare net route (codes "c") (codes "12") account)
prepare-IsAddressed_example =
    prepare-IsAddressed net route (codes "c") (codes "12") account account-IsPlain 1 (codes "b") []
      (refl, tt) tt

abbrev signaling : Signaling
signaling = record {
  internal_secret = codes "s";
  nextcloud_url = codes "u";
  hmac_hex = λ key text. codes "m";
  random = some (codes "r");
  new_id = λ prefix n. prefix;
  can_write = λ n. true;
}

abbrev services : Services ℕ
services = record {
  md5_hex = λ t. t;
  sha256_hex = λ t. t;
  nonce = λ n. none;
  new_branch = λ n. codes "b";
  resolve = λ host port. none;
}

abbrev request : Request
request = record {
  has_request = true;
  is_accepted_sent = true;
  room = codes "room";
  number = codes "12";
  caller = none;
  actor_id = [];
  actor_type = [];
}

run_dialout-IsCleared_example :
    IsReleased
      (run_dialout net route signaling services
        (empty_table 0)
        (codes "c")
        request
        true
        []
        true
        (read_timeout ∷ [])).session
    × ((ss : List Status) × (statuses
            (run_dialout net route signaling services
              (empty_table 0)
              (codes "c")
              request
              true
              []
              true
              (read_timeout ∷ [])).sent
          ≡ accepted ∷ ss)
        × IsCleared ss)
run_dialout-IsCleared_example =
    run_dialout-IsCleared net route signaling services (empty_table 0) (codes "c") request true []
      true (read_timeout ∷ []) refl refl
