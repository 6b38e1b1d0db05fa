-- ===== src/Gateway/Tests.antt =====
-- The theorems on the gateway at a small configuration and a short run.
use talk_telephony_gateway_p.Base.{
  ℕ, ◌≡◌, refl, true, false, List, [], ◌∷◌, none, some, ok, err, if◌then◌else◌, ◌*◌, ◌^◌,
}
use talk_telephony_gateway_p.Base.Int.{pos}
use talk_telephony_gateway_p.Text.{Text, codes, text_eq}
use talk_telephony_gateway_p.Gateway.Config.{
  Settings, invalid, with_slash, accounts_url, completed, check_config, read_int, read_duration,
  getenv, int_env, inbound_listen_env, duration_env, read_config, load_config,
}
use talk_telephony_gateway_p.Gateway.Config.Valid.{IsValid, load_config-IsValid}
use talk_telephony_gateway_p.Gateway.Load.{
  Response, check_version, check_response, fetch_accounts, load_account_manager, no_response,
}
use talk_telephony_gateway_p.Gateway.Run.{
  pings, keepalive_loop, Turn, message, Startup, dialout_of, start_dialout, handle_message,
  unless_ended, run_loop, hang_up, idle, greet, connect, run,
}
use talk_telephony_gateway_p.Gateway.Run.Served.{IsServed, run-IsServed}

abbrev env : Text → Text
unfolding text_eq
env key =
    if text_eq key (codes "HPB_INTERNAL_SECRET")
    then codes "s"
    else if text_eq key (codes "NEXTCLOUD_GATEWAY_TOKEN")
    then codes "t"
    else if text_eq key (codes "SIP_SERVER")
    then codes " pbx "
    else if text_eq key (codes "NEXTCLOUD_URL")
    then codes "https://cloud"
    else []

abbrev settings : Settings
settings = record {
  hpb_url = codes "wss://talk.2mprodelec.fr/standalone-signaling/spreed";
  nextcloud_url = codes "https://cloud/";
  internal_secret = codes "s";
  ring_delay = pos (1 * 10 ^ 9);
  connect_delay = pos (2 * 10 ^ 9);
  clear_delay = pos (8 * 10 ^ 9);
  keepalive = pos (15 * 10 ^ 9);
  sip_server = codes "pbx";
  sip_from_user = codes "talk";
  sip_domain = [];
  sip_local_addr = codes "0.0.0.0:0";
  sip_timeout = pos (45 * 10 ^ 9);
  rtp_local_addr = codes "0.0.0.0:0";
  rtp_advertise_ip = [];
  rtp_test_duration = pos (20 * 10 ^ 9);
  sip_inbound_listen = [];
  sip_inbound_timeout = pos (60 * 10 ^ 9);
  sip_bridge_secret = [];
  accounts_api_url = codes "https://cloud/index.php/apps/talk_telephony/api/v1/gateway/accounts";
  gateway_api_token = codes "t";
  accounts_refresh = pos (30 * 10 ^ 9);
  sip_contact_ip = [];
  sip_register_expires = pos 300;
}

env-settings : load_config env (λ t. none) ≡ ok settings
unfolding env load_config read_config duration_env int_env getenv check_config completed
    accounts_url with_slash
env-settings = refl

load_config-IsValid_example : IsValid settings
load_config-IsValid_example = load_config-IsValid env (λ t. none) settings env-settings

duration_test :
    duration_env env (λ t. none) (codes "SIP_SERVER") (pos 1) ≡ err (invalid (codes "SIP_SERVER"))
unfolding env duration_env read_duration
duration_test = refl

int_test : int_env env (codes "SIP_SERVER") (pos 1) ≡ err (invalid (codes "SIP_SERVER"))
unfolding env int_env read_int
int_test = refl

listen_test : inbound_listen_env env ≡ codes "0.0.0.0:5060"
unfolding env inbound_listen_env
listen_test = refl

abbrev startup : Startup
startup = record {
  inbound_listen = [];
  internal_secret = codes "s";
  is_listening = false;
  is_connected = true;
  is_written = true;
  random = some (codes "rnd");
  hmac_hex = λ secret t. codes "mac";
}

abbrev dialout : Text → ℕ → Turn ℕ
dialout id n =
    message (record { kind = codes "internal"; id = id; internal = some (codes "dialout", some n) })

abbrev turns : List (Turn ℕ)
turns =
    message (record { kind = codes "hello"; id = []; internal = none })
    ∷ dialout (codes "a") 1
    ∷ dialout (codes "b") 2
    ∷ message (record { kind = codes "error"; id = []; internal = none })
    ∷ dialout (codes "c") 3
    ∷ []

run-IsServed_example : IsServed turns (run startup turns)
run-IsServed_example = run-IsServed startup turns

run_test : (run startup turns).0.started ≡ (codes "a", 1) ∷ (codes "b", 2) ∷ []
unfolding run connect greet hang_up idle run_loop handle_message unless_ended dialout_of
    start_dialout
run_test = refl

abbrev listed : Response
listed = record {
  status = 200;
  is_readable = true;
  decoded = some (record { version = pos 1; accounts = [] });
}

fetch_test :
    fetch_accounts (λ r. some listed) (codes "u") (codes "t")
    ≡ ok (record { version = pos 1; accounts = [] })
unfolding fetch_accounts check_response check_version
fetch_test = refl

unreachable_test : load_account_manager (λ r. none) (codes "u") (codes "t") 0 ≡ err no_response
unfolding load_account_manager fetch_accounts
unreachable_test = refl

keepalive_test : keepalive_loop (pos 15) (true ∷ true ∷ false ∷ true ∷ []) ≡ 2
unfolding keepalive_loop pings
keepalive_test = refl
