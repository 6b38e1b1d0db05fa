-- ===== src/Gateway/Config.antt =====
-- cmd/gateway/main.go: `loadConfig`. The environment is a function, with the empty text for a name
-- that is not set; `time.ParseDuration` is a parameter, and a Duration is an integer of nanoseconds.
pub mod Valid
use talk_telephony_gateway_p.Base.{
  ℕ, ◌*◌, ◌^◌, Bool, true, false, not, ◌&&◌, ◌||◌, List, [], ◌∷◌, ◌++◌, Option, none, some,
  if◌then◌else◌, ltb, ◌==◌, Result, ok, err, ◌>>=◌,
}
use talk_telephony_gateway_p.Base.Int.{ℤ, pos, negsuc}
use talk_telephony_gateway_p.Text.{
  Text, codes, is_empty, trim_space, trim_right, has_prefix, ends_with_byte, equal_fold,
}
use talk_telephony_gateway_p.Text.Decimal.{atoi}

pub record Settings : Type 0 where
  pub hpb_url : Text
  pub nextcloud_url : Text
  pub internal_secret : Text
  pub ring_delay : ℤ
  pub connect_delay : ℤ
  pub clear_delay : ℤ
  pub keepalive : ℤ
  pub sip_server : Text
  pub sip_from_user : Text
  pub sip_domain : Text
  pub sip_local_addr : Text
  pub sip_timeout : ℤ
  pub rtp_local_addr : Text
  pub rtp_advertise_ip : Text
  pub rtp_test_duration : ℤ
  pub sip_inbound_listen : Text
  pub sip_inbound_timeout : ℤ
  pub sip_bridge_secret : Text
  pub accounts_api_url : Text
  pub gateway_api_token : Text
  pub accounts_refresh : ℤ
  pub sip_contact_ip : Text
  pub sip_register_expires : ℤ

-- `invalid` is an exit by `log.Fatalf`.
pub data ConfigError : Type 0 where
  no_internal_secret no_gateway_token short_refresh bad_hpb_url no_sip_server no_sip_secret :
      ConfigError
  invalid : (key : Text) → ConfigError

abbrev pub nanoseconds : ℕ → ℤ
nanoseconds seconds = pos (seconds * 10 ^ 9)

-- a < 5 seconds
abbrev pub is_short : ℤ → Bool
is_short (pos n) = ltb n (5 * 10 ^ 9)
is_short (negsuc n) = true

abbrev is_negative : ℤ → Bool
is_negative (pos n) = false
is_negative (negsuc n) = true

unfoldable pub with_slash : Text → Text
unfolding ends_with_byte
with_slash url = if ends_with_byte b'/' url then url else url ++ b'/' ∷ []

-- The address of the accounts, when none is given.
unfoldable pub accounts_url : Settings → Text
unfolding trim_right
accounts_url c =
    if is_empty c.accounts_api_url
    then trim_right (λ b. b == b'/') (with_slash c.nextcloud_url)
      ++ codes "/index.php/apps/talk_telephony/api/v1/gateway/accounts"
    else c.accounts_api_url

-- With the two addresses that `loadConfig` completes.
unfoldable pub completed : Settings → Settings
completed c = record c {
  nextcloud_url = with_slash c.nextcloud_url;
  accounts_api_url = accounts_url c;
}

-- The checks behind the reading.
unfoldable pub check_config : Settings → Result ConfigError Settings
unfolding has_prefix
check_config c =
    if is_empty c.internal_secret
    then err no_internal_secret
    else if is_empty c.gateway_api_token
    then err no_gateway_token
    else if is_short c.accounts_refresh
    then err short_refresh
    else if not (has_prefix (codes "ws://") c.hpb_url)
        && not (has_prefix (codes "wss://") c.hpb_url)
    then err bad_hpb_url
    else if is_empty c.sip_server
    then err no_sip_server
    else if not (is_empty c.sip_inbound_listen) && is_empty c.sip_bridge_secret
    then err no_sip_secret
    else ok (completed c)

-- The value of a number.
unfoldable pub read_int : Text → Option ℤ → Result ConfigError ℤ
read_int key none = err (invalid key)
read_int key (some n) = if is_negative n then err (invalid key) else ok n

unfoldable pub read_duration : Text → Option ℤ → Result ConfigError ℤ
read_duration key none = err (invalid key)
read_duration key (some d) = ok d

module _ (env : Text → Text) where
  unfoldable pub getenv : (key default_value : Text) → Text
  unfolding trim_space
  getenv key default_value = let v = trim_space (env key) in if is_empty v then default_value else v

  unfoldable pub int_env : Text → ℤ → Result ConfigError ℤ
  unfolding trim_space atoi
  int_env key default_value =
      let v = trim_space (env key) in if is_empty v then ok default_value else read_int key (atoi v)

  -- It has no caller.
  unfoldable pub inbound_listen_env : Text
  unfolding trim_space equal_fold
  inbound_listen_env =
      let v = trim_space (env (codes "SIP_INBOUND_LISTEN")) in
      if equal_fold v (codes "off") || equal_fold v (codes "disabled")
      then []
      else if is_empty v
      then codes "0.0.0.0:5060"
      else v

  module _ (parse_duration : Text → Option ℤ) where
    unfoldable pub duration_env : Text → ℤ → Result ConfigError ℤ
    unfolding trim_space
    duration_env key default_value =
        let v = trim_space (env key) in
        if is_empty v then ok default_value else read_duration key (parse_duration v)

    -- What is read, without the checks.
    unfoldable pub read_config : Result ConfigError Settings
    unfolding trim_space
    read_config = duration_env (codes "SIM_RING_DELAY") (nanoseconds 1) >>= λ ring.
        duration_env (codes "SIM_CONNECT_DELAY") (nanoseconds 2) >>= λ connect.
        duration_env (codes "SIM_CLEAR_DELAY") (nanoseconds 8) >>= λ clear.
        duration_env (codes "WS_KEEPALIVE") (nanoseconds 15) >>= λ alive.
        duration_env (codes "SIP_TIMEOUT") (nanoseconds 45) >>= λ sip.
        duration_env (codes "RTP_TEST_DURATION") (nanoseconds 20) >>= λ rtp.
        duration_env (codes "SIP_INBOUND_TIMEOUT") (nanoseconds 60) >>= λ inbound.
        duration_env (codes "NEXTCLOUD_ACCOUNTS_REFRESH") (nanoseconds 30) >>= λ accounts.
        int_env (codes "SIP_REGISTER_EXPIRES") (pos 300) >>= λ expires. ok (record {
          hpb_url =
              getenv (codes "HPB_URL")
                (codes "wss://talk.2mprodelec.fr/standalone-signaling/spreed");
          nextcloud_url = getenv (codes "NEXTCLOUD_URL") (codes "https://drive.2mprodelec.fr/");
          internal_secret = env (codes "HPB_INTERNAL_SECRET");
          ring_delay = ring;
          connect_delay = connect;
          clear_delay = clear;
          keepalive = alive;
          sip_server = trim_space (env (codes "SIP_SERVER"));
          sip_from_user = getenv (codes "SIP_FROM_USER") (codes "talk");
          sip_domain = trim_space (env (codes "SIP_DOMAIN"));
          sip_local_addr = getenv (codes "SIP_LOCAL_ADDR") (codes "0.0.0.0:0");
          sip_timeout = sip;
          rtp_local_addr = getenv (codes "RTP_LOCAL_ADDR") (codes "0.0.0.0:0");
          rtp_advertise_ip = trim_space (env (codes "RTP_ADVERTISE_IP"));
          rtp_test_duration = rtp;
          sip_inbound_listen = trim_space (env (codes "SIP_INBOUND_LISTEN"));
          sip_inbound_timeout = inbound;
          sip_bridge_secret = env (codes "SPREED_SIP_SECRET");
          accounts_api_url = trim_space (env (codes "NEXTCLOUD_ACCOUNTS_URL"));
          gateway_api_token = env (codes "NEXTCLOUD_GATEWAY_TOKEN");
          accounts_refresh = accounts;
          sip_contact_ip = trim_space (env (codes "SIP_CONTACT_IP"));
          sip_register_expires = expires;
        })

    unfoldable pub load_config : Result ConfigError Settings
    load_config = read_config >>= λ c. check_config c
