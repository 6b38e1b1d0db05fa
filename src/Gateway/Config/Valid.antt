-- ===== src/Gateway/Config/Valid.antt =====
-- What a configuration that is accepted has.
use talk_telephony_gateway_p.Base.{
  ◌≡◌, ◌⊎◌, refl, sym, subst, ℕ, true, false, not, ◌&&◌, [], ◌∷◌, ◌++◌, Option, ok, arith,
  Bool-cases, Result-cases, inl, inr, ◌==◌,
}
use talk_telephony_gateway_p.Base.Int.{ℤ}
use talk_telephony_gateway_p.Text.{Text, codes, is_empty, has_prefix, ends_with_byte, trim_right}
use talk_telephony_gateway_p.Gateway.Config.{
  Settings, is_short, with_slash, accounts_url, completed, check_config, read_config, load_config,
}

-- The secrets and the SIP server are set, the accounts are refreshed every 5 seconds at most, the
-- addresses have the form that is needed, and a SIP server for calls has its secret.
pub record IsValid (c : Settings) : Type 0 where
  pub has_internal_secret : is_empty c.internal_secret ≡ false
  pub has_token : is_empty c.gateway_api_token ≡ false
  pub is_slow : is_short c.accounts_refresh ≡ false
  pub is_websocket :
      (has_prefix (codes "ws://") c.hpb_url ≡ true) ⊎ (has_prefix (codes "wss://") c.hpb_url ≡ true)
  pub has_server : is_empty c.sip_server ≡ false
  pub has_bridge_secret :
      (is_empty c.sip_inbound_listen ≡ true) ⊎ (is_empty c.sip_bridge_secret ≡ false)
  pub is_directory : ends_with_byte b'/' c.nextcloud_url ≡ true
  pub has_accounts : is_empty c.accounts_api_url ≡ false

slash_last : (s : Text) → ends_with_byte b'/' (s ++ b'/' ∷ []) ≡ true
unfolding ends_with_byte
slash_last [] = refl
slash_last (c ∷ []) = refl
slash_last (c ∷ d ∷ s) = slash_last (d ∷ s)

with_slash-last : (s : Text) → ends_with_byte b'/' (with_slash s) ≡ true
unfolding with_slash
with_slash-last s = elim (Bool-cases (ends_with_byte b'/' s)) [
  | inl e ↦ rw (e, e) refl
  | inr e ↦ rw e (slash_last s)
]

slash_not_empty : (s : Text) → ends_with_byte b'/' s ≡ true → is_empty s ≡ false
unfolding ends_with_byte
slash_not_empty [] h = ground (arith, h)
slash_not_empty (c ∷ s) h = refl

append_not_empty : (s : Text) (c : ℕ) (t : Text) → is_empty (s ++ c ∷ t) ≡ false
append_not_empty [] c t = refl
append_not_empty (d ∷ s) c t = refl

accounts_url-set : (c : Settings) → is_empty (accounts_url c) ≡ false
unfolding accounts_url
accounts_url-set c = elim (Bool-cases (is_empty c.accounts_api_url)) [
  | inl e ↦ rw e (append_not_empty (trim_right (λ b. b == b'/') (with_slash c.nextcloud_url)) _ _)
  | inr e ↦ rw (e, e) refl
]

completed-IsValid :
    (c : Settings)
    → is_empty c.internal_secret ≡ false
    → is_empty c.gateway_api_token ≡ false
    → is_short c.accounts_refresh ≡ false
    → (not (has_prefix (codes "ws://") c.hpb_url) && not (has_prefix (codes "wss://") c.hpb_url))
      ≡ false
    → is_empty c.sip_server ≡ false
    → (not (is_empty c.sip_inbound_listen) && is_empty c.sip_bridge_secret) ≡ false
    → IsValid (completed c)
unfolding completed
completed-IsValid c e1 e2 e3 e4 e5 e6 = record {
  has_internal_secret = e1;
  has_token = e2;
  is_slow = e3;
  is_websocket = elim (Bool-cases (has_prefix (codes "ws://") c.hpb_url)) [
    | inl f ↦ inl f
    | inr f ↦ inr (ground (arith, e4, f))
  ];
  has_server = e5;
  has_bridge_secret = elim (Bool-cases (is_empty c.sip_inbound_listen)) [
    | inl f ↦ inl f
    | inr f ↦ inr (ground (arith, e6, f))
  ];
  is_directory = with_slash-last c.nextcloud_url;
  has_accounts = accounts_url-set c;
}

check_config-completed : (c r : Settings) → check_config c ≡ ok r → r ≡ completed c
unfolding check_config
check_config-completed c r h = ground (arith, h)

check_config-IsValid : (c r : Settings) → check_config c ≡ ok r → IsValid r
unfolding check_config
check_config-IsValid c r h = subst IsValid (sym (check_config-completed c r h)) (
    completed-IsValid c (ground (arith, h)) (ground (arith, h)) (ground (arith, h))
      (ground (arith, h)) (ground (arith, h)) (ground (arith, h)))

module _ (env : Text → Text) (parse_duration : Text → Option ℤ) where
  -- A configuration that is accepted has its secrets, its token and its SIP server, a WebSocket
  -- address, an address of Nextcloud that ends in a slash, an address of the accounts, an accounts
  -- refresh of 5 seconds or more, and the SIP bridge secret when it listens for calls.
  pub load_config-IsValid : (c : Settings) → load_config env parse_duration ≡ ok c → IsValid c
  unfolding load_config
  load_config-IsValid c h = elim (Result-cases (read_config env parse_duration)) [
    | inl (d, e) ↦ check_config-IsValid d c (rw e at h)
    | inr (x, e) ↦ ground (arith, rw e at h)
  ]
