-- ===== src/Sip/Dialout/Place/Addressed.antt =====
-- The call that the head of `sipDial` sets up, and its INVITE.
use talk_telephony_gateway_p.Base.{
  ℕ, ◌≡◌, ◌≢◌, ◌⊎◌, inl, inr, Bool-cases, refl, ap, subst, Bool, true, false, ◌||◌, [], ◌∷◌, ◌++◌,
  Option, none, some, if◌then◌else◌, or_false, All-append,
}
use talk_telephony_gateway_p.Text.{Text, codes, is_empty, text_eq, contains_byte}
use talk_telephony_gateway_p.Text.Laws.{
  NoSpace, has_no_space, has_no_space-NoSpace, text_eq_refl, text_eq→eq,
}
use talk_telephony_gateway_p.Text.Lines.{Lacks, contains_byte-Lacks, NoSpace-Lacks}
use talk_telephony_gateway_p.Text.Trim.{NoSpace-IsTrimmed}
use talk_telephony_gateway_p.Text.Decimal.{itoa}
use talk_telephony_gateway_p.Text.Decimal.Digits.{itoa-NoSpace}
use talk_telephony_gateway_p.Accounts.{SipAccount, Pointer}
use talk_telephony_gateway_p.Sip.{parse_sip_request}
use talk_telephony_gateway_p.Sip.Wire.Values.{line-Lacks, word-NoSpace}
use talk_telephony_gateway_p.Sip.Register.{with_port}
use talk_telephony_gateway_p.Sip.Dialout.{Dialling, invite_text}
use talk_telephony_gateway_p.Sip.Dialout.Written.{
  IsWritable, IsInvite, parse_sip_request-invite_text,
}
use talk_telephony_gateway_p.Sip.Dialout.Place.{
  Route, Network, prepare, from_server, over, listen_on, domain_of, dialling_of, is_wildcard,
  or_loopback, probed, contact_host,
}

-- A host that a peer can send to: neither of the two wildcard addresses, and not empty.
pub record IsReachable (ip : Text) : Type 0 where
  pub not_all_v4 : ip ≢ codes "0.0.0.0"
  pub not_all_v6 : ip ≢ codes "::"
  pub not_empty : ip ≢ []

not_equal : (s t : Text) → text_eq s t ≡ false → s ≢ t
not_equal s t h e =
    let same : text_eq s t ≡ true = subst (λ (x : Text). text_eq s x ≡ true) e (text_eq_refl s) in
    cc

tested-IsReachable : (ip : Text) → is_wildcard ip ≡ false → is_empty ip ≡ false → IsReachable ip
unfolding is_wildcard
tested-IsReachable ip h g =
    let tests = or_false (text_eq ip (codes "0.0.0.0")) (text_eq ip (codes "::")) h in
    record {
      not_all_v4 = not_equal ip _ tests.0;
      not_all_v6 = not_equal ip _ tests.1;
      not_empty = λ e. cc (ap is_empty e);
    }

wildcard_unreachable : (ip : Text) → is_wildcard ip ≡ true → ¬ IsReachable ip
unfolding is_wildcard
wildcard_unreachable ip e h = elim (Bool-cases (text_eq ip (codes "0.0.0.0"))) [
  | inl f ↦ h.not_all_v4 (text_eq→eq ip _ f)
  | inr f ↦ h.not_all_v6 (text_eq→eq ip _ (rw f at e))
]

is_empty-nil : (t : Text) → is_empty t ≡ true → t ≡ []
is_empty-nil [] h = refl
is_empty-nil (c ∷ t) h = cc

or_loopback-IsReachable : (ip : Text) → IsReachable (or_loopback ip)
unfolding or_loopback
or_loopback-IsReachable ip = by_test (is_wildcard ip || is_empty ip) refl
  where
    by_test :
        (c : Bool)
        → (is_wildcard ip || is_empty ip) ≡ c
        → IsReachable (if c then codes "127.0.0.1" else ip)
    by_test true e =
        tested-IsReachable (codes "127.0.0.1") (unfold is_wildcard text_eq in refl) refl
    by_test false e =
        let tests = or_false (is_wildcard ip) (is_empty ip) e in
        tested-IsReachable ip tests.0 tests.1

-- The gateway names itself by the address of its socket, if that is one that a peer can send to.
pub NamesSocket : (ip host : Text) → Type 0
NamesSocket ip host = (host ≡ ip) ⊎ (¬ IsReachable ip)

contact_host-NamesSocket :
    (ip : Text) (route : Option Text) → NamesSocket ip (contact_host ip route)
unfolding NamesSocket contact_host or_loopback
contact_host-NamesSocket ip route = elim (Bool-cases (is_wildcard ip)) [
  | inl e ↦ inr (λ h. wildcard_unreachable ip e h)
  | inr e ↦ elim (Bool-cases (is_empty ip)) [
    | inl f ↦ inr (λ h. h.not_empty (is_empty-nil ip f))
    | inr f ↦ inl (rw (e, e, f))
  ]
]

-- What holds of both branches.
of_both : (P : Text → Type 0) (c : Bool) (x y : Text) → P x → P y → P (if c then x else y)
of_both P true x y hx hy = hx
of_both P false x y hx hy = hy

contact_host-IsReachable : (ip : Text) (route : Option Text) → IsReachable (contact_host ip route)
unfolding contact_host
contact_host-IsReachable ip route = or_loopback-IsReachable _

contact_host-Lacks :
    (ip : Text) (route : Option Text)
    → Lacks b'\n' ip
    → Lacks b'\n' (probed ip route)
    → Lacks b'\n' (contact_host ip route)
unfolding contact_host or_loopback contains_byte
contact_host-Lacks ip route h g =
    let own = of_both (Lacks b'\n') (is_wildcard ip) (probed ip route) ip g h in
    of_both (Lacks b'\n') _ (codes "127.0.0.1") _
      (contains_byte-Lacks b'\n' (codes "127.0.0.1") refl) own

-- Of what the network and the configuration give, nothing breaks a header line, and the number, the
-- domain and the identifiers are words.
pub record IsPlain {ℓ} {Addr : Type ℓ} (net : Network Addr) (route : Route) (call_id number : Text)
    (account : SipAccount) : Type ℓ where
  pub number_word : NoSpace number
  pub domain_word : NoSpace route.sip_domain
  pub server_word : (a : Addr) → NoSpace (net.ip_text a)
  pub tag_word : NoSpace (net.new_id (codes "t"))
  pub id_word : NoSpace call_id
  pub user_line : Lacks b'\n' account.username
  pub from_user_line : Lacks b'\n' route.sip_from_user
  pub socket_line :
      (a : Addr) (ip : Text) (port : ℕ) → net.listen_sip a ≡ some (ip, port) → Lacks b'\n' ip
  pub probe_line : (a : Addr) (ip : Text) → Lacks b'\n' ip → Lacks b'\n' (probed ip (net.probe a))

-- The call is for the number at the configured domain or, where none is configured, at the address
-- of the server.
pub IsNumberAt {ℓ} : {Addr : Type ℓ} → Network Addr → Route → (number : Text) → Addr → Text → Type 0
IsNumberAt net route number raddr uri =
    ((route.sip_domain ≡ []) × (uri ≡ codes "sip:" ++ (number ++ (b'@' ∷ net.ip_text raddr))))
    ⊎ ((route.sip_domain ≢ []) × (uri ≡ codes "sip:" ++ (number ++ (b'@' ∷ route.sip_domain))))

domain_of-IsNumberAt {ℓ} :
    {Addr : Type ℓ} (net : Network Addr) (route : Route) (number : Text) (raddr : Addr)
    → IsNumberAt net route number raddr
        (codes "sip:" ++ (number ++ (b'@' ∷ domain_of net route raddr)))
unfolding IsNumberAt domain_of
domain_of-IsNumberAt net route number raddr = by_domain route.sip_domain refl
  where
    at : Text → Text
    at domain = codes "sip:" ++ (number ++ (b'@' ∷ domain))

    by_domain :
        (domain : Text)
        → route.sip_domain ≡ domain
        → ((route.sip_domain ≡ [])
            × (at (if is_empty route.sip_domain then net.ip_text raddr else route.sip_domain)
                ≡ at (net.ip_text raddr)))
          ⊎ ((route.sip_domain ≢ [])
              × (at (if is_empty route.sip_domain then net.ip_text raddr else route.sip_domain)
                  ≡ at route.sip_domain))
    by_domain [] e = inl (e, rw e)
    by_domain (c ∷ domain) e = inr (λ h. cc, rw e)

-- Nothing, or a call whose host can be reached and whose INVITE is one for the number.
pub IsAddressed {ℓ} :
    {Addr : Type ℓ}
    → Network Addr
    → Route
    → (number : Text) → ℕ
    → (branch authorization : Text) → Option Dialling
    → Type ℓ
IsAddressed net route number cseq branch authorization none = Unit
IsAddressed {Addr = Addr} net route number cseq branch authorization (some d) =
    IsReachable d.host
    × ((ip : Text) × (port : ℕ) × (listen_on net.listen_sip (net.resolve route.sip_local_addr)
          ≡ some (ip, port))
        × NamesSocket ip d.host)
    × IsInvite d cseq (parse_sip_request (invite_text d cseq branch authorization))
    × ((raddr : Addr) × (net.resolve (with_port route.sip_server) ≡ some raddr)
        × IsNumberAt net route number raddr d.uri)

module _ {ℓ} {Addr : Type ℓ} (net : Network Addr) (route : Route) (call_id number : Text)
    (account : Pointer) (plain : IsPlain net route call_id number account.target) where
  dialling_of-IsWritable :
      (raddr : Addr) (sip_ip : Text) (sip_port : ℕ) (rtp : Text × ℕ) (branch authorization : Text)
      → Lacks b'\n' sip_ip
      → Lacks b'\n' branch
      → Lacks b'\n' authorization
      → IsWritable
          (dialling_of net route call_id number account.target raddr (sip_ip, sip_port) rtp)
          branch
          authorization
  unfolding dialling_of contains_byte has_no_space
  dialling_of-IsWritable raddr sip_ip sip_port rtp branch authorization hi hb ha =
      let domain : NoSpace (domain_of net route raddr) =
        unfold domain_of in
        of_both NoSpace (is_empty route.sip_domain) (net.ip_text raddr) route.sip_domain
          (plain.server_word raddr) plain.domain_word in
      let at_domain = line-Lacks (codes "@") _ refl (NoSpace-Lacks _ domain) in
      let host =
        contact_host-Lacks sip_ip (net.probe raddr) hi (plain.probe_line raddr sip_ip hi) in
      let port = NoSpace-Lacks (itoa sip_port) (itoa-NoSpace sip_port) in
      let at_port = line-Lacks (codes ":") (itoa sip_port) refl port in
      let at_host =
        line-Lacks (codes "@") _ refl
          (All-append _ (contact_host sip_ip (net.probe raddr)) _ host at_port) in
      let id_word =
        All-append _ call_id (codes "@talk-gateway") plain.id_word
          (has_no_space-NoSpace (codes "@talk-gateway") refl) in
      record {
        uri_word =
            word-NoSpace (codes "sip:") _ refl
              (All-append _ number _ plain.number_word (refl, domain));
        has_uri = refl;
        tag_word = plain.tag_word;
        id_value = (NoSpace-IsTrimmed _ id_word, NoSpace-Lacks _ id_word);
        from_line =
            line-Lacks (codes "sip:") _ refl
              (All-append _ account.target.username _ plain.user_line at_domain);
        contact_line =
            line-Lacks (codes "sip:") _ refl
              (All-append _ route.sip_from_user _ plain.from_user_line at_host);
        host_line = host;
        branch_line = hb;
        authorization_line = ha;
      }

  module _ (cseq : ℕ) (branch authorization : Text) (branch_line : Lacks b'\n' branch)
      (authorization_line : Lacks b'\n' authorization) where
    over-IsAddressed :
        (raddr : Addr) (sip : Option (Text × ℕ)) (rtp : Option (Text × ℕ))
        → net.resolve (with_port route.sip_server) ≡ some raddr
        → listen_on net.listen_sip (net.resolve route.sip_local_addr) ≡ sip
        → ((ip : Text) (port : ℕ) → sip ≡ some (ip, port) → Lacks b'\n' ip)
        → IsAddressed net route number cseq branch authorization
            (over net route call_id number account.target raddr sip rtp)
    unfolding IsAddressed dialling_of
    over-IsAddressed raddr none rtp e l h = tt
    over-IsAddressed raddr (some sip) none e l h = tt
    over-IsAddressed raddr (some (ip, port)) (some rtp) e l h = (
      contact_host-IsReachable ip (net.probe raddr),
      (ip, port, l, contact_host-NamesSocket ip (net.probe raddr)),
      parse_sip_request-invite_text _ cseq branch authorization (
          dialling_of-IsWritable raddr ip port rtp branch authorization (h ip port refl) branch_line
            authorization_line),
      (raddr, e, domain_of-IsNumberAt net route number raddr),
    )

    listen_on-Lacks :
        (a : Option Addr) (ip : Text) (port : ℕ)
        → listen_on net.listen_sip a ≡ some (ip, port)
        → Lacks b'\n' ip
    listen_on-Lacks none ip port e = cc
    listen_on-Lacks (some a) ip port e = plain.socket_line a ip port e

    from_server-IsAddressed :
        (o : Option Addr)
        → net.resolve (with_port route.sip_server) ≡ o
        → IsAddressed net route number cseq branch authorization
            (from_server net route call_id number account.target o)
    unfolding IsAddressed
    from_server-IsAddressed none e = tt
    from_server-IsAddressed (some raddr) e =
        over-IsAddressed raddr _ _ e refl (listen_on-Lacks (net.resolve route.sip_local_addr))

    -- A call is set up only where the SIP server resolves; then the host it names is neither empty nor
    -- a wildcard address, 0.0.0.0 or ::, and is that of its SIP socket where this is neither; and its
    -- INVITE is read back as one of the call, for the number at the configured domain or, where none
    -- is configured, at the address of the server. What the configuration and the network give is plain: words, and texts without line breaks.
    pub prepare-IsAddressed :
        IsAddressed net route number cseq branch authorization
          (prepare net route call_id number account)
    unfolding prepare
    prepare-IsAddressed = from_server-IsAddressed _ refl
