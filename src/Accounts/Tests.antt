-- ===== src/Accounts/Tests.antt =====
-- The account table's theorems at a concrete table.
use talk_telephony_gateway_p.Base.{ℕ, ◌≡◌, refl, true, false, [], ◌∷◌, none, some, ok, All}
use talk_telephony_gateway_p.Text.{codes, trim_space, trim_left, trim_right, text_eq}
use talk_telephony_gateway_p.Dict.{lookup, insert}
use talk_telephony_gateway_p.Accounts.{
  SipAccount, Pointer, Table, normalize_accounts, normalize_loop, normalize, add_account,
  is_enabled, select_outbound, install_accounts,
}
use talk_telephony_gateway_p.Accounts.Install.{IsConsistent, normalize_accounts-IsConsistent}
use talk_telephony_gateway_p.Accounts.Preserve.{
  IsSettled, install_accounts-IsConsistent, install_accounts-IsSettled,
}
use talk_telephony_gateway_p.Accounts.Select.{Answers, select_outbound-Answers}
use talk_telephony_gateway_p.Accounts.Registrations.{
  Manager, run_registrations, refresh, start_all, start_registration, stop_all_registrations,
}
use talk_telephony_gateway_p.Accounts.Registrations.Sync.{IsRunning, run_registrations-IsRunning}
use talk_telephony_gateway_p.Accounts.Registrations.Ticks.{IsChange, refresh-IsRunning}

abbrev alice : SipAccount
alice = record {
  extension = codes "100";
  username = codes "100";
  auth_user = codes "100";
  password = codes "secret";
  caller_id = codes "+49100";
  nextcloud_user = codes "alice";
  is_default = true;
  enabled = none;
}

abbrev bob : SipAccount
bob = record alice {
  extension = codes "200";
  username = codes "200";
  auth_user = codes "200";
  caller_id = codes "+49200";
  nextcloud_user = codes "bob";
  is_default = false;
}

abbrev alice_at : ℕ → Pointer
alice_at n = record { address = n; target = alice }

abbrev bob_at : ℕ → Pointer
bob_at n = record { address = n; target = bob }

-- The table of both accounts.
abbrev office : Table
office = record {
  accounts = alice_at 0 ∷ bob_at 1 ∷ [];
  by_extension = (codes "100", alice_at 0) ∷ (codes "200", bob_at 1) ∷ [];
  by_user = (codes "alice", alice_at 0) ∷ (codes "bob", bob_at 1) ∷ [];
  def = some (alice_at 0);
  next_address = 2;
}

office_lem : normalize_accounts 0 (alice ∷ bob ∷ []) ≡ ok office
unfolding normalize_accounts normalize_loop normalize add_account is_enabled trim_space trim_left
    trim_right lookup insert text_eq
office_lem = refl

office-IsConsistent : IsConsistent office
office-IsConsistent = normalize_accounts-IsConsistent 0 (alice ∷ bob ∷ []) office_lem

install_accounts-IsConsistent_example : IsConsistent (install_accounts (bob ∷ []) office).0
install_accounts-IsConsistent_example =
    install_accounts-IsConsistent (bob ∷ []) office office-IsConsistent

install_bob_lem : (install_accounts (bob ∷ []) office).1 ≡ ok tt
unfolding install_accounts normalize_accounts normalize_loop normalize add_account is_enabled
    trim_space trim_left trim_right lookup insert text_eq
install_bob_lem = refl

install_accounts-IsSettled_example :
    All (IsSettled office.by_extension) (install_accounts (bob ∷ []) office).0.accounts
install_accounts-IsSettled_example = install_accounts-IsSettled (bob ∷ []) office install_bob_lem

select_outbound-Answers_example :
    Answers office
      (trim_space (codes "+49200 "))
      (trim_space (codes "carol"))
      (select_outbound office (codes "+49200 ") (codes "carol"))
select_outbound-Answers_example =
    select_outbound-Answers office (codes "+49200 ") (codes "carol") office-IsConsistent

-- The gateway before its first registration.
abbrev idle : Manager
idle = record {
  table = office;
  registrar = record {
    running = false;
    regs = [];
    started = [];
    cancelled = [];
    unregistered = [];
  };
}

refresh-IsRunning_example :
    IsRunning (refresh (some (bob ∷ [])) (run_registrations idle))
    × IsChange (run_registrations idle) (refresh (some (bob ∷ [])) (run_registrations idle))
refresh-IsRunning_example =
    refresh-IsRunning (some (bob ∷ [])) (run_registrations idle)
      (run_registrations-IsRunning idle office-IsConsistent refl)

stop_all_registrations_test :
    (stop_all_registrations (run_registrations idle)).registrar.unregistered
    ≡ alice_at 0 ∷ bob_at 1 ∷ []
unfolding stop_all_registrations run_registrations start_all start_registration lookup insert
    text_eq
stop_all_registrations_test = refl
