-- ===== src/Gateway/Run.antt =====
-- cmd/gateway/main.go: `run`, from the SIP transport to the loop over the messages of the signaling
-- server. A dialout that is started is a message's id with its payload, whose type is a parameter.
pub mod Served
use talk_telephony_gateway_p.Base.{
  ℕ, ◌+◌, ◌==◌, ◌≡◌, refl, sym, ap, ◌∙◌, Bool, true, false, List, [], ◌∷◌, ◌++◌, Option, none, some,
  if◌then◌else◌, Bool-cases, ◌⊎◌, inl, inr, append_assoc, append-nil, arith, Option-cases,
}
use talk_telephony_gateway_p.Base.Int.{ℤ, pos, negsuc}
use talk_telephony_gateway_p.Text.{Text, codes, text_eq, is_empty}
use talk_telephony_gateway_p.Text.Laws.{text_eq_iff}

-- The fields of a `serverMessage` that the loop reads; `internal` is the type of the internal
-- message with its dialout.
pub record Message (R : Type 0) : Type 0 where
  pub kind : Text
  pub id : Text
  pub internal : Option (Text × Option R)

-- What a turn of the loop finds: the context has ended, a read fails, or there is a message.
pub data Turn (R : Type 0) : Type 0 where
  interrupted : Turn R
  read_failed : (is_interrupted : Bool) → Turn R
  message : (m : Message R) → Turn R

pub data RunError : Type 0 where
  no_transport no_connection no_random not_sent cancelled read_error server_error : RunError

-- `is_registering` tells whether the registrations run, `is_open` whether the connection is open.
pub record Gateway (R : Type 0) : Type 0 where
  pub has_transport : Bool
  pub is_registering : Bool
  pub is_open : Bool
  pub hello_ok : Bool
  pub hellos : List (Text × Text)
  pub started : List (Text × R)

-- What `run` is configured with and what its calls answer; the secret's hash is a parameter.
pub record Startup : Type 0 where
  pub inbound_listen : Text
  pub internal_secret : Text
  pub is_listening : Bool
  pub is_connected : Bool
  pub is_written : Bool
  pub random : Option Text
  pub hmac_hex : Text → Text → Text

-- The ticks whose ping is written, up to the first that is not.
unfoldable pub pings : List Bool → ℕ
pings [] = 0
pings (is_written ∷ ticks) = let rest = pings ticks in if is_written then 1 + rest else 0

-- `keepaliveLoop`, with what the write of a ping answers at each tick before the end of `run`.
unfoldable pub keepalive_loop : ℤ → List Bool → ℕ
unfolding pings
keepalive_loop (pos n) ticks = if n == 0 then 0 else pings ticks
keepalive_loop (negsuc n) ticks = 0

module _ {R : Type 0} where
  -- The dialout that a message starts.
  unfoldable pub dialout_of : Message R → Option R
  unfolding text_eq
  dialout_of m = elim m.internal [
    | none ↦ none
    | some (kind, request) ↦ if text_eq kind (codes "dialout") then request else none
  ]

  unfoldable pub start_dialout : Text → Option R → Gateway R → Gateway R
  start_dialout id none g = g
  start_dialout id (some request) g = record g { started = g.started ++ (id, request) ∷ [] }

  -- One message: the gateway, and whether the loop ends.
  unfoldable pub handle_message : Message R → Gateway R → Gateway R × Bool
  unfolding text_eq
  handle_message m g =
      if text_eq m.kind (codes "hello")
      then (record g { hello_ok = true }, false)
      else if text_eq m.kind (codes "error")
      then (g, true)
      else if text_eq m.kind (codes "internal")
      then (start_dialout m.id (dialout_of m) g, false)
      else (g, false)

  -- How a message leaves the loop.
  unfoldable pub unless_ended : Gateway R × Bool → Gateway R × RunError → Gateway R × RunError
  unless_ended (g, true) rest = (g, server_error)
  unless_ended (g, false) rest = rest

  unfoldable pub run_loop : List (Turn R) → Gateway R → Gateway R × RunError
  run_loop [] g = (g, read_error)
  run_loop (interrupted ∷ turns) g = (g, cancelled)
  run_loop (read_failed true ∷ turns) g = (g, cancelled)
  run_loop (read_failed false ∷ turns) g = (g, read_error)
  run_loop (message m ∷ turns) g = let h = handle_message m g in unless_ended h (run_loop turns h.0)

  -- The deferred close.
  unfoldable pub hang_up : Gateway R × RunError → Gateway R × RunError
  hang_up (g, e) = (record g { is_open = false }, e)

  unfoldable pub idle : Gateway R
  idle = record {
    has_transport = false;
    is_registering = false;
    is_open = false;
    hello_ok = false;
    hellos = [];
    started = [];
  }

  module _ (startup : Startup) where
    -- `sendHello`, and the loop behind it.
    unfoldable pub greet : Option Text → List (Turn R) → Gateway R → Gateway R × RunError
    greet none turns g = (g, no_random)
    greet (some rnd) turns g =
        if startup.is_written
        then run_loop turns (record g {
          hellos = g.hellos ++ (rnd, startup.hmac_hex startup.internal_secret rnd) ∷ [];
        })
        else (g, not_sent)

    -- From the registrations on.
    unfoldable pub connect : List (Turn R) → Gateway R → Gateway R × RunError
    connect turns g =
        if startup.is_connected
        then hang_up
            (greet startup.random turns (record g { is_registering = true; is_open = true }))
        else (record g { is_registering = true }, no_connection)

    unfoldable pub run : List (Turn R) → Gateway R × RunError
    run turns =
        if is_empty startup.inbound_listen
        then connect turns idle
        else if startup.is_listening
        then connect turns (record idle { has_transport = true })
        else (idle, no_transport)
