-- ===== src/Gateway/Run/Served.antt =====
-- Which dialouts a run of the gateway starts.
use talk_telephony_gateway_p.Base.{
  Bool, ◌≡◌, refl, sym, ap, ◌∙◌, true, false, List, [], ◌∷◌, ◌++◌, Option, none, some,
  if◌then◌else◌, Bool-cases, ◌⊎◌, inl, inr, append_assoc, append-nil, arith, Option-cases,
}
use talk_telephony_gateway_p.Text.{Text, codes, text_eq, is_empty}
use talk_telephony_gateway_p.Text.Laws.{text_eq_iff}
use talk_telephony_gateway_p.Gateway.Run.{
  Message, Turn, message, read_failed, interrupted, RunError, Gateway, Startup, dialout_of,
  start_dialout, handle_message, unless_ended, run_loop, hang_up, idle, greet, connect, run,
}

module _ {R : Type 0} where
  dialout_entry : Text → Option R → List (Text × R)
  dialout_entry id none = []
  dialout_entry id (some request) = (id, request) ∷ []

  -- The dialouts of the messages before the first error, and before the end of the messages.
  pub requested : List (Turn R) → List (Text × R)
  requested [] = []
  requested (interrupted ∷ turns) = []
  requested (read_failed b ∷ turns) = []
  requested (message m ∷ turns) =
      let rest = requested turns in
      if text_eq m.kind (codes "error")
      then []
      else if text_eq m.kind (codes "internal")
      then dialout_entry m.id (dialout_of m) ++ rest
      else rest

  start_dialout-started :
      (id : Text) (o : Option R) (g : Gateway R)
      → (start_dialout id o g).started ≡ g.started ++ dialout_entry id o
  unfolding start_dialout dialout_entry
  start_dialout-started id none g = sym (append-nil g.started)
  start_dialout-started id (some request) g = refl

  kinds_differ :
      (m : Message R) (a b : Text)
      → text_eq a b ≡ false
      → text_eq m.kind a ≡ true
      → text_eq m.kind b ≡ false
  kinds_differ m a b ne h =
      ground (arith, ne, h, text_eq_iff a b, text_eq_iff m.kind a, text_eq_iff m.kind b)

  run_loop-requested :
      (turns : List (Turn R)) (g : Gateway R)
      → (run_loop turns g).0.started ≡ g.started ++ requested turns
  unfolding run_loop requested handle_message unless_ended text_eq
  run_loop-requested [] g = sym (append-nil g.started)
  run_loop-requested (interrupted ∷ turns) g = sym (append-nil g.started)
  run_loop-requested (read_failed true ∷ turns) g = sym (append-nil g.started)
  run_loop-requested (read_failed false ∷ turns) g = sym (append-nil g.started)
  run_loop-requested (message m ∷ turns) g = elim (Bool-cases (text_eq m.kind (codes "hello"))) [
    | inl e ↦
        rw
          (
            e,
            kinds_differ m (codes "hello") (codes "error") refl e,
            kinds_differ m (codes "hello") (codes "internal") refl e,
          )
          (run_loop-requested turns (record g { hello_ok = true }))
    | inr e ↦ elim (Bool-cases (text_eq m.kind (codes "error"))) [
      | inl f ↦ rw (e, f) (sym (append-nil g.started))
      | inr f ↦ elim (Bool-cases (text_eq m.kind (codes "internal"))) [
        | inr i ↦ rw (e, f, i) (run_loop-requested turns g)
        | inl i ↦
            rw (e, f, i)
              (run_loop-requested turns (start_dialout m.id (dialout_of m) g)
                ∙ ap (λ (l : List (Text × R)). l ++ requested turns)
                    (start_dialout-started m.id (dialout_of m) g)
                ∙ append_assoc g.started (dialout_entry m.id (dialout_of m)) (requested turns))
      ]
    ]
  ]

  start_dialout-hellos :
      (id : Text) (o : Option R) (g : Gateway R) → (start_dialout id o g).hellos ≡ g.hellos
  unfolding start_dialout
  start_dialout-hellos id none g = refl
  start_dialout-hellos id (some request) g = refl

  handle_message-hellos : (m : Message R) (g : Gateway R) → (handle_message m g).0.hellos ≡ g.hellos
  unfolding handle_message
  handle_message-hellos m g = elim (Bool-cases (text_eq m.kind (codes "hello"))) [
    | inl e ↦ rw e refl
    | inr e ↦ elim (Bool-cases (text_eq m.kind (codes "error"))) [
      | inl f ↦ rw (e, f) refl
      | inr f ↦ elim (Bool-cases (text_eq m.kind (codes "internal"))) [
        | inl i ↦ rw (e, f, i) (start_dialout-hellos m.id (dialout_of m) g)
        | inr i ↦ rw (e, f, i) refl
      ]
    ]
  ]

  unless_ended-hellos :
      (h : Gateway R × Bool) (rest : Gateway R × RunError) (l : List (Text × Text))
      → h.0.hellos ≡ l
      → rest.0.hellos ≡ l
      → (unless_ended h rest).0.hellos ≡ l
  unfolding unless_ended
  unless_ended-hellos (g, true) rest l a b = a
  unless_ended-hellos (g, false) rest l a b = b

  run_loop-hellos : (turns : List (Turn R)) (g : Gateway R) → (run_loop turns g).0.hellos ≡ g.hellos
  unfolding run_loop
  run_loop-hellos [] g = refl
  run_loop-hellos (interrupted ∷ turns) g = refl
  run_loop-hellos (read_failed true ∷ turns) g = refl
  run_loop-hellos (read_failed false ∷ turns) g = refl
  run_loop-hellos (message m ∷ turns) g =
      let h = handle_message m g in
      unless_ended-hellos h (run_loop turns h.0) g.hellos (handle_message-hellos m g)
        (run_loop-hellos turns h.0 ∙ handle_message-hellos m g)

  -- What one run of the gateway leaves: a closed connection, and on a connection that the server
  -- was greeted on, one dialout for each that was requested, in the order of the requests.
  pub record IsServed (turns : List (Turn R)) (s : Gateway R × RunError) : Type 0 where
    pub is_closed : s.0.is_open ≡ false
    pub served :
        ((s.0.hellos ≡ []) × (s.0.started ≡ []))
        ⊎ (((hello : Text × Text) × (s.0.hellos ≡ hello ∷ [])) × (s.0.started ≡ requested turns))

  module _ (startup : Startup) where
    connect-IsServed :
        (turns : List (Turn R)) (g : Gateway R)
        → g.is_open ≡ false
        → g.hellos ≡ []
        → g.started ≡ []
        → IsServed turns (connect startup turns g)
    unfolding connect hang_up greet
    connect-IsServed turns g a b c = elim (Bool-cases startup.is_connected) [
      | inr e ↦ rw (e, connect) (record { is_closed = a; served = inl (b, c) })
      | inl e ↦ elim (Option-cases startup.random) [
        | inl f ↦ rw (e, f, connect, greet) (record { is_closed = refl; served = inl (b, c) })
        | inr (rnd, f) ↦ elim (Bool-cases startup.is_written) [
          | inr i ↦ rw (e, f, i, connect, greet) (record { is_closed = refl; served = inl (b, c) })
          | inl i ↦
              rw (e, f, i, connect, greet)
                (record {
                  is_closed = refl;
                  served = inr (
                    (
                      (rnd, startup.hmac_hex startup.internal_secret rnd),
                      run_loop-hellos turns _
                          ∙ ap
                              (λ (l : List (Text × Text)).
                                l ++ (rnd, startup.hmac_hex startup.internal_secret rnd) ∷ [])
                              b,
                    ),
                    run_loop-requested turns _
                        ∙ ap (λ (l : List (Text × R)). l ++ requested turns) c,
                  );
                })
        ]
      ]
    ]

    -- A run of the gateway ends with a closed connection; and if it greeted the server, once, it has
    -- started one dialout for each that was requested before the first error message or the end of
    -- the messages, in their order, and if it did not, none.
    pub run-IsServed : (turns : List (Turn R)) → IsServed turns (run startup turns)
    unfolding run idle connect greet
    run-IsServed turns = elim (Bool-cases (is_empty startup.inbound_listen)) [
      | inl e ↦ rw e (connect-IsServed turns idle refl refl refl)
      | inr e ↦ elim (Bool-cases startup.is_listening) [
        | inl f ↦
            rw (e, f) (connect-IsServed turns (record idle { has_transport = true }) refl refl refl)
        | inr f ↦ rw (e, f) (record { is_closed = refl; served = inl (refl, refl) })
      ]
    ]
