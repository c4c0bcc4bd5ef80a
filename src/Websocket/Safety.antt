-- ===== src/Websocket/Safety.antt =====
-- hub.go and client.go: nothing is sent to a closed channel and none is closed twice, as long as no
-- client is dropped before the end of its handshake.
use open_machine_core.Prelude.{
  ◌≤◌, ◌<◌, String, List, [], ◌∷◌, ◌++◌, ◌≡◌, refl, sym, ap, subst, ◌∙◌, Bool, true, false, not,
  Option, none, some, ltb, str_eq, length, arith, length-append, if_rule,
}
use open_machine_core.Prelude.Outcome.{Outcome, ok, err, panic}
use open_machine_core.Auth.{Permission}
use open_machine_core.Websocket.{
  Outgoing, broadcasted, Pump, reading, authorizing, failing, registering, informing, leaving,
  ended, Client, Incoming, send_buffer_size, send, register, unregister, receive, received, is_auth,
  authorized, with_token, wrote, without_first, read_failed, pumped, write_pump, write_failed,
  deliver_to,
}

-- whether `readPump` has still to send something
abbrev pub in_handshake : Pump → Bool → Bool
in_handshake reading authenticated = not authenticated
in_handshake (authorizing permissions) authenticated = true
in_handshake (failing reason) authenticated = true
in_handshake registering authenticated = true
in_handshake informing authenticated = true
in_handshake leaving authenticated = false
in_handshake ended authenticated = false

module _ {E : Type 0} where
  -- A client of the hub's map, and one whose handshake goes on, has an open channel; what is in a
  -- channel fits.
  pub record IsSound (c : Client E) : Type 0 where
    pub registered_open : c.registered ≡ true → c.closed ≡ false
    pub handshake_open : in_handshake c.pump c.authenticated ≡ true → c.closed ≡ false
    pub fits : length c.buffer ≤ send_buffer_size

  -- It returns a sound client.
  abbrev pub Good : Outcome (Unit {0}) (Client E) → Type 0
  Good (ok c) = IsSound c
  Good (err e) = ⊥
  Good panic = ⊥

  pub open-IsSound :
      (c : Client E) → c.closed ≡ false → length c.buffer ≤ send_buffer_size → IsSound c
  open-IsSound c o fits = record { registered_open = λ e. o; handshake_open = λ e. o; fits = fits }

  appended_fits :
      (message : Outgoing E) (buffer : List (Outgoing E))
      → ltb (length buffer) send_buffer_size ≡ true
      → length (buffer ++ message ∷ []) ≤ send_buffer_size
  appended_fits message buffer h = ground (arith, length-append buffer (message ∷ []), h)

  send-Good :
      (message : Outgoing E) (next : Pump) (c : Client E)
      → c.closed ≡ false
      → IsSound c
      → Good (send message next c)
  send-Good message next c o v =
      if_rule Good c.closed _ _ (λ e. cc)
        λ _.
          if_rule Good (ltb (length c.buffer) send_buffer_size) _ _
            (λ e.
              open-IsSound (record c { buffer = c.buffer ++ message ∷ []; pump = next }) o
                (appended_fits message c.buffer e))
            (λ e. v)

  unregister-Good : (c : Client E) → IsSound c → Good (unregister c)
  unfolding unregister
  unregister-Good c v =
      if_rule Good c.registered _ _
        (λ r.
          if_rule Good c.closed _ _ (λ e. cc (v.registered_open r))
            λ e. record { registered_open = λ f. cc; handshake_open = λ f. cc; fits = v.fits })
        (λ r. record { registered_open = λ e. cc; handshake_open = λ f. cc; fits = v.fits })

  pub pumped-Good :
      (provider : Bool) (pump : Pump) (c : Client E)
      → c.pump ≡ pump
      → IsSound c
      → Good (pumped provider pump c)
  unfolding register
  pumped-Good provider reading c e v = v
  pumped-Good provider (authorizing permissions) c e v =
      send-Good _ registering c (v.handshake_open (ap (λ p. in_handshake p c.authenticated) e)) v
  pumped-Good provider (failing reason) c e v =
      send-Good _ leaving c (v.handshake_open (ap (λ p. in_handshake p c.authenticated) e)) v
  pumped-Good provider registering c e v =
      open-IsSound (register c) (v.handshake_open (ap (λ p. in_handshake p c.authenticated) e))
        v.fits
  pumped-Good provider informing c e v =
      let o = v.handshake_open (ap (λ p. in_handshake p c.authenticated) e) in
      if_rule Good provider _ _ (λ _. send-Good _ reading c o v)
        (λ _. open-IsSound (record c { pump = reading }) o v.fits)
  pumped-Good provider leaving c e v = unregister-Good c v
  pumped-Good provider ended c e v = v

  pub read_failed-IsSound : (pump : Pump) (c : Client E) → IsSound c → IsSound (read_failed pump c)
  read_failed-IsSound reading c v = record {
    registered_open = v.registered_open;
    handshake_open = λ e. cc;
    fits = v.fits;
  }
  read_failed-IsSound _ c v = v

  -- The handshake's decisions leave the channel alone.
  abbrev Like : Client E → Client E → Type 0
  Like c d = (d.closed ≡ c.closed) × (d.buffer ≡ c.buffer)

  authorized-Like :
      (answer : Option (List Permission)) (c : Client E) → Like c (authorized answer c)
  authorized-Like none c = (refl, refl)
  authorized-Like (some permissions) c = (refl, refl)

  with_token-Like :
      (validate_token : String → Option (List Permission)) (token : Option String) (c : Client E)
      → Like c (with_token validate_token token c)
  with_token-Like validate_token none c = (refl, refl)
  with_token-Like validate_token (some token) c =
      if_rule (Like c) (str_eq token "") _ _ (λ e. (refl, refl))
        (λ e. authorized-Like (validate_token token) c)

  Like-IsSound : (c d : Client E) → Like c d → c.closed ≡ false → IsSound c → IsSound d
  Like-IsSound c d l o v =
      open-IsSound d (l.0 ∙ o) (subst (λ b. length b ≤ send_buffer_size) (sym l.1) v.fits)

  pub received-IsSound :
      (validate_token : String → Option (List Permission)) (message : Incoming) (pump : Pump)
      (c : Client E)
      → c.pump ≡ pump
      → IsSound c
      → IsSound (received validate_token message pump c)
  unfolding receive
  received-IsSound validate_token message reading c e v =
      if_rule IsSound c.authenticated _ _ (λ a. v)
        λ a.
          let o = v.handshake_open (ap (λ p. in_handshake p c.authenticated) e ∙ ap not a) in
          if_rule IsSound (not (is_auth message.message_type)) _ _
            (λ f. open-IsSound (record c { pump = _ }) o v.fits)
            (λ f. Like-IsSound c _ (with_token-Like validate_token message.token c) o v)
  received-IsSound validate_token message _ c e v = v

  wrote-IsSound : (buffer : List (Outgoing E)) (c : Client E) → IsSound c → IsSound (wrote buffer c)
  wrote-IsSound [] c v =
      if_rule IsSound c.closed _ _
        (λ e. record {
          registered_open = v.registered_open;
          handshake_open = v.handshake_open;
          fits = v.fits;
        })
        (λ e. v)
  wrote-IsSound (m ∷ ms) c v = record {
    registered_open = v.registered_open;
    handshake_open = v.handshake_open;
    fits = omega arith;
  }

  pub write_pump-IsSound : (c : Client E) → IsSound c → IsSound (write_pump c)
  unfolding write_pump
  write_pump-IsSound c v = if_rule IsSound c.writing _ _ (λ e. wrote-IsSound c.buffer c v) (λ e. v)

  without_first_fits : (buffer : List (Outgoing E)) → length (without_first buffer) ≤ length buffer
  without_first_fits [] = omega arith
  without_first_fits (m ∷ ms) = omega arith

  pub write_failed-IsSound : (c : Client E) → IsSound c → IsSound (write_failed c)
  unfolding write_failed
  write_failed-IsSound c v =
      if_rule IsSound c.writing _ _
        (λ e. record {
          registered_open = v.registered_open;
          handshake_open = v.handshake_open;
          fits = omega (arith, without_first_fits c.buffer, v.fits);
        })
        (λ e. v)

  -- The hub does not drop it before its handshake has ended.
  abbrev pub IsCalm : Client E → Type 0
  IsCalm c =
      c.registered ≡ true
      → in_handshake c.pump c.authenticated ≡ true
      → length c.buffer < send_buffer_size

  pub deliver_to-Good :
      (message : E) (c : Client E) → IsSound c → IsCalm c → Good (deliver_to message c)
  deliver_to-Good message c v calm =
      if_rule Good (not c.registered) _ _ (λ e. v)
        λ r.
          if_rule Good c.closed _ _ (λ e. ground (arith, v.registered_open, r, e))
            λ o.
              if_rule Good (ltb (length c.buffer) send_buffer_size) _ _
                (λ e.
                  open-IsSound (record c { buffer = c.buffer ++ broadcasted message ∷ [] }) o
                    (appended_fits (broadcasted message) c.buffer e))
                (λ e. record {
                  registered_open = λ f. cc;
                  handshake_open = λ h. ground (arith, e, r, calm, h);
                  fits = v.fits;
                })
