-- ===== src/Websocket/Exposure.antt =====
-- hub.go and client.go: what happens between the registration of a connection and its
-- authentication.
use open_machine_core.Prelude.{
  ℕ, zero, suc, String, List, [], ◌∷◌, ◌++◌, ◌≡◌, refl, sym, ap, subst, ◌∙◌, Bool, true, false, not,
  Option, none, some, some_inj, ltb, str_eq, length, get_elem?, set, if◌then◌else◌, All, arith,
  if_rule, All-append,
}
use open_machine_core.Prelude.Outcome.{Outcome, ok, panic, ◌>>=◌}
use open_machine_core.Auth.{Permission}
use open_machine_core.Websocket.{
  Outgoing, broadcasted, Pump, reading, failing, registering, leaving, Client, Hub, Incoming,
  send_buffer_size, new_client, serve_ws, send, receive, received, pumped, is_auth, authorized,
  with_token, deliver_to, deliver, delivered, broadcast, at, connects, delivers, broadcasts, reads,
  pumps, step, run,
}
use open_machine_core.Websocket.Safety.{IsSound, open-IsSound}
use open_machine_core.Websocket.Runs.{AllSound, All-get_elem?}

module _ {E : Type 0} where
  -- A delivery to a sound client does not panic.
  abbrev Delivers : E → Client E → Type 0
  Delivers message c = (d : Client E) × (deliver_to message c ≡ ok d)

  deliver_to-Delivers : (message : E) (c : Client E) → IsSound c → Delivers message c
  deliver_to-Delivers message c v =
      if_rule (λ r. (d : Client E) × (r ≡ ok d)) (not c.registered) _ _ (λ e. (_, refl))
        λ r.
          if_rule (λ r. (d : Client E) × (r ≡ ok d)) c.closed _ _
            (λ e. ground (arith, v.registered_open, r, e))
            λ o.
              if_rule (λ r. (d : Client E) × (r ≡ ok d)) (ltb (length c.buffer) send_buffer_size) _
                _ (λ e. (_, refl)) (λ e. (_, refl))

  -- The results for each client.
  abbrev AtEach : E → List (Client E) → List (Client E) → Type 0
  AtEach message cs ds =
      (i : ℕ) (c : Client E)
      → get_elem? cs i ≡ some c
      → (d : Client E) × (deliver_to message c ≡ ok d) × (get_elem? ds i ≡ some d)

  AtEach-cons :
      (message : E) (c d : Client E) (cs ds : List (Client E))
      → deliver_to message c ≡ ok d
      → AtEach message cs ds
      → AtEach message (c ∷ cs) (d ∷ ds)
  AtEach-cons message c d cs ds p each zero c' e =
      (d, ap (λ x. deliver_to message x) (sym (some_inj e)) ∙ p, refl)
  AtEach-cons message c d cs ds p each (suc i) c' e = each i c' e

  deliver_lem :
      (message : E) (cs : List (Client E))
      → All IsSound cs
      → (ds : List (Client E)) × (deliver message cs ≡ ok ds) × AtEach message cs ds
  unfolding deliver
  deliver_lem message [] v = ([], refl, λ i c e. cc)
  deliver_lem message (c ∷ cs) v =
      let (d, p) = deliver_to-Delivers message c v.0 in
      let (ds, q, each) = deliver_lem message cs v.1 in
      (
        d ∷ ds,
        ap (λ r. r >>= λ x. deliver message cs >>= λ xs. ok (x ∷ xs)) p
            ∙ ap (λ r. r >>= λ xs. ok (d ∷ xs)) q,
        AtEach-cons message c d cs ds p each,
      )

  get_elem?-last :
      (cs : List (Client E)) (c : Client E) → get_elem? (cs ++ c ∷ []) (length cs) ≡ some c
  get_elem?-last [] c = refl
  get_elem?-last (d ∷ cs) c = get_elem?-last cs c

  get_elem?-set :
      (cs : List (Client E)) (i : ℕ) (c d : Client E)
      → get_elem? cs i ≡ some c
      → get_elem? (set cs i d) i ≡ some d
  get_elem?-set [] i c d e = cc
  get_elem?-set (x ∷ cs) zero c d e = refl
  get_elem?-set (x ∷ cs) (suc i) c d e = get_elem?-set cs i c d e

  send_closed :
      (message : Outgoing E) (next : Pump) (c : Client E)
      → c.closed ≡ true
      → send message next c ≡ panic
  send_closed message next c e =
      ap
        (λ b.
          if b
          then panic
          else if ltb (length c.buffer) send_buffer_size
          then ok (record c { buffer = c.buffer ++ message ∷ []; pump = next })
          else ok c)
        e

  -- Its next operation on a channel is a send to its closed channel.
  abbrev Panics : Bool → Client E → Type 0
  Panics provider d = pumped provider d.pump d ≡ panic

  authorized-Panics :
      (provider : Bool) (answer : Option (List Permission)) (c : Client E)
      → c.closed ≡ true
      → Panics provider (authorized answer c)
  authorized-Panics provider none c e = send_closed _ leaving (authorized none c) e
  authorized-Panics provider (some permissions) c e =
      send_closed _ registering (authorized (some permissions) c) e

  with_token-Panics :
      (provider : Bool) (validate_token : String → Option (List Permission)) (token : Option String)
      (c : Client E)
      → c.closed ≡ true
      → Panics provider (with_token validate_token token c)
  with_token-Panics provider validate_token none c e =
      send_closed _ leaving (with_token validate_token none c) e
  with_token-Panics provider validate_token (some token) c e =
      if_rule (Panics provider) (str_eq token "") _ _
        (λ _. send_closed _ leaving (with_token validate_token none c) e)
        (λ _. authorized-Panics provider (validate_token token) c e)

  receive-Panics :
      (provider : Bool) (validate_token : String → Option (List Permission)) (message : Incoming)
      (c : Client E)
      → c.authenticated ≡ false
      → c.closed ≡ true
      → Panics provider (receive validate_token message c)
  unfolding receive
  receive-Panics provider validate_token message c a e =
      if_rule (Panics provider) c.authenticated _ _ (λ b. cc)
        λ _.
          if_rule (Panics provider) (not (is_auth message.message_type)) _ _
            (λ _.
              send_closed _ leaving
                (record c { pump = failing "First message must be authentication" }) e)
            (λ _. with_token-Panics provider validate_token message.token c e)

  abbrev gone : Client E → Client E
  gone c = record c { registered = false; closed = true }

  deliver_to-full :
      (message : E) (c : Client E)
      → IsSound c
      → c.registered ≡ true
      → length c.buffer ≡ send_buffer_size
      → deliver_to message c ≡ ok (gone c)
  deliver_to-full message c v r full = ground (arith, v.registered_open, r, full)

module _ {E : Type 0} (validate_token : String → Option (List Permission)) where
  abbrev Exposed : E → Hub E → Type 0
  Exposed message h =
      (h' : Hub E) × (run validate_token (connects ∷ broadcasts message ∷ delivers ∷ []) h ≡ ok h')
      × (get_elem? h'.clients (length h.clients)
          ≡ some (record new_client { buffer = broadcasted message ∷ [] }))

  exposed :
      (message : E) (cs : List (Client E)) (provider : Bool)
      → All IsSound cs
      → Exposed message (record { clients = cs; broadcasts = []; provider = provider })
  unfolding run step serve_ws broadcast
  exposed message cs provider v =
      let (ds, q, each) = deliver_lem message (cs ++ new_client ∷ []) (
        All-append IsSound cs (new_client ∷ []) v
          (open-IsSound new_client refl (omega arith), tt)) in
      let (d, p, g) = each (length cs) new_client (get_elem?-last cs new_client) in
      (
        record { clients = ds; broadcasts = []; provider = provider },
        ap
            (λ r.
              (r >>= λ clients.
              ok (record { clients = clients; broadcasts = []; provider = provider }))
              >>= λ h. ok h)
            q,
        cc (g, p),
      )

  -- In a sound hub whose broadcast queue is empty, a client that connects, and has sent nothing,
  -- has the message of the next broadcast in its buffer once the hub has delivered it, when
  -- nothing comes in between.
  pub run-connects :
      (message : E) (h : Hub E)
      → AllSound h
      → h.broadcasts ≡ []
      → (h' : Hub E) × (run validate_token (connects ∷ broadcasts message ∷ delivers ∷ []) h
          ≡ ok h')
        × (get_elem? h'.clients (length h.clients)
            ≡ some (record new_client { buffer = broadcasted message ∷ [] }))
  run-connects message h v e =
      subst (λ b. Exposed message (record h { broadcasts = b })) (sym e)
        (exposed message h.clients h.provider v)

  -- the three events, from the clients after the delivery
  dropped_panics :
      (messages : List E) (incoming : Incoming) (i : ℕ) (c : Client E) (ds : List (Client E))
      (provider : Bool)
      → get_elem? ds i ≡ some (gone c)
      → c.pump ≡ reading
      → c.authenticated ≡ false
      → run validate_token
          (reads i incoming ∷ pumps i ∷ [])
          (record { clients = ds; broadcasts = messages; provider = provider })
        ≡ panic
  unfolding run step
  dropped_panics messages incoming i c ds provider g pump fresh =
      let h : Hub E = record { clients = ds; broadcasts = messages; provider = provider } in
      let next =
        λ (o : Option (Client E)). at h i o (λ d. ok (received validate_token incoming d.pump d)) in
      let last = λ (r : Outcome (Unit {0}) (Hub E)).
        r >>= λ x. step validate_token (pumps i) x >>= λ y. ok y in
      let woken : Client E = receive validate_token incoming (gone c) in
      ap (λ o. last (next o)) g
      ∙ ap
          (λ p.
            last
              (ok (record h { clients = set ds i (received validate_token incoming p (gone c)) })))
          pump
      ∙ ap
          (λ o.
            at (record h { clients = set ds i woken }) i o (λ d. pumped provider d.pump d) >>= λ y.
            ok y)
          (get_elem?-set ds i (gone c) woken g)
      ∙ ap (λ r. (r >>= λ d. ok (record h { clients = set (set ds i woken) i d })) >>= λ y. ok y)
          (receive-Panics provider validate_token incoming (gone c) fresh refl)

  -- A client that is dropped for a full buffer before it has sent its first message makes the
  -- program panic with that message, whatever it holds.
  pub run_dropped :
      (message : E) (messages : List E) (incoming : Incoming) (i : ℕ) (c : Client E) (h : Hub E)
      → AllSound h
      → h.broadcasts ≡ message ∷ messages
      → get_elem? h.clients i ≡ some c
      → c.registered ≡ true
      → c.pump ≡ reading
      → c.authenticated ≡ false
      → length c.buffer ≡ send_buffer_size
      → run validate_token (delivers ∷ reads i incoming ∷ pumps i ∷ []) h ≡ panic
  unfolding run step
  run_dropped message messages incoming i c h v e found registered pump fresh full =
      let (ds, q, each) = deliver_lem message h.clients v in
      let (d, p, g) = each i c found in
      let rest = λ (r : Outcome (Unit {0}) (Hub E)).
        r >>= run validate_token (reads i incoming ∷ pumps i ∷ []) in
      let full_drop =
        deliver_to-full message c (All-get_elem? h.clients i found v) registered full in
      ap (λ b. rest (delivered b h)) e
      ∙ ap (λ r. rest (r >>= λ clients. ok (record h { clients = clients; broadcasts = messages })))
          q
      ∙ dropped_panics messages incoming i c ds h.provider (cc (g, p, full_drop)) pump fresh
