-- ===== src/Websocket/Runs.antt =====
-- hub.go and client.go: any sequence of events of the hub and its clients.
use open_machine_core.Prelude.{
  ℕ, zero, suc, String, List, [], ◌∷◌, ◌≡◌, refl, subst, some_inj, Option, none, some, get_elem?,
  set, All, All-append, if_rule, ltb, length, arith,
}
use open_machine_core.Prelude.Outcome.{Outcome, ok, err, panic, ◌>>=◌}
use open_machine_core.Auth.{Permission}
use open_machine_core.Websocket.{
  Client, Hub, new_client, serve_ws, deliver_to, deliver, delivered, broadcast, at, Event, connects,
  delivers, broadcasts, reads, fails_to_read, pumps, writes, fails_to_write, step, run,
  broadcast_buffer_size,
}
use open_machine_core.Websocket.Safety.{
  IsSound, IsCalm, Good, open-IsSound, pumped-Good, received-IsSound, read_failed-IsSound,
  write_pump-IsSound, write_failed-IsSound, deliver_to-Good,
}

module _ {E : Type 0} where
  abbrev pub AllSound : Hub E → Type 0
  AllSound h = All IsSound h.clients

  abbrev GoodAll : Outcome (Unit {0}) (List (Client E)) → Type 0
  GoodAll (ok cs) = All IsSound cs
  GoodAll (err e) = ⊥
  GoodAll panic = ⊥

  abbrev GoodHub : Outcome (Unit {0}) (Hub E) → Type 0
  GoodHub (ok h) = AllSound h
  GoodHub (err e) = ⊥
  GoodHub panic = ⊥

  cons-GoodAll :
      (r : Outcome (Unit {0}) (Client E)) (rest : Outcome (Unit {0}) (List (Client E)))
      → Good r
      → GoodAll rest
      → GoodAll (r >>= λ d. rest >>= λ ds. ok (d ∷ ds))
  cons-GoodAll (ok c) (ok cs) v vs = (v, vs)
  cons-GoodAll (ok c) (err e) v vs = vs
  cons-GoodAll (ok c) panic v vs = vs
  cons-GoodAll (err e) rest v vs = v
  cons-GoodAll panic rest v vs = v

  deliver-GoodAll :
      (message : E) (cs : List (Client E))
      → All IsSound cs
      → All IsCalm cs
      → GoodAll (deliver message cs)
  unfolding deliver
  deliver-GoodAll message [] v calm = tt
  deliver-GoodAll message (c ∷ cs) v calm =
      cons-GoodAll (deliver_to message c) (deliver message cs)
        (deliver_to-Good message c v.0 calm.0) (deliver-GoodAll message cs v.1 calm.1)

  clients-GoodHub :
      (r : Outcome (Unit {0}) (List (Client E))) (messages : List E) (h : Hub E)
      → GoodAll r
      → GoodHub (r >>= λ clients. ok (record h { clients = clients; broadcasts = messages }))
  clients-GoodHub (ok cs) messages h v = v
  clients-GoodHub (err e) messages h v = v
  clients-GoodHub panic messages h v = v

  delivered-GoodHub :
      (messages : List E) (h : Hub E)
      → AllSound h
      → All IsCalm h.clients
      → GoodHub (delivered messages h)
  delivered-GoodHub [] h v calm = v
  delivered-GoodHub (message ∷ messages) h v calm =
      clients-GoodHub (deliver message h.clients) messages h
        (deliver-GoodAll message h.clients v calm)

  All-set :
      (cs : List (Client E)) (i : ℕ) (c : Client E)
      → IsSound c
      → All IsSound cs
      → All IsSound (set cs i c)
  All-set [] i c v vs = tt
  All-set (d ∷ cs) zero c v vs = (v, vs.1)
  All-set (d ∷ cs) (suc i) c v vs = (vs.0, All-set cs i c v vs.1)

  pub All-get_elem? :
      (cs : List (Client E)) (i : ℕ) {c : Client E}
      → get_elem? cs i ≡ some c
      → All IsSound cs
      → IsSound c
  All-get_elem? [] i e vs = cc
  All-get_elem? (d ∷ cs) zero e vs = subst IsSound (some_inj e) vs.0
  All-get_elem? (d ∷ cs) (suc i) e vs = All-get_elem? cs i e vs.1

  set-GoodHub :
      (h : Hub E) (i : ℕ) (r : Outcome (Unit {0}) (Client E))
      → AllSound h
      → Good r
      → GoodHub (r >>= λ d. ok (record h { clients = set h.clients i d }))
  set-GoodHub h i (ok d) v g = All-set h.clients i d g v
  set-GoodHub h i (err e) v g = g
  set-GoodHub h i panic v g = g

  at-GoodHub :
      (h : Hub E) (i : ℕ) (o : Option (Client E)) (f : Client E → Outcome (Unit {0}) (Client E))
      → get_elem? h.clients i ≡ o
      → AllSound h
      → ((c : Client E) → IsSound c → Good (f c))
      → GoodHub (at h i o f)
  at-GoodHub h i none f e v good = v
  at-GoodHub h i (some c) f e v good =
      set-GoodHub h i (f c) v (good c (All-get_elem? h.clients i e v))

  -- At this event no client is dropped before the end of its handshake.
  abbrev CalmAt : Event E → Hub E → Type 0
  CalmAt delivers h = All IsCalm h.clients
  CalmAt _ h = Unit

  abbrev Then : Outcome (Unit {0}) (Hub E) → (Hub E → Type 0) → Type 0
  Then (ok h) P = P h
  Then _ P = Unit

module _ {E : Type 0} (validate_token : String → Option (List Permission)) where
  step-GoodHub :
      (e : Event E) (h : Hub E) → AllSound h → CalmAt e h → GoodHub (step validate_token e h)
  unfolding step serve_ws broadcast
  step-GoodHub connects h v calm =
      All-append IsSound h.clients (new_client ∷ []) v
        (open-IsSound new_client refl (omega arith), tt)
  step-GoodHub delivers h v calm = delivered-GoodHub h.broadcasts h v calm
  step-GoodHub (broadcasts message) h v calm =
      if_rule AllSound (ltb (length h.broadcasts) broadcast_buffer_size) _ _ (λ e. v) (λ e. v)
  step-GoodHub (reads i message) h v calm =
      at-GoodHub h i (get_elem? h.clients i) _ refl v
        (λ c s. received-IsSound validate_token message c.pump c refl s)
  step-GoodHub (fails_to_read i) h v calm =
      at-GoodHub h i (get_elem? h.clients i) _ refl v (λ c s. read_failed-IsSound c.pump c s)
  step-GoodHub (pumps i) h v calm =
      at-GoodHub h i (get_elem? h.clients i) _ refl v
        (λ c s. pumped-Good h.provider c.pump c refl s)
  step-GoodHub (writes i) h v calm =
      at-GoodHub h i (get_elem? h.clients i) _ refl v (λ c s. write_pump-IsSound c s)
  step-GoodHub (fails_to_write i) h v calm =
      at-GoodHub h i (get_elem? h.clients i) _ refl v (λ c s. write_failed-IsSound c s)

  -- Throughout a run.
  abbrev pub CalmRun : List (Event E) → Hub E → Type 0
  CalmRun [] h = Unit
  CalmRun (e ∷ es) h = CalmAt e h × Then (step validate_token e h) (CalmRun es)

  abbrev Runs : Outcome (Unit {0}) (Hub E) → Type 0
  Runs r = (h : Hub E) × (r ≡ ok h) × AllSound h

  Runs-bind :
      (r : Outcome (Unit {0}) (Hub E)) (es : List (Event E))
      → GoodHub r
      → Then r (CalmRun es)
      → ((h : Hub E) → AllSound h → CalmRun es h → Runs (run validate_token es h))
      → Runs (r >>= run validate_token es)
  Runs-bind (ok h) es g calm k = k h g calm
  Runs-bind (err e) es g calm k = absurd g
  Runs-bind panic es g calm k = absurd g

  -- From a sound hub, such as a new one, no events make the hub or a client panic as long as no
  -- client is dropped for a full buffer before the end of its handshake: they come to a sound
  -- hub.
  pub run-AllSound :
      (es : List (Event E)) (h : Hub E)
      → AllSound h
      → CalmRun es h
      → (h' : Hub E) × (run validate_token es h ≡ ok h') × AllSound h'
  unfolding run
  run-AllSound [] h v calm = (h, refl, v)
  run-AllSound (e ∷ es) h v calm =
      Runs-bind (step validate_token e h) es (step-GoodHub e h v calm.0) calm.1
        (λ h' v' calm'. run-AllSound es h' v' calm')
