-- ===== src/Websocket/Delivery.antt =====
-- hub.go: what a client gets of the messages that the hub delivers.
use open_machine_core.Prelude.{
  ◌≤◌, List, [], ◌∷◌, ◌++◌, ◌≡◌, refl, sym, ap, ◌∙◌, Bool, true, false, not, ltb, leb, length, take,
  map, if◌then◌else◌, arith, append-nil, append_assoc, length-append, take_all, Bool-cases, inl,
  inr,
}
use open_machine_core.Prelude.Outcome.{Outcome, ok, panic, ◌>>=◌}
use open_machine_core.Prelude.Channels.{take_append_full}
use open_machine_core.Websocket.{Outgoing, broadcasted, Client, send_buffer_size, deliver_to}

module _ {E : Type 0} where
  -- Messages delivered one after another, while the client's channel is not read.
  unfoldable pub deliver_all : List E → Client E → Outcome (Unit {0}) (Client E)
  deliver_all [] c = ok c
  deliver_all (m ∷ ms) c = deliver_to m c >>= deliver_all ms

  deliver_all_gone : (ms : List E) (c : Client E) → c.registered ≡ false → deliver_all ms c ≡ ok c
  unfolding deliver_all
  deliver_all_gone [] c h = refl
  deliver_all_gone (m ∷ ms) c h =
      ap
        (λ b.
          (let r : Outcome (Unit {0}) (Client E) =
              if not b
              then ok c
              else if c.closed
              then panic
              else if ltb (length c.buffer) send_buffer_size
              then ok (record c { buffer = c.buffer ++ broadcasted m ∷ [] })
              else ok (record c { registered = false; closed = true }) in
            r >>= deliver_all ms))
        h
      ∙ deliver_all_gone ms c h

  -- a client of the hub's map
  abbrev pub listening : List (Outgoing E) → Client E → Client E
  listening buffer c = record c { registered = true; closed = false; buffer = buffer }

  abbrev pub dropped : List (Outgoing E) → Client E → Client E
  dropped buffer c = record c { registered = false; closed = true; buffer = buffer }

  -- What should come of messages that are queued in a channel.
  abbrev pub expected : List (Outgoing E) → Client E → Client E
  expected all c =
      if leb (length all) send_buffer_size
      then listening all c
      else dropped (take send_buffer_size all) c

  expected_fits :
      (all : List (Outgoing E)) (c : Client E)
      → leb (length all) send_buffer_size ≡ true
      → expected all c ≡ listening all c
  expected_fits all c e =
      ap (λ b. if b then listening all c else dropped (take send_buffer_size all) c) e

  expected_full :
      (all : List (Outgoing E)) (c : Client E)
      → leb (length all) send_buffer_size ≡ false
      → expected all c ≡ dropped (take send_buffer_size all) c
  expected_full all c e =
      ap (λ b. if b then listening all c else dropped (take send_buffer_size all) c) e

  -- An open client of the hub's map that does not read its channel gets the messages in order;
  -- when they do not all fit, it gets as many as fit, and is then dropped and its channel closed.
  pub deliver_all-listening :
      (ms : List E) (buffer : List (Outgoing E)) (c : Client E)
      → length buffer ≤ send_buffer_size
      → deliver_all ms (listening buffer c) ≡ ok (expected (buffer ++ map broadcasted ms) c)
  unfolding deliver_all
  deliver_all-listening [] buffer c h =
      ap (λ d. ok d)
        (sym (
          ap (λ all. expected all c) (append-nil buffer)
          ∙ expected_fits buffer c (ground (arith, h))))
  deliver_all-listening (m ∷ ms) buffer c h =
      let x = broadcasted m in
      let after = λ (b : Bool).
        (if b then ok (listening (buffer ++ x ∷ []) c) else ok (dropped buffer c))
        >>= deliver_all ms in
      let all : List (Outgoing E) = buffer ++ (x ∷ map broadcasted ms) in
      elim (Bool-cases (ltb (length buffer) send_buffer_size)) [
        | inl e ↦
            ap after e
            ∙ deliver_all-listening ms (buffer ++ x ∷ []) c
                (ground (arith, e, length-append buffer (x ∷ [])))
            ∙ ap (λ xs. ok (expected xs c)) (append_assoc buffer (x ∷ []) (map broadcasted ms))
        | inr e ↦
            ap after e
            ∙ deliver_all_gone ms (dropped buffer c) refl
            ∙ ap (λ d. ok d)
                (sym (
                  expected_full all c
                    (ground (arith, e, h, length-append buffer (x ∷ map broadcasted ms)))
                  ∙ ap (λ b. dropped b c)
                      (take_append_full send_buffer_size buffer (x ∷ map broadcasted ms)
                          (ground (arith, e))
                        ∙ take_all send_buffer_size buffer h)))
      ]
