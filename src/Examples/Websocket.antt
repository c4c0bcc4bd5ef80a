-- ===== src/Examples/Websocket.antt =====
-- The WebSocket hub at concrete values; messages are numbers.
use open_machine_core.Prelude.{
  ℕ, ◌≡◌, refl, List, [], ◌∷◌, ◌++◌, String, Option, none, some, true, map, get_elem?, replicate,
  arith, str_eq, if◌then◌else◌,
}
use open_machine_core.Prelude.Outcome.{ok, panic}
use open_machine_core.Auth.{Permission, perm_operator}
use open_machine_core.Websocket.{
  Client, Hub, Incoming, broadcasted, new_client, connects, delivers, broadcasts, reads, pumps,
  writes, run, send_buffer_size,
}
use open_machine_core.Websocket.Safety.{open-IsSound}
use open_machine_core.Websocket.Runs.{AllSound, run-AllSound}
use open_machine_core.Websocket.Delivery.{listening, expected, deliver_all, deliver_all-listening}
use open_machine_core.Websocket.Exposure.{run-connects, run_dropped}

abbrev validate_token : String → Option (List Permission)
validate_token token = if str_eq token "good" then some (perm_operator ∷ []) else none

abbrev hub : Hub ℕ
hub = record { clients = []; broadcasts = []; provider = true }

abbrev hello : Incoming
hello = record { message_type = some "auth"; token = some "good" }

run-AllSound_example :
    (h : Hub ℕ) × (run validate_token
        (connects
          ∷ reads 0 hello
          ∷ pumps 0
          ∷ pumps 0
          ∷ broadcasts 7
          ∷ delivers
          ∷ pumps 0
          ∷ writes 0
          ∷ [])
        hub
      ≡ ok h)
    × AllSound h
unfolding run
run-AllSound_example =
    run-AllSound validate_token
      (connects
        ∷ reads 0 hello
        ∷ pumps 0
        ∷ pumps 0
        ∷ broadcasts 7
        ∷ delivers
        ∷ pumps 0
        ∷ writes 0
        ∷ [])
      hub tt (tt, (tt, (tt, (tt, (tt, ((λ r h. omega arith, tt), (tt, (tt, tt))))))))

deliver_all-listening_example :
    deliver_all {E = ℕ} (1 ∷ 2 ∷ []) (listening [] new_client)
    ≡ ok (expected ([] ++ map broadcasted (1 ∷ 2 ∷ [])) new_client)
deliver_all-listening_example =
    deliver_all-listening {E = ℕ} (1 ∷ 2 ∷ []) [] new_client (omega arith)

run-connects_example :
    (h : Hub ℕ) × (run validate_token (connects ∷ broadcasts 7 ∷ delivers ∷ []) hub ≡ ok h)
    × (get_elem? h.clients 0 ≡ some (record new_client { buffer = broadcasted 7 ∷ [] }))
run-connects_example = run-connects validate_token 7 hub tt refl

abbrev full_client : Client ℕ
full_client = record new_client { buffer = replicate send_buffer_size (broadcasted 1) }

abbrev full_hub : Hub ℕ
full_hub = record { clients = full_client ∷ []; broadcasts = 7 ∷ []; provider = true }

run_dropped_example : run validate_token (delivers ∷ reads 0 hello ∷ pumps 0 ∷ []) full_hub ≡ panic
run_dropped_example =
    run_dropped validate_token 7 [] hello 0 full_client full_hub
      (open-IsSound full_client refl (omega arith), tt) refl refl refl refl refl refl
