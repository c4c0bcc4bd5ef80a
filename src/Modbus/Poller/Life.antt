-- ===== src/Modbus/Poller/Life.antt =====
-- poller.go: starting and stopping.
use open_machine_core.Prelude.{◌≡◌, ◌↔◌, List, [], ◌∷◌, Bool, true, false, arith}
use open_machine_core.Prelude.Outcome.{Outcome, ok, panic, ◌>>=◌, >>=-eq-ok}
use open_machine_core.Modbus.Poller.{Poller, new_poller, start, stop}

pub data Command : Type 0 where
  start_poller stop_poller : Command

pub run_command : Command → Poller → Outcome (Unit {0}) Poller
run_command start_poller p = ok (start p)
run_command stop_poller p = stop p

unfoldable pub run : List Command → Poller → Outcome (Unit {0}) Poller
unfolding run_command
run [] p = ok p
run (c ∷ cs) p = run_command c p >>= run cs

-- At most one loop is alive, and one is whenever the poller runs.
pub record IsValid (p : Poller) : Type 0 where
  pub alive : p.running ≡ true → p.loops ≡ 1
  pub dead : p.running ≡ false → p.loops ≡ 0

pub new_poller-IsValid : IsValid new_poller
unfolding new_poller
new_poller-IsValid = ground arith

run_command-IsValid :
    (c : Command) (p p' : Poller) → IsValid p → run_command c p ≡ ok p' → IsValid p'
unfolding run_command start stop
run_command-IsValid start_poller p p' v h = ground arith
run_command-IsValid stop_poller p p' v h = ground arith

-- A poller that has one loop while it runs and none otherwise still has after any starts and
-- stops that do not panic.
pub run-IsValid : (cs : List Command) (p p' : Poller) → IsValid p → run cs p ≡ ok p' → IsValid p'
unfolding run
run-IsValid [] p p' v h = ground arith
run-IsValid (c ∷ cs) p p' v h =
    let (q, first, rest) = >>=-eq-ok (run_command c p) (run cs) h in
    run-IsValid cs q p' (run_command-IsValid c p q v first) rest

-- whether some command of the rest starts, and a later one stops
abbrev pub stops_again : Bool → List Command → Bool
stops_again started [] = false
stops_again started (start_poller ∷ cs) = stops_again true cs
stops_again true (stop_poller ∷ cs) = true
stops_again false (stop_poller ∷ cs) = stops_again false cs

-- Once the channel of a poller is closed, the poller panics exactly when it is stopped again
-- while it runs, having been started anew.
pub run_stopped :
    (cs : List Command) (p : Poller)
    → p.stop_closed ≡ true
    → (run cs p ≡ panic) ↔ (stops_again p.running cs ≡ true)
unfolding run run_command start stop
run_stopped [] p closed = ground arith
run_stopped (start_poller ∷ cs) p closed = ground (arith, run_stopped cs (start p))
run_stopped (stop_poller ∷ cs) p closed = ground (arith, run_stopped cs p)
