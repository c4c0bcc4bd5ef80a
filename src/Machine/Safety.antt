-- ===== src/Machine/Safety.antt =====
-- controller.go: what no interleaving of commands and goroutines can do.
use open_machine_core.Prelude.Outcome.{Outcome, ok, err, panic}
use open_machine_core.Machine.{MachineError, Begun, Call, start_call}
use open_machine_core.Prelude.{
  ℕ, zero, suc, ◌+◌, ◌≤◌, ◌≡◌, ◌≢◌, inl, inr, Bool, true, false, Option, some, arith, List, [], ◌∷◌,
  All, All-append, get_elem?, Option-cases, some_inj,
}
use open_machine_core.Machine.{
  State, stopped, ready, emergency, Command, home, start, stop, reset, Controller, home_call,
  Thread, calling, monitoring, producing, asking, failing, Input, answer, success, begin,
  run_thread,
}
use open_machine_core.Machine.Schedule.{World, Event, command, thread, step, run, initial, splice}

-- 1 where the machine is ready
abbrev is_ready : State → ℕ
is_ready ready = 1
is_ready _ = 0

abbrev homes : Option Thread → Input → ℕ
homes (some (monitoring id ready)) (answer success message output) = 1
homes _ _ = 0

-- 1 for an event by which a homing workflow succeeds
abbrev homed : Event → World → ℕ
homed (command cmd) w = 0
homed (thread i input) w = homes (get_elem? w.threads i) input

abbrev production_call : Option Call → ℕ
production_call (some start_call) = 1
production_call _ = 0

-- 1 for a command that was accepted and goes on to call the engine for production
abbrev calls_production : Outcome MachineError Begun → ℕ
calls_production (ok b) = production_call b.call
calls_production (err e) = 0
calls_production panic = 0

abbrev started : Event → World → ℕ
started (command cmd) w = calls_production (begin cmd w.controller)
started (thread i input) w = 0

pub homings : List Event → World → ℕ
homings [] w = 0
homings (e ∷ es) w = homed e w + homings es (step e w)

pub starts : List Event → World → ℕ
starts [] w = 0
starts (e ∷ es) w = started e w + starts es (step e w)

command-spends :
    (cmd : Command) (w : World)
    → calls_production (begin cmd w.controller)
        + is_ready (step (command cmd) w).controller.current_state
      ≤ is_ready w.controller.current_state
unfolding step begin
command-spends home w = ground arith
command-spends start w = ground arith
command-spends stop w = ground arith
command-spends reset w = ground arith
command-spends _ w = ground arith

thread-spends :
    (t : Thread) (input : Input) (c : Controller)
    → is_ready (run_thread t input c).controller.current_state
      ≤ homes (some t) input + is_ready c.current_state
unfolding run_thread
thread-spends (calling call) input c = ground arith
thread-spends (monitoring id target) input c = ground arith
thread-spends (producing id) input c = ground arith
thread-spends (asking id) input c = ground arith
thread-spends (failing message) input c = ground arith

step-spends :
    (e : Event) (w : World)
    → started e w + is_ready (step e w).controller.current_state
      ≤ homed e w + is_ready w.controller.current_state
step-spends (command cmd) w = omega (arith, command-spends cmd w)
step-spends (thread i input) w = elim (Option-cases (get_elem? w.threads i)) [
  | inl none_there ↦ unfold step in rw none_there (omega arith)
  | inr (t, there) ↦ unfold step in rw there (omega (arith, thread-spends t input w.controller))
]

starts-le-homings :
    (es : List Event) (w : World) → starts es w ≤ homings es w + is_ready w.controller.current_state
unfolding starts homings
starts-le-homings [] w = omega arith
starts-le-homings (e ∷ es) w = omega (arith, step-spends e w, starts-le-homings es (step e w))

-- However commands and goroutines interleave, from a state other than ready, commands go on to
-- start production at most as often as a homing workflow succeeded.
pub starts_need_homings :
    (es : List Event) (c : Controller)
    → c.current_state ≢ ready
    → starts es (initial c) ≤ homings es (initial c)
starts_need_homings es c h =
    let none_spare : is_ready c.current_state ≡ 0 = ground arith in
    omega (arith, starts-le-homings es (initial c), none_spare)

-- A goroutine leads to ready or to stopped, if it leads anywhere.
abbrev leads : Thread → Bool
leads (monitoring id ready) = true
leads (monitoring id stopped) = true
leads (monitoring id _) = false
leads (calling call) = true
leads (producing id) = true
leads (asking id) = true
leads (failing message) = true

abbrev Leads : Thread → Type 0
Leads t = leads t ≡ true

run_thread-Leads :
    (t : Thread) (input : Input) (c : Controller)
    → Leads t
    → All Leads (run_thread t input c).threads
unfolding run_thread
run_thread-Leads (calling home_call) input c h = ground arith
run_thread-Leads (calling _) input c h = ground arith
run_thread-Leads (monitoring id target) input c h = ground arith
run_thread-Leads (producing id) input c h = ground arith
run_thread-Leads (asking id) input c h = ground arith
run_thread-Leads (failing message) input c h = ground arith

run_thread-emergency :
    (t : Thread) (input : Input) (c : Controller)
    → Leads t
    → c.current_state ≢ emergency
    → (run_thread t input c).controller.current_state ≢ emergency
unfolding run_thread
run_thread-emergency (calling call) input c h ne = ground arith
run_thread-emergency (monitoring id target) input c h ne = ground arith
run_thread-emergency (producing id) input c h ne = ground arith
run_thread-emergency (asking id) input c h ne = ground arith
run_thread-emergency (failing message) input c h ne = ground arith

All-get_elem? :
    (ts : List Thread) (i : ℕ) {t : Thread} → All Leads ts → get_elem? ts i ≡ some t → Leads t
All-get_elem? [] i a h = cc
All-get_elem? (x ∷ ts) zero a h = rw (← some_inj h) a.0
All-get_elem? (x ∷ ts) (suc i) a h = All-get_elem? ts i a.1 h

All-splice :
    (ts : List Thread) (i : ℕ) (new : List Thread)
    → All Leads ts
    → All Leads new
    → All Leads (splice i ts new)
unfolding splice
All-splice [] i new a b = tt
All-splice (x ∷ ts) zero new a b = All-append Leads new ts b a.1
All-splice (x ∷ ts) (suc i) new a b = (a.0, All-splice ts i new a.1 b)

record Inv (w : World) : Type 0 where
  led : All Leads w.threads
  calm : w.controller.current_state ≢ emergency

command-Inv : (cmd : Command) (w : World) → Inv w → Inv (step (command cmd) w)
unfolding step begin
command-Inv home w v = ground arith
command-Inv start w v = ground arith
command-Inv stop w v = ground arith
command-Inv reset w v = ground arith
command-Inv _ w v = ground arith

step-Inv : (e : Event) (w : World) → Inv w → Inv (step e w)
step-Inv (command cmd) w v = command-Inv cmd w v
step-Inv (thread i input) w v = elim (Option-cases (get_elem? w.threads i)) [
  | inl none_there ↦ unfold step in rw none_there v
  | inr (t, there) ↦
      let leads_on = All-get_elem? w.threads i v.led there in
      unfold step in
      rw there (record {
        led = All-splice w.threads i _ v.led (run_thread-Leads t input w.controller leads_on);
        calm = run_thread-emergency t input w.controller leads_on v.calm;
      })
]

run-Inv : (es : List Event) (w : World) → Inv w → Inv (run es w)
unfolding run
run-Inv [] w v = v
run-Inv (e ∷ es) w v = run-Inv es (step e w) (step-Inv e w v)

-- The emergency state is never entered from another state, whatever commands and events there
-- are.
pub run_never_emergency :
    (es : List Event) (c : Controller)
    → c.current_state ≢ emergency
    → (run es (initial c)).controller.current_state ≢ emergency
run_never_emergency es c h = (run-Inv es (initial c) (record { led = tt; calm = h })).calm
