-- ===== src/Workflow/Engine/Promptness.antt =====
-- engine.go: CancelExecution, and how soon the execution ends after it.
use open_machine_core.Prelude.{
  ◌+◌, ◌≤◌, List, ◌≡◌, refl, sym, subst, ap, ◌⊎◌, inl, inr, ◌∙◌, Bool, true, false, Option, none,
  some, Uuid, All, ◌==◌, if◌then◌else◌, ==_iff, arith,
}
use open_machine_core.Prelude.Outcome.{Outcome, ok, err, Gives}
use open_machine_core.Prelude.Maps.{
  lookup_id, insert_id, lookup_id-insert_id, EachEntry-lookup_id, OfSome,
}
use open_machine_core.Types.{Float64}
use open_machine_core.Workflow.Validator.Device.{Env}
use open_machine_core.Workflow.Engine.Runs.{IsFinal, Unfinished}
use open_machine_core.Workflow.Engine.{RunState}
use open_machine_core.Workflow.Engine.Running.{
  Phase, starting, looping, entering, executing, leaving, gone, Entry, Executions, cancelled,
  CancelError, not_running, cancel_found, cancel_execution, Event, run_events,
}
use open_machine_core.Workflow.Engine.Stored.{
  IsSound, AllSound, Returns, Phased, HasEnded, cancel_execution-AllSound, run_events-AllSound,
}
use open_machine_core.Workflow.Engine.Cancelling.{
  begun, turns_left, turns_of, recorded, recorded_of, run_events-Follows,
}

two_le_zero : 2 ≤ 0 → ⊥
two_le_zero h = omega arith

one_le_zero : 1 ≤ 0 → ⊥
one_le_zero h = omega arith

three_le_zero : 3 ≤ 0 → ⊥
three_le_zero h = omega arith

module _ {F : Type 0} where
  -- The entry that a cancellation found, and its map afterwards.
  abbrev Cancelled : Uuid → Option (Entry F) → Executions F → Executions F → Type 0
  Cancelled id o es es' = (en : Entry F) × (o ≡ some en) × (lookup_id id es' ≡ some (cancelled en))

  cancel_found-Cancelled :
      (id : Uuid) (o : Option (Entry F)) (es es' : Executions F)
      → cancel_found id o es ≡ (es', ok tt)
      → Cancelled id o es es'
  cancel_found-Cancelled id none es es' h = cc
  cancel_found-Cancelled id (some en) es es' h = cancelled_lem en.registered h
    where
      same : id == id ≡ true
      same = (==_iff id id).1 refl

      cancelled_lem :
          (b : Bool)
          → ◌≡◌ {A = Executions F × Outcome CancelError (Unit {0})}
              (if b then (insert_id id (cancelled en) es, ok tt) else (es, err not_running))
              (es', ok tt)
          → Cancelled id (some en) es es'
      cancelled_lem true t =
          subst (λ (x : Executions F). Cancelled id (some en) es x)
            (ap (λ (r : Executions F × Outcome CancelError (Unit {0})). r.0) t)
            (en, refl, lookup_id-insert_id id id (cancelled en) es ∙ rw same refl)
      cancelled_lem false t = cc

  begun_bound : (p : Phase F) → begun p ≤ 1
  begun_bound (starting steps) = omega arith
  begun_bound (looping index steps) = omega arith
  begun_bound (entering index st steps) = omega arith
  begun_bound (executing index st steps) = omega arith
  begun_bound leaving = omega arith
  begun_bound gone = omega arith

  turns_left_bound : (p : Phase F) → turns_left p ≤ 3
  turns_left_bound (starting steps) = omega arith
  turns_left_bound (looping index steps) = omega arith
  turns_left_bound (entering index st steps) = omega arith
  turns_left_bound (executing index st steps) = omega arith
  turns_left_bound leaving = omega arith
  turns_left_bound gone = omega arith

  -- The goroutine is past its last write.
  abbrev HasReturned : Phase F → Type 0
  HasReturned (starting steps) = ⊥
  HasReturned (looping index steps) = ⊥
  HasReturned (entering index step steps) = ⊥
  HasReturned (executing index step steps) = ⊥
  HasReturned leaving = Unit
  HasReturned gone = Unit

  -- What a cancellation leaves of an execution: it has ended with a final status and a completion
  -- time, but its stored row is still the one of before; unless the goroutine had returned
  -- before, that row does not say that the execution has ended.
  pub record EndedUnstored (before en : Entry F) : Type 0 where
    pub has_returned : HasReturned en.phase
    pub final : IsFinal en.run.exec.status
    pub complete : en.run.exec.completed ≡ true
    pub updates : en.run.updates ≡ before.run.updates
    pub unstored : HasReturned before.phase ⊎ Unfinished en.run.updates

  returned :
      (p : Phase F) (registered : Bool) (s : RunState F)
      → turns_left p ≤ 0
      → Phased p registered s
      → HasReturned p × HasEnded s
  returned (starting steps) registered s n h = absurd (two_le_zero n)
  returned (looping index steps) registered s n h = absurd (one_le_zero n)
  returned (entering index st steps) registered s n h = absurd (three_le_zero n)
  returned (executing index st steps) registered s n h = absurd (two_le_zero n)
  returned leaving registered s n h = (tt, h.1)
  returned gone registered s n h = (tt, h.1)

  unstored_before :
      (p : Phase F) (registered : Bool) (s : RunState F)
      → Phased p registered s
      → HasReturned p ⊎ Unfinished s.updates
  unstored_before (starting steps) registered s h = inr (inl h.1.0)
  unstored_before (looping index steps) registered s h = inr h.1.0
  unstored_before (entering index st steps) registered s h = inr h.1.0
  unstored_before (executing index st steps) registered s h = inr h.1.0
  unstored_before leaving registered s h = inl tt
  unstored_before gone registered s h = inl tt

  ended_unstored :
      (before en : Entry F)
      → Phased before.phase before.registered before.run
      → Phased en.phase en.registered en.run
      → turns_left en.phase ≤ 0
      → en.run.updates ≡ before.run.updates
      → EndedUnstored before en
  ended_unstored before en k h n u =
      let (r, ended) = returned en.phase en.registered en.run n h in
      record {
        has_returned = r;
        final = ended.0;
        complete = ended.1;
        updates = u;
        unstored =
            subst (λ us. HasReturned before.phase ⊎ Unfinished us) (sym u)
              (unstored_before before.phase before.registered before.run k);
      }

module _ (fl : Float64) (env : Env fl.F) where
  open fl use {F}

  -- After CancelExecution returned no error, the execution records at most one step more,
  -- whatever follows.
  pub recorded-run_events :
      (id : Uuid) (es es' after : Executions F) (evs : List (Event F))
      → cancel_execution id es ≡ (es', ok tt)
      → run_events fl env evs es' ≡ ok after
      → recorded id after ≤ recorded id es + 1
  unfolding cancel_execution
  recorded-run_events id es es' after evs h t =
      let (en, q, q') = cancel_found-Cancelled id (lookup_id id es) es es' h in
      let (last, l, n) = run_events-Follows fl env id evs _ es' after q' refl t in
      omega (arith, ap recorded_of l, ap recorded_of q, n.steps, begun_bound en.phase)

  -- When CancelExecution returns no error, three more turns of the execution's goroutine end it
  -- with a final status and a completion time, wherever it stood and whatever else happens in
  -- between, as long as the executor does not panic; but the stored row stays as it was before,
  -- and unless the goroutine had returned by then, it does not say that the execution has ended.
  pub cancel_execution-EndedUnstored :
      (id : Uuid) (es es' : Executions F) (evs : List (Event F))
      → AllSound es
      → All Returns evs
      → cancel_execution id es ≡ (es', ok tt)
      → 3 ≤ turns_of id evs
      → Gives
          (λ after.
            (before : Entry F) × (en : Entry F) × (lookup_id id es ≡ some before)
            × (lookup_id id after ≡ some en)
            × EndedUnstored before en)
          (run_events fl env evs es')
  unfolding cancel_execution
  cancel_execution-EndedUnstored id es es' evs v r h n =
      let (en, q, q') = cancel_found-Cancelled id (lookup_id id es) es es' h in
      let sound : AllSound es' =
        subst AllSound (ap (λ (c : Executions F × _). c.0) h) (cancel_execution-AllSound id es v) in
      let (after, t, w) = run_events-AllSound fl env evs es' r sound in
      let (last, l, near) = run_events-Follows fl env id evs _ es' after q' refl t in
      (
        after,
        t,
        (
          en,
          last,
          q,
          l,
          ended_unstored en last (subst (OfSome IsSound) q (EachEntry-lookup_id IsSound id es v))
              (subst (OfSome IsSound) l (EachEntry-lookup_id IsSound id after w))
              (omega (arith, near.turns, turns_left_bound en.phase, n)) near.updates,
        ),
      )
