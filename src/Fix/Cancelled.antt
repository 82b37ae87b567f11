-- ===== src/Fix/Cancelled.antt =====
-- What a cancellation leaves of a fix loop: _best_effort_interrupt of fix_runtime/runner.py.
use imece_ide.Base.{
  String, Bool, true, ◌≡◌, inl, inr, refl, subst, ◌∙◌, Error, Result, ok, err, Result-cases,
  Bool-cases, arith, fix_loop_cancelled,
}
use imece_ide.Run.Models.{FloatOps, RunStatus}
use imece_ide.Run.Events.{RunEventType}
use imece_ide.Run.Projector.Laws.{status_after}
use imece_ide.Run.Runtime.{Environment, RunRuntime}
use imece_ide.Run.Completion.Gate.{Settlement}
use imece_ide.Fix.Recorder.{Recorder, interrupted, is_active}
use imece_ide.Fix.Task.{World, Task, lift, on_recorder, ◌>>=◌}
use imece_ide.Fix.Ports.{FixPorts, is_cancellation}
use imece_ide.Fix.Loop.{Exceptions, best_effort, and_then, if_active, best_effort_interrupt, handle}
use imece_ide.Fix.Recorded.{Wrote, Advanced, append_terminal-Advanced, attempt_interrupted-Advanced}
use imece_ide.Fix.Keeps.{HasStatus, Wrote-HasStatus}

module _ ⦃fp : FloatOps⦄ ⦃env : Environment⦄ {W : Type 0} where
  -- Run `k` is RUNNING, and the recorder writes to it.
  abbrev Running : String → World W → Type 0
  Running k w = (w.recorder.run_id ≡ k) × HasStatus k w.runtime.store RunStatus.running

  -- A task that leaves the run RUNNING, whatever it ends in.
  abbrev LeavesRunning : {A : Type 0} → String → Task W A → Type 0
  LeavesRunning k m = (w : World W) → Running k w → Running k (m w).1

  on_recorder-LeavesRunning :
      (k : String) (type : RunEventType)
      (op : Recorder → RunRuntime → Result (Recorder × RunRuntime))
      → ((r r' : Recorder) (rt rt' : RunRuntime)
          → op r rt ≡ ok (r', rt')
          → Advanced type r r' rt rt')
      → status_after type RunStatus.running ≡ RunStatus.running
      → LeavesRunning k (on_recorder op)
  unfolding on_recorder
  on_recorder-LeavesRunning k type op adv keeps w p =
      elim (Result-cases (op w.recorder w.runtime)) [
        | inr (e, q) ↦ rw (q, on_recorder) p
        | inl ((r, rt), q) ↦
            let x = adv w.recorder r w.runtime rt q in
            let y = subst (λ j. Wrote j type w.runtime rt) p.0 x.wrote in
            rw (q, on_recorder)
              (
                x.same_run ∙ p.0,
                subst (HasStatus k rt.store) keeps (Wrote-HasStatus k type w.runtime rt y),
              )
      ]

  >>=-LeavesRunning :
      {A B : Type 0} (k : String) (m : Task W A) (f : A → Task W B)
      → LeavesRunning k m
      → ((a : A) → LeavesRunning k (f a))
      → LeavesRunning k (m >>= f)
  unfolding ◌>>=◌
  >>=-LeavesRunning k m f first rest w p = elim (Result-cases (m w).0) [
    | inr (e, q) ↦
        let same : (m w).1 ≡ ((m >>= f) w).1 = ground arith in subst (Running k) same (first w p)
    | inl (a, q) ↦
        let same : (f a (m w).1).1 ≡ ((m >>= f) w).1 = ground arith in
        subst (Running k) same (rest a (m w).1 (first w p))
  ]

  lift-LeavesRunning : {A : Type 0} (k : String) (r : Result A) → LeavesRunning k (lift r)
  unfolding lift
  lift-LeavesRunning k r w p = p

  then_raises :
      {A B : Type 0} (m : Task W A) (e : Error) (w : World W)
      → (x : Error) × (((m >>= λ _. lift {A = B} (err e)) w).0 ≡ err x)
  unfolding ◌>>=◌ lift
  then_raises m e w = elim (Result-cases (m w).0) [
    | inr (x, q) ↦ (x, ground arith)
    | inl (a, q) ↦ (e, ground arith)
  ]

  best_effort-LeavesRunning :
      (k : String) (m : Task W (Unit {0})) → LeavesRunning k m → LeavesRunning k (best_effort m)
  unfolding best_effort
  best_effort-LeavesRunning k m first w p =
      let same : (m w).1 ≡ (best_effort m w).1 = elim (Result-cases (m w).0) [
        | inr (e, q) ↦ ground arith
        | inl (a, q) ↦ ground arith
      ] in
      subst (Running k) same (first w p)

  if_active-LeavesRunning :
      (k : String) (m : Task W (Unit {0})) → LeavesRunning k m → LeavesRunning k (if_active m)
  unfolding if_active
  if_active-LeavesRunning k m first w p =
      elim (Bool-cases (is_active w.recorder.active_attempt_index)) [
        | inl q ↦ rw (q, if_active) (first w p)
        | inr q ↦ rw (q, if_active) p
      ]

  and_then-LeavesRunning :
      (k : String) (m n : Task W Bool)
      → LeavesRunning k m
      → LeavesRunning k n
      → LeavesRunning k (and_then m n)
  unfolding and_then
  and_then-LeavesRunning k m n first second =
      >>=-LeavesRunning k m _ first
        (λ go_on w p. elim (Bool-cases go_on) [ inl q ↦ rw q (second w p) | inr q ↦ rw q p ])

  module _ (ports : FixPorts W) (mode : Settlement) (names : Exceptions) where
    interrupt-LeavesRunning :
        (k : String) (e : Error) → LeavesRunning k (best_effort_interrupt ports mode names e)
    unfolding best_effort_interrupt interrupted
    interrupt-LeavesRunning k e =
        and_then-LeavesRunning k _ _
          (best_effort-LeavesRunning k _ (
            if_active-LeavesRunning k _ (
              on_recorder-LeavesRunning k RunEventType.fix_attempt_interrupted _
                (attempt_interrupted-Advanced _ _) refl)))
          (best_effort-LeavesRunning k _ (
            on_recorder-LeavesRunning k RunEventType.fix_loop_interrupted _
              (append_terminal-Advanced RunEventType.fix_loop_interrupted _) refl))

    -- Whatever is cancelled in a loop on a RUNNING run, the settling of the loop's own trail leaves the run
    -- RUNNING, so that the pipeline can record `run.cancelled`; and the loop does not return a report.
    pub handle-Running :
        (k id : String) (e : Error) (w : World W)
        → is_cancellation e ≡ true
        → w.recorder.run_id ≡ k
        → HasStatus k w.runtime.store RunStatus.running
        → HasStatus k (handle ports mode names k id (err e, w)).1.runtime.store RunStatus.running
          × ((x : Error) × ((handle ports mode names k id (err e, w)).0 ≡ err x))
    unfolding handle
    handle-Running k id e w c r p = rw c (
      (>>=-LeavesRunning k (best_effort_interrupt ports mode names e) _
          (interrupt-LeavesRunning k e)
          (λ _ w1 q. lift-LeavesRunning k (err fix_loop_cancelled) w1 q) w (r, p)).1,
      then_raises (best_effort_interrupt ports mode names e) fix_loop_cancelled w,
    )
