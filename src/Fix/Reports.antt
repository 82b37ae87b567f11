-- ===== src/Fix/Reports.antt =====
-- FixLoopRunner.run of fix_runtime/runner.py: what a report says of the run and of the attempts.
use imece_ide.Base.{
  ℕ, zero, suc, ◌+◌, ◌≤◌, String, ◌≡◌, refl, Option, none, some, Error, Result, ok, err,
  fix_loop_cancelled, Result-cases, Bool-cases, inl, inr, arith, subst, sym, ap, ◌∙◌,
}
use imece_ide.Run.Models.{FloatOps}
use imece_ide.Run.Events.{RunEventType}
use imece_ide.Run.Runtime.{Environment, RunRuntime, current_run}
use imece_ide.Run.Store.Consistency.{IsConsistent}
use imece_ide.Run.Completion.Gate.{Settlement}
use imece_ide.Verification.Models.{report_status}
use imece_ide.Fix.Models.{FixTrigger, FixLoopRequest, FixLoopReport}
use imece_ide.Fix.Recorder.{Recorder, start, new_recorder}
use imece_ide.Fix.Task.{World, Task, pure, lift, ◌>>=◌, >>=-returned}
use imece_ide.Fix.Ports.{
  FixPorts, keep_cancellation, to_execution_error, is_cancellation, is_execution_error,
}
use imece_ide.Fix.Calls.{
  raise_if_cancelled, render_worker_input, run_worker, read_log, require_execution_completed,
}
use imece_ide.Fix.Ensures.{
  Ensures, >>=-Ensures, pure-Ensures, IsReady, Keeps, lift-Keeps, call_port-Keeps, new_id-Keeps,
}
use imece_ide.Fix.Recorded.{attempt_started-Advanced, attempt_completed-Advanced, start-Advanced}
use imece_ide.Fix.Turns.{if-Ensures, capture-Keeps, judge-Turns, verify-Keeps}
use imece_ide.Fix.Loop.{
  run, loop_id, open_recorder, guarded, handle, best_effort_interrupt, best_effort_fail, Exceptions,
}
use imece_ide.Fix.Keeps.{on_recorder-Ensures}
use imece_ide.Fix.Branches.{Turn, report, again}
use imece_ide.Fix.Runner.{attempt, run_attempts}
use imece_ide.Fix.Outcome.{KeepStore, Leaves, Tells, give_up-Turns}

module _ {W : Type 0} ⦃fp : FloatOps⦄ ⦃env : Environment⦄ (ports : FixPorts W) (mode : Settlement)
    (keep : KeepStore ports) where
  pub read_log-Keeps : (k id : String) → Keeps k (read_log {W = W} id)
  unfolding read_log
  read_log-Keeps k id w w' a p h = let same : w ≡ w' = ground arith in subst (IsReady k) same p

  pub raise-Keeps : (k : String) → Keeps k (raise_if_cancelled ports)
  unfolding raise_if_cancelled
  raise-Keeps k w w' a p h = let same : w ≡ w' = ground arith in subst (IsReady k) same p

  attempt-Leaves :
      (k id : String) (request : FixLoopRequest) (n : ℕ) (t : FixTrigger) (c : Option String)
      → Ensures (IsReady k) (attempt ports mode k id request n t c) (Leaves mode k n)
  unfolding attempt run_worker require_execution_completed render_worker_input
  attempt-Leaves k id request n t c = >>=-Ensures _ _ (raise-Keeps k) (λ go.
      >>=-Ensures _ _ (capture-Keeps ports mode keep k) (λ before.
        >>=-Ensures _ _ (new_id-Keeps k) (λ attempt_id. >>=-Ensures _ _ (new_id-Keeps k) (λ x.
          >>=-Ensures _ _
            (on_recorder-Ensures k RunEventType.fix_attempt_started _
              (attempt_started-Advanced _ _))
            (λ started.
              >>=-Ensures _ _
                (λ w w' a p h.
                  call_port-Keeps k to_execution_error (ports.render request t n c)
                    (keep.render request t n c) w w' a p.0 h)
                (λ input. >>=-Ensures _ _ (lift-Keeps k _) (λ worker_request.
                  >>=-Ensures _ _
                    (>>=-Ensures _ _
                      (call_port-Keeps k keep_cancellation (ports.worker worker_request x)
                        (keep.worker worker_request x))
                      (λ y. lift-Keeps k _))
                    (λ ran.
                      >>=-Ensures _ _ (>>=-Ensures _ _ (read_log-Keeps k k) (λ y. lift-Keeps k _))
                        (λ ended. >>=-Ensures _ _ (capture-Keeps ports mode keep k) (λ after.
                          >>=-Ensures _ _
                            (on_recorder-Ensures k RunEventType.fix_attempt_completed _
                              (attempt_completed-Advanced _ _ _))
                            (λ completed.
                              if-Ensures _ _ _
                                (>>=-Ensures _ _
                                  (λ w w' a p h.
                                    verify-Keeps ports mode keep k request after w w' a p.0 h)
                                  (λ v.
                                    judge-Turns ports mode keep
                                      (record {
                                        run_id = k;
                                        fix_loop_id = id;
                                        request = request;
                                        attempt_index = n;
                                        execution_id = x;
                                      })
                                      after.diff_sha256 v.0 v.1 v.2 (report_status v.1)))
                                (λ w w' a p h.
                                  give_up-Turns ports mode
                                    (record {
                                      run_id = k;
                                      fix_loop_id = id;
                                      request = request;
                                      attempt_index = n;
                                      execution_id = x;
                                    })
                                    "stalled" after.diff_sha256 none none w w' a p.0 h))))))))))))

  -- What a report of the loop says, where `left` attempts were left from attempt `index` on.
  abbrev Reports : String → ℕ → ℕ → FixLoopReport → World W → Type 0
  Reports k index left r w =
      Tells mode k r.status r w.runtime
      × (index ≤ r.attempts_used)
      × (r.attempts_used + 1 ≤ index + left)

  run_attempts-Reports :
      (left : ℕ) (k id : String) (request : FixLoopRequest) (index : ℕ) (t : FixTrigger)
      (c : Option String)
      → Ensures
          (IsReady k)
          (run_attempts ports mode left k id request index t c)
          (Reports k index left)
  unfolding run_attempts lift
  run_attempts-Reports zero k id request index t c = λ w w' r p h. absurd (ground arith)
  run_attempts-Reports (suc left) k id request index t c =
      >>=-Ensures _ _ (attempt-Leaves k id request index t c)
        (go (λ next classified. run_attempts-Reports left k id request (index + 1) next classified))
    where
      go :
          ((next : FixTrigger) (classified : Option String)
            → Ensures
                (IsReady k)
                (run_attempts ports mode left k id request (index + 1) next classified)
                (Reports k (index + 1) left))
          → (turn : Turn)
          → Ensures
              (Leaves mode k index turn)
              (elim turn [
                | report r ↦ pure r
                | again next classified ↦
                    run_attempts ports mode left k id request (index + 1) next classified
              ])
              (Reports k index (suc left))
      go others (report r) w w' r2 p h =
          let (same, after) = pure-Ensures (Leaves mode k index (report r)) r w w' r2 p h in
          rw same (after.0, omega (arith, after.1), omega (arith, after.1))
      go others (again next classified) w w' r p h =
          let (tells, low, high) = others next classified w w' r p h in
          (tells, omega arith, omega arith)

  -- The handlers end in an exception.
  raised :
      {A : Type 0} (m : Task W A) (e : Error) (w w' : World W) (r : FixLoopReport)
      → (m >>= λ _. lift (err e)) w ≡ (ok r, w')
      → ⊥
  unfolding lift
  raised m e w w' r h =
      let (a, w1, ran, last) = >>=-returned m (λ _. lift (err e)) w w' r h in ground arith

  handle_returned :
      (names : Exceptions) (k id : String) (x : Result FixLoopReport × World W) (r : FixLoopReport)
      (w' : World W)
      → handle ports mode names k id x ≡ (ok r, w')
      → x ≡ (ok r, w')
  unfolding handle
  handle_returned names k id (ok r0, w0) r w' h = h
  handle_returned names k id (err e, w0) r w' h = elim (Bool-cases (is_cancellation e)) [
    | inl c ↦
        absurd
          (raised (best_effort_interrupt ports mode names e) fix_loop_cancelled w0 w' r (rw c at h))
    | inr c ↦ elim (Bool-cases (is_execution_error e)) [
      | inl x ↦
          absurd (raised (best_effort_fail ports mode names k id e) e w0 w' r (rw (c, x) at h))
      | inr x ↦ absurd (ground (arith, rw (c, x) at h))
    ]
  ]

  handled :
      {P : World W → Type 0} {Q : FixLoopReport → World W → Type 0} (names : Exceptions)
      (k id : String) (m : Task W FixLoopReport)
      → Ensures P m Q
      → Ensures P (guarded ports mode names k id m) Q
  unfolding guarded
  handled names k id m body w w' r p h = body w w' r p (handle_returned names k id (m w) r w' h)

  loop_id-Keeps :
      (names : Exceptions) (k : String) (wanted : Option String)
      → Keeps k (loop_id ports mode names wanted)
  unfolding loop_id
  loop_id-Keeps names k none = new_id-Keeps k
  loop_id-Keeps names k (some id) =
      >>=-Ensures _ _ (lift-Keeps k _) (λ x w w' a q h. (pure-Ensures (IsReady k) id w w' a q h).1)

  new_recorder-run_id :
      (k id : String) (rt : RunRuntime) (r : Recorder) → new_recorder k id rt ≡ ok r → r.run_id ≡ k
  unfolding new_recorder
  new_recorder-run_id k id rt r h = elim (Result-cases (current_run k rt)) [
    | inr (e, q) ↦ absurd (ground arith)
    | inl (run, q) ↦ ground arith
  ]

  open-Ensures :
      (j k id : String) → Ensures (IsReady j) (open_recorder {W = W} k id) (λ a w. IsReady k w)
  unfolding open_recorder
  open-Ensures j k id w w' a p h = elim (Result-cases (new_recorder k id w.runtime)) [
    | inr (e, q) ↦ absurd (ground arith)
    | inl (r, q) ↦
        let kept : r ≡ w'.recorder = ground arith in
        let stored : w.runtime.store ≡ w'.runtime.store = ground arith in
        record {
          consistent = subst IsConsistent stored p.consistent;
          of_run =
              ap (λ (x : Recorder). x.run_id) (sym kept) ∙ new_recorder-run_id k id w.runtime r q;
        }
  ]

  -- A report of the loop tells the state of the run. COMPLETED: its log ends with the settlement, which
  -- names a verification, a review and the diff of the report; right before it, that verification was
  -- the latest in the log and had passed, and that review was the latest and approved exactly that
  -- diff. EXHAUSTED and FAILED: the run is FAILED. NEEDS_USER: it is RUNNING still. And the report
  -- counts at least one attempt, and no more than the request allows.
  pub run-Tells :
      (names : Exceptions) (k : String) (wanted : Option String) (request : FixLoopRequest)
      (w w' : World W) (r : FixLoopReport)
      → IsConsistent w.runtime.store
      → run ports mode names k wanted request w ≡ (ok r, w')
      → Tells mode k r.status r w'.runtime
        × (1 ≤ r.attempts_used)
        × (r.attempts_used ≤ request.max_fix_attempts)
  unfolding run
  run-Tells names k wanted request w w' r consistent h =
      let j = w.recorder.run_id in
      let (tells, low, high) =
        (>>=-Ensures _ _ (loop_id-Keeps names j wanted) (λ id.
            >>=-Ensures _ _ (capture-Keeps ports mode keep j) (λ current.
              >>=-Ensures _ _ (lift-Keeps j _) (λ fresh.
                >>=-Ensures _ _ (open-Ensures j k id) (λ opened.
                  >>=-Ensures _ _
                    (on_recorder-Ensures k RunEventType.fix_loop_started start start-Advanced)
                    (λ started. handled names k id _ (λ w1 w2 x p q.
                      run_attempts-Reports request.max_fix_attempts k id request 1 request.trigger
                        none w1 w2 x p.0 q)))))))
          w w' r (record { consistent = consistent; of_run = refl }) h in
      (tells, low, omega arith)
