-- ===== src/Pipeline/Settles.antt =====
-- The whole of pipeline_runtime/runner.py: no report leaves its run RUNNING.
use imece_ide.Base.{
  ℕ, String, refl, [], ◌∷◌, ◌≡◌, Option, none, some, List, Result, ok, err, Result-cases,
  Bool-cases, inl, inr, arith, subst, sym, ap, ◌∙◌,
}
use imece_ide.Run.Models.{FloatOps}
use imece_ide.Run.Events.{RunEventType}
use imece_ide.Run.Store.{get_run}
use imece_ide.Run.Store.Consistency.{IsConsistent}
use imece_ide.Run.Runtime.{Environment, RunRuntime, current_run, texts}
use imece_ide.Run.Runtime.Recorded.{record_event-Grew}
use imece_ide.Run.Completion.Gate.{Settlement}
use imece_ide.Verification.Models.{VerificationPlan}
use imece_ide.Fix.Models.{FixTrigger}
use imece_ide.Fix.Recorder.{Recorder}
use imece_ide.Fix.Task.{World, Task, on_runtime}
use imece_ide.Fix.Ports.{is_cancellation}
use imece_ide.Fix.Ensures.{
  >>=-Ensures, pure-Ensures, IsReady, Keeps, lift-Keeps, call_port-Keeps, new_id-Keeps,
}
use imece_ide.Fix.Loop.{Exceptions}
use imece_ide.Fix.Reports.{raise-Keeps, read_log-Keeps}
use imece_ide.Fix.Turns.{if-Ensures}
use imece_ide.Pipeline.Models.{PipelineReport}
use imece_ide.Pipeline.Recorder.{resumed, is_waiting_user}
use imece_ide.Pipeline.Outcome.{IsOver, Outcome, cancelled-IsOver}
use imece_ide.Pipeline.Ports.{PipelinePorts, to_pipeline_error, keep_cancelled}
use imece_ide.Pipeline.Calls.{
  detect, run_planner, render_initial_input, run_initial_worker, require_execution_completed,
}
use imece_ide.Pipeline.Keeps.{
  KeepStores, skip-Ensures, on_runtime-Ensures, tell_stage-Keeps, finish-Outcome,
}
use imece_ide.Pipeline.Ends.{settled_cancelled, Job, catch_cancelled}
use imece_ide.Pipeline.Runner.{
  run_pipeline, run_stages, continue_unverified, continue_with_plan, continue_stages,
  continue_with_feedback,
}
use imece_ide.Pipeline.Reports.{Reports, end_without_changes-Reports, advise-Reports}
use imece_ide.Pipeline.Attempts.{continue_loop-Reports, capture-Keeps, after_worker-Reports}

resumed-IsConsistent :
    ⦃fp : FloatOps⦄ ⦃env : Environment⦄ (k : String) (rt rt' : RunRuntime)
    → resumed k "user_feedback" rt ≡ ok rt'
    → IsConsistent rt.store
    → IsConsistent rt'.store
unfolding resumed current_run
resumed-IsConsistent k rt rt' h stored = elim (Result-cases (get_run k rt.store)) [
  | inr (e, a) ↦ absurd (ground arith)
  | inl (run, a) ↦ elim (Bool-cases (is_waiting_user run.status)) [
    | inr b ↦ absurd (ground arith)
    | inl b ↦
        (record_event-Grew k RunEventType.run_resumed (texts (("reason", "user_feedback") ∷ []))
            none (some k) "pipeline" (some run.last_event_seq) rt rt' (ground arith)).consistent
          stored
  ]
]

module _ {W : Type 0} ⦃fp : FloatOps⦄ ⦃env : Environment⦄ where
  resumed-Keeps : (j k : String) → Keeps {W = W} j (on_runtime (resumed k "user_feedback"))
  unfolding on_runtime
  resumed-Keeps j k w w' a p h = elim (Result-cases (resumed k "user_feedback" w.runtime)) [
    | inr (x, q) ↦ absurd (ground arith)
    | inl (rt, q) ↦
        let stored : rt ≡ w'.runtime = ground arith in
        record {
          consistent =
              subst (λ (z : RunRuntime). IsConsistent z.store) stored
                (resumed-IsConsistent k w.runtime rt q p.consistent);
          of_run =
              let same : w.recorder ≡ w'.recorder = ground arith in
              ap (λ (r : Recorder). r.run_id) (sym same) ∙ p.of_run;
        }
  ]

module _ {W : Type 0} ⦃fp : FloatOps⦄ ⦃env : Environment⦄ (ports : PipelinePorts W)
    (mode : Settlement) where
  module _ (keep : KeepStores ports) (names : Exceptions) (n : ℕ) (pins : List String) where
    run_stages-Reports :
        (j k task : String)
        → Reports ports mode (IsReady j) k (run_stages ports mode names n pins k task)
    unfolding run_stages run_planner detect render_initial_input run_initial_worker
        require_execution_completed
    run_stages-Reports j k task = >>=-Ensures _ _ (raise-Keeps ports.fix mode keep.fix j) (λ go.
        >>=-Ensures _ _ (tell_stage-Keeps ports j _ _) (λ told.
          >>=-Ensures _ _ (new_id-Keeps j) (λ plan_id.
            >>=-Ensures _ _
              (>>=-Ensures _ _
                (call_port-Keeps j keep_cancelled (ports.planner task plan_id)
                  (keep.planner task plan_id))
                (λ r.
                  >>=-Ensures _ _ (lift-Keeps j _)
                    (λ x w w' a q h. (pure-Ensures (IsReady j) r w w' a q h).1)))
              (λ plan.
                >>=-Ensures _ _
                  (call_port-Keeps j (λ e. e) ports.detect_verification_plan keep.detect)
                  (λ vp. >>=-Ensures _ _ (raise-Keeps ports.fix mode keep.fix j) (λ go2.
                    >>=-Ensures _ _ (tell_stage-Keeps ports j _ _) (λ told2.
                      >>=-Ensures _ _ (new_id-Keeps j) (λ x.
                        >>=-Ensures _ _
                          (>>=-Ensures _ _ (lift-Keeps j _) (λ preview.
                            call_port-Keeps j to_pipeline_error
                              (ports.render_initial task plan vp preview)
                              (keep.render_initial task plan vp preview)))
                          (λ input. >>=-Ensures _ _ (lift-Keeps j _) (λ request.
                            >>=-Ensures _ _
                              (>>=-Ensures _ _
                                (call_port-Keeps j keep_cancelled (ports.initial_worker request x)
                                  (keep.initial_worker request x))
                                (λ y. lift-Keeps j _))
                              (λ ran.
                                >>=-Ensures _ _
                                  (>>=-Ensures _ _ (read_log-Keeps ports.fix mode keep.fix j k)
                                    (λ y. lift-Keeps j _))
                                  (λ ended.
                                    >>=-Ensures _ _ (capture-Keeps ports mode keep names n pins j)
                                      (λ changes.
                                        if-Ensures _ _ _
                                          (after_worker-Reports ports mode keep names n pins j _
                                            changes vp)
                                          (end_without_changes-Reports ports mode _ _
                                            changes))))))))))))))

    caught-Outcome :
        (k : String) (x : Result PipelineReport × World W) (r : PipelineReport) (w' : World W)
        → ((r0 : PipelineReport) (w0 : World W)
            → x ≡ (ok r0, w0)
            → Outcome mode k r0.status w0.runtime)
        → settled_cancelled ports k x ≡ (ok r, w')
        → Outcome mode k r.status w'.runtime
    unfolding settled_cancelled
    caught-Outcome k (ok r0, w0) r w' body h = body r w' h
    caught-Outcome k (err e, w0) r w' body h = elim (Bool-cases (is_cancellation e)) [
      | inr c ↦ absurd (ground (arith, rw c at h))
      | inl c ↦
          (>>=-Ensures _ _
              (on_runtime-Ensures (λ w. Unit {0}) (λ rt. IsOver k rt.store) _ (cancelled-IsOver k))
              (λ a. finish-Outcome ports mode k _))
            w0 w' r tt (rw c at h)
    ]

    -- What catches a cancellation returns a report of a run that is over, too.
    caught-Reports :
        (P : World W → Type 0) (k : String) (m : Task W PipelineReport)
        → Reports ports mode P k m
        → Reports ports mode P k (catch_cancelled ports k m)
    unfolding catch_cancelled
    caught-Reports P k m body w w' r p h =
        caught-Outcome k (m w) r w' (λ r0 w0 e. body w w0 r0 p e) h

    -- A report of `run` tells of its run, as its status says: COMPLETED only where the gate completes
    -- runs by itself, and then the run has SUCCEEDED; EXHAUSTED, and the run has FAILED; any other, and
    -- the run is not RUNNING. A gate that awaits the user never lets the pipeline report COMPLETED.
    pub run_pipeline-Outcome :
        (k task : String) (w w' : World W) (r : PipelineReport)
        → IsConsistent w.runtime.store
        → run_pipeline ports mode names n pins k task w ≡ (ok r, w')
        → Outcome mode k r.status w'.runtime
    unfolding run_pipeline
    run_pipeline-Outcome k task w w' r stored h =
        let j = w.recorder.run_id in
        (>>=-Ensures _ _ (lift-Keeps j _) (λ a.
            >>=-Ensures _ _ (lift-Keeps j _)
              (λ b. caught-Reports (IsReady j) k _ (run_stages-Reports j k task))))
          w w' r (record { consistent = stored; of_run = refl }) h

    continue_with_plan-Reports :
        (j : String) (job : Job) (t : FixTrigger) (feedback : String) (vp : Option VerificationPlan)
        → Reports ports mode
            (IsReady j)
            job.run_id
            (continue_with_plan ports mode names n pins job t feedback vp)
    unfolding continue_with_plan continue_unverified
    continue_with_plan-Reports j job t feedback none = skip-Ensures _ _ _ (λ told.
        skip-Ensures _ _ _ (λ x. skip-Ensures _ _ _ (λ input. skip-Ensures _ _ _ (λ request.
          skip-Ensures _ _ _ (λ ran. skip-Ensures _ _ _ (λ ended. skip-Ensures _ _ _ (λ changes.
            if-Ensures _ _ _ (advise-Reports ports mode _ job _ changes)
              (end_without_changes-Reports ports mode _ job changes))))))))
    continue_with_plan-Reports j job t feedback (some plan) =
        >>=-Ensures _ _ (raise-Keeps ports.fix mode keep.fix j)
          (λ go. continue_loop-Reports ports mode keep names n pins j job _ _)

    continue_stages-Reports :
        (j k task : String) (plan : Option String) (feedback : String)
        → Reports ports mode
            (IsReady j)
            k
            (continue_stages ports mode names n pins k task plan feedback)
    unfolding continue_stages detect
    continue_stages-Reports j k task plan feedback =
        >>=-Ensures _ _ (raise-Keeps ports.fix mode keep.fix j) (λ go.
          >>=-Ensures _ _ (capture-Keeps ports mode keep names n pins j) (λ current.
            >>=-Ensures _ _ (lift-Keeps j _) (λ t. >>=-Ensures _ _ (resumed-Keeps j k) (λ a.
              >>=-Ensures _ _
                (call_port-Keeps j (λ e. e) ports.detect_verification_plan keep.detect)
                (λ vp. continue_with_plan-Reports j _ t feedback vp)))))

    -- A report of `continue_with_feedback` tells of its run just as one of `run` does.
    pub continue_with_feedback-Outcome :
        (k task : String) (plan : Option String) (feedback : String) (w w' : World W)
        (r : PipelineReport)
        → IsConsistent w.runtime.store
        → continue_with_feedback ports mode names n pins k task plan feedback w ≡ (ok r, w')
        → Outcome mode k r.status w'.runtime
    unfolding continue_with_feedback
    continue_with_feedback-Outcome k task plan feedback w w' r stored h =
        let j = w.recorder.run_id in
        (>>=-Ensures _ _ (lift-Keeps j _) (λ a. >>=-Ensures _ _ (lift-Keeps j _) (λ b.
            >>=-Ensures _ _ (lift-Keeps j _) (λ c.
              caught-Reports (IsReady j) k _ (continue_stages-Reports j k task plan feedback)))))
          w w' r (record { consistent = stored; of_run = refl }) h
