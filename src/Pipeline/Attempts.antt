-- ===== src/Pipeline/Attempts.antt =====
-- The first attempt in pipeline_runtime/runner.py, from its verification on, and its reports.
use imece_ide.Base.{ℕ, String, ◌≡◌, Option, none, some, List, Result-cases, inl, inr, arith, subst}
use imece_ide.Run.Models.{FloatOps}
use imece_ide.Run.Runtime.{Environment, RunRuntime}
use imece_ide.Run.Completion.Gate.{Settlement, complete_reviewed}
use imece_ide.Run.Completion.Settlement.{settled_status}
use imece_ide.Run.Completion.Reviewed.{complete_reviewed-IsSettled}
use imece_ide.Verification.Models.{VerificationPlan, VerificationReport}
use imece_ide.Review.{ReviewReport}
use imece_ide.Fix.Models.{FixLoopRequest}
use imece_ide.Fix.Task.{on_runtime}
use imece_ide.Fix.Ports.{WorkspaceChangeSet}
use imece_ide.Fix.Ensures.{
  Ensures, >>=-Ensures, pure-Ensures, IsReady, Keeps, lift-Keeps, call_port-Keeps, new_id-Keeps,
}
use imece_ide.Fix.Keeps.{HasStatus}
use imece_ide.Fix.Loop.{Exceptions}
use imece_ide.Fix.Reports.{raise-Keeps}
use imece_ide.Fix.Turns.{if-Ensures}
use imece_ide.Pipeline.Outcome.{IsOver, failed-IsOver}
use imece_ide.Pipeline.Ports.{PipelinePorts, to_pipeline_error, keep_cancelled}
use imece_ide.Pipeline.Calls.{capture, run_verification, build_review_request, run_reviewer}
use imece_ide.Pipeline.Keeps.{KeepStores, Of, on_runtime-Ensures, tell_stage-Keeps, finish-Outcome}
use imece_ide.Pipeline.Ends.{Job, run_fix_loop, continue_fix_loop}
use imece_ide.Pipeline.Runner.{after_worker, verify_attempt, review_attempt, after_approval}
use imece_ide.Pipeline.Reports.{Reports, advise-Reports, gate-Outcome, hand_over-Reports}

module _ {W : Type 0} ⦃fp : FloatOps⦄ ⦃env : Environment⦄ (ports : PipelinePorts W)
    (mode : Settlement) where
  -- `complete_reviewed`, and the status that it leaves.
  settle-Ensures :
      (j k vid rid diff : String)
      → Ensures {W = W}
          (IsReady j)
          (on_runtime (complete_reviewed mode k vid rid diff))
          (λ a. Of (λ rt. HasStatus k rt.store (settled_status mode)))
  unfolding on_runtime
  settle-Ensures j k vid rid diff w w' a p h =
      elim (Result-cases (complete_reviewed mode k vid rid diff w.runtime)) [
        | inr (x, q) ↦ absurd (ground arith)
        | inl (rt, q) ↦
            let (t, x, settled, approved) =
              complete_reviewed-IsSettled mode k vid rid diff w.runtime rt p.consistent q in
            let stored : rt ≡ w'.runtime = ground arith in
            subst (λ (z : RunRuntime). HasStatus k z.store (settled_status mode)) stored
              (record { run = settled.after; found = settled.now; is = settled.status })
      ]

  module _ (keep : KeepStores ports) (names : Exceptions) (n : ℕ) (pins : List String) where
    pub capture-Keeps : (j : String) → Keeps j (capture ports)
    unfolding capture
    capture-Keeps j = call_port-Keeps j to_pipeline_error ports.fix.capture keep.fix.capture

    after_approval-Reports :
        (j : String) (job : Job) (vid rid : String) (v : VerificationReport) (r : ReviewReport)
        → Reports ports mode
            (IsReady j)
            job.run_id
            (after_approval ports mode names n pins job vid rid v r)
    unfolding after_approval
    after_approval-Reports j job vid rid v r = >>=-Ensures _ _ (capture-Keeps j) (λ final.
        if-Ensures _ _ _
          (>>=-Ensures _ _ (settle-Ensures j job.run_id vid rid final.diff_sha256) (λ a.
            >>=-Ensures _ _ (gate-Outcome ports mode job.run_id)
              (λ st. finish-Outcome ports mode job.run_id _)))
          (>>=-Ensures _ _
            (on_runtime-Ensures _ (λ rt. IsOver job.run_id rt.store) _
              (failed-IsOver job.run_id "workspace_changed_after_review" none))
            (λ a. finish-Outcome ports mode job.run_id _)))

    pub fix_loop-Reports :
        (j : String) (job : Job) (request : FixLoopRequest)
        → Reports ports mode (IsReady j) job.run_id (run_fix_loop ports mode names job request)
    unfolding run_fix_loop
    fix_loop-Reports j job request = >>=-Ensures _ _ (tell_stage-Keeps ports j _ _) (λ told.
        >>=-Ensures _ _ (lift-Keeps j _) (λ checked w w' r p h.
          hand_over-Reports ports mode keep names job job.task checked w w' r p.consistent h))

    pub continue_loop-Reports :
        (j : String) (job : Job) (task : String) (request : FixLoopRequest)
        → Reports ports mode
            (IsReady j)
            job.run_id
            (continue_fix_loop ports mode names job task request)
    unfolding continue_fix_loop
    continue_loop-Reports j job task request = >>=-Ensures _ _ (lift-Keeps j _) (λ checked.
        >>=-Ensures _ _ (tell_stage-Keeps ports j _ _) (λ told w w' r p h.
          hand_over-Reports ports mode keep names job task checked w w' r p.consistent h))

    run_verification-Keeps :
        (j : String) (p : VerificationPlan) (id : String) → Keeps j (run_verification ports p id)
    unfolding run_verification
    run_verification-Keeps j p id =
        >>=-Ensures _ _
          (call_port-Keeps j keep_cancelled (ports.fix.verification p id)
            (keep.fix.verification p id))
          (λ r.
            >>=-Ensures _ _ (lift-Keeps j _)
              (λ x w w' a q h. (pure-Ensures (IsReady j) r w w' a q h).1))

    review_attempt-Reports :
        (j : String) (job : Job) (plan : VerificationPlan) (vid : String) (v : VerificationReport)
        → Reports ports mode
            (IsReady j)
            job.run_id
            (review_attempt ports mode names n pins job plan vid v)
    unfolding review_attempt run_reviewer build_review_request
    review_attempt-Reports j job plan vid v =
        >>=-Ensures _ _ (raise-Keeps ports.fix mode keep.fix j) (λ go.
          >>=-Ensures _ _ (tell_stage-Keeps ports j _ _) (λ told.
            >>=-Ensures _ _ (capture-Keeps j) (λ changes.
              >>=-Ensures _ _ (lift-Keeps j _) (λ request. >>=-Ensures _ _ (new_id-Keeps j) (λ rid.
                >>=-Ensures _ _
                  (call_port-Keeps j keep_cancelled (ports.fix.reviewer request rid)
                    (keep.fix.reviewer request rid))
                  (λ review.
                    if-Ensures _ _ _
                      (>>=-Ensures _ _ (lift-Keeps j _) (λ t. fix_loop-Reports j job _))
                      (after_approval-Reports j job vid rid v review)))))))

    verify_attempt-Reports :
        (j : String) (job : Job) (plan : VerificationPlan)
        → Reports ports mode
            (IsReady j)
            job.run_id
            (verify_attempt ports mode names n pins job plan)
    unfolding verify_attempt
    verify_attempt-Reports j job plan =
        >>=-Ensures _ _ (raise-Keeps ports.fix mode keep.fix j) (λ go.
          >>=-Ensures _ _ (tell_stage-Keeps ports j _ _) (λ told.
            >>=-Ensures _ _ (new_id-Keeps j) (λ vid.
              >>=-Ensures _ _ (run_verification-Keeps j plan vid) (λ v.
                if-Ensures _ _ _ (review_attempt-Reports j job plan vid v)
                  (>>=-Ensures _ _ (lift-Keeps j _) (λ t. fix_loop-Reports j job _))))))

    pub after_worker-Reports :
        (j : String) (job : Job) (c : WorkspaceChangeSet) (plan : Option VerificationPlan)
        → Reports ports mode
            (IsReady j)
            job.run_id
            (after_worker ports mode names n pins job c plan)
    unfolding after_worker
    after_worker-Reports j job c none = advise-Reports ports mode _ job job.task c
    after_worker-Reports j job c (some plan) = verify_attempt-Reports j job plan
