-- ===== src/Pipeline/Reports.antt =====
-- The reports of pipeline_runtime/runner.py, and what they say of the run.
use imece_ide.Base.{String, ◌≡◌, none, ok, arith, if◌then◌else◌, refl, subst, ap, ◌∙◌}
use imece_ide.Run.Models.{FloatOps, RunRecord, RunStatus}
use imece_ide.Run.Store.{get_run}
use imece_ide.Run.Store.Consistency.{IsConsistent}
use imece_ide.Run.Runtime.{Environment, RunRuntime, current_run}
use imece_ide.Run.Completion.Gate.{Settlement, complete, await_user}
use imece_ide.Run.Completion.Settlement.{settled_status}
use imece_ide.Fix.Models.{FixLoopStatus, FixLoopReport, FixLoopRequest}
use imece_ide.Fix.Task.{World, Task}
use imece_ide.Fix.Ensures.{Ensures, >>=-Ensures}
use imece_ide.Fix.Keeps.{HasStatus}
use imece_ide.Fix.Outcome.{Tells}
use imece_ide.Fix.Loop.{Exceptions}
use imece_ide.Fix.Reports.{run-Tells}
use imece_ide.Fix.Ports.{WorkspaceChangeSet}
use imece_ide.Pipeline.Models.{PipelineStatus, PipelineReport}
use imece_ide.Pipeline.Recorder.{is_waiting_user}
use imece_ide.Pipeline.Outcome.{
  IsOver, Outcome, HasStatus-IsOver, completed_no_changes-IsOver, needs_user-IsOver,
}
use imece_ide.Pipeline.Ports.{PipelinePorts}
use imece_ide.Pipeline.Keeps.{
  KeepStores, Of, skip-Ensures, on_runtime-Ensures, rescue-Ensures, tell_stage-Ensures,
  finish-Outcome, made-Outcome, changes_of-Ensures,
}
use imece_ide.Pipeline.Ends.{
  Job, end_without_changes, advise, settle_decision_needs_user, status_after_gate, end_after_loop,
  after_loop, hand_over,
}

module _ {W : Type 0} ⦃fp : FloatOps⦄ ⦃env : Environment⦄ (ports : PipelinePorts W)
    (mode : Settlement) where
  -- Where `P` held before a task of the pipeline that returned a report, the report tells of run `k`.
  abbrev pub Reports : (World W → Type 0) → String → Task W PipelineReport → Type 0
  Reports P k m = Ensures P m (λ r. Of (Outcome mode k r.status))

  pub end_without_changes-Reports :
      (P : World W → Type 0) (job : Job) (c : WorkspaceChangeSet)
      → Reports P job.run_id (end_without_changes ports job c)
  unfolding end_without_changes
  end_without_changes-Reports P job c =
      >>=-Ensures _ _
        (on_runtime-Ensures P (λ rt. IsOver job.run_id rt.store) _
          (completed_no_changes-IsOver job.run_id))
        (λ a. finish-Outcome ports mode job.run_id _)

  pub advise-Reports :
      (P : World W → Type 0) (job : Job) (task : String) (c : WorkspaceChangeSet)
      → Reports P job.run_id (advise ports job task c)
  unfolding advise
  advise-Reports P job task c = skip-Ensures _ _ _ (λ go. skip-Ensures _ _ _ (λ told.
      skip-Ensures _ _ _ (λ request. skip-Ensures _ _ _ (λ id. skip-Ensures _ _ _ (λ review.
        >>=-Ensures _ _
          (on_runtime-Ensures _ (λ rt. IsOver job.run_id rt.store) _
            (needs_user-IsOver job.run_id "pipeline" _))
          (λ a. finish-Outcome ports mode job.run_id _))))))

  settle_decision-Reports :
      (P : World W → Type 0) (job : Job) (task : String) (loop : FixLoopReport)
      → Reports P job.run_id (settle_decision_needs_user ports job task loop)
  unfolding settle_decision_needs_user
  settle_decision-Reports P job task loop = skip-Ensures _ _ _ (λ go. skip-Ensures _ _ _ (λ told.
      skip-Ensures _ _ _ (λ changes. skip-Ensures _ _ _ (λ request. skip-Ensures _ _ _ (λ id.
        skip-Ensures _ _ _ (λ review.
          >>=-Ensures _ _
            (on_runtime-Ensures _ (λ rt. IsOver job.run_id rt.store) _
              (needs_user-IsOver job.run_id "pipeline" _))
            (λ a. finish-Outcome ports mode job.run_id _)))))))

  told_status : RunStatus → PipelineStatus
  told_status st =
      if is_waiting_user st then PipelineStatus.needs_user else PipelineStatus.completed

  gate_lem :
      (k : String) (w w' : World W) (s : PipelineStatus) (run : RunRecord)
      → get_run k w.runtime.store ≡ ok run
      → status_after_gate ports k w ≡ (ok s, w')
      → (w.runtime ≡ w'.runtime) × (s ≡ told_status run.status)
  unfolding status_after_gate current_run told_status
  gate_lem k w w' s run found h = (ground arith, ground arith)

  told-Outcome :
      (m : Settlement) (k : String) (rt : RunRuntime)
      → HasStatus k rt.store (settled_status m)
      → Outcome m k (told_status (settled_status m)) rt
  unfolding told_status
  told-Outcome complete k rt p = (refl, p)
  told-Outcome await_user k rt p = HasStatus-IsOver k rt.store RunStatus.waiting_user (λ e. cc) p

  -- Read after a settlement, the status of the run is the one that the mode of the gate leaves.
  pub gate-Outcome :
      (k : String)
      → Ensures {W = W}
          (Of (λ rt. HasStatus k rt.store (settled_status mode)))
          (status_after_gate ports k)
          (λ s. Of (Outcome mode k s))
  gate-Outcome k w w' s p h =
      let (same, told) = gate_lem k w w' s p.run p.found h in
      let status = told ∙ ap told_status p.is in
      rw status (
        subst (Outcome mode k (told_status (settled_status mode))) same
          (told-Outcome mode k w.runtime p))

  module _ (keep : KeepStores ports) where
    end_after_loop-Reports :
        (job : Job) (loop : FixLoopReport) (st : PipelineStatus)
        → Reports (Of (Outcome mode job.run_id st)) job.run_id (end_after_loop ports job loop st)
    unfolding end_after_loop
    end_after_loop-Reports job loop st =
        >>=-Ensures _ _ (tell_stage-Ensures ports (Outcome mode job.run_id st) _ _) (λ told.
          >>=-Ensures _ _
            (changes_of-Ensures ports keep (Outcome mode job.run_id st) loop.diff_sha256)
            (λ c. made-Outcome mode job.run_id _))

    after_loop-Reports :
        (job : Job) (task : String) (loop : FixLoopReport) (st : FixLoopStatus)
        → Reports
            (Of (Tells mode job.run_id st loop))
            job.run_id
            (after_loop ports job task loop st)
    unfolding after_loop
    after_loop-Reports job task loop FixLoopStatus.needs_user =
        settle_decision-Reports _ job task loop
    after_loop-Reports job task loop FixLoopStatus.completed =
        >>=-Ensures _ _
          (λ w w' s p h.
            gate-Outcome job.run_id w w' s
              (record { run = p.settled.after; found = p.settled.now; is = p.settled.status }) h)
          (λ s. end_after_loop-Reports job loop s)
    after_loop-Reports job task loop FixLoopStatus.exhausted =
        end_after_loop-Reports job loop PipelineStatus.exhausted
    after_loop-Reports job task loop FixLoopStatus.failed = λ w w' r p h.
        end_after_loop-Reports job loop PipelineStatus.failed w w' r
          (HasStatus-IsOver job.run_id w.runtime.store RunStatus.failed (λ e. cc) p) h

    pub hand_over-Reports :
        (names : Exceptions) (job : Job) (task : String) (request : FixLoopRequest)
        → Reports
            (λ w. IsConsistent w.runtime.store)
            job.run_id
            (hand_over ports mode names job task request)
    unfolding hand_over
    hand_over-Reports names job task request =
        >>=-Ensures _ _
          (rescue-Ensures _ _ (λ w w' r p h.
            (run-Tells ports.fix mode keep.fix names job.run_id none request w w' r p h).0))
          (λ loop. after_loop-Reports job task loop loop.status)
