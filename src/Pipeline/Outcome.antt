-- ===== src/Pipeline/Outcome.antt =====
-- What a report of the pipeline (pipeline_runtime/runner.py) says of its run, and what the methods of
-- run_runtime/pipeline.py leave of the run.
use imece_ide.Base.{
  String, ◌≡◌, ◌≢◌, subst, none, some, Option, ok, false, Result-cases, Bool-cases, inl, inr, arith,
}
use imece_ide.Json.{Dict, end}
use imece_ide.Run.Models.{FloatOps, RunRecord, RunStatus}
use imece_ide.Run.Events.{RunEventType}
use imece_ide.Run.Projector.Laws.{status_after}
use imece_ide.Run.Store.{Store, get_run}
use imece_ide.Run.Runtime.{Environment, RunRuntime, current_run}
use imece_ide.Run.Runtime.Recorded.{record_event-Grew, record_two-Grew}
use imece_ide.Run.Completion.Gate.{Settlement, complete, is_running}
use imece_ide.Fix.Keeps.{HasStatus}
use imece_ide.Pipeline.Models.{PipelineStatus}
use imece_ide.Pipeline.Recorder.{
  record_if_running, needs_user, completed_no_changes, cancelled, failed,
}

module _ ⦃fp : FloatOps⦄ where
  -- Run `k` is there, and is not RUNNING.
  pub record IsOver (k : String) (s : Store) : Type 0 where
    pub run : RunRecord
    pub found : get_run k s ≡ ok run
    pub over : run.status ≢ RunStatus.running

  -- What a status of the report says of the run.
  abbrev pub Outcome : Settlement → String → PipelineStatus → RunRuntime → Type 0
  Outcome mode k PipelineStatus.completed rt =
      (mode ≡ complete) × HasStatus k rt.store RunStatus.succeeded
  Outcome mode k PipelineStatus.exhausted rt = HasStatus k rt.store RunStatus.failed
  Outcome mode k PipelineStatus.failed rt = IsOver k rt.store
  Outcome mode k PipelineStatus.no_changes rt = IsOver k rt.store
  Outcome mode k PipelineStatus.needs_user rt = IsOver k rt.store
  Outcome mode k PipelineStatus.cancelled rt = IsOver k rt.store

  pub HasStatus-IsOver :
      (k : String) (s : Store) (st : RunStatus)
      → st ≢ RunStatus.running
      → HasStatus k s st
      → IsOver k s
  HasStatus-IsOver k s st other h = record {
    run = h.run;
    found = h.found;
    over = λ same. other (ground arith);
  }

  idle : (st : RunStatus) → is_running st ≡ false → st ≢ RunStatus.running
  idle st h e = ground arith

module _ ⦃fp : FloatOps⦄ ⦃env : Environment⦄ where
  record_if_running-IsOver :
      (k : String) (type : RunEventType) (payload : Dict) (rt rt' : RunRuntime)
      → ((st : RunStatus) → status_after type st ≢ RunStatus.running)
      → record_if_running k type payload rt ≡ ok rt'
      → IsOver k rt'.store
  unfolding record_if_running current_run
  record_if_running-IsOver k type payload rt rt' ends h = elim (Result-cases (get_run k rt.store)) [
    | inr (e, a) ↦ absurd (ground arith)
    | inl (run, a) ↦ elim (Bool-cases (is_running run.status)) [
      | inr b ↦
          let same : rt ≡ rt' = ground arith in
          subst (λ (x : RunRuntime). IsOver k x.store) same
            (record { run = run; found = a; over = idle run.status b })
      | inl b ↦
          let g =
            record_event-Grew k type payload none (some k) "pipeline" (some run.last_event_seq) rt
              rt' (ground arith) in
          record {
            run = g.after;
            found = g.stored;
            over = λ e. ends g.before.status (ground arith);
          }
    ]
  ]

  pub completed_no_changes-IsOver :
      (k : String) (rt rt' : RunRuntime) → completed_no_changes k rt ≡ ok rt' → IsOver k rt'.store
  unfolding completed_no_changes
  completed_no_changes-IsOver k rt rt' h =
      record_if_running-IsOver k RunEventType.run_completed _ rt rt' (λ st e. cc) h

  pub cancelled-IsOver :
      (k : String) (rt rt' : RunRuntime) → cancelled k rt ≡ ok rt' → IsOver k rt'.store
  unfolding cancelled
  cancelled-IsOver k rt rt' h =
      record_if_running-IsOver k RunEventType.run_cancelled _ rt rt' (λ st e. cc) h

  pub failed-IsOver :
      (k code : String) (m : Option String) (rt rt' : RunRuntime)
      → failed k code m rt ≡ ok rt'
      → IsOver k rt'.store
  unfolding failed
  failed-IsOver k code m rt rt' h =
      record_if_running-IsOver k RunEventType.run_failed _ rt rt' (λ st e. cc) h

  pub needs_user-IsOver :
      (k origin : String) (payload : Dict) (rt rt' : RunRuntime)
      → needs_user k payload none origin rt ≡ ok rt'
      → IsOver k rt'.store
  unfolding needs_user current_run
  needs_user-IsOver k origin payload rt rt' h = elim (Result-cases (get_run k rt.store)) [
    | inr (e, a) ↦ absurd (ground arith)
    | inl (run, a) ↦ elim (Bool-cases (is_running run.status)) [
      | inr b ↦
          let same : rt ≡ rt' = ground arith in
          subst (λ (x : RunRuntime). IsOver k x.store) same
            (record { run = run; found = a; over = idle run.status b })
      | inl b ↦
          let (mid, _, g) =
            record_two-Grew k RunEventType.proposal_ready payload RunEventType.run_waiting_user end
              (some k) origin (some run.last_event_seq) rt rt' (ground arith) in
          record { run = g.after; found = g.stored; over = λ e. ground (arith, g.status) }
    ]
  ]
