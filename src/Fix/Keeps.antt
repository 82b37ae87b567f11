-- ===== src/Fix/Keeps.antt =====
-- What the methods of the recorder and of the gate keep of a fix loop (fix_runtime/runner.py), and the
-- status of the run after them.
use imece_ide.Base.{
  String, ◌≡◌, sym, subst, ap, ◌∙◌, none, some, Result, ok, Result-cases, inl, inr, arith,
}
use imece_ide.Run.Models.{FloatOps, RunRecord, RunStatus}
use imece_ide.Run.Events.{RunEventType}
use imece_ide.Run.Projector.Laws.{status_after}
use imece_ide.Run.Store.{Store, get_run}
use imece_ide.Run.Store.Consistency.{IsConsistent}
use imece_ide.Run.Runtime.{Environment, RunRuntime}
use imece_ide.Run.Runtime.Recorded.{record_event-Grew}
use imece_ide.Run.Completion.Checks.{failed_fix_loop}
use imece_ide.Run.Completion.Gate.{evidence, record_failed, fail_fix_loop, fix_loop_payload}
use imece_ide.Fix.Recorder.{Recorder}
use imece_ide.Fix.Task.{World, on_recorder, on_runtime}
use imece_ide.Fix.Ensures.{Ensures, IsReady}
use imece_ide.Fix.Recorded.{Wrote, Advanced}

module _ ⦃fp : FloatOps⦄ where
  -- The status of run `k`.
  pub record HasStatus (k : String) (s : Store) (st : RunStatus) : Type 0 where
    pub run : RunRecord
    pub found : get_run k s ≡ ok run
    pub is : run.status ≡ st

  found_same :
      (k : String) (s : Store) (a b : RunRecord) → get_run k s ≡ ok a → get_run k s ≡ ok b → a ≡ b
  found_same k s a b p q = ground arith

module _ ⦃fp : FloatOps⦄ ⦃env : Environment⦄ where
  pub Wrote-HasStatus :
      (k : String) (type : RunEventType) (rt rt' : RunRuntime)
      → Wrote k type rt rt'
      → HasStatus k rt'.store (status_after type RunStatus.running)
  Wrote-HasStatus k type rt rt' q =
      let same = found_same k rt.store q.grew.before q.before q.grew.found q.found in
      record {
        run = q.grew.after;
        found = q.grew.stored;
        is =
            q.grew.status
            ∙ ap (status_after type) (ap (λ (x : RunRecord). x.status) same ∙ q.running);
      }

  pub fail_fix_loop-HasStatus :
      (k id : String) (rt rt' : RunRuntime)
      → fail_fix_loop k id rt ≡ ok rt'
      → HasStatus k rt'.store RunStatus.failed
  unfolding fail_fix_loop record_failed
  fail_fix_loop-HasStatus k id rt rt' h = elim (Result-cases (evidence k rt)) [
    | inr (e, a) ↦ absurd (ground arith)
    | inl (ev, a) ↦ elim (Result-cases (failed_fix_loop ev.events id)) [
      | inr (e, b) ↦ absurd (ground arith)
      | inl (t, b) ↦
          let g =
            record_event-Grew k RunEventType.run_failed (fix_loop_payload id t) none none "run_gate"
              (some ev.decision_seq) rt rt' (rw (a, b) at h) in
          record { run = g.after; found = g.stored; is = g.status }
    ]
  ]

  module _ {W : Type 0} where
    pub on_recorder-Ensures :
        (k : String) (type : RunEventType)
        (op : Recorder → RunRuntime → Result (Recorder × RunRuntime))
        → ((r r' : Recorder) (rt rt' : RunRuntime)
            → op r rt ≡ ok (r', rt')
            → Advanced type r r' rt rt')
        → Ensures
            (IsReady k)
            (on_recorder {W = W} op)
            (λ a w. IsReady k w × HasStatus k w.runtime.store (status_after type RunStatus.running))
    unfolding on_recorder
    on_recorder-Ensures k type op adv w w' a p h = elim (Result-cases (op w.recorder w.runtime)) [
      | inr (e, q) ↦ absurd (ground arith)
      | inl ((r, rt), q) ↦
          let x = adv w.recorder r w.runtime rt q in
          let y = subst (λ j. Wrote j type w.runtime rt) p.of_run x.wrote in
          let stored : rt ≡ w'.runtime = ground arith in
          let kept : r ≡ w'.recorder = ground arith in
          (
            record {
              consistent =
                  subst (λ (z : RunRuntime). IsConsistent z.store) stored
                    (y.grew.consistent p.consistent);
              of_run = ap (λ (z : Recorder). z.run_id) (sym kept) ∙ x.same_run ∙ p.of_run;
            },
            subst (λ (z : RunRuntime). HasStatus k z.store (status_after type RunStatus.running))
                stored (Wrote-HasStatus k type w.runtime rt y),
          )
    ]

    pub fail_fix_loop-Ensures :
        (P : World W → Type 0) (k id : String)
        → Ensures P
            (on_runtime (fail_fix_loop k id))
            (λ a w. HasStatus k w.runtime.store RunStatus.failed)
    unfolding on_runtime
    fail_fix_loop-Ensures P k id w w' a p h = elim (Result-cases (fail_fix_loop k id w.runtime)) [
      | inr (e, q) ↦ absurd (ground arith)
      | inl (rt, q) ↦
          let stored : rt ≡ w'.runtime = ground arith in
          subst (λ (z : RunRuntime). HasStatus k z.store RunStatus.failed) stored
            (fail_fix_loop-HasStatus k id w.runtime rt q)
    ]
