-- ===== src/Pipeline/Keeps.antt =====
-- The tasks of pipeline_runtime/runner.py: what they keep, and how their last steps end.
use imece_ide.Base.{
  String, ◌≡◌, sym, subst, ap, ◌∙◌, Option, none, some, Error, Result, ok, Result-cases, inl, inr,
  arith,
}
use imece_ide.Json.{Dict}
use imece_ide.Run.Models.{FloatOps}
use imece_ide.Run.Store.Consistency.{IsConsistent}
use imece_ide.Run.Runtime.{Environment, RunRuntime}
use imece_ide.Run.Completion.Gate.{Settlement}
use imece_ide.Planner.Models.{PlanReport}
use imece_ide.Verification.Models.{VerificationPlan}
use imece_ide.Fix.Models.{FixTrigger, InitialWorkerRequest}
use imece_ide.Fix.Recorder.{Recorder}
use imece_ide.Fix.Task.{World, Task, lift, on_runtime, call_port, ◌>>=◌, >>=-returned}
use imece_ide.Fix.Ensures.{Ensures, >>=-Ensures, lift-Ensures, Keeps, KeepsStore}
use imece_ide.Fix.Outcome.{KeepStore}
use imece_ide.Pipeline.Models.{PipelineReport, make_report}
use imece_ide.Pipeline.Outcome.{Outcome}
use imece_ide.Pipeline.Ports.{PipelinePorts}
use imece_ide.Pipeline.Calls.{tell_stage, capture, rescue, safe_capture, attempt_quietly}
use imece_ide.Pipeline.Ends.{finish, changes_of}

make_report_lem : (r r2 : PipelineReport) → make_report r ≡ ok r2 → r2 ≡ r
unfolding make_report
make_report_lem r r2 h = ground arith

module _ {W : Type 0} where
  -- Steps whose effects do not matter for what follows.
  pub skip-Ensures :
      {A B : Type 0} (P : World W → Type 0) {R : B → World W → Type 0} (m : Task W A)
      (f : A → Task W B)
      → ((a : A) → Ensures (λ w. Unit {0}) (f a) R)
      → Ensures P (m >>= f) R
  skip-Ensures P m f rest w w' b p h =
      let (a, w1, ran, then_ran) = >>=-returned m f w w' b h in rest a w1 w' b tt then_ran

module _ {W : Type 0} ⦃fp : FloatOps⦄ where
  -- The collaborators write to the run store by its own operations, which keep it consistent; the
  -- provider of change sets reads the workspace alone.
  pub record KeepStores (ports : PipelinePorts W) : Type 0 where
    pub fix : KeepStore ports.fix
    pub planner : (task id : String) → KeepsStore (ports.planner task id)
    pub detect : KeepsStore ports.detect_verification_plan
    pub render_initial :
        (task : String) (p : PlanReport) (v : Option VerificationPlan) (preview : Option String)
        → KeepsStore (ports.render_initial task p v preview)
    pub render_feedback :
        (task : String) (p : Option String) (t : FixTrigger)
        → KeepsStore (ports.render_feedback task p t)
    pub initial_worker :
        (r : InitialWorkerRequest) (x : String) → KeepsStore (ports.initial_worker r x)
    pub capture_reads : (rt : RunRuntime) (o : W) → (ports.fix.capture rt o).1 ≡ rt

  -- A predicate of the run runtime alone.
  abbrev pub Of : (RunRuntime → Type 0) → World W → Type 0
  Of P w = P w.runtime

  pub on_runtime-Ensures :
      (P : World W → Type 0) (Q : RunRuntime → Type 0) (op : RunRuntime → Result RunRuntime)
      → ((rt rt' : RunRuntime) → op rt ≡ ok rt' → Q rt')
      → Ensures P (on_runtime op) (λ a. Of Q)
  unfolding on_runtime
  on_runtime-Ensures P Q op gives w w' a p h = elim (Result-cases (op w.runtime)) [
    | inr (e, q) ↦ absurd (ground arith)
    | inl (rt, q) ↦ let same : rt ≡ w'.runtime = ground arith in subst Q same (gives w.runtime rt q)
  ]

  pub rescue-Ensures :
      {A : Type 0} {P : World W → Type 0} {Q : A → World W → Type 0} (f : Error → Error)
      (m : Task W A)
      → Ensures P m Q
      → Ensures P (rescue f m) Q
  unfolding rescue
  rescue-Ensures f m body w w' a p h = elim (Result-cases (m w).0) [
    | inr (e, q) ↦ absurd (ground arith)
    | inl (b, q) ↦ body w w' a p (ground arith)
  ]

  pub made-Outcome :
      (mode : Settlement) (k : String) (r : PipelineReport)
      → Ensures {W = W}
          (Of (Outcome mode k r.status))
          (lift (make_report r))
          (λ r2. Of (Outcome mode k r2.status))
  made-Outcome mode k r w w' r2 p h =
      let (made, after) = lift-Ensures (Of (Outcome mode k r.status)) _ w w' r2 p h in
      rw (make_report_lem r r2 made) after

  module _ (ports : PipelinePorts W) where
    pub tell_stage-Ensures :
        (P : RunRuntime → Type 0) (stage : String) (info : Dict)
        → Ensures (Of P) (tell_stage ports stage info) (λ a. Of P)
    unfolding tell_stage
    tell_stage-Ensures P stage info w w' a p h =
        let same : w.runtime ≡ w'.runtime = ground arith in subst P same p

    pub tell_stage-Keeps : (j stage : String) (info : Dict) → Keeps j (tell_stage ports stage info)
    unfolding tell_stage
    tell_stage-Keeps j stage info w w' a p h = record {
      consistent =
          let same : w.runtime.store ≡ w'.runtime.store = ground arith in
          subst IsConsistent same p.consistent;
      of_run =
          let same : w.recorder ≡ w'.recorder = ground arith in
          ap (λ (r : Recorder). r.run_id) (sym same) ∙ p.of_run;
    }

    -- on_stage("done", …), and the report that is made is the one that is returned.
    pub finish-Outcome :
        ⦃env : Environment⦄ (mode : Settlement) (k : String) (r : PipelineReport)
        → Ensures
            (Of (Outcome mode k r.status))
            (finish ports r)
            (λ r2. Of (Outcome mode k r2.status))
    unfolding finish
    finish-Outcome mode k r =
        >>=-Ensures _ _ (tell_stage-Ensures (Outcome mode k r.status) _ _)
          (λ told. made-Outcome mode k r)

    -- The change set of a report does not reach the run store.
    pub changes_of-Ensures :
        ⦃env : Environment⦄ (keep : KeepStores ports) (P : RunRuntime → Type 0) (d : Option String)
        → Ensures (Of P) (changes_of ports d) (λ c. Of P)
    unfolding changes_of safe_capture attempt_quietly capture call_port
    changes_of-Ensures keep P none w w' a p h =
        let same : w.runtime ≡ w'.runtime = ground arith in subst P same p
    changes_of-Ensures keep P (some d) w w' a p h =
        let got = ports.fix.capture w.runtime w.outside in
        let stored : got.1 ≡ w'.runtime = elim (Result-cases got.0) [
          | inl (x, q) ↦ ground arith
          | inr (x, q) ↦ ground arith
        ] in
        subst P (sym (keep.capture_reads w.runtime w.outside) ∙ stored) p
