-- ===== src/Fix/Turns.antt =====
-- The branches of an attempt in fix_runtime/runner.py, and what each leaves.
use imece_ide.Base.{
  String, Bool, true, false, ◌≡◌, Option, none, some, Result-cases, Option-cases, inl, inr, arith,
  if◌then◌else◌, subst, sym, ap, ◌∙◌,
}
use imece_ide.Run.Models.{FloatOps}
use imece_ide.Run.Events.{RunEventType}
use imece_ide.Run.Runtime.{Environment, RunRuntime}
use imece_ide.Run.Store.Consistency.{IsConsistent}
use imece_ide.Run.Completion.Gate.{Settlement}
use imece_ide.Verification.Models.{VerificationStatus, VerificationPlan, VerificationReport}
use imece_ide.Review.{ReviewReport}
use imece_ide.Decision.Triage.{TriageOutcome}
use imece_ide.Fix.Models.{FixLoopStatus, FixLoopRequest}
use imece_ide.Fix.Recorder.{Recorder, completed}
use imece_ide.Fix.Task.{World, Task}
use imece_ide.Fix.Ports.{FixPorts, WorkspaceChangeSet, keep_execution_error, keep_cancellation}
use imece_ide.Fix.Calls.{
  capture, run_verification, evaluate_decision_gate, build_review_request, run_reviewer,
  validate_review_provenance,
}
use imece_ide.Fix.Ensures.{
  Ensures, >>=-Ensures, pure-Ensures, IsReady, Keeps, lift-Keeps, call_port-Keeps, new_id-Keeps,
}
use imece_ide.Fix.Recorded.{append_terminal-Advanced}
use imece_ide.Fix.Keeps.{on_recorder-Ensures}
use imece_ide.Fix.Branches.{Scope, after_failure, after_approval, after_pass, judge, verify}
use imece_ide.Fix.Outcome.{
  KeepStore, Turns, told, give_up-Turns, break_off-Turns, leave_to_user-Turns, again-Turns,
  complete-Ensures,
}

-- Both branches of a test.
pub if-Ensures :
    {W A : Type 0} {P : World W → Type 0} {Q : A → World W → Type 0} (b : Bool) (m n : Task W A)
    → Ensures P m Q
    → Ensures P n Q
    → Ensures P (if b then m else n) Q
if-Ensures true m n x y = x
if-Ensures false m n x y = y

module _ {W : Type 0} ⦃fp : FloatOps⦄ ⦃env : Environment⦄ (ports : FixPorts W)
    (mode : Settlement) where
  after_failure-Turns :
      (s : Scope) (v : VerificationReport) (o : Option TriageOutcome) (diff : String)
      → Turns ports mode s.run_id s (after_failure ports mode s v o diff)
  unfolding after_failure
  after_failure-Turns s v o diff =
      if-Ensures _ _ _ (leave_to_user-Turns ports mode s "needs_user_environment" diff v o _) (
        if-Ensures _ _ _ (leave_to_user-Turns ports mode s "pre_existing_failure" diff v o none) (
          if-Ensures _ _ _ (give_up-Turns ports mode s "budget_exhausted" diff (some v) none)
            (again-Turns ports mode s _ _)))

  module _ (keep : KeepStore ports) where
    pub capture-Keeps : (k : String) → Keeps k (capture ports)
    unfolding capture
    capture-Keeps k = call_port-Keeps k keep_execution_error ports.capture keep.capture

    after_approval-Turns :
        (s : Scope) (vid rid : String) (v : VerificationReport) (r : ReviewReport)
        → Turns ports mode s.run_id s (after_approval ports mode s vid rid v r)
    unfolding after_approval completed
    after_approval-Turns s vid rid v r = >>=-Ensures _ _ (capture-Keeps s.run_id) (λ final.
        if-Ensures _ _ _
          (>>=-Ensures _ _
            (on_recorder-Ensures s.run_id RunEventType.fix_loop_completed _
              (append_terminal-Advanced RunEventType.fix_loop_completed _))
            (λ a.
              >>=-Ensures _ _
                (λ w w' u p h.
                  complete-Ensures ports mode s.run_id vid rid final.diff_sha256 w w' u p.0 h)
                (λ b.
                  told ports mode s s.run_id "reviewed" final.diff_sha256 FixLoopStatus.completed
                    (some v) (some r) none _ (λ w rep e p. p rep e))))
          (break_off-Turns ports mode s "workspace_changed_after_review" final.diff_sha256 (some v)
            (some r)))

    run_verification-Keeps :
        (k : String) (p : VerificationPlan) (id : String) → Keeps k (run_verification ports p id)
    unfolding run_verification
    run_verification-Keeps k p id =
        >>=-Ensures _ _
          (call_port-Keeps k keep_cancellation (ports.verification p id) (keep.verification p id))
          (λ r.
            >>=-Ensures _ _ (lift-Keeps k _)
              (λ x w w' a q h. (pure-Ensures (IsReady k) r w w' a q h).1))

    evaluate-Keeps :
        (k : String) (request : FixLoopRequest) (v : VerificationReport) (c : WorkspaceChangeSet)
        → Keeps k (evaluate_decision_gate ports request v c)
    unfolding evaluate_decision_gate
    evaluate-Keeps k request v c w w' a p h = elim (Option-cases ports.decision_gate) [
      | inl off ↦ let same : w ≡ w' = ground arith in subst (IsReady k) same p
      | inr (gate, on) ↦
          let call = gate request.verification_plan v c.changed_paths w.runtime w.outside in
          let stored : call.1 ≡ w'.runtime = elim (Result-cases call.0) [
            | inl (x, q) ↦ ground arith
            | inr (x, q) ↦ ground arith
          ] in
          let kept : w.recorder ≡ w'.recorder = elim (Result-cases call.0) [
            | inl (x, q) ↦ ground arith
            | inr (x, q) ↦ ground arith
          ] in
          record {
            consistent =
                subst (λ (rt : RunRuntime). IsConsistent rt.store) stored
                  (keep.decision_gate gate on request.verification_plan v c.changed_paths w.runtime
                    w.outside p.consistent);
            of_run = ap (λ (r : Recorder). r.run_id) (sym kept) ∙ p.of_run;
          }
    ]

    after_pass-Turns :
        (s : Scope) (vid : String) (v : VerificationReport)
        → Turns ports mode s.run_id s (after_pass ports mode s vid v)
    unfolding after_pass build_review_request run_reviewer validate_review_provenance
    after_pass-Turns s vid v =
        let k = s.run_id in
        >>=-Ensures _ _ (capture-Keeps k) (λ changes. >>=-Ensures _ _ (lift-Keeps k _) (λ request.
          >>=-Ensures _ _ (new_id-Keeps k) (λ rid.
            >>=-Ensures _ _
              (call_port-Keeps k keep_cancellation (ports.reviewer request rid)
                (keep.reviewer request rid))
              (λ review. >>=-Ensures _ _ (lift-Keeps k _) (λ checked.
                if-Ensures _ _ _
                  (if-Ensures _ _ _
                    (give_up-Turns ports mode s "budget_exhausted" changes.diff_sha256 (some v)
                      (some review))
                    (again-Turns ports mode s _ none))
                  (after_approval-Turns s vid rid v review))))))

    pub judge-Turns :
        (s : Scope) (diff vid : String) (v : VerificationReport) (o : Option TriageOutcome)
        (st : VerificationStatus)
        → Turns ports mode s.run_id s (judge ports mode s diff vid v o st)
    unfolding judge
    judge-Turns s diff vid v o VerificationStatus.error =
        break_off-Turns ports mode s "verification_error" diff (some v) none
    judge-Turns s diff vid v o VerificationStatus.timeout =
        break_off-Turns ports mode s "verification_timeout" diff (some v) none
    judge-Turns s diff vid v o VerificationStatus.fail = after_failure-Turns s v o diff
    judge-Turns s diff vid v o VerificationStatus.pass = after_pass-Turns s vid v

    pub verify-Keeps :
        (k : String) (request : FixLoopRequest) (c : WorkspaceChangeSet)
        → Keeps k (verify ports mode request c)
    unfolding verify
    verify-Keeps k request c = >>=-Ensures _ _ (new_id-Keeps k) (λ vid.
        >>=-Ensures _ _ (run_verification-Keeps k request.verification_plan vid) (λ v.
          >>=-Ensures _ _
            (if-Ensures _ _ _ (evaluate-Keeps k request v c)
              (λ w w' a q h. (pure-Ensures (IsReady k) none w w' a q h).1))
            (λ o.
              if-Ensures _ _ _
                (>>=-Ensures _ _ (new_id-Keeps k) (λ rid.
                  >>=-Ensures _ _ (run_verification-Keeps k request.verification_plan rid)
                    (λ v2 w w' a q h. (pure-Ensures (IsReady k) (rid, v2, none) w w' a q h).1)))
                (λ w w' a q h. (pure-Ensures (IsReady k) (vid, v, o) w w' a q h).1))))
