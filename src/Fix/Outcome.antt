-- ===== src/Fix/Outcome.antt =====
-- What a report of the fix loop says of its run: fix_runtime/runner.py.
use imece_ide.Base.{
  ℕ, String, ◌≡◌, refl, subst, Option, none, some, List, Result, Result-cases, inl, inr, arith,
}
use imece_ide.Run.Models.{FloatOps, RunStatus}
use imece_ide.Run.Events.{RunEventType, RunEvent}
use imece_ide.Run.Store.{rows_of}
use imece_ide.Run.Runtime.{Environment, RunRuntime}
use imece_ide.Run.Completion.Gate.{Settlement, complete_reviewed}
use imece_ide.Run.Completion.Settlement.{IsSettled}
use imece_ide.Run.Completion.Written.{Written, complete_reviewed-Written}
use imece_ide.Run.Completion.Reviewed.{IsApprovedLog, complete_reviewed-IsSettled}
use imece_ide.Verification.Models.{VerificationPlan, VerificationReport}
use imece_ide.Review.{ReviewReport, ReviewRequest}
use imece_ide.Decision.Triage.{TriageOutcome}
use imece_ide.Fix.Models.{
  FixLoopStatus, FixTrigger, FixWorkerRequest, FixLoopRequest, FixLoopReport,
}
use imece_ide.Fix.Recorder.{exhausted, failed}
use imece_ide.Fix.Task.{World, Task, Port, pure, lift, on_runtime, ◌>>=◌}
use imece_ide.Fix.Ports.{FixPorts}
use imece_ide.Fix.Ensures.{Ensures, >>=-Ensures, pure-Ensures, IsReady, KeepsStore, lift-Keeps}
use imece_ide.Fix.Recorded.{append_terminal-Advanced}
use imece_ide.Fix.Keeps.{HasStatus, on_recorder-Ensures, fail_fix_loop-Ensures}
use imece_ide.Fix.Branches.{
  Turn, report, again, Scope, report_of, give_up, break_off, leave_to_user,
}

module _ ⦃fp : FloatOps⦄ where
  -- The collaborators write to the run store by its own operations, which keep it consistent.
  pub record KeepStore {W : Type 0} (ports : FixPorts W) : Type 0 where
    pub capture : KeepsStore ports.capture
    pub render :
        (r : FixLoopRequest) (t : FixTrigger) (n : ℕ) (c : Option String)
        → KeepsStore (ports.render r t n c)
    pub worker : (r : FixWorkerRequest) (x : String) → KeepsStore (ports.worker r x)
    pub verification : (p : VerificationPlan) (x : String) → KeepsStore (ports.verification p x)
    pub reviewer : (r : ReviewRequest) (x : String) → KeepsStore (ports.reviewer r x)
    pub decision_gate :
        (g : VerificationPlan → VerificationReport → List String → Port W TriageOutcome)
        → ports.decision_gate ≡ some g
        → (p : VerificationPlan) (r : VerificationReport) (xs : List String) → KeepsStore (g p r xs)

module _ ⦃fp : FloatOps⦄ ⦃env : Environment⦄ where
  -- What a COMPLETED report rests on: the log of the run ends with its settlement, which names a
  -- verification, a review and the diff of the report; in the log before it they are the latest
  -- verification, passed, and the latest review, an approval of exactly that diff.
  pub record IsCompleted (mode : Settlement) (k : String) (r : FixLoopReport) (rt : RunRuntime)
      : Type 0 where
    pub before : RunRuntime
    pub verification_id : String
    pub review_id : String
    pub diff : String
    pub terminal : RunEvent
    pub execution : String
    pub settled : IsSettled mode k verification_id terminal execution before rt
    pub approved :
        IsApprovedLog (rows_of k before.store.events) verification_id review_id diff terminal
    pub written :
        Written mode k verification_id review_id diff
          (rows_of k before.store.events)
          (rows_of k rt.store.events)
    pub reported : r.diff_sha256 ≡ some diff

  abbrev pub Tells : Settlement → String → FixLoopStatus → FixLoopReport → RunRuntime → Type 0
  Tells mode k FixLoopStatus.completed r rt = IsCompleted mode k r rt
  Tells mode k FixLoopStatus.exhausted r rt = HasStatus k rt.store RunStatus.failed
  Tells mode k FixLoopStatus.failed r rt = HasStatus k rt.store RunStatus.failed
  Tells mode k FixLoopStatus.needs_user r rt = HasStatus k rt.store RunStatus.running

  -- What a turn leaves: a report that tells of the run, or a loop that can go on.
  abbrev pub Leaves : {W : Type 0} → Settlement → String → ℕ → Turn → World W → Type 0
  Leaves mode k n (report r) w = Tells mode k r.status r w.runtime × (r.attempts_used ≡ n)
  Leaves mode k n (again t c) w = IsReady k w

module _ {W : Type 0} ⦃fp : FloatOps⦄ ⦃env : Environment⦄ (ports : FixPorts W)
    (mode : Settlement) where
  -- A turn whose run is `k`.
  abbrev pub Turns : String → Scope → Task W Turn → Type 0
  Turns k s m = Ensures (IsReady k) m (Leaves mode k s.attempt_index)

  pub told :
      (s : Scope) (k reason diff : String) (st : FixLoopStatus) (v : Option VerificationReport)
      (rv : Option ReviewReport) (m : Option String) (P : World W → Type 0)
      → ((w : World W) (r : FixLoopReport)
          → r.diff_sha256 ≡ some diff
          → P w
          → Tells mode k st r w.runtime)
      → Ensures P (pure (report_of s st reason v rv diff m)) (Leaves mode k s.attempt_index)
  told s k reason diff st v rv m P tells w w' t p h =
      let (same, after) = pure-Ensures P (report_of s st reason v rv diff m) w w' t p h in
      rw same (tells w' _ refl after, refl)

  pub give_up-Turns :
      (s : Scope) (reason diff : String) (v : Option VerificationReport) (rv : Option ReviewReport)
      → Turns s.run_id s (give_up ports mode s reason v rv diff)
  unfolding give_up exhausted
  give_up-Turns s reason diff v rv =
      >>=-Ensures _ _
        (on_recorder-Ensures s.run_id RunEventType.fix_loop_exhausted _
          (append_terminal-Advanced RunEventType.fix_loop_exhausted _))
        (λ a. >>=-Ensures _ _ (fail_fix_loop-Ensures _ s.run_id s.fix_loop_id) (λ b.
          told s s.run_id reason diff FixLoopStatus.exhausted v rv none
            (λ w. HasStatus s.run_id w.runtime.store RunStatus.failed) (λ w r e p. p)))

  pub break_off-Turns :
      (s : Scope) (reason diff : String) (v : Option VerificationReport) (rv : Option ReviewReport)
      → Turns s.run_id s (break_off ports mode s reason v rv diff)
  unfolding break_off failed
  break_off-Turns s reason diff v rv =
      >>=-Ensures _ _
        (on_recorder-Ensures s.run_id RunEventType.fix_loop_failed _
          (append_terminal-Advanced RunEventType.fix_loop_failed _))
        (λ a. >>=-Ensures _ _ (fail_fix_loop-Ensures _ s.run_id s.fix_loop_id) (λ b.
          told s s.run_id reason diff FixLoopStatus.failed v rv none
            (λ w. HasStatus s.run_id w.runtime.store RunStatus.failed) (λ w r e p. p)))

  pub leave_to_user-Turns :
      (s : Scope) (reason diff : String) (v : VerificationReport) (o : Option TriageOutcome)
      (m : Option String)
      → Turns s.run_id s (leave_to_user ports mode s reason v diff o m)
  unfolding leave_to_user exhausted
  leave_to_user-Turns s reason diff v o m =
      >>=-Ensures _ _
        (on_recorder-Ensures s.run_id RunEventType.fix_loop_exhausted _
          (append_terminal-Advanced RunEventType.fix_loop_exhausted _))
        (λ a.
          told s s.run_id reason diff FixLoopStatus.needs_user (some v) none m
            (λ w. IsReady s.run_id w × HasStatus s.run_id w.runtime.store RunStatus.running)
            (λ w r e p. p.1))

  -- A next attempt, if its trigger is one.
  pub again-Turns :
      (s : Scope) (t : Result FixTrigger) (c : Option String)
      → Turns s.run_id s (lift t >>= λ trigger. pure (again trigger c))
  again-Turns s t c = >>=-Ensures _ _ (lift-Keeps s.run_id t) (λ x w w' turn p h.
      let (same, after) = pure-Ensures (IsReady s.run_id) (again x c) w w' turn p h in
      rw same after)

  -- `complete_reviewed`, in the world that the recorder left.
  pub complete-Ensures :
      (k vid rid diff : String)
      → Ensures {W = W}
          (IsReady k)
          (on_runtime (complete_reviewed mode k vid rid diff))
          (λ a w. (r : FixLoopReport) → r.diff_sha256 ≡ some diff → IsCompleted mode k r w.runtime)
  unfolding on_runtime
  complete-Ensures k vid rid diff w w' a p h r e =
      elim (Result-cases (complete_reviewed mode k vid rid diff w.runtime)) [
        | inr (x, q) ↦ absurd (ground arith)
        | inl (rt, q) ↦
            let (t, x, settled, approved) =
              complete_reviewed-IsSettled mode k vid rid diff w.runtime rt p.consistent q in
            let stored : rt ≡ w'.runtime = ground arith in
            record {
              before = w.runtime;
              verification_id = vid;
              review_id = rid;
              diff = diff;
              terminal = t;
              execution = x;
              settled = subst (IsSettled mode k vid t x w.runtime) stored settled;
              approved = approved;
              written =
                  subst
                    (λ x.
                      Written mode k vid rid diff (rows_of k w.runtime.store.events)
                        (rows_of k x.store.events))
                    stored (complete_reviewed-Written mode k vid rid diff w.runtime rt q);
              reported = e;
            }
      ]
