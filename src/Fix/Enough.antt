-- ===== src/Fix/Enough.antt =====
-- The last attempt of FixLoopRunner._run_attempts (fix_runtime/runner.py) ends the loop.
use imece_ide.Base.{
  ℕ, zero, suc, ◌+◌, ◌<◌, String, Bool, true, false, ◌≡◌, refl, Option, none, some, ok, ◌==◌, arith,
  if◌then◌else◌, subst,
}
use imece_ide.Run.Models.{FloatOps}
use imece_ide.Run.Runtime.{Environment}
use imece_ide.Run.Completion.Gate.{Settlement}
use imece_ide.Verification.Models.{VerificationStatus, VerificationReport, report_status}
use imece_ide.Review.{ReviewReport}
use imece_ide.Decision.Triage.{TriageOutcome}
use imece_ide.Fix.Models.{FixTrigger, FixLoopRequest, FixLoopReport}
use imece_ide.Fix.Task.{World, Task, pure, ◌>>=◌, >>=-same}
use imece_ide.Fix.Ports.{FixPorts}
use imece_ide.Fix.Ensures.{Ensures, >>=-Ensures, pure-Ensures}
use imece_ide.Fix.Turns.{if-Ensures}
use imece_ide.Fix.Branches.{
  Turn, report, again, Scope, give_up, break_off, leave_to_user, is_last_attempt, after_failure,
  after_approval, after_pass, judge,
}
use imece_ide.Fix.Runner.{attempt, run_attempts}

-- Enough to know of a task that it returns a report.
abbrev IsReport : Turn → Type 0
IsReport (report r) = Unit
IsReport (again t c) = ⊥

module _ {W : Type 0} where
  abbrev Ends : Task W Turn → Type 0
  Ends m = Ensures (λ w. Unit) m (λ t w. IsReport t)

  after-Ends :
      {A : Type 0} (m : Task W A) (f : A → Task W Turn) → ((a : A) → Ends (f a)) → Ends (m >>= f)
  after-Ends m f h = >>=-Ensures m f (λ w w' a p q. tt) h

  if_true-Ends : (b : Bool) (m n : Task W Turn) → b ≡ true → Ends m → Ends (if b then m else n)
  if_true-Ends true m n h x = x
  if_true-Ends false m n h x = cc

  report-Ends : (r : FixLoopReport) → Ends (pure (report r))
  report-Ends r w w' t p h =
      let (same, _) = pure-Ensures (λ w. Unit) (report r) w w' t p h in rw same tt

module _ {W : Type 0} ⦃fp : FloatOps⦄ ⦃env : Environment⦄ (ports : FixPorts W)
    (mode : Settlement) where
  give_up-Ends :
      (s : Scope) (reason diff : String) (v : Option VerificationReport) (rv : Option ReviewReport)
      → Ends (give_up ports mode s reason v rv diff)
  unfolding give_up
  give_up-Ends s reason diff v rv = after-Ends _ _ (λ a. after-Ends _ _ (λ b. report-Ends _))

  break_off-Ends :
      (s : Scope) (reason diff : String) (v : Option VerificationReport) (rv : Option ReviewReport)
      → Ends (break_off ports mode s reason v rv diff)
  unfolding break_off
  break_off-Ends s reason diff v rv = after-Ends _ _ (λ a. after-Ends _ _ (λ b. report-Ends _))

  leave_to_user-Ends :
      (s : Scope) (reason diff : String) (v : VerificationReport) (o : Option TriageOutcome)
      (m : Option String)
      → Ends (leave_to_user ports mode s reason v diff o m)
  unfolding leave_to_user
  leave_to_user-Ends s reason diff v o m = after-Ends _ _ (λ a. report-Ends _)

  after_failure-Ends :
      (s : Scope) (v : VerificationReport) (o : Option TriageOutcome) (diff : String)
      → is_last_attempt s ≡ true
      → Ends (after_failure ports mode s v o diff)
  unfolding after_failure
  after_failure-Ends s v o diff last =
      if-Ensures _ _ _ (leave_to_user-Ends s "needs_user_environment" diff v o _) (
        if-Ensures _ _ _ (leave_to_user-Ends s "pre_existing_failure" diff v o none) (
          if_true-Ends (is_last_attempt s) _ _ last
            (give_up-Ends s "budget_exhausted" diff (some v) none)))

  after_approval-Ends :
      (s : Scope) (vid rid : String) (v : VerificationReport) (r : ReviewReport)
      → Ends (after_approval ports mode s vid rid v r)
  unfolding after_approval
  after_approval-Ends s vid rid v r = after-Ends _ _ (λ final.
      if-Ensures _ _ _ (after-Ends _ _ (λ a. after-Ends _ _ (λ b. report-Ends _)))
        (break_off-Ends s "workspace_changed_after_review" final.diff_sha256 (some v) (some r)))

  after_pass-Ends :
      (s : Scope) (vid : String) (v : VerificationReport)
      → is_last_attempt s ≡ true
      → Ends (after_pass ports mode s vid v)
  unfolding after_pass
  after_pass-Ends s vid v last = after-Ends _ _ (λ changes. after-Ends _ _ (λ request.
      after-Ends _ _ (λ rid. after-Ends _ _ (λ review. after-Ends _ _ (λ checked.
        if-Ensures _ _ _
          (if_true-Ends (is_last_attempt s) _ _ last
            (give_up-Ends s "budget_exhausted" changes.diff_sha256 (some v) (some review)))
          (after_approval-Ends s vid rid v review))))))

  judge-Ends :
      (s : Scope) (diff vid : String) (v : VerificationReport) (o : Option TriageOutcome)
      (st : VerificationStatus)
      → is_last_attempt s ≡ true
      → Ends (judge ports mode s diff vid v o st)
  unfolding judge
  judge-Ends s diff vid v o VerificationStatus.error last =
      break_off-Ends s "verification_error" diff (some v) none
  judge-Ends s diff vid v o VerificationStatus.timeout last =
      break_off-Ends s "verification_timeout" diff (some v) none
  judge-Ends s diff vid v o VerificationStatus.fail last = after_failure-Ends s v o diff last
  judge-Ends s diff vid v o VerificationStatus.pass last = after_pass-Ends s vid v last

  attempt-Ends :
      (k id : String) (request : FixLoopRequest) (n : ℕ) (t : FixTrigger) (c : Option String)
      → (n == request.max_fix_attempts) ≡ true
      → Ends (attempt ports mode k id request n t c)
  unfolding attempt
  attempt-Ends k id request n t c last = after-Ends _ _ (λ go. after-Ends _ _ (λ before.
      after-Ends _ _ (λ y. after-Ends _ _ (λ x. after-Ends _ _ (λ a. after-Ends _ _ (λ b.
        after-Ends _ _ (λ d. after-Ends _ _ (λ e. after-Ends _ _ (λ f. after-Ends _ _ (λ after.
          after-Ends _ _ (λ g.
            if-Ensures _ _ _
              (after-Ends _ _
                (λ v. judge-Ends _ after.diff_sha256 v.0 v.1 v.2 (report_status v.1) last))
              (give_up-Ends _ _ after.diff_sha256 none none))))))))))))

  -- More fuel than there are attempts left changes nothing: the loop never runs out of attempts without
  -- a report or an exception of an attempt, so its last `raise` is not reached.
  pub run_attempts-enough :
      (left more : ℕ) (k id : String) (request : FixLoopRequest) (index : ℕ) (t : FixTrigger)
      (c : Option String) (w : World W)
      → 0 < left
      → index + left ≡ request.max_fix_attempts + 1
      → run_attempts ports mode (left + more) k id request index t c w
        ≡ run_attempts ports mode left k id request index t c w
  unfolding run_attempts
  run_attempts-enough zero more k id request index t c w some_left all = absurd (omega arith)
  run_attempts-enough (suc left) more k id request index t c w some_left all =
      let sum : suc (left + more) ≡ suc left + more = omega arith in
      subst
        (λ n.
          run_attempts ports mode n k id request index t c w
          ≡ run_attempts ports mode (suc left) k id request index t c w)
        sum
        (>>=-same (attempt ports mode k id request index t c) _ _ w
          (go left all (run_attempts-enough left more)))
    where
      go :
          (left : ℕ)
          → index + suc left ≡ request.max_fix_attempts + 1
          → ((k id : String) (request : FixLoopRequest) (index : ℕ) (t : FixTrigger)
                (c : Option String) (w : World W)
              → 0 < left
              → index + left ≡ request.max_fix_attempts + 1
              → run_attempts ports mode (left + more) k id request index t c w
                ≡ run_attempts ports mode left k id request index t c w)
          → (turn : Turn) (w1 : World W)
          → attempt ports mode k id request index t c w ≡ (ok turn, w1)
          → (elim turn as (λ x. Task W FixLoopReport) [
            | report r ↦ pure r
            | again next classified ↦
                run_attempts ports mode (left + more) k id request (index + 1) next classified
          ])
              w1
            ≡ (elim turn as (λ x. Task W FixLoopReport) [
              | report r ↦ pure r
              | again next classified ↦
                  run_attempts ports mode left k id request (index + 1) next classified
            ])
                w1
      go left all rest (report r) w1 e = refl
      go zero all rest (again next classified) w1 e =
          absurd
            (attempt-Ends k id request index t c (ground arith) w w1 (again next classified) tt e)
      go (suc left) all rest (again next classified) w1 e =
          rest k id request (index + 1) next classified w1 (omega arith) (omega arith)
